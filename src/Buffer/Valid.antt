-- ===== src/Buffer/Valid.antt =====
-- When a buffer is well formed, what it holds, and how writers are specified.
use as_smpp.Prelude.{ℕ, ◌+◌, ◌≤◌, ◌<◌, ◌≡◌, refl, sym, ap, ◌∙◌, arith}
use as_smpp.Prelude.{List, [], ◌++◌, append-nil, append_assoc, Run, ret, ◌>>=◌}
use as_smpp.Prelude.{length, take, drop, length-append, length-take, length-drop}
use as_smpp.Prelude.{take-append, drop-append, drop-drop, take-append-drop}
use as_smpp.Memory.{size_mod}
use as_smpp.Buffer.{Buffer}

-- The block has the size that is on record, and the data lie in it.
pub record IsValid (b : Buffer) : Type 0 where
  pub sized : length b.ptr ≡ b.capacity
  pub filled : b.data_len ≤ b.capacity
  pub bounded : b.capacity < size_mod

-- The bytes that a buffer holds, the abstract view of it.
abbrev pub contents : Buffer → List ℕ
contents b = take b.data_len b.ptr

-- The buffer with `xs` behind its data and no other cell changed.
unfoldable pub fill : List ℕ → Buffer → Buffer
fill xs b = record b {
  ptr = contents b ++ (xs ++ drop (b.data_len + length xs) b.ptr);
  data_len = b.data_len + length xs;
}

-- A writer that puts `xs` into the room that is left.
pub record Fills (xs : List ℕ) (f : Buffer → Run Buffer) : Type 0 where
  pub run : (b : Buffer) → IsValid b → b.data_len + length xs ≤ b.capacity → f b ≡ ret (fill xs b)

-- `b'` is `b` with `xs` appended to its data, and its block is larger by at most `cost` cells.
pub record Appended (cost : ℕ) (xs : List ℕ) (b b' : Buffer) : Type 0 where
  pub valid : IsValid b'
  pub holds : contents b' ≡ contents b ++ xs
  pub growth : b'.capacity ≤ b.capacity + cost

-- A writer that appends `xs` to whatever a well-formed buffer holds, where size_t has room for that.
pub record Writes (cost : ℕ) (xs : List ℕ) (f : Buffer → Run Buffer) : Type 0 where
  pub run :
      (b : Buffer)
      → IsValid b
      → b.capacity + cost < size_mod
      → (b' : Buffer) × (f b ≡ ret b') × Appended cost xs b b'

pub length-contents : (b : Buffer) → IsValid b → length (contents b) ≡ b.data_len
length-contents b v = omega (arith, length-take b.data_len b.ptr, v.sized, v.filled)

pub fill-IsValid :
    (xs : List ℕ) (b : Buffer)
    → IsValid b
    → b.data_len + length xs ≤ b.capacity
    → IsValid (fill xs b)
unfolding fill
fill-IsValid xs b v room = record {
  sized = omega (
    arith,
    length-append (contents b) (xs ++ drop (b.data_len + length xs) b.ptr),
    length-append xs (drop (b.data_len + length xs) b.ptr),
    length-drop (b.data_len + length xs) b.ptr,
    length-contents b v,
    v.sized,
  );
  filled = room;
  bounded = v.bounded;
}

pub contents-fill : (xs : List ℕ) (b : Buffer) → IsValid b → contents (fill xs b) ≡ contents b ++ xs
unfolding fill
contents-fill xs b v =
    let rest = drop (b.data_len + length xs) b.ptr in
    rw (← append_assoc (contents b) xs rest) (
      take-append (contents b ++ xs) rest (b.data_len + length xs)
        (omega (arith, length-append (contents b) xs, length-contents b v)))

pub drop-fill :
    (xs : List ℕ) (b : Buffer)
    → IsValid b
    → drop (b.data_len + length xs) (fill xs b).ptr ≡ drop (b.data_len + length xs) b.ptr
unfolding fill
drop-fill xs b v =
    let rest = drop (b.data_len + length xs) b.ptr in
    rw (← append_assoc (contents b) xs rest) (
      drop-append (contents b ++ xs) rest (b.data_len + length xs)
        (omega (arith, length-append (contents b) xs, length-contents b v)))

drop-fill_more :
    (xs : List ℕ) (k : ℕ) (b : Buffer)
    → IsValid b
    → drop (b.data_len + length xs + k) (fill xs b).ptr ≡ drop (b.data_len + length xs + k) b.ptr
drop-fill_more xs k b v =
    sym (drop-drop k (b.data_len + length xs) (fill xs b).ptr)
    ∙ ap (λ t. drop k t) (drop-fill xs b v)
    ∙ drop-drop k (b.data_len + length xs) b.ptr

abbrev block_of : List ℕ → List ℕ → List ℕ → List ℕ
block_of front xs rest = front ++ (xs ++ rest)

pub fill-fill : (xs ys : List ℕ) (b : Buffer) → IsValid b → fill ys (fill xs b) ≡ fill (xs ++ ys) b
unfolding fill
fill-fill xs ys b v =
    let d = b.data_len in
    let total : d + length xs + length ys ≡ d + length (xs ++ ys) =
      omega (arith, length-append xs ys) in
    let cells : block_of (contents (fill xs b)) ys
          (drop (d + length xs + length ys) (fill xs b).ptr)
        ≡ block_of (contents b) (xs ++ ys) (drop (d + length (xs ++ ys)) b.ptr) =
      rw (contents-fill xs b v, drop-fill_more xs (length ys) b v, total)
        (append_assoc (contents b) xs _ ∙ ap (λ t. contents b ++ t) (sym (append_assoc xs ys _))) in
    λ i. record { ptr = cells i; data_len = total i; capacity = b.capacity }

pub Fills-nothing : Fills [] ret
unfolding fill
Fills-nothing = record {
  run = λ b v room.
      let len : b.data_len ≡ b.data_len + 0 = omega arith in
      let cells : b.ptr ≡ contents b ++ drop (b.data_len + 0) b.ptr =
        sym (rw (← len) (take-append-drop b.data_len b.ptr)) in
      λ i. ret (record { ptr = cells i; data_len = len i; capacity = b.capacity });
}

-- One writer after another, in the room that is left.
pub Fills-bind :
    {xs ys : List ℕ} {f g : Buffer → Run Buffer}
    → Fills xs f
    → Fills ys g
    → Fills (xs ++ ys) (λ b. f b >>= g)
Fills-bind {xs} {ys} {f} {g} hf hg = record {
  run = λ b v room.
      let len = length-append xs ys in
      rw (hf.run b v (omega (arith, len))) (
        hg.run (fill xs b) (fill-IsValid xs b v (omega (arith, len)))
          (unfold fill in omega (arith, len))
        ∙ ap ret (fill-fill xs ys b v));
}

-- One writer after another: the bytes are joined, and the costs add up.
pub Writes-bind :
    {c d : ℕ} {xs ys : List ℕ} {f g : Buffer → Run Buffer}
    → Writes c xs f
    → Writes d ys g
    → Writes (c + d) (xs ++ ys) (λ b. f b >>= g)
Writes-bind {c} {d} {xs} {ys} {f} {g} hf hg = record {
  run = λ b v room.
      let (b₁, r₁, a₁) = hf.run b v (omega arith) in
      let (b₂, r₂, a₂) = hg.run b₁ a₁.valid (omega (arith, a₁.growth)) in
      (
        b₂,
        rw r₁ r₂,
        record {
          valid = a₂.valid;
          holds = a₂.holds ∙ ap (λ t. t ++ ys) a₁.holds ∙ append_assoc (contents b) xs ys;
          growth = omega (arith, a₁.growth, a₂.growth);
        },
      );
}

pub Writes-nothing : Writes 0 [] ret
Writes-nothing = record {
  run = λ b v room.
      (b, refl, record { valid = v; holds = sym (append-nil (contents b)); growth = omega arith });
}

pub Writes-weaken :
    {c d : ℕ} {xs : List ℕ} {f : Buffer → Run Buffer} → c ≤ d → Writes c xs f → Writes d xs f
Writes-weaken h w = record {
  run = λ b v room.
      let (b', r, a) = w.run b v (omega arith) in
      (b', r, record { valid = a.valid; holds = a.holds; growth = omega (arith, a.growth) });
}
