-- ===== src/Serializer/Text.antt =====
-- The strings and the binary data of serializer.c.
use as_smpp.Prelude.{ℕ, zero, suc, ◌+◌, ◌%◌, ◌≤◌, ◌<◌, ◌≡◌, refl, ap, ◌∙◌, false}
use as_smpp.Prelude.{List, [], ◌∷◌, ◌++◌, append_assoc, some, none, arith, ret, fault}
use as_smpp.Prelude.{length, take, drop, All, length-append, length-take}
use as_smpp.Prelude.{take-append, take-append_one, take-append_le, lt→ltb, ltb-false, ◌==◌}
use as_smpp.Memory.{Memory, IsSupplied, size_mod}
use as_smpp.Buffer.{Buffer}
use mathlib.Core.Path.{ap₂}
use as_smpp.Prelude.{sym, drop-drop, drop-append, length-drop}
use as_smpp.Buffer.Cells.{store, store_lem, load_block_lem, copy_in_lem, copy_in_fault}
use as_smpp.Buffer.Valid.{Fills, Fills-bind, Fills-nothing, Writes, Writes-nothing, Writes-weaken}
use as_smpp.Buffer.Growth.{Writes-grow}
use as_smpp.Buffer.Editing.{push-Fills, push_block-Fills}
use as_smpp.Serializer.{strlen, write_chars, write_string, serialize_string, serialize_binary}
use as_smpp.Serializer.{copy_text, deserialize_string, deserialize_binary}
use as_smpp.Serializer.Spec.{Holds, Holds-at, Holds-front, Holds-next, Holds-room, Reads}

-- The characters of a text: bytes, and not the terminator.
abbrev pub IsChar : ℕ → Type 0
IsChar c = (0 < c) × (c < 256)

pub strlen_lem : (t rest : List ℕ) → All IsChar t → strlen (t ++ (0 ∷ rest)) ≡ ret (length t)
unfolding strlen
strlen_lem [] rest h = refl
strlen_lem (zero ∷ t) rest h = absurd (omega (arith, h.0.0))
strlen_lem (suc c ∷ t) rest h = rw (strlen_lem t rest h.1)

write_chars-Fills :
    (n : ℕ) (cells : List ℕ) → n ≤ length cells → Fills (take n cells) (write_chars n cells)
unfolding write_chars
write_chars-Fills zero cells h = Fills-nothing
write_chars-Fills (suc n) [] h = elim h [ ]
write_chars-Fills (suc n) (c ∷ cells) h =
    Fills-bind (push-Fills c) (write_chars-Fills n cells (omega arith))

write_string-Fills :
    (t rest : List ℕ) (max_len : ℕ)
    → All IsChar t
    → length t < max_len
    → Fills (t ++ (0 ∷ [])) (write_string (some (t ++ (0 ∷ rest))) max_len)
unfolding write_string
write_string-Fills t rest max_len ok short =
    let cells = t ++ (0 ∷ rest) in
    let body : Fills (take (length t + 1) cells) (write_chars (length t + 1) cells) =
      write_chars-Fills (length t + 1) cells (omega (arith, length-append t (0 ∷ rest))) in
    let shown : Fills (t ++ (0 ∷ [])) (write_chars (length t + 1) cells) =
      rw (take-append_one t 0 rest (length t + 1) refl) at body in
    record {
      run = λ b v room.
          rw (strlen_lem t rest ok, ltb-false max_len (length t + 1) (omega arith))
            (shown.run b v room);
    }

write_string-Fills_long :
    (t rest : List ℕ) (max_len : ℕ)
    → All IsChar t
    → max_len ≤ length t
    → Fills (take max_len t) (write_string (some (t ++ (0 ∷ rest))) max_len)
unfolding write_string
write_string-Fills_long t rest max_len ok long =
    let cells = t ++ (0 ∷ rest) in
    let body : Fills (take max_len cells) (write_chars max_len cells) =
      write_chars-Fills max_len cells (omega (arith, length-append t (0 ∷ rest))) in
    let shown : Fills (take max_len t) (write_chars max_len cells) =
      rw (take-append_le max_len t (0 ∷ rest) long) at body in
    record {
      run = λ b v room.
          rw (strlen_lem t rest ok, lt→ltb max_len (length t + 1) (omega arith))
            (shown.run b v room);
    }

module _ (mem : Memory) (supply : IsSupplied mem) where
  -- A text that is shorter than the field is written with its terminator.
  pub serialize_string-Writes :
      (t rest : List ℕ) (max_len : ℕ)
      → All IsChar t
      → length t < max_len
      → Writes
          (max_len + 16)
          (t ++ (0 ∷ []))
          (λ b. serialize_string mem b (some (t ++ (0 ∷ rest))) max_len)
  unfolding serialize_string
  serialize_string-Writes t rest max_len ok short =
      Writes-grow mem supply max_len (omega (arith, length-append t (0 ∷ [])))
        (write_string-Fills t rest max_len ok short)

  -- A text that does not fit is cut, and the cut text has no terminator.
  pub serialize_string-Writes_long :
      (t rest : List ℕ) (max_len : ℕ)
      → All IsChar t
      → max_len ≤ length t
      → Writes
          (max_len + 16)
          (take max_len t)
          (λ b. serialize_string mem b (some (t ++ (0 ∷ rest))) max_len)
  unfolding serialize_string
  serialize_string-Writes_long t rest max_len ok long =
      Writes-grow mem supply max_len (omega (arith, length-take max_len t))
        (write_string-Fills_long t rest max_len ok long)

  -- A null pointer is written as the empty string.
  pub serialize_string-Writes_null :
      (max_len : ℕ)
      → 0 < max_len
      → Writes (max_len + 16) (0 ∷ []) (λ b. serialize_string mem b none max_len)
  unfolding serialize_string write_string
  serialize_string-Writes_null max_len h = Writes-grow mem supply max_len h (push-Fills 0)

  -- `len` bytes of binary data are written as they are.
  pub serialize_binary-Writes :
      (value : List ℕ) (len : ℕ)
      → len ≤ length value
      → Writes (len + 16) (take len value) (λ b. serialize_binary mem b value len)
  unfolding serialize_binary
  serialize_binary-Writes value zero h = Writes-weaken (omega arith) Writes-nothing
  serialize_binary-Writes value (suc len) h =
      let some_len : (suc len == 0) ≡ false = ground arith in
      let w =
        Writes-grow mem supply (suc len) (omega (arith, length-take (suc len) value))
          (push_block-Fills value (suc len) h) in
      record { run = λ b v room. rw some_len (w.run b v room) }

-- A terminated text that the target has room for is copied with its terminator.
pub deserialize_string-Reads :
    (t target : List ℕ) (size : ℕ)
    → All IsChar t
    → length t < length target
    → Reads
        (t ++ (0 ∷ []))
        (some (t ++ (0 ∷ drop (length t + 1) target)))
        (λ b i. deserialize_string (some target) b i size)
unfolding deserialize_string copy_text
deserialize_string-Reads t target buffer_size ok room = record {
  run = λ b index rest h.
      let n = length t in
      let seen : drop index b.ptr ≡ t ++ (0 ∷ rest) = h.cells ∙ append_assoc t (0 ∷ []) rest in
      let text = take-append_one t 0 rest (n + 1) refl in
      let size = length-append t (0 ∷ []) in
      let next : (index + (n + 1)) % size_mod ≡ index + length (t ++ (0 ∷ [])) =
        omega (arith, size, Holds-room h, h.valid.bounded) in
      let whole : length (t ++ (0 ∷ [])) ≡ n + 1 = omega (arith, size) in
      rw
        (
          seen,
          strlen_lem t rest ok,
          text,
          copy_in_lem target 0 (t ++ (0 ∷ [])) (omega (arith, size)),
          next,
        )
        (ap (λ s. ret (some s, index + length (t ++ (0 ∷ []))))
          (append_assoc t (0 ∷ []) _ ∙ ap (λ k. t ++ (0 ∷ drop k target)) (omega (arith, whole))));
}

-- Where a well-formed buffer holds a text with its terminator and the target has no room for them, the
-- copy writes past the end of the target, whatever size of the target the caller states.
pub deserialize_string_overflow :
    (t target : List ℕ) (size : ℕ) (b : Buffer) (index : ℕ) (rest : List ℕ)
    → All IsChar t
    → length target ≤ length t
    → Holds b index (t ++ (0 ∷ [])) rest
    → deserialize_string (some target) b index size ≡ fault
unfolding deserialize_string copy_text
deserialize_string_overflow t target size b index rest ok small h =
    let seen : drop index b.ptr ≡ t ++ (0 ∷ rest) = h.cells ∙ append_assoc t (0 ∷ []) rest in
    rw
      (
        seen,
        strlen_lem t rest ok,
        take-append_one t 0 rest (length t + 1) refl,
        copy_in_fault target 0 (t ++ (0 ∷ [])) (omega (arith, length-append t (0 ∷ []))),
      )
      refl

-- Binary data that the target has room for are copied to its front.
pub deserialize_binary-Reads :
    (bytes target : List ℕ) (len : ℕ)
    → len ≡ length bytes
    → len ≤ length target
    → Reads bytes (bytes ++ drop len target) (λ b i. deserialize_binary target b i len)
unfolding deserialize_binary
deserialize_binary-Reads bytes target len e room = record {
  run = λ b index rest h.
      let fits : index + len ≤ length b.ptr = omega (arith, Holds-room h, h.valid.sized) in
      let next : (index + len) % size_mod ≡ index + length bytes =
        omega (arith, Holds-room h, h.valid.bounded) in
      rw
        (
          load_block_lem b.ptr index len fits,
          h.cells,
          take-append bytes rest len e,
          copy_in_lem target 0 bytes (omega arith),
          next,
        )
        (ap (λ k. ret (bytes ++ drop k target, index + length bytes)) (omega arith));
}

-- A text at the place where a reader stands, and the place behind it.
pub read_text :
    {b : Buffer} {index : ℕ} (t target : List ℕ) (size : ℕ) (ys rest : List ℕ)
    → All IsChar t
    → length t < length target
    → Holds b index ((t ++ (0 ∷ [])) ++ ys) rest
    → (deserialize_string (some target) b index size
        ≡ ret (some (t ++ (0 ∷ drop (length t + 1) target)), index + (length t + 1)))
      × Holds b (index + (length t + 1)) ys rest
read_text {b} {index} t target size ys rest ok room held =
    let wire = t ++ (0 ∷ []) in
    let len : length wire ≡ length t + 1 = length-append t (0 ∷ []) in
    (
      (deserialize_string-Reads t target size ok room).run b index (ys ++ rest)
            (Holds-front wire ys rest held)
          ∙ ap (λ k. ret (some (t ++ (0 ∷ drop (length t + 1) target)), index + k)) len,
      Holds-at (ap (λ k. index + k) len) (Holds-next wire ys rest held),
    )

-- Binary data at the end of what a reader looks for.
pub read_binary :
    {b : Buffer} {index : ℕ} (bytes target rest : List ℕ)
    → length bytes ≤ length target
    → Holds b index bytes rest
    → deserialize_binary target b index (length bytes)
      ≡ ret (bytes ++ drop (length bytes) target, index + length bytes)
read_binary {b} {index} bytes target rest room held =
    (deserialize_binary-Reads bytes target (length bytes) refl room).run b index rest held

-- The terminator behind data that were copied to the front of a block.
pub store_terminator :
    (bytes target : List ℕ)
    → length bytes < length target
    → store (bytes ++ drop (length bytes) target) (length bytes) 0
      ≡ ret (bytes ++ (0 ∷ drop (length bytes + 1) target))
store_terminator bytes target room =
    let n = length bytes in
    let tail = drop n target in
    let behind : drop (n + 1) (bytes ++ tail) ≡ drop (n + 1) target =
      sym (drop-drop 1 n (bytes ++ tail))
      ∙ ap (λ t. drop 1 t) (drop-append bytes tail n refl)
      ∙ drop-drop 1 n target in
    store_lem (bytes ++ tail) n 0 (omega (arith, length-append bytes tail, length-drop n target))
    ∙ ap₂ (λ s t. ret (s ++ (0 ∷ t))) (take-append bytes tail n refl) behind
