-- ===== src/Serializer/Spec.antt =====
-- What the fields look like on the wire, in plain arithmetic, and how readers are specified.
use as_smpp.Prelude.{ℕ, zero, suc, ◌+◌, ◌*◌, ◌/◌, ◌%◌, ◌^◌, ◌≤◌, ◌<◌, ◌≡◌, refl, sym, ap, ◌∙◌}
use as_smpp.Prelude.{List, [], ◌∷◌, ◌++◌, append_assoc, arith, Run, ret, some}
use as_smpp.Prelude.{
  length, length-append, length-drop, drop, drop-drop, drop-append, take-append-drop,
}
use as_smpp.Buffer.{Buffer}
use as_smpp.Buffer.Valid.{IsValid, contents}
use as_smpp.Types.{CharPtr}

abbrev pub IsByte : ℕ → Type 0
IsByte b = b < 256

-- The `n` low bytes of `v`, the highest first.
unfoldable pub big_endian : ℕ → ℕ → List ℕ
big_endian zero v = []
big_endian (suc n) v = (v / 2 ^ (n * 8) % 256) ∷ big_endian n v

-- The number that bytes stand for, the highest first, behind the number `acc`.
unfoldable pub from_bytes : ℕ → List ℕ → ℕ
from_bytes acc [] = acc
from_bytes acc (b ∷ bs) = from_bytes (acc * 256 + b) bs

-- From `index` on the block of a well-formed buffer holds `xs` and then `rest`.
pub record Holds (b : Buffer) (index : ℕ) (xs rest : List ℕ) : Type 0 where
  pub valid : IsValid b
  pub inside : index ≤ b.capacity
  pub cells : drop index b.ptr ≡ xs ++ rest

-- A reader that takes `xs` for `a`, and stops behind it.
pub record Reads {A : Type 0} (xs : List ℕ) (a : A) (f : Buffer → ℕ → Run (A × ℕ)) : Type 0 where
  pub run :
      (b : Buffer) (index : ℕ) (rest : List ℕ)
      → Holds b index xs rest
      → f b index ≡ ret (a, index + length xs)

pub Holds-room :
    {b : Buffer} {index : ℕ} {xs rest : List ℕ}
    → Holds b index xs rest
    → index + length xs + length rest ≡ b.capacity
Holds-room {b} {index} {xs} {rest} h =
    let v = h.valid in
    omega
      (arith, ap length h.cells, length-append xs rest, length-drop index b.ptr, v.sized, h.inside)

pub Holds-next :
    {b : Buffer} {index : ℕ} (xs ys rest : List ℕ)
    → Holds b index (xs ++ ys) rest
    → Holds b (index + length xs) ys rest
Holds-next {b} {index} xs ys rest h = record {
  valid = h.valid;
  inside = omega (arith, Holds-room h, length-append xs ys);
  cells =
      sym (drop-drop (length xs) index b.ptr)
      ∙ ap (λ t. drop (length xs) t) (h.cells ∙ append_assoc xs ys rest)
      ∙ drop-append xs (ys ++ rest) (length xs) refl;
}

pub Holds-front :
    {b : Buffer} {index : ℕ} (xs ys rest : List ℕ)
    → Holds b index (xs ++ ys) rest
    → Holds b index xs (ys ++ rest)
Holds-front xs ys rest h = record {
  valid = h.valid;
  inside = h.inside;
  cells = h.cells ∙ append_assoc xs ys rest;
}

-- The same place, written otherwise.
pub Holds-at :
    {b : Buffer} {i j : ℕ} {xs rest : List ℕ} → i ≡ j → Holds b i xs rest → Holds b j xs rest
Holds-at {b} {xs = xs} {rest = rest} e h = rw (← e) h

-- The string that a pointer points to is `t`.
abbrev pub PointsTo : CharPtr → List ℕ → Type 0
PointsTo p t = (rest : List ℕ) × (p ≡ some (t ++ (0 ∷ rest)))

-- What the data begin with is what a reader finds at the front.
pub Holds-contents :
    {b : Buffer} (xs ys : List ℕ)
    → IsValid b
    → contents b ≡ xs ++ ys
    → Holds b 0 xs (ys ++ drop b.data_len b.ptr)
Holds-contents {b} xs ys v e = record {
  valid = v;
  inside = omega arith;
  cells =
      sym (take-append-drop b.data_len b.ptr)
      ∙ ap (λ t. t ++ drop b.data_len b.ptr) e
      ∙ append_assoc xs ys (drop b.data_len b.ptr);
}
