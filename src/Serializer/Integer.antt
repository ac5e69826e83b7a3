-- ===== src/Serializer/Integer.antt =====
-- as_smpp_serialize_integer and as_smpp_deserialize_integer are the big-endian form and its inverse.
use as_smpp.Prelude.{ℕ, zero, suc, ◌+◌, ◌*◌, ◌/◌, ◌%◌, ◌^◌, ◌≤◌, ◌<◌, ◌≡◌, refl, sym, ap, ◌∙◌}
use as_smpp.Prelude.{List, [], ◌∷◌, ◌++◌, arith, ret, length, All, bit_or}
use as_smpp.Prelude.{get_elem?-drop, lt→ltb}
use as_smpp.Prelude.Bits.{bit_and_byte, bit_or_low}
use as_smpp.Memory.{Memory, IsSupplied, size_mod}
use as_smpp.Buffer.{Buffer}
use as_smpp.Buffer.Valid.{Fills, Fills-bind, Fills-nothing, Writes}
use as_smpp.Buffer.Growth.{Writes-grow}
use as_smpp.Buffer.Editing.{push-Fills}
use as_smpp.Serializer.{shift_right, shift_left, write_digits, read_digits}
use as_smpp.Serializer.{serialize_integer, deserialize_integer}
use as_smpp.Serializer.Spec.{
  IsByte, big_endian, from_bytes, Holds, Holds-room, Holds-front, Holds-next, Reads,
}
use native.Mathlib.Nat.{mod-eq_of_lt}
use mathlib.Core.Path.{ap₂}

pub length-big_endian : (n v : ℕ) → length (big_endian n v) ≡ n
unfolding big_endian
length-big_endian zero v = refl
length-big_endian (suc n) v = ap suc (length-big_endian n v)

pub big_endian-IsByte : (n v : ℕ) → All IsByte (big_endian n v)
unfolding big_endian
big_endian-IsByte zero v = tt
big_endian-IsByte (suc n) v = (omega arith, big_endian-IsByte n v)

pub write_digits-Fills : (n v : ℕ) → n ≤ 4 → Fills (big_endian n v) (write_digits v n)
unfolding write_digits big_endian shift_right
write_digits-Fills zero v h = Fills-nothing
write_digits-Fills (suc n) v h =
    let step =
      Fills-bind (push-Fills (v / 2 ^ (n * 8) % 256)) (write_digits-Fills n v (omega arith)) in
    record {
      run = λ b ok room.
          rw (lt→ltb (n * 8) 32 (omega arith), bit_and_byte (v / 2 ^ (n * 8))) (step.run b ok room);
    }

module _ (mem : Memory) (supply : IsSupplied mem) where
  pub serialize_integer-Writes :
      (n v : ℕ) → n ≤ 4 → Writes (n + 16) (big_endian n v) (λ b. serialize_integer mem b v n)
  unfolding serialize_integer
  serialize_integer-Writes n v h =
      Writes-grow mem supply n (omega (arith, length-big_endian n v)) (write_digits-Fills n v h)

-- One more byte behind `acc`, in the place that the loop gives it.
place :
    (n acc byte : ℕ)
    → byte < 256
    → n < 4
    → bit_or (acc * 2 ^ (8 * suc n)) (byte * 2 ^ (8 * n) % 2 ^ 32)
      ≡ (acc * 256 + byte) * 2 ^ (8 * n)
place zero acc byte h k =
    let low : byte * 2 ^ (8 * 0) % 2 ^ 32 ≡ byte = omega arith in
    rw low (omega (arith, bit_or_low 8 acc byte h))
place (suc zero) acc byte h k =
    let low : byte * 2 ^ (8 * 1) % 2 ^ 32 ≡ byte * 2 ^ 8 = omega arith in
    rw low (omega (arith, bit_or_low 16 acc (byte * 2 ^ 8) (omega arith)))
place (suc (suc zero)) acc byte h k =
    let low : byte * 2 ^ (8 * 2) % 2 ^ 32 ≡ byte * 2 ^ 16 = omega arith in
    rw low (omega (arith, bit_or_low 24 acc (byte * 2 ^ 16) (omega arith)))
place (suc (suc (suc zero))) acc byte h k =
    let low : byte * 2 ^ (8 * 3) % 2 ^ 32 ≡ byte * 2 ^ 24 = omega arith in
    rw low (omega (arith, bit_or_low 32 acc (byte * 2 ^ 24) (omega arith)))
place (suc (suc (suc (suc n)))) acc byte h k = absurd (omega arith)

read_digits_lem :
    (bytes : List ℕ) (acc : ℕ) (b : Buffer) (index : ℕ) (rest : List ℕ)
    → length bytes ≤ 4
    → All IsByte bytes
    → Holds b index bytes rest
    → read_digits b (length bytes) (acc * 2 ^ (8 * length bytes)) index
      ≡ ret (from_bytes acc bytes, index + length bytes)
unfolding read_digits from_bytes shift_left
read_digits_lem [] acc b index rest h bs holds = λ i. ret (one i, none i)
  where
    one : acc * 2 ^ (8 * 0) ≡ acc
    one = omega arith

    none : index ≡ index + 0
    none = omega arith
read_digits_lem (x ∷ xs) acc b index rest h bs holds =
    let n = length xs in
    let cell = get_elem?-drop index b.ptr holds.cells in
    let next : (index + 1) % size_mod ≡ index + 1 =
      omega (arith, Holds-room holds, holds.valid.bounded) in
    rw (cell, lt→ltb (8 * n) 32 (omega arith), place n acc x bs.0 (omega arith), next)
      (read_digits_lem xs (acc * 256 + x) b (index + 1) rest (omega arith) bs.1
          (Holds-next (x ∷ []) xs rest holds)
        ∙ ap (λ t. ret (from_bytes (acc * 256 + x) xs, t))
            (let e : index + 1 + n ≡ index + suc n = omega arith in e))

-- A number read from the wire is the number that the bytes stand for.
pub deserialize_integer-Reads :
    (n : ℕ) (bytes : List ℕ)
    → n ≡ length bytes
    → n ≤ 4
    → All IsByte bytes
    → Reads bytes (from_bytes 0 bytes) (λ b i. deserialize_integer b i n)
unfolding deserialize_integer
deserialize_integer-Reads n bytes e h bs = record {
  run = λ b index rest holds.
      let start : 0 ≡ 0 * 2 ^ (8 * length bytes) = omega arith in
      rw e (
        ap (λ t. read_digits b (length bytes) t index) start
        ∙ read_digits_lem bytes 0 b index rest (omega arith) bs holds);
}

-- Up to four bytes give back the number that they were made from, cut to their width.
pub from_bytes-big_endian : (n v : ℕ) → n ≤ 4 → from_bytes 0 (big_endian n v) ≡ v % 2 ^ (n * 8)
unfolding from_bytes big_endian
from_bytes-big_endian zero v h = omega arith
from_bytes-big_endian (suc zero) v h = omega arith
from_bytes-big_endian (suc (suc zero)) v h = omega arith
from_bytes-big_endian (suc (suc (suc zero))) v h = omega arith
from_bytes-big_endian (suc (suc (suc (suc zero)))) v h = omega arith
from_bytes-big_endian (suc (suc (suc (suc (suc n))))) v h = absurd (omega arith)

-- Reading the bytes of `v` gives `v`, cut to the width.
pub big_endian-Reads :
    (n v : ℕ) → n ≤ 4 → Reads (big_endian n v) (v % 2 ^ (n * 8)) (λ b i. deserialize_integer b i n)
big_endian-Reads n v h = rw (← from_bytes-big_endian n v h) (
    deserialize_integer-Reads n (big_endian n v) (sym (length-big_endian n v)) h
      (big_endian-IsByte n v))

-- A field at the place where a reader stands, and the place behind it.
pub read_last :
    {b : Buffer} {index : ℕ} (n v : ℕ) (rest : List ℕ)
    → n ≤ 4
    → v < 2 ^ (n * 8)
    → Holds b index (big_endian n v) rest
    → deserialize_integer b index n ≡ ret (v, index + n)
read_last {b} {index} n v rest h small held =
    let r = (big_endian-Reads n v h).run b index rest held in
    let value : v % 2 ^ (n * 8) ≡ v = mod-eq_of_lt small in
    r ∙ ap₂ (λ s t. ret (s, index + t)) value (length-big_endian n v)

pub read_field :
    {b : Buffer} {index : ℕ} (n v : ℕ) (ys rest : List ℕ)
    → n ≤ 4
    → v < 2 ^ (n * 8)
    → Holds b index (big_endian n v ++ ys) rest
    → (deserialize_integer b index n ≡ ret (v, index + n)) × Holds b (index + n) ys rest
read_field {b} {index} n v ys rest h small held = (
  read_last n v (ys ++ rest) h small (Holds-front (big_endian n v) ys rest held),
  rw (length-big_endian n v) at (Holds-next (big_endian n v) ys rest held),
)
