-- ===== src/Serializer/Address.antt =====
-- as_smpp_serialize_address, as_smpp_deserialize_address and as_smpp_deserialize_datetime.
use as_smpp.Prelude.{ℕ, ◌+◌, ◌<◌, ◌≡◌, ap, arith}
use as_smpp.Prelude.{List, [], ◌∷◌, ◌++◌, ret, some, length, drop, All}
use as_smpp.Memory.{Memory, IsSupplied}
use as_smpp.Buffer.{Buffer}
use as_smpp.Buffer.Valid.{Writes, Writes-bind}
use as_smpp.Types
use as_smpp.Types.{Address, Datetime}
use as_smpp.Serializer.Pdu.{serialize_address, deserialize_address}
use as_smpp.Serializer.Spec.{big_endian, Holds, Holds-at}
use as_smpp.Serializer.Integer.{serialize_integer-Writes, read_field}
use as_smpp.Serializer.Text.{IsChar, serialize_string-Writes, read_text}

-- An address, apart from the memory that holds it.
pub record Party : Type 0 where
  pub ton : ℕ
  pub npi : ℕ
  pub digits : List ℕ

-- An address that fits its fields.
pub record IsParty (p : Party) : Type 0 where
  pub ton : p.ton < 256
  pub npi : p.npi < 256
  pub chars : All IsChar p.digits
  pub short : length p.digits < Types.length_address

-- The struct for a party, with `rest` in the memory behind its text.
unfoldable pub address_of : Party → List ℕ → Address
address_of p rest = record { ton = p.ton; npi = p.npi; address = some (p.digits ++ (0 ∷ rest)) }

unfoldable pub address_bytes : Party → List ℕ
address_bytes p = big_endian 1 p.ton ++ (big_endian 1 p.npi ++ (p.digits ++ (0 ∷ [])))

module _ (mem : Memory) (supply : IsSupplied mem) where
  pub serialize_address-Writes :
      (p : Party) (rest : List ℕ)
      → IsParty p
      → Writes 71 (address_bytes p) (λ b. serialize_address mem b (address_of p rest))
  unfolding serialize_address address_of address_bytes
  serialize_address-Writes p rest ok =
      Writes-bind (serialize_integer-Writes mem supply 1 p.ton (omega arith)) (
        Writes-bind (serialize_integer-Writes mem supply 1 p.npi (omega arith))
          (serialize_string-Writes mem supply p.digits rest Types.length_address ok.chars ok.short))

-- An address at the place where a reader stands, and the place behind it.
pub read_address :
    {b : Buffer} {index : ℕ} (p : Party) (old : Address) (target ys rest : List ℕ)
    → IsParty p
    → old.address ≡ some target
    → length p.digits < length target
    → Holds b index (address_bytes p ++ ys) rest
    → (deserialize_address old b index
        ≡ ret (address_of p (drop (length p.digits + 1) target), index + (length p.digits + 3)))
      × Holds b (index + (length p.digits + 3)) ys rest
unfolding deserialize_address address_of address_bytes big_endian
read_address {b} {index} p old target ys rest ok at room held =
    let n = length p.digits in
    let text = (p.digits ++ (0 ∷ [])) ++ ys in
    let (r₁, h₁) = read_field 1 p.ton (big_endian 1 p.npi ++ text) rest (omega arith) ok.ton held in
    let (r₂, h₂) = read_field 1 p.npi text rest (omega arith) ok.npi h₁ in
    let (r₃, h₃) = read_text p.digits target Types.length_address ys rest ok.chars room h₂ in
    let end : index + 1 + 1 + (n + 1) ≡ index + (n + 3) = omega arith in
    (
      rw (r₁, r₂, at, r₃) (ap (λ k. ret (address_of p (drop (n + 1) target), k)) end),
      Holds-at end h₃,
    )
