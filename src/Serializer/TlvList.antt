-- ===== src/Serializer/TlvList.antt =====
-- as_smpp_deserialize_tlv of src/as-smpp-core/src/serializer.c: the list of parameters.
use as_smpp.Prelude.{ℕ, zero, suc, ◌+◌, ◌%◌, ◌^◌, ◌≤◌, ◌<◌, ◌≡◌, ◌≢◌, refl, ap, ◌∙◌, ◌*◌, arith}
use as_smpp.Prelude.{◌⊎◌, inl, inr, ltb, lt→ltb, ltb-false, Bool-cases, get_elem?}
use as_smpp.Prelude.{List, [], ◌∷◌, ◌++◌, append-nil, none, some, bit_or}
use as_smpp.Prelude.{
  Run, ret, fault, starved, length, length-append, length-drop, drop, drop-all, take, All, leb,
  ◌>>=◌,
}
use as_smpp.Memory.{Memory, IsSupplied, size_mod}
use as_smpp.Buffer.{Buffer}
use as_smpp.Buffer.Cells.{load_block, copy_in}
use as_smpp.Buffer.Valid.{IsValid}
use as_smpp.Types.{Tlv}
use as_smpp.Serializer.{read_digits, shift_left, deserialize_integer, deserialize_binary}
use as_smpp.Serializer.Pdu.{read_tlv, deserialize_tlv, tlv_size}
use as_smpp.Serializer.Spec.{big_endian, Holds, Holds-at, Holds-front, Holds-next}
use as_smpp.Serializer.Integer.{read_field}
use as_smpp.Serializer.Text.{read_binary}

-- A parameter that fits its fields.
pub record IsTlv (t : Tlv) : Type 0 where
  pub tag : t.tag < 2 ^ 16
  pub counted : length t.value ≡ t.length
  pub short : t.length < 2 ^ 16

unfoldable pub tlv_bytes : Tlv → List ℕ
tlv_bytes t = big_endian 2 t.tag ++ (big_endian 2 t.length ++ t.value)

unfoldable pub tlv_list_bytes : List Tlv → List ℕ
tlv_list_bytes [] = []
tlv_list_bytes (t ∷ ts) = tlv_bytes t ++ tlv_list_bytes ts

length-tlv_bytes : (t : Tlv) → IsTlv t → length (tlv_bytes t) ≡ t.length + 4
unfolding tlv_bytes big_endian
length-tlv_bytes t ok = omega (arith, ok.counted)

module _ (mem : Memory) (supply : IsSupplied mem) where
  read_tlv_lem :
      {b : Buffer} {index : ℕ} (t : Tlv) (ys rest : List ℕ)
      → IsTlv t
      → Holds b index (tlv_bytes t ++ ys) rest
      → (read_tlv mem b index ≡ ret (t, index + length (tlv_bytes t)))
        × Holds b (index + length (tlv_bytes t)) ys rest
  unfolding read_tlv tlv_bytes big_endian
  read_tlv_lem {b} {index} t ys rest ok held =
      let n = t.length in
      let (r₁, h₁) = read_field 2 t.tag _ rest (omega arith) (omega (arith, ok.tag)) held in
      let (r₂, h₂) =
        read_field 2 n (t.value ++ ys) rest (omega arith) (omega (arith, ok.short)) h₁ in
      let block = drop tlv_size (mem.malloc (tlv_size + n)) in
      let room : length block ≡ n = omega (
        arith,
        ok.short,
        length-drop tlv_size (mem.malloc (tlv_size + n)),
        supply.length-malloc (tlv_size + n) (omega (arith, ok.short)),
      ) in
      let h₃ = Holds-front t.value ys rest h₂ in
      let r₃ = read_binary t.value block (ys ++ rest) (omega (arith, room, ok.counted)) h₃ in
      let tag : t.tag % 2 ^ 16 ≡ t.tag = omega (arith, ok.tag) in
      let len : n % 2 ^ 16 ≡ n = omega (arith, ok.short) in
      let whole : t.value ++ drop n block ≡ t.value =
        ap (λ k. t.value ++ k) (drop-all n block (omega (arith, room))) ∙ append-nil t.value in
      let r₄ : deserialize_binary block b (index + 2 + 2) n ≡ ret (t.value, index + 2 + 2 + n) =
        (rw ok.counted at r₃) ∙ ap (λ v. ret (v, index + 2 + 2 + n)) whole in
      let end : index + 2 + 2 + n ≡ index + length (tlv_bytes t) =
        omega (arith, length-tlv_bytes t ok) in
      (
        rw (r₁, r₂, tag, len, r₄) (ap (λ k. ret (t, k)) end),
        Holds-at (omega (arith, ok.counted)) (Holds-next t.value ys rest h₂),
      )

  tlv_bytes_pos : (t : Tlv) (ts : List Tlv) → 0 < length (tlv_bytes t ++ tlv_list_bytes ts)
  unfolding tlv_bytes big_endian
  tlv_bytes_pos t ts = omega arith

  -- Where a well-formed buffer holds the bytes of a list of parameters up to the end of the PDU, each
  -- with a tag and a length of 16 bits and a value of that length, with fuel for each of them and
  -- allocations that succeed: the parameters are read back in their order, up to the end of the PDU.
  pub deserialize_tlv_lem :
      (ts : List Tlv) (fuel : ℕ) {b : Buffer} (index end : ℕ) (rest : List ℕ)
      → All IsTlv ts
      → length ts ≤ fuel
      → end ≡ index + length (tlv_list_bytes ts)
      → Holds b index (tlv_list_bytes ts) rest
      → deserialize_tlv mem fuel b index end ≡ ret (ts, end)
  unfolding deserialize_tlv tlv_list_bytes
  deserialize_tlv_lem [] zero index end rest ok h e held =
      rw (ltb-false index end (omega arith)) (ap (λ k. ret ([], k)) (omega arith))
  deserialize_tlv_lem [] (suc fuel) index end rest ok h e held =
      rw (ltb-false index end (omega arith), deserialize_tlv) (ap (λ k. ret ([], k)) (omega arith))
  deserialize_tlv_lem (t ∷ ts) zero index end rest ok h e held = absurd (omega arith)
  deserialize_tlv_lem (t ∷ ts) (suc fuel) index end rest ok h e held =
      let (r, next) = read_tlv_lem t (tlv_list_bytes ts) rest ok.0 held in
      let size = length-append (tlv_bytes t) (tlv_list_bytes ts) in
      let ih =
        deserialize_tlv_lem ts fuel (index + length (tlv_bytes t)) end rest ok.1 (omega arith)
          (omega (arith, size)) next in
      rw (lt→ltb index end (omega (arith, tlv_bytes_pos t ts)), deserialize_tlv) (rw (r, ih) refl)

-- A reader faults, or it takes `n` cells that lie in the block.
abbrev pub Takes : {A : Type 0} → Buffer → ℕ → ℕ → Run (A × ℕ) → Type 0
Takes {A} b index n r =
    (r ≡ fault) ⊎ ((a : A) × (r ≡ ret (a, index + n)) × (index + n ≤ b.capacity))

get_elem?-some :
    (xs : List ℕ) (i : ℕ)
    → (get_elem? xs i ≡ none) ⊎ ((x : ℕ) × (get_elem? xs i ≡ some x) × (i < length xs))
get_elem?-some [] i = inl refl
get_elem?-some (x ∷ xs) zero = inr (x, refl, omega arith)
get_elem?-some (x ∷ xs) (suc i) = elim (get_elem?-some xs i) [
  | inl e ↦ inl e
  | inr (y, e, h) ↦ inr (y, e, omega arith)
]

pub read_digits-Takes :
    (b : Buffer) (n acc index : ℕ)
    → IsValid b
    → index ≤ b.capacity
    → Takes b index n (read_digits b n acc index)
unfolding read_digits shift_left
read_digits-Takes b zero acc index v h =
    inr (acc, ap (λ k. ret (acc, k)) (omega arith), omega arith)
read_digits-Takes b (suc n) acc index v h = elim (get_elem?-some b.ptr index) [
  | inl out ↦ inl (rw out)
  | inr (x, seen, inside) ↦ elim (Bool-cases (ltb (8 * n) 32)) [
    | inl few ↦
        let next : (index + 1) % size_mod ≡ index + 1 = omega (arith, v.sized, v.bounded) in
        let acc' = bit_or acc (x * 2 ^ (8 * n) % 2 ^ 32) in
        elim (read_digits-Takes b n acc' (index + 1) v (omega (arith, v.sized))) [
          | inl e ↦ inl (rw (seen, few, next) e)
          | inr (y, e, room) ↦
              inr (y, rw (seen, few, next) (e ∙ ap (λ k. ret (y, k)) (omega arith)), omega arith)
        ]
    | inr many ↦ inl (rw (seen, many))
  ]
]

copy_in-cases :
    (cells : List ℕ) (offset : ℕ) (bytes : List ℕ)
    → (copy_in cells offset bytes ≡ fault)
      ⊎ ((out : List ℕ) × (copy_in cells offset bytes ≡ ret out))
unfolding copy_in
copy_in-cases cells offset bytes = elim (Bool-cases (leb (offset + length bytes) (length cells))) [
  | inl fits ↦ inr (take offset cells ++ (bytes ++ drop (offset + length bytes) cells), rw fits)
  | inr out ↦ inl (rw out)
]

pub deserialize_binary-Takes :
    (target : List ℕ) (b : Buffer) (index len : ℕ)
    → IsValid b
    → index ≤ b.capacity
    → Takes b index len (deserialize_binary target b index len)
unfolding deserialize_binary load_block
deserialize_binary-Takes target b index len v h =
    elim (Bool-cases (leb (index + len) (length b.ptr))) [
      | inl fits ↦ elim (copy_in-cases target 0 (take len (drop index b.ptr))) [
        | inl e ↦ inl (rw (fits, e))
        | inr (out, e) ↦
            let room : index + len ≤ b.capacity = ground (arith, v.sized) in
            let next : (index + len) % size_mod ≡ index + len = omega (arith, v.bounded) in
            inr (out, rw (fits, e, next) refl, room)
      ]
      | inr out ↦ inl (rw out)
    ]

-- A round of the loop faults, or it goes on by four cells at least.
read_tlv_takes :
    (mem : Memory) (b : Buffer) (index : ℕ)
    → IsValid b
    → index ≤ b.capacity
    → (read_tlv mem b index ≡ fault)
      ⊎ ((t : Tlv) × (next : ℕ) × (read_tlv mem b index ≡ ret (t, next))
          × (index + 4 ≤ next)
          × (next ≤ b.capacity))
unfolding read_tlv deserialize_integer
read_tlv_takes mem b index v h = elim (read_digits-Takes b 2 0 index v h) [
  | inl e ↦ inl (rw e)
  | inr (tag, e₁, k₁) ↦ elim (read_digits-Takes b 2 0 (index + 2) v k₁) [
    | inl e ↦ inl (rw (e₁, e))
    | inr (len, e₂, k₂) ↦
        let n = len % 2 ^ 16 in
        elim (deserialize_binary-Takes (drop tlv_size (mem.malloc (tlv_size + n))) b (index + 2 + 2)
          n v k₂) [
            | inl e ↦ inl (rw (e₁, e₂, e))
            | inr (value, e₃, k₃) ↦ inr (
              record { tag = tag % 2 ^ 16; length = n; value = value },
              index + 2 + 2 + n,
              rw (e₁, e₂, e₃) refl,
              omega arith,
              k₃,
            )
          ]
  ]
]

bind-ne-starved :
    {A B : Type 0} (m : Run A) (f : A → B) → m ≢ starved → (m >>= λ a. ret (f a)) ≢ starved
bind-ne-starved (ret a) f h = λ e. cc
bind-ne-starved fault f h = λ e. cc
bind-ne-starved starved f h = absurd (h refl)

-- Whatever a well-formed buffer holds and whatever length the PDU states, the loop over the parameters
-- ends: as many rounds as bytes are left of the PDU are enough. It may end in an access out of bounds.
pub deserialize_tlv_ends :
    (mem : Memory) (fuel : ℕ) (b : Buffer) (index pdu_length : ℕ)
    → IsValid b
    → index ≤ b.capacity
    → pdu_length ≤ index + fuel
    → deserialize_tlv mem fuel b index pdu_length ≢ starved
unfolding deserialize_tlv
deserialize_tlv_ends mem zero b index pdu_length v h enough =
    rw (ltb-false index pdu_length (omega arith)) (λ e. cc)
deserialize_tlv_ends mem (suc fuel) b index pdu_length v h enough =
    elim (Bool-cases (ltb index pdu_length)) [
      | inr done ↦ rw (done, deserialize_tlv) (λ e. cc)
      | inl more ↦ elim (read_tlv_takes mem b index v h) [
        | inl e ↦ rw (more, deserialize_tlv) (rw e (λ e. cc))
        | inr (t, next, e, far, k) ↦
            rw (more, deserialize_tlv)
              (rw e (
                bind-ne-starved _ _
                  (deserialize_tlv_ends mem fuel b next pdu_length v k (omega arith))))
      ]
    ]
