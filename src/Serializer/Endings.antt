-- ===== src/Serializer/Endings.antt =====
-- The functions of src/as-smpp-core/src/serializer.c on any arguments: each returns or faults.
use as_smpp.Prelude.{
  ℕ, zero, suc, ◌+◌, ◌*◌, ◌≤◌, ◌<◌, ◌≡◌, refl, arith, ◌⊎◌, inl, inr, leb, ltb, Bool-cases,
}
use as_smpp.Prelude.{List, [], ◌∷◌, none, some, Run, length, drop}
use as_smpp.Prelude.{Safe, returns, faults, Ends, Safe-bind, Safe-if, length-drop, ◌==◌}
use as_smpp.Memory.{Memory}
use as_smpp.Buffer.{Buffer, ensure_capacity, push}
use as_smpp.Buffer.Cells.{store, load_block, copy_in}
use as_smpp.Buffer.Valid.{IsValid}
use as_smpp.Types
use as_smpp.Types.{Address, ErrorCode, CharPtr, PduSubmitSm, Datetime, PduHeader}
use as_smpp.Serializer.{
  shift_right, write_digits, strlen, write_chars, write_string, serialize_integer, serialize_string,
  deserialize_integer, deserialize_string, deserialize_binary, copy_text,
}
use as_smpp.Serializer.Pdu.{
  serialize_pdu_header, deserialize_address, deserialize_datetime, first_char,
  deserialize_pdu_submit_sm, deserialize_pdu_header,
}
use as_smpp.Serializer.TlvList.{Takes, read_digits-Takes, deserialize_binary-Takes}

store-Ends : (cells : List ℕ) (i v : ℕ) → Ends (store cells i v)
unfolding store
store-Ends [] i v = faults
store-Ends (x ∷ xs) zero v = returns tt
store-Ends (x ∷ xs) (suc i) v = Safe-bind (store-Ends xs i v) (λ a h. returns tt)

pub load_block-Ends : (cells : List ℕ) (offset len : ℕ) → Ends (load_block cells offset len)
unfolding load_block
load_block-Ends cells offset len = Safe-if (leb (offset + len) (length cells)) (returns tt) faults

copy_in-Ends : (cells : List ℕ) (offset : ℕ) (bytes : List ℕ) → Ends (copy_in cells offset bytes)
unfolding copy_in
copy_in-Ends cells offset bytes =
    Safe-if (leb (offset + length bytes) (length cells)) (returns tt) faults

push-Ends : (byte : ℕ) (b : Buffer) → Ends (push byte b)
unfolding push
push-Ends byte b = Safe-bind (store-Ends b.ptr b.data_len byte) (λ a h. returns tt)

write_digits-Ends : (value n : ℕ) (b : Buffer) → Ends (write_digits value n b)
unfolding write_digits shift_right
write_digits-Ends value zero b = returns tt
write_digits-Ends value (suc n) b =
    Safe-bind {P = λ k. Unit {0}} (Safe-if (ltb (n * 8) 32) (returns tt) faults)
      λ k h. Safe-bind (push-Ends _ b) (λ b' h. write_digits-Ends value n b')

-- A text that ends does so in its block.
strlen-Safe : (cells : List ℕ) → Safe (λ n. n < length cells) (strlen cells)
unfolding strlen
strlen-Safe [] = faults
strlen-Safe (zero ∷ cells) = returns (omega arith)
strlen-Safe (suc c ∷ cells) = Safe-bind (strlen-Safe cells) (λ n h. returns (omega arith))

write_chars-Ends : (n : ℕ) (cells : List ℕ) (b : Buffer) → Ends (write_chars n cells b)
unfolding write_chars
write_chars-Ends zero cells b = returns tt
write_chars-Ends (suc n) [] b = faults
write_chars-Ends (suc n) (c ∷ cells) b =
    Safe-bind (push-Ends c b) (λ b' h. write_chars-Ends n cells b')

write_string-Ends : (s : CharPtr) (max_len : ℕ) (b : Buffer) → Ends (write_string s max_len b)
unfolding write_string
write_string-Ends none max_len b = push-Ends 0 b
write_string-Ends (some cells) max_len b =
    Safe-bind (strlen-Safe cells) (λ n h. write_chars-Ends _ cells b)

module _ (mem : Memory) where
  pub serialize_integer-Ends :
      (b : Buffer) (value len : ℕ) → Ends (serialize_integer mem b value len)
  unfolding serialize_integer
  serialize_integer-Ends b value len = write_digits-Ends value len (ensure_capacity mem b len)

  pub serialize_string-Ends :
      (b : Buffer) (s : CharPtr) (max_len : ℕ) → Ends (serialize_string mem b s max_len)
  unfolding serialize_string
  serialize_string-Ends b s max_len = write_string-Ends s max_len (ensure_capacity mem b max_len)

  pub serialize_pdu_header-Ends :
      (b : Buffer) (len id status seq : ℕ) → Ends (serialize_pdu_header mem b len id status seq)
  unfolding serialize_pdu_header
  serialize_pdu_header-Ends b len id status seq = Safe-bind (serialize_integer-Ends b len 4) λ b h.
      Safe-bind (serialize_integer-Ends b id 4)
        λ b h. Safe-bind (serialize_integer-Ends b status 4) (λ b h. serialize_integer-Ends b seq 4)

-- A reader that stays in the block.
abbrev pub Stays : {A : Type 0} → Buffer → Run (A × ℕ) → Type 0
Stays b r = Safe (λ x. x.1 ≤ b.capacity) r

Takes-Stays :
    {A : Type 0} (b : Buffer) (index n : ℕ) {r : Run (A × ℕ)} → Takes b index n r → Stays b r
Takes-Stays b index n (inl e) = rw e faults
Takes-Stays b index n (inr (a, e, h)) = rw e (returns h)

module _ (b : Buffer) (v : IsValid b) where
  deserialize_integer-Stays :
      (index len : ℕ) → index ≤ b.capacity → Stays b (deserialize_integer b index len)
  unfolding deserialize_integer
  deserialize_integer-Stays index len h =
      Takes-Stays b index len (read_digits-Takes b len 0 index v h)

  deserialize_binary-Stays :
      (target : List ℕ) (index len : ℕ)
      → index ≤ b.capacity
      → Stays b (deserialize_binary target b index len)
  deserialize_binary-Stays target index len h =
      Takes-Stays b index len (deserialize_binary-Takes target b index len v h)

  copy_text-Ends : (target : CharPtr) (text : List ℕ) → Ends (copy_text target text)
  unfolding copy_text
  copy_text-Ends none text = returns tt
  copy_text-Ends (some target) text = Safe-bind (copy_in-Ends target 0 text) (λ a h. returns tt)

  pub deserialize_string-Stays :
      (target : CharPtr) (index size : ℕ)
      → index ≤ b.capacity
      → Stays b (deserialize_string target b index size)
  unfolding deserialize_string
  deserialize_string-Stays target index size h = Safe-bind (strlen-Safe (drop index b.ptr)) λ n k.
      Safe-bind (copy_text-Ends target _)
        λ t u. returns (omega (arith, k, length-drop index b.ptr, v.sized, v.bounded))

  deserialize_address-Stays :
      (a : Address) (index : ℕ) → index ≤ b.capacity → Stays b (deserialize_address a b index)
  unfolding deserialize_address
  deserialize_address-Stays a index h = Safe-bind (deserialize_integer-Stays index 1 h) λ x h.
      Safe-bind (deserialize_integer-Stays x.1 1 h) λ x h.
        Safe-bind (deserialize_string-Stays a.address x.1 Types.length_address h) λ x h. returns h

  first_char-Ends : (s : CharPtr) → Ends (first_char s)
  unfolding first_char
  first_char-Ends none = faults
  first_char-Ends (some []) = faults
  first_char-Ends (some (c ∷ cells)) = returns tt

  deserialize_datetime-Stays :
      (d : Datetime) (index : ℕ) → index ≤ b.capacity → Stays b (deserialize_datetime d b index)
  unfolding deserialize_datetime
  deserialize_datetime-Stays d index h =
      Safe-bind (deserialize_string-Stays _ index Types.length_datetime h) λ x h.
        Safe-bind (first_char-Ends x.0)
          λ c k. elim (Bool-cases (c == 0)) [ inl e ↦ rw e (returns h) | inr e ↦ rw e (returns h) ]

  pub deserialize_pdu_submit_sm-Stays :
      (pdu : PduSubmitSm) (index : ℕ)
      → index ≤ b.capacity
      → Stays b (deserialize_pdu_submit_sm pdu b index)
  unfolding deserialize_pdu_submit_sm
  deserialize_pdu_submit_sm-Stays pdu index h =
      let byte = λ (x : ℕ) (h : x ≤ b.capacity). deserialize_integer-Stays x 1 h in
      Safe-bind (deserialize_string-Stays pdu.service_type index Types.length_service_type h) λ x h.
        Safe-bind (deserialize_address-Stays pdu.source_address x.1 h) λ x h.
          Safe-bind (deserialize_address-Stays pdu.destination_address x.1 h) λ x h.
            Safe-bind (byte x.1 h) λ x h. Safe-bind (byte x.1 h) λ x h.
              Safe-bind (byte x.1 h) λ x h.
                Safe-bind (deserialize_datetime-Stays pdu.schedule_delivery_time x.1 h) λ x h.
                  Safe-bind (deserialize_datetime-Stays pdu.validity_period x.1 h) λ x h.
                    Safe-bind (byte x.1 h) λ x h. Safe-bind (byte x.1 h) λ x h.
                      Safe-bind (byte x.1 h) λ x h. Safe-bind (byte x.1 h) λ x h.
                        Safe-bind (byte x.1 h) λ x h.
                          Safe-bind (deserialize_binary-Stays pdu.message x.1 x.0 h)
                            λ y k. Safe-bind (store-Ends y.0 x.0 0) λ message u. returns k

  -- A header is whole, and then it does not state more than there are data, or data are missing.
  pub deserialize_pdu_header-Safe :
      (old : PduHeader)
      → Safe
          (λ r.
            ((r.0 ≡ ErrorCode.none) × (r.1.command_length ≤ b.data_len) × (r.2 ≤ b.capacity))
            ⊎ (r.0 ≡ ErrorCode.incomplete_data))
          (deserialize_pdu_header old b 0)
  unfolding deserialize_pdu_header
  deserialize_pdu_header-Safe old =
      let word = λ (x : ℕ) (h : x ≤ b.capacity). deserialize_integer-Stays x 4 h in
      Safe-if (ltb b.data_len 4) (returns (inr refl)) (
        Safe-bind (word 0 (omega arith)) λ x h. elim (Bool-cases (ltb b.data_len x.0)) [
          | inl less ↦ rw less (returns (inr refl))
          | inr all ↦ rw all (
              Safe-bind (word x.1 h) λ y k.
                Safe-bind (word y.1 k)
                  λ y k. Safe-bind (word y.1 k) λ y k. returns (inl (refl, ground arith, k)))
        ])
