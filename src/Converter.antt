-- ===== src/Converter.antt =====
-- src/as-smpp-core/src/converter.c: the tables between Latin-1 and GSM 03.38, and the conversions.
pub mod Transcoding
pub mod Decoding
pub mod Encoding
pub mod Inverse
use as_smpp.Prelude.{
  ℕ, zero, suc, ◌+◌, ◌-◌, ◌/◌, ◌%◌, ◌^◌, bit_and, List, [], ◌∷◌, true, false, ◌&&◌,
}
use as_smpp.Prelude.{ltb, ◌==◌, if◌then◌else◌, get_elem?, Run, ret, fault, starved, access, ◌>>=◌}
use as_smpp.Memory.{Memory, size_mod}
use as_smpp.Buffer.{Buffer, ensure_capacity, add}
use as_smpp.Serializer.{strlen}

-- The three arrays of 256 entries.
pub record Tables : Type 0 where
  pub gsm_to_latin1 : ℕ → ℕ
  pub gsmx_to_latin1 : ℕ → ℕ
  pub latin1_to_gsm : ℕ → ℕ

-- `table[index] = value`
unfoldable pub assign : (ℕ → ℕ) → ℕ → ℕ → ℕ → ℕ
assign table index value = λ i. if i == index then value else table i

unfoldable pub assign_all : List (ℕ × ℕ) → (ℕ → ℕ) → ℕ → ℕ
assign_all [] table = table
assign_all ((index, value) ∷ rest) table = assign_all rest (assign table index value)

-- The characters that as_smpp_converter_init sets, in its order.
abbrev pub special : List (ℕ × ℕ)
special =
    (0x5f, 0x11)
    ∷ (0x40, 0x00)
    ∷ (0xa3, 0x01)
    ∷ (0x24, 0x02)
    ∷ (0xa5, 0x03)
    ∷ (0xe8, 0x04)
    ∷ (0xe9, 0x05)
    ∷ (0xf9, 0x06)
    ∷ (0xec, 0x07)
    ∷ (0xf2, 0x08)
    ∷ (0xc7, 0x09)
    ∷ (0xd8, 0x0b)
    ∷ (0xf8, 0x0c)
    ∷ (0xc5, 0x0e)
    ∷ (0xe5, 0x0f)
    ∷ (0x0c, 0x1b0a)
    ∷ (0x5e, 0x1b14)
    ∷ (0x7b, 0x1b28)
    ∷ (0x7d, 0x1b29)
    ∷ (0x5c, 0x1b2f)
    ∷ (0x5b, 0x1b3c)
    ∷ (0x7e, 0x1b3d)
    ∷ (0x5d, 0x1b3e)
    ∷ (0x7c, 0x1b40)
    ∷ (0xa4, 0x24)
    ∷ (0xa1, 0x40)
    ∷ []

-- The second loop of as_smpp_converter_init over the rounds left.
unfoldable pub invert : ℕ → ℕ → Tables → Tables
invert zero i t = t
invert (suc rounds) i t =
    let ch = t.latin1_to_gsm i in
    invert rounds (i + 1) (
      if ltb ch 0x100 then record t { gsm_to_latin1 = assign t.gsm_to_latin1 ch i } else record t {
        gsm_to_latin1 = assign t.gsm_to_latin1 (ch / 2 ^ 8) 0xff;
        gsmx_to_latin1 = assign t.gsmx_to_latin1 (bit_and ch 0xff) i;
      })

-- as_smpp_converter_init
unfoldable pub init : Tables
init = invert 256 0 (record {
  gsm_to_latin1 = λ i. 0;
  gsmx_to_latin1 = λ i. 0xff;
  latin1_to_gsm = assign_all special (λ i. i);
})

-- One round of the loop of as_smpp_converter_gsm_to_latin1 on the byte at its index: the character, and
-- the index of its last byte. There are data, so that `dataLen - 1` does not wrap around.
unfoldable pub decode_byte : Tables → Buffer → ℕ → ℕ → Run (ℕ × ℕ)
decode_byte t gsm i c = elim (t.gsm_to_latin1 c == 0xff && ltb i (gsm.data_len - 1)) [
  | true ↦ do
    c₁ ← access (get_elem? gsm.ptr (i + 1))
    let ch₁ = t.gsmx_to_latin1 c₁
    ret (if ch₁ == 0xff then (c, i) else (ch₁, i + 1))
  | false ↦ ret (t.gsm_to_latin1 c, i)
]

unfoldable pub decode_at : Tables → Buffer → ℕ → Run (ℕ × ℕ)
decode_at t gsm i = access (get_elem? gsm.ptr i) >>= decode_byte t gsm i

module _ (mem : Memory) (t : Tables) where
  -- That loop; a round takes a byte at least.
  unfoldable pub decode_loop : ℕ → Buffer → ℕ → Buffer → Run Buffer
  decode_loop zero gsm i b = if ltb i gsm.data_len then starved else ret b
  decode_loop (suc fuel) gsm i b = elim (ltb i gsm.data_len) [
    | false ↦ ret b
    | true ↦ do
      (ch, last) ← decode_at t gsm i
      b ← add mem b ch
      decode_loop fuel gsm ((last + 1) % size_mod) b
  ]

  -- as_smpp_converter_gsm_to_latin1
  unfoldable pub gsm_to_latin1 : Buffer → Buffer → Run Buffer
  gsm_to_latin1 latin1 gsm = do
    let b = ensure_capacity mem latin1 ((gsm.data_len + 1) % size_mod)
    b ← decode_loop gsm.data_len gsm 0 b
    add mem b 0

  -- The loop of as_smpp_converter_latin1_to_gsm, where `char` has no sign. The pointer stays where it is.
  unfoldable pub encode_loop : ℕ → List ℕ → Buffer → Run Buffer
  encode_loop fuel [] b = fault
  encode_loop fuel (zero ∷ cells) b = ret b
  encode_loop zero (suc c ∷ cells) b = starved
  encode_loop (suc fuel) (suc c ∷ cells) b =
      let ch = t.latin1_to_gsm (suc c) in
      do
        b ← if ltb 0xff ch then add mem b (ch / 2 ^ 8) else ret b
        b ← add mem b (bit_and ch 0xff)
        encode_loop fuel (suc c ∷ cells) b

  -- as_smpp_converter_latin1_to_gsm
  unfoldable pub latin1_to_gsm : ℕ → Buffer → List ℕ → Run Buffer
  latin1_to_gsm fuel gsm latin1 = do
    n ← strlen latin1
    encode_loop fuel latin1 (ensure_capacity mem gsm ((n + 1) % size_mod))
