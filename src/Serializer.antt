-- ===== src/Serializer.antt =====
-- src/as-smpp-core/src/serializer.c, the fields: integers, strings, binary data. A function that
-- advances `*a_index` returns the new index with its value.
pub mod Macros
pub mod Pdu
pub mod Spec
pub mod Integer
pub mod Text
pub mod Header
pub mod Address
pub mod Submit
pub mod Delivery
pub mod TlvList
pub mod Endings
pub mod RoundTrip
use as_smpp.Prelude.{
  ℕ, zero, suc, ◌+◌, ◌*◌, ◌/◌, ◌%◌, ◌^◌, bit_and, bit_or, ltb, ◌==◌, if◌then◌else◌,
}
use as_smpp.Prelude.{List, [], ◌∷◌, Option, none, some, take, drop, get_elem?}
use as_smpp.Prelude.{Run, ret, fault, access, ◌>>=◌}
use as_smpp.Memory.{Memory, size_mod}
use as_smpp.Buffer.{Buffer, ensure_capacity, push, push_block}
use as_smpp.Buffer.Cells.{load_block, copy_in}
use as_smpp.Types.{CharPtr}

-- `value >> count` of a uint32_t, and `byte << count` taken as one, as gcc and clang do where a bit is
-- shifted into the sign bit of an int; a count from 32 on is undefined.
unfoldable pub shift_right : ℕ → ℕ → Run ℕ
shift_right value count = if ltb count 32 then ret (value / 2 ^ count) else fault

unfoldable pub shift_left : ℕ → ℕ → Run ℕ
shift_left value count = if ltb count 32 then ret (value * 2 ^ count % 2 ^ 32) else fault

-- The loop of as_smpp_serialize_integer over the rounds left, `a_len - i`.
unfoldable pub write_digits : ℕ → ℕ → Buffer → Run Buffer
write_digits value zero b = ret b
write_digits value (suc rounds) b = do
  shifted ← shift_right value (rounds * 8)
  b' ← push (bit_and shifted 0xff) b
  write_digits value rounds b'

-- The loop of as_smpp_deserialize_integer over the rounds left.
unfoldable pub read_digits : Buffer → ℕ → ℕ → ℕ → Run (ℕ × ℕ)
read_digits b zero result index = ret (result, index)
read_digits b (suc rounds) result index = do
  byte ← access (get_elem? b.ptr index)
  shifted ← shift_left byte (8 * rounds)
  read_digits b rounds (bit_or result shifted) ((index + 1) % size_mod)

-- as_smpp_deserialize_integer
unfoldable pub deserialize_integer : Buffer → ℕ → ℕ → Run (ℕ × ℕ)
deserialize_integer b index len = read_digits b len 0 index

-- strlen: the cells before the first zero. Without one it reads past the block.
unfoldable pub strlen : List ℕ → Run ℕ
strlen [] = fault
strlen (zero ∷ cells) = ret 0
strlen (suc c ∷ cells) = do n ← strlen cells; ret (suc n)

-- The loop of as_smpp_serialize_string over the characters left.
unfoldable pub write_chars : ℕ → List ℕ → Buffer → Run Buffer
write_chars zero cells b = ret b
write_chars (suc n) [] b = fault
write_chars (suc n) (c ∷ cells) b = do b' ← push c b; write_chars n cells b'

-- as_smpp_serialize_string behind its call of ensure_capacity
unfoldable pub write_string : CharPtr → ℕ → Buffer → Run Buffer
write_string none max_len b = push 0 b
write_string (some cells) max_len b = do
  n ← strlen cells
  write_chars (if ltb max_len (n + 1) then max_len else n + 1) cells b

module _ (mem : Memory) where
  -- as_smpp_serialize_integer
  unfoldable pub serialize_integer : Buffer → ℕ → ℕ → Run Buffer
  serialize_integer b value len = write_digits value len (ensure_capacity mem b len)

  -- as_smpp_serialize_string
  unfoldable pub serialize_string : Buffer → CharPtr → ℕ → Run Buffer
  serialize_string b value max_len = write_string value max_len (ensure_capacity mem b max_len)

  -- as_smpp_serialize_binary
  unfoldable pub serialize_binary : Buffer → List ℕ → ℕ → Run Buffer
  serialize_binary b value len =
      if len == 0 then ret b else push_block value len (ensure_capacity mem b len)

-- strcpy of `n` characters and the terminator to a pointer, unless it is NULL
unfoldable pub copy_text : CharPtr → List ℕ → Run CharPtr
copy_text none text = ret none
copy_text (some target) text = do cells ← copy_in target 0 text; ret (some cells)

-- as_smpp_deserialize_string; the size of the target is not used.
unfoldable pub deserialize_string : CharPtr → Buffer → ℕ → ℕ → Run (CharPtr × ℕ)
deserialize_string target b index value_buffer_size = do
  n ← strlen (drop index b.ptr)
  target' ← copy_text target (take (n + 1) (drop index b.ptr))
  ret (target', (index + (n + 1)) % size_mod)

-- as_smpp_deserialize_binary
unfoldable pub deserialize_binary : List ℕ → Buffer → ℕ → ℕ → Run (List ℕ × ℕ)
deserialize_binary target b index len = do
  bytes ← load_block b.ptr index len
  target' ← copy_in target 0 bytes
  ret (target', (index + len) % size_mod)
