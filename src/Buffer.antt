-- ===== src/Buffer.antt =====
-- t_as_smpp_buffer and its functions: include/as-smpp-core/core.h and src/as-smpp-core/src/core.c.
pub mod Cells
pub mod Valid
pub mod Growth
pub mod Editing
use as_smpp.Prelude.{ℕ, ◌+◌, ◌-◌, ◌%◌, ◌≤◌, ◌<◌, List, [], ◌∷◌, ltb, leb, if◌then◌else◌}
use as_smpp.Prelude.{Run, ret, fault, ◌>>=◌}
use as_smpp.Memory.{Memory, size_mod}
use Cells.{store, copy_in, move_down, load_block}

-- `ptr` is the block that the pointer points to, all of its cells.
pub record Buffer : Type 0 where
  pub ptr : List ℕ
  pub data_len : ℕ
  pub capacity : ℕ

module _ (mem : Memory) where
  -- as_smpp_buffer_init
  unfoldable pub init : ℕ → Buffer
  init capacity = record { ptr = mem.malloc capacity; data_len = 0; capacity = capacity }

  -- as_smpp_buffer_ensure_capacity, in the arithmetic of size_t
  unfoldable pub ensure_capacity : Buffer → ℕ → Buffer
  ensure_capacity b block_size =
      let capacity' = (b.capacity + block_size + 16) % size_mod in
      if ltb b.capacity ((b.data_len + block_size) % size_mod)
      then record b { ptr = mem.realloc b.ptr capacity'; capacity = capacity' }
      else b

-- `a_buffer->ptr[a_buffer->dataLen++] = a_data`
unfoldable pub push : ℕ → Buffer → Run Buffer
push byte b = do
  cells ← store b.ptr b.data_len byte
  ret (record b { ptr = cells; data_len = (b.data_len + 1) % size_mod })

module _ (mem : Memory) where
  -- as_smpp_buffer_add
  unfoldable pub add : Buffer → ℕ → Run Buffer
  add b byte = push byte (ensure_capacity mem b 1)

-- `memcpy( a_buffer->ptr + a_buffer->dataLen, a_data, a_length ); a_buffer->dataLen += a_length`
unfoldable pub push_block : List ℕ → ℕ → Buffer → Run Buffer
push_block source len b = do
  bytes ← load_block source 0 len
  cells ← copy_in b.ptr b.data_len bytes
  ret (record b { ptr = cells; data_len = (b.data_len + len) % size_mod })

module _ (mem : Memory) where
  -- as_smpp_buffer_copy
  unfoldable pub copy : Buffer → List ℕ → ℕ → Run Buffer
  copy b source len = push_block source len (ensure_capacity mem b len)

-- as_smpp_buffer_remove; `len - index` is a difference of size_t
unfoldable pub remove : Buffer → ℕ → ℕ → Run Buffer
remove b index len = if leb b.data_len len then ret (record b { data_len = index }) else do
  cells ← move_down b.ptr index len (b.data_len - len)
  ret (record b {
    ptr = cells;
    data_len = (b.data_len + size_mod - (len + size_mod - index) % size_mod) % size_mod;
  })

-- as_smpp_buffer_destroy: the block is freed, and the pointer is null.
unfoldable pub destroy : Buffer → Buffer
destroy b = record { ptr = []; data_len = 0; capacity = 0 }
