-- ===== src/Memory.antt =====
-- What the code asks of the C library's allocator: `malloc` and `realloc` behind AS_SMPP_MALLOC and
-- AS_SMPP_REALLOC of include/as-smpp-core/core.h. A block is the list of its cells. A null pointer,
-- which the code does not test for, is the empty block.
use as_smpp.Prelude.{ℕ, ◌^◌, ◌≤◌, ◌<◌, ◌≡◌, List, length, take}

pub record Memory : Type 0 where
  -- The contents of a fresh block are indeterminate: any list of cells.
  pub malloc : ℕ → List ℕ
  pub realloc : List ℕ → ℕ → List ℕ

-- The values of size_t.
abbrev pub size_mod : ℕ
size_mod = 2 ^ 64

-- The documented behaviour where no allocation fails: a block has the size that was asked for, and
-- growing a block keeps its cells.
pub record IsSupplied (mem : Memory) : Type 0 where
  pub length-malloc : (n : ℕ) → n < size_mod → length (mem.malloc n) ≡ n
  pub length-realloc : (block : List ℕ) (n : ℕ) → n < size_mod → length (mem.realloc block n) ≡ n
  pub realloc_keeps :
      (block : List ℕ) (n : ℕ)
      → n < size_mod
      → length block ≤ n
      → take (length block) (mem.realloc block n) ≡ block
