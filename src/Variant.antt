-- ===== src/Variant.antt =====
-- Variants: include/as-smpp-core/core.h and the first functions of src/as-smpp-core/src/core.c.
pub mod Order
pub mod Compare
use as_smpp.Prelude.{
  ℕ, ◌+◌, ◌-◌, ◌%◌, ◌^◌, Bool, true, false, List, [], ◌∷◌, ltb, ◌==◌, if◌then◌else◌, bit_and,
  bit_xor,
}
use as_smpp.Prelude.{Run, ret, ◌>>=◌}
use as_smpp.Memory.{size_mod}
use as_smpp.Buffer.Cells.{load_block, copy_in}
use Prim.Native.Nat.{Ordering, compare}
use Prim.Native.Nat.Ordering.{lt, eq, gt}

-- The blocks that the pointers of variants point to, by address.
abbrev pub Store : Type 0
Store = ℕ → List ℕ

abbrev pub write : Store → ℕ → List ℕ → Store
write st p block = λ q. if q == p then block else st q

-- AS_SMPP_VARIANT_TYPE_SCALAR, a bit that the scalar types have, and AS_SMPP_VARIANT_TYPE_PTR
abbrev pub scalar_flag : ℕ
scalar_flag = 1

abbrev pub type_ptr : ℕ
type_ptr = 12

-- t_as_smpp_variant. The union is two fields, the eight bytes of a scalar and the address of a
-- pointer; the type says which of them is meant. NULL is the address 0.
pub record Variant : Type 0 where
  pub cells : List ℕ
  pub ptr : ℕ
  pub type : ℕ
  pub len : ℕ

-- as_smpp_variant_copy, with the block that the allocator returns if it is asked for `len` bytes, its
-- address and its contents: the target and the blocks as they are left.
unfoldable pub variant_copy : Store → ℕ × List ℕ → Variant → Variant → Run (Variant × Store)
variant_copy st fresh to from =
    let value_ptr = to.ptr in
    let copied = from in
    elim (type_ptr == from.type) [
      | true ↦ do
        let copied = if value_ptr == 0 then record copied { ptr = fresh.0 } else copied
        let st = if value_ptr == 0 then write st fresh.0 fresh.1 else st
        bytes ← load_block (st from.ptr) 0 from.len
        block ← copy_in (st copied.ptr) 0 bytes
        ret (copied, write st copied.ptr block)
      | false ↦ ret (copied, st)
    ]

-- The loop of as_smpp_variant_calc_hash over the bytes left.
unfoldable pub hash_loop : ℕ → List ℕ → ℕ
hash_loop result [] = result
hash_loop result (byte ∷ bytes) = hash_loop (bit_xor result byte % 256) bytes

-- as_smpp_variant_calc_hash
unfoldable pub variant_calc_hash : Store → Variant → Run ℕ
variant_calc_hash st v = do
  let block = if bit_and v.type scalar_flag == 0 then st v.ptr else v.cells
  bytes ← load_block block 0 v.len
  ret (hash_loop 0 bytes)

-- memcmp of two blocks of the same size
unfoldable pub memcmp : List ℕ → List ℕ → Ordering
memcmp [] ys = eq
memcmp (x ∷ xs) [] = eq
memcmp (x ∷ xs) (y ∷ ys) = elim (compare x y) [ lt ↦ lt | eq ↦ memcmp xs ys | gt ↦ gt ]

-- The sign of an `int` of 32 bits.
unfoldable pub sign : ℕ → Ordering
sign n = if n == 0 then eq else if ltb n (2 ^ 31) then gt else lt

-- as_smpp_variant_compare; a result below 0 is `lt`. The difference of two sizes becomes an `int`.
unfoldable pub variant_compare : Store → Variant → Variant → Run Ordering
variant_compare st l r = elim (l.len == r.len) [
  | false ↦ ret (sign ((l.len + size_mod - r.len) % size_mod % 2 ^ 32))
  | true ↦ do
    xs ← load_block (if type_ptr == l.type then st l.ptr else l.cells) 0 l.len
    ys ← load_block (if type_ptr == r.type then st r.ptr else r.cells) 0 l.len
    ret (memcmp xs ys)
]
