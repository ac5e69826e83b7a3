-- ===== src/Variant/Compare.antt =====
-- as_smpp_variant_compare and as_smpp_variant_calc_hash on keys that can be read.
use as_smpp.Prelude.{
  ℕ, ◌+◌, ◌-◌, ◌≤◌, ◌<◌, ◌^◌, ◌%◌, ◌≡◌, ◌⊎◌, inl, inr, refl, ap, ◌∙◌, arith, ◌==◌, false,
}
use as_smpp.Prelude.{
  List, ret, length, length-take, take, bit_and, if◌then◌else◌, Bool-cases, ==_iff, ◌>>=◌,
}
use Prim.Native.Nat.{compare}
use Prim.Native.Nat.Ordering.{lt, eq, gt}
use as_smpp.Memory.{size_mod}
use as_smpp.Buffer.Cells.{load_block, load_block_lem}
use as_smpp.Variant.{
  Store, Variant, type_ptr, variant_calc_hash, variant_compare, hash_loop, memcmp, sign,
  scalar_flag,
}
use as_smpp.Variant.Order.{order}

-- The block that a variant means.
unfoldable pub block_of : Store → Variant → List ℕ
block_of st v = if type_ptr == v.type then st v.ptr else v.cells

-- Its bytes, the key as the map takes it.
unfoldable pub key_bytes : Store → Variant → List ℕ
key_bytes st v = take v.len (block_of st v)

-- A variant of a scalar type or a pointer, whose bytes can be read.
pub record IsKey (st : Store) (v : Variant) : Type 0 where
  pub typed : (v.type ≡ type_ptr) ⊎ (bit_and v.type scalar_flag ≡ 1)
  pub inside : v.len ≤ length (block_of st v)
  pub small : v.len < 2 ^ 31

pub length-key_bytes : (st : Store) (v : Variant) → IsKey st v → length (key_bytes st v) ≡ v.len
unfolding key_bytes
length-key_bytes st v k = omega (arith, length-take v.len (block_of st v), k.inside)

load_key :
    (st : Store) (v : Variant) (n : ℕ)
    → IsKey st v
    → n ≡ v.len
    → load_block (block_of st v) 0 n ≡ ret (key_bytes st v)
unfolding key_bytes
load_key st v n k e = rw e (load_block_lem (block_of st v) 0 v.len (omega (arith, k.inside)))

hash_block :
    (st : Store) (v : Variant)
    → (v.type ≡ type_ptr) ⊎ (bit_and v.type scalar_flag ≡ 1)
    → (if bit_and v.type scalar_flag == 0 then st v.ptr else v.cells) ≡ block_of st v
unfolding block_of
hash_block st v (inl p) = rw p refl
hash_block st v (inr s) = elim (Bool-cases (type_ptr == v.type)) [
  | inl e ↦
      let flag : bit_and type_ptr scalar_flag ≡ 1 =
        ap (λ t. bit_and t scalar_flag) ((==_iff type_ptr v.type).0 e) ∙ s in
      absurd (omega (arith, flag))
  | inr e ↦ rw (s, e) refl
]

pub variant_calc_hash_lem :
    (st : Store) (v : Variant)
    → IsKey st v
    → variant_calc_hash st v ≡ ret (hash_loop 0 (key_bytes st v))
unfolding variant_calc_hash
variant_calc_hash_lem st v k =
    ap (λ b. load_block b 0 v.len >>= λ bytes. ret (hash_loop 0 bytes)) (hash_block st v k.typed)
    ∙ ap (λ r. r >>= λ bytes. ret (hash_loop 0 bytes)) (load_key st v v.len k refl)

sign-difference :
    (m n : ℕ)
    → m < 2 ^ 31
    → n < 2 ^ 31
    → (m == n) ≡ false
    → sign ((m + size_mod - n) % size_mod % 2 ^ 32)
      ≡ elim (compare m n) [ lt ↦ lt | eq ↦ eq | gt ↦ gt ]
unfolding sign
sign-difference m n hm hn ne = ground arith

-- Keys of one length are read and compared byte by byte.
compare_same :
    (st : Store) (l r : Variant)
    → IsKey st l
    → IsKey st r
    → l.len ≡ r.len
    → variant_compare st l r ≡ ret (memcmp (key_bytes st l) (key_bytes st r))
unfolding variant_compare block_of
compare_same st l r kl kr e =
    rw ((==_iff l.len r.len).1 e, variant_compare)
      (ap (λ m. m >>= λ xs. load_block (block_of st r) 0 l.len >>= λ ys. ret (memcmp xs ys))
          (load_key st l l.len kl refl)
        ∙ ap (λ m. m >>= λ ys. ret (memcmp (key_bytes st l) ys)) (load_key st r l.len kr e))

pub variant_compare_lem :
    (st : Store) (l r : Variant)
    → IsKey st l
    → IsKey st r
    → variant_compare st l r ≡ ret (order (key_bytes st l) (key_bytes st r))
unfolding variant_compare order
variant_compare_lem st l r kl kr =
    let size = length-key_bytes st l kl in
    let other_size = length-key_bytes st r kr in
    elim (Bool-cases (l.len == r.len)) [
      | inl e ↦
          let same = (==_iff l.len r.len).0 e in
          compare_same st l r kl kr same ∙ ground (arith, size, other_size)
      | inr e ↦
          rw (e, variant_compare)
            (ap ret (sign-difference l.len r.len kl.small kr.small e)
              ∙ ground (arith, size, other_size))
    ]
