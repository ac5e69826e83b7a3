-- ===== src/Variant/Order.antt =====
-- The order of keys that as_smpp_variant_compare decides: by length, then byte by byte.
use as_smpp.Prelude.{ℕ, ◌≡◌, refl, List, [], ◌∷◌, arith, length}
use Prim.Native.Nat.{Ordering, compare}
use Prim.Native.Nat.Ordering.{lt, eq, gt}
use as_smpp.Variant.{memcmp}

unfoldable pub order : List ℕ → List ℕ → Ordering
order xs ys = elim (compare (length xs) (length ys)) [ lt ↦ lt | eq ↦ memcmp xs ys | gt ↦ gt ]

memcmp_refl : (xs : List ℕ) → memcmp xs xs ≡ eq
unfolding memcmp
memcmp_refl [] = refl
memcmp_refl (x ∷ xs) = ground (arith, memcmp_refl xs)

memcmp-eq : (xs ys : List ℕ) → length xs ≡ length ys → memcmp xs ys ≡ eq → xs ≡ ys
unfolding memcmp
memcmp-eq [] [] h e = refl
memcmp-eq [] (y ∷ ys) h e = absurd (omega (arith, h))
memcmp-eq (x ∷ xs) [] h e = absurd (omega (arith, h))
memcmp-eq (x ∷ xs) (y ∷ ys) h e = ground (arith, memcmp-eq xs ys)

memcmp-gt : (xs ys : List ℕ) → memcmp xs ys ≡ gt → memcmp ys xs ≡ lt
unfolding memcmp
memcmp-gt [] ys e = cc
memcmp-gt (x ∷ xs) [] e = cc
memcmp-gt (x ∷ xs) (y ∷ ys) e = ground (arith, memcmp-gt xs ys)

memcmp-lt : (xs ys : List ℕ) → memcmp xs ys ≡ lt → memcmp ys xs ≡ gt
unfolding memcmp
memcmp-lt [] ys e = cc
memcmp-lt (x ∷ xs) [] e = cc
memcmp-lt (x ∷ xs) (y ∷ ys) e = ground (arith, memcmp-lt xs ys)

memcmp_trans : (xs ys zs : List ℕ) → memcmp xs ys ≡ lt → memcmp ys zs ≡ lt → memcmp xs zs ≡ lt
unfolding memcmp
memcmp_trans [] ys zs h k = cc
memcmp_trans (x ∷ xs) [] zs h k = cc
memcmp_trans (x ∷ xs) (y ∷ ys) [] h k = cc
memcmp_trans (x ∷ xs) (y ∷ ys) (z ∷ zs) h k = ground (arith, memcmp_trans xs ys zs)

pub order_refl : (xs : List ℕ) → order xs xs ≡ eq
unfolding order
order_refl xs = ground (arith, memcmp_refl xs)

pub order-eq : (xs ys : List ℕ) → order xs ys ≡ eq → xs ≡ ys
unfolding order
order-eq xs ys e = ground (arith, memcmp-eq xs ys)

pub order-gt : (xs ys : List ℕ) → order xs ys ≡ gt → order ys xs ≡ lt
unfolding order
order-gt xs ys e = ground (arith, memcmp-gt xs ys)

pub order-lt : (xs ys : List ℕ) → order xs ys ≡ lt → order ys xs ≡ gt
unfolding order
order-lt xs ys e = ground (arith, memcmp-lt xs ys)

pub order_trans : (xs ys zs : List ℕ) → order xs ys ≡ lt → order ys zs ≡ lt → order xs zs ≡ lt
unfolding order
order_trans xs ys zs h k = ground (arith, memcmp_trans xs ys zs)
