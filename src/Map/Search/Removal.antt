-- ===== src/Map/Search/Removal.antt =====
-- What a search finds after removing.
use as_smpp.Prelude.{ℕ, none, ◌≡◌, ◌≢◌, List, refl, arith}
use as_smpp.Variant.{Store}
use as_smpp.Variant.Compare.{key_bytes}
use as_smpp.Variant.Order.{order, order_refl, order-eq, order-gt, order-lt, order_trans}
use as_smpp.Map.{Node, Tree, null, node, replacement}
use as_smpp.Map.Search.{All, Above, Below, IsOrdered, lookup, cut}
use as_smpp.Map.Search.Order.{All-imp, After, Before, Above-trans, Below-trans}
use mathlib.Core.Path.{subst}
use Prim.Native.Nat.Ordering.{lt, eq, gt}
use as_smpp.Map.Search.Lookup.{
  lookup-set_up, lookup-hang_right_above, lookup-hang_right, lookup-hang_left_below,
  lookup-hang_left,
}

module _ (st : Store) where
  absent_left : (c k : List ℕ) (t : Tree) → Above st c t → order c k ≢ lt → lookup st k t ≡ none
  unfolding lookup
  absent_left c k null a h = refl
  absent_left c k (node n l r) a h = ground (
    arith,
    absent_left c k r a.2 h,
    order-eq (key_bytes st n.key) k,
    order_trans c (key_bytes st n.key) k a.0,
    a.0,
  )

  absent_right : (c k : List ℕ) (t : Tree) → Below st c t → order c k ≢ gt → lookup st k t ≡ none
  unfolding lookup
  absent_right c k null a h = refl
  absent_right c k (node n l r) a h = ground (
    arith,
    absent_right c k l a.1 h,
    order-eq (key_bytes st n.key) k,
    order-gt (key_bytes st n.key) k,
    order_trans k (key_bytes st n.key) c,
    order-lt k c,
    order-lt (key_bytes st n.key) c,
    a.0,
  )

  -- What takes a node's place, for the keys on each side of it and for its own.
  replaced_above :
      (n : Node) (l r : Tree) (k : List ℕ)
      → IsOrdered st (node n l r)
      → order (key_bytes st n.key) k ≡ lt
      → lookup st k (replacement n l r) ≡ lookup st k l
  unfolding replacement lookup
  replaced_above n l null k o h = refl
  replaced_above n null (node j jl jr) k o h =
      absent_right (key_bytes st n.key) k (node j jl jr) o.1 (ground (arith, h))
  replaced_above n (node i il ir) (node j jl jr) k o h =
      let c = key_bytes st n.key in
      ground (
        arith,
        lookup-hang_left st c k (node i il ir) n.addr (node j jl jr) o.1,
        lookup-hang_right_above st k (node j jl jr) n.addr (node i il ir)
            (Below-trans st c k (node j jl jr) h o.1),
      )

  replaced_below :
      (n : Node) (l r : Tree) (k : List ℕ)
      → IsOrdered st (node n l r)
      → order (key_bytes st n.key) k ≡ gt
      → lookup st k (replacement n l r) ≡ lookup st k r
  unfolding replacement lookup
  replaced_below n l null k o h = absent_left (key_bytes st n.key) k l o.0 (ground (arith, h))
  replaced_below n null (node j jl jr) k o h = refl
  replaced_below n (node i il ir) (node j jl jr) k o h =
      let c = key_bytes st n.key in
      ground (
        arith,
        lookup-hang_left_below st k (node i il ir) n.addr (node j jl jr)
            (Above-trans st k c (node i il ir) (order-gt c k h) o.0),
        lookup-hang_right st c k (node j jl jr) n.addr (node i il ir) o.0,
      )

  replaced_self :
      (n : Node) (l r : Tree) (k : List ℕ)
      → IsOrdered st (node n l r)
      → order (key_bytes st n.key) k ≡ eq
      → lookup st k (replacement n l r) ≡ none
  unfolding replacement
  replaced_self n l null k o h = absent_left (key_bytes st n.key) k l o.0 (ground (arith, h))
  replaced_self n null (node j jl jr) k o h =
      absent_right (key_bytes st n.key) k (node j jl jr) o.1 (ground (arith, h))
  replaced_self n (node i il ir) (node j jl jr) k o h =
      let c = key_bytes st n.key in
      ground (
        arith,
        lookup-hang_left st c k (node i il ir) n.addr (node j jl jr) o.1,
        lookup-hang_right st c k (node j jl jr) n.addr (node i il ir) o.0,
        absent_left c k (node i il ir) o.0,
        absent_right c k (node j jl jr) o.1,
      )

  pub lookup-cut_self : (k : List ℕ) (t : Tree) → IsOrdered st t → lookup st k (cut st k t) ≡ none
  unfolding lookup cut
  lookup-cut_self k null o = refl
  lookup-cut_self k (node n l r) o = ground (
    arith,
    lookup-cut_self k l,
    lookup-cut_self k r,
    lookup-set_up st k n.up (replacement n l r),
    replaced_self n l r k o,
  )

  pub lookup-cut_ne :
      (k q : List ℕ) (t : Tree) → IsOrdered st t → q ≢ k → lookup st q (cut st k t) ≡ lookup st q t
  unfolding lookup cut
  lookup-cut_ne k q null o ne = refl
  lookup-cut_ne k q (node n l r) o ne = ground (
    arith,
    lookup-cut_ne k q l,
    lookup-cut_ne k q r,
    lookup-set_up st q n.up (replacement n l r),
    replaced_above n l r q o,
    replaced_below n l r q o,
    order-eq (key_bytes st n.key) k,
    order-eq (key_bytes st n.key) q,
  )

  pub cut_absent : (k : List ℕ) (t : Tree) → lookup st k t ≡ none → cut st k t ≡ t
  unfolding lookup cut
  cut_absent k null h = refl
  cut_absent k (node n l r) h = ground (arith, cut_absent k l, cut_absent k r)

  order_ne : (c k : List ℕ) → order c k ≢ eq → c ≢ k
  order_ne c k h e = h (subst (λ x. order c x ≡ eq) e (order_refl c))

  Above-All :
      (c k : List ℕ) (t : Tree)
      → order c k ≢ lt
      → Above st c t
      → All (λ addr key key_hash. key_bytes st key ≢ k) t
  Above-All c k t h =
      All-imp (After st c) (λ addr key key_hash. key_bytes st key ≢ k) t
        (λ addr key key_hash a e. h (subst (λ x. order c x ≡ lt) e a))

  Below-All :
      (c k : List ℕ) (t : Tree)
      → order k c ≢ lt
      → Below st c t
      → All (λ addr key key_hash. key_bytes st key ≢ k) t
  Below-All c k t h =
      All-imp (Before st c) (λ addr key key_hash. key_bytes st key ≢ k) t
        (λ addr key key_hash a e. h (subst (λ x. order x c ≡ lt) e a))

  -- A key that is not found is no node's.
  pub not_found-All :
      (k : List ℕ) (t : Tree)
      → IsOrdered st t
      → lookup st k t ≡ none
      → All (λ addr key key_hash. key_bytes st key ≢ k) t
  unfolding lookup
  not_found-All k null o h = tt
  not_found-All k (node n l r) o h =
      let c = key_bytes st n.key in
      ground (
        arith,
        not_found-All k l o.2,
        not_found-All k r o.3,
        order_ne c k,
        order-lt c k,
        Above-All c k l,
        Below-All c k r,
        o.0,
        o.1,
      )
