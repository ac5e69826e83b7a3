-- ===== src/Map/Search/Unlink.antt =====
-- The write through `linkToThis` of as_smpp_map_remove: it takes the node that the search found out
-- of the tree, and leaves the rest as it is.
use as_smpp.Prelude.{ℕ, Option, some, ◌≡◌, ◌⊎◌, inl, inr, List, refl, sym, ap, arith}
use as_smpp.Prelude.{false}
use as_smpp.Variant.{Store}
use as_smpp.Variant.Compare.{key_bytes}
use as_smpp.Variant.Order.{order, order_refl, order-eq, order_trans}
use as_smpp.Map.{Node, Tree, null, node, replacement, set_up, set_link, is_at}
use as_smpp.Map.Search.{All, IsLinked, Below, IsOrdered, cut, find}
use as_smpp.Map.Search.Links.{
  In, Named, set_link_absent, find_key, not_here_left, not_here_right, apart,
}
use mathlib.Core.Path.{subst}
use Prim.Native.Nat.{Ordering}
use Prim.Native.Nat.Ordering.{lt, eq, gt}

Ordering-cases : (x : Ordering) → (x ≡ lt) ⊎ (x ≡ eq) ⊎ (x ≡ gt)
Ordering-cases lt = inl refl
Ordering-cases eq = inr (inl refl)
Ordering-cases gt = inr (inr refl)

module _ (st : Store) (keys : ℕ → List ℕ) (k : List ℕ) (n : Node) (l r : Tree) where
  abbrev rest : Tree
  rest = set_up n.up (replacement n l r)

  -- A tree whose top is the node, or the node above it and the write through its link.
  abbrev pub Unlinked : Tree → Type 0
  Unlinked t =
      (t ≡ node n l r)
      ⊎ ((a : ℕ) × (n.up ≡ some a) × In a t × (set_link a n.addr rest t ≡ cut st k t))

  pub cut_found : order (key_bytes st n.key) k ≡ eq → cut st k (node n l r) ≡ rest
  unfolding cut
  cut_found e = rw (e, cut) refl

  under_right :
      (c : Node) (cl : Tree)
      → order (key_bytes st c.key) k ≡ gt
      → order (key_bytes st n.key) k ≡ eq
      → set_link c.addr n.addr rest (node c cl (node n l r)) ≡ cut st k (node c cl (node n l r))
  unfolding set_link cut
  under_right c cl h e = ground (arith, cut_found e)

  right_of :
      (up : Option ℕ) (c : Node) (cl cr : Tree)
      → IsLinked up (node c cl cr)
      → All (Named st keys) (node c cl cr)
      → IsOrdered st (node c cl cr)
      → order (key_bytes st c.key) k ≡ gt
      → order (key_bytes st n.key) k ≡ eq
      → Unlinked cr
      → Unlinked (node c cl cr)
  unfolding set_link cut
  right_of up c cl cr link p o h f (inl e) = inr (
    c.addr,
    (subst (λ t. IsLinked (some c.addr) t) e link.2).0,
    inl refl,
    subst (λ t. set_link c.addr n.addr rest (node c cl t) ≡ cut st k (node c cl t)) (sym e)
        (under_right c cl h f),
  )
  right_of up c cl cr link p o h f (inr (a, u, i, e)) =
      let not_here = not_here_right st keys c a cr p.0 p.2 o.1 i in
      let not_left =
        set_link_absent a n.addr rest cl
          (λ j. apart st keys (key_bytes st c.key) a cl cr p.1 p.2 o.0 o.1 j i) in
      inr (a, u, inr (inr i), ground (arith, not_here, not_left, e, h))

  -- The node is not on the right of the node above it, where it has been found on the left.
  not_right :
      (c : Node) (cr : Tree)
      → All (Named st keys) cr
      → Below st (key_bytes st c.key) cr
      → Named st keys n.addr n.key n.key_hash
      → order (key_bytes st c.key) k ≡ lt
      → order (key_bytes st n.key) k ≡ eq
      → is_at n.addr cr ≡ false
  not_right c null p b q h e = refl
  not_right c (node d dl dr) p b q h e = ground (
    arith,
    ap (λ (a : ℕ). keys a),
    p.0,
    b.0,
    q,
    h,
    order-eq (key_bytes st n.key) k e,
    order_trans (key_bytes st d.key) (key_bytes st c.key) k b.0 h,
    order_refl k,
  )

  left_of :
      (up : Option ℕ) (c : Node) (cl cr : Tree)
      → IsLinked up (node c cl cr)
      → All (Named st keys) (node c cl cr)
      → IsOrdered st (node c cl cr)
      → order (key_bytes st c.key) k ≡ lt
      → order (key_bytes st n.key) k ≡ eq
      → Unlinked cl
      → Unlinked (node c cl cr)
  unfolding set_link cut
  left_of up c cl cr link p o h f (inl e) =
      let q = (subst (λ t. All (Named st keys) t) e p.1).0 in
      inr (
        c.addr,
        (subst (λ t. IsLinked (some c.addr) t) e link.1).0,
        inl refl,
        subst (λ t. set_link c.addr n.addr rest (node c t cr) ≡ cut st k (node c t cr)) (sym e)
            (ground (arith, cut_found f, not_right c cr p.2 o.1 q h f)),
      )
  left_of up c cl cr link p o h f (inr (a, u, i, e)) =
      let not_here = not_here_left st keys c a cl p.0 p.1 o.0 i in
      let not_other =
        set_link_absent a n.addr rest cr
          (λ j. apart st keys (key_bytes st c.key) a cl cr p.1 p.2 o.0 o.1 i j) in
      inr (a, u, inr (inl i), ground (arith, not_here, not_other, e, h))

  pub unlink :
      (up : Option ℕ) (t : Tree)
      → IsLinked up t
      → All (Named st keys) t
      → IsOrdered st t
      → find st k t ≡ node n l r
      → Unlinked t
  unfolding find
  unlink up null link p o e = cc
  unlink up (node c cl cr) link p o e = elim (Ordering-cases (order (key_bytes st c.key) k)) [
    | inl h ↦
        let below : find st k cl ≡ node n l r = ground (arith, e, h) in
        left_of up c cl cr link p o h (find_key st k cl n l r below)
          (unlink (some c.addr) cl link.1 p.1 o.2 below)
    | inr (inl h) ↦ inl (ground (arith, e, h))
    | inr (inr h) ↦
        let below : find st k cr ≡ node n l r = ground (arith, e, h) in
        right_of up c cl cr link p o h (find_key st k cr n l r below)
          (unlink (some c.addr) cr link.2 p.2 o.3 below)
  ]
