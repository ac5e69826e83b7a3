-- ===== src/Map/Search/Order.antt =====
-- What adding and removing do to the predicates on a tree: to any predicate on all nodes, and to the
-- order.
use as_smpp.Prelude.{ℕ, Option, some, ◌≡◌, List, arith}
use as_smpp.Variant.{Store, Variant}
use as_smpp.Variant.Compare.{key_bytes}
use as_smpp.Variant.Order.{order, order-gt, order_trans}
use as_smpp.Map.{Node, Tree, null, node, replacement, set_up, hang_left, hang_right}
use as_smpp.Map.Search.{All, Above, Below, IsOrdered, put, cut}
use Prim.Native.Nat.Ordering.{lt}

module _ (P : ℕ → Variant → ℕ → Type 0) where
  pub All-set_up : (up : Option ℕ) (t : Tree) → All P t → All P (set_up up t)
  unfolding set_up
  All-set_up up null a = tt
  All-set_up up (node n l r) a = a

  pub All-hang_right :
      (x : Tree) (up : ℕ) (t : Tree) → All P x → All P t → All P (hang_right x up t)
  unfolding hang_right
  All-hang_right x up null a b = All-set_up (some up) x a
  All-hang_right x up (node n l r) a b = (b.0, b.1, All-hang_right x n.addr r a b.2)

  pub All-hang_left : (x : Tree) (up : ℕ) (t : Tree) → All P x → All P t → All P (hang_left x up t)
  unfolding hang_left
  All-hang_left x up null a b = All-set_up (some up) x a
  All-hang_left x up (node n l r) a b = (b.0, All-hang_left x n.addr l a b.1, b.2)

  pub All-replacement : (n : Node) (l r : Tree) → All P l → All P r → All P (replacement n l r)
  unfolding replacement
  All-replacement n l null a b = a
  All-replacement n null (node k kl kr) a b = b
  All-replacement n (node j jl jr) (node k kl kr) a b = ground (
    arith,
    All-hang_left (node j jl jr) n.addr (node k kl kr),
    All-hang_right (node k kl kr) n.addr (node j jl jr),
  )

  module _ (st : Store) where
    pub All-put :
        (new : Node) (up : Option ℕ) (t : Tree)
        → P new.addr new.key new.key_hash
        → All P t
        → All P (put st new up t)
    unfolding put
    All-put new up null p a = (p, tt, tt)
    All-put new up (node n l r) p a =
        ground (arith, All-put new (some n.addr) l, All-put new (some n.addr) r)

    pub All-cut : (k : List ℕ) (t : Tree) → All P t → All P (cut st k t)
    unfolding cut
    All-cut k null a = tt
    All-cut k (node n l r) a = ground (
      arith,
      All-cut k l,
      All-cut k r,
      All-set_up n.up (replacement n l r),
      All-replacement n l r,
    )

pub All-imp :
    (P Q : ℕ → Variant → ℕ → Type 0) (t : Tree)
    → ((addr : ℕ) (key : Variant) (key_hash : ℕ) → P addr key key_hash → Q addr key key_hash)
    → All P t
    → All Q t
All-imp P Q null f a = tt
All-imp P Q (node n l r) f a =
    (f n.addr n.key n.key_hash a.0, All-imp P Q l f a.1, All-imp P Q r f a.2)

pub All-and :
    (P Q : ℕ → Variant → ℕ → Type 0) (t : Tree)
    → All P t
    → All Q t
    → All (λ addr key key_hash. P addr key key_hash × Q addr key key_hash) t
All-and P Q null a b = tt
All-and P Q (node n l r) a b = ((a.0, b.0), All-and P Q l a.1 b.1, All-and P Q r a.2 b.2)

module _ (st : Store) where
  -- The predicates that a key of the tree comes after `k`, or before it.
  abbrev pub After : List ℕ → ℕ → Variant → ℕ → Type 0
  After k addr key key_hash = order k (key_bytes st key) ≡ lt

  abbrev pub Before : List ℕ → ℕ → Variant → ℕ → Type 0
  Before k addr key key_hash = order (key_bytes st key) k ≡ lt

  IsOrdered-set_up : (up : Option ℕ) (t : Tree) → IsOrdered st t → IsOrdered st (set_up up t)
  unfolding set_up
  IsOrdered-set_up up null o = tt
  IsOrdered-set_up up (node n l r) o = o

  pub Above-trans : (a b : List ℕ) (t : Tree) → order a b ≡ lt → Above st b t → Above st a t
  Above-trans a b t h =
      All-imp (After b) (After a) t (λ addr key key_hash. order_trans a b (key_bytes st key) h)

  pub Below-trans : (a b : List ℕ) (t : Tree) → order a b ≡ lt → Below st a t → Below st b t
  Below-trans a b t h =
      All-imp (Before a) (Before b) t
        (λ addr key key_hash p. order_trans (key_bytes st key) a b p h)

  -- The smaller keys `x` under the last right link of the greater keys.
  IsOrdered-hang_right :
      (c : List ℕ) (x : Tree) (up : ℕ) (t : Tree)
      → Below st c x
      → Above st c t
      → IsOrdered st x
      → IsOrdered st t
      → IsOrdered st (hang_right x up t)
  unfolding hang_right
  IsOrdered-hang_right c x up null b a ox ot = IsOrdered-set_up (some up) x ox
  IsOrdered-hang_right c x up (node n l r) b a ox ot =
      let k = key_bytes st n.key in
      let below = All-hang_right (Before k) x n.addr r (Below-trans c k x a.0 b) ot.1 in
      (ot.0, below, ot.2, IsOrdered-hang_right c x n.addr r b a.2 ox ot.3)

  IsOrdered-hang_left :
      (c : List ℕ) (x : Tree) (up : ℕ) (t : Tree)
      → Above st c x
      → Below st c t
      → IsOrdered st x
      → IsOrdered st t
      → IsOrdered st (hang_left x up t)
  unfolding hang_left
  IsOrdered-hang_left c x up null a b ox ot = IsOrdered-set_up (some up) x ox
  IsOrdered-hang_left c x up (node n l r) a b ox ot =
      let k = key_bytes st n.key in
      let above = All-hang_left (After k) x n.addr l (Above-trans k c x b.0 a) ot.0 in
      (above, ot.1, IsOrdered-hang_left c x n.addr l a b.1 ox ot.2, ot.3)

  IsOrdered-replacement :
      (n : Node) (l r : Tree) → IsOrdered st (node n l r) → IsOrdered st (replacement n l r)
  unfolding replacement
  IsOrdered-replacement n l null o = o.2
  IsOrdered-replacement n null (node k kl kr) o = o.3
  IsOrdered-replacement n (node j jl jr) (node k kl kr) o =
      let c = key_bytes st n.key in
      ground (
        arith,
        IsOrdered-hang_left c (node j jl jr) n.addr (node k kl kr) o.0 o.1 o.2 o.3,
        IsOrdered-hang_right c (node k kl kr) n.addr (node j jl jr) o.1 o.0 o.3 o.2,
      )

  pub IsOrdered-put :
      (new : Node) (up : Option ℕ) (t : Tree) → IsOrdered st t → IsOrdered st (put st new up t)
  unfolding put
  IsOrdered-put new up null o = (tt, tt, tt, tt)
  IsOrdered-put new up (node n l r) o =
      let k = key_bytes st n.key in
      ground (
        arith,
        IsOrdered-put new (some n.addr) l,
        IsOrdered-put new (some n.addr) r,
        All-put (After k) st new (some n.addr) l,
        All-put (Before k) st new (some n.addr) r,
        order-gt k (key_bytes st new.key),
      )

  pub IsOrdered-cut : (k : List ℕ) (t : Tree) → IsOrdered st t → IsOrdered st (cut st k t)
  unfolding cut
  IsOrdered-cut k null o = tt
  IsOrdered-cut k (node n l r) o =
      let c = key_bytes st n.key in
      ground (
        arith,
        IsOrdered-cut k l,
        IsOrdered-cut k r,
        All-cut (After c) st k l,
        All-cut (Before c) st k r,
        IsOrdered-set_up n.up (replacement n l r),
        IsOrdered-replacement n l r,
      )
