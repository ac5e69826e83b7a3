-- ===== src/Map/Search/Lookup.antt =====
-- What a search finds after adding, and in trees that were hung together.
use as_smpp.Prelude.{ℕ, Option, none, some, ◌≡◌, ◌≢◌, List, refl, ◌∙◌, arith}
use as_smpp.Variant.{Store, Variant}
use as_smpp.Variant.Compare.{key_bytes}
use as_smpp.Variant.Order.{order, order_refl, order-eq, order-gt, order-lt, order_trans}
use as_smpp.Map.{Node, Tree, null, node, set_up, hang_left, hang_right, value_of}
use as_smpp.Map.Search.{Above, Below, find, lookup, put}
use Prim.Native.Nat.Ordering.{lt, gt}

module _ (st : Store) where
  pub value_of-find : (k : List ℕ) (t : Tree) → value_of (find st k t) ≡ lookup st k t
  unfolding find lookup
  value_of-find k null = refl
  value_of-find k (node n l r) = ground (arith, value_of-find k l, value_of-find k r)

  -- The key just added reads its value, where it was not there before.
  pub lookup-put_self :
      (new : Node) (up : Option ℕ) (t : Tree)
      → lookup st (key_bytes st new.key) t ≡ none
      → lookup st (key_bytes st new.key) (put st new up t) ≡ some new.value
  unfolding lookup put
  lookup-put_self new up null h = rw (order_refl (key_bytes st new.key), lookup) refl
  lookup-put_self new up (node n l r) h =
      ground (arith, lookup-put_self new (some n.addr) l, lookup-put_self new (some n.addr) r)

  pub lookup-put_ne :
      (new : Node) (up : Option ℕ) (k : List ℕ) (t : Tree)
      → k ≢ key_bytes st new.key
      → lookup st k (put st new up t) ≡ lookup st k t
  unfolding lookup put
  lookup-put_ne new up k null ne = ground (arith, order-eq (key_bytes st new.key) k)
  lookup-put_ne new up k (node n l r) ne =
      ground (arith, lookup-put_ne new (some n.addr) k l ne, lookup-put_ne new (some n.addr) k r ne)

  -- A key that is there stays as it is.
  pub put_present :
      (new : Node) (up : Option ℕ) (t : Tree) (v : Variant)
      → lookup st (key_bytes st new.key) t ≡ some v
      → put st new up t ≡ t
  unfolding lookup put
  put_present new up null v h = cc
  put_present new up (node n l r) v h =
      ground (arith, put_present new (some n.addr) l v, put_present new (some n.addr) r v)

  pub lookup-set_up :
      (k : List ℕ) (up : Option ℕ) (t : Tree) → lookup st k (set_up up t) ≡ lookup st k t
  unfolding lookup set_up
  lookup-set_up k up null = refl
  lookup-set_up k up (node n l r) = refl

  pub lookup-Below : (k : List ℕ) (t : Tree) → Below st k t → lookup st k t ≡ none
  unfolding lookup
  lookup-Below k null b = refl
  lookup-Below k (node n l r) b = rw (b.0, lookup) (lookup-Below k l b.1)

  pub lookup-Above : (k : List ℕ) (t : Tree) → Above st k t → lookup st k t ≡ none
  unfolding lookup
  lookup-Above k null b = refl
  lookup-Above k (node n l r) b =
      rw (order-lt k (key_bytes st n.key) b.0, lookup) (lookup-Above k r b.2)

  -- Smaller keys under the last right link: a key above `c` is searched in the tree, one below `c`
  -- in what was hung there.
  pub lookup-hang_right :
      (c k : List ℕ) (x : Tree) (up : ℕ) (t : Tree)
      → Above st c t
      → order c k ≢ lt
      → lookup st k (hang_right x up t) ≡ lookup st k x
  unfolding lookup hang_right
  lookup-hang_right c k x up null a h = lookup-set_up k (some up) x
  lookup-hang_right c k x up (node n l r) a h = ground (
    arith,
    lookup-hang_right c k x n.addr r a.2 h,
    order_trans c (key_bytes st n.key) k a.0,
    order-eq (key_bytes st n.key) k,
    a.0,
  )

  pub lookup-hang_right_above :
      (k : List ℕ) (x : Tree) (up : ℕ) (t : Tree)
      → Below st k x
      → lookup st k (hang_right x up t) ≡ lookup st k t
  unfolding lookup hang_right
  lookup-hang_right_above k x up null b = lookup-set_up k (some up) x ∙ lookup-Below k x b
  lookup-hang_right_above k x up (node n l r) b =
      ground (arith, lookup-hang_right_above k x n.addr r b)

  pub lookup-hang_left :
      (c k : List ℕ) (x : Tree) (up : ℕ) (t : Tree)
      → Below st c t
      → order c k ≢ gt
      → lookup st k (hang_left x up t) ≡ lookup st k x
  unfolding lookup hang_left
  lookup-hang_left c k x up null a h = lookup-set_up k (some up) x
  lookup-hang_left c k x up (node n l r) a h = ground (
    arith,
    lookup-hang_left c k x n.addr l a.1 h,
    order-gt (key_bytes st n.key) k,
    order_trans k (key_bytes st n.key) c,
    order-lt k c,
    order-eq (key_bytes st n.key) k,
    order-lt (key_bytes st n.key) c,
    a.0,
  )

  pub lookup-hang_left_below :
      (k : List ℕ) (x : Tree) (up : ℕ) (t : Tree)
      → Above st k x
      → lookup st k (hang_left x up t) ≡ lookup st k t
  unfolding lookup hang_left
  lookup-hang_left_below k x up null b = lookup-set_up k (some up) x ∙ lookup-Above k x b
  lookup-hang_left_below k x up (node n l r) b =
      ground (arith, lookup-hang_left_below k x n.addr l b)
