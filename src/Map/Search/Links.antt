-- ===== src/Map/Search/Links.antt =====
-- The links to the nodes above: kept by adding and removing, and good for the write through
-- `linkToThis`, which takes out the node that the search found.
use as_smpp.Prelude.{ℕ, Option, some, ◌≡◌, ◌≢◌, ◌⊎◌, inl, inr, List, refl, sym, ap, arith}
use mathlib.Core.Path.{subst}
use as_smpp.Variant.{Store, Variant}
use as_smpp.Variant.Compare.{key_bytes}
use as_smpp.Variant.Order.{order, order_refl, order-lt}
use as_smpp.Map.{Node, Tree, null, node, replacement, set_up, hang_left, hang_right, set_link}
use as_smpp.Map.Search.{All, IsLinked, Above, Below, put, cut, find}
use Prim.Native.Nat.Ordering.{lt, eq}

IsLinked-set_up : (up old : Option ℕ) (t : Tree) → IsLinked old t → IsLinked up (set_up up t)
unfolding set_up
IsLinked-set_up up old null a = tt
IsLinked-set_up up old (node n l r) a = (refl, a.1, a.2)

IsLinked-hang_right :
    (x : Tree) (old : Option ℕ) (up : ℕ) (t : Tree)
    → IsLinked old x
    → IsLinked (some up) t
    → IsLinked (some up) (hang_right x up t)
unfolding hang_right
IsLinked-hang_right x old up null a b = IsLinked-set_up (some up) old x a
IsLinked-hang_right x old up (node n l r) a b = (b.0, b.1, IsLinked-hang_right x old n.addr r a b.2)

IsLinked-hang_left :
    (x : Tree) (old : Option ℕ) (up : ℕ) (t : Tree)
    → IsLinked old x
    → IsLinked (some up) t
    → IsLinked (some up) (hang_left x up t)
unfolding hang_left
IsLinked-hang_left x old up null a b = IsLinked-set_up (some up) old x a
IsLinked-hang_left x old up (node n l r) a b = (b.0, IsLinked-hang_left x old n.addr l a b.1, b.2)

IsLinked-replacement :
    (n : Node) (l r : Tree)
    → IsLinked (some n.addr) l
    → IsLinked (some n.addr) r
    → IsLinked (some n.addr) (replacement n l r)
unfolding replacement
IsLinked-replacement n l null a b = a
IsLinked-replacement n null (node j jl jr) a b = b
IsLinked-replacement n (node i il ir) (node j jl jr) a b =
    let up = some n.addr in
    ground (
      arith,
      IsLinked-hang_left (node i il ir) up n.addr (node j jl jr) a b,
      IsLinked-hang_right (node j jl jr) up n.addr (node i il ir) b a,
    )

module _ (st : Store) where
  pub IsLinked-put :
      (new : Node) (up : Option ℕ) (t : Tree) → IsLinked up t → IsLinked up (put st new up t)
  unfolding put
  IsLinked-put new up null a = (refl, tt, tt)
  IsLinked-put new up (node n l r) a =
      ground (arith, IsLinked-put new (some n.addr) l, IsLinked-put new (some n.addr) r)

  pub IsLinked-cut :
      (k : List ℕ) (up : Option ℕ) (t : Tree) → IsLinked up t → IsLinked up (cut st k t)
  unfolding cut
  IsLinked-cut k up null a = tt
  IsLinked-cut k up (node n l r) a = ground (
    arith,
    IsLinked-cut k (some n.addr) l a.1,
    IsLinked-cut k (some n.addr) r a.2,
    a.0,
    IsLinked-set_up up (some n.addr) (replacement n l r) (IsLinked-replacement n l r a.1 a.2),
  )

  -- The search ends at a node with the key.
  pub find_key :
      (k : List ℕ) (t : Tree) (n : Node) (l r : Tree)
      → find st k t ≡ node n l r
      → order (key_bytes st n.key) k ≡ eq
  unfolding find
  find_key k null n l r e = cc
  find_key k (node c cl cr) n l r e = ground (arith, find_key k cl n l r, find_key k cr n l r)

  find-All : (P : ℕ → Variant → ℕ → Type 0) (k : List ℕ) (t : Tree) → All P t → All P (find st k t)
  unfolding find
  find-All P k null a = tt
  find-All P k (node n l r) a = ground (arith, find-All P k l a.1, find-All P k r a.2)

  -- What holds of every node holds of the one found.
  pub All-find :
      (P : ℕ → Variant → ℕ → Type 0) (k : List ℕ) (t : Tree) (n : Node) (l r : Tree)
      → All P t
      → find st k t ≡ node n l r
      → P n.addr n.key n.key_hash
  All-find P k t n l r a e = (subst (λ u. All P u) e (find-All P k t a)).0

-- `a` is the address of a node of the tree.
abbrev pub In : ℕ → Tree → Type 0
In a null = ⊥
In a (node n l r) = (n.addr ≡ a) ⊎ In a l ⊎ In a r

In-All : (Q : ℕ → Type 0) (a : ℕ) (t : Tree) → All (λ addr key key_hash. Q addr) t → In a t → Q a
In-All Q a null p i = absurd i
In-All Q a (node n l r) p (inl e) = subst (λ x. Q x) e p.0
In-All Q a (node n l r) p (inr (inl i)) = In-All Q a l p.1 i
In-All Q a (node n l r) p (inr (inr i)) = In-All Q a r p.2 i

-- A write through a link of no node of the tree.
pub set_link_absent : (a addr : ℕ) (x t : Tree) → (In a t → ⊥) → set_link a addr x t ≡ t
unfolding set_link
set_link_absent a addr x null h = refl
set_link_absent a addr x (node n l r) h =
    let here : n.addr ≢ a = λ e. h (inl e) in
    ground (
      arith,
      here,
      set_link_absent a addr x l (λ i. h (inr (inl i))),
      set_link_absent a addr x r (λ i. h (inr (inr i))),
    )

-- The keys by the addresses of their nodes: no address stands for two keys.
module _ (st : Store) (keys : ℕ → List ℕ) where
  abbrev pub Named : ℕ → Variant → ℕ → Type 0
  Named addr key key_hash = keys addr ≡ key_bytes st key

  pub In-Below :
      (c : List ℕ) (a : ℕ) (t : Tree) → All Named t → Below st c t → In a t → order (keys a) c ≡ lt
  In-Below c a null p b i = absurd i
  In-Below c a (node n l r) p b (inl e) = rw (sym e, p.0) b.0
  In-Below c a (node n l r) p b (inr (inl i)) = In-Below c a l p.1 b.1 i
  In-Below c a (node n l r) p b (inr (inr i)) = In-Below c a r p.2 b.2 i

  pub In-Above :
      (c : List ℕ) (a : ℕ) (t : Tree) → All Named t → Above st c t → In a t → order c (keys a) ≡ lt
  In-Above c a null p b i = absurd i
  In-Above c a (node n l r) p b (inl e) = rw (sym e, p.0) b.0
  In-Above c a (node n l r) p b (inr (inl i)) = In-Above c a l p.1 b.1 i
  In-Above c a (node n l r) p b (inr (inr i)) = In-Above c a r p.2 b.2 i

  -- An address under a node is not the node's, and one on its left not on its right.
  pub not_here_right :
      (c : Node) (a : ℕ) (r : Tree)
      → Named c.addr c.key c.key_hash
      → All Named r
      → Below st (key_bytes st c.key) r
      → In a r
      → c.addr ≢ a
  not_here_right c a r p q b i e = ground (
    arith,
    In-Below (key_bytes st c.key) a r q b i,
    ap keys e,
    p,
    order_refl (key_bytes st c.key),
  )

  pub not_here_left :
      (c : Node) (a : ℕ) (l : Tree)
      → Named c.addr c.key c.key_hash
      → All Named l
      → Above st (key_bytes st c.key) l
      → In a l
      → c.addr ≢ a
  not_here_left c a l p q b i e = ground (
    arith,
    In-Above (key_bytes st c.key) a l q b i,
    ap keys e,
    p,
    order_refl (key_bytes st c.key),
  )

  pub apart :
      (c : List ℕ) (a : ℕ) (l r : Tree)
      → All Named l
      → All Named r
      → Above st c l
      → Below st c r
      → In a l
      → In a r
      → ⊥
  apart c a l r p q b d i j =
      ground (arith, In-Above c a l p b i, In-Below c a r q d j, order-lt c (keys a))
