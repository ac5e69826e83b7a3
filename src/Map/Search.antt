-- ===== src/Map/Search.antt =====
-- The trees of the map by the bytes of their keys: what the code does to them once every key can be
-- read, the predicates on them, and the order that a search needs.
pub mod Order
pub mod Lookup
pub mod Removal
pub mod Links
pub mod Unlink
use as_smpp.Prelude.{ℕ, Option, none, some, ◌≡◌, List}
use as_smpp.Variant.{Store, Variant}
use as_smpp.Variant.Compare.{key_bytes}
use as_smpp.Variant.Order.{order}
use as_smpp.Map.{Node, Tree, null, node, replacement, set_up}
use Prim.Native.Nat.Ordering.{lt, eq, gt}

-- A predicate on the address, the key and the hash of each node.
abbrev pub All : (ℕ → Variant → ℕ → Type 0) → Tree → Type 0
All P null = Unit
All P (node n l r) = P n.addr n.key n.key_hash × All P l × All P r

-- `up` of each node points to the node above it.
abbrev pub IsLinked : Option ℕ → Tree → Type 0
IsLinked up null = Unit
IsLinked up (node n l r) = (n.up ≡ up) × IsLinked (some n.addr) l × IsLinked (some n.addr) r

module _ (st : Store) where
  -- The keys of a tree that come after a key, and before it.
  abbrev pub Above : List ℕ → Tree → Type 0
  Above k t = All (λ addr key key_hash. order k (key_bytes st key) ≡ lt) t

  abbrev pub Below : List ℕ → Tree → Type 0
  Below k t = All (λ addr key key_hash. order (key_bytes st key) k ≡ lt) t

  abbrev pub IsOrdered : Tree → Type 0
  IsOrdered null = Unit
  IsOrdered (node n l r) =
      Above (key_bytes st n.key) l × Below (key_bytes st n.key) r × IsOrdered l × IsOrdered r

  unfoldable pub find : List ℕ → Tree → Tree
  find k null = null
  find k (node n l r) = elim (order (key_bytes st n.key) k) [
    | eq ↦ node n l r
    | gt ↦ find k r
    | lt ↦ find k l
  ]

  unfoldable pub lookup : List ℕ → Tree → Option Variant
  lookup k null = none
  lookup k (node n l r) = elim (order (key_bytes st n.key) k) [
    | eq ↦ some n.value
    | gt ↦ lookup k r
    | lt ↦ lookup k l
  ]

  -- A tree with a node added, unless its key is there.
  unfoldable pub put : Node → Option ℕ → Tree → Tree
  put new up null = node (record new { up = up }) null null
  put new up (node n l r) = elim (order (key_bytes st n.key) (key_bytes st new.key)) [
    | eq ↦ node n l r
    | gt ↦ node n l (put new (some n.addr) r)
    | lt ↦ node n (put new (some n.addr) l) r
  ]

  -- A tree with the node of a key taken out.
  unfoldable pub cut : List ℕ → Tree → Tree
  cut k null = null
  cut k (node n l r) = elim (order (key_bytes st n.key) k) [
    | eq ↦ set_up n.up (replacement n l r)
    | gt ↦ node n l (cut k r)
    | lt ↦ node n (cut k l) r
  ]
