-- ===== src/Map/Kept.antt =====
-- The caller's memory behind the keys of a map: an entry keeps the pointer that the caller gave, so that
-- the map reads the caller's bytes again at each call.
use as_smpp.Prelude.{ℕ, ◌≡◌, refl, sym, arith, List}
use as_smpp.Variant.{Store, Variant, hash_loop}
use as_smpp.Variant.Compare.{IsKey, key_bytes}
use as_smpp.Variant.Order.{order}
use as_smpp.Map.{Tree, null, node, Map}
use as_smpp.Map.Search.{All, IsOrdered, lookup}
use as_smpp.Map.Search.Order.{All-imp, All-and}
use as_smpp.Map.Nodes.{Readable}
use as_smpp.Map.Valid.{IsMap, contents}
use mathlib.Core.Path.{fun_ext, subst}
use Prim.Native.Nat.Ordering.{lt}

module _ (st st' : Store) where
  -- A key that can be read in the new memory, with the bytes that it had.
  abbrev Kept : ℕ → Variant → ℕ → Type 0
  Kept addr key key_hash = IsKey st' key × (key_bytes st' key ≡ key_bytes st key)

  -- The caller has changed its memory, but not the keys of the map.
  abbrev pub KeepsKeys : Map → Type 0
  KeepsKeys m = (b : ℕ) → All Kept (m b)

  lookup-Kept : (k : List ℕ) (t : Tree) → All Kept t → lookup st' k t ≡ lookup st k t
  unfolding lookup
  lookup-Kept k null p = refl
  lookup-Kept k (node n l r) p =
      rw (p.0.1, lookup) (ground (arith, lookup-Kept k l p.1, lookup-Kept k r p.2))

  pub contents-KeepsKeys : (m : Map) → KeepsKeys m → contents st' m ≡ contents st m
  unfolding contents
  contents-KeepsKeys m p = fun_ext (λ k. lookup-Kept k (m (hash_loop 0 k)) (p (hash_loop 0 k)))

  -- A predicate on the bytes of the keys holds in the new memory too.
  All-Kept :
      (P : ℕ → List ℕ → ℕ → Type 0) (t : Tree)
      → All Kept t
      → All (λ addr key key_hash. P addr (key_bytes st key) key_hash) t
      → All (λ addr key key_hash. P addr (key_bytes st' key) key_hash) t
  All-Kept P t p q =
      All-imp (λ addr key key_hash. Kept addr key key_hash × P addr (key_bytes st key) key_hash)
        (λ addr key key_hash. P addr (key_bytes st' key) key_hash) t
        (λ addr key key_hash both. subst (λ (k : List ℕ). P addr k key_hash) (sym both.0.1) both.1)
        (All-and Kept (λ addr key key_hash. P addr (key_bytes st key) key_hash) t p q)

  IsOrdered-Kept : (t : Tree) → All Kept t → IsOrdered st t → IsOrdered st' t
  IsOrdered-Kept null p o = tt
  IsOrdered-Kept (node n l r) p o = (
    rw (p.0.1) (All-Kept (λ addr k key_hash. order (key_bytes st n.key) k ≡ lt) l p.1 o.0),
    rw (p.0.1) (All-Kept (λ addr k key_hash. order k (key_bytes st n.key) ≡ lt) r p.2 o.1),
    IsOrdered-Kept l p.1 o.2,
    IsOrdered-Kept r p.2 o.3,
  )

  pub IsMap-KeepsKeys : (m : Map) → KeepsKeys m → IsMap st m → IsMap st' m
  IsMap-KeepsKeys m p v = record {
    keys = v.keys;
    ordered = λ b. IsOrdered-Kept (m b) (p b) (v.ordered b);
    linked = v.linked;
    all_readable = λ b. All-imp Kept (Readable st') (m b) (λ addr key key_hash kept. kept.0) (p b);
    all_named = λ b. All-Kept (λ addr k key_hash. v.keys addr ≡ k) (m b) (p b) (v.all_named b);
    all_hashed = λ b.
        All-Kept (λ addr k key_hash. (key_hash ≡ b) × (hash_loop 0 k ≡ b)) (m b) (p b)
          (v.all_hashed b);
  }
