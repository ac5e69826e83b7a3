-- ===== src/Map/Valid.antt =====
-- The invariant of the map, the pure form of its operations, and that they keep the invariant.
use as_smpp.Prelude.{ℕ, ◌≡◌, ◌≢◌, inl, inr, Option, none, refl, sym, ap, arith, ◌==◌}
use as_smpp.Prelude.{List, [], Bool-cases, ==_iff, if◌then◌else◌}
use as_smpp.Variant.{Store, Variant, hash_loop}
use as_smpp.Variant.Compare.{IsKey, key_bytes}
use as_smpp.Map.{Tree, null, Map, set_bucket}
use as_smpp.Map.Search.{All, IsLinked, IsOrdered, lookup, put, cut}
use as_smpp.Map.Search.Order.{All-put, All-cut, All-imp, All-and, IsOrdered-put, IsOrdered-cut}
use as_smpp.Map.Search.Links.{Named, IsLinked-put, IsLinked-cut}
use as_smpp.Map.Nodes.{Readable, new_node}
use mathlib.Core.Path.{subst, fun_ext}

abbrev pub Hashed : Store → ℕ → ℕ → Variant → ℕ → Type 0
Hashed st b addr key key_hash = (key_hash ≡ b) × (hash_loop 0 (key_bytes st key) ≡ b)

-- Each bucket is a search tree of keys that can be read, with the links to the nodes above; a node
-- knows its bucket, and no address stands for two keys.
pub record IsMap (st : Store) (m : Map) : Type 0 where
  pub keys : ℕ → List ℕ
  pub ordered : (b : ℕ) → IsOrdered st (m b)
  pub linked : (b : ℕ) → IsLinked none (m b)
  pub all_readable : (b : ℕ) → All (Readable st) (m b)
  pub all_named : (b : ℕ) → All (Named st keys) (m b)
  pub all_hashed : (b : ℕ) → All (Hashed st b) (m b)

abbrev pub empty : Map
empty b = null

pub empty-IsMap : (st : Store) → IsMap st empty
empty-IsMap st = record {
  keys = λ a. [];
  ordered = λ b. tt;
  linked = λ b. tt;
  all_readable = λ b. tt;
  all_named = λ b. tt;
  all_hashed = λ b. tt;
}

-- No node has the address.
abbrev pub IsFree : ℕ → Map → Type 0
IsFree addr m = (b : ℕ) → All (λ a key key_hash. a ≢ addr) (m b)

module _ (st : Store) where
  abbrev pub hash_of : Variant → ℕ
  hash_of key = hash_loop 0 (key_bytes st key)

  -- What the map holds for the bytes of a key.
  unfoldable pub contents : Map → List ℕ → Option Variant
  contents m k = lookup st k (m (hash_loop 0 k))

  -- The map with a node put in, and with the node of a key cut out.
  abbrev pub with_node : Map → ℕ → Variant → Variant → Map
  with_node m addr key value =
      let b = hash_of key in set_bucket m b (put st (new_node addr key value b) none (m b))

  abbrev pub without : Map → Variant → Map
  without m key = let b = hash_of key in set_bucket m b (cut st (key_bytes st key) (m b))

  -- A predicate that each bucket has, after one of them was set.
  bucketwise :
      (P : ℕ → Tree → Type 0) (m : Map) (b : ℕ) (t : Tree)
      → P b t
      → ((c : ℕ) → P c (m c))
      → (c : ℕ) → P c (set_bucket m b t c)
  bucketwise P m b t p h c = elim (Bool-cases (c == b)) [
    | inl e ↦ rw e (subst (λ x. P x t) (sym ((==_iff c b).0 e)) p)
    | inr e ↦ rw e (h c)
  ]

  pub without-IsMap : (m : Map) (key : Variant) → IsMap st m → IsMap st (without m key)
  without-IsMap m key v =
      let b = hash_of key in
      let k = key_bytes st key in
      let t = cut st k (m b) in
      record {
        keys = v.keys;
        ordered =
            bucketwise (λ c. IsOrdered st) m b t (IsOrdered-cut st k (m b) (v.ordered b)) v.ordered;
        linked =
            bucketwise (λ c. IsLinked none) m b t (IsLinked-cut st k none (m b) (v.linked b))
              v.linked;
        all_readable =
            bucketwise (λ c. All (Readable st)) m b t
              (All-cut (Readable st) st k (m b) (v.all_readable b)) v.all_readable;
        all_named =
            bucketwise (λ c. All (Named st v.keys)) m b t
              (All-cut (Named st v.keys) st k (m b) (v.all_named b)) v.all_named;
        all_hashed =
            bucketwise (λ c. All (Hashed st c)) m b t
              (All-cut (Hashed st b) st k (m b) (v.all_hashed b)) v.all_hashed;
      }

  Named-again :
      (keys : ℕ → List ℕ) (addr : ℕ) (k : List ℕ) (t : Tree)
      → All (λ a key key_hash. a ≢ addr) t
      → All (Named st keys) t
      → All (Named st (λ a. if a == addr then k else keys a)) t
  Named-again keys addr k t f p =
      let both = All-and (λ a key key_hash. a ≢ addr) (Named st keys) t f p in
      All-imp (λ a key key_hash. (a ≢ addr) × (keys a ≡ key_bytes st key))
        (Named st (λ a. if a == addr then k else keys a)) t
        (λ a key key_hash h. ground (arith, h.0, h.1)) both

  pub with_node-IsMap :
      (m : Map) (addr : ℕ) (key value : Variant)
      → IsMap st m
      → IsFree addr m
      → IsKey st key
      → IsMap st (with_node m addr key value)
  with_node-IsMap m addr key value v free k =
      let b = hash_of key in
      let new = new_node addr key value b in
      let names = λ (a : ℕ). if a == addr then key_bytes st key else v.keys a in
      let named_before =
        λ (c : ℕ). Named-again v.keys addr (key_bytes st key) (m c) (free c) (v.all_named c) in
      let t = put st new none (m b) in
      record {
        keys = names;
        ordered =
            bucketwise (λ c. IsOrdered st) m b t (IsOrdered-put st new none (m b) (v.ordered b))
              v.ordered;
        linked =
            bucketwise (λ c. IsLinked none) m b t (IsLinked-put st new none (m b) (v.linked b))
              v.linked;
        all_readable =
            bucketwise (λ c. All (Readable st)) m b t
              (All-put (Readable st) st new none (m b) k (v.all_readable b)) v.all_readable;
        all_named =
            bucketwise (λ c. All (Named st names)) m b t
              (All-put (Named st names) st new none (m b) (ground arith) (named_before b))
              named_before;
        all_hashed =
            bucketwise (λ c. All (Hashed st c)) m b t
              (All-put (Hashed st b) st new none (m b) (refl, refl) (v.all_hashed b)) v.all_hashed;
      }

  pub with_node-IsFree :
      (m : Map) (x addr : ℕ) (key value : Variant)
      → IsFree x m
      → addr ≢ x
      → IsFree x (with_node m addr key value)
  with_node-IsFree m x addr key value free ne =
      let b = hash_of key in
      let P = λ (a : ℕ) (key : Variant) (key_hash : ℕ). a ≢ x in
      let new = new_node addr key value b in
      bucketwise (λ c. All P) m b (put st new none (m b)) (All-put P st new none (m b) ne (free b))
        free

  pub set_same : (m : Map) (b : ℕ) (t : Tree) → t ≡ m b → set_bucket m b t ≡ m
  set_same m b t e = fun_ext (λ c. ground (arith, e, ap (λ (a : ℕ). m a)))
