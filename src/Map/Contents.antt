-- ===== src/Map/Contents.antt =====
-- What the map holds after its operations, by the bytes of the keys.
use as_smpp.Prelude.{ℕ, ◌≡◌, ◌≢◌, none, some, refl, ap, ◌∙◌, arith, List, ==_iff}
use as_smpp.Variant.{Store, Variant, hash_loop}
use as_smpp.Variant.Compare.{key_bytes}
use as_smpp.Map.{Map, set_bucket, Tree}
use as_smpp.Map.Search.{lookup, put, cut}
use as_smpp.Map.Search.Lookup.{lookup-put_self, lookup-put_ne, put_present}
use as_smpp.Map.Search.Removal.{lookup-cut_self, lookup-cut_ne, cut_absent}
use as_smpp.Map.Nodes.{new_node}
use as_smpp.Map.Valid.{IsMap, contents, with_node, without, hash_of, set_same}

module _ (st : Store) where
  -- A bucket set to a tree that reads like it, but for one key.
  contents-set :
      (m : Map) (b : ℕ) (t : Tree) (q : List ℕ)
      → lookup st q t ≡ lookup st q (m b)
      → contents st (set_bucket m b t) q ≡ contents st m q
  unfolding contents
  contents-set m b t q e = ground (arith, e, ap (λ (c : ℕ). lookup st q (m c)))

  contents-set_self :
      (m : Map) (t : Tree) (q : List ℕ)
      → contents st (set_bucket m (hash_loop 0 q) t) q ≡ lookup st q t
  unfolding contents
  contents-set_self m t q = rw ((==_iff (hash_loop 0 q) (hash_loop 0 q)).1 refl) refl

  pub contents-with_node_self :
      (m : Map) (addr : ℕ) (key value : Variant)
      → contents st m (key_bytes st key) ≡ none
      → contents st (with_node st m addr key value) (key_bytes st key) ≡ some value
  unfolding contents
  contents-with_node_self m addr key value h =
      let b = hash_of st key in
      let new = new_node addr key value b in
      contents-set_self m (put st new none (m b)) (key_bytes st key)
      ∙ lookup-put_self st new none (m b) h

  pub contents-with_node_ne :
      (m : Map) (addr : ℕ) (key value : Variant) (q : List ℕ)
      → q ≢ key_bytes st key
      → contents st (with_node st m addr key value) q ≡ contents st m q
  contents-with_node_ne m addr key value q ne =
      let b = hash_of st key in
      let new = new_node addr key value b in
      contents-set m b (put st new none (m b)) q (lookup-put_ne st new none q (m b) ne)

  pub with_node_present :
      (m : Map) (addr : ℕ) (key value v : Variant)
      → contents st m (key_bytes st key) ≡ some v
      → with_node st m addr key value ≡ m
  unfolding contents
  with_node_present m addr key value v h =
      let b = hash_of st key in
      let new = new_node addr key value b in
      set_same st m b (put st new none (m b)) (put_present st new none (m b) v h)

  pub contents-without_self :
      (m : Map) (key : Variant)
      → IsMap st m
      → contents st (without st m key) (key_bytes st key) ≡ none
  contents-without_self m key v =
      let b = hash_of st key in
      let k = key_bytes st key in
      contents-set_self m (cut st k (m b)) k ∙ lookup-cut_self st k (m b) (v.ordered b)

  pub contents-without_ne :
      (m : Map) (key : Variant) (q : List ℕ)
      → IsMap st m
      → q ≢ key_bytes st key
      → contents st (without st m key) q ≡ contents st m q
  contents-without_ne m key q v ne =
      let b = hash_of st key in
      let k = key_bytes st key in
      contents-set m b (cut st k (m b)) q (lookup-cut_ne st k q (m b) (v.ordered b) ne)

  pub without_absent :
      (m : Map) (key : Variant) → contents st m (key_bytes st key) ≡ none → without st m key ≡ m
  unfolding contents
  without_absent m key h =
      let b = hash_of st key in
      let k = key_bytes st key in set_same st m b (cut st k (m b)) (cut_absent st k (m b) h)
