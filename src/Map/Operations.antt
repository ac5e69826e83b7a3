-- ===== src/Map/Operations.antt =====
-- What the functions of the map come to on a map of the invariant.
use as_smpp.Prelude.{
  ℕ, ◌≡◌, ◌≢◌, ◌⊎◌, inl, inr, Option, none, some, refl, sym, ap, ◌∙◌, arith, ◌==◌,
}
use as_smpp.Prelude.{List, ret, fault, Bool-cases}
use as_smpp.Types.{ErrorCode}
use as_smpp.Variant.{Store, Variant, hash_loop}
use as_smpp.Variant.Compare.{IsKey, key_bytes, variant_calc_hash_lem}
use as_smpp.Variant.Order.{order-eq}
use as_smpp.Map.{
  Node, Tree, null, node, Map, set_bucket, map_add, map_remove, map_get, relink, set_link,
  remove_node, value_of, replacement, set_up,
}
use as_smpp.Map.Search.{All, IsLinked, find, lookup, cut}
use as_smpp.Map.Search.Order.{All-cut, All-imp, All-and, IsOrdered-cut}
use as_smpp.Map.Search.Lookup.{value_of-find}
use as_smpp.Map.Search.Removal.{cut_absent, not_found-All, lookup-cut_self}
use as_smpp.Map.Search.Links.{Named, All-find, find_key}
use as_smpp.Map.Search.Unlink.{unlink, cut_found}
use as_smpp.Map.Nodes.{
  IsReadable, get_node_lem, add_node_lem, add_node_null, add_node_present, add_code,
}
use mathlib.Core.Path.{subst}
use as_smpp.Map.Valid.{IsMap, IsFree, Hashed, contents, with_node, without, hash_of, set_same}

-- What as_smpp_map_remove says about a key that a search finds, or not.
abbrev pub remove_code : Option Variant → ErrorCode
remove_code none = ErrorCode.not_found
remove_code (some v) = ErrorCode.none

abbrev pub addr_of : Tree → Option ℕ
addr_of null = none
addr_of (node n l r) = some n.addr

Tree-cases : (t : Tree) → (t ≡ null) ⊎ ((n : Node) × (l : Tree) × (r : Tree) × (t ≡ node n l r))
Tree-cases null = inl refl
Tree-cases (node n l r) = inr (n, l, r, refl)

module _ (st : Store) where
  relink_root :
      (m : Map) (n : Node) (b : ℕ) (t : Tree)
      → n.key_hash ≡ b
      → n.up ≡ none
      → relink m n t ≡ set_bucket m b t
  unfolding relink
  relink_root m n b t e up = rw (up, relink) (ap (λ c. set_bucket m c t) e)

  relink_under :
      (m : Map) (n : Node) (b : ℕ) (t : Tree) (a : ℕ)
      → n.key_hash ≡ b
      → n.up ≡ some a
      → relink m n t ≡ set_bucket m b (set_link a n.addr t (m b))
  unfolding relink
  relink_under m n b t a e up =
      rw (up, relink) (ap (λ c. set_bucket m c (set_link a n.addr t (m c))) e)

  -- The node found is taken out.
  relink-without :
      (m : Map) (key : Variant) (n : Node) (l r : Tree)
      → IsMap st m
      → find st (key_bytes st key) (m (hash_of st key)) ≡ node n l r
      → relink m n (set_up n.up (replacement n l r)) ≡ without st m key
  relink-without m key n l r v e =
      let b = hash_of st key in
      let k = key_bytes st key in
      let x = set_up n.up (replacement n l r) in
      let hash = (All-find st (Hashed st b) k (m b) n l r (v.all_hashed b) e).0 in
      elim (unlink st v.keys k n l r none (m b) (v.linked b) (v.all_named b) (v.ordered b) e) [
        | inl top ↦
            let up = (subst (λ t. IsLinked none t) top (v.linked b)).0 in
            relink_root m n b x hash up
            ∙ ap (λ t. set_bucket m b t)
                (sym (cut_found st v.keys k n l r (find_key st k (m b) n l r e))
                  ∙ ap (λ t. cut st k t) (sym top))
        | inr (a, up, i, cuts) ↦ relink_under m n b x a hash up ∙ ap (λ t. set_bucket m b t) cuts
      ]

  pub remove_node_lem :
      (m : Map) (key : Variant)
      → IsMap st m
      → remove_node m (find st (key_bytes st key) (m (hash_of st key))) ≡ (
        remove_code (contents st m (key_bytes st key)),
        without st m key,
        addr_of (find st (key_bytes st key) (m (hash_of st key))),
      )
  unfolding remove_node contents
  remove_node_lem m key v =
      let b = hash_of st key in
      let k = key_bytes st key in
      elim (Tree-cases (find st k (m b))) [
        | inl e ↦
            let absent : lookup st k (m b) ≡ none =
              sym (value_of-find st k (m b)) ∙ ap value_of e in
            rw (e, absent, remove_node)
              (ap (λ (x : Map). (ErrorCode.not_found, x, none))
                (sym (set_same st m b (cut st k (m b)) (cut_absent st k (m b) absent))))
        | inr (n, l, r, e) ↦
            let present : lookup st k (m b) ≡ some n.value =
              sym (value_of-find st k (m b)) ∙ ap value_of e in
            rw (e, present, remove_node)
              (ap (λ (x : Map). (ErrorCode.none, x, some n.addr)) (relink-without m key n l r v e))
      ]

  pub map_get_lem :
      (m : Map) (key : Variant)
      → IsMap st m
      → IsKey st key
      → map_get st m key ≡ ret (contents st m (key_bytes st key))
  unfolding map_get contents
  map_get_lem m key v k =
      let b = hash_of st key in
      rw
        (
          variant_calc_hash_lem st key k,
          get_node_lem st key (m b) k (v.all_readable b),
          value_of-find st (key_bytes st key) (m b),
        )
        refl

  pub map_add_lem :
      (m : Map) (addr : ℕ) (blank key value : Variant)
      → IsMap st m
      → addr ≢ 0
      → IsKey st key
      → IsReadable st value
      → map_add st m addr blank key value
        ≡ ret (add_code (contents st m (key_bytes st key)), with_node st m addr key value, st)
  unfolding map_add contents
  map_add_lem m addr blank key value v there k r =
      let b = hash_of st key in
      rw
        (
          variant_calc_hash_lem st key k,
          add_node_lem st addr blank key value b none (m b) there k r (v.all_readable b),
        )
        refl

  pub map_add_fault :
      (m : Map) (blank key value : Variant)
      → IsMap st m
      → IsKey st key
      → contents st m (key_bytes st key) ≡ none
      → map_add st m 0 blank key value ≡ fault
  unfolding map_add contents
  map_add_fault m blank key value v k e =
      let b = hash_of st key in
      rw
        (
          variant_calc_hash_lem st key k,
          add_node_null st blank key value b none (m b) k (v.all_readable b) e,
        )
        refl

  pub map_add_present :
      (m : Map) (addr : ℕ) (blank key value old : Variant)
      → IsMap st m
      → IsKey st key
      → contents st m (key_bytes st key) ≡ some old
      → map_add st m addr blank key value ≡ ret (ErrorCode.duplicate, m, st)
  unfolding map_add contents
  map_add_present m addr blank key value old v k e =
      let b = hash_of st key in
      rw
        (
          variant_calc_hash_lem st key k,
          add_node_present st addr blank key value old b none (m b) k (v.all_readable b) e,
        )
        (ap (λ (x : Map). ret (ErrorCode.duplicate, x, st)) (set_same st m b (m b) refl))

  pub map_remove_lem :
      (m : Map) (key : Variant)
      → IsMap st m
      → IsKey st key
      → map_remove st m key
        ≡ ret (
          remove_code (contents st m (key_bytes st key)),
          without st m key,
          addr_of (find st (key_bytes st key) (m (hash_of st key))),
        )
  unfolding map_remove
  map_remove_lem m key v k =
      let b = hash_of st key in
      rw (variant_calc_hash_lem st key k, get_node_lem st key (m b) k (v.all_readable b))
        (ap ret (remove_node_lem m key v))

  -- An address that stands for a key which no node has is no node's.
  IsFree-bucket :
      (keys : ℕ → List ℕ) (x : ℕ) (k : List ℕ) (t : Tree)
      → keys x ≡ k
      → All (Named st keys) t
      → All (λ addr key key_hash. key_bytes st key ≢ k) t
      → All (λ addr key key_hash. addr ≢ x) t
  IsFree-bucket keys x k t e p q =
      All-imp (λ addr key key_hash. (keys addr ≡ key_bytes st key) × (key_bytes st key ≢ k))
        (λ addr key key_hash. addr ≢ x) t
        (λ addr key key_hash both same. both.1 (sym both.0 ∙ ap keys same ∙ e))
        (All-and (Named st keys) (λ addr key key_hash. key_bytes st key ≢ k) t p q)

  elsewhere :
      (c : ℕ) (k : List ℕ) (t : Tree)
      → c ≢ hash_loop 0 k
      → All (Hashed st c) t
      → All (λ addr key key_hash. key_bytes st key ≢ k) t
  elsewhere c k t ne =
      All-imp (Hashed st c) (λ addr key key_hash. key_bytes st key ≢ k) t
        (λ addr key key_hash h e. ne (sym h.1 ∙ ap (λ x. hash_loop 0 x) e))

  -- The address of the node that is taken out is no node's any more.
  pub without-IsFree :
      (m : Map) (key : Variant) (n : Node) (l r : Tree)
      → IsMap st m
      → find st (key_bytes st key) (m (hash_of st key)) ≡ node n l r
      → IsFree n.addr (without st m key)
  without-IsFree m key n l r v e c =
      let b = hash_of st key in
      let k = key_bytes st key in
      let t = cut st k (m b) in
      let named_all = All-find st (Named st v.keys) k (m b) n l r (v.all_named b) e in
      let names = named_all ∙ order-eq (key_bytes st n.key) k (find_key st k (m b) n l r e) in
      let gone =
        IsFree-bucket v.keys n.addr k t names (All-cut (Named st v.keys) st k (m b) (v.all_named b))
          (not_found-All st k t (IsOrdered-cut st k (m b) (v.ordered b))
            (lookup-cut_self st k (m b) (v.ordered b))) in
      elim (Bool-cases (c == b)) [
        | inl same ↦ rw same gone
        | inr other ↦
            let ne : c ≢ b = ground arith in
            rw other (
              IsFree-bucket v.keys n.addr k (m c) names (v.all_named c)
                (elsewhere c k (m c) ne (v.all_hashed c)))
      ]

  pub found_node :
      (m : Map) (key old : Variant)
      → contents st m (key_bytes st key) ≡ some old
      → (n : Node) × (l : Tree) × (r : Tree) × (find st (key_bytes st key) (m (hash_of st key))
          ≡ node n l r)
  unfolding contents
  found_node m key old h =
      let k = key_bytes st key in
      elim (Tree-cases (find st k (m (hash_of st key)))) [
        | inl e ↦
            let absent = sym (value_of-find st k (m (hash_of st key))) ∙ ap value_of e in
            absurd (ground (arith, absent, h))
        | inr found ↦ found
      ]

  no_addr : (t : Tree) → value_of t ≡ none → addr_of t ≡ none
  no_addr null h = refl
  no_addr (node n l r) h = cc

  pub missing :
      (m : Map) (key : Variant)
      → contents st m (key_bytes st key) ≡ none
      → addr_of (find st (key_bytes st key) (m (hash_of st key))) ≡ none
  unfolding contents
  missing m key h =
      let k = key_bytes st key in
      no_addr (find st k (m (hash_of st key))) (value_of-find st k (m (hash_of st key)) ∙ h)
