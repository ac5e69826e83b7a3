-- ===== src/Map/Laws.antt =====
-- The contract of the map in terms of as_smpp_map_get.
use as_smpp.Prelude.{ℕ, ◌≡◌, ◌≢◌, Option, none, some, sym, ap, ◌∙◌, ret}
use as_smpp.Types.{ErrorCode}
use as_smpp.Variant.{Store, Variant}
use as_smpp.Variant.Compare.{IsKey, key_bytes}
use as_smpp.Map.{Map, map_add, map_remove, map_get}
use as_smpp.Map.Search.{find}
use as_smpp.Map.Nodes.{IsReadable, add_code}
use as_smpp.Map.Valid.{
  IsMap, IsFree, contents, with_node, without, hash_of, with_node-IsMap, without-IsMap,
}
use as_smpp.Map.Operations.{
  addr_of, map_get_lem, map_add_lem, map_add_present, map_remove_lem, without-IsFree, remove_code,
  found_node, missing,
}
use as_smpp.Map.Contents.{
  contents-with_node_self, contents-with_node_ne, contents-without_self, contents-without_ne,
  without_absent,
}

module _ (st : Store) (m : Map) (valid : IsMap st m) (key : Variant) (readable : IsKey st key) where
  -- What as_smpp_map_get has answered is what the map holds.
  held : (v : Option Variant) → map_get st m key ≡ ret v → contents st m (key_bytes st key) ≡ v
  held v e = let answers = sym (map_get_lem st m key valid readable) ∙ e in cc

  same_answer :
      (m' : Map) (q : Variant)
      → IsMap st m'
      → IsKey st q
      → contents st m' (key_bytes st q) ≡ contents st m (key_bytes st q)
      → map_get st m' q ≡ map_get st m q
  same_answer m' q v k e = map_get_lem st m' q v k ∙ ap ret e ∙ sym (map_get_lem st m q valid k)

  -- On a map of the invariant, with a key whose bytes can be read and that is shorter than 2 ^ 31, a value that
  -- can be read and an allocation that succeeds and returns no block of a node: where the key has no value,
  -- map_add returns no error and changes no block of a variant. The map left keeps the invariant, the key has
  -- the value in it, with the pointer that the caller gave, and every other key that can be read has the
  -- answer that it had before.
  pub map_get-map_add :
      (addr : ℕ) (blank value : Variant)
      → addr ≢ 0
      → IsFree addr m
      → IsReadable st value
      → map_get st m key ≡ ret none
      → (m' : Map) × (map_add st m addr blank key value ≡ ret (ErrorCode.none, m', st))
        × IsMap st m'
        × (map_get st m' key ≡ ret (some value))
        × ((q : Variant)
            → IsKey st q
            → key_bytes st q ≢ key_bytes st key
            → map_get st m' q ≡ map_get st m q)
  map_get-map_add addr blank value there free r e =
      let absent = held none e in
      let m' = with_node st m addr key value in
      let valid' = with_node-IsMap st m addr key value valid free readable in
      (
        m',
        map_add_lem st m addr blank key value valid there readable r
            ∙ ap (λ c. ret (add_code c, m', st)) absent,
        valid',
        map_get_lem st m' key valid' readable
            ∙ ap ret (contents-with_node_self st m addr key value absent),
        λ q k ne.
            same_answer m' q valid' k
              (contents-with_node_ne st m addr key value (key_bytes st q) ne),
      )

  -- On a map of the invariant, with a key whose bytes can be read and that is shorter than 2 ^ 31: where the
  -- key has a value already, map_add returns the error duplicate and changes nothing, whatever the allocator
  -- would return.
  pub map_add_duplicate :
      (addr : ℕ) (blank value old : Variant)
      → map_get st m key ≡ ret (some old)
      → map_add st m addr blank key value ≡ ret (ErrorCode.duplicate, m, st)
  map_add_duplicate addr blank value old e =
      map_add_present st m addr blank key value old valid readable (held (some old) e)

  -- On a map of the invariant, with a key whose bytes can be read and that is shorter than 2 ^ 31: where the
  -- key has a value, map_remove returns no error and releases one block. The map left keeps the invariant,
  -- no node of it is at the released address, the key has no value in it, and every other key that can be
  -- read has the answer that it had before.
  pub map_get-map_remove :
      (old : Variant)
      → map_get st m key ≡ ret (some old)
      → (m' : Map) × (addr : ℕ) × (map_remove st m key ≡ ret (ErrorCode.none, m', some addr))
        × IsMap st m'
        × IsFree addr m'
        × (map_get st m' key ≡ ret none)
        × ((q : Variant)
            → IsKey st q
            → key_bytes st q ≢ key_bytes st key
            → map_get st m' q ≡ map_get st m q)
  map_get-map_remove old e =
      let present = held (some old) e in
      let (n, l, r, found) = found_node st m key old present in
      let m' = without st m key in
      let valid' = without-IsMap st m key valid in
      (
        m',
        n.addr,
        map_remove_lem st m key valid readable
            ∙ ap
                (λ c.
                  ret
                    (remove_code c, m', addr_of (find st (key_bytes st key) (m (hash_of st key)))))
                present
            ∙ ap (λ t. ret (ErrorCode.none, m', addr_of t)) found,
        valid',
        without-IsFree st m key n l r valid found,
        map_get_lem st m' key valid' readable ∙ ap ret (contents-without_self st m key valid),
        λ q k ne.
            same_answer m' q valid' k (contents-without_ne st m key (key_bytes st q) valid ne),
      )

  -- On a map of the invariant, with a key whose bytes can be read and that is shorter than 2 ^ 31: where the
  -- key has no value, map_remove returns the error not_found, leaves the map as it was and releases
  -- nothing.
  pub map_remove_missing :
      map_get st m key ≡ ret none → map_remove st m key ≡ ret (ErrorCode.not_found, m, none)
  map_remove_missing e =
      let absent = held none e in
      map_remove_lem st m key valid readable
      ∙ ap
          (λ c. ret (
            remove_code c,
            without st m key,
            addr_of (find st (key_bytes st key) (m (hash_of st key))),
          ))
          absent
      ∙ ap (λ (a : Option ℕ). ret (ErrorCode.not_found, without st m key, a))
          (missing st m key absent)
      ∙ ap (λ (x : Map). ret (ErrorCode.not_found, x, none)) (without_absent st m key absent)
