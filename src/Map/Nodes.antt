-- ===== src/Map/Nodes.antt =====
-- The functions of the map on keys that can be read: what the pure functions on trees say.
use as_smpp.Prelude.{ℕ, ◌+◌, ◌≤◌, ◌≡◌, ◌≢◌, Option, none, some, refl, ap, ◌∙◌, arith, ◌==◌}
use as_smpp.Prelude.{List, [], ret, fault, length, take, length-take, take-append-drop, Bool-cases}
use as_smpp.Prelude.{false, inl, inr, ==_iff, if◌then◌else◌}
use as_smpp.Types.{ErrorCode}
use as_smpp.Buffer.Cells.{load_block_lem, copy_in, copy_in_lem}
use as_smpp.Variant.{Store, Variant, write, type_ptr, variant_copy}
use as_smpp.Variant.Compare.{IsKey, key_bytes, block_of, variant_compare_lem}
use as_smpp.Map.{Node, Tree, null, node, place, create_node, get_node, add_node, node_size}
use as_smpp.Map.Search.{All, find, lookup, put}
use mathlib.Core.Path.{fun_ext}

-- A pointer whose bytes can be read, or no pointer.
abbrev pub IsReadable : Store → Variant → Type 0
IsReadable st v = type_ptr ≡ v.type → v.len ≤ length (st v.ptr)

abbrev pub Readable : Store → ℕ → Variant → ℕ → Type 0
Readable st addr key key_hash = IsKey st key

IsKey-IsReadable : (st : Store) (v : Variant) → IsKey st v → IsReadable st v
unfolding block_of
IsKey-IsReadable st v k e =
    let inside = k.inside in rw ((==_iff type_ptr v.type).1 e, block_of) at inside

write_same : (st : Store) (p : ℕ) (block : List ℕ) → block ≡ st p → write st p block ≡ st
write_same st p block e = fun_ext (λ q. ground (arith, e, ap (λ (a : ℕ). st a)))

copy_back :
    (st : Store) (p n : ℕ) → n ≤ length (st p) → copy_in (st p) 0 (take n (st p)) ≡ ret (st p)
copy_back st p n h =
    let size : length (take n (st p)) ≡ n = omega (arith, length-take n (st p)) in
    let end : 0 + length (take n (st p)) ≡ n = omega (arith, size) in
    copy_in_lem (st p) 0 (take n (st p)) (omega (arith, size))
    ∙ rw end (ap ret (take-append-drop n (st p)))

-- The block that a copy writes is the one it has read, since the pointer has been copied too.
variant_copy_lem :
    (st : Store) (fresh : ℕ × List ℕ) (to from : Variant)
    → (type_ptr ≡ from.type → to.ptr ≢ 0)
    → IsReadable st from
    → variant_copy st fresh to from ≡ ret (from, st)
unfolding variant_copy
variant_copy_lem st fresh to from set h = elim (Bool-cases (type_ptr == from.type)) [
  | inl e ↦
      let is_ptr = (==_iff type_ptr from.type).0 e in
      let not_null : (to.ptr == 0) ≡ false = ground (arith, set is_ptr) in
      rw (e, variant_copy)
        (rw
          (
            not_null,
            load_block_lem (st from.ptr) 0 from.len (omega (arith, h is_ptr)),
            copy_back st from.ptr from.len (h is_ptr),
            write_same st from.ptr (st from.ptr) refl,
          )
          refl)
  | inr e ↦ rw (e, variant_copy) refl
]

abbrev pub new_node : ℕ → Variant → Variant → ℕ → Node
new_node addr key value key_hash = record {
  addr = addr;
  key = key;
  value = value;
  up = none;
  key_hash = key_hash;
}

placed :
    (blank : Variant) (p : ℕ) (v : Variant) → p ≢ 0 → type_ptr ≡ v.type → (place blank p v).ptr ≢ 0
placed blank p v ne e = rw ((==_iff type_ptr v.type).1 e) ne

pub create_node_lem :
    (st : Store) (addr : ℕ) (blank key value : Variant) (key_hash : ℕ)
    → addr ≢ 0
    → IsReadable st key
    → IsReadable st value
    → create_node st addr blank key value key_hash ≡ ret (new_node addr key value key_hash, st)
unfolding create_node
create_node_lem st addr blank key value key_hash there hk hv =
    let q = if type_ptr == key.type then addr + node_size + key.len else addr + node_size in
    let q_positive : q ≢ 0 = ground arith in
    let not_null : (addr == 0) ≡ false = ground (arith, there) in
    rw
      (
        not_null,
        create_node,
        variant_copy_lem st (0, []) (place blank (addr + node_size) key) key
            (placed blank (addr + node_size) key (omega arith)) hk,
        variant_copy_lem st (0, []) (place blank q value) value (placed blank q value q_positive)
            hv,
      )
      refl

pub get_node_lem :
    (st : Store) (key : Variant) (t : Tree)
    → IsKey st key
    → All (Readable st) t
    → get_node st key t ≡ ret (find st (key_bytes st key) t)
unfolding get_node find
get_node_lem st key null k a = refl
get_node_lem st key (node n l r) k a =
    rw (variant_compare_lem st n.key key a.0 k)
      (ground (arith, get_node_lem st key l k a.1, get_node_lem st key r k a.2))

-- What as_smpp_map_add says about a key that a search finds, or not.
abbrev pub add_code : Option Variant → ErrorCode
add_code none = ErrorCode.none
add_code (some v) = ErrorCode.duplicate

pub add_node_lem :
    (st : Store) (addr : ℕ) (blank key value : Variant) (key_hash : ℕ) (up : Option ℕ) (t : Tree)
    → addr ≢ 0
    → IsKey st key
    → IsReadable st value
    → All (Readable st) t
    → add_node st addr blank key value key_hash up t
      ≡ ret (
        add_code (lookup st (key_bytes st key) t),
        put st (new_node addr key value key_hash) up t,
        st,
      )
unfolding add_node lookup put
add_node_lem st addr blank key value key_hash up null there k v a =
    rw (create_node_lem st addr blank key value key_hash there (IsKey-IsReadable st key k) v) refl
add_node_lem st addr blank key value key_hash up (node n l r) there k v a =
    rw (variant_compare_lem st n.key key a.0 k) (
      ground (
        arith,
        add_node_lem st addr blank key value key_hash (some n.addr) l there k v a.1,
        add_node_lem st addr blank key value key_hash (some n.addr) r there k v a.2,
      ))

-- Where the allocator returns the null pointer for a key that is not there.
pub add_node_null :
    (st : Store) (blank key value : Variant) (key_hash : ℕ) (up : Option ℕ) (t : Tree)
    → IsKey st key
    → All (Readable st) t
    → lookup st (key_bytes st key) t ≡ none
    → add_node st 0 blank key value key_hash up t ≡ fault
unfolding add_node create_node lookup
add_node_null st blank key value key_hash up null k a e = refl
add_node_null st blank key value key_hash up (node n l r) k a e =
    rw (variant_compare_lem st n.key key a.0 k) (
      ground (
        arith,
        add_node_null st blank key value key_hash (some n.addr) l k a.1,
        add_node_null st blank key value key_hash (some n.addr) r k a.2,
        e,
      ))

-- Where the key is there, the allocator is not asked.
pub add_node_present :
    (st : Store) (addr : ℕ) (blank key value old : Variant) (key_hash : ℕ) (up : Option ℕ)
    (t : Tree)
    → IsKey st key
    → All (Readable st) t
    → lookup st (key_bytes st key) t ≡ some old
    → add_node st addr blank key value key_hash up t ≡ ret (ErrorCode.duplicate, t, st)
unfolding add_node lookup
add_node_present st addr blank key value old key_hash up null k a e = absurd (ground (arith, e))
add_node_present st addr blank key value old key_hash up (node n l r) k a e =
    rw (variant_compare_lem st n.key key a.0 k) (
      ground (
        arith,
        add_node_present st addr blank key value old key_hash (some n.addr) l k a.1,
        add_node_present st addr blank key value old key_hash (some n.addr) r k a.2,
        e,
      ))
