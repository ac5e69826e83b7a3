-- ===== src/Map.antt =====
-- The map of src/as-smpp-core/src/core.c: a binary search tree for each hash of a key.

pub mod Search
pub mod Nodes
pub mod Valid
pub mod Operations
pub mod Contents
pub mod Kept
pub mod Laws
pub mod Dictionary
use as_smpp.Prelude.{
  ℕ, [], ◌+◌, Bool, true, false, Option, none, some, ◌==◌, if◌then◌else◌, bit_and,
}
use as_smpp.Prelude.{Run, ret, fault, ◌>>=◌}
use as_smpp.Types.{ErrorCode}
use as_smpp.Variant.{Store, Variant, variant_copy, variant_calc_hash, variant_compare, type_ptr}
use Prim.Native.Nat.Ordering.{lt, eq, gt}

-- t_as_smpp_node without its links `l` and `r`, which are the places in a tree: `addr` is the
-- address of the node, and `up` the pointer to the node above, NULL being `none`.
pub record Node : Type 0 where
  pub addr : ℕ
  pub key : Variant
  pub value : Variant
  pub up : Option ℕ
  pub key_hash : ℕ

-- A pointer to a node and what it leads to, in the order of the source's fields: `l` has the greater
-- keys.
pub data Tree : Type 0 where
  null : Tree
  node : Node → Tree → Tree → Tree

-- t_as_smpp_map
abbrev pub Map : Type 0
Map = ℕ → Tree

-- `map->nodes[hash] = t`
abbrev pub set_bucket : Map → ℕ → Tree → Map
set_bucket m hash t = λ b. if b == hash then t else m b

-- `sizeof( t_as_smpp_node )` where a pointer has eight bytes
abbrev pub node_size : ℕ
node_size = 80

-- The target of a copy, with its pointer set to `p` if a pointer is copied.
abbrev pub place : Variant → ℕ → Variant → Variant
place blank p from = if type_ptr == from.type then record blank { ptr = p } else blank

-- as_smpp_map_create_node: `addr` is the block that the allocator returns, and `blank` what the
-- variants in it hold before they are set. The code does not test for the null pointer, and writes
-- through it. Neither copy asks for a block of its own, since the pointers have been set.
unfoldable pub create_node : Store → ℕ → Variant → Variant → Variant → ℕ → Run (Node × Store)
create_node st addr blank key value key_hash = elim (addr == 0) [
  | true ↦ fault
  | false ↦ do
    let p = addr + node_size
    let q = if type_ptr == key.type then p + key.len else p
    copied ← variant_copy st (0, []) (place blank p key) key
    copied_value ← variant_copy copied.1 (0, []) (place blank q value) value
    ret (
      record {
        addr = addr;
        key = copied.0;
        value = copied_value.0;
        up = none;
        key_hash = key_hash;
      },
      copied_value.1,
    )
]

-- The loop of as_smpp_map_get_node: the node that is found is the top of the result.
unfoldable pub get_node : Store → Variant → Tree → Run Tree
get_node st key null = ret null
get_node st key (node n l r) =
    let left = get_node st key l in
    let right = get_node st key r in
    variant_compare st n.key key >>= λ cmp. elim cmp [
      | eq ↦ ret (node n l r)
      | gt ↦ right
      | lt ↦ left
    ]

-- The search of as_smpp_map_add for a free link: a new node gets the node above it as `up`.
unfoldable pub add_node :
    Store → ℕ → Variant → Variant → Variant → ℕ → Option ℕ → Tree → Run (ErrorCode × Tree × Store)
add_node st addr blank key value key_hash up null = do
  created ← create_node st addr blank key value key_hash
  ret (ErrorCode.none, node (record created.0 { up = up }) null null, created.1)
add_node st addr blank key value key_hash up (node n l r) =
    let left = add_node st addr blank key value key_hash (some n.addr) l in
    let right = add_node st addr blank key value key_hash (some n.addr) r in
    variant_compare st n.key key >>= λ cmp. elim cmp [
      | eq ↦ ret (ErrorCode.duplicate, node n l r, st)
      | gt ↦ right >>= λ done. ret (done.0, node n l done.1, done.2)
      | lt ↦ left >>= λ done. ret (done.0, node n done.1 r, done.2)
    ]

-- as_smpp_map_add
unfoldable pub map_add :
    Store → Map → ℕ → Variant → Variant → Variant → Run (ErrorCode × Map × Store)
map_add st m addr blank key value = do
  key_hash ← variant_calc_hash st key
  done ← add_node st addr blank key value key_hash none (m key_hash)
  ret (done.0, set_bucket m key_hash done.1, done.2)

-- `t->up = up`, where the pointer is not NULL
unfoldable pub set_up : Option ℕ → Tree → Tree
set_up up null = null
set_up up (node n l r) = node (record n { up = up }) l r

-- The walk along `r` that hangs `x` under the last node; `up` is the node above.
unfoldable pub hang_right : Tree → ℕ → Tree → Tree
hang_right x up null = set_up (some up) x
hang_right x up (node n l r) = node n l (hang_right x n.addr r)

-- The walk along `l`.
unfoldable pub hang_left : Tree → ℕ → Tree → Tree
hang_left x up null = set_up (some up) x
hang_left x up (node n l r) = node n (hang_left x n.addr l) r

-- `replaceWith` of as_smpp_map_remove
unfoldable pub replacement : Node → Tree → Tree → Tree
replacement n l null = l
replacement n null (node k kl kr) = node k kl kr
replacement n (node j jl jr) (node k kl kr) =
    if bit_and n.key_hash 1 == 0
    then hang_left (node j jl jr) n.addr (node k kl kr)
    else hang_right (node k kl kr) n.addr (node j jl jr)

abbrev pub is_at : ℕ → Tree → Bool
is_at addr null = false
is_at addr (node n l r) = n.addr == addr

-- `up->r = t` if `up->r` is the node at `addr`, else `up->l = t`, for the node `up` of a tree.
unfoldable pub set_link : ℕ → ℕ → Tree → Tree → Tree
set_link up addr t null = null
set_link up addr t (node n l r) =
    let left = set_link up addr t l in
    let right = set_link up addr t r in
    if n.addr == up then (if is_at addr r then node n l t else node n t r) else node n left right

-- `*linkToThis = t` for the node `n`; the node above `n` stands in the same bucket.
unfoldable pub relink : Map → Node → Tree → Map
relink m n t = elim n.up [
  | none ↦ set_bucket m n.key_hash t
  | some up ↦ set_bucket m n.key_hash (set_link up n.addr t (m n.key_hash))
]

-- What as_smpp_map_remove does once the node has been looked up: the block that is released.
unfoldable pub remove_node : Map → Tree → ErrorCode × Map × Option ℕ
remove_node m null = (ErrorCode.not_found, m, none)
remove_node m (node n l r) =
    (ErrorCode.none, relink m n (set_up n.up (replacement n l r)), some n.addr)

-- as_smpp_map_remove
unfoldable pub map_remove : Store → Map → Variant → Run (ErrorCode × Map × Option ℕ)
map_remove st m key = do
  key_hash ← variant_calc_hash st key
  found ← get_node st key (m key_hash)
  ret (remove_node m found)

abbrev pub value_of : Tree → Option Variant
value_of null = none
value_of (node n l r) = some n.value

-- as_smpp_map_get
unfoldable pub map_get : Store → Map → Variant → Run (Option Variant)
map_get st m key = do
  key_hash ← variant_calc_hash st key
  found ← get_node st key (m key_hash)
  ret (value_of found)
