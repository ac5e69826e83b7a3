-- ===== src/Map/Dictionary.antt =====
-- A sequence of calls of the map, against a dictionary from the bytes of keys to values.
use as_smpp.Prelude.{
  ℕ, ◌≡◌, ◌≢◌, ◌↔◌, ◌⊎◌, Option, none, some, refl, sym, ap, ◌∙◌, List, [], ◌∷◌, ret, ret_injective,
  Run, ◌>>=◌,
}
use as_smpp.Prelude.{Bool, true, false, ◌&&◌, ◌==◌, if◌then◌else◌, arith, Bool-cases, inl, inr}
use as_smpp.Types.{ErrorCode}
use as_smpp.Variant.{Store, Variant, write}
use as_smpp.Variant.Compare.{IsKey, key_bytes}
use as_smpp.Map.{Map, map_add, map_remove, map_get}
use as_smpp.Map.Search.{lookup}
use as_smpp.Map.Nodes.{IsReadable, add_code}
use as_smpp.Map.Valid.{
  IsMap, IsFree, contents, with_node, without, with_node-IsMap, without-IsMap, empty, empty-IsMap,
}
use as_smpp.Map.Kept.{KeepsKeys, IsMap-KeepsKeys, contents-KeepsKeys}
use as_smpp.Map.Operations.{map_get_lem, map_add_lem, map_remove_lem, remove_code}
use as_smpp.Map.Contents.{
  contents-with_node_self, contents-with_node_ne, with_node_present, contents-without_self,
  contents-without_ne, without_absent,
}
use mathlib.Core.Path.{subst, fun_ext}

-- A call, that of as_smpp_map_add with the block that the allocator will return and its contents; or
-- the caller stores a block in its own memory, at an address.
pub data Call : Type 0 where
  add : ℕ → Variant → Variant → Variant → Call
  remove : Variant → Call
  get : Variant → Call
  overwrite : ℕ → List ℕ → Call

pub data Answer : Type 0 where
  code : ErrorCode → Answer
  value : Option Variant → Answer
  nothing : Answer

unfoldable pub call : Store → Map → Call → Run (Answer × Map × Store)
call st m (add addr blank key v) =
    map_add st m addr blank key v >>= λ done. ret (Answer.code done.0, done.1, done.2)
call st m (remove key) = map_remove st m key >>= λ done. ret (Answer.code done.0, done.1, st)
call st m (get key) = map_get st m key >>= λ found. ret (Answer.value found, m, st)
call st m (overwrite p block) = ret (Answer.nothing, m, write st p block)

-- The memory behind a call: only the caller changes it.
abbrev pub store_after : Store → Call → Store
store_after st (overwrite p block) = write st p block
store_after st _ = st

-- The answers to calls one after the other.
unfoldable pub calls : Store → Map → List Call → Run (List Answer)
calls st m [] = ret []
calls st m (c ∷ cs) =
    call st m c >>= λ done. calls done.2 done.1 cs >>= λ answers. ret (done.0 ∷ answers)

-- What the map is to be: at most one value for a string of bytes.
abbrev pub Dictionary : Type 0
Dictionary = List ℕ → Option Variant

unfoldable pub same_bytes : List ℕ → List ℕ → Bool
same_bytes [] [] = true
same_bytes [] (y ∷ ys) = false
same_bytes (x ∷ xs) [] = false
same_bytes (x ∷ xs) (y ∷ ys) = (x == y) && same_bytes xs ys

unfoldable pub assign : Dictionary → List ℕ → Option Variant → Dictionary
assign d k v = λ q. if same_bytes q k then v else d q

unfoldable pub look_up_call : Store → Dictionary → Call → Answer × Dictionary
look_up_call st d (add addr blank key v) = elim (d (key_bytes st key)) [
  | none ↦ (Answer.code ErrorCode.none, assign d (key_bytes st key) (some v))
  | some old ↦ (Answer.code ErrorCode.duplicate, d)
]
look_up_call st d (remove key) = elim (d (key_bytes st key)) [
  | none ↦ (Answer.code ErrorCode.not_found, d)
  | some old ↦ (Answer.code ErrorCode.none, assign d (key_bytes st key) none)
]
look_up_call st d (get key) = (Answer.value (d (key_bytes st key)), d)
look_up_call st d (overwrite p block) = (Answer.nothing, d)

unfoldable pub look_up_calls : Store → Dictionary → List Call → List Answer
look_up_calls st d [] = []
look_up_calls st d (c ∷ cs) =
    let done = look_up_call st d c in done.0 ∷ look_up_calls (store_after st c) done.1 cs

same_bytes_iff : (xs ys : List ℕ) → (same_bytes xs ys ≡ true) ↔ (xs ≡ ys)
unfolding same_bytes
same_bytes_iff [] [] = ground arith
same_bytes_iff [] (y ∷ ys) = ground arith
same_bytes_iff (x ∷ xs) [] = ground arith
same_bytes_iff (x ∷ xs) (y ∷ ys) =
    ground (arith, (same_bytes_iff xs ys).0, (same_bytes_iff xs ys).1)

-- A dictionary that reads so is the assigned one.
assigned :
    (d e : Dictionary) (k : List ℕ) (v : Option Variant)
    → e k ≡ v
    → ((q : List ℕ) → q ≢ k → e q ≡ d q)
    → e ≡ assign d k v
unfolding assign
assigned d e k v self other = fun_ext (λ q. elim (Bool-cases (same_bytes q k)) [
  | inl same ↦ rw same (ap e ((same_bytes_iff q k).0 same) ∙ self)
  | inr ne ↦ rw ne (other q (λ eq. ground (arith, (same_bytes_iff q k).1 eq, ne)))
])

-- What a caller has to see to: keys and values that can be read, an allocation that succeeds and
-- returns no block of a node, and that nothing is stored over the keys of the entries.
abbrev pub IsProper : Store → Map → Call → Type 0
IsProper st m (add addr blank key v) = IsKey st key × IsReadable st v × (addr ≢ 0) × IsFree addr m
IsProper st m (remove key) = IsKey st key
IsProper st m (get key) = IsKey st key
IsProper st m (overwrite p block) = KeepsKeys st (write st p block) m

-- The same for each call of a sequence, in the state that the calls before it leave.
abbrev pub AreProper : Store → Map → List Call → Type 0
AreProper st m [] = Unit
AreProper st m (c ∷ cs) =
    IsProper st m c
    × ((a : Answer) (m' : Map) (st' : Store) → call st m c ≡ ret (a, m', st') → AreProper st' m' cs)

Option-cases : (v : Option Variant) → (v ≡ none) ⊎ ((old : Variant) × (v ≡ some old))
Option-cases none = inl refl
Option-cases (some old) = inr (old, refl)

-- The dictionary with a key added reads like the map with its node put in, and with a key removed
-- like the map without it.
add_reads :
    (st : Store) (m : Map) (addr : ℕ) (blank key v : Variant)
    → (
      Answer.code (add_code (contents st m (key_bytes st key))),
      contents st (with_node st m addr key v),
    )
      ≡ look_up_call st (contents st m) (add addr blank key v)
unfolding look_up_call
add_reads st m addr blank key v =
    let k = key_bytes st key in
    elim (Option-cases (contents st m k)) [
      | inl e ↦
          rw (e, look_up_call)
            (ap (λ (d : Dictionary). (Answer.code ErrorCode.none, d))
              (assigned (contents st m) (contents st (with_node st m addr key v)) k (some v)
                (contents-with_node_self st m addr key v e)
                (λ q. contents-with_node_ne st m addr key v q)))
      | inr (old, e) ↦
          rw (e, look_up_call)
            (ap (λ (x : Map). (Answer.code ErrorCode.duplicate, contents st x))
              (with_node_present st m addr key v old e))
    ]

remove_reads :
    (st : Store) (m : Map) (key : Variant)
    → IsMap st m
    → (Answer.code (remove_code (contents st m (key_bytes st key))), contents st (without st m key))
      ≡ look_up_call st (contents st m) (remove key)
unfolding look_up_call
remove_reads st m key valid =
    let k = key_bytes st key in
    elim (Option-cases (contents st m k)) [
      | inl e ↦
          rw (e, look_up_call)
            (ap (λ (x : Map). (Answer.code ErrorCode.not_found, contents st x))
              (without_absent st m key e))
      | inr (old, e) ↦
          rw (e, look_up_call)
            (ap (λ (d : Dictionary). (Answer.code ErrorCode.none, d))
              (assigned (contents st m) (contents st (without st m key)) k none
                (contents-without_self st m key valid) (λ q. contents-without_ne st m key q valid)))
    ]

-- One call answers as the dictionary does, and leaves a map that reads like the dictionary.
call_lem :
    (st : Store) (m : Map) (c : Call)
    → IsMap st m
    → IsProper st m c
    → (m' : Map) × (call st m c ≡ ret ((look_up_call st (contents st m) c).0, m', store_after st c))
      × IsMap (store_after st c) m'
      × (contents (store_after st c) m' ≡ (look_up_call st (contents st m) c).1)
unfolding call look_up_call
call_lem st m (add addr blank key v) valid p =
    let m' = with_node st m addr key v in
    let reads = add_reads st m addr blank key v in
    (
      m',
      ap (λ x. x >>= λ done. ret (Answer.code done.0, done.1, done.2))
            (map_add_lem st m addr blank key v valid p.2 p.0 p.1)
          ∙ ap (λ (a : Answer × Dictionary). ret (a.0, m', st)) reads,
      with_node-IsMap st m addr key v valid p.3 p.0,
      ap (λ (a : Answer × Dictionary). a.1) reads,
    )
call_lem st m (remove key) valid p =
    let m' = without st m key in
    let reads = remove_reads st m key valid in
    (
      m',
      ap (λ x. x >>= λ done. ret (Answer.code done.0, done.1, st)) (map_remove_lem st m key valid p)
          ∙ ap (λ (a : Answer × Dictionary). ret (a.0, m', st)) reads,
      without-IsMap st m key valid,
      ap (λ (a : Answer × Dictionary). a.1) reads,
    )
call_lem st m (get key) valid p = (
  m,
  ap (λ x. x >>= λ found. ret (Answer.value found, m, st)) (map_get_lem st m key valid p),
  valid,
  refl,
)
call_lem st m (overwrite p block) valid kept =
    let st' = write st p block in
    (m, refl, IsMap-KeepsKeys st st' m kept valid, contents-KeepsKeys st st' m kept)

calls_lem :
    (st : Store) (m : Map) (cs : List Call)
    → IsMap st m
    → AreProper st m cs
    → calls st m cs ≡ ret (look_up_calls st (contents st m) cs)
unfolding calls look_up_calls
calls_lem st m [] valid p = refl
calls_lem st m (c ∷ cs) valid p =
    let (m', step, valid', reads) = call_lem st m c valid p.0 in
    let st' = store_after st c in
    let rest =
      calls_lem st' m' cs valid' (p.1 ((look_up_call st (contents st m) c).0) m' st' step) in
    let answer = (look_up_call st (contents st m) c).0 in
    ap (λ x. x >>= λ done. calls done.2 done.1 cs >>= λ answers. ret (done.0 ∷ answers)) step
    ∙ ap (λ x. x >>= λ answers. ret (answer ∷ answers)) rest
    ∙ ap (λ (d : Dictionary). ret (answer ∷ look_up_calls st' d cs)) reads

-- A call on a map of the invariant, with a key whose bytes can be read and that is shorter than 2 ^ 31, a
-- value that can be read, and an allocation that succeeds and returns no block of a node, returns, leaves
-- the memory of the caller as it was, and leaves a map of the invariant: ordered search trees, links to the
-- nodes above, hashes that fit the buckets, and no two keys at one address. The map keeps the invariant
-- also where the caller stores a block in its memory, after which the keys that the map holds can still be
-- read and have the bytes that they had.
pub call-IsMap :
    (st : Store) (m : Map) (c : Call)
    → IsMap st m
    → IsProper st m c
    → (a : Answer) × (m' : Map) × (call st m c ≡ ret (a, m', store_after st c))
      × IsMap (store_after st c) m'
call-IsMap st m c valid p =
    let (m', step, valid', reads) = call_lem st m c valid p in
    ((look_up_call st (contents st m) c).0, m', step, valid')

-- What holds of any map of the invariant and these blocks holds after a call.
pub after_call :
    (st : Store) (m : Map) (c : Call) (Q : Map → Store → Type 0)
    → IsMap st m
    → IsProper st m c
    → ((m' : Map) → IsMap (store_after st c) m' → Q m' (store_after st c))
    → (a : Answer) (m' : Map) (st' : Store) → call st m c ≡ ret (a, m', st')
    → Q m' st'
after_call st m c Q valid p q a m' st' e =
    let (b, n, step, valid') = call-IsMap st m c valid p in
    let same : (b, n, store_after st c) ≡ (a, m', st') = ret_injective (sym step ∙ e) in
    subst (λ (x : Answer × Map × Store). Q x.1 x.2) same (q n valid')

-- For calls of the map from the empty one on, each of a key whose bytes can be read and that is shorter
-- than 2 ^ 31, with values that can be read and allocations that succeed and return no block of a node of
-- the map, where the caller may store any blocks in its memory between the calls as long as the keys that
-- the map holds can still be read and keep their bytes: the answers, error codes and values are those of a
-- dictionary from the bytes of the keys to values. No call faults.
pub calls-look_up_calls :
    (st : Store) (cs : List Call)
    → AreProper st empty cs
    → calls st empty cs ≡ ret (look_up_calls st (λ k. none) cs)
unfolding contents lookup
calls-look_up_calls st cs p = calls_lem st empty cs (empty-IsMap st) p
