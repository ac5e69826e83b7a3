-- ===== src/Examples/Dictionary.antt =====
-- Runs of the map.
use as_smpp.Prelude.{
  ℕ, ◌≡◌, ◌≢◌, inl, inr, none, some, refl, List, [], ◌∷◌, ret, ret_injective, arith, sym, ap, ◌∙◌,
  ◌>>=◌, Bool-cases, ◌==◌, if◌then◌else◌,
}
use as_smpp.Types.{ErrorCode}
use as_smpp.Variant.{
  Store, Variant, write, variant_calc_hash, hash_loop, variant_compare, memcmp, sign,
}
use as_smpp.Variant.Order.{order}
use as_smpp.Buffer.Cells.{load_block}
use as_smpp.Variant.Compare.{IsKey, key_bytes, block_of}
use as_smpp.Map.Search.{put, lookup}
use as_smpp.Map.Kept.{KeepsKeys}
use as_smpp.Map.Operations.{map_add_lem}
use mathlib.Core.Path.{subst}
use as_smpp.Map.{Map, get_node, map_add, map_remove, map_get}
use as_smpp.Map.Valid.{
  IsMap, IsFree, contents, hash_of, with_node, with_node-IsMap, with_node-IsFree, empty,
  empty-IsMap,
}
use as_smpp.Map.Laws.{map_get-map_add, map_get-map_remove}
use as_smpp.Map.Dictionary.{
  Call, Answer, call, calls, look_up_calls, AreProper, call-IsMap, after_call, calls-look_up_calls,
}

-- One block, at the address 100.
abbrev blocks : Store
blocks p = if p == 100 then 1 ∷ 2 ∷ 7 ∷ [] else []

-- Three keys of one hash, a scalar of four bytes, another one, and the block.
abbrev scalar : ℕ → ℕ → Variant
scalar x y = record { cells = x ∷ y ∷ 0 ∷ 0 ∷ 0 ∷ 0 ∷ 0 ∷ 0 ∷ []; ptr = 0; type = 9; len = 4 }

abbrev pointer : Variant
pointer = record { cells = []; ptr = 100; type = 12; len = 3 }

scalar-IsKey : (x y : ℕ) → IsKey blocks (scalar x y)
unfolding block_of
scalar-IsKey x y = record { typed = inr refl; inside = omega arith; small = omega arith }

pointer-IsKey : IsKey blocks pointer
unfolding block_of
pointer-IsKey = record { typed = inl refl; inside = omega arith; small = omega arith }

abbrev one_entry : Map
one_entry = with_node blocks empty 500 (scalar 5 1) pointer

one_entry-IsMap : IsMap blocks one_entry
one_entry-IsMap =
    with_node-IsMap blocks empty 500 (scalar 5 1) pointer (empty-IsMap blocks) (λ b. tt)
      (scalar-IsKey 5 1)

map_get-map_add_example :
    (m' : Map) × (map_add blocks one_entry 600 pointer pointer (scalar 7 8)
      ≡ ret (ErrorCode.none, m', blocks))
    × IsMap blocks m'
    × (map_get blocks m' pointer ≡ ret (some (scalar 7 8)))
    × ((q : Variant)
        → IsKey blocks q
        → key_bytes blocks q ≢ key_bytes blocks pointer
        → map_get blocks m' q ≡ map_get blocks one_entry q)
unfolding map_get variant_calc_hash load_block hash_loop get_node variant_compare memcmp sign
    key_bytes block_of put order
map_get-map_add_example =
    map_get-map_add blocks one_entry one_entry-IsMap pointer pointer-IsKey 600 pointer (scalar 7 8)
      (omega arith)
      (with_node-IsFree blocks empty 600 500 (scalar 5 1) pointer (λ b. tt) (omega arith))
      (λ e. absurd (omega (arith, e))) refl

map_get-map_remove_example :
    (m' : Map) × (addr : ℕ) × (map_remove blocks one_entry (scalar 5 1)
      ≡ ret (ErrorCode.none, m', some addr))
    × IsMap blocks m'
    × IsFree addr m'
    × (map_get blocks m' (scalar 5 1) ≡ ret none)
    × ((q : Variant)
        → IsKey blocks q
        → key_bytes blocks q ≢ key_bytes blocks (scalar 5 1)
        → map_get blocks m' q ≡ map_get blocks one_entry q)
unfolding map_get variant_calc_hash load_block hash_loop get_node variant_compare memcmp sign
    key_bytes block_of put order
map_get-map_remove_example =
    map_get-map_remove blocks one_entry one_entry-IsMap (scalar 5 1) (scalar-IsKey 5 1) pointer refl

call-IsMap_example :
    (a : Answer) × (m' : Map) × (call blocks one_entry (Call.remove (scalar 5 1))
      ≡ ret (a, m', blocks))
    × IsMap blocks m'
call-IsMap_example =
    call-IsMap blocks one_entry (Call.remove (scalar 5 1)) one_entry-IsMap (scalar-IsKey 5 1)

-- The application stores other bytes in the block of the value; the key is a scalar.
abbrev some_calls : List Call
some_calls =
    Call.add 500 pointer (scalar 5 1) pointer
    ∷ Call.overwrite 100 (9 ∷ 9 ∷ 9 ∷ [])
    ∷ Call.remove (scalar 5 1)
    ∷ Call.get (scalar 5 1)
    ∷ []

scalar-IsKey_after : (block : List ℕ) (x y : ℕ) → IsKey (write blocks 100 block) (scalar x y)
unfolding block_of
scalar-IsKey_after block x y = record {
  typed = inr refl;
  inside = omega arith;
  small = omega arith;
}

one_entry-KeepsKeys : (block : List ℕ) → KeepsKeys blocks (write blocks 100 block) one_entry
unfolding put key_bytes block_of hash_loop
one_entry-KeepsKeys block b = elim (Bool-cases (b == hash_of blocks (scalar 5 1))) [
  | inl e ↦ rw e ((scalar-IsKey_after block 5 1, refl), tt, tt)
  | inr e ↦ rw e tt
]

add_call :
    call blocks empty (Call.add 500 pointer (scalar 5 1) pointer)
    ≡ ret (Answer.code ErrorCode.none, one_entry, blocks)
unfolding call contents lookup
add_call =
    ap (λ x. x >>= λ done. ret (Answer.code done.0, done.1, done.2))
      (map_add_lem blocks empty 500 pointer (scalar 5 1) pointer (empty-IsMap blocks) (omega arith)
        (scalar-IsKey 5 1) (λ e. omega arith))

some_calls-AreProper : AreProper blocks empty some_calls
some_calls-AreProper = (
  (scalar-IsKey 5 1, (λ e. omega arith), omega arith, λ b. tt),
  λ a m st e.
      subst
        (λ (x : Answer × Map × Store). AreProper x.2 x.1 (
          Call.overwrite 100 (9 ∷ 9 ∷ 9 ∷ [])
          ∷ Call.remove (scalar 5 1)
          ∷ Call.get (scalar 5 1)
          ∷ []))
        (ret_injective (sym add_call ∙ e))
        (
          one_entry-KeepsKeys (9 ∷ 9 ∷ 9 ∷ []),
          after_call blocks one_entry (Call.overwrite 100 (9 ∷ 9 ∷ 9 ∷ []))
              (λ m st. AreProper st m (Call.remove (scalar 5 1) ∷ Call.get (scalar 5 1) ∷ []))
              one_entry-IsMap (one_entry-KeepsKeys (9 ∷ 9 ∷ 9 ∷ []))
              (λ m valid. (
                scalar-IsKey_after (9 ∷ 9 ∷ 9 ∷ []) 5 1,
                after_call (write blocks 100 (9 ∷ 9 ∷ 9 ∷ [])) m (Call.remove (scalar 5 1))
                    (λ n st. AreProper st n (Call.get (scalar 5 1) ∷ [])) valid
                    (scalar-IsKey_after (9 ∷ 9 ∷ 9 ∷ []) 5 1)
                    (λ n valid. (scalar-IsKey_after (9 ∷ 9 ∷ 9 ∷ []) 5 1, λ a n st e. tt)),
              )),
        ),
)

calls-look_up_calls_example :
    calls blocks empty some_calls ≡ ret (look_up_calls blocks (λ k. none) some_calls)
calls-look_up_calls_example = calls-look_up_calls blocks some_calls some_calls-AreProper
