-- ===== src/Converter/Decoding.antt =====
-- as_smpp_converter_gsm_to_latin1 of src/as-smpp-core/src/converter.c and a decoder on lists.
use as_smpp.Prelude.{
  ℕ, zero, suc, ◌+◌, ◌-◌, ◌*◌, ◌%◌, ◌≤◌, ◌<◌, ◌≡◌, refl, sym, ap, ◌∙◌, arith, inl, inr,
}
use as_smpp.Prelude.{List, [], ◌∷◌, ◌++◌, ret, length, drop, length-take}
use as_smpp.Prelude.{
  drop-drop, get_elem?-drop, get_elem?, some, ltb, lt→ltb, ltb-false, ◌==◌, Bool-cases, Bool, true,
  false,
}
use as_smpp.Prelude.{if◌then◌else◌, take-append-drop, ◌>>=◌}
use as_smpp.Memory.{Memory, IsSupplied, size_mod}
use as_smpp.Buffer.{Buffer, ensure_capacity, add}
use as_smpp.Buffer.Valid.{IsValid, contents, Writes, Writes-bind, Writes-nothing, Writes-weaken}
use as_smpp.Buffer.Growth.{ensure_capacity-HasRoom}
use as_smpp.Buffer.Editing.{add-Writes}
use as_smpp.Converter.{Tables, decode_at, decode_byte, decode_loop, gsm_to_latin1}

-- A byte without an entry in the first table stands for the byte behind it, if that has an entry in
-- the second table, and for itself otherwise.
unfoldable pub decode : Tables → List ℕ → List ℕ
decode t [] = []
decode t (c ∷ []) = t.gsm_to_latin1 c ∷ []
decode t (c ∷ c₁ ∷ cs) =
    let here = decode t (c₁ ∷ cs) in
    let behind = decode t cs in
    if t.gsm_to_latin1 c == 0xff
    then (if t.gsmx_to_latin1 c₁ == 0xff then c ∷ here else t.gsmx_to_latin1 c₁ ∷ behind)
    else t.gsm_to_latin1 c ∷ here

drop_next :
    (i : ℕ) (cells : List ℕ) {c : ℕ} {cs : List ℕ} → drop i cells ≡ c ∷ cs → drop (i + 1) cells ≡ cs
drop_next i cells h = sym (drop-drop 1 i cells) ∙ ap (λ t. drop 1 t) h

module _ (t : Tables) (gsm : Buffer) (i c : ℕ) (rest : List ℕ) (h : drop i gsm.ptr ≡ c ∷ rest) where
  decode_at_lem : (r : ℕ × ℕ) → decode_byte t gsm i c ≡ ret r → decode_at t gsm i ≡ ret r
  unfolding decode_at
  decode_at_lem r e = rw (get_elem?-drop i gsm.ptr h) e

  decode_at_last : gsm.data_len ≤ i + 1 → decode_at t gsm i ≡ ret (t.gsm_to_latin1 c, i)
  unfolding decode_byte
  decode_at_last end =
      let no = ltb-false i (gsm.data_len - 1) (omega arith) in
      elim (Bool-cases (t.gsm_to_latin1 c == 0xff)) [
        | inl e ↦ decode_at_lem _ (rw (e, no, decode_byte) refl)
        | inr e ↦ decode_at_lem _ (rw (e, decode_byte) refl)
      ]

  decode_at_plain :
      (t.gsm_to_latin1 c == 0xff) ≡ false → decode_at t gsm i ≡ ret (t.gsm_to_latin1 c, i)
  unfolding decode_byte
  decode_at_plain e = decode_at_lem _ (rw (e, decode_byte) refl)

  decode_at_two :
      (c₁ : ℕ) (b : Bool)
      → get_elem? gsm.ptr (i + 1) ≡ some c₁
      → (t.gsm_to_latin1 c == 0xff) ≡ true
      → ltb i (gsm.data_len - 1) ≡ true
      → (t.gsmx_to_latin1 c₁ == 0xff) ≡ b
      → decode_at t gsm i ≡ ret (if b then (c, i) else (t.gsmx_to_latin1 c₁, i + 1))
  unfolding decode_byte
  decode_at_two c₁ b next escape more e = decode_at_lem _ (
      rw (escape, more, decode_byte)
        (rw next (ap (λ k. ret (if k then (c, i) else (t.gsmx_to_latin1 c₁, i + 1))) e)))

-- A buffer that is read from; its capacity is not looked at.
pub record IsReadable (b : Buffer) : Type 0 where
  pub filled : b.data_len ≤ length b.ptr
  pub bounded : length b.ptr < size_mod

pub IsValid-IsReadable : {b : Buffer} → IsValid b → IsReadable b
IsValid-IsReadable v = record {
  filled = omega (arith, v.sized, v.filled);
  bounded = omega (arith, v.sized, v.bounded);
}

module _ (mem : Memory) (supply : IsSupplied mem) (t : Tables) (gsm : Buffer)
    (v : IsReadable gsm) where
  -- A round that goes on behind the index `last`.
  round :
      (fuel i last ch cost : ℕ) (xs : List ℕ)
      → i < gsm.data_len
      → decode_at t gsm i ≡ ret (ch, last)
      → last < gsm.data_len
      → Writes cost xs (λ b. decode_loop mem t fuel gsm (last + 1) b)
      → Writes (17 + cost) (ch ∷ xs) (λ b. decode_loop mem t (suc fuel) gsm i b)
  unfolding decode_loop
  round fuel i last ch cost xs more seen inside w =
      let next : (last + 1) % size_mod ≡ last + 1 = omega (arith, v.filled, v.bounded) in
      rw (lt→ltb i gsm.data_len more, decode_loop)
        (rw (seen, next) (Writes-bind (add-Writes mem supply ch) w))

  decode_loop-Writes :
      (fuel i : ℕ) (cs rest : List ℕ)
      → drop i gsm.ptr ≡ cs ++ rest
      → i + length cs ≡ gsm.data_len
      → length cs ≤ fuel
      → Writes (17 * length cs) (decode t cs) (λ b. decode_loop mem t fuel gsm i b)
  unfolding decode_loop decode
  decode_loop-Writes zero i [] rest h len enough =
      rw (ltb-false i gsm.data_len (omega (arith, len))) Writes-nothing
  decode_loop-Writes zero i (c ∷ cs) rest h len enough = absurd (omega arith)
  decode_loop-Writes (suc fuel) i [] rest h len enough =
      rw (ltb-false i gsm.data_len (omega (arith, len)), decode_loop) Writes-nothing
  decode_loop-Writes (suc fuel) i (c ∷ []) rest h len enough =
      round fuel i i (t.gsm_to_latin1 c) 0 [] (omega (arith, len))
        (decode_at_last t gsm i c rest h (omega (arith, len))) (omega (arith, len))
        (decode_loop-Writes fuel (i + 1) [] rest (drop_next i gsm.ptr h) (omega (arith, len))
          (omega arith))
  decode_loop-Writes (suc fuel) i (c ∷ c₁ ∷ cs) rest h len enough =
      let here =
        decode_loop-Writes fuel (i + 1) (c₁ ∷ cs) rest (drop_next i gsm.ptr h) (omega (arith, len))
          (omega arith) in
      elim (Bool-cases (t.gsm_to_latin1 c == 0xff)) [
        | inr plain ↦ rw plain (
            Writes-weaken (omega arith) (
              round fuel i i (t.gsm_to_latin1 c) _ _ (omega (arith, len))
                (decode_at_plain t gsm i c (c₁ ∷ (cs ++ rest)) h plain) (omega (arith, len)) here))
        | inl escape ↦
            let next : get_elem? gsm.ptr (i + 1) ≡ some c₁ =
              get_elem?-drop (i + 1) gsm.ptr (drop_next i gsm.ptr h) in
            let more = lt→ltb i (gsm.data_len - 1) (omega (arith, len)) in
            elim (Bool-cases (t.gsmx_to_latin1 c₁ == 0xff)) [
              | inl unknown ↦
                  rw (escape, unknown)
                    (Writes-weaken (omega arith) (
                      round fuel i i c _ _ (omega (arith, len))
                        (decode_at_two t gsm i c (c₁ ∷ (cs ++ rest)) h c₁ true next escape more
                          unknown)
                        (omega (arith, len)) here))
              | inr known ↦
                  rw (escape, known)
                    (Writes-weaken (omega arith) (
                      round fuel i (i + 1) (t.gsmx_to_latin1 c₁) _ _ (omega (arith, len))
                        (decode_at_two t gsm i c (c₁ ∷ (cs ++ rest)) h c₁ false next escape more
                          known)
                        (omega (arith, len))
                        (decode_loop-Writes fuel (i + 1 + 1) cs rest
                          (drop_next (i + 1) gsm.ptr (drop_next i gsm.ptr h)) (omega (arith, len))
                          (omega arith))))
            ]
      ]

  -- For any tables, a GSM text that lies in its block, a well-formed Latin-1 buffer, size_t room for 18 bytes
  -- for each byte of the GSM text and 34 more,
  -- and allocations that succeed: the conversion ends, with no access out of bounds, and appends the
  -- decoded text and a terminator. A byte with the entry 0xff in the first table, unless it is the last,
  -- stands for the byte behind it where that has another entry in the second table, and for itself
  -- otherwise; every other byte stands for its entry. The Latin-1 buffer stays well formed.
  pub gsm_to_latin1_lem :
      (latin1 : Buffer)
      → IsValid latin1
      → latin1.capacity + 18 * gsm.data_len + 34 < size_mod
      → (b' : Buffer) × (gsm_to_latin1 mem t latin1 gsm ≡ ret b')
        × IsValid b'
        × (contents b' ≡ contents latin1 ++ (decode t (contents gsm) ++ (0 ∷ [])))
  unfolding gsm_to_latin1
  gsm_to_latin1_lem latin1 w room =
      let n = gsm.data_len in
      let size : (n + 1) % size_mod ≡ n + 1 = omega (arith, v.filled, v.bounded) in
      let g = ensure_capacity-HasRoom mem supply latin1 (n + 1) w (omega arith) in
      let len : length (contents gsm) ≡ n = omega (arith, length-take n gsm.ptr, v.filled) in
      let loop =
        decode_loop-Writes n 0 (contents gsm) (drop n gsm.ptr) (sym (take-append-drop n gsm.ptr))
          (omega (arith, len)) (omega (arith, len)) in
      let (b', r, a) =
        (Writes-bind loop (add-Writes mem supply 0)).run (ensure_capacity mem latin1 (n + 1))
          g.valid (omega (arith, g.cost, len)) in
      (
        b',
        ap (λ k. decode_loop mem t n gsm 0 (ensure_capacity mem latin1 k) >>= λ b. add mem b 0) size
            ∙ r,
        a.valid,
        a.holds ∙ ap (λ k. k ++ (decode t (contents gsm) ++ (0 ∷ []))) g.same,
      )
