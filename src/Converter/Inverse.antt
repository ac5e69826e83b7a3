-- ===== src/Converter/Inverse.antt =====
-- The tables that as_smpp_converter_init of src/as-smpp-core/src/converter.c leaves.
use as_smpp.Prelude.{ℕ, zero, suc, ◌<◌, ◌≡◌, refl, ap, ◌∙◌, arith, inl, inr, bit_and, ◌/◌, ◌^◌, All}
use as_smpp.Prelude.{
  List, [], ◌∷◌, ◌++◌, Bool, true, false, not, ltb, ◌==◌, ◌&&◌, ◌||◌, if◌then◌else◌,
}
use as_smpp.Prelude.{Bool-cases, ==_iff}
use as_smpp.Converter.{Tables, init, invert, assign, assign_all}
use as_smpp.Converter.Decoding.{decode}

-- The GSM bytes of a character by the table, one or two.
unfoldable pub encode : Tables → ℕ → List ℕ
encode t c =
    let ch = t.latin1_to_gsm c in
    if ltb 0xff ch then (ch / 2 ^ 8) ∷ bit_and ch 0xff ∷ [] else ch ∷ []

unfoldable pub encode_text : Tables → List ℕ → List ℕ
encode_text t [] = []
encode_text t (c ∷ cs) = encode t c ++ encode_text t cs

-- The characters of Latin-1 up to 0xfe whose bytes the table gives to no other character: all but the
-- controls 0 to 9, 11, 14, 15, 17 and 27.
unfoldable pub is_gsm : ℕ → Bool
is_gsm c = ltb c 0xff && (not (c == 27) && (ltb 17 c || c == 10 || c == 12 || c == 13 || c == 16))

-- That the tables are inverse at a character.
unfoldable pub is_inverse : Tables → ℕ → Bool
is_inverse t c =
    let ch = t.latin1_to_gsm c in
    let low = t.gsmx_to_latin1 (bit_and ch 0xff) in
    if ltb 0xff ch
    then t.gsm_to_latin1 (ch / 2 ^ 8) == 0xff && (not (low == 0xff) && low == c)
    else t.gsm_to_latin1 ch == c && not (t.gsm_to_latin1 ch == 0xff)

all_below : ℕ → (ℕ → Bool) → Bool
all_below zero p = true
all_below (suc n) p = p n && all_below n p

&&-left : (a b : Bool) → (a && b) ≡ true → a ≡ true
&&-left true b h = refl
&&-left false b h = h

&&-right : (a b : Bool) → (a && b) ≡ true → b ≡ true
&&-right true b h = h
&&-right false b h = cc

all_below-at : (n : ℕ) (p : ℕ → Bool) (c : ℕ) → all_below n p ≡ true → c < n → p c ≡ true
unfolding all_below
all_below-at zero p c h lt = absurd (omega arith)
all_below-at (suc n) p c h lt = elim (Bool-cases (ltb c n)) [
  | inl below ↦ all_below-at n p c (&&-right (p n) (all_below n p) h) (ground arith)
  | inr last ↦ let e : c ≡ n = ground arith in ap p e ∙ &&-left (p n) (all_below n p) h
]

implies : (a b : Bool) → (not a || b) ≡ true → a ≡ true → b ≡ true
implies true b h e = h
implies false b h e = cc

tables_inverse : all_below 255 (λ c. not (is_gsm c) || is_inverse init c) ≡ true
unfolding all_below is_gsm is_inverse init invert assign assign_all
tables_inverse = refl

is_gsm-is_inverse : (c : ℕ) → is_gsm c ≡ true → is_inverse init c ≡ true
unfolding is_gsm
is_gsm-is_inverse c h =
    let small : c < 255 = ground (arith, &&-left (ltb c 0xff) _ h) in
    implies (is_gsm c) (is_inverse init c)
      (all_below-at 255 (λ c. not (is_gsm c) || is_inverse init c) c tables_inverse small) h

decode_one :
    (t : Tables) (x : ℕ) (rest : List ℕ)
    → (t.gsm_to_latin1 x == 0xff) ≡ false
    → decode t (x ∷ rest) ≡ t.gsm_to_latin1 x ∷ decode t rest
unfolding decode
decode_one t x [] h = refl
decode_one t x (y ∷ rest) h = rw h refl

decode_two :
    (t : Tables) (x y : ℕ) (rest : List ℕ)
    → (t.gsm_to_latin1 x == 0xff) ≡ true
    → (t.gsmx_to_latin1 y == 0xff) ≡ false
    → decode t (x ∷ y ∷ rest) ≡ t.gsmx_to_latin1 y ∷ decode t rest
unfolding decode
decode_two t x y rest h k = rw (h, k) refl

not-true : (b : Bool) → not b ≡ true → b ≡ false
not-true true h = cc
not-true false h = refl

decode-encode_char :
    (t : Tables) (c : ℕ) (rest : List ℕ)
    → is_inverse t c ≡ true
    → decode t (encode t c ++ rest) ≡ c ∷ decode t rest
unfolding encode is_inverse
decode-encode_char t c rest h =
    let ch = t.latin1_to_gsm c in
    let g = t.gsm_to_latin1 ch in
    let e = t.gsm_to_latin1 (ch / 2 ^ 8) in
    let low = t.gsmx_to_latin1 (bit_and ch 0xff) in
    elim (Bool-cases (ltb 0xff ch)) [
      | inl two ↦
          let ok : (e == 0xff && (not (low == 0xff) && low == c)) ≡ true = rw two at h in
          let more = &&-right (e == 0xff) (not (low == 0xff) && low == c) ok in
          let known = not-true (low == 0xff) (&&-left (not (low == 0xff)) (low == c) more) in
          let same : low ≡ c = (==_iff low c).0 (&&-right (not (low == 0xff)) (low == c) more) in
          rw two (
            decode_two t (ch / 2 ^ 8) (bit_and ch 0xff) rest
              (&&-left (e == 0xff) (not (low == 0xff) && low == c) ok) known
            ∙ ap (λ k. k ∷ decode t rest) same)
      | inr one ↦
          let ok : (g == c && not (g == 0xff)) ≡ true = rw one at h in
          let plain = not-true (g == 0xff) (&&-right (g == c) (not (g == 0xff)) ok) in
          let same : g ≡ c = (==_iff g c).0 (&&-left (g == c) (not (g == 0xff)) ok) in
          rw one (decode_one t ch rest plain ∙ ap (λ k. k ∷ decode t rest) same)
    ]

-- With the tables that init leaves: a text of Latin-1 characters below 0xff, without the controls 0 to 9,
-- 11, 14, 15, 17 and 27, is what its bytes by the first table are decoded to. These bytes are those that
-- the conversion to GSM means to write, and the decoder is the one that the conversion from GSM follows.
pub decode-encode_text :
    (text : List ℕ) → All (λ c. is_gsm c ≡ true) text → decode init (encode_text init text) ≡ text
unfolding encode_text decode
decode-encode_text [] ok = refl
decode-encode_text (c ∷ cs) ok =
    decode-encode_char init c (encode_text init cs) (is_gsm-is_inverse c ok.0)
    ∙ ap (λ t. c ∷ t) (decode-encode_text cs ok.1)
