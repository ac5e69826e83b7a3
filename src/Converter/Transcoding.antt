-- ===== src/Converter/Transcoding.antt =====
-- as_smpp_converter_transcode_unicode_to_ucs2_be of src/as-smpp-core/src/converter.c, on the bytes of
-- the text, for machines of either byte order.
use as_smpp.Prelude.{ℕ, ◌+◌, ◌*◌, ◌/◌, ◌%◌, ◌^◌, ◌<◌, ◌≡◌, ◌≢◌, refl, ap, arith, Bool, true, false}
use as_smpp.Prelude.{List, [], ◌∷◌, ◌++◌, All, Run, ret, fault, ◌>>=◌, ◌==◌, if◌then◌else◌, bit_or}
use mathlib.Core.Path.{ap₂}
use as_smpp.Prelude.Bits.{bit_or_low}

-- A value of 16 bits as the two bytes that a machine keeps it in, and back.
unfoldable pub store_unit : Bool → ℕ → List ℕ
store_unit big u = if big then u / 256 ∷ u % 256 ∷ [] else u % 256 ∷ u / 256 ∷ []

unfoldable pub load_unit : Bool → ℕ → ℕ → ℕ
load_unit big x y = if big then x * 256 + y else y * 256 + x

-- as_smpp_is_big_endian
unfoldable pub is_big_endian : Bool → Bool
unfolding store_unit
is_big_endian big = elim (store_unit big 0xabcd) [ [] ↦ false | byte ∷ bytes ↦ byte == 0xab ]

-- The loop up to the terminator.
unfoldable pub swap_loop : Bool → List ℕ → Run (List ℕ)
swap_loop big [] = fault
swap_loop big (x ∷ []) = fault
swap_loop big (x ∷ y ∷ rest) =
    let swapped = swap_loop big rest in
    if load_unit big x y == 0
    then ret (x ∷ y ∷ rest)
    else swapped >>= λ bytes. ret (store_unit big (bit_or (x * 2 ^ 8) y % 2 ^ 16) ++ bytes)

unfoldable pub transcode_unicode_to_ucs2_be : Bool → List ℕ → Run (List ℕ)
transcode_unicode_to_ucs2_be big text = if is_big_endian big then ret text else swap_loop big text

-- The bytes of a text as a machine keeps it, and in the order of the wire.
abbrev pub stored : Bool → List ℕ → List ℕ
stored big [] = []
stored big (u ∷ units) = store_unit big u ++ stored big units

abbrev pub wire : List ℕ → List ℕ
wire [] = []
wire (u ∷ units) = u / 256 ∷ u % 256 ∷ wire units

-- A character of 16 bits that is not the terminator.
abbrev pub IsUnit : ℕ → Type 0
IsUnit u = (u ≢ 0) × (u < 2 ^ 16)

stored_big : (units : List ℕ) → stored true units ≡ wire units
unfolding store_unit
stored_big [] = refl
stored_big (u ∷ units) = ap (λ t. u / 256 ∷ u % 256 ∷ t) (stored_big units)

swapped :
    (u : ℕ)
    → u < 2 ^ 16
    → store_unit false (bit_or (u % 256 * 2 ^ 8) (u / 256) % 2 ^ 16) ≡ u / 256 ∷ u % 256 ∷ []
unfolding store_unit
swapped u h =
    let v = bit_or (u % 256 * 2 ^ 8) (u / 256) % 2 ^ 16 in
    let value : v ≡ u % 256 * 256 + u / 256 =
      omega (arith, bit_or_low 8 (u % 256) (u / 256) (omega arith)) in
    let low : v % 256 ≡ u / 256 = omega (arith, value) in
    let high : v / 256 ≡ u % 256 = omega (arith, value) in
    ap₂ (λ (x : ℕ) (y : ℕ). x ∷ y ∷ []) low high

swap_loop_lem :
    (units rest : List ℕ)
    → All IsUnit units
    → swap_loop false (stored false units ++ (0 ∷ 0 ∷ rest)) ≡ ret (wire units ++ (0 ∷ 0 ∷ rest))
unfolding swap_loop store_unit load_unit
swap_loop_lem [] rest ok = refl
swap_loop_lem (u ∷ units) rest ok =
    let nonzero : (u / 256 * 256 + u % 256 == 0) ≡ false = ground (arith, ok.0.0) in
    rw nonzero (
      rw (swap_loop_lem units rest ok.1)
        (ap (λ t. ret (t ++ (wire units ++ (0 ∷ 0 ∷ rest)))) (swapped u ok.0.1)))

-- On a machine of either byte order: a text of 16-bit characters that are not 0, with a terminator, is
-- left with the high byte of each character first, and what is behind the terminator as it was.
pub transcode_unicode_to_ucs2_be_lem :
    (big : Bool) (units rest : List ℕ)
    → All IsUnit units
    → transcode_unicode_to_ucs2_be big (stored big units ++ (0 ∷ 0 ∷ rest))
      ≡ ret (wire units ++ (0 ∷ 0 ∷ rest))
unfolding transcode_unicode_to_ucs2_be is_big_endian
transcode_unicode_to_ucs2_be_lem true units rest ok =
    ap (λ t. ret (t ++ (0 ∷ 0 ∷ rest))) (stored_big units)
transcode_unicode_to_ucs2_be_lem false units rest ok = swap_loop_lem units rest ok

-- A text without a terminator is read past its end.
swap_loop_fault : (units : List ℕ) → All IsUnit units → swap_loop false (stored false units) ≡ fault
unfolding swap_loop store_unit load_unit
swap_loop_fault [] ok = refl
swap_loop_fault (u ∷ units) ok =
    let nonzero : (u / 256 * 256 + u % 256 == 0) ≡ false = ground (arith, ok.0.0) in
    rw nonzero (rw (swap_loop_fault units ok.1) refl)
