-- ===== src/Converter/Encoding.antt =====
-- as_smpp_converter_latin1_to_gsm of src/as-smpp-core/src/converter.c.
use as_smpp.Prelude.{
  ℕ, zero, suc, ◌+◌, ◌*◌, ◌/◌, ◌%◌, ◌^◌, ◌<◌, ◌≡◌, refl, arith, inl, inr, bit_and,
}
use as_smpp.Prelude.{List, [], ◌∷◌, ◌++◌, All, length, starved, ltb, Bool-cases}
use as_smpp.Memory.{Memory, IsSupplied, size_mod}
use as_smpp.Buffer.{Buffer, ensure_capacity}
use as_smpp.Buffer.Valid.{IsValid}
use as_smpp.Buffer.Growth.{ensure_capacity-HasRoom}
use as_smpp.Buffer.Editing.{add-Writes}
use as_smpp.Serializer.Text.{IsChar, strlen_lem}
use as_smpp.Converter.{Tables, encode_loop, latin1_to_gsm}

module _ (mem : Memory) (supply : IsSupplied mem) (t : Tables) where
  encode_loop_stalls :
      (fuel c : ℕ) (cells : List ℕ) (b : Buffer)
      → IsValid b
      → b.capacity + 34 * fuel < size_mod
      → encode_loop mem t fuel (suc c ∷ cells) b ≡ starved
  unfolding encode_loop
  encode_loop_stalls zero c cells b v room = refl
  encode_loop_stalls (suc fuel) c cells b v room =
      let ch = t.latin1_to_gsm (suc c) in
      elim (Bool-cases (ltb 0xff ch)) [
        | inl two ↦
            let (b₁, r₁, a₁) = (add-Writes mem supply (ch / 2 ^ 8)).run b v (omega arith) in
            let (b₂, r₂, a₂) =
              (add-Writes mem supply (bit_and ch 0xff)).run b₁ a₁.valid
                (omega (arith, a₁.growth)) in
            rw (two, encode_loop)
              (rw (r₁, r₂)
                (encode_loop_stalls fuel c cells b₂ a₂.valid (omega (arith, a₁.growth, a₂.growth))))
        | inr one ↦
            let (b₁, r₁, a₁) = (add-Writes mem supply (bit_and ch 0xff)).run b v (omega arith) in
            rw (one, encode_loop)
              (rw r₁ (encode_loop_stalls fuel c cells b₁ a₁.valid (omega (arith, a₁.growth))))
      ]

  -- For any tables, a text with a character at least, and its terminator, in a well-formed buffer and with
  -- allocations that succeed: the loop of the conversion uses up any fuel that size_t leaves 34 bytes for
  -- each round of: it does not end.
  pub latin1_to_gsm_stalls :
      (fuel : ℕ) (text rest : List ℕ) (gsm : Buffer)
      → All IsChar text
      → 0 < length text
      → IsValid gsm
      → gsm.capacity + (length text + 17) + 34 * fuel < size_mod
      → latin1_to_gsm mem t fuel gsm (text ++ (0 ∷ rest)) ≡ starved
  unfolding latin1_to_gsm
  latin1_to_gsm_stalls fuel [] rest gsm ok some v room = absurd (omega arith)
  latin1_to_gsm_stalls fuel (zero ∷ text) rest gsm ok some v room = absurd (omega (arith, ok.0.0))
  latin1_to_gsm_stalls fuel (suc c ∷ text) rest gsm ok some v room =
      let n = length (suc c ∷ text) in
      let size : (n + 1) % size_mod ≡ n + 1 = omega arith in
      let g = ensure_capacity-HasRoom mem supply gsm (n + 1) v (omega arith) in
      rw (strlen_lem (suc c ∷ text) rest ok, latin1_to_gsm)
        (rw size (
          encode_loop_stalls fuel c (text ++ (0 ∷ rest)) (ensure_capacity mem gsm (n + 1)) g.valid
            (omega (arith, g.cost))))
