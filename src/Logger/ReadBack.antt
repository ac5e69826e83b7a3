-- ===== src/Logger/ReadBack.antt =====
-- The printed bytes can be read back.
use as_smpp.Prelude.{
  ℕ, zero, suc, ◌+◌, ◌-◌, ◌*◌, ◌/◌, ◌%◌, ◌≤◌, ◌<◌, ◌≡◌, refl, ap, arith, Option, none, some,
}
use as_smpp.Prelude.{List, [], ◌∷◌, All, length, take, ret, leb, ◌==◌, ◌&&◌, if◌then◌else◌}
use as_smpp.Logger.{hex_digit, log_hex}

-- The value of a digit of "%x".
unfoldable pub digit_value : ℕ → Option ℕ
digit_value c =
    if leb 48 c && leb c 57
    then some (c - 48)
    else (if leb 97 c && leb c 102 then some (c - 87) else none)

abbrev pub put_first : Option ℕ → Option ℕ → Option (List ℕ) → Option (List ℕ)
put_first (some high) (some low) (some bytes) = some ((high * 16 + low) ∷ bytes)
put_first _ _ _ = none

-- Two digits and a space for each byte, and the end of the line behind them; nothing else is read.
unfoldable pub read_hex : List ℕ → Option (List ℕ)
read_hex (high ∷ low ∷ space ∷ text) =
    let bytes = read_hex text in
    if space == 32 then put_first (digit_value high) (digit_value low) bytes else none
read_hex (c ∷ []) = if c == 10 then some [] else none
read_hex text = none

digit_value-hex_digit : (n : ℕ) → n < 16 → digit_value (hex_digit n) ≡ some n
unfolding digit_value hex_digit
digit_value-hex_digit n h = ground arith

whole : (b : ℕ) → b / 16 * 16 + b % 16 ≡ b
whole b = omega arith

-- For up to as many bytes as the block has: the dump returns, with three characters for each byte and the
-- end of the line, and a reader that accepts nothing but two digits and a space for each byte, the digits
-- being 0 to 9 and a to f, and the end of the line behind them, reads the bytes back.
pub read_hex-log_hex :
    (block : List ℕ) (len : ℕ)
    → All (λ b. b < 256) block
    → len ≤ length block
    → (text : List ℕ) × (log_hex block len ≡ ret text)
      × (read_hex text ≡ some (take len block))
      × (length text ≡ 3 * len + 1)
unfolding log_hex read_hex
read_hex-log_hex block zero ok h = (10 ∷ [], refl, refl, omega arith)
read_hex-log_hex [] (suc len) ok h = absurd (omega (arith, h))
read_hex-log_hex (b ∷ block) (suc len) ok h =
    let (text, runs, reads, size) = read_hex-log_hex block len ok.1 (omega (arith, h)) in
    (
      hex_digit (b / 16) ∷ hex_digit (b % 16) ∷ 32 ∷ text,
      rw runs refl,
      rw
          (
            digit_value-hex_digit (b / 16) (omega (arith, ok.0)),
            digit_value-hex_digit (b % 16) (omega arith),
            reads,
          )
          (ap (λ x. some (x ∷ take len block)) (whole b)),
      omega (arith, size),
    )
