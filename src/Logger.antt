-- ===== src/Logger.antt =====
-- src/as-smpp-core/src/logger.c: bytes printed in hexadecimal.
pub mod ReadBack
use as_smpp.Prelude.{
  ℕ, zero, suc, ◌+◌, ◌/◌, ◌%◌, List, [], ◌∷◌, Run, ret, fault, ◌>>=◌, ltb, if◌then◌else◌,
}

-- A digit as "%x" prints it.
unfoldable pub hex_digit : ℕ → ℕ
hex_digit n = if ltb n 10 then 48 + n else 87 + n

-- as_smpp_log_hex: what it prints for the first `len` bytes of a block
unfoldable pub log_hex : List ℕ → ℕ → Run (List ℕ)
log_hex b zero = ret (10 ∷ [])
log_hex [] (suc len) = fault
log_hex (byte ∷ b) (suc len) =
    log_hex b len >>= λ text. ret (hex_digit (byte / 16) ∷ hex_digit (byte % 16) ∷ 32 ∷ text)
