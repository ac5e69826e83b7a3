-- ===== src/Examples/Texts.antt =====
-- The theorems on the conversions between character sets, at concrete inputs.
use as_smpp.Prelude.{ℕ, ◌≡◌, refl, arith, List, [], ◌∷◌, some, length, ret, starved, false}
use as_smpp.Converter.Transcoding.{
  store_unit, transcode_unicode_to_ucs2_be, transcode_unicode_to_ucs2_be_lem,
}
use as_smpp.Logger.{log_hex}
use as_smpp.Logger.ReadBack.{read_hex, read_hex-log_hex}
use as_smpp.Buffer.{Buffer}
use as_smpp.Buffer.Valid.{IsValid, contents}
use as_smpp.Converter.{init, invert, assign, assign_all, gsm_to_latin1, latin1_to_gsm}
use as_smpp.Converter.Decoding.{decode, gsm_to_latin1_lem, IsValid-IsReadable}
use as_smpp.Converter.Encoding.{latin1_to_gsm_stalls}
use as_smpp.Converter.Inverse.{encode_text, is_gsm, decode-encode_text}
use as_smpp.Examples.Data.{zeroed, zeroed-IsSupplied, buffer_of, buffer_of-IsValid, empty-IsValid}

-- "@[a", where the bracket takes two bytes.
gsm_to_latin1_lem_example :
    (b' : Buffer) × (gsm_to_latin1 zeroed init
        (buffer_of [])
        (buffer_of (0 ∷ 0x1b ∷ 0x3c ∷ 0x61 ∷ []))
      ≡ ret b')
    × IsValid b'
    × (contents b' ≡ 0x40 ∷ 0x5b ∷ 0x61 ∷ 0 ∷ [])
unfolding decode init invert assign assign_all
gsm_to_latin1_lem_example =
    gsm_to_latin1_lem zeroed zeroed-IsSupplied init (buffer_of (0 ∷ 0x1b ∷ 0x3c ∷ 0x61 ∷ []))
      (IsValid-IsReadable (buffer_of-IsValid (0 ∷ 0x1b ∷ 0x3c ∷ 0x61 ∷ []) (omega arith)))
      (buffer_of []) empty-IsValid (omega arith)

latin1_to_gsm_stalls_example :
    latin1_to_gsm zeroed init 1000 (buffer_of []) (0x61 ∷ 0 ∷ []) ≡ starved
latin1_to_gsm_stalls_example =
    latin1_to_gsm_stalls zeroed zeroed-IsSupplied init 1000 (0x61 ∷ []) [] (buffer_of [])
      ((omega arith, omega arith), tt) (omega arith) empty-IsValid (omega arith)

-- "a[@", with the bracket from the second table.
decode-encode_text_example :
    decode init (encode_text init (0x61 ∷ 0x5b ∷ 0x40 ∷ [])) ≡ 0x61 ∷ 0x5b ∷ 0x40 ∷ []
unfolding is_gsm
decode-encode_text_example = decode-encode_text (0x61 ∷ 0x5b ∷ 0x40 ∷ []) (refl, (refl, (refl, tt)))

-- "aП" and a terminator, on a machine that keeps the low byte first.
transcode_unicode_to_ucs2_be_lem_example :
    transcode_unicode_to_ucs2_be false (0x61 ∷ 0 ∷ 0x1f ∷ 0x04 ∷ 0 ∷ 0 ∷ [])
    ≡ ret (0 ∷ 0x61 ∷ 0x04 ∷ 0x1f ∷ 0 ∷ 0 ∷ [])
unfolding store_unit
transcode_unicode_to_ucs2_be_lem_example =
    transcode_unicode_to_ucs2_be_lem false (0x61 ∷ 0x41f ∷ []) [] (
      ((λ e. absurd (omega (arith, e))), omega arith),
      (((λ e. absurd (omega (arith, e))), omega arith), tt),
    )

read_hex-log_hex_example :
    (text : List ℕ) × (log_hex (0x9f ∷ 0x0a ∷ 3 ∷ []) 2 ≡ ret text)
    × (read_hex text ≡ some (0x9f ∷ 0x0a ∷ []))
    × (length text ≡ 7)
read_hex-log_hex_example =
    read_hex-log_hex (0x9f ∷ 0x0a ∷ 3 ∷ []) 2 (omega arith, (omega arith, (omega arith, tt)))
      (omega arith)
