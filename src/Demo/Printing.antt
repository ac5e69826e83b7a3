-- ===== src/Demo/Printing.antt =====
-- What handleDeliver of src/_as-smpp-demo/_as-smpp-demo.c prints.
use as_smpp.Prelude.{zero, suc, ◌/◌, ◌%◌, ret_injective}
use mathlib.Core.Path.{ap₂}
use as_smpp.Serializer.{strlen}
use as_smpp.Prelude.{ℕ, ◌+◌, ◌*◌, ◌<◌, ◌≡◌, refl, sym, ap, ◌∙◌, arith, true, some, take, drop}
use as_smpp.Prelude.{List, [], ◌∷◌, ◌++◌, append_assoc, ret, length, All, length-append}
use as_smpp.Prelude.{take-append, take-append-drop}
use as_smpp.Memory.{Memory, IsSupplied, size_mod}
use as_smpp.Buffer
use as_smpp.Buffer.{Buffer}
use as_smpp.Buffer.Valid.{IsValid, contents}
use as_smpp.Types.{PduSubmitSm}
use as_smpp.Serializer.Text.{IsChar}
use as_smpp.Converter.{init}
use as_smpp.Converter.Decoding.{decode, gsm_to_latin1_lem}
use as_smpp.Converter.Inverse.{is_gsm, encode_text, decode-encode_text}
use as_smpp.Logger.{log_hex, hex_digit}
use as_smpp.Logger.ReadBack.{read_hex, read_hex-log_hex}
use as_smpp.Demo.{Line, printed, handle_deliver}

-- The characters of a text before its first zero.
unfoldable pub before_zero : List ℕ → List ℕ
before_zero [] = []
before_zero (zero ∷ cs) = []
before_zero (suc c ∷ cs) = suc c ∷ before_zero cs

strlen-before_zero :
    (text rest : List ℕ) → strlen (text ++ (0 ∷ rest)) ≡ ret (length (before_zero text))
unfolding strlen before_zero
strlen-before_zero [] rest = refl
strlen-before_zero (zero ∷ cs) rest = refl
strlen-before_zero (suc c ∷ cs) rest = rw (strlen-before_zero cs rest)

take-before_zero :
    (text rest : List ℕ) → take (length (before_zero text)) (text ++ (0 ∷ rest)) ≡ before_zero text
unfolding before_zero
take-before_zero [] rest = refl
take-before_zero (zero ∷ cs) rest = refl
take-before_zero (suc c ∷ cs) rest = ap (λ t. suc c ∷ t) (take-before_zero cs rest)

printed-before_zero :
    (text rest : List ℕ) → printed (some (text ++ (0 ∷ rest))) ≡ ret (before_zero text)
unfolding printed
printed-before_zero text rest =
    rw (strlen-before_zero text rest) (ap ret (take-before_zero text rest))

pub before_zero-IsChar : (text : List ℕ) → All IsChar text → before_zero text ≡ text
unfolding before_zero
before_zero-IsChar [] ok = refl
before_zero-IsChar (zero ∷ cs) ok = absurd (omega (arith, ok.0.0))
before_zero-IsChar (suc c ∷ cs) ok = ap (λ t. suc c ∷ t) (before_zero-IsChar cs ok.1)

pub printed_lem :
    (text rest : List ℕ) → All IsChar text → printed (some (text ++ (0 ∷ rest))) ≡ ret text
printed_lem text rest ok = printed-before_zero text rest ∙ ap ret (before_zero-IsChar text ok)

is_gsm-IsChar : (text : List ℕ) → All (λ c. is_gsm c ≡ true) text → All IsChar text
unfolding is_gsm
is_gsm-IsChar [] h = tt
is_gsm-IsChar (c ∷ cs) h = (ground arith, is_gsm-IsChar cs h.1)

-- Two digits and a space for each byte, and the end of the line.
unfoldable pub dump_of : List ℕ → List ℕ
dump_of [] = 10 ∷ []
dump_of (b ∷ bytes) = hex_digit (b / 16) ∷ hex_digit (b % 16) ∷ 32 ∷ dump_of bytes

log_hex-dump_of :
    (bytes after : List ℕ) → log_hex (bytes ++ after) (length bytes) ≡ ret (dump_of bytes)
unfolding log_hex dump_of
log_hex-dump_of [] after = refl
log_hex-dump_of (b ∷ bytes) after = rw (log_hex-dump_of bytes after)

module _ (mem : Memory) (supply : IsSupplied mem) where
  pub init-IsValid : (n : ℕ) → n < size_mod → IsValid (Buffer.init mem n)
  unfolding Buffer.init
  init-IsValid n h = record { sized = supply.length-malloc n h; filled = omega arith; bounded = h }

  -- Any message is printed as a dump and as the text that it is decoded to.
  pub handle_deliver_lem :
      (sequence_no status : ℕ) (coded after : List ℕ) (pdu : PduSubmitSm)
      → pdu.message ≡ coded ++ after
      → pdu.message_length ≡ length coded
      → 20 * length pdu.message + 100 < size_mod
      → handle_deliver mem init sequence_no status pdu
        ≡ ret (
            Line.deliver sequence_no status
            ∷ Line.dump (dump_of coded)
            ∷ Line.message (before_zero (decode init coded))
            ∷ [])
  unfolding handle_deliver Buffer.init
  handle_deliver_lem sequence_no status coded after pdu holds counted room =
      let n = pdu.message_length in
      let size : length pdu.message ≡ n + length after =
        omega (arith, ap length holds, length-append coded after, counted) in
      let front : take n pdu.message ≡ coded =
        ap (λ t. take n t) holds ∙ take-append coded after n counted in
      let dumped : log_hex pdu.message n ≡ ret (dump_of coded) =
        ap₂ (λ t k. log_hex t k) holds counted ∙ log_hex-dump_of coded after in
      let gsm : Buffer = record { ptr = pdu.message; data_len = n; capacity = 0 } in
      let (b, converted, _, out) =
        gsm_to_latin1_lem mem supply init gsm
          (record { filled = omega (arith, size); bounded = omega (arith, size) })
          (Buffer.init mem (n + 1)) (init-IsValid (n + 1) (omega (arith, size)))
          (omega (arith, size)) in
      let plain = decode init coded in
      let text : contents b ≡ plain ++ (0 ∷ []) = out ∙ ap (λ t. decode init t ++ (0 ∷ [])) front in
      let whole : b.ptr ≡ plain ++ (0 ∷ drop b.data_len b.ptr) =
        sym (take-append-drop b.data_len b.ptr)
        ∙ ap (λ t. t ++ drop b.data_len b.ptr) text
        ∙ append_assoc plain (0 ∷ []) (drop b.data_len b.ptr) in
      let shown : printed (some b.ptr) ≡ ret (before_zero plain) =
        ap (λ t. printed (some t)) whole ∙ printed-before_zero plain (drop b.data_len b.ptr) in
      rw (dumped, converted, shown) refl

  -- For a delivery whose message begins with the GSM bytes of a text of Latin-1 characters below 0xff,
  -- without the controls 0 to 9, 11, 14, 15, 17 and 27, and whose length is that of these bytes, with
  -- cells that are bytes, allocations that succeed, and size_t room for 20 times the message's array and
  -- 100 more: the handler of the demo returns with no access out of bounds. It has printed the number and
  -- the status, a dump that reads back as the message, and the text.
  pub handle_deliver-encode_text :
      (sequence_no status : ℕ) (text after : List ℕ) (pdu : PduSubmitSm)
      → All (λ c. is_gsm c ≡ true) text
      → All (λ b. b < 256) pdu.message
      → pdu.message ≡ encode_text init text ++ after
      → pdu.message_length ≡ length (encode_text init text)
      → 20 * length pdu.message + 100 < size_mod
      → (hex : List ℕ) × (handle_deliver mem init sequence_no status pdu
          ≡ ret (Line.deliver sequence_no status ∷ Line.dump hex ∷ Line.message text ∷ []))
        × (read_hex hex ≡ some (encode_text init text))
  handle_deliver-encode_text sequence_no status text after pdu ok bytes holds counted room =
      let coded = encode_text init text in
      let n = pdu.message_length in
      let size : length pdu.message ≡ n + length after =
        omega (arith, ap length holds, length-append coded after, counted) in
      let front : take n pdu.message ≡ coded =
        ap (λ t. take n t) holds ∙ take-append coded after n counted in
      let (hex, dumped, reads, _) = read_hex-log_hex pdu.message n bytes (omega (arith, size)) in
      let same : hex ≡ dump_of coded =
        ret_injective
          (sym dumped ∙ ap₂ (λ t k. log_hex t k) holds counted ∙ log_hex-dump_of coded after) in
      let plain : before_zero (decode init coded) ≡ text =
        ap before_zero (decode-encode_text text ok)
        ∙ before_zero-IsChar text (is_gsm-IsChar text ok) in
      (
        hex,
        handle_deliver_lem sequence_no status coded after pdu holds counted room
            ∙ ap₂ (λ d t. ret (Line.deliver sequence_no status ∷ Line.dump d ∷ Line.message t ∷ []))
                (sym same) plain,
        reads ∙ ap some front,
      )
