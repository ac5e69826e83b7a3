-- ===== src/Examples/Demo.antt =====
-- The theorems on the demo, at concrete inputs.
use as_smpp.Prelude.{ℕ, ◌≡◌, refl, arith, List, [], ◌∷◌, ◌++◌, ret, some, false}
use as_smpp.Session.{SessionState, World, state_code}
use as_smpp.Types.{PduSubmitSm}
use as_smpp.Converter.{init, invert, assign, assign_all}
use as_smpp.Converter.Inverse.{is_gsm, encode_text, encode}
use as_smpp.Logger.ReadBack.{read_hex}
use as_smpp.Demo.{Line, handle_deliver, main}
use as_smpp.Demo.Printing.{handle_deliver-encode_text}
use as_smpp.Demo.Running.{
  create_events, connect_events, wait_events, submit_events, destroy_events, main_submits,
}
use as_smpp.Examples.Data.{zeroed, zeroed-IsSupplied, online, session_with, blank_pdu}

-- The session is opened once more before it is bound, on a machine that keeps the low byte first.
main_submits_example :
    (w' : World) × (main zeroed online false
        (SessionState.opened ∷ SessionState.bound_trx ∷ SessionState.closed ∷ [])
        (session_with [])
      ≡ ret (Line.binding ∷ Line.bound ∷ [], w'))
    × (w'.trace
        ≡ create_events
          ++ (connect_events 3 7 ++ (wait_events 2 ++ (submit_events 7 ++ destroy_events))))
unfolding state_code
main_submits_example =
    main_submits zeroed online false zeroed-IsSupplied (session_with []) (SessionState.opened ∷ [])
      (SessionState.closed ∷ []) 3 7 refl refl refl (omega arith, tt)

-- "a[@"
abbrev bracket_pdu : PduSubmitSm
bracket_pdu = record blank_pdu { message_length = 4; message = 0x61 ∷ 0x1b ∷ 0x3c ∷ 0 ∷ 0 ∷ 7 ∷ [] }

encode-bracket : encode_text init (0x61 ∷ 0x5b ∷ 0x40 ∷ []) ≡ 0x61 ∷ 0x1b ∷ 0x3c ∷ 0 ∷ []
unfolding encode_text encode init invert assign assign_all
encode-bracket = refl

handle_deliver-encode_text_example :
    (hex : List ℕ) × (handle_deliver zeroed init 9 0 bracket_pdu
      ≡ ret (Line.deliver 9 0 ∷ Line.dump hex ∷ Line.message (0x61 ∷ 0x5b ∷ 0x40 ∷ []) ∷ []))
    × (read_hex hex ≡ some (encode_text init (0x61 ∷ 0x5b ∷ 0x40 ∷ [])))
unfolding is_gsm encode_text encode init invert assign assign_all
handle_deliver-encode_text_example =
    handle_deliver-encode_text zeroed zeroed-IsSupplied 9 0 (0x61 ∷ 0x5b ∷ 0x40 ∷ []) (0 ∷ 7 ∷ [])
      bracket_pdu (refl, (refl, (refl, tt))) (ground arith) refl refl (omega arith)
