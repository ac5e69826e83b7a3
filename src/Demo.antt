-- ===== src/Demo.antt =====
-- src/_as-smpp-demo/_as-smpp-demo.c: a program that connects, sends a message, and prints what comes in.
pub mod Printing
pub mod Running
pub mod Receiving
use as_smpp.Prelude.{ℕ, Bool, true, false, ◌+◌, List, [], ◌∷◌, ◌++◌, none, some, Option, take}
use as_smpp.Prelude.{Run, ret, fault, ◌>>=◌}
use as_smpp.Memory.{Memory}
use as_smpp.Buffer
use as_smpp.Buffer.{Buffer}
use as_smpp.Types
use as_smpp.Types.{Address, CharPtr, ErrorCode, PduSubmitSm}
use as_smpp.Core
use as_smpp.Session
use as_smpp.Session.{Event, Session, SessionMode, SessionState, World, wait_for_state, destroy}
use as_smpp.Net.{Platform}
use as_smpp.Serializer.{strlen}
use as_smpp.Smpp.{submit_sm}
use as_smpp.Converter.{Tables, gsm_to_latin1}
use as_smpp.Converter.Transcoding.{stored, transcode_unicode_to_ucs2_be}
use as_smpp.Logger.{log_hex}
use as_smpp.Esme.{Options, start}

-- What is printed, apart from the wording.
pub data Line : Type 0 where
  bind_response : ℕ → ℕ → Line
  submit_response : ℕ → ℕ → List ℕ → Line
  deliver : ℕ → ℕ → Line
  dump : List ℕ → Line
  message : List ℕ → Line
  binding bound error : Line

-- A string as "%s" prints it.
unfoldable pub printed : CharPtr → Run (List ℕ)
printed none = fault
printed (some cells) = do n ← strlen cells; ret (take n cells)

unfoldable pub handle_bind_response : ℕ → ℕ → List Line
handle_bind_response sequence_no status = Line.bind_response sequence_no status ∷ []

unfoldable pub handle_submit_response : ℕ → ℕ → CharPtr → Run (List Line)
handle_submit_response sequence_no status message_id = do
  text ← printed message_id
  ret (Line.submit_response sequence_no status text ∷ [])

unfoldable pub handle_deliver : Memory → Tables → ℕ → ℕ → PduSubmitSm → Run (List Line)
handle_deliver mem t sequence_no status pdu = do
  hex ← log_hex pdu.message pdu.message_length
  let text = Buffer.init mem (pdu.message_length + 1)
  let gsm : Buffer = record { ptr = pdu.message; data_len = pdu.message_length; capacity = 0 }
  text ← gsm_to_latin1 mem t text gsm
  characters ← printed (some text.ptr)
  ret (Line.deliver sequence_no status ∷ Line.dump hex ∷ Line.message characters ∷ [])

-- What a call of a handler prints, for a session whose handlers are those of main.
unfoldable pub called : Memory → Tables → Event → Run (List Line)
called mem t (Event.bind_response handler sequence_no status) =
    ret (handle_bind_response sequence_no status)
called mem t (Event.submit_response handler sequence_no status message_id) =
    handle_submit_response sequence_no status message_id
called mem t (Event.deliver handler sequence_no status pdu) =
    handle_deliver mem t sequence_no status pdu
called mem t _ = ret []

-- What is printed for some events, in their order.
unfoldable pub printed_all : Memory → Tables → List Event → Run (List Line)
printed_all mem t [] = ret []
printed_all mem t (event ∷ events) = do
  lines ← called mem t event
  more ← printed_all mem t events
  ret (lines ++ more)

-- The arguments of as_smpp_esme_start: "192.168.0.213", "foo", "bar" and "as-smpp".
abbrev pub options : Options
options = record {
  hostname = some (49 ∷ 57 ∷ 50 ∷ 46 ∷ 49 ∷ 54 ∷ 56 ∷ 46 ∷ 48 ∷ 46 ∷ 50 ∷ 49 ∷ 51 ∷ 0 ∷ []);
  port_no = 2775;
  session_mode = SessionMode.transceiver;
  system_id = some (102 ∷ 111 ∷ 111 ∷ 0 ∷ []);
  password = some (98 ∷ 97 ∷ 114 ∷ 0 ∷ []);
  system_type = some (97 ∷ 115 ∷ 45 ∷ 115 ∷ 109 ∷ 112 ∷ 112 ∷ 0 ∷ []);
  version = Types.version_3_4;
  address_ton = Types.ton_unknown;
  address_npi = Types.npi_unknown;
  address_range = none;
  use_udh = false;
  use_message_payload_tlv = true;
  max_sm_length = 140;
}

-- u"test!@#$%^&*()1234567890"
abbrev pub text_units : List ℕ
text_units =
    116 ∷ 101 ∷ 115 ∷ 116 ∷ 33 ∷ 64 ∷ 35 ∷ 36 ∷ 37 ∷ 94 ∷ 38 ∷ 42 ∷ 40 ∷ 41 ∷ 49 ∷ 50 ∷ 51 ∷ 52 ∷ 53
    ∷ 54 ∷ 55 ∷ 56 ∷ 57 ∷ 48 ∷ []

-- "SMPP" and "79163263253"
abbrev pub service : CharPtr
service = some (83 ∷ 77 ∷ 80 ∷ 80 ∷ 0 ∷ [])

abbrev pub subscriber : Address
subscriber = record {
  ton = Types.ton_international;
  npi = Types.npi_unknown;
  address = some (55 ∷ 57 ∷ 49 ∷ 54 ∷ 51 ∷ 50 ∷ 54 ∷ 51 ∷ 50 ∷ 53 ∷ 51 ∷ 0 ∷ []);
}

-- as_smpp_session_create and the three calls that set the handlers, which are 1, 2 and 3 here.
unfoldable pub prepared : Memory → Session → World
prepared mem block =
    let w = Session.create mem block in
    let s = w.session in
    let s = Session.set_handler_bind_response s (some 1) in
    let s = Session.set_handler_submit_sm_response s (some 2) in
    let s = Session.set_handler_deliver_sm s (some 3) in record w { session = s }

module _ (mem : Memory) (os : Platform) (big : Bool) (wakeups : List SessionState) where
  -- From behind as_smpp_esme_start on, where it returned no error; the call of getchar is left out.
  unfoldable pub send_text : World → Run (List Line × World)
  send_text w = do
    w ← wait_for_state w SessionState.bound_trx wakeups
    text ← transcode_unicode_to_ucs2_be big (stored big text_units ++ (0 ∷ 0 ∷ []))
    let buffer : Buffer = record { ptr = text; data_len = 48; capacity = 0 }
    (code, sequence_no, w) ←
        submit_sm mem os w service subscriber subscriber Types.data_coding_ucs2 buffer
    ret (Line.binding ∷ Line.bound ∷ [], destroy w)

  -- The same for any result. A session that is a null pointer is not to be used.
  unfoldable pub started : ErrorCode × Option World → Run (List Line × World)
  started (code, none) = fault
  started (code, some w) = elim code [
    | ErrorCode.none ↦ send_text w
    | _ ↦ ret (Line.error ∷ [], destroy w)
  ]

  -- main; `block` is the indeterminate contents of the session.
  unfoldable pub main : Session → Run (List Line × World)
  main block = do
    let (code, tables) = Core.init
    r ← start mem os (some (prepared mem block)) options
    (lines, w) ← started r
    let ended = Core.fini
    ret (lines, w)
