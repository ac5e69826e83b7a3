-- ===== src/Examples/Frames.antt =====
-- The theorems on what is sent, at concrete inputs.
use as_smpp.Prelude.{ℕ, ◌+◌, ◌%◌, ◌<◌, ◌≤◌, ◌≡◌, ◌↔◌, refl, arith, List, [], ◌∷◌, ◌++◌}
use as_smpp.Prelude.{ret, some, none, length, true, false}
use as_smpp.Buffer.Valid.{IsValid}
use as_smpp.Types
use as_smpp.Types.{ErrorCode, PduHeader}
use as_smpp.Session.{SessionMode, SessionState, Event, World, locked, unlocked, signalled_all}
use as_smpp.Session.{state_mutex, send_mutex, spawned_worker}
use as_smpp.Serializer.Pdu.{deserialize_pdu_header, deserialize_pdu_submit_sm}
use as_smpp.Serializer.Spec.{big_endian}
use as_smpp.Serializer.Header.{header_bytes}
use as_smpp.Serializer.Address.{address_of, address_bytes}
use as_smpp.Serializer.Submit.{submit_bytes, init_pdu_submit_sm, pdu_of}
use as_smpp.Smpp.{submit_sm, deliver_sm_response, bind, bind_command, get_sequence_no}
use as_smpp.Smpp.Framing.{frame}
use as_smpp.Smpp.Sending.{SentOnce, submit_sm-frame}
use as_smpp.Smpp.Sending.{deliver_sm_response-frame}
use as_smpp.Smpp.Sequence.{nth_number, nth_number_cycle}
use as_smpp.Smpp.Reading.{read_frame, header_for}
use as_smpp.Smpp.BindFrame.{text, null, bind_bytes, bind-frame}
use as_smpp.Esme.{Options, start}
use as_smpp.Esme.Start.{start_binds, start_fails}
use as_smpp.Examples.Data.{zeroed, zeroed-IsSupplied, online, refusing, buffer_of}
use as_smpp.Examples.Data.{buffer_of-IsValid, contents-buffer_of, world_with, empty-IsValid}
use as_smpp.Examples.Data.{greeting, greeting-IsMessage, account, account-IsLogin, blank_pdu}
use as_smpp.Examples.Data.{blank_buffers, blank_buffers-HasSizes, blank_header}

abbrev idle : World
idle = world_with []

submit_sm-frame_example :
    (w' : World) × (submit_sm zeroed online idle
        (some (67 ∷ 0 ∷ []))
        (address_of greeting.source [])
        (address_of greeting.destination [])
        8
        (buffer_of (104 ∷ 105 ∷ []))
      ≡ ret (ErrorCode.none, 5, w'))
    × SentOnce 685
        (frame Types.submit_sm_id Types.status_rok 5 (submit_bytes greeting))
        idle
        (get_sequence_no idle.session).1
        w'
submit_sm-frame_example =
    submit_sm-frame zeroed online zeroed-IsSupplied idle greeting [] [] []
      (buffer_of (104 ∷ 105 ∷ [])) greeting-IsMessage (omega arith) refl empty-IsValid (omega arith)

abbrev greeting_frame : List ℕ
greeting_frame = frame Types.deliver_sm_id Types.status_rok 9 (submit_bytes greeting) ++ (0 ∷ [])

greeting_frame-IsValid : IsValid (buffer_of greeting_frame)
unfolding frame submit_bytes header_bytes big_endian address_bytes
greeting_frame-IsValid = buffer_of-IsValid greeting_frame (omega arith)

read_frame_example :
    (deserialize_pdu_header blank_header (buffer_of greeting_frame) 0
      ≡ ret (ErrorCode.none, header_for Types.deliver_sm_id 9 greeting, 16))
    × (deserialize_pdu_submit_sm
          (init_pdu_submit_sm blank_pdu blank_buffers)
          (buffer_of greeting_frame)
          16
        ≡ ret (pdu_of greeting blank_pdu blank_buffers, 16 + length (submit_bytes greeting)))
read_frame_example =
    read_frame Types.deliver_sm_id 9 greeting blank_header blank_pdu blank_buffers
      (buffer_of greeting_frame) (0 ∷ []) (omega arith) (omega arith) greeting-IsMessage
      blank_buffers-HasSizes greeting_frame-IsValid (contents-buffer_of greeting_frame)

abbrev request : PduHeader
request = record { command_length = 16; command_id = 0x15; status = 0; sequence_no = 9 }

deliver_sm_response-frame_example :
    (w' : World) × (deliver_sm_response zeroed online idle request ≡ ret (ErrorCode.none, w'))
    × SentOnce 161 (frame 0x8000_0015 Types.status_rok 9 (0 ∷ [])) idle idle.session w'
deliver_sm_response-frame_example =
    deliver_sm_response-frame zeroed online zeroed-IsSupplied idle request empty-IsValid
      (omega arith)

bind-frame_example :
    (w' : World) × (bind zeroed online idle
        (some (97 ∷ 98 ∷ 0 ∷ []))
        (some (99 ∷ 0 ∷ []))
        none
        1
        1
        none
      ≡ ret (ErrorCode.none, w'))
    × SentOnce 274
        (frame (bind_command SessionMode.transceiver) Types.status_rok 5 (bind_bytes account 0x34))
        idle
        (record (idle.session) { sequence_no = 6 })
        w'
bind-frame_example =
    bind-frame zeroed zeroed-IsSupplied online idle account (some (97 ∷ 98 ∷ 0 ∷ []))
      (some (99 ∷ 0 ∷ [])) none none account-IsLogin (text (97 ∷ 98 ∷ []) []) (text (99 ∷ []) [])
      null null empty-IsValid (omega arith)

nth_number_cycle_example :
    (0 < nth_number 0x7fff_fffe idle.session)
    × (nth_number 0x7fff_fffe idle.session ≤ 0x7fff_fffe)
    × ((nth_number 0x7fff_fffe idle.session ≡ nth_number 3 idle.session)
        ↔ (0x7fff_fffe % 0x7fff_fffe ≡ 3 % 0x7fff_fffe))
nth_number_cycle_example = nth_number_cycle 0x7fff_fffe 3 idle.session (omega arith) (omega arith)

abbrev options : Options
options = record {
  hostname = some (104 ∷ 0 ∷ []);
  port_no = 2775;
  session_mode = SessionMode.receiver;
  system_id = some (97 ∷ 98 ∷ 0 ∷ []);
  password = some (99 ∷ 0 ∷ []);
  system_type = none;
  version = 0x34;
  address_ton = 1;
  address_npi = 1;
  address_range = none;
  use_udh = true;
  use_message_payload_tlv = false;
  max_sm_length = 140;
}

start_binds_example :
    (w' : World) × (start zeroed online (some idle) options ≡ ret (ErrorCode.none, some w'))
    × (w'.trace
        ≡ Event.freed_address 3
          ∷ locked state_mutex
          ∷ unlocked state_mutex
          ∷ signalled_all
          ∷ spawned_worker
          ∷ locked send_mutex
          ∷ Event.sent 7 (
              frame
                (bind_command SessionMode.receiver)
                Types.status_rok
                1
                (bind_bytes account 0x34))
          ∷ unlocked send_mutex
          ∷ [])
    × (w'.session.state ≡ SessionState.opened)
    × (w'.session.sequence_no ≡ 2)
start_binds_example =
    start_binds zeroed online idle options account 3 7 zeroed-IsSupplied account-IsLogin
      (text (97 ∷ 98 ∷ []) []) (text (99 ∷ []) []) null null refl refl refl refl refl empty-IsValid
      (omega arith)

start_fails_example :
    (w' : World) × (start zeroed refusing (some idle) options ≡ ret (ErrorCode.net, some w'))
    × (w'.trace ≡ Event.closed_socket 7 ∷ Event.freed_address 3 ∷ [])
    × (w'.session ≡ record (idle.session) {
      socket_handle = w'.session.socket_handle;
      sequence_no = 1;
      mode = SessionMode.receiver;
      smpp_version = 0x34;
      use_udh = true;
      use_message_payload_tlv = false;
      max_sm_length = 140;
    })
    × ((fd : ℕ) → some 7 ≡ some fd → w'.session.socket_handle ≡ fd)
start_fails_example = start_fails zeroed refusing idle options (λ address fd p q. refl)
