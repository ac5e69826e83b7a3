-- ===== src/Smpp.antt =====
-- src/as-smpp-core/src/smpp.c: the calls that send a PDU. Each holds the session's send mutex.
pub mod Worker
pub mod Framing
pub mod Sending
pub mod Sequence
pub mod Receiving
pub mod Packets
pub mod Serving
pub mod Cases
pub mod Dispatching
pub mod Draining
pub mod Stream
pub mod Reassembly
pub mod Enquiries
pub mod Endings
pub mod Termination
pub mod Hostile
pub mod Stalling
pub mod Binding
pub mod Reading
pub mod BindFrame
pub mod Interleaving
use as_smpp.Prelude.{ℕ, ◌+◌, ◌%◌, ◌^◌, List, [], ◌∷◌, none, some, leb, ltb, ◌==◌, if◌then◌else◌}
use as_smpp.Prelude.{Run, ret, ◌>>=◌, bit_or}
use as_smpp.Memory.{Memory}
use as_smpp.Buffer.{Buffer}
use as_smpp.Types
use as_smpp.Types.{CharPtr, ErrorCode, Address, PduHeader}
use as_smpp.Session.{Session, SessionMode, Event, World, emit, with_session, locked, unlocked}
use as_smpp.Session.{send_mutex}
use as_smpp.Net.{Platform, net_send}
use as_smpp.Serializer.{serialize_string}
use as_smpp.Serializer.Macros.{
  serialize_command_length, serialize_system_id, serialize_password, serialize_system_type,
  serialize_version, serialize_ton, serialize_npi, serialize_address_range,
}
use as_smpp.Serializer.Pdu.{serialize_pdu_header, serialize_pdu_submit_sm}

-- INT32_MAX
abbrev pub int32_max : ℕ
int32_max = 0x7fff_ffff

-- as_smpp_get_sequence_no
unfoldable pub get_sequence_no : Session → ℕ × Session
get_sequence_no s =
    let next = (s.sequence_no + 1) % 2 ^ 32 in
    (s.sequence_no, record s { sequence_no = if leb int32_max next then 1 else next })

abbrev pub lock_send : World → World
lock_send w = emit (locked send_mutex ∷ []) w

abbrev pub unlock_send : World → World
unlock_send w = emit (unlocked send_mutex ∷ []) w

-- `buffer->dataLen = 0`
abbrev pub cleared : Buffer → Buffer
cleared b = record b { data_len = 0 }

-- the command of as_smpp_bind
unfoldable pub bind_command : SessionMode → ℕ
bind_command SessionMode.transmitter = Types.bind_transmitter
bind_command SessionMode.receiver = Types.bind_receiver
bind_command SessionMode.transceiver = Types.bind_transceiver

module _ (mem : Memory) (os : Platform) where
  -- as_smpp_send: the length of the PDU is put in front, and the PDU is handed to the socket.
  unfoldable pub send : World → Run (ErrorCode × World)
  send w = do
    let s = w.session
    let data_len = s.send_buffer.data_len
    b ← serialize_command_length mem (cleared s.send_buffer) (data_len % 2 ^ 32)
    let b = record b { data_len = data_len }
    net_send os (with_session (record s { send_buffer = b }) w) s.socket_handle b

  -- What the four calls share: the buffer is cleared, filled by `body`, and sent.
  -- The result of as_smpp_send is not looked at.
  unfoldable pub send_filled : World → Session → (Buffer → Run Buffer) → Run World
  send_filled w s body = do
    b ← body (cleared s.send_buffer)
    (code, w) ← send (with_session (record s { send_buffer = b }) w)
    ret (unlock_send w)

  -- as_smpp_submit_sm: the sequence number that it stores for the caller, and the error code
  unfoldable pub submit_sm :
      World → CharPtr → Address → Address → ℕ → Buffer → Run (ErrorCode × ℕ × World)
  submit_sm w service_type source destination data_coding message = do
    let w = lock_send w
    let (sequence_no, s) = get_sequence_no w.session
    w ← send_filled w s λ b. do
      b ← serialize_pdu_header mem b 0 Types.submit_sm_id Types.status_rok sequence_no
      serialize_pdu_submit_sm mem b service_type source destination data_coding message
    ret (ErrorCode.none, sequence_no, w)

  -- as_smpp_enquire_link_response
  unfoldable pub enquire_link_response : World → PduHeader → Run (ErrorCode × World)
  enquire_link_response w header = do
    let w = lock_send w
    w ← send_filled w w.session λ b.
        serialize_pdu_header mem b 0 (bit_or Types.enquire_link_id Types.response_flag)
          Types.status_rok header.sequence_no
    ret (ErrorCode.none, w)

  -- as_smpp_deliver_sm_response
  unfoldable pub deliver_sm_response : World → PduHeader → Run (ErrorCode × World)
  deliver_sm_response w header = do
    let w = lock_send w
    w ← send_filled w w.session λ b. do
      b ←
          serialize_pdu_header mem b 0 (bit_or Types.enquire_link_id Types.response_flag)
            Types.status_rok header.sequence_no
      serialize_string mem b none Types.length_message_id
    ret (ErrorCode.none, w)

  -- as_smpp_bind
  unfoldable pub bind :
      World → CharPtr → CharPtr → CharPtr → ℕ → ℕ → CharPtr → Run (ErrorCode × World)
  bind w system_id password system_type address_ton address_npi address_range = do
    let w = lock_send w
    let s = w.session
    let next = record s { sequence_no = (s.sequence_no + 1) % 2 ^ 32 }
    w ← send_filled w next λ b. do
      b ← serialize_pdu_header mem b 0 (bind_command s.mode) Types.status_rok s.sequence_no
      b ← serialize_system_id mem b system_id
      b ← serialize_password mem b password
      b ← serialize_system_type mem b system_type
      b ← serialize_version mem b s.smpp_version
      b ← serialize_ton mem b address_ton
      b ← serialize_npi mem b address_npi
      serialize_address_range mem b address_range
    ret (ErrorCode.none, w)
