-- ===== src/Smpp/Packets.antt =====
-- The PDUs that a peer may send to the receiving thread of src/as-smpp-core/src/smpp.c.
use as_smpp.Prelude.{ℕ, ◌+◌, ◌^◌, ◌<◌, ◌≡◌, ◌≢◌, refl, arith, ap, ◌∙◌}
use as_smpp.Prelude.{List, [], ◌∷◌, ◌++◌, length, length-append, All, drop}
use as_smpp.Types
use as_smpp.Types.{PduHeader, Tlv}
use as_smpp.Session.{SessionMode}
use as_smpp.Serializer.Spec.{big_endian}
use as_smpp.Serializer.Header.{header_bytes, length-header_bytes, IsHeader}
use as_smpp.Serializer.Text.{IsChar}
use as_smpp.Serializer.Submit.{HasSizes}
use as_smpp.Serializer.Delivery.{Delivery, IsDelivery, delivery_bytes}
use as_smpp.Serializer.TlvList.{IsTlv, tlv_list_bytes}
use as_smpp.Smpp.{bind_command}
use as_smpp.Smpp.Framing.{frame}
use as_smpp.Smpp.Worker.{Locals}

-- What stands behind the header. Except for a delivery, the bytes that a constructor takes last
-- are not looked at.
pub data Body : Type 0 where
  enquiry : List ℕ → Body
  bind_answer : SessionMode → List ℕ → List ℕ → Body
  submit_answer : List ℕ → List ℕ → Body
  delivery : Delivery → List Tlv → Body
  -- a PDU of a command that the thread has no case for
  other : ℕ → List ℕ → Body

pub record Packet : Type 0 where
  pub status : ℕ
  pub sequence_no : ℕ
  pub body : Body

unfoldable pub command_of : Body → ℕ
command_of (Body.enquiry rest) = Types.enquire_link_id
command_of (Body.bind_answer mode system_id rest) = Types.response_flag + bind_command mode
command_of (Body.submit_answer message_id rest) = Types.response_flag + Types.submit_sm_id
command_of (Body.delivery d tlvs) = Types.deliver_sm_id
command_of (Body.other command_id rest) = command_id

unfoldable pub body_bytes : Body → List ℕ
body_bytes (Body.enquiry rest) = rest
body_bytes (Body.bind_answer mode system_id rest) = (system_id ++ (0 ∷ [])) ++ rest
body_bytes (Body.submit_answer message_id rest) = (message_id ++ (0 ∷ [])) ++ rest
body_bytes (Body.delivery d tlvs) = delivery_bytes d ++ tlv_list_bytes tlvs
body_bytes (Body.other command_id rest) = rest

unfoldable pub packet_bytes : Packet → List ℕ
packet_bytes p = frame (command_of p.body) p.status p.sequence_no (body_bytes p.body)

-- The bytes of some PDUs, one behind the other.
unfoldable pub stream : List Packet → List ℕ
stream [] = []
stream (p ∷ ps) = packet_bytes p ++ stream ps

-- None of the commands of the thread's two switches.
pub record IsOther (command_id : ℕ) : Type 0 where
  pub word : command_id < 2 ^ 32
  pub not_enquire_link : command_id ≢ 0x15
  pub not_deliver_sm : command_id ≢ 0x5
  pub not_bind_receiver_response : command_id ≢ 0x8000_0001
  pub not_bind_transmitter_response : command_id ≢ 0x8000_0002
  pub not_bind_transceiver_response : command_id ≢ 0x8000_0009
  pub not_submit_sm_response : command_id ≢ 0x8000_0004

-- A body whose parts fit their fields.
unfoldable pub IsBody : Body → Type 0
IsBody (Body.enquiry rest) = Unit
IsBody (Body.bind_answer mode system_id rest) =
    All IsChar system_id × (length system_id < Types.length_system_id)
IsBody (Body.submit_answer message_id rest) =
    All IsChar message_id × (length message_id < Types.length_message_id)
IsBody (Body.delivery d tlvs) = IsDelivery d × All IsTlv tlvs
IsBody (Body.other command_id rest) = IsOther command_id

-- A PDU that is well formed, and no longer than its length can state.
pub record IsPacket (p : Packet) : Type 0 where
  pub status : p.status < 2 ^ 32
  pub sequence_no : p.sequence_no < 2 ^ 32
  pub fits : IsBody p.body
  pub short : 16 + length (body_bytes p.body) < 2 ^ 32

-- The sizes of the thread's arrays.
pub record HasArrays (locals : Locals) : Type 0 where
  pub system_id : length locals.system_id ≡ Types.length_system_id
  pub message_id : length locals.message_id ≡ Types.length_message_id
  pub request : HasSizes locals.request_buffers

-- The header of a PDU.
abbrev pub header_of : Packet → PduHeader
header_of p = record {
  command_length = 16 + length (body_bytes p.body);
  command_id = command_of p.body;
  status = p.status;
  sequence_no = p.sequence_no;
}

command_of-word : (b : Body) → IsBody b → command_of b < 2 ^ 32
unfolding command_of bind_command IsBody
command_of-word (Body.enquiry rest) h = omega arith
command_of-word (Body.bind_answer SessionMode.transmitter t rest) h = omega arith
command_of-word (Body.bind_answer SessionMode.receiver t rest) h = omega arith
command_of-word (Body.bind_answer SessionMode.transceiver t rest) h = omega arith
command_of-word (Body.submit_answer t rest) h = omega arith
command_of-word (Body.delivery d tlvs) h = omega arith
command_of-word (Body.other command_id rest) h = h.word

pub header_of-IsHeader : (p : Packet) → IsPacket p → IsHeader (header_of p)
header_of-IsHeader p ok = record {
  command_length = ok.short;
  command_id = command_of-word p.body ok.fits;
  status = ok.status;
  sequence_no = ok.sequence_no;
}

pub length-packet_bytes : (p : Packet) → length (packet_bytes p) ≡ 16 + length (body_bytes p.body)
unfolding packet_bytes frame
length-packet_bytes p =
    length-append (header_bytes (header_of p)) (body_bytes p.body)
    ∙ ap (λ k. k + length (body_bytes p.body)) (length-header_bytes (header_of p))

-- A PDU begins with its length.
pub packet_bytes-big_endian :
    (p : Packet)
    → packet_bytes p ≡ big_endian 4 (16 + length (body_bytes p.body)) ++ drop 4 (packet_bytes p)
unfolding packet_bytes frame header_bytes big_endian
packet_bytes-big_endian p = refl
