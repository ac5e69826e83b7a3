-- ===== src/Smpp/Endings.antt =====
-- What the receiving thread of src/as-smpp-core/src/smpp.c does for a PDU, whatever its bytes are.
use as_smpp.Prelude.{ℕ, ◌≤◌, ◌≡◌, refl, ◌∙◌, arith, bit_and, bit_xor}
use as_smpp.Prelude.{Option, none, some, Run, ◌==◌}
use as_smpp.Prelude.{Safe, returns, Ends, Safe-bind, Safe-if, Ends-ne}
use as_smpp.Memory.{Memory}
use as_smpp.Buffer.{Buffer}
use as_smpp.Buffer.Valid.{IsValid}
use as_smpp.Types
use as_smpp.Types.{PduHeader}
use as_smpp.Session.{Session, Event, World, set_state}
use as_smpp.Net.{Platform, net_send}
use as_smpp.Serializer.Pdu.{deserialize_pdu_deliver_sm}
use as_smpp.Serializer.Endings.{
  load_block-Ends, serialize_integer-Ends, serialize_string-Ends, serialize_pdu_header-Ends,
  deserialize_string-Stays, deserialize_pdu_submit_sm-Stays,
}
use as_smpp.Serializer.TlvList.{deserialize_tlv_ends}
use as_smpp.Serializer.Submit.{init_pdu_submit_sm}
use as_smpp.Smpp.{send, send_filled, enquire_link_response, deliver_sm_response, cleared, lock_send}
use as_smpp.Smpp.Worker.{
  Locals, call_handler, dispatch, dispatch_request, dispatch_response, on_bind_response,
  on_submit_response, on_deliver,
}

-- The receive buffer of `w'` is `b`.
abbrev pub HasReceived : Buffer → World → Type 0
HasReceived b w' = w'.session.receive_buffer ≡ b

call_handler-HasReceived :
    (h : Option ℕ) (event : ℕ → Event) (w : World)
    → HasReceived w.session.receive_buffer (call_handler h event w)
call_handler-HasReceived none event w = refl
call_handler-HasReceived (some f) event w = refl

module _ (mem : Memory) (os : Platform) where
  send-Safe : (w : World) → Safe (λ r. HasReceived w.session.receive_buffer r.1) (send mem os w)
  unfolding send net_send
  send-Safe w =
      Safe-bind (serialize_integer-Ends mem (cleared w.session.send_buffer) _ 4)
        λ b h. Safe-bind (load_block-Ends b.ptr 0 _) λ bytes k. returns refl

  send_filled-Safe :
      (w : World) (s : Session) (body : Buffer → Run Buffer)
      → ((b : Buffer) → Ends (body b))
      → Safe (HasReceived s.receive_buffer) (send_filled mem os w s body)
  unfolding send_filled
  send_filled-Safe w s body ends =
      Safe-bind (ends (cleared s.send_buffer)) λ b h. Safe-bind (send-Safe _) λ r k. returns k

  enquire_link_response-Safe :
      (w : World) (h : PduHeader)
      → Safe (λ r. HasReceived w.session.receive_buffer r.1) (enquire_link_response mem os w h)
  unfolding enquire_link_response
  enquire_link_response-Safe w h =
      Safe-bind
        (send_filled-Safe (lock_send w) w.session _
          (λ b. serialize_pdu_header-Ends mem b 0 _ Types.status_rok h.sequence_no))
        (λ w' k. returns k)

  deliver_sm_response-Safe :
      (w : World) (h : PduHeader)
      → Safe (λ r. HasReceived w.session.receive_buffer r.1) (deliver_sm_response mem os w h)
  unfolding deliver_sm_response
  deliver_sm_response-Safe w h =
      Safe-bind
        (send_filled-Safe (lock_send w) w.session _ λ b.
          Safe-bind (serialize_pdu_header-Ends mem b 0 _ Types.status_rok h.sequence_no)
            (λ b k. serialize_string-Ends mem b none Types.length_message_id))
        (λ w' k. returns k)

  module _ (locals : Locals) (w : World) (h : PduHeader) (index : ℕ)
      (v : IsValid w.session.receive_buffer)
      (inside : index ≤ w.session.receive_buffer.capacity) where
    on_bind_response-Safe :
        (command_id : ℕ)
        → Safe
            (HasReceived w.session.receive_buffer)
            (on_bind_response mem os locals w h command_id index)
    unfolding on_bind_response set_state
    on_bind_response-Safe command_id =
        Safe-bind
          (deserialize_string-Stays w.session.receive_buffer v (some locals.system_id) index
            Types.length_system_id inside)
          (λ x k. returns (call_handler-HasReceived w.session.handler_bind_response _ w))

    on_submit_response-Safe :
        Safe (HasReceived w.session.receive_buffer) (on_submit_response mem os locals w h index)
    unfolding on_submit_response
    on_submit_response-Safe =
        Safe-bind
          (deserialize_string-Stays w.session.receive_buffer v (some locals.message_id) index
            Types.length_message_id inside)
          (λ x k. returns (call_handler-HasReceived w.session.handler_submit_response _ w))

    on_deliver-Safe :
        Safe (HasReceived w.session.receive_buffer) (on_deliver mem os locals w h index)
    unfolding on_deliver deserialize_pdu_deliver_sm
    on_deliver-Safe =
        let b = w.session.receive_buffer in
        let n = h.command_length in
        let empty = init_pdu_submit_sm locals.request locals.request_buffers in
        Safe-bind (deserialize_pdu_submit_sm-Stays b v empty index inside) λ x k.
          Safe-bind (Ends-ne _ (deserialize_tlv_ends mem n b x.1 n v k (omega arith))) λ y u.
            Safe-bind (deliver_sm_response-Safe _ h)
              λ r same. returns (same ∙ call_handler-HasReceived w.session.handler_deliver _ w)

    dispatch_response-Safe :
        (command_id : ℕ)
        → Safe
            (HasReceived w.session.receive_buffer)
            (dispatch_response mem os locals w h command_id index)
    unfolding dispatch_response
    dispatch_response-Safe command_id =
        let bound = on_bind_response-Safe command_id in
        Safe-if (command_id == Types.bind_receiver) bound (
          Safe-if (command_id == Types.bind_transmitter) bound (
            Safe-if (command_id == Types.bind_transceiver) bound
              (Safe-if (command_id == Types.submit_sm_id) on_submit_response-Safe (returns refl))))

    dispatch_request-Safe :
        Safe (HasReceived w.session.receive_buffer) (dispatch_request mem os locals w h index)
    unfolding dispatch_request
    dispatch_request-Safe =
        Safe-if (h.command_id == Types.enquire_link_id)
          (Safe-bind (enquire_link_response-Safe w h) (λ r k. returns k))
          (Safe-if (h.command_id == Types.deliver_sm_id) on_deliver-Safe (returns refl))

    -- A PDU, whatever its bytes are, is dealt with or faults, and the receive buffer is left alone.
    pub dispatch-Safe :
        Safe (HasReceived w.session.receive_buffer) (dispatch mem os locals w h index)
    unfolding dispatch
    dispatch-Safe = Safe-if (h.command_id == Types.nack) (returns refl) (
        Safe-if (bit_and h.command_id Types.response_flag == 0) dispatch_request-Safe
          (dispatch_response-Safe (bit_xor h.command_id Types.response_flag)))
