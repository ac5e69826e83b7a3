-- ===== src/Smpp/Dispatching.antt =====
-- The case for deliver_sm of the switches in as_smpp_receive_worker of src/as-smpp-core/src/smpp.c, and
-- all cases together.
use as_smpp.Prelude.{ℕ, ◌+◌, ◌≤◌, ◌<◌, ◌≡◌, refl, sym, ap, ◌∙◌, arith}
use as_smpp.Prelude.{List, [], ◌∷◌, ◌++◌, append_assoc, append-nil, ret, length}
use as_smpp.Prelude.{length-append}
use as_smpp.Memory.{Memory, IsSupplied, size_mod}
use as_smpp.Buffer.Valid.{IsValid, contents}
use as_smpp.Types.{Tlv}
use as_smpp.Session.{Session, Event, World, emit}
use as_smpp.Net.{Platform}
use as_smpp.Serializer.Pdu.{deserialize_pdu_deliver_sm}
use as_smpp.Serializer.Spec.{big_endian, Holds-next, Holds-front}
use as_smpp.Serializer.TlvList.{tlv_bytes, tlv_list_bytes, deserialize_tlv_lem}
use as_smpp.Serializer.Delivery.{
  Delivery, delivery_bytes, delivered, deserialize_pdu_submit_sm-delivered,
}
use as_smpp.Smpp.Sending.{deliver_sm_response-frame}
use as_smpp.Smpp.Worker.{Locals, dispatch, dispatch_request, on_deliver, last_next, tlv_free}
use as_smpp.Smpp.Packets.{
  Body, Packet, HasArrays, IsBody, IsPacket, body_bytes, command_of, header_of, packet_bytes,
}
use as_smpp.Smpp.Serving.{links_of, handled, served_body, state_after, cost, Serves}
use as_smpp.Smpp.Cases.{
  call_handler_lem, behind_header, dispatch-IsOther, dispatch-enquiry, dispatch-bind_answer,
  dispatch-submit_answer,
}

-- Nothing is left of the parameters where they are freed.
nothing_freed : (ts : List Tlv) → tlv_free (last_next ts) ≡ 0
unfolding last_next tlv_free
nothing_freed [] = refl
nothing_freed (t ∷ ts) = nothing_freed ts

module _ (mem : Memory) (os : Platform) (locals : Locals) (supply : IsSupplied mem)
    (arrays : HasArrays locals) where
  tlvs_enough : (ts : List Tlv) → length ts ≤ length (tlv_list_bytes ts)
  unfolding tlv_list_bytes tlv_bytes big_endian
  tlvs_enough [] = omega arith
  tlvs_enough (t ∷ ts) =
      omega (arith, tlvs_enough ts, length-append (tlv_bytes t) (tlv_list_bytes ts))

  dispatch-delivery :
      (status seq : ℕ) (d : Delivery) (tlvs : List Tlv) (more : List ℕ) (w : World)
      → let body = Body.delivery d tlvs in
        let p : Packet = record { status = status; sequence_no = seq; body = body } in
        IsBody body
        → IsValid w.session.receive_buffer
        → IsValid w.session.send_buffer
        → contents w.session.receive_buffer ≡ packet_bytes p ++ more
        → w.session.send_buffer.capacity + 161 < size_mod
        → (w' : World) × (dispatch mem os locals w (header_of p) 16 ≡ ret w') × Serves locals p w w'
  unfolding served_body state_after cost IsBody body_bytes command_of dispatch dispatch_request
      on_deliver deserialize_pdu_deliver_sm
  dispatch-delivery status seq d tlvs more w ok v vs e room =
      let body = Body.delivery d tlvs in
      let p : Packet = record { status = status; sequence_no = seq; body = body } in
      let pdu = delivered d locals.request locals.request_buffers in
      let event = λ (f : ℕ). Event.deliver f seq status pdu in
      let hs = handled w.session.handler_deliver event in
      let fields = delivery_bytes d in
      let params = tlv_list_bytes tlvs in
      let here = behind_header p w.session.receive_buffer more v e in
      let r₁ =
        deserialize_pdu_submit_sm-delivered d locals.request locals.request_buffers
          w.session.receive_buffer 16 _ ok.0 arrays.request (Holds-front fields params _ here) in
      let size = length-append fields params in
      let r₂ =
        deserialize_tlv_lem mem supply tlvs (16 + length (fields ++ params)) (16 + length fields)
          (16 + length (fields ++ params)) _ ok.1 (omega (arith, size, tlvs_enough tlvs))
          (omega (arith, size)) (Holds-next fields params _ here) in
      let w₁ = emit (Event.freed_tlvs 0 ∷ []) (emit hs w) in
      let (w', r₃, once) = deliver_sm_response-frame mem os supply w₁ (header_of p) vs room in
      (
        w',
        rw (r₁, r₂, nothing_freed tlvs, call_handler_lem w.session.handler_deliver event w, r₃)
            refl,
        record {
          events =
              once.events
              ∙ append_assoc (w.trace ++ hs) (Event.freed_tlvs 0 ∷ []) _
              ∙ append_assoc w.trace hs _;
          state = ap (λ (s : Session). s.state) once.session;
          links = ap (λ (s : Session). links_of s) once.session;
          receiving = ap (λ (s : Session). s.receive_buffer) once.session;
          sending = once.valid;
          growth = once.growth;
        },
      )

  dispatch-body :
      (status seq : ℕ) (b : Body) (more : List ℕ) (w : World)
      → let p : Packet = record { status = status; sequence_no = seq; body = b } in
        IsPacket p
        → IsValid w.session.receive_buffer
        → IsValid w.session.send_buffer
        → contents w.session.receive_buffer ≡ packet_bytes p ++ more
        → w.session.send_buffer.capacity + cost b < size_mod
        → (w' : World) × (dispatch mem os locals w (header_of p) 16 ≡ ret w') × Serves locals p w w'
  unfolding cost served_body state_after command_of IsBody
  dispatch-body status seq (Body.enquiry rest) more w ok v vs e room =
      dispatch-enquiry mem os locals supply arrays status seq rest w vs room
  dispatch-body status seq (Body.bind_answer mode t rest) more w ok v vs e room =
      dispatch-bind_answer mem os locals supply arrays status seq mode t rest more w ok.fits v vs e
  dispatch-body status seq (Body.submit_answer t rest) more w ok v vs e room =
      dispatch-submit_answer mem os locals supply arrays status seq t rest more w ok.fits v vs e
  dispatch-body status seq (Body.delivery d tlvs) more w ok v vs e room =
      dispatch-delivery status seq d tlvs more w ok.fits v vs e room
  dispatch-body status seq (Body.other command_id rest) more w ok v vs e room =
      let p : Packet = record {
        status = status;
        sequence_no = seq;
        body = Body.other command_id rest;
      } in
      (
        w,
        dispatch-IsOther mem os locals (header_of p) w 16 ok.fits,
        record {
          events = sym (append-nil w.trace);
          state = refl;
          links = refl;
          receiving = refl;
          sending = vs;
          growth = omega arith;
        },
      )

  -- Where the data of a well-formed receive buffer begin with a well-formed PDU of any command, the send
  -- buffer is well formed and size_t leaves it 80 bytes for an enquire_link and 161 for a deliver_sm to
  -- grow, the thread's arrays have their sizes, and allocations succeed: the thread deals with the PDU with
  -- no access out of bounds. It has sent, called, freed and locked what the command asks for, in this
  -- order and nothing else; only an answer to a bind request changes the state; the receive buffer, the
  -- socket and the handlers are as before.
  pub dispatch-Serves :
      (p : Packet) (more : List ℕ) (w : World)
      → IsPacket p
      → IsValid w.session.receive_buffer
      → IsValid w.session.send_buffer
      → contents w.session.receive_buffer ≡ packet_bytes p ++ more
      → w.session.send_buffer.capacity + cost p.body < size_mod
      → (w' : World) × (dispatch mem os locals w (header_of p) 16 ≡ ret w') × Serves locals p w w'
  dispatch-Serves p more w = dispatch-body p.status p.sequence_no p.body more w
