-- ===== src/Smpp/Cases.antt =====
-- The cases for answers and for enquire_link of the switches in as_smpp_receive_worker of
-- src/as-smpp-core/src/smpp.c, and a PDU without a case.
use as_smpp.Prelude.{ℕ, ◌+◌, ◌<◌, ◌≡◌, refl, sym, ap, ◌∙◌, arith}
use as_smpp.Prelude.{List, [], ◌∷◌, ◌++◌, append_assoc, append-nil, ret}
use as_smpp.Prelude.{Option, none, some, drop, bit_xor}
use as_smpp.Prelude.Bits.{bit_xor_twice}
use as_smpp.Memory.{Memory, IsSupplied, size_mod}
use as_smpp.Buffer.{Buffer}
use as_smpp.Buffer.Valid.{IsValid, contents}
use as_smpp.Types
use as_smpp.Types.{CharPtr, PduHeader, Tlv}
use as_smpp.Session.{Session, SessionMode, Event, World, emit, set_state}
use as_smpp.Net.{Platform}
use as_smpp.Serializer.Spec.{Holds, Holds-contents, Holds-next}
use as_smpp.Serializer.Header.{header_bytes, length-header_bytes}
use as_smpp.Serializer.Text.{read_text}
use as_smpp.Serializer.Delivery.{}
use as_smpp.Smpp.Framing.{frame}
use as_smpp.Smpp.Sending.{enquire_link_response-frame}
use as_smpp.Smpp.Binding.{state_for, dispatch-bind_response}
use as_smpp.Smpp.Worker.{
  Locals, call_handler, dispatch, dispatch_request, dispatch_response, on_submit_response,
}
use as_smpp.Smpp.Packets.{
  Body, Packet, HasArrays, IsBody, IsOther, body_bytes, command_of, header_of, packet_bytes,
}
use as_smpp.Smpp.Serving.{
  links_of, handled, state_changed, with_text, served_body, state_after, cost, Serves,
}

pub call_handler_lem :
    (h : Option ℕ) (event : ℕ → Event) (w : World)
    → call_handler h event w ≡ emit (handled h event) w
call_handler_lem none event w = ap (λ t. record w { trace = t }) (sym (append-nil w.trace))
call_handler_lem (some f) event w = refl

-- The response to a command has that command under its flag.
response_lem :
    (command_id c : ℕ) → bit_xor command_id 0x8000_0000 ≡ c → command_id ≡ bit_xor c 0x8000_0000
response_lem command_id c e =
    sym (bit_xor_twice command_id 0x8000_0000) ∙ ap (λ k. bit_xor k 0x8000_0000) e

module _ (mem : Memory) (os : Platform) (locals : Locals) where
  pub dispatch-IsOther :
      (h : PduHeader) (w : World) (index : ℕ)
      → IsOther h.command_id
      → dispatch mem os locals w h index ≡ ret w
  unfolding dispatch dispatch_request dispatch_response
  dispatch-IsOther h w index ok =
      let c = h.command_id in
      let x = bit_xor c 0x8000_0000 in
      ground (
        arith,
        ok.not_enquire_link,
        ok.not_deliver_sm,
        λ (e : x ≡ 1). ok.not_bind_receiver_response (response_lem c 1 e),
        λ (e : x ≡ 2). ok.not_bind_transmitter_response (response_lem c 2 e),
        λ (e : x ≡ 9). ok.not_bind_transceiver_response (response_lem c 9 e),
        λ (e : x ≡ 4). ok.not_submit_sm_response (response_lem c 4 e),
      )

-- The body of a PDU at the front of the data, for a reader that stands behind the header.
pub behind_header :
    (p : Packet) (b : Buffer) (rest : List ℕ)
    → IsValid b
    → contents b ≡ packet_bytes p ++ rest
    → Holds b 16 (body_bytes p.body) (rest ++ drop b.data_len b.ptr)
unfolding packet_bytes frame
behind_header p b rest v e =
    let h = header_bytes (header_of p) in
    rw (length-header_bytes (header_of p)) at
      (Holds-next h (body_bytes p.body) _ (Holds-contents (h ++ body_bytes p.body) rest v e))

module _ (mem : Memory) (os : Platform) (locals : Locals) (supply : IsSupplied mem)
    (arrays : HasArrays locals) where
  pub dispatch-enquiry :
      (status seq : ℕ) (rest : List ℕ) (w : World)
      → let p : Packet = record { status = status; sequence_no = seq; body = Body.enquiry rest } in
        IsValid w.session.send_buffer
        → w.session.send_buffer.capacity + 80 < size_mod
        → (w' : World) × (dispatch mem os locals w (header_of p) 16 ≡ ret w') × Serves locals p w w'
  unfolding dispatch dispatch_request command_of served_body state_after cost
  dispatch-enquiry status seq rest w vs room =
      let p : Packet = record { status = status; sequence_no = seq; body = Body.enquiry rest } in
      let (w', r, once) = enquire_link_response-frame mem os supply w (header_of p) vs room in
      (
        w',
        rw r refl,
        record {
          events = once.events;
          state = ap (λ (s : Session). s.state) once.session;
          links = ap (λ (s : Session). links_of s) once.session;
          receiving = ap (λ (s : Session). s.receive_buffer) once.session;
          sending = once.valid;
          growth = once.growth;
        },
      )

  pub dispatch-bind_answer :
      (status seq : ℕ) (mode : SessionMode) (system_id rest more : List ℕ) (w : World)
      → let body = Body.bind_answer mode system_id rest in
        let p : Packet = record { status = status; sequence_no = seq; body = body } in
        IsBody body
        → IsValid w.session.receive_buffer
        → IsValid w.session.send_buffer
        → contents w.session.receive_buffer ≡ packet_bytes p ++ more
        → (w' : World) × (dispatch mem os locals w (header_of p) 16 ≡ ret w') × Serves locals p w w'
  unfolding served_body state_after cost IsBody packet_bytes frame body_bytes command_of set_state
  dispatch-bind_answer status seq mode system_id rest more w ok v vs e =
      let body = Body.bind_answer mode system_id rest in
      let p : Packet = record { status = status; sequence_no = seq; body = body } in
      let event = λ (f : ℕ). Event.bind_response f seq status in
      let hs = handled w.session.handler_bind_response event in
      let text = system_id ++ (0 ∷ []) in
      let r =
        dispatch-bind_response mem os locals mode (header_of p) w system_id (rest ++ more) refl v
          (e
            ∙ append_assoc (header_bytes (header_of p)) (text ++ rest) more
            ∙ ap (λ t. header_bytes (header_of p) ++ t) (append_assoc text rest more))
          ok.0 (omega (arith, ok.1, arrays.system_id)) in
      let w' = set_state (emit hs w) (state_for mode) in
      (
        w',
        r
            ∙ ap (λ t. ret (set_state t (state_for mode)))
                (call_handler_lem w.session.handler_bind_response event w),
        record {
          events = append_assoc w.trace hs state_changed;
          state = refl;
          links = refl;
          receiving = refl;
          sending = vs;
          growth = omega arith;
        },
      )

  pub dispatch-submit_answer :
      (status seq : ℕ) (message_id rest more : List ℕ) (w : World)
      → let body = Body.submit_answer message_id rest in
        let p : Packet = record { status = status; sequence_no = seq; body = body } in
        IsBody body
        → IsValid w.session.receive_buffer
        → IsValid w.session.send_buffer
        → contents w.session.receive_buffer ≡ packet_bytes p ++ more
        → (w' : World) × (dispatch mem os locals w (header_of p) 16 ≡ ret w') × Serves locals p w w'
  unfolding served_body state_after cost IsBody body_bytes command_of dispatch dispatch_response
      on_submit_response
  dispatch-submit_answer status seq message_id rest more w ok v vs e =
      let body = Body.submit_answer message_id rest in
      let p : Packet = record { status = status; sequence_no = seq; body = body } in
      let event =
        λ (f : ℕ). Event.submit_response f seq status (with_text message_id locals.message_id) in
      let here = behind_header p w.session.receive_buffer more v e in
      let (r, _) =
        read_text message_id locals.message_id Types.length_message_id rest _ ok.0
          (omega (arith, ok.1, arrays.message_id)) here in
      (
        emit (handled w.session.handler_submit_response event) w,
        rw r (ap ret (call_handler_lem w.session.handler_submit_response event w)),
        record {
          events = refl;
          state = refl;
          links = refl;
          receiving = refl;
          sending = vs;
          growth = omega arith;
        },
      )
