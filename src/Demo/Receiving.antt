-- ===== src/Demo/Receiving.antt =====
-- What src/_as-smpp-demo/_as-smpp-demo.c prints for the PDUs that a peer sends.
use as_smpp.Prelude.{ℕ, ◌+◌, ◌*◌, ◌<◌, ◌≡◌, refl, ap, ◌∙◌, arith, some}
use as_smpp.Prelude.{
  List, [], ◌∷◌, ◌++◌, append_assoc, append-nil, sym, ret_injective, bind_returns, ret, length, All,
}
use as_smpp.Prelude.{length-append, drop, length-drop}
use as_smpp.Memory.{Memory, IsSupplied, size_mod}
use as_smpp.Buffer.Valid.{IsValid}
use as_smpp.Session.{Event, World}
use as_smpp.Net.{Platform}
use as_smpp.Converter.{init}
use as_smpp.Converter.Decoding.{decode}
use as_smpp.Serializer.Delivery.{delivered}
use as_smpp.Smpp.Worker.{Locals, receive_worker}
use as_smpp.Smpp.Receiving.{Incomplete}
use as_smpp.Smpp.Packets.{Body, Packet, HasArrays, IsBody, IsPacket, stream}
use as_smpp.Smpp.Serving.{Links, links_of, served, served_body, state_changed}
use as_smpp.Smpp.Draining.{served_all, costs}
use as_smpp.Smpp.Stream.{joined, IsChunk}
use as_smpp.Smpp.Reassembly.{receive_worker-stream}
use as_smpp.Demo.{Line, called, printed_all, handle_bind_response, handle_submit_response}
use as_smpp.Demo.Printing.{before_zero, dump_of, handle_deliver_lem, printed_lem}

-- The lines for a PDU.
unfoldable pub lines_of : ℕ → ℕ → Body → List Line
lines_of status sequence_no (Body.bind_answer mode system_id rest) =
    Line.bind_response sequence_no status ∷ []
lines_of status sequence_no (Body.submit_answer message_id rest) =
    Line.submit_response sequence_no status message_id ∷ []
lines_of status sequence_no (Body.delivery d tlvs) =
    Line.deliver sequence_no status
    ∷ Line.dump (dump_of d.text)
    ∷ Line.message (before_zero (decode init d.text))
    ∷ []
lines_of status sequence_no _ = []

unfoldable pub lines_of_all : List Packet → List Line
lines_of_all [] = []
lines_of_all (p ∷ ps) = lines_of p.status p.sequence_no p.body ++ lines_of_all ps

-- A session with the three handlers of main.
abbrev pub all_set : ℕ → Links
all_set socket = record {
  socket = socket;
  bind_response = some 1;
  submit_response = some 2;
  deliver = some 3;
}

module _ (mem : Memory) (supply : IsSupplied mem) (locals : Locals)
    (arrays : HasArrays locals) where
  printed_all-append :
      (xs ys : List Event) (a b : List Line)
      → printed_all mem init xs ≡ ret a
      → printed_all mem init ys ≡ ret b
      → printed_all mem init (xs ++ ys) ≡ ret (a ++ b)
  unfolding printed_all
  printed_all-append [] ys a b e f = f ∙ ap (λ t. ret (t ++ b)) (ret_injective e)
  printed_all-append (x ∷ xs) ys a b e f =
      let (lines, first, rest) = bind_returns (called mem init x) _ a e in
      let (more, next, whole) = bind_returns (printed_all mem init xs) _ a rest in
      rw (first, printed_all-append xs ys more b next f)
        (ap ret (sym (append_assoc lines more b)) ∙ ap (λ t. ret (t ++ b)) (ret_injective whole))

  printed_all-lines_of :
      (socket status seq : ℕ) (b : Body)
      → IsBody b
      → printed_all mem init (served_body locals (all_set socket) status seq b)
        ≡ ret (lines_of status seq b)
  unfolding printed_all called served_body lines_of IsBody handle_bind_response
      handle_submit_response delivered
  printed_all-lines_of socket status seq (Body.enquiry rest) ok = refl
  printed_all-lines_of socket status seq (Body.bind_answer mode t rest) ok = refl
  printed_all-lines_of socket status seq (Body.submit_answer t rest) ok =
      rw (printed_lem t (drop (length t + 1) locals.message_id) ok.0) refl
  printed_all-lines_of socket status seq (Body.delivery d tlvs) ok =
      let after = 0 ∷ drop (length d.text + 1) locals.request_buffers.message in
      let shown =
        handle_deliver_lem mem supply seq status d.text after
          (delivered d locals.request locals.request_buffers) refl refl
          (omega (
            arith,
            length-append d.text after,
            length-drop (length d.text + 1) locals.request_buffers.message,
            arrays.request.message,
            ok.0.short,
          )) in
      rw shown refl
  printed_all-lines_of socket status seq (Body.other id rest) ok = refl

  served_all-lines_of_all :
      (socket : ℕ) (ps : List Packet)
      → All IsPacket ps
      → printed_all mem init (served_all locals (all_set socket) ps) ≡ ret (lines_of_all ps)
  unfolding printed_all served_all lines_of_all
  served_all-lines_of_all socket [] ok = refl
  served_all-lines_of_all socket (p ∷ ps) ok =
      printed_all-append (served locals (all_set socket) p) (served_all locals (all_set socket) ps)
        _ _ (printed_all-lines_of socket p.status p.sequence_no p.body ok.0.fits)
        (served_all-lines_of_all socket ps ok.1)

  -- For a session whose handlers are those of the demo, on a connection that delivers any number of
  -- well-formed PDUs of any commands and then less than a whole one, cut anywhere into chunks of 1 to 1024
  -- bytes, and then ends. Where the receive buffer is empty, both buffers are well formed, size_t leaves the
  -- receive buffer 17 bytes for each byte received and the send buffer 80 for each enquire_link and 161 for
  -- each deliver_sm to grow, the thread's arrays have their sizes, allocations succeed, and the fuel is more
  -- than the number of PDUs: the receiving thread ends, and for what was seen of it the handlers return with
  -- no access out of bounds. They have printed, in the order of the PDUs: the number and the status of each
  -- answer to a bind request or a message, the latter with its message id, and of each deliver_sm, with a
  -- dump of its message and the text that it is decoded to, up to the first zero; and nothing else.
  pub receive_worker-lines_of_all :
      (os : Platform) (chunks : List (List ℕ)) (ps : List Packet) (q : List ℕ) (fuel : ℕ)
      (w : World)
      → w.session.handler_bind_response ≡ some 1
      → w.session.handler_submit_response ≡ some 2
      → w.session.handler_deliver ≡ some 3
      → All IsChunk chunks
      → All IsPacket ps
      → joined chunks ≡ stream ps ++ q
      → Incomplete q
      → length ps < fuel
      → IsValid w.session.receive_buffer
      → IsValid w.session.send_buffer
      → w.session.receive_buffer.data_len ≡ 0
      → w.session.receive_buffer.capacity + 17 * length (joined chunks) < size_mod
      → w.session.send_buffer.capacity + costs ps < size_mod
      → (w' : World) × (events : List Event) × (receive_worker mem os locals fuel w chunks ≡ ret w')
        × (w'.trace ≡ w.trace ++ events)
        × (printed_all mem init events ≡ ret (lines_of_all ps))
  unfolding printed_all called
  receive_worker-lines_of_all os chunks ps q fuel w h₁ h₂ h₃ ok fine e last enough vr vs unused room
        sending =
      let socket = w.session.socket_handle in
      let k = all_set socket in
      let set : links_of w.session ≡ k = rw (h₁, h₂, h₃) refl in
      let (w', runs, events, _) =
        receive_worker-stream mem os locals supply arrays chunks ps q fuel w ok fine e last enough
          vr vs unused room sending in
      (
        w',
        served_all locals k ps ++ state_changed,
        runs,
        events ∙ ap (λ k. w.trace ++ (served_all locals k ps ++ state_changed)) set,
        printed_all-append (served_all locals k ps) state_changed (lines_of_all ps) []
              (served_all-lines_of_all socket ps fine) refl
            ∙ ap ret (append-nil (lines_of_all ps)),
      )
