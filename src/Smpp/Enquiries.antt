-- ===== src/Smpp/Enquiries.antt =====
-- The receiving thread of src/as-smpp-core/src/smpp.c on enquire_link requests alone.
use as_smpp.Prelude.{ℕ, suc, ◌+◌, ◌*◌, ◌^◌, ◌<◌, ◌≡◌, refl, sym, ap, ◌∙◌, arith}
use as_smpp.Prelude.{List, [], ◌∷◌, ◌++◌, append-nil, ret, length, All}
use as_smpp.Memory.{Memory, IsSupplied, size_mod}
use as_smpp.Buffer.Valid.{IsValid, contents}
use as_smpp.Types
use as_smpp.Types.{PduHeader}
use as_smpp.Session.{SessionState, Event, World}
use as_smpp.Net.{Platform}
use as_smpp.Serializer.Spec.{big_endian}
use as_smpp.Serializer.Header.{header_bytes}
use as_smpp.Smpp.Framing.{frame}
use as_smpp.Smpp.Worker.{Locals, drain, receive_worker}
use as_smpp.Smpp.Receiving.{Incomplete, short}
use as_smpp.Smpp.Packets.{
  Body, Packet, HasArrays, IsPacket, IsBody, body_bytes, command_of, packet_bytes, stream,
}
use as_smpp.Smpp.Serving.{Links, links_of, answered, cost, served_body, state_changed}
use as_smpp.Smpp.Draining.{served_all, costs, drain-stream}
use as_smpp.Smpp.Stream.{joined, IsChunk}
use as_smpp.Smpp.Reassembly.{receive_worker-stream}

-- The bytes of the requests with these sequence numbers, and the calls that answer them.
unfoldable pub enquiries : List ℕ → List ℕ
enquiries [] = []
enquiries (seq ∷ seqs) = frame Types.enquire_link_id 0 seq [] ++ enquiries seqs

unfoldable pub answers : ℕ → List ℕ → List Event
answers socket [] = []
answers socket (seq ∷ seqs) = answered socket seq [] ++ answers socket seqs

-- The requests as PDUs.
abbrev enquiry : ℕ → Packet
enquiry seq = record { status = 0; sequence_no = seq; body = Body.enquiry [] }

requests : List ℕ → List Packet
requests [] = []
requests (seq ∷ seqs) = enquiry seq ∷ requests seqs

enquiry-IsPacket : (seq : ℕ) → seq < 2 ^ 32 → IsPacket (enquiry seq)
unfolding IsBody body_bytes
enquiry-IsPacket seq h = record {
  status = omega arith;
  sequence_no = h;
  fits = tt;
  short = omega arith;
}

requests-IsPacket : (seqs : List ℕ) → All (λ seq. seq < 2 ^ 32) seqs → All IsPacket (requests seqs)
unfolding requests
requests-IsPacket [] h = tt
requests-IsPacket (seq ∷ seqs) h = (enquiry-IsPacket seq h.0, requests-IsPacket seqs h.1)

stream-requests : (seqs : List ℕ) → stream (requests seqs) ≡ enquiries seqs
unfolding requests stream enquiries packet_bytes command_of body_bytes
stream-requests [] = refl
stream-requests (seq ∷ seqs) =
    ap (λ t. frame Types.enquire_link_id 0 seq [] ++ t) (stream-requests seqs)

served_all-requests :
    (locals : Locals) (k : Links) (seqs : List ℕ)
    → served_all locals k (requests seqs) ≡ answers k.socket seqs
unfolding requests served_all answers served_body
served_all-requests locals k [] = refl
served_all-requests locals k (seq ∷ seqs) =
    ap (λ t. answered k.socket seq [] ++ t) (served_all-requests locals k seqs)

length-requests : (seqs : List ℕ) → length (requests seqs) ≡ length seqs
unfolding requests
length-requests [] = refl
length-requests (seq ∷ seqs) = ap suc (length-requests seqs)

costs-requests : (seqs : List ℕ) → costs (requests seqs) ≡ 80 * length seqs
unfolding requests costs cost
costs-requests [] = refl
costs-requests (seq ∷ seqs) = omega (arith, costs-requests seqs)

length-enquiries : (seqs : List ℕ) → length (enquiries seqs) ≡ 16 * length seqs
unfolding enquiries frame header_bytes big_endian
length-enquiries [] = refl
length-enquiries (seq ∷ seqs) = omega (arith, length-enquiries seqs)

module _ (mem : Memory) (os : Platform) (locals : Locals) (supply : IsSupplied mem)
    (arrays : HasArrays locals) where
  -- Any number of requests and then less than a whole PDU: the loop over the received PDUs answers each
  -- request once, in their order and with its own number, and leaves what stood behind them.
  drain-enquiries :
      (seqs : List ℕ) (q : List ℕ) (fuel : ℕ) (old : PduHeader) (w : World)
      → All (λ seq. seq < 2 ^ 32) seqs
      → length seqs < fuel
      → IsValid w.session.receive_buffer
      → IsValid w.session.send_buffer
      → w.session.send_buffer.capacity + 80 * length seqs < size_mod
      → contents w.session.receive_buffer ≡ enquiries seqs ++ q
      → Incomplete q
      → (last : PduHeader) × (w' : World) × (drain mem os locals fuel old w ≡ ret (last, w'))
        × (w'.trace ≡ w.trace ++ answers w.session.socket_handle seqs)
        × (contents w'.session.receive_buffer ≡ q)
  drain-enquiries seqs q fuel old w small enough vr vs room e part =
      let count = length-requests seqs in
      let (last, w', r, done) =
        drain-stream mem os locals supply arrays (requests seqs) q fuel old w
          (requests-IsPacket seqs small) (omega (arith, count)) vr vs
          (omega (arith, costs-requests seqs)) (e ∙ ap (λ t. t ++ q) (sym (stream-requests seqs)))
          part in
      (
        last,
        w',
        r,
        done.events ∙ ap (λ t. w.trace ++ t) (served_all-requests locals (links_of w.session) seqs),
        done.left,
      )

  -- A connection that delivers any number of requests, cut anywhere into chunks, and then ends: each
  -- request was answered once, in their order and with its own number, then the session was closed.
  receive_worker-enquiries :
      (chunks : List (List ℕ)) (seqs : List ℕ) (fuel : ℕ) (w : World)
      → All IsChunk chunks
      → All (λ seq. seq < 2 ^ 32) seqs
      → joined chunks ≡ enquiries seqs
      → length seqs < fuel
      → IsValid w.session.receive_buffer
      → IsValid w.session.send_buffer
      → w.session.receive_buffer.data_len ≡ 0
      → w.session.receive_buffer.capacity + 272 * length seqs < size_mod
      → w.session.send_buffer.capacity + 80 * length seqs < size_mod
      → (w' : World) × (receive_worker mem os locals fuel w chunks ≡ ret w')
        × (w'.trace ≡ w.trace ++ (answers w.session.socket_handle seqs ++ state_changed))
        × (w'.session.state ≡ SessionState.closed)
  receive_worker-enquiries chunks seqs fuel w ok small e enough vr vs none room sending =
      let count = length-requests seqs in
      let (w', r, events, closed) =
        receive_worker-stream mem os locals supply arrays chunks (requests seqs) [] fuel w ok
          (requests-IsPacket seqs small)
          (e ∙ sym (stream-requests seqs) ∙ sym (append-nil (stream (requests seqs))))
          (short (omega arith)) (omega (arith, count)) vr vs none
          (omega (arith, ap length e, length-enquiries seqs))
          (omega (arith, costs-requests seqs)) in
      (
        w',
        r,
        events
            ∙ ap (λ t. w.trace ++ (t ++ state_changed))
                (served_all-requests locals (links_of w.session) seqs),
        closed,
      )
