-- ===== src/Smpp/Draining.antt =====
-- The loop over the received PDUs in as_smpp_receive_worker of src/as-smpp-core/src/smpp.c, on PDUs of
-- every kind.
use as_smpp.Prelude.{ℕ, zero, suc, ◌+◌, ◌≤◌, ◌<◌, ◌≡◌, refl, sym, ap, ◌∙◌, arith}
use as_smpp.Prelude.{List, [], ◌∷◌, ◌++◌, append_assoc, append-nil, ret, length, All}
use mathlib.Core.Path.{ap₂}
use as_smpp.Memory.{Memory, IsSupplied, size_mod}
use as_smpp.Buffer.Valid.{IsValid, contents}
use as_smpp.Types.{PduHeader}
use as_smpp.Session.{SessionState, Event, World, with_session}
use as_smpp.Net.{Platform}
use as_smpp.Serializer.Header.{header_bytes}
use as_smpp.Smpp.Framing.{frame}
use as_smpp.Smpp.Worker.{Locals, drain}
use as_smpp.Smpp.Receiving.{drain_step, drain-Incomplete, Incomplete}
use as_smpp.Smpp.Packets.{
  Packet, HasArrays, IsPacket, body_bytes, header_of, header_of-IsHeader, packet_bytes, stream,
}
use as_smpp.Smpp.Serving.{Links, links_of, served, state_after, cost}
use as_smpp.Smpp.Dispatching.{dispatch-Serves}

-- What is done for some PDUs, in their order.
unfoldable pub served_all : Locals → Links → List Packet → List Event
served_all locals k [] = []
served_all locals k (p ∷ ps) = served locals k p ++ served_all locals k ps

unfoldable pub state_after_all : SessionState → List Packet → SessionState
state_after_all s [] = s
state_after_all s (p ∷ ps) = state_after_all (state_after s p.body) ps

unfoldable pub costs : List Packet → ℕ
costs [] = 0
costs (p ∷ ps) = cost p.body + costs ps

-- `w'` is `w` after the thread has dealt with `ps`, in this order, and taken them off the receive
-- buffer, which has `q` left; both buffers are well formed.
pub record ServesAll (locals : Locals) (ps : List Packet) (q : List ℕ) (w w' : World) : Type 0 where
  pub events : w'.trace ≡ w.trace ++ served_all locals (links_of w.session) ps
  pub left : contents w'.session.receive_buffer ≡ q
  pub state : w'.session.state ≡ state_after_all w.session.state ps
  pub links : links_of w'.session ≡ links_of w.session
  pub receiving : IsValid w'.session.receive_buffer
  pub sending : IsValid w'.session.send_buffer
  pub growth_receiving : w'.session.receive_buffer.capacity ≡ w.session.receive_buffer.capacity
  pub growth_sending : w'.session.send_buffer.capacity ≤ w.session.send_buffer.capacity + costs ps

module _ (mem : Memory) (os : Platform) (locals : Locals) (supply : IsSupplied mem)
    (arrays : HasArrays locals) where
  -- Where a well-formed receive buffer holds any number of well-formed PDUs of any commands, one behind the
  -- other, and then less than a whole PDU, the send buffer is well formed and size_t leaves it 80 bytes
  -- for each enquire_link and 161 for each deliver_sm to grow, the thread's arrays have their sizes, and
  -- allocations succeed: the loop over the received PDUs ends, for any fuel of more rounds than there are
  -- PDUs, and leaves in the buffer what stood behind them. What was seen of it is what the PDUs ask for,
  -- each dealt with once and in their order; the state is the one that the last answer to a bind request
  -- left; socket and handlers are as before, and both buffers are well formed.
  pub drain-stream :
      (ps : List Packet) (q : List ℕ) (fuel : ℕ) (old : PduHeader) (w : World)
      → All IsPacket ps
      → length ps < fuel
      → IsValid w.session.receive_buffer
      → IsValid w.session.send_buffer
      → w.session.send_buffer.capacity + costs ps < size_mod
      → contents w.session.receive_buffer ≡ stream ps ++ q
      → Incomplete q
      → (last : PduHeader) × (w' : World) × (drain mem os locals fuel old w ≡ ret (last, w'))
        × ServesAll locals ps q w w'
  unfolding stream served_all state_after_all costs packet_bytes frame
  drain-stream ps q zero old w ok enough vr vs room e part = absurd (omega arith)
  drain-stream [] q (suc fuel) old w ok enough vr vs room e part =
      let (last, r) = drain-Incomplete mem os locals fuel old w q vr e part in
      (
        last,
        w,
        r,
        record {
          events = sym (append-nil w.trace);
          left = e;
          state = refl;
          links = refl;
          receiving = vr;
          sending = vs;
          growth_receiving = refl;
          growth_sending = omega arith;
        },
      )
  drain-stream (p ∷ ps) q (suc fuel) old w ok enough vr vs room e part =
      let h = header_of p in
      let body = body_bytes p.body in
      let apart = e ∙ append_assoc (packet_bytes p) (stream ps) q in
      let (w₁, r, once) =
        dispatch-Serves mem os locals supply arrays p (stream ps ++ q) w ok.0 vr vs apart
          (omega arith) in
      let (b, step, vb, left, cap) =
        drain_step mem os locals fuel old h w w₁ body (stream ps ++ q) (header_of-IsHeader p ok.0)
          refl vr (apart ∙ append_assoc (header_bytes h) body (stream ps ++ q)) r once.receiving in
      let w₂ = let s = w₁.session in with_session (record s { receive_buffer = b }) w₁ in
      let (last, w', rest, done) =
        drain-stream ps q fuel h w₂ ok.1 (omega arith) vb once.sending (omega (arith, once.growth))
          left part in
      (
        last,
        w',
        step ∙ rest,
        record {
          events =
              done.events
              ∙ ap₂ (λ t k. t ++ served_all locals k ps) once.events once.links
              ∙ append_assoc w.trace _ (served_all locals (links_of w.session) ps);
          left = done.left;
          state = done.state ∙ ap (λ s. state_after_all s ps) once.state;
          links = done.links ∙ once.links;
          receiving = done.receiving;
          sending = done.sending;
          growth_receiving = done.growth_receiving ∙ cap;
          growth_sending = omega (arith, done.growth_sending, once.growth);
        },
      )
