-- ===== src/Smpp/Reassembly.antt =====
-- as_smpp_receive_worker of src/as-smpp-core/src/smpp.c on PDUs that arrive in pieces.
use as_smpp.Prelude.{ℕ, ◌+◌, ◌*◌, ◌<◌, ◌≡◌, refl, sym, ap, ◌∙◌, arith}
use as_smpp.Prelude.{List, [], ◌∷◌, ◌++◌, append_assoc, ret, length, length-append, All}
use as_smpp.Prelude.{take, drop, take-append, ◌==◌, false, replicate, length-replicate, length-drop}
use mathlib.Core.Path.{ap₂}
use as_smpp.Memory.{Memory, IsSupplied, size_mod}
use as_smpp.Buffer.{Buffer}
use as_smpp.Buffer.Cells.{copy_in_lem}
use as_smpp.Buffer.Valid.{IsValid, contents}
use as_smpp.Types.{ErrorCode, PduHeader}
use as_smpp.Session.{SessionState, Event, World, with_session, set_state}
use as_smpp.Net.{Platform, net_receive}
use as_smpp.Serializer.RoundTrip.{copy_lem}
use as_smpp.Smpp.Worker.{Locals, receive_loop, receive_worker}
use as_smpp.Smpp.Receiving.{Incomplete}
use as_smpp.Smpp.Packets.{Packet, HasArrays, IsPacket, packet_bytes, stream, length-packet_bytes}
use as_smpp.Smpp.Serving.{Links, links_of, served, state_changed}
use as_smpp.Smpp.Draining.{served_all, costs, drain-stream}
use as_smpp.Smpp.Stream.{joined, IsChunk, IsShort, cut_lem, part-Incomplete}

-- The thread's array with a chunk at its front.
abbrev pub received : Buffer → List ℕ → Buffer
received local chunk = record local {
  ptr = chunk ++ drop (length chunk) local.ptr;
  data_len = length chunk;
}

pub net_receive-chunk :
    (local : Buffer) (chunk : List ℕ)
    → length local.ptr ≡ 1024
    → IsChunk chunk
    → net_receive chunk local ≡ ret (ErrorCode.none, received local chunk)
unfolding net_receive
net_receive-chunk local chunk size ok =
    let some : (length chunk == 0) ≡ false = ground (arith, ok.0) in
    rw (some, copy_in_lem local.ptr 0 chunk (omega (arith, size, ok.1)))
      (ap
        (λ k. ret (
          ErrorCode.none,
          record local { ptr = chunk ++ drop k local.ptr; data_len = length chunk },
        ))
        (omega arith))

served_all-append :
    (locals : Locals) (k : Links) (xs ys : List Packet)
    → served_all locals k (xs ++ ys) ≡ served_all locals k xs ++ served_all locals k ys
unfolding served_all
served_all-append locals k [] ys = refl
served_all-append locals k (x ∷ xs) ys =
    let one = served locals k x in
    ap (λ t. one ++ t) (served_all-append locals k xs ys)
    ∙ sym (append_assoc one (served_all locals k xs) (served_all locals k ys))

costs-append : (xs ys : List Packet) → costs (xs ++ ys) ≡ costs xs + costs ys
unfolding costs
costs-append [] ys = omega arith
costs-append (x ∷ xs) ys = omega (arith, costs-append xs ys)

All-append : (P : Packet → Type 0) (xs ys : List Packet) → All P (xs ++ ys) → All P xs × All P ys
All-append P [] ys a = (tt, a)
All-append P (x ∷ xs) ys a = let (l, r) = All-append P xs ys a.1 in ((a.0, l), r)

-- What is done for some PDUs and then for the rest, and the end: the thread closes the session.
trace_lem :
    (locals : Locals) (k k₁ : Links) (t t₁ t' : List Event) (xs ys ps : List Packet)
    → ps ≡ xs ++ ys
    → t₁ ≡ t ++ served_all locals k xs
    → k₁ ≡ k
    → t' ≡ t₁ ++ (served_all locals k₁ ys ++ state_changed)
    → t' ≡ t ++ (served_all locals k ps ++ state_changed)
trace_lem locals k k₁ t t₁ t' xs ys ps split first same next =
    let done = λ (ps : List Packet). served_all locals k ps in
    next
    ∙ ap₂ (λ t k. t ++ (served_all locals k ys ++ state_changed)) first same
    ∙ append_assoc t (done xs) (done ys ++ state_changed)
    ∙ ap (λ a. t ++ a)
        (sym (append_assoc (done xs) (done ys) state_changed)
          ∙ ap (λ a. a ++ state_changed)
              (sym (served_all-append locals k xs ys) ∙ ap done (sym split)))

pub receive_loop-end :
    (mem : Memory) (os : Platform) (locals : Locals) (fuel : ℕ) (local : Buffer)
    (header : PduHeader) (w : World)
    → receive_loop mem os locals fuel local header w [] ≡ ret (set_state w SessionState.closed)
unfolding receive_loop net_receive
receive_loop-end mem os locals fuel local header w = refl

module _ (mem : Memory) (os : Platform) (locals : Locals) (supply : IsSupplied mem)
    (arrays : HasArrays locals) where
  receive_loop-stream :
      (chunks : List (List ℕ)) (ps : List Packet) (q part : List ℕ) (fuel : ℕ) (local : Buffer)
      (header : PduHeader) (w : World)
      → All IsPacket ps
      → All IsChunk chunks
      → part ++ joined chunks ≡ stream ps ++ q
      → Incomplete q
      → IsShort part ps
      → length ps < fuel
      → length local.ptr ≡ 1024
      → IsValid w.session.receive_buffer
      → IsValid w.session.send_buffer
      → contents w.session.receive_buffer ≡ part
      → w.session.receive_buffer.capacity + 17 * length (joined chunks) < size_mod
      → w.session.send_buffer.capacity + costs ps < size_mod
      → (w' : World) × (receive_loop mem os locals fuel local header w chunks ≡ ret w')
        × (w'.trace ≡ w.trace ++ (served_all locals (links_of w.session) ps ++ state_changed))
        × (w'.session.state ≡ SessionState.closed)
  unfolding joined stream served_all receive_loop set_state
  receive_loop-stream [] [] q part fuel local header w fine ok e last less enough size vr vs held
        room sending =
      (
        set_state w SessionState.closed,
        receive_loop-end mem os locals fuel local header w,
        refl,
        refl,
      )
  receive_loop-stream [] (p ∷ ps) q part fuel local header w fine ok e last less enough size vr vs
        held room sending =
      absurd (
        omega (
          arith,
          ap length e,
          length-append part [],
          length-append (packet_bytes p ++ stream ps) q,
          length-append (packet_bytes p) (stream ps),
        ))
  receive_loop-stream (c ∷ cs) ps q part fuel local header w fine ok e last less enough size vr vs
        held room sending =
      let s = w.session in
      let local' = received local c in
      let read = net_receive-chunk local c size ok.0 in
      let more = length-append c (joined cs) in
      let back = length-append c (drop (length c) local.ptr) in
      let (b, copied, vb, holds, growth) =
        copy_lem mem supply s.receive_buffer local'.ptr (length c) (omega (arith, back)) vr
          (omega (arith, more, ok.0.0)) in
      let w₁ = with_session (record s { receive_buffer = b }) w in
      let cut = cut_lem ps q (part ++ c) (joined cs) (append_assoc part c (joined cs) ∙ e) in
      let (fine₁, fine₂) = All-append IsPacket cut.whole cut.todo (rw cut.split at fine) in
      let count : length ps ≡ length cut.whole + length cut.todo =
        ap length cut.split ∙ length-append cut.whole cut.todo in
      let total : costs ps ≡ costs cut.whole + costs cut.todo =
        ap costs cut.split ∙ costs-append cut.whole cut.todo in
      let now : contents b ≡ stream cut.whole ++ cut.part =
        holds ∙ ap₂ (λ s t. s ++ t) held (take-append c _ (length c) refl) ∙ cut.front in
      let (old, w₂, drained, done) =
        drain-stream mem os locals supply arrays cut.whole cut.part fuel header w₁ fine₁
          (omega (arith, count)) vb vs (omega (arith, total)) now
          (part-Incomplete cut.todo cut.part (joined cs) q fine₂ cut.behind cut.less last) in
      let (w', rest, events, closed) =
        receive_loop-stream cs cut.todo q cut.part fuel local' old w₂ fine₂ ok.1 cut.behind last
          cut.less (omega (arith, count))
          (omega (arith, back, length-drop (length c) local.ptr, size, ok.0.1)) done.receiving
          done.sending done.left (omega (arith, done.growth_receiving, growth, more, ok.0.0))
          (omega (arith, done.growth_sending, total)) in
      (
        w',
        rw (read, receive_loop) (rw (copied, drained) rest),
        trace_lem locals (links_of s) (links_of w₂.session) w.trace w₂.trace w'.trace cut.whole
            cut.todo ps cut.split done.events done.links events,
        closed,
      )

  -- The connection delivers any number of well-formed PDUs of any commands and then less than a whole one,
  -- cut anywhere into chunks of 1 to 1024 bytes, and then ends. Where the receive buffer is empty, both
  -- buffers are well formed, size_t leaves the receive buffer 17 bytes for each byte received and the send
  -- buffer 80 for each enquire_link and 161 for each deliver_sm to grow, the thread's arrays have their
  -- sizes, allocations succeed, and the fuel is more than the number of PDUs: the receiving thread ends.
  -- What was seen of it is what the PDUs ask for, each dealt with once and in their order, and then that
  -- the session was closed, however the stream was cut: an enquire_link is answered with its number, a
  -- deliver_sm is handed to its handler with its fields, frees no parameters and is answered, an answer
  -- to a bind request or to a message is handed to its handler, the former changes the state, and a PDU of
  -- another command does nothing.
  pub receive_worker-stream :
      (chunks : List (List ℕ)) (ps : List Packet) (q : List ℕ) (fuel : ℕ) (w : World)
      → All IsChunk chunks
      → All IsPacket ps
      → joined chunks ≡ stream ps ++ q
      → Incomplete q
      → length ps < fuel
      → IsValid w.session.receive_buffer
      → IsValid w.session.send_buffer
      → w.session.receive_buffer.data_len ≡ 0
      → w.session.receive_buffer.capacity + 17 * length (joined chunks) < size_mod
      → w.session.send_buffer.capacity + costs ps < size_mod
      → (w' : World) × (receive_worker mem os locals fuel w chunks ≡ ret w')
        × (w'.trace ≡ w.trace ++ (served_all locals (links_of w.session) ps ++ state_changed))
        × (w'.session.state ≡ SessionState.closed)
  unfolding receive_worker
  receive_worker-stream chunks ps q fuel w ok fine e last enough vr vs none room sending =
      let local : Buffer = record { ptr = replicate 1024 0; data_len = 0; capacity = 1024 } in
      let empty : contents w.session.receive_buffer ≡ [] =
        ap (λ k. take k w.session.receive_buffer.ptr) none in
      receive_loop-stream chunks ps q [] fuel local locals.header w fine ok e last (nothing ps)
        enough (length-replicate {A = ℕ} 1024 0) vr vs empty room sending
    where
      nothing : (ps : List Packet) → IsShort [] ps
      nothing [] = tt
      nothing (p ∷ ps) = omega (arith, length-packet_bytes p)
