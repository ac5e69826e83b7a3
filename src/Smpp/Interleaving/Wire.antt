-- ===== src/Smpp/Interleaving/Wire.antt =====
-- What reaches the socket from interleaved calls.
use as_smpp.Prelude.{ℕ, ◌+◌, ◌*◌, ◌≤◌, ◌<◌, ◌≡◌, refl, sym, ap, ◌∙◌, arith, none, some}
use as_smpp.Prelude.{List, [], ◌∷◌, ◌++◌, append_assoc, append-nil, All, length, ret, ret_injective}
use mathlib.Core.Path.{subst}
use as_smpp.Prelude.{◌==◌, ==_iff, Bool-cases, inl, inr}
use as_smpp.Memory.{Memory, IsSupplied, size_mod}
use as_smpp.Buffer.{Buffer}
use as_smpp.Buffer.Valid.{IsValid, contents}
use as_smpp.Types.{CharPtr, PduHeader}
use as_smpp.Session.{Session, Event, World, locked, unlocked, send_mutex}
use as_smpp.Net.{Platform}
use as_smpp.Serializer.Address.{address_of}
use as_smpp.Serializer.Submit.{Message, IsMessage}
use as_smpp.Smpp.{get_sequence_no}
use as_smpp.Smpp.Framing.{frame}
use as_smpp.Smpp.Sending.{
  SentOnce, submit_sm-frame, enquire_link_response-frame, deliver_sm_response-frame,
}
use as_smpp.Smpp.BindFrame.{Login, IsLogin, Shows, bind-frame}
use as_smpp.Smpp.Interleaving.{
  SendCall, Config, Steps, submit, answer_enquiry, answer_delivery, request_bind, perform,
  perform_all,
}
use as_smpp.Smpp.Interleaving.Order.{IsIdle, pending, calls_of}
use as_smpp.Smpp.Interleaving.Serial.{calls_made, count}

-- A call whose parts fit their fields.
pub data IsSendable : SendCall → Type 0 where
  message :
      (m : Message) (after_type after_source after_destination : List ℕ) (text : Buffer)
      → IsMessage m
      → text.data_len ≤ length text.ptr
      → contents text ≡ m.text
      → IsSendable (
          submit
            (some (m.service_type ++ (0 ∷ after_type)))
            (address_of m.source after_source)
            (address_of m.destination after_destination)
            m.data_coding
            text)
  enquiry : (h : PduHeader) → IsSendable (answer_enquiry h)
  delivery : (h : PduHeader) → IsSendable (answer_delivery h)
  login :
      (l : Login) (system_id password system_type address_range : CharPtr)
      → IsLogin l
      → Shows system_id l.system_id
      → Shows password l.password
      → Shows system_type l.system_type
      → Shows address_range l.address_range
      → IsSendable (request_bind system_id password system_type l.ton l.npi address_range)

-- The bytes are one PDU, with its own length in front.
pub data IsFrame : List ℕ → Type 0 where
  whole :
      (command status sequence_no : ℕ) (body : List ℕ)
      → IsFrame (frame command status sequence_no body)

-- The events of calls that each send one of the PDUs.
unfoldable pub traffic : ℕ → List (List ℕ) → List Event
traffic socket [] = []
traffic socket (bytes ∷ rest) =
    locked send_mutex ∷ Event.sent socket bytes ∷ unlocked send_mutex ∷ traffic socket rest

-- From `w` on, PDUs have been sent one after the other, and the send buffer has grown by at most `cost`.
record Sent (w w' : World) (frames : List (List ℕ)) (cost : ℕ) : Type 0 where
  all : All IsFrame frames
  trace : w'.trace ≡ w.trace ++ traffic w.session.socket_handle frames
  socket : w'.session.socket_handle ≡ w.session.socket_handle
  valid : IsValid w'.session.send_buffer
  growth : w'.session.send_buffer.capacity ≤ w.session.send_buffer.capacity + cost

one-Sent :
    (cost : ℕ) (bytes : List ℕ) (w w' : World) (s : Session)
    → cost ≤ 685
    → IsFrame bytes
    → s.socket_handle ≡ w.session.socket_handle
    → s.send_buffer ≡ w.session.send_buffer
    → SentOnce cost bytes w s w'
    → Sent w w' (bytes ∷ []) 685
unfolding traffic
one-Sent cost bytes w w' s small f socket buffer once = record {
  all = (f, tt);
  trace =
      once.events
      ∙ ap (λ h. w.trace ++ (locked send_mutex ∷ Event.sent h bytes ∷ unlocked send_mutex ∷ []))
          socket;
  socket = ap (λ (x : Session). x.socket_handle) once.session ∙ socket;
  valid = once.valid;
  growth = omega (arith, once.growth, small, ap (λ (b : Buffer). b.capacity) buffer);
}

All-front : (xs ys : List SendCall) → All IsSendable (xs ++ ys) → All IsSendable xs
All-front [] ys a = tt
All-front (x ∷ xs) ys a = (a.0, All-front xs ys a.1)

module _ (mem : Memory) (os : Platform) (supply : IsSupplied mem) where
  perform-Sent :
      (w : World) (call : SendCall)
      → IsSendable call
      → IsValid w.session.send_buffer
      → w.session.send_buffer.capacity + 685 < size_mod
      → (w' : World) × (bytes : List ℕ) × (perform mem os w call ≡ ret w')
        × Sent w w' (bytes ∷ []) 685
  unfolding perform get_sequence_no
  perform-Sent w call (message m t s d text ok room same) v small =
      let (w', e, once) = submit_sm-frame mem os supply w m t s d text ok room same v small in
      (w', _, rw e refl, one-Sent 685 _ w w' _ (omega arith) (whole _ _ _ _) refl refl once)
  perform-Sent w call (enquiry h) v small =
      let (w', e, once) = enquire_link_response-frame mem os supply w h v (omega (arith, small)) in
      (w', _, rw e refl, one-Sent 80 _ w w' _ (omega arith) (whole _ _ _ _) refl refl once)
  perform-Sent w call (delivery h) v small =
      let (w', e, once) = deliver_sm_response-frame mem os supply w h v (omega (arith, small)) in
      (w', _, rw e refl, one-Sent 161 _ w w' _ (omega arith) (whole _ _ _ _) refl refl once)
  perform-Sent w call (login l p₁ p₂ p₃ p₄ ok s₁ s₂ s₃ s₄) v small =
      let (w', e, once) =
        bind-frame mem supply os w l p₁ p₂ p₃ p₄ ok s₁ s₂ s₃ s₄ v (omega (arith, small)) in
      (w', _, rw e refl, one-Sent 274 _ w w' _ (omega arith) (whole _ _ _ _) refl refl once)

  perform_all-Sent :
      (w : World) (order : List (ℕ × SendCall))
      → All (λ c. IsSendable c.1) order
      → IsValid w.session.send_buffer
      → w.session.send_buffer.capacity + 685 * length order < size_mod
      → (w' : World) × (frames : List (List ℕ)) × (perform_all mem os w order ≡ ret w')
        × Sent w w' frames (685 * length order)
        × (length frames ≡ length order)
  unfolding perform_all traffic
  perform_all-Sent w [] ok v small = (
    w,
    [],
    refl,
    record {
      all = tt;
      trace = sym (append-nil w.trace);
      socket = refl;
      valid = v;
      growth = omega arith;
    },
    refl,
  )
  perform_all-Sent w (c ∷ cs) ok v small =
      let (w₁, bytes, e, one) = perform-Sent w c.1 ok.0 v (omega (arith, small)) in
      let (w', frames, rest, more, size) =
        perform_all-Sent w₁ cs ok.1 one.valid (omega (arith, small, one.growth)) in
      (
        w',
        bytes ∷ frames,
        rw (e, perform_all) rest,
        record {
          all = (one.all.0, more.all);
          trace =
              more.trace
              ∙ ap (λ h. w₁.trace ++ traffic h frames) one.socket
              ∙ ap (λ t. t ++ traffic w.session.socket_handle frames) one.trace
              ∙ append_assoc w.trace
                  (locked send_mutex
                    ∷ Event.sent w.session.socket_handle bytes
                    ∷ unlocked send_mutex
                    ∷ [])
                  (traffic w.session.socket_handle frames);
          socket = more.socket ∙ one.socket;
          valid = more.valid;
          growth = omega (arith, more.growth, one.growth);
        },
        omega (arith, size),
      )

  later :
      (c : ℕ × SendCall) (cs : List (ℕ × SendCall)) (i : ℕ)
      → All IsSendable (calls_of i (c ∷ cs))
      → All IsSendable (calls_of i cs)
  later c cs i a = elim (Bool-cases (c.0 == i)) [
    | inl same ↦
        let own : calls_of i (c ∷ cs) ≡ c.1 ∷ calls_of i cs = rw same refl in
        (subst (λ x. All IsSendable x) own a).1
    | inr other ↦
        let rest : calls_of i (c ∷ cs) ≡ calls_of i cs = rw other refl in
        subst (λ x. All IsSendable x) rest a
  ]

  -- What holds of the calls of each thread holds of all.
  All-calls :
      (order : List (ℕ × SendCall))
      → ((i : ℕ) → All IsSendable (calls_of i order))
      → All (λ c. IsSendable c.1) order
  All-calls [] h = tt
  All-calls (c ∷ cs) h =
      let own : calls_of c.0 (c ∷ cs) ≡ c.1 ∷ calls_of c.0 cs = rw ((==_iff c.0 c.0).1 refl) refl in
      ((subst (λ x. All IsSendable x) own (h c.0)).0, All-calls cs (λ i. later c cs i (h i)))

  -- From a state in which the send mutex is free and no thread is within a call, where the calls that the
  -- threads are to make have parts that fit their fields, the send buffer is well formed and size_t leaves it
  -- 685 bytes for each step to grow, and allocations succeed: whenever threads have made calls, interleaved
  -- in any way, and the mutex is free again, what has happened is that whole PDUs, each with its own length
  -- in front, were handed to the session's socket one after the other, each between locking and unlocking
  -- the mutex. The send buffer is well formed.
  pub Steps-traffic :
      (start c : Config)
      → IsIdle start
      → (steps : Steps mem os start c) → c.holder ≡ none
      → ((i : ℕ) → All IsSendable (pending (start.threads i)))
      → IsValid start.world.session.send_buffer
      → start.world.session.send_buffer.capacity + 685 * count mem os steps < size_mod
      → (frames : List (List ℕ)) × All IsFrame frames
        × (c.world.trace ≡ start.world.trace ++ traffic start.world.session.socket_handle frames)
        × IsValid c.world.session.send_buffer
  Steps-traffic start c idle steps free ok v small =
      let (order, few, performed, same) = calls_made mem os start c idle steps free in
      let sendable = All-calls order (λ i.
        All-front (calls_of i order) (pending (c.threads i))
          (subst (λ x. All IsSendable x) (same i) (ok i))) in
      let (w', frames, e, sent, size) =
        perform_all-Sent start.world order sendable v (omega (arith, few, small)) in
      let world : w' ≡ c.world = ret_injective (sym e ∙ performed) in
      (
        frames,
        sent.all,
        ap (λ (w : World). w.trace) (sym world) ∙ sent.trace,
        subst (λ (w : World). IsValid w.session.send_buffer) world sent.valid,
      )
