-- ===== src/Smpp/Sending.antt =====
-- The frames of as_smpp_submit_sm and of the two responses, of src/as-smpp-core/src/smpp.c.
use as_smpp.Prelude.{ℕ, ◌+◌, ◌^◌, ◌≤◌, ◌<◌, ◌≡◌, refl, ◌∙◌, arith}
use as_smpp.Prelude.{List, [], ◌∷◌, ◌++◌, append_assoc, append-nil, Run, ret, some, length, ◌>>=◌}
use as_smpp.Memory.{Memory, IsSupplied, size_mod}
use as_smpp.Buffer.{Buffer}
use as_smpp.Buffer.Valid.{IsValid, contents, Writes, Writes-bind}
use as_smpp.Types
use as_smpp.Types.{ErrorCode, PduHeader}
use as_smpp.Session.{Session, Event, World, locked, unlocked, send_mutex, with_session}
use as_smpp.Net.{Platform}
use as_smpp.Serializer.Pdu.{serialize_pdu_header}
use as_smpp.Serializer.Text.{serialize_string-Writes_null}
use as_smpp.Serializer.Header.{header_bytes, serialize_pdu_header-Writes}
use as_smpp.Serializer.Address.{address_of}
use as_smpp.Serializer.Submit.{Message, IsMessage, submit_bytes, serialize_pdu_submit_sm-Writes}
use as_smpp.Serializer.Submit.{length-submit_bytes}
use as_smpp.Smpp.{send_filled, cleared, lock_send, get_sequence_no}
use as_smpp.Smpp.{submit_sm, enquire_link_response, deliver_sm_response}
use as_smpp.Smpp.Framing.{frame, unsized, patched, send_lem, cleared-IsValid}

-- `w'` is `w` after one call that held the send mutex and handed `bytes` to the socket, all at once;
-- `s` is the session that the call went on with, and only its send buffer has changed since, whose
-- block is larger by at most `cost` cells.
pub record SentOnce (cost : ℕ) (bytes : List ℕ) (w : World) (s : Session) (w' : World)
    : Type 0 where
  pub events :
      w'.trace
      ≡ w.trace ++ (locked send_mutex ∷ Event.sent s.socket_handle bytes ∷ unlocked send_mutex ∷ [])
  pub session : w'.session ≡ record s { send_buffer = w'.session.send_buffer }
  pub valid : IsValid w'.session.send_buffer
  pub growth : w'.session.send_buffer.capacity ≤ s.send_buffer.capacity + cost

module _ (mem : Memory) (os : Platform) where
  pub send_filled_lem :
      (id status seq : ℕ) (payload : List ℕ) (cost : ℕ) (body : Buffer → Run Buffer) (w : World)
      (s : Session)
      → Writes cost (header_bytes (unsized id status seq) ++ payload) body
      → 16 + length payload < 2 ^ 32
      → IsValid s.send_buffer
      → s.send_buffer.capacity + cost < size_mod
      → (w' : World) × (send_filled mem os (lock_send w) s body ≡ ret w')
        × SentOnce cost (frame id status seq payload) w s w'
  unfolding send_filled
  send_filled_lem id status seq payload cost body w s writes small v room =
      let (b, r, a) = writes.run (cleared s.send_buffer) (cleared-IsValid v) room in
      let w₁ = with_session (record s { send_buffer = b }) (lock_send w) in
      let (sent, v') = send_lem mem os id status seq payload small w₁ a.valid a.holds in
      let t = Event.sent s.socket_handle (frame id status seq payload) in
      let done : World = record {
        session = record s { send_buffer = patched (16 + length payload) b };
        trace = ((w.trace ++ (locked send_mutex ∷ [])) ++ (t ∷ [])) ++ (unlocked send_mutex ∷ []);
      } in
      (
        done,
        rw (r, sent) refl,
        record {
          events =
              append_assoc (w.trace ++ (locked send_mutex ∷ [])) (t ∷ []) _
              ∙ append_assoc w.trace (locked send_mutex ∷ []) _;
          session = refl;
          valid = v';
          growth = a.growth;
        },
      )

  -- The header in front of a payload.
  pub headed :
      (id status seq : ℕ) {cost : ℕ} {payload : List ℕ} {f : Buffer → Run Buffer}
      → IsSupplied mem
      → Writes cost payload f
      → Writes
          (80 + cost)
          (header_bytes (unsized id status seq) ++ payload)
          (λ b. serialize_pdu_header mem b 0 id status seq >>= f)
  headed id status seq supply w =
      Writes-bind (serialize_pdu_header-Writes mem supply (unsized id status seq)) w

  module _ (supply : IsSupplied mem) where
    -- For a message whose parts fit their fields, a text buffer that holds its text, a well-formed send
    -- buffer that size_t leaves 685 bytes to grow, and allocations that succeed: submit_sm returns no
    -- error and stores the session's sequence number for its caller. It has handed one frame to the
    -- socket, between locking and unlocking the send mutex: the command submit_sm, the status 0, that
    -- number, the length of the whole PDU, and the fields of the message in the order of the protocol.
    -- Of the session only the number, which is counted up, and the send buffer change, and this buffer
    -- stays well formed and grows by at most 685 bytes.
    pub submit_sm-frame :
        (w : World) (m : Message) (after_type after_source after_destination : List ℕ)
        (text : Buffer)
        → IsMessage m
        → text.data_len ≤ length text.ptr
        → contents text ≡ m.text
        → IsValid w.session.send_buffer
        → w.session.send_buffer.capacity + 685 < size_mod
        → (w' : World) × (submit_sm mem os w
              (some (m.service_type ++ (0 ∷ after_type)))
              (address_of m.source after_source)
              (address_of m.destination after_destination)
              m.data_coding
              text
            ≡ ret (ErrorCode.none, w.session.sequence_no, w'))
          × SentOnce 685
              (frame Types.submit_sm_id Types.status_rok w.session.sequence_no (submit_bytes m))
              w
              (get_sequence_no w.session).1
              w'
    unfolding submit_sm get_sequence_no
    submit_sm-frame w m after_type after_source after_destination text ok in_block e v room =
        let body = headed Types.submit_sm_id Types.status_rok w.session.sequence_no supply (
          serialize_pdu_submit_sm-Writes mem supply m after_type after_source after_destination text
            ok in_block e) in
        let small : 16 + length (submit_bytes m) < 2 ^ 32 = omega (
          arith,
          length-submit_bytes m,
          ok.service_short,
          ok.source.short,
          ok.destination.short,
          ok.short,
        ) in
        let (w', r, once) =
          send_filled_lem _ _ _ _ _ _ w (get_sequence_no w.session).1 body small v room in
        (w', rw r refl, once)

    -- With a well-formed send buffer that size_t leaves 80 bytes to grow, and allocations that succeed:
    -- the answer to enquire_link is one frame without a body, sent under the send mutex, with the command
    -- 0x80000015, the status 0 and the sequence number of the request. Only the send buffer changes.
    pub enquire_link_response-frame :
        (w : World) (header : PduHeader)
        → IsValid w.session.send_buffer
        → w.session.send_buffer.capacity + 80 < size_mod
        → (w' : World) × (enquire_link_response mem os w header ≡ ret (ErrorCode.none, w'))
          × SentOnce 80 (frame 0x8000_0015 Types.status_rok header.sequence_no []) w w.session w'
    unfolding enquire_link_response
    enquire_link_response-frame w header v room =
        let h = unsized 0x8000_0015 Types.status_rok header.sequence_no in
        let body =
          rw (← append-nil (header_bytes h)) at (serialize_pdu_header-Writes mem supply h) in
        let (w', r, once) = send_filled_lem _ _ _ [] _ _ w w.session body (omega arith) v room in
        (w', rw r refl, once)

    -- With a well-formed send buffer that size_t leaves 161 bytes to grow, and allocations that succeed:
    -- the answer to deliver_sm is one frame, sent under the send mutex, with an empty message id and the
    -- sequence number of the request. Its command is 0x80000015, that of an answer to enquire_link. Only
    -- the send buffer changes.
    pub deliver_sm_response-frame :
        (w : World) (header : PduHeader)
        → IsValid w.session.send_buffer
        → w.session.send_buffer.capacity + 161 < size_mod
        → (w' : World) × (deliver_sm_response mem os w header ≡ ret (ErrorCode.none, w'))
          × SentOnce 161
              (frame 0x8000_0015 Types.status_rok header.sequence_no (0 ∷ []))
              w
              w.session
              w'
    unfolding deliver_sm_response
    deliver_sm_response-frame w header v room =
        let body =
          headed 0x8000_0015 Types.status_rok header.sequence_no supply
            (serialize_string-Writes_null mem supply Types.length_message_id (omega arith)) in
        let (w', r, once) = send_filled_lem _ _ _ _ _ _ w w.session body (omega arith) v room in
        (w', rw r refl, once)
