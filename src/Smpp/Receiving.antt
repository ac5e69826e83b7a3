-- ===== src/Smpp/Receiving.antt =====
-- The receiving thread on a stream of PDUs.
use as_smpp.Prelude.{ℕ, suc, ◌+◌, ◌^◌, ◌<◌, ◌≡◌, refl, sym, ap, ◌∙◌, arith}
use as_smpp.Prelude.{List, ◌++◌, append_assoc, ret, length, length-append, drop}
use as_smpp.Prelude.{drop-append, ◌==◌, false}
use as_smpp.Prelude.{Bool-cases, inl, inr}
use as_smpp.Memory.{Memory}
use as_smpp.Buffer.{Buffer}
use as_smpp.Buffer.Valid.{IsValid, contents, length-contents}
use as_smpp.Buffer.Editing.{remove_lem}
use as_smpp.Types.{PduHeader}
use as_smpp.Session.{World, with_session}
use as_smpp.Net.{Platform}
use as_smpp.Serializer.Spec.{big_endian, Holds-contents}
use as_smpp.Serializer.Header.{header_bytes, length-header_bytes, IsHeader}
use as_smpp.Serializer.Header.{deserialize_pdu_header_complete}
use as_smpp.Serializer.Header.{deserialize_pdu_header_partial, deserialize_pdu_header_short}
use as_smpp.Smpp.Worker.{Locals, drain, dispatch}

-- Less than a whole PDU: less than a length, or less than the length states.
pub data Incomplete : List ℕ → Type 0 where
  short : {q : List ℕ} → length q < 4 → Incomplete q
  started :
      (len : ℕ) (rest : List ℕ)
      → len < 2 ^ 32
      → length rest + 4 < len
      → Incomplete (big_endian 4 len ++ rest)

module _ (mem : Memory) (os : Platform) (locals : Locals) where
  -- Where a well-formed receive buffer holds a length of four bytes and then less than that length
  -- states, the loop ends at once and leaves buffer, session and trace as they are, for the next chunk to
  -- complete; of the thread's header only the length is set.
  drain_waits :
      (fuel len : ℕ) (old : PduHeader) (w : World) (rest : List ℕ)
      → IsValid w.session.receive_buffer
      → len < 2 ^ 32
      → contents w.session.receive_buffer ≡ big_endian 4 len ++ rest
      → length rest + 4 < len
      → drain mem os locals (suc fuel) old w ≡ ret (record old { command_length = len }, w)
  unfolding drain
  drain_waits fuel len old w rest v small e less =
      let b = w.session.receive_buffer in
      let size : b.data_len ≡ length rest + 4 =
        unfold big_endian in omega (arith, ap length e, length-contents b v) in
      let busy : (b.data_len == 0) ≡ false = ground (arith, size) in
      let r =
        deserialize_pdu_header_partial old len b 0 _ small
          (Holds-contents (big_endian 4 len) rest v e) (omega (arith, size))
          (omega (arith, size)) in
      rw (busy, drain) (rw r refl)

  drain_short :
      (fuel : ℕ) (old : PduHeader) (w : World)
      → w.session.receive_buffer.data_len < 4
      → drain mem os locals (suc fuel) old w ≡ ret (old, w)
  unfolding drain
  drain_short fuel old w h = elim (Bool-cases (w.session.receive_buffer.data_len == 0)) [
    | inl none ↦ rw (none, drain) refl
    | inr busy ↦
        let r = deserialize_pdu_header_short old w.session.receive_buffer 0 h in
        rw (busy, drain) (rw r refl)
  ]

  -- Only the thread's header changes where less than a whole PDU is left.
  pub drain-Incomplete :
      (fuel : ℕ) (old : PduHeader) (w : World) (q : List ℕ)
      → IsValid w.session.receive_buffer
      → contents w.session.receive_buffer ≡ q
      → Incomplete q
      → (last : PduHeader) × (drain mem os locals (suc fuel) old w ≡ ret (last, w))
  drain-Incomplete fuel old w q v e (short h) = (
    old,
    drain_short fuel old w
        (omega (arith, h, ap length e, length-contents w.session.receive_buffer v)),
  )
  drain-Incomplete fuel old w _ v e (started len rest small less) =
      (record old { command_length = len }, drain_waits fuel len old w rest v small e less)

  -- Where a well-formed receive buffer begins with a complete PDU, whose header states its length, and
  -- what is done for this PDU leaves the receive buffer alone: the loop goes on with one unit of fuel
  -- less, the header and what was done for it, and with a well-formed buffer that holds what stood
  -- behind the PDU and has its old capacity.
  pub drain_step :
      (fuel : ℕ) (old h : PduHeader) (w w' : World) (body rest : List ℕ)
      → IsHeader h
      → h.command_length ≡ 16 + length body
      → IsValid w.session.receive_buffer
      → contents w.session.receive_buffer ≡ header_bytes h ++ (body ++ rest)
      → dispatch mem os locals w h 16 ≡ ret w'
      → w'.session.receive_buffer ≡ w.session.receive_buffer
      → (b' : Buffer) × (drain mem os locals (suc fuel) old w
          ≡ drain mem os locals fuel h
              (let s = w'.session in with_session (record s { receive_buffer = b' }) w'))
        × IsValid b'
        × (contents b' ≡ rest)
        × (b'.capacity ≡ w.session.receive_buffer.capacity)
  unfolding drain
  drain_step fuel old h w w' body rest ok len v e done same =
      let b = w.session.receive_buffer in
      let front = header_bytes h ++ body in
      let apart : contents b ≡ front ++ rest = e ∙ sym (append_assoc (header_bytes h) body rest) in
      let front_size : length front ≡ h.command_length =
        omega (arith, len, length-append (header_bytes h) body, length-header_bytes h) in
      let size : b.data_len ≡ h.command_length + length rest =
        omega (arith, ap length apart, length-append front rest, front_size, length-contents b v) in
      let busy : (b.data_len == 0) ≡ false = ground (arith, size, len) in
      let seen =
        deserialize_pdu_header_complete h old b 0 _ ok
          (Holds-contents (header_bytes h) (body ++ rest) v e) (omega (arith, size, len))
          (omega (arith, size)) in
      let (b', removed, v', kept, cap) =
        remove_lem b 0 h.command_length v (omega arith) (omega arith) in
      (
        b',
        rw (busy, drain) (rw (seen, done, same, removed) refl),
        v',
        kept
            ∙ ap (λ t. drop h.command_length t) apart
            ∙ drop-append front rest h.command_length (sym front_size),
        cap,
      )
