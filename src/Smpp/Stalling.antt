-- ===== src/Smpp/Stalling.antt =====
-- The receiving thread of src/as-smpp-core/src/smpp.c on a PDU that states the length 0.
use as_smpp.Prelude.{ℕ, zero, suc, ◌+◌, ◌≡◌, refl, ap, ◌∙◌, arith}
use as_smpp.Prelude.{drop, List, ◌++◌, ret, starved, length, length-append, ◌==◌, false}
use as_smpp.Memory.{Memory}
use as_smpp.Buffer.Valid.{IsValid, contents, length-contents}
use as_smpp.Buffer.Editing.{remove_lem}
use as_smpp.Types
use as_smpp.Types.{PduHeader}
use as_smpp.Session.{World, with_session}
use as_smpp.Net.{Platform}
use as_smpp.Serializer.Spec.{Holds-contents}
use as_smpp.Serializer.Header.{header_bytes, length-header_bytes, IsHeader}
use as_smpp.Serializer.Header.{deserialize_pdu_header_complete}
use as_smpp.Smpp.Worker.{Locals, drain, dispatch}

data_size :
    (h : PduHeader) (w : World) (rest : List ℕ)
    → IsValid w.session.receive_buffer
    → contents w.session.receive_buffer ≡ header_bytes h ++ rest
    → w.session.receive_buffer.data_len ≡ 16 + length rest
data_size h w rest v e = omega (
  arith,
  ap length e,
  length-append (header_bytes h) rest,
  length-header_bytes h,
  length-contents w.session.receive_buffer v,
)

busy_lem :
    (h : PduHeader) (w : World) (rest : List ℕ)
    → IsValid w.session.receive_buffer
    → contents w.session.receive_buffer ≡ header_bytes h ++ rest
    → (w.session.receive_buffer.data_len == 0) ≡ false
busy_lem h w rest v e = ground (arith, data_size h w rest v e)

module _ (mem : Memory) (os : Platform) (locals : Locals) where
  dispatch-nack :
      (h : PduHeader) (w : World) (index : ℕ)
      → h.command_id ≡ Types.nack
      → dispatch mem os locals w h index ≡ ret w
  unfolding dispatch
  dispatch-nack h w index e = rw e refl

  -- Where a well-formed receive buffer begins with the header of a negative acknowledgement that states
  -- the length 0, whatever comes behind, the loop over the received PDUs uses up any fuel: it never ends.
  pub drain_stalls :
      (fuel : ℕ) (old h : PduHeader) (w : World) (rest : List ℕ)
      → IsHeader h
      → h.command_length ≡ 0
      → h.command_id ≡ Types.nack
      → IsValid w.session.receive_buffer
      → contents w.session.receive_buffer ≡ header_bytes h ++ rest
      → drain mem os locals fuel old w ≡ starved
  unfolding drain
  drain_stalls zero old h w rest ok none ack v e =
      let busy : (w.session.receive_buffer.data_len == 0) ≡ false = busy_lem h w rest v e in
      rw busy refl
  drain_stalls (suc fuel) old h w rest ok none ack v e =
      let b = w.session.receive_buffer in
      let size = data_size h w rest v e in
      let seen =
        deserialize_pdu_header_complete h old b 0 _ ok (Holds-contents (header_bytes h) rest v e)
          (omega (arith, size)) (omega (arith, none)) in
      let (b', removed, v', kept, cap) =
        remove_lem b 0 h.command_length v (omega arith) (omega arith) in
      let same : contents b' ≡ contents b = kept ∙ ap (λ t. drop t (contents b)) none in
      let s = w.session in
      let again = with_session (record s { receive_buffer = b' }) w in
      rw (busy_lem h w rest v e, drain)
        (rw (seen, dispatch-nack h w (0 + 16) ack, removed)
          (drain_stalls fuel h h again rest ok none ack v' (same ∙ e)))
