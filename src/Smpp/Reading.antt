-- ===== src/Smpp/Reading.antt =====
-- A frame as the receiving side of src/as-smpp-core/src/serializer.c reads it.
use as_smpp.Prelude.{ℕ, ◌+◌, ◌^◌, ◌<◌, ◌≡◌, ap, ◌∙◌, arith}
use as_smpp.Prelude.{List, ◌++◌, append_assoc, ret, length, length-append}
use as_smpp.Buffer.{Buffer}
use as_smpp.Buffer.Valid.{IsValid, contents, length-contents}
use as_smpp.Types
use as_smpp.Types.{ErrorCode, PduHeader, PduSubmitSm}
use as_smpp.Serializer.Pdu.{deserialize_pdu_header, deserialize_pdu_submit_sm}
use as_smpp.Serializer.Spec.{Holds-contents, Holds-next}
use as_smpp.Serializer.Header.{header_bytes, length-header_bytes, IsHeader}
use as_smpp.Serializer.Header.{deserialize_pdu_header_complete}
use as_smpp.Serializer.Submit.{Message, IsMessage, submit_bytes, length-submit_bytes}
use as_smpp.Serializer.Submit.{Buffers, HasSizes, init_pdu_submit_sm, pdu_of}
use as_smpp.Serializer.Delivery.{deserialize_pdu_submit_sm_lem}
use as_smpp.Smpp.Framing.{frame}

-- The header of the frame for a message.
abbrev pub header_for : ℕ → ℕ → Message → PduHeader
header_for command_id sequence_no m = record {
  command_length = 16 + length (submit_bytes m);
  command_id = command_id;
  status = Types.status_rok;
  sequence_no = sequence_no;
}

-- Where a well-formed buffer holds the frame of a message that fits its fields, with any command and
-- any number of 32 bits, and whatever comes behind: the header is read without an error, and the body
-- gives the fields of the message, with no access out of bounds, into a struct whose arrays have their
-- sizes; the reader stops at the end of the frame.
pub read_frame :
    (command_id sequence_no : ℕ) (m : Message) (old : PduHeader) (pdu : PduSubmitSm) (s : Buffers)
    (b : Buffer) (rest : List ℕ)
    → command_id < 2 ^ 32
    → sequence_no < 2 ^ 32
    → IsMessage m
    → HasSizes s
    → IsValid b
    → contents b ≡ frame command_id Types.status_rok sequence_no (submit_bytes m) ++ rest
    → (deserialize_pdu_header old b 0
        ≡ ret (ErrorCode.none, header_for command_id sequence_no m, 16))
      × (deserialize_pdu_submit_sm (init_pdu_submit_sm pdu s) b 16
          ≡ ret (pdu_of m pdu s, 16 + length (submit_bytes m)))
unfolding frame
read_frame command_id sequence_no m old pdu s b rest small_id small_seq ok sizes v e =
    let h = header_for command_id sequence_no m in
    let body = submit_bytes m in
    let head = header_bytes h in
    let apart : contents b ≡ head ++ (body ++ rest) = e ∙ append_assoc head body rest in
    let total : b.data_len ≡ 16 + length body + length rest = omega (
      arith,
      ap length e,
      length-append (head ++ body) rest,
      length-append head body,
      length-header_bytes h,
      length-contents b v,
    ) in
    let fits : IsHeader h = omega (
      arith,
      length-submit_bytes m,
      ok.service_short,
      ok.source.short,
      ok.destination.short,
      ok.short,
    ) in
    let behind =
      rw (length-header_bytes h) at
        (Holds-next head body _ (Holds-contents (head ++ body) rest v e)) in
    (
      deserialize_pdu_header_complete h old b 0 _ fits (Holds-contents head (body ++ rest) v apart)
          (omega (arith, total)) (omega (arith, total)),
      deserialize_pdu_submit_sm_lem m pdu s b 16 _ ok sizes behind,
    )
