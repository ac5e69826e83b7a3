-- ===== src/Serializer/Submit.antt =====
-- The body of submit_sm: what is written.
use as_smpp.Prelude.{ℕ, ◌+◌, ◌%◌, ◌^◌, ◌≤◌, ◌<◌, ◌≡◌, ap, arith, false}
use as_smpp.Prelude.{List, [], ◌∷◌, ◌++◌, some, length, drop, All}
use as_smpp.Prelude.{length-append, length-take}
use as_smpp.Memory.{Memory, IsSupplied}
use as_smpp.Buffer.{Buffer}
use as_smpp.Buffer.Valid.{Writes, Writes-bind, Writes-weaken, contents}
use as_smpp.Types
use as_smpp.Serializer.{serialize_binary, serialize_integer}
use mathlib.Core.Path.{subst}
use as_smpp.Types.{Address, Datetime, PduSubmitSm}
use as_smpp.Serializer.Pdu.{serialize_pdu_submit_sm}
use as_smpp.Serializer.Spec.{big_endian}
use as_smpp.Serializer.Integer.{serialize_integer-Writes}
use as_smpp.Serializer.Text.{IsChar, serialize_string-Writes, serialize_binary-Writes}
use as_smpp.Serializer.Address.{Party, IsParty, address_of, address_bytes, serialize_address-Writes}

-- A short message, apart from the memory that holds it.
pub record Message : Type 0 where
  pub service_type : List ℕ
  pub source : Party
  pub destination : Party
  pub data_coding : ℕ
  pub text : List ℕ

-- A message whose parts fit their fields. The text is at most 255 bytes: its length takes one byte.
pub record IsMessage (m : Message) : Type 0 where
  pub service_chars : All IsChar m.service_type
  pub service_short : length m.service_type < Types.length_service_type
  pub source : IsParty m.source
  pub destination : IsParty m.destination
  pub coding : m.data_coding < 256
  pub short : length m.text < 256

-- The mandatory fields of the body, in the order of the protocol.
unfoldable pub submit_bytes : Message → List ℕ
submit_bytes m =
    (m.service_type ++ (0 ∷ []))
    ++ (address_bytes m.source
        ++ (address_bytes m.destination
            ++ (big_endian 1 0
                ++ (big_endian 1 0
                    ++ (big_endian 1 0
                        ++ (big_endian 1 0
                            ++ (big_endian 1 0
                                ++ (big_endian 1 1
                                    ++ (big_endian 1 0
                                        ++ (big_endian 1 m.data_coding
                                            ++ (big_endian 1 0
                                                ++ (big_endian 1 (length m.text)
                                                    ++ m.text))))))))))))

pub length-submit_bytes :
    (m : Message)
    → length (submit_bytes m)
      ≡ length m.service_type
        + length m.source.digits
        + length m.destination.digits
        + length m.text
        + 17
unfolding submit_bytes address_bytes big_endian
length-submit_bytes m = simp length-append (omega arith)

module _ (mem : Memory) (supply : IsSupplied mem) where
  pub serialize_pdu_submit_sm-Writes :
      (m : Message) (after_type after_source after_destination : List ℕ) (text : Buffer)
      → IsMessage m
      → text.data_len ≤ length text.ptr
      → contents text ≡ m.text
      → Writes 605 (submit_bytes m) (λ b.
        serialize_pdu_submit_sm mem b
          (some (m.service_type ++ (0 ∷ after_type)))
          (address_of m.source after_source)
          (address_of m.destination after_destination)
          m.data_coding
          text)
  unfolding serialize_pdu_submit_sm submit_bytes
  serialize_pdu_submit_sm-Writes m after_type after_source after_destination text ok v e =
      let byte = λ (x : ℕ). serialize_integer-Writes mem supply 1 x (omega arith) in
      let size : text.data_len ≡ length m.text =
        omega (arith, ap length e, length-take text.data_len text.ptr) in
      let counted : text.data_len % 2 ^ 32 ≡ length m.text = omega (arith, ok.short) in
      let body =
        subst
          (λ t. Writes (text.data_len + 16) t (λ b. serialize_binary mem b text.ptr text.data_len))
          e (serialize_binary-Writes mem supply text.ptr text.data_len v) in
      let count : Writes 17 (big_endian 1 (length m.text))
          (λ b. serialize_integer mem b (text.data_len % 2 ^ 32) 1) =
        rw (← counted) (byte (text.data_len % 2 ^ 32)) in
      let w =
        Writes-bind
          (serialize_string-Writes mem supply m.service_type after_type Types.length_service_type
            ok.service_chars ok.service_short)
          (Writes-bind (serialize_address-Writes mem supply m.source after_source ok.source) (
            Writes-bind
              (serialize_address-Writes mem supply m.destination after_destination ok.destination)
              (Writes-bind (byte 0) (
                Writes-bind (byte 0) (
                  Writes-bind (byte 0) (
                    Writes-bind (byte 0) (
                      Writes-bind (byte 0) (
                        Writes-bind (byte 1) (
                          Writes-bind (byte 0) (
                            Writes-bind (byte m.data_coding)
                              (Writes-bind (byte 0) (Writes-bind count body)))))))))))) in
      Writes-weaken (omega (arith, size, ok.short)) w

-- AS_SMPP_INIT_PDU_SUBMIT_SM: the pointers of the struct are set to its own buffers, whose contents
-- are as indeterminate as the rest of it.
pub record Buffers : Type 0 where
  pub service_type : List ℕ
  pub source : List ℕ
  pub destination : List ℕ
  pub message : List ℕ

-- The sizes of the arrays in the struct.
pub record HasSizes (s : Buffers) : Type 0 where
  pub service_type : length s.service_type ≡ Types.length_service_type
  pub source : length s.source ≡ Types.length_address
  pub destination : length s.destination ≡ Types.length_address
  pub message : length s.message ≡ Types.length_message + 1

unfoldable pub init_pdu_submit_sm : PduSubmitSm → Buffers → PduSubmitSm
init_pdu_submit_sm pdu s =
    let source = pdu.source_address in
    let destination = pdu.destination_address in
    record pdu {
      service_type = some s.service_type;
      source_address = record source { address = some s.source };
      destination_address = record destination { address = some s.destination };
      message = s.message;
    }

-- The struct after a message was read into it.
unfoldable pub pdu_of : Message → PduSubmitSm → Buffers → PduSubmitSm
pdu_of m pdu s = record {
  service_type = some (m.service_type ++ (0 ∷ drop (length m.service_type + 1) s.service_type));
  source_address = address_of m.source (drop (length m.source.digits + 1) s.source);
  destination_address =
      address_of m.destination (drop (length m.destination.digits + 1) s.destination);
  esm_class = 0;
  protocol_id = 0;
  priority = 0;
  schedule_delivery_time = pdu.schedule_delivery_time;
  validity_period = pdu.validity_period;
  registered_delivery = 1;
  replace_if_present = false;
  data_coding = m.data_coding;
  default_message_id = 0;
  message_length = length m.text;
  message = m.text ++ (0 ∷ drop (length m.text + 1) s.message);
}
