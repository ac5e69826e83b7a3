-- ===== src/Serializer/Delivery.antt =====
-- The body of deliver_sm as as_smpp_deserialize_pdu_deliver_sm of src/as-smpp-core/src/serializer.c
-- reads it: all its fields, which submit_sm shares.
use as_smpp.Prelude.{ℕ, ◌+◌, ◌<◌, ◌≡◌, refl, ap, arith, true, false, ◌==◌}
use as_smpp.Prelude.{List, [], ◌∷◌, ◌++◌, ret, some, length, drop, All}
use as_smpp.Prelude.{length-append, replicate}
use as_smpp.Buffer.{Buffer}
use as_smpp.Types
use as_smpp.Types.{Datetime, PduSubmitSm}
use as_smpp.Serializer.Pdu.{deserialize_datetime, first_char, deserialize_pdu_submit_sm}
use as_smpp.Serializer.Spec.{big_endian, Holds}
use as_smpp.Serializer.Integer.{read_field}
use as_smpp.Serializer.Text.{IsChar, read_text, read_binary, store_terminator}
use as_smpp.Serializer.Address.{Party, IsParty, address_of, address_bytes, read_address}
use as_smpp.Serializer.Submit.{
  Buffers, HasSizes, init_pdu_submit_sm, Message, IsMessage, submit_bytes, pdu_of,
}

-- What a peer may put into the fields.
pub record Delivery : Type 0 where
  pub service_type : List ℕ
  pub source : Party
  pub destination : Party
  pub esm_class : ℕ
  pub protocol_id : ℕ
  pub priority : ℕ
  pub schedule : List ℕ
  pub validity : List ℕ
  pub registered : ℕ
  pub replace : ℕ
  pub data_coding : ℕ
  pub default_id : ℕ
  pub text : List ℕ

-- A date: a text that is shorter than its array.
pub record IsDate (t : List ℕ) : Type 0 where
  pub chars : All IsChar t
  pub short : length t < Types.length_datetime

-- A delivery whose parts fit their fields.
pub record IsDelivery (d : Delivery) : Type 0 where
  pub service_chars : All IsChar d.service_type
  pub service_short : length d.service_type < Types.length_service_type
  pub source : IsParty d.source
  pub destination : IsParty d.destination
  pub esm_class : d.esm_class < 256
  pub protocol_id : d.protocol_id < 256
  pub priority : d.priority < 256
  pub schedule : IsDate d.schedule
  pub validity : IsDate d.validity
  pub registered : d.registered < 256
  pub replace : d.replace < 256
  pub coding : d.data_coding < 256
  pub default_id : d.default_id < 256
  pub short : length d.text < 256

-- The fields on the wire.
unfoldable pub delivery_bytes : Delivery → List ℕ
delivery_bytes d =
    (d.service_type ++ (0 ∷ []))
    ++ (address_bytes d.source
        ++ (address_bytes d.destination
            ++ (big_endian 1 d.esm_class
                ++ (big_endian 1 d.protocol_id
                    ++ (big_endian 1 d.priority
                        ++ ((d.schedule ++ (0 ∷ []))
                            ++ ((d.validity ++ (0 ∷ []))
                                ++ (big_endian 1 d.registered
                                    ++ (big_endian 1 d.replace
                                        ++ (big_endian 1 d.data_coding
                                            ++ (big_endian 1 d.default_id
                                                ++ (big_endian 1 (length d.text)
                                                    ++ d.text))))))))))))

pub length-delivery_bytes :
    (d : Delivery)
    → length (delivery_bytes d)
      ≡ length d.service_type
        + length d.source.digits
        + length d.destination.digits
        + length d.schedule
        + length d.validity
        + length d.text
        + 17
unfolding delivery_bytes address_bytes big_endian
length-delivery_bytes d = simp length-append (omega arith)

-- A date after a text was read for it: a text that is not empty marks it as absent.
abbrev pub date_after : List ℕ → Datetime → Datetime
date_after [] d = d
date_after (c ∷ t) d = record d { is_null = true }

-- The struct after a delivery was read into it.
unfoldable pub delivered : Delivery → PduSubmitSm → Buffers → PduSubmitSm
delivered d pdu s = record {
  service_type = some (d.service_type ++ (0 ∷ drop (length d.service_type + 1) s.service_type));
  source_address = address_of d.source (drop (length d.source.digits + 1) s.source);
  destination_address =
      address_of d.destination (drop (length d.destination.digits + 1) s.destination);
  esm_class = d.esm_class;
  protocol_id = d.protocol_id;
  priority = d.priority;
  schedule_delivery_time = date_after d.schedule pdu.schedule_delivery_time;
  validity_period = date_after d.validity pdu.validity_period;
  registered_delivery = d.registered;
  replace_if_present = d.replace == 1;
  data_coding = d.data_coding;
  default_message_id = d.default_id;
  message_length = length d.text;
  message = d.text ++ (0 ∷ drop (length d.text + 1) s.message);
}

-- A date at the place where a reader stands, and the place behind it.
read_datetime :
    {b : Buffer} {index : ℕ} (t : List ℕ) (d : Datetime) (ys rest : List ℕ)
    → IsDate t
    → Holds b index ((t ++ (0 ∷ [])) ++ ys) rest
    → (deserialize_datetime d b index ≡ ret (date_after t d, index + (length t + 1)))
      × Holds b (index + (length t + 1)) ys rest
unfolding deserialize_datetime first_char
read_datetime {b} {index} [] d ys rest ok held =
    let (r, h) =
      read_text [] (replicate Types.length_datetime 0) Types.length_datetime ys rest tt
        (omega arith) held in
    (rw r refl, h)
read_datetime {b} {index} (c ∷ t) d ys rest ok held =
    let (r, h) =
      read_text (c ∷ t) (replicate Types.length_datetime 0) Types.length_datetime ys rest ok.chars
        (omega (arith, ok.short)) held in
    let some_char : (c == 0) ≡ false = ground (arith, ok.chars.0) in (rw (r, some_char) refl, h)

-- Where a well-formed buffer holds the fields of a deliver_sm at an index, each of a length that its array
-- has room for and each number of one byte, and the arrays have their sizes: all the fields are read
-- into the struct, with no access out of bounds, up to their end. A date that is not empty is marked as
-- null, and an empty one is left as it was.
pub deserialize_pdu_submit_sm-delivered :
    (d : Delivery) (pdu : PduSubmitSm) (s : Buffers) (b : Buffer) (index : ℕ) (rest : List ℕ)
    → IsDelivery d
    → HasSizes s
    → Holds b index (delivery_bytes d) rest
    → deserialize_pdu_submit_sm (init_pdu_submit_sm pdu s) b index
      ≡ ret (delivered d pdu s, index + length (delivery_bytes d))
unfolding deserialize_pdu_submit_sm init_pdu_submit_sm delivered delivery_bytes big_endian
deserialize_pdu_submit_sm-delivered d pdu s b index rest ok sizes held =
    let blank = init_pdu_submit_sm pdu s in
    let (r₁, h₁) =
      read_text d.service_type s.service_type Types.length_service_type _ rest ok.service_chars
        (omega (arith, ok.service_short, sizes.service_type)) held in
    let (r₂, h₂) =
      read_address d.source blank.source_address s.source _ rest ok.source refl
        (omega (arith, ok.source.short, sizes.source)) h₁ in
    let (r₃, h₃) =
      read_address d.destination blank.destination_address s.destination _ rest ok.destination refl
        (omega (arith, ok.destination.short, sizes.destination)) h₂ in
    let (r₄, h₄) = read_field 1 d.esm_class _ rest (omega arith) ok.esm_class h₃ in
    let (r₅, h₅) = read_field 1 d.protocol_id _ rest (omega arith) ok.protocol_id h₄ in
    let (r₆, h₆) = read_field 1 d.priority _ rest (omega arith) ok.priority h₅ in
    let (r₇, h₇) = read_datetime d.schedule pdu.schedule_delivery_time _ rest ok.schedule h₆ in
    let (r₈, h₈) = read_datetime d.validity pdu.validity_period _ rest ok.validity h₇ in
    let (r₉, h₉) = read_field 1 d.registered _ rest (omega arith) ok.registered h₈ in
    let (r₁₀, h₁₀) = read_field 1 d.replace _ rest (omega arith) ok.replace h₉ in
    let (r₁₁, h₁₁) = read_field 1 d.data_coding _ rest (omega arith) ok.coding h₁₀ in
    let (r₁₂, h₁₂) = read_field 1 d.default_id _ rest (omega arith) ok.default_id h₁₁ in
    let (r₁₃, h₁₃) =
      read_field 1 (length d.text) d.text rest (omega arith) (omega (arith, ok.short)) h₁₂ in
    let r₁₄ = read_binary d.text s.message rest (omega (arith, ok.short, sizes.message)) h₁₃ in
    let r₁₅ = store_terminator d.text s.message (omega (arith, ok.short, sizes.message)) in
    rw (r₁, r₂, r₃, r₄, r₅, r₆, r₇, r₈, r₉, r₁₀, r₁₁, r₁₂, r₁₃, r₁₄, r₁₅)
      (ap (λ k. ret (delivered d pdu s, k)) (omega (arith, length-delivery_bytes d)))

-- What submit_sm sends is such a body.
abbrev as_delivery : Message → Delivery
as_delivery m = record {
  service_type = m.service_type;
  source = m.source;
  destination = m.destination;
  esm_class = 0;
  protocol_id = 0;
  priority = 0;
  schedule = [];
  validity = [];
  registered = 1;
  replace = 0;
  data_coding = m.data_coding;
  default_id = 0;
  text = m.text;
}

as_delivery-IsDelivery : (m : Message) → IsMessage m → IsDelivery (as_delivery m)
as_delivery-IsDelivery m ok = record {
  service_chars = ok.service_chars;
  service_short = ok.service_short;
  source = ok.source;
  destination = ok.destination;
  esm_class = omega arith;
  protocol_id = omega arith;
  priority = omega arith;
  schedule = record { chars = tt; short = omega arith };
  validity = record { chars = tt; short = omega arith };
  registered = omega arith;
  replace = omega arith;
  coding = ok.coding;
  default_id = omega arith;
  short = ok.short;
}

-- A message that was sent is read back.
pub deserialize_pdu_submit_sm_lem :
    (m : Message) (pdu : PduSubmitSm) (s : Buffers) (b : Buffer) (index : ℕ) (rest : List ℕ)
    → IsMessage m
    → HasSizes s
    → Holds b index (submit_bytes m) rest
    → deserialize_pdu_submit_sm (init_pdu_submit_sm pdu s) b index
      ≡ ret (pdu_of m pdu s, index + length (submit_bytes m))
unfolding delivered delivery_bytes pdu_of submit_bytes big_endian
deserialize_pdu_submit_sm_lem m pdu s b index rest ok sizes held =
    deserialize_pdu_submit_sm-delivered (as_delivery m) pdu s b index rest
      (as_delivery-IsDelivery m ok) sizes held
