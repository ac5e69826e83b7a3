-- ===== src/Types.antt =====
-- include/as-smpp-core/smpp-types.h, and the error codes of include/as-smpp-core/core.h.
--
-- An enumeration that is read off the wire may hold any number, so it is a number here, with a
-- constant for each named value that the code uses. A `char *` is the memory from the pointer on,
-- or nothing for NULL; where the source points it at a buffer inside the same struct (the macros
-- AS_SMPP_INIT_... of smpp.h), the memory is that buffer.
use as_smpp.Prelude.{ℕ, Bool, List, Option}

pub data ErrorCode : Type 0 where
  none some malloc arg_is_null net getaddrinfo net_init threads : ErrorCode
  mutex_init condition_init incomplete_data duplicate not_found : ErrorCode

abbrev pub CharPtr : Type 0
CharPtr = Option (List ℕ)

-- AS_SMPP_LENGTH_...; a serialised integer has this many bytes, a string at most this many.
abbrev pub length_command_length : ℕ
length_command_length = 4

abbrev pub length_command_id : ℕ
length_command_id = 4

abbrev pub length_command_status : ℕ
length_command_status = 4

abbrev pub length_sequence_no : ℕ
length_sequence_no = 4

abbrev pub length_system_id : ℕ
length_system_id = 16

abbrev pub length_address : ℕ
length_address = 21

abbrev pub length_message : ℕ
length_message = 255

abbrev pub length_service_type : ℕ
length_service_type = 6

abbrev pub length_datetime : ℕ
length_datetime = 17

abbrev pub length_message_id : ℕ
length_message_id = 65

abbrev pub length_ton : ℕ
length_ton = 1

abbrev pub length_npi : ℕ
length_npi = 1

abbrev pub length_esm_class : ℕ
length_esm_class = 1

abbrev pub length_protocol_id : ℕ
length_protocol_id = 1

abbrev pub length_priority_flag : ℕ
length_priority_flag = 1

abbrev pub length_replace_if_present_flag : ℕ
length_replace_if_present_flag = 1

abbrev pub length_registered_delivery : ℕ
length_registered_delivery = 1

abbrev pub length_data_coding : ℕ
length_data_coding = 1

abbrev pub length_sm_default_message_id : ℕ
length_sm_default_message_id = 1

abbrev pub length_sm_length : ℕ
length_sm_length = 1

-- t_as_smpp_command
abbrev pub bind_receiver : ℕ
bind_receiver = 0x1

abbrev pub bind_transmitter : ℕ
bind_transmitter = 0x2

abbrev pub bind_transceiver : ℕ
bind_transceiver = 0x9

abbrev pub submit_sm_id : ℕ
submit_sm_id = 0x4

abbrev pub deliver_sm_id : ℕ
deliver_sm_id = 0x5

abbrev pub enquire_link_id : ℕ
enquire_link_id = 0x15

abbrev pub nack : ℕ
nack = 0x8000_0000

abbrev pub response_flag : ℕ
response_flag = 0x8000_0000

-- AS_SMPP_COMMAND_STATUS_ROK, AS_SMPP_ESM_CLASS_MODE_DEFAULT and
-- AS_SMPP_REGISTERED_DELIVERY_RECEIPT_SUCCESS_OR_FAILURE
abbrev pub status_rok : ℕ
status_rok = 0

abbrev pub esm_class_mode_default : ℕ
esm_class_mode_default = 0

abbrev pub receipt_success_or_failure : ℕ
receipt_success_or_failure = 1

-- The values that the demo passes on: t_as_smpp_version, t_as_smpp_ton, t_as_smpp_npi and
-- t_as_smpp_data_coding.
abbrev pub version_3_4 : ℕ
version_3_4 = 0x34

abbrev pub ton_unknown : ℕ
ton_unknown = 0

abbrev pub ton_international : ℕ
ton_international = 1

abbrev pub npi_unknown : ℕ
npi_unknown = 0

abbrev pub data_coding_ucs2 : ℕ
data_coding_ucs2 = 8

-- t_as_smpp_tlv; the list of them is the chain of the `next` pointers.
pub record Tlv : Type 0 where
  pub tag : ℕ
  pub length : ℕ
  pub value : List ℕ

-- t_as_smpp_address
pub record Address : Type 0 where
  pub ton : ℕ
  pub npi : ℕ
  pub address : CharPtr

-- t_as_smpp_datetime; `offset_minutes` is the bit pattern of an int16_t.
pub record Datetime : Type 0 where
  pub year : ℕ
  pub month : ℕ
  pub day : ℕ
  pub hour : ℕ
  pub minute : ℕ
  pub decisecond : ℕ
  pub offset_minutes : ℕ
  pub is_null : Bool

-- t_as_smpp_pdu_header
pub record PduHeader : Type 0 where
  pub command_length : ℕ
  pub command_id : ℕ
  pub status : ℕ
  pub sequence_no : ℕ

-- t_as_smpp_pdu_submit_sm, which is also t_as_smpp_pdu_deliver_sm
pub record PduSubmitSm : Type 0 where
  pub service_type : CharPtr
  pub source_address : Address
  pub destination_address : Address
  pub esm_class : ℕ
  pub protocol_id : ℕ
  pub priority : ℕ
  pub schedule_delivery_time : Datetime
  pub validity_period : Datetime
  pub registered_delivery : ℕ
  pub replace_if_present : Bool
  pub data_coding : ℕ
  pub default_message_id : ℕ
  pub message_length : ℕ
  pub message : List ℕ
