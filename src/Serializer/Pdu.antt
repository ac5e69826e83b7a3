-- ===== src/Serializer/Pdu.antt =====
-- src/as-smpp-core/src/serializer.c, from the addresses to the PDU bodies.
use as_smpp.Prelude.{ℕ, zero, suc, ◌+◌, ◌%◌, ◌^◌, ltb, ◌==◌, if◌then◌else◌, true, false}
use as_smpp.Prelude.{List, [], ◌∷◌, none, some, drop, get_elem?, replicate}
use as_smpp.Prelude.{Run, ret, fault, starved, access, ◌>>=◌}
use as_smpp.Memory.{Memory}
use as_smpp.Buffer.{Buffer}
use as_smpp.Buffer.Cells.{store}
use as_smpp.Types
use as_smpp.Types.{ErrorCode, CharPtr, Address, Datetime, Tlv, PduHeader, PduSubmitSm}
use as_smpp.Serializer.{serialize_integer, serialize_string, serialize_binary}
use as_smpp.Serializer.Macros.{
  serialize_command_length, serialize_command_id, serialize_command_status, serialize_sequence_no,
  serialize_service_type,
}
use as_smpp.Serializer.{deserialize_integer, deserialize_string, deserialize_binary}

module _ (mem : Memory) where
  -- as_smpp_serialize_address
  unfoldable pub serialize_address : Buffer → Address → Run Buffer
  serialize_address b a = do
    b ← serialize_integer mem b a.ton Types.length_ton
    b ← serialize_integer mem b a.npi Types.length_npi
    serialize_string mem b a.address Types.length_address

-- as_smpp_deserialize_address
unfoldable pub deserialize_address : Address → Buffer → ℕ → Run (Address × ℕ)
deserialize_address a b index = do
  (ton, index) ← deserialize_integer b index Types.length_ton
  (npi, index) ← deserialize_integer b index Types.length_npi
  (address, index) ← deserialize_string a.address b index Types.length_address
  ret (record { ton = ton; npi = npi; address = address }, index)

-- The first cell of the local `buffer`, which the strcpy has written.
unfoldable pub first_char : CharPtr → Run ℕ
first_char none = fault
first_char (some cells) = access (get_elem? cells 0)

-- as_smpp_deserialize_datetime. The local `buffer` starts out indeterminate; it is read only at its
-- first cell, which the copy has overwritten by then.
unfoldable pub deserialize_datetime : Datetime → Buffer → ℕ → Run (Datetime × ℕ)
deserialize_datetime d b index = do
  (buffer, index) ←
      deserialize_string (some (replicate Types.length_datetime 0)) b index Types.length_datetime
  c ← first_char buffer
  ret (if c == 0 then (d, index) else (record d { is_null = true }, index))

-- sizeof( t_as_smpp_tlv ) where pointers have 64 bits
abbrev pub tlv_size : ℕ
tlv_size = 24

module _ (mem : Memory) where
  -- One round of the loop of as_smpp_deserialize_tlv.
  unfoldable pub read_tlv : Buffer → ℕ → Run (Tlv × ℕ)
  read_tlv b index = do
    (tag, index) ← deserialize_integer b index 2
    (len, index) ← deserialize_integer b index 2
    let tag = tag % 2 ^ 16
    let len = len % 2 ^ 16
    let block = drop tlv_size (mem.malloc (tlv_size + len))
    (value, index) ← deserialize_binary block b index len
    ret (record { tag = tag; length = len; value = value }, index)

  -- as_smpp_deserialize_tlv, with fuel for its loop
  unfoldable pub deserialize_tlv : ℕ → Buffer → ℕ → ℕ → Run (List Tlv × ℕ)
  deserialize_tlv zero b index pdu_length =
      if ltb index pdu_length then starved else ret ([], index)
  deserialize_tlv (suc fuel) b index pdu_length = elim (ltb index pdu_length) [
    | false ↦ ret ([], index)
    | true ↦ do
      (tlv, index) ← read_tlv b index
      (rest, index) ← deserialize_tlv fuel b index pdu_length
      ret (tlv ∷ rest, index)
  ]

  -- as_smpp_serialize_pdu_header
  unfoldable pub serialize_pdu_header : Buffer → ℕ → ℕ → ℕ → ℕ → Run Buffer
  serialize_pdu_header b command_length command_id status sequence_no = do
    b ← serialize_command_length mem b command_length
    b ← serialize_command_id mem b command_id
    b ← serialize_command_status mem b status
    serialize_sequence_no mem b sequence_no

-- as_smpp_deserialize_pdu_header: the error code, and the header and the index as they are left.
unfoldable pub deserialize_pdu_header : PduHeader → Buffer → ℕ → Run (ErrorCode × PduHeader × ℕ)
deserialize_pdu_header h b index =
    if ltb b.data_len Types.length_command_length
    then ret (ErrorCode.incomplete_data, h, index)
    else do
      (command_length, index) ← deserialize_integer b index Types.length_command_length
      let h = record h { command_length = command_length }
      if ltb b.data_len command_length then ret (ErrorCode.incomplete_data, h, index) else do
        (command_id, index) ← deserialize_integer b index Types.length_command_id
        (status, index) ← deserialize_integer b index Types.length_command_status
        (sequence_no, index) ← deserialize_integer b index Types.length_sequence_no
        ret (
          ErrorCode.none,
          record h { command_id = command_id; status = status; sequence_no = sequence_no },
          index,
        )

module _ (mem : Memory) where
  -- as_smpp_serialize_pdu_submit_sm
  unfoldable pub serialize_pdu_submit_sm :
      Buffer → CharPtr → Address → Address → ℕ → Buffer → Run Buffer
  serialize_pdu_submit_sm b service_type source destination data_coding message = do
    b ← serialize_service_type mem b service_type
    b ← serialize_address mem b source
    b ← serialize_address mem b destination
    b ← serialize_integer mem b Types.esm_class_mode_default Types.length_esm_class
    b ← serialize_integer mem b 0 Types.length_protocol_id
    b ← serialize_integer mem b 0 Types.length_priority_flag
    b ← serialize_integer mem b 0 1
    b ← serialize_integer mem b 0 1
    b ← serialize_integer mem b Types.receipt_success_or_failure Types.length_registered_delivery
    b ← serialize_integer mem b 0 Types.length_replace_if_present_flag
    b ← serialize_integer mem b data_coding Types.length_data_coding
    b ← serialize_integer mem b 0 Types.length_sm_default_message_id
    b ← serialize_integer mem b (message.data_len % 2 ^ 32) Types.length_sm_length
    serialize_binary mem b message.ptr message.data_len

-- as_smpp_deserialize_pdu_submit_sm
unfoldable pub deserialize_pdu_submit_sm : PduSubmitSm → Buffer → ℕ → Run (PduSubmitSm × ℕ)
deserialize_pdu_submit_sm pdu b index = do
  (service_type, index) ← deserialize_string pdu.service_type b index Types.length_service_type
  (source, index) ← deserialize_address pdu.source_address b index
  (destination, index) ← deserialize_address pdu.destination_address b index
  (esm_class, index) ← deserialize_integer b index Types.length_esm_class
  (protocol_id, index) ← deserialize_integer b index Types.length_protocol_id
  (priority, index) ← deserialize_integer b index Types.length_priority_flag
  (schedule, index) ← deserialize_datetime pdu.schedule_delivery_time b index
  (validity, index) ← deserialize_datetime pdu.validity_period b index
  (registered, index) ← deserialize_integer b index Types.length_registered_delivery
  (replace, index) ← deserialize_integer b index Types.length_replace_if_present_flag
  (data_coding, index) ← deserialize_integer b index Types.length_data_coding
  (default_id, index) ← deserialize_integer b index Types.length_sm_default_message_id
  (len, index) ← deserialize_integer b index Types.length_sm_length
  (message, index) ← deserialize_binary pdu.message b index len
  message ← store message len 0
  ret (
    record {
      service_type = service_type;
      source_address = source;
      destination_address = destination;
      esm_class = esm_class;
      protocol_id = protocol_id;
      priority = priority;
      schedule_delivery_time = schedule;
      validity_period = validity;
      registered_delivery = registered;
      replace_if_present = replace == 1;
      data_coding = data_coding;
      default_message_id = default_id;
      message_length = len;
      message = message;
    },
    index,
  )

-- as_smpp_deserialize_pdu_deliver_sm
unfoldable pub deserialize_pdu_deliver_sm : PduSubmitSm → Buffer → ℕ → Run (PduSubmitSm × ℕ)
deserialize_pdu_deliver_sm = deserialize_pdu_submit_sm
