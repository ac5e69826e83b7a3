-- ===== src/Serializer/Macros.antt =====
-- The macros of src/as-smpp-core/include/private-serializer.h.
use as_smpp.Prelude.{ℕ, Run}
use as_smpp.Memory.{Memory}
use as_smpp.Buffer.{Buffer}
use as_smpp.Types
use as_smpp.Types.{CharPtr}
use as_smpp.Serializer.{serialize_integer, serialize_string}

module _ (mem : Memory) where
  abbrev pub serialize_command_length : Buffer → ℕ → Run Buffer
  serialize_command_length b value = serialize_integer mem b value 4

  abbrev pub serialize_command_id : Buffer → ℕ → Run Buffer
  serialize_command_id b value = serialize_integer mem b value 4

  abbrev pub serialize_command_status : Buffer → ℕ → Run Buffer
  serialize_command_status b value = serialize_integer mem b value 4

  abbrev pub serialize_sequence_no : Buffer → ℕ → Run Buffer
  serialize_sequence_no b value = serialize_integer mem b value 4

  abbrev pub serialize_system_id : Buffer → CharPtr → Run Buffer
  serialize_system_id b value = serialize_string mem b value Types.length_system_id

  abbrev pub serialize_password : Buffer → CharPtr → Run Buffer
  serialize_password b value = serialize_string mem b value 9

  abbrev pub serialize_system_type : Buffer → CharPtr → Run Buffer
  serialize_system_type b value = serialize_string mem b value 13

  abbrev pub serialize_version : Buffer → ℕ → Run Buffer
  serialize_version b value = serialize_integer mem b value 1

  abbrev pub serialize_ton : Buffer → ℕ → Run Buffer
  serialize_ton b value = serialize_integer mem b value 1

  abbrev pub serialize_npi : Buffer → ℕ → Run Buffer
  serialize_npi b value = serialize_integer mem b value 1

  abbrev pub serialize_address_range : Buffer → CharPtr → Run Buffer
  serialize_address_range b value = serialize_string mem b value 41

  abbrev pub serialize_service_type : Buffer → CharPtr → Run Buffer
  serialize_service_type b value = serialize_string mem b value Types.length_service_type
