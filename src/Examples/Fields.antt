-- ===== src/Examples/Fields.antt =====
-- The theorems on buffers and on the fields of a PDU, at concrete inputs.
use as_smpp.Prelude.{ℕ, ◌≤◌, ◌≡◌, refl, arith, List, [], ◌∷◌, ◌++◌}
use as_smpp.Prelude.{ret, fault, some}
use as_smpp.Buffer.{Buffer, remove, copy}
use as_smpp.Buffer.Valid.{IsValid, contents}
use as_smpp.Buffer.Editing.{remove_lem}
use as_smpp.Types.{Tlv, ErrorCode}
use as_smpp.Serializer.{
  serialize_integer, deserialize_integer, serialize_string, deserialize_string,
}
use as_smpp.Serializer.Pdu.{deserialize_pdu_header, deserialize_tlv}
use as_smpp.Serializer.Spec.{big_endian, Holds}
use as_smpp.Serializer.Header.{deserialize_pdu_header_partial}
use as_smpp.Serializer.RoundTrip.{deserialize-serialize_integer, deserialize-serialize_string}
use as_smpp.Serializer.RoundTrip.{serialize_string_cut, copy_lem}
use as_smpp.Serializer.Text.{deserialize_string_overflow}
use as_smpp.Serializer.TlvList.{tlv_list_bytes, tlv_bytes, deserialize_tlv_lem}
use as_smpp.Examples.Data.{zeroed, zeroed-IsSupplied, buffer_of, buffer_of-IsValid}
use as_smpp.Examples.Data.{blank_header}

-- What a full buffer holds from its start on.
Holds-buffer_of :
    (xs ys : List ℕ) → IsValid (buffer_of (xs ++ ys)) → Holds (buffer_of (xs ++ ys)) 0 xs ys
Holds-buffer_of xs ys v = record { valid = v; inside = omega arith; cells = refl }

abbrev five : Buffer
five = buffer_of (1 ∷ 2 ∷ 3 ∷ 4 ∷ 5 ∷ [])

five-IsValid : IsValid five
five-IsValid = buffer_of-IsValid (1 ∷ 2 ∷ 3 ∷ 4 ∷ 5 ∷ []) (omega arith)

remove_lem_example :
    (b' : Buffer) × (remove five 1 3 ≡ ret b')
    × IsValid b'
    × (contents b' ≡ 1 ∷ 4 ∷ 5 ∷ [])
    × (b'.capacity ≡ 5)
remove_lem_example = remove_lem five 1 3 five-IsValid (omega arith) (omega arith)

copy_lem_example :
    (b' : Buffer) × (copy zeroed five (8 ∷ 9 ∷ []) 2 ≡ ret b')
    × IsValid b'
    × (contents b' ≡ 1 ∷ 2 ∷ 3 ∷ 4 ∷ 5 ∷ 8 ∷ 9 ∷ [])
    × (b'.capacity ≤ 23)
copy_lem_example =
    copy_lem zeroed zeroed-IsSupplied five (8 ∷ 9 ∷ []) 2 (omega arith) five-IsValid (omega arith)

deserialize-serialize_integer_example :
    (b' : Buffer) × (serialize_integer zeroed five 0x1234 2 ≡ ret b')
    × IsValid b'
    × (contents b' ≡ 1 ∷ 2 ∷ 3 ∷ 4 ∷ 5 ∷ 0x12 ∷ 0x34 ∷ [])
    × (deserialize_integer b' 5 2 ≡ ret (0x1234, b'.data_len))
unfolding big_endian
deserialize-serialize_integer_example =
    deserialize-serialize_integer zeroed zeroed-IsSupplied five 0x1234 2 (omega arith) five-IsValid
      (omega arith)

deserialize-serialize_string_example :
    (b' : Buffer) × (serialize_string zeroed five (some (97 ∷ 98 ∷ 0 ∷ [])) 6 ≡ ret b')
    × IsValid b'
    × (contents b' ≡ 1 ∷ 2 ∷ 3 ∷ 4 ∷ 5 ∷ 97 ∷ 98 ∷ 0 ∷ [])
    × (deserialize_string (some (7 ∷ 7 ∷ 7 ∷ 7 ∷ [])) b' 5 4
        ≡ ret (some (97 ∷ 98 ∷ 0 ∷ 7 ∷ []), b'.data_len))
deserialize-serialize_string_example =
    deserialize-serialize_string zeroed zeroed-IsSupplied five (97 ∷ 98 ∷ []) []
      (7 ∷ 7 ∷ 7 ∷ 7 ∷ []) 6 4 ((omega arith, omega arith), ((omega arith, omega arith), tt))
      (omega arith) (omega arith) five-IsValid (omega arith)

serialize_string_cut_example :
    (b' : Buffer) × (serialize_string zeroed five (some (97 ∷ 98 ∷ 99 ∷ 0 ∷ [])) 2 ≡ ret b')
    × (contents b' ≡ 1 ∷ 2 ∷ 3 ∷ 4 ∷ 5 ∷ 97 ∷ 98 ∷ [])
serialize_string_cut_example =
    serialize_string_cut zeroed zeroed-IsSupplied five (97 ∷ 98 ∷ 99 ∷ []) [] 2
      ((omega arith, omega arith), ((omega arith, omega arith), ((omega arith, omega arith), tt)))
      (omega arith) five-IsValid (omega arith)

deserialize_string_overflow_example :
    deserialize_string (some (7 ∷ 7 ∷ [])) (buffer_of (97 ∷ 98 ∷ 0 ∷ [])) 0 2 ≡ fault
deserialize_string_overflow_example =
    deserialize_string_overflow (97 ∷ 98 ∷ []) (7 ∷ 7 ∷ []) 2 (buffer_of (97 ∷ 98 ∷ 0 ∷ [])) 0 []
      ((omega arith, omega arith), ((omega arith, omega arith), tt)) (omega arith)
      (Holds-buffer_of (97 ∷ 98 ∷ 0 ∷ []) [] (buffer_of-IsValid (97 ∷ 98 ∷ 0 ∷ []) (omega arith)))

abbrev two_parameters : List Tlv
two_parameters =
    record { tag = 0x427; length = 1; value = 2 ∷ [] }
    ∷ record { tag = 0x1e; length = 2; value = 97 ∷ 0 ∷ [] }
    ∷ []

abbrev parameter_bytes : List ℕ
parameter_bytes = 4 ∷ 0x27 ∷ 0 ∷ 1 ∷ 2 ∷ 0 ∷ 0x1e ∷ 0 ∷ 2 ∷ 97 ∷ 0 ∷ []

parameters-Holds : Holds (buffer_of parameter_bytes) 0 (tlv_list_bytes two_parameters) []
unfolding tlv_list_bytes tlv_bytes big_endian
parameters-Holds =
    Holds-buffer_of parameter_bytes [] (buffer_of-IsValid parameter_bytes (omega arith))

deserialize_tlv_lem_example :
    deserialize_tlv zeroed 11 (buffer_of parameter_bytes) 0 11 ≡ ret (two_parameters, 11)
unfolding tlv_list_bytes tlv_bytes big_endian
deserialize_tlv_lem_example =
    deserialize_tlv_lem zeroed zeroed-IsSupplied two_parameters 11 0 11 []
      (
        record { tag = omega arith; counted = refl; short = omega arith },
        (record { tag = omega arith; counted = refl; short = omega arith }, tt),
      )
      (omega arith) refl parameters-Holds

deserialize_pdu_header_partial_example :
    deserialize_pdu_header blank_header (buffer_of (0 ∷ 0 ∷ 0 ∷ 16 ∷ 0 ∷ [])) 0
    ≡ ret (ErrorCode.incomplete_data, record blank_header { command_length = 16 }, 4)
unfolding big_endian
deserialize_pdu_header_partial_example =
    deserialize_pdu_header_partial blank_header 16 (buffer_of (0 ∷ 0 ∷ 0 ∷ 16 ∷ 0 ∷ [])) 0 (0 ∷ [])
      (omega arith)
      (Holds-buffer_of (0 ∷ 0 ∷ 0 ∷ 16 ∷ []) (0 ∷ [])
        (buffer_of-IsValid (0 ∷ 0 ∷ 0 ∷ 16 ∷ 0 ∷ []) (omega arith)))
      (omega arith) (omega arith)
