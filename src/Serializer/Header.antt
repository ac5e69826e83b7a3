-- ===== src/Serializer/Header.antt =====
-- as_smpp_serialize_pdu_header and as_smpp_deserialize_pdu_header.
use as_smpp.Prelude.{ℕ, ◌+◌, ◌^◌, ◌≤◌, ◌<◌, ◌≡◌, refl, ap, arith}
use as_smpp.Prelude.{List, ◌++◌, ret, length, lt→ltb, ltb-false}
use as_smpp.Memory.{Memory, IsSupplied}
use as_smpp.Buffer.{Buffer}
use as_smpp.Buffer.Valid.{Writes, Writes-bind}
use as_smpp.Types.{ErrorCode, PduHeader}
use as_smpp.Serializer.Pdu.{serialize_pdu_header, deserialize_pdu_header}
use as_smpp.Serializer.Spec.{big_endian, Holds}
use as_smpp.Serializer.Integer.{serialize_integer-Writes, read_field, read_last}

-- The sixteen bytes of a header.
unfoldable pub header_bytes : PduHeader → List ℕ
header_bytes h =
    big_endian 4 h.command_length
    ++ (big_endian 4 h.command_id ++ (big_endian 4 h.status ++ big_endian 4 h.sequence_no))

pub length-header_bytes : (h : PduHeader) → length (header_bytes h) ≡ 16
unfolding header_bytes big_endian
length-header_bytes h = refl

module _ (mem : Memory) (supply : IsSupplied mem) where
  pub serialize_pdu_header-Writes :
      (h : PduHeader)
      → Writes 80
          (header_bytes h)
          (λ b. serialize_pdu_header mem b h.command_length h.command_id h.status h.sequence_no)
  unfolding serialize_pdu_header header_bytes
  serialize_pdu_header-Writes h =
      let field = λ (v : ℕ). serialize_integer-Writes mem supply 4 v (omega arith) in
      Writes-bind (field h.command_length)
        (Writes-bind (field h.command_id) (Writes-bind (field h.status) (field h.sequence_no)))

-- The four fields of a header are 32-bit words.
pub record IsHeader (h : PduHeader) : Type 0 where
  pub command_length : h.command_length < 2 ^ 32
  pub command_id : h.command_id < 2 ^ 32
  pub status : h.status < 2 ^ 32
  pub sequence_no : h.sequence_no < 2 ^ 32

-- Where a well-formed buffer holds the sixteen bytes of a header whose fields are 32-bit words, and has
-- four bytes of data and as many as the header states: the header is read back without an error.
pub deserialize_pdu_header_complete :
    (h old : PduHeader) (b : Buffer) (index : ℕ) (rest : List ℕ)
    → IsHeader h
    → Holds b index (header_bytes h) rest
    → 4 ≤ b.data_len
    → h.command_length ≤ b.data_len
    → deserialize_pdu_header old b index ≡ ret (ErrorCode.none, h, index + 16)
unfolding deserialize_pdu_header header_bytes
deserialize_pdu_header_complete h old b index rest w held some all =
    let len = h.command_length in
    let (r₁, h₁) = read_field 4 len _ rest (omega arith) w.command_length held in
    let (r₂, h₂) = read_field 4 h.command_id _ rest (omega arith) w.command_id h₁ in
    let (r₃, h₃) = read_field 4 h.status _ rest (omega arith) w.status h₂ in
    let r₄ = read_last 4 h.sequence_no rest (omega arith) w.sequence_no h₃ in
    rw (ltb-false b.data_len 4 some, r₁, ltb-false b.data_len len all, r₂, r₃, r₄)
      (ap (λ i. ret (ErrorCode.none, h, i))
        (let e : index + 4 + 4 + 4 + 4 ≡ index + 16 = omega arith in e))

-- Fewer than four bytes of data: nothing is read.
pub deserialize_pdu_header_short :
    (old : PduHeader) (b : Buffer) (index : ℕ)
    → b.data_len < 4
    → deserialize_pdu_header old b index ≡ ret (ErrorCode.incomplete_data, old, index)
unfolding deserialize_pdu_header
deserialize_pdu_header_short old b index h = rw (lt→ltb b.data_len 4 h)

-- Where a well-formed buffer has four bytes of data and fewer than the length of 32 bits that stands at
-- the index: the error code says that data are missing, only the length is set, and the index is
-- behind it.
pub deserialize_pdu_header_partial :
    (old : PduHeader) (len : ℕ) (b : Buffer) (index : ℕ) (rest : List ℕ)
    → len < 2 ^ 32
    → Holds b index (big_endian 4 len) rest
    → 4 ≤ b.data_len
    → b.data_len < len
    → deserialize_pdu_header old b index
      ≡ ret (ErrorCode.incomplete_data, record old { command_length = len }, index + 4)
unfolding deserialize_pdu_header
deserialize_pdu_header_partial old len b index rest w held some less = rw (
  ltb-false b.data_len 4 some,
  read_last 4 len rest (omega arith) w held,
  lt→ltb b.data_len len less,
)
