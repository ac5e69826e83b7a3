-- ===== src/Examples/Data.antt =====
-- The data that the examples share: an allocator, a network, a session and messages.
use as_smpp.Prelude.{ℕ, ◌<◌, ◌≡◌, refl, ◌∙◌, arith, true, false, none, some}
use as_smpp.Prelude.{List, [], ◌∷◌, ◌++◌, length, take, replicate}
use as_smpp.Prelude.{length-replicate, length-take, length-append, take-append, take-take, take-all}
use as_smpp.Memory.{Memory, IsSupplied, size_mod}
use as_smpp.Buffer.{Buffer}
use as_smpp.Buffer.Valid.{IsValid, contents}
use as_smpp.Types.{PduHeader, PduSubmitSm, Datetime, Address}
use as_smpp.Session.{Session, SessionMode, SessionState, World}
use as_smpp.Net.{Platform}
use as_smpp.Serializer.Submit.{Buffers, HasSizes, Message, IsMessage}
use as_smpp.Smpp.BindFrame.{Login, IsLogin}
use as_smpp.Smpp.Worker.{Locals}

-- Blocks of zeros; a block that grows keeps its cells.
abbrev pub zeroed : Memory
zeroed = record {
  malloc = λ n. replicate n 0;
  realloc = λ block n. take n (block ++ replicate n 0);
}

pub zeroed-IsSupplied : IsSupplied zeroed
zeroed-IsSupplied = record {
  length-malloc = λ n h. length-replicate {A = ℕ} n 0;
  length-realloc = λ block n h. omega (
    arith,
    length-take n (block ++ replicate n 0),
    length-append block (replicate n 0),
    length-replicate {A = ℕ} n 0,
  );
  realloc_keeps = λ block n h k.
      take-take (length block) n (block ++ replicate n 0) k
      ∙ take-append block (replicate n 0) (length block) refl;
}

-- A network where each step succeeds: the address list is 3 and the socket is 7.
abbrev pub online : Platform
online = record {
  getaddrinfo = λ host port. some 3;
  socket = λ address. some 7;
  connect = λ fd address. true;
  send = λ fd bytes. some (length bytes);
}

-- One where the peer refuses.
abbrev pub refusing : Platform
refusing = record {
  getaddrinfo = λ host port. some 3;
  socket = λ address. some 7;
  connect = λ fd address. false;
  send = λ fd bytes. none;
}

-- A buffer that is full of these bytes.
abbrev pub buffer_of : List ℕ → Buffer
buffer_of bytes = record { ptr = bytes; data_len = length bytes; capacity = length bytes }

pub buffer_of-IsValid : (bytes : List ℕ) → length bytes < size_mod → IsValid (buffer_of bytes)
buffer_of-IsValid bytes h = record { sized = refl; filled = omega arith; bounded = h }

pub contents-buffer_of : (bytes : List ℕ) → contents (buffer_of bytes) ≡ bytes
contents-buffer_of bytes = take-all (length bytes) bytes (omega arith)

-- A transceiver's session with the number 5 next, which has received these bytes.
abbrev pub session_with : List ℕ → Session
session_with received = record {
  state = SessionState.opened;
  socket_handle = 7;
  sequence_no = 5;
  smpp_version = 0x34;
  mode = SessionMode.transceiver;
  receive_buffer = buffer_of received;
  send_buffer = buffer_of [];
  use_udh = false;
  use_message_payload_tlv = false;
  max_sm_length = 140;
  handler_bind_response = some 1;
  handler_submit_response = some 2;
  handler_deliver = some 3;
}

abbrev pub world_with : List ℕ → World
world_with received = record { session = session_with received; trace = [] }

pub empty-IsValid : IsValid (buffer_of [])
empty-IsValid = buffer_of-IsValid [] (omega arith)

-- "123" to "45", "hi"
abbrev pub greeting : Message
greeting = record {
  service_type = 67 ∷ [];
  source = record { ton = 1; npi = 1; digits = 49 ∷ 50 ∷ 51 ∷ [] };
  destination = record { ton = 0; npi = 1; digits = 52 ∷ 53 ∷ [] };
  data_coding = 8;
  text = 104 ∷ 105 ∷ [];
}

pub greeting-IsMessage : IsMessage greeting
greeting-IsMessage = record {
  service_chars = ((omega arith, omega arith), tt);
  service_short = omega arith;
  source = record {
    ton = omega arith;
    npi = omega arith;
    chars = (
      (omega arith, omega arith),
      ((omega arith, omega arith), ((omega arith, omega arith), tt)),
    );
    short = omega arith;
  };
  destination = record {
    ton = omega arith;
    npi = omega arith;
    chars = ((omega arith, omega arith), ((omega arith, omega arith), tt));
    short = omega arith;
  };
  coding = omega arith;
  short = omega arith;
}

-- The system "ab" with the password "c", of no type and with no range.
abbrev pub account : Login
account = record {
  system_id = 97 ∷ 98 ∷ [];
  password = 99 ∷ [];
  system_type = [];
  ton = 1;
  npi = 1;
  address_range = [];
}

pub account-IsLogin : IsLogin account
account-IsLogin = record {
  system_id = record {
    chars = ((omega arith, omega arith), ((omega arith, omega arith), tt));
    short = omega arith;
  };
  password = record { chars = ((omega arith, omega arith), tt); short = omega arith };
  system_type = record { chars = tt; short = omega arith };
  address_range = record { chars = tt; short = omega arith };
}

abbrev no_date : Datetime
no_date = record {
  year = 0;
  month = 0;
  day = 0;
  hour = 0;
  minute = 0;
  decisecond = 0;
  offset_minutes = 0;
  is_null = false;
}

abbrev no_address : Address
no_address = record { ton = 0; npi = 0; address = none }

abbrev pub blank_pdu : PduSubmitSm
blank_pdu = record {
  service_type = none;
  source_address = no_address;
  destination_address = no_address;
  esm_class = 0;
  protocol_id = 0;
  priority = 0;
  schedule_delivery_time = no_date;
  validity_period = no_date;
  registered_delivery = 0;
  replace_if_present = false;
  data_coding = 0;
  default_message_id = 0;
  message_length = 0;
  message = [];
}

abbrev pub blank_buffers : Buffers
blank_buffers = record {
  service_type = replicate 6 0;
  source = replicate 21 0;
  destination = replicate 21 0;
  message = replicate 256 0;
}

pub blank_buffers-HasSizes : HasSizes blank_buffers
blank_buffers-HasSizes = record {
  service_type = length-replicate {A = ℕ} 6 0;
  source = length-replicate {A = ℕ} 21 0;
  destination = length-replicate {A = ℕ} 21 0;
  message = length-replicate {A = ℕ} 256 0;
}

abbrev pub blank_header : PduHeader
blank_header = record { command_length = 0; command_id = 0; status = 0; sequence_no = 0 }

abbrev pub blank_locals : Locals
blank_locals = record {
  header = blank_header;
  system_id = replicate 16 0;
  message_id = replicate 65 0;
  request = blank_pdu;
  request_buffers = blank_buffers;
}
