-- ===== src/Examples/Packets.antt =====
-- The theorems on PDUs of every command, at concrete inputs.
use as_smpp.Prelude.{ℕ, ◌+◌, ◌<◌, ◌≡◌, refl, arith, List, [], ◌∷◌, ◌++◌}
use as_smpp.Prelude.{ret, sym, ◌∙◌, append-nil, take, drop, length, length-replicate, All}
use as_smpp.Buffer.Valid.{IsValid}
use as_smpp.Types.{PduHeader}
use as_smpp.Session.{SessionMode, SessionState, World}
use as_smpp.Serializer.Spec.{big_endian}
use as_smpp.Serializer.Header.{header_bytes}
use as_smpp.Smpp.{bind_command}
use as_smpp.Smpp.Framing.{frame}
use as_smpp.Smpp.Worker.{drain, dispatch, receive_worker}
use as_smpp.Smpp.Receiving.{short}
use as_smpp.Smpp.Packets.{
  Body, Packet, header_of, HasArrays, IsBody, IsPacket, body_bytes, command_of, packet_bytes,
  stream,
}
use as_smpp.Smpp.Serving.{links_of, cost, state_changed, Serves}
use as_smpp.Smpp.Dispatching.{dispatch-Serves}
use as_smpp.Smpp.Draining.{costs, served_all, ServesAll, drain-stream}
use as_smpp.Smpp.Stream.{joined, IsChunk}
use as_smpp.Smpp.Reassembly.{receive_worker-stream}
use as_smpp.Serializer.Address.{address_bytes}
use as_smpp.Serializer.TlvList.{tlv_bytes, tlv_list_bytes}
use as_smpp.Serializer.Delivery.{
  Delivery, IsDelivery, delivery_bytes, delivered, deserialize_pdu_submit_sm-delivered,
}
use as_smpp.Serializer.Pdu.{deserialize_pdu_submit_sm}
use as_smpp.Serializer.Submit.{init_pdu_submit_sm}
use as_smpp.Session.{Event}
use as_smpp.Converter.{init}
use as_smpp.Demo.{printed_all}
use as_smpp.Demo.Receiving.{lines_of_all, receive_worker-lines_of_all}
use as_smpp.Examples.Data.{zeroed, zeroed-IsSupplied, online, buffer_of, buffer_of-IsValid}
use as_smpp.Examples.Data.{
  contents-buffer_of, world_with, empty-IsValid, blank_header, blank_locals, blank_buffers-HasSizes,
  blank_buffers, blank_pdu,
}

-- A receipt with a parameter, "a" with the tag 0x427.
abbrev receipt : Delivery
receipt = record {
  service_type = [];
  source = record { ton = 1; npi = 1; digits = 49 ∷ [] };
  destination = record { ton = 0; npi = 1; digits = [] };
  esm_class = 4;
  protocol_id = 0;
  priority = 0;
  schedule = [];
  validity = 50 ∷ [];
  registered = 0;
  replace = 1;
  data_coding = 3;
  default_id = 0;
  text = 111 ∷ 107 ∷ [];
}

receipt-IsDelivery : IsDelivery receipt
receipt-IsDelivery = record {
  service_chars = tt;
  service_short = omega arith;
  source = record {
    ton = omega arith;
    npi = omega arith;
    chars = ((omega arith, omega arith), tt);
    short = omega arith;
  };
  destination = record { ton = omega arith; npi = omega arith; chars = tt; short = omega arith };
  esm_class = omega arith;
  protocol_id = omega arith;
  priority = omega arith;
  schedule = record { chars = tt; short = omega arith };
  validity = record { chars = ((omega arith, omega arith), tt); short = omega arith };
  registered = omega arith;
  replace = omega arith;
  coding = omega arith;
  default_id = omega arith;
  short = omega arith;
}

-- The answer to a bind request with a parameter behind its text, a request, a receipt, the answer to a
-- message, and a negative acknowledgement.
abbrev five : List Packet
five =
    record {
      status = 0;
      sequence_no = 1;
      body = Body.bind_answer SessionMode.transceiver (97 ∷ []) (2 ∷ 16 ∷ 0 ∷ 0 ∷ []);
    }
    ∷ record { status = 0; sequence_no = 8; body = Body.enquiry [] }
    ∷ record {
      status = 0;
      sequence_no = 9;
      body = Body.delivery receipt (record { tag = 0x427; length = 1; value = 97 ∷ [] } ∷ []);
    }
    ∷ record { status = 0; sequence_no = 5; body = Body.submit_answer (49 ∷ 50 ∷ []) [] }
    ∷ record { status = 3; sequence_no = 6; body = Body.other 0x8000_0000 [] }
    ∷ []

five-IsPacket : All IsPacket five
unfolding IsBody body_bytes delivery_bytes tlv_list_bytes tlv_bytes big_endian address_bytes
five-IsPacket = (
  record {
    status = omega arith;
    sequence_no = omega arith;
    fits = (((omega arith, omega arith), tt), omega arith);
    short = omega arith;
  },
  (
    record { status = omega arith; sequence_no = omega arith; fits = tt; short = omega arith },
    (
      record {
        status = omega arith;
        sequence_no = omega arith;
        fits = (
          receipt-IsDelivery,
          (record { tag = omega arith; counted = refl; short = omega arith }, tt),
        );
        short = omega arith;
      },
      (
        record {
          status = omega arith;
          sequence_no = omega arith;
          fits = (((omega arith, omega arith), ((omega arith, omega arith), tt)), omega arith);
          short = omega arith;
        },
        (
          record {
            status = omega arith;
            sequence_no = omega arith;
            fits = record {
              word = omega arith;
              not_enquire_link = omega arith;
              not_deliver_sm = omega arith;
              not_bind_receiver_response = omega arith;
              not_bind_transmitter_response = omega arith;
              not_bind_transceiver_response = omega arith;
              not_submit_sm_response = omega arith;
            };
            short = omega arith;
          },
          tt,
        ),
      ),
    ),
  ),
)

blank_locals-HasArrays : HasArrays blank_locals
blank_locals-HasArrays = record {
  system_id = length-replicate {A = ℕ} 16 0;
  message_id = length-replicate {A = ℕ} 65 0;
  request = blank_buffers-HasSizes;
}

-- The five PDUs, and two bytes of the next.
abbrev five_bytes : List ℕ
five_bytes = stream five ++ (0 ∷ 0 ∷ [])

five_bytes-IsValid : IsValid (buffer_of five_bytes)
unfolding stream packet_bytes frame header_bytes body_bytes command_of delivery_bytes tlv_list_bytes
    tlv_bytes big_endian address_bytes bind_command
five_bytes-IsValid = buffer_of-IsValid five_bytes (omega arith)

drain-stream_example :
    (last : PduHeader) × (w' : World) × (drain zeroed online blank_locals 6 blank_header
        (world_with five_bytes)
      ≡ ret (last, w'))
    × ServesAll blank_locals five (0 ∷ 0 ∷ []) (world_with five_bytes) w'
unfolding costs cost
drain-stream_example =
    drain-stream zeroed online blank_locals zeroed-IsSupplied blank_locals-HasArrays five
      (0 ∷ 0 ∷ []) 6 blank_header (world_with five_bytes) five-IsPacket (omega arith)
      five_bytes-IsValid empty-IsValid (omega arith) (contents-buffer_of five_bytes)
      (short (omega arith))

-- The same bytes in three chunks.
abbrev three_chunks : List (List ℕ)
three_chunks = take 3 five_bytes ∷ take 50 (drop 3 five_bytes) ∷ drop 50 (drop 3 five_bytes) ∷ []

joined-three_chunks : joined three_chunks ≡ five_bytes
unfolding joined stream packet_bytes frame header_bytes body_bytes command_of delivery_bytes
    tlv_list_bytes tlv_bytes big_endian address_bytes bind_command
joined-three_chunks = refl

three_chunks-IsChunk : All IsChunk three_chunks
unfolding stream packet_bytes frame header_bytes body_bytes command_of delivery_bytes tlv_list_bytes
    tlv_bytes big_endian address_bytes bind_command
three_chunks-IsChunk =
    ((omega arith, omega arith), ((omega arith, omega arith), ((omega arith, omega arith), tt)))

length-three_chunks : length (joined three_chunks) < 1000
unfolding joined stream packet_bytes frame header_bytes body_bytes command_of delivery_bytes
    tlv_list_bytes tlv_bytes big_endian address_bytes bind_command
length-three_chunks = omega arith

receive_worker-stream_example :
    (w' : World) × (receive_worker zeroed online blank_locals 6 (world_with []) three_chunks
      ≡ ret w')
    × (w'.trace ≡ served_all blank_locals (links_of (world_with []).session) five ++ state_changed)
    × (w'.session.state ≡ SessionState.closed)
unfolding costs cost
receive_worker-stream_example =
    receive_worker-stream zeroed online blank_locals zeroed-IsSupplied blank_locals-HasArrays
      three_chunks five (0 ∷ 0 ∷ []) 6 (world_with []) three_chunks-IsChunk five-IsPacket
      joined-three_chunks (short (omega arith)) (omega arith) empty-IsValid empty-IsValid refl
      (omega (arith, length-three_chunks)) (omega arith)

-- The receipt by itself.
abbrev receipt_packet : Packet
receipt_packet = record {
  status = 0;
  sequence_no = 9;
  body = Body.delivery receipt (record { tag = 0x427; length = 1; value = 97 ∷ [] } ∷ []);
}

receipt_packet-IsPacket : IsPacket receipt_packet
receipt_packet-IsPacket = five-IsPacket.1.1.0

receipt_packet-IsValid : IsValid (buffer_of (packet_bytes receipt_packet))
unfolding packet_bytes frame header_bytes body_bytes command_of delivery_bytes tlv_list_bytes
    tlv_bytes big_endian address_bytes
receipt_packet-IsValid = buffer_of-IsValid (packet_bytes receipt_packet) (omega arith)

dispatch-Serves_example :
    let w = world_with (packet_bytes receipt_packet) in
    (w' : World) × (dispatch zeroed online blank_locals w (header_of receipt_packet) 16 ≡ ret w')
    × Serves blank_locals receipt_packet w w'
unfolding cost
dispatch-Serves_example =
    dispatch-Serves zeroed online blank_locals zeroed-IsSupplied blank_locals-HasArrays
      receipt_packet [] (world_with (packet_bytes receipt_packet)) receipt_packet-IsPacket
      receipt_packet-IsValid empty-IsValid
      (contents-buffer_of (packet_bytes receipt_packet)
        ∙ sym (append-nil (packet_bytes receipt_packet)))
      (omega arith)

receipt-IsValid : IsValid (buffer_of (delivery_bytes receipt))
unfolding delivery_bytes big_endian address_bytes
receipt-IsValid = buffer_of-IsValid (delivery_bytes receipt) (omega arith)

deserialize_pdu_submit_sm-delivered_example :
    deserialize_pdu_submit_sm
      (init_pdu_submit_sm blank_pdu blank_buffers)
      (buffer_of (delivery_bytes receipt))
      0
    ≡ ret (delivered receipt blank_pdu blank_buffers, 0 + length (delivery_bytes receipt))
deserialize_pdu_submit_sm-delivered_example =
    deserialize_pdu_submit_sm-delivered receipt blank_pdu blank_buffers
      (buffer_of (delivery_bytes receipt)) 0 [] receipt-IsDelivery blank_buffers-HasSizes
      (record {
        valid = receipt-IsValid;
        inside = omega arith;
        cells = sym (append-nil (delivery_bytes receipt));
      })

receive_worker-lines_of_all_example :
    (w' : World) × (events : List Event) × (receive_worker zeroed online blank_locals 6
        (world_with [])
        three_chunks
      ≡ ret w')
    × (w'.trace ≡ events)
    × (printed_all zeroed init events ≡ ret (lines_of_all five))
unfolding costs cost
receive_worker-lines_of_all_example =
    receive_worker-lines_of_all zeroed zeroed-IsSupplied blank_locals blank_locals-HasArrays online
      three_chunks five (0 ∷ 0 ∷ []) 6 (world_with []) refl refl refl three_chunks-IsChunk
      five-IsPacket joined-three_chunks (short (omega arith)) (omega arith) empty-IsValid
      empty-IsValid refl (omega (arith, length-three_chunks)) (omega arith)
