-- ===== src/Smpp/Worker.antt =====
-- src/as-smpp-core/src/smpp.c: the thread that receives, as_smpp_receive_worker, and as_smpp_connect.
-- The text that the thread prints is left out.
use as_smpp.Prelude.{ℕ, zero, suc, true, false, List, [], ◌∷◌, replicate}
use as_smpp.Prelude.{Option, none, some, ◌==◌, if◌then◌else◌, bit_and, bit_xor}
use as_smpp.Prelude.{Run, ret, starved, ◌>>=◌}
use as_smpp.Memory.{Memory}
use as_smpp.Buffer
use as_smpp.Buffer.{Buffer}
use as_smpp.Types
use as_smpp.Types.{CharPtr, ErrorCode, PduHeader, PduSubmitSm, Tlv}
use as_smpp.Session.{SessionState, Event, World, emit, with_session, set_state}
use as_smpp.Net.{Platform, net_connect, net_receive}
use as_smpp.Serializer.{deserialize_string}
use as_smpp.Serializer.Pdu.{deserialize_pdu_header, deserialize_pdu_deliver_sm, deserialize_tlv}
use as_smpp.Serializer.Submit.{Buffers, init_pdu_submit_sm}
use as_smpp.Smpp.{enquire_link_response, deliver_sm_response}

-- The indeterminate contents of the thread's local variables.
pub record Locals : Type 0 where
  pub header : PduHeader
  pub system_id : List ℕ
  pub message_id : List ℕ
  pub request : PduSubmitSm
  pub request_buffers : Buffers

-- AS_SMPP_CALL_HANDLER
abbrev pub call_handler : Option ℕ → (ℕ → Event) → World → World
call_handler none event w = w
call_handler (some handler) event w = emit (event handler ∷ []) w

-- The state after a bind response.
unfoldable pub bound_state : ℕ → SessionState
bound_state command_id =
    if command_id == Types.bind_receiver
    then SessionState.bound_rx
    else if command_id == Types.bind_transmitter
    then SessionState.bound_tx
    else SessionState.bound_trx

-- `while ( tlv != NULL ) tlv = tlv->next;`
unfoldable pub last_next : List Tlv → List Tlv
last_next [] = []
last_next (t ∷ ts) = last_next ts

-- as_smpp_tlv_free: the number of blocks that are freed
unfoldable pub tlv_free : List Tlv → ℕ
tlv_free [] = 0
tlv_free (t ∷ ts) = suc (tlv_free ts)

module _ (mem : Memory) (os : Platform) (locals : Locals) where
  -- case AS_SMPP_COMMAND_BIND_...: of the responses
  unfoldable pub on_bind_response : World → PduHeader → ℕ → ℕ → Run World
  on_bind_response w header command_id index = do
    let s = w.session
    (system_id, index) ←
        deserialize_string (some locals.system_id) s.receive_buffer index Types.length_system_id
    let event = λ (f : ℕ). Event.bind_response f header.sequence_no header.status
    let w = call_handler s.handler_bind_response event w
    ret (set_state w (bound_state command_id))

  -- case AS_SMPP_COMMAND_SUBMIT_SM: of the responses
  unfoldable pub on_submit_response : World → PduHeader → ℕ → Run World
  on_submit_response w header index = do
    let s = w.session
    (message_id, index) ←
        deserialize_string (some locals.message_id) s.receive_buffer index Types.length_message_id
    let event = λ (f : ℕ). Event.submit_response f header.sequence_no header.status message_id
    ret (call_handler s.handler_submit_response event w)

  -- case AS_SMPP_COMMAND_DELIVER_SM: of the requests. A round of the loop over the parameters takes
  -- four bytes at least, so the length of the PDU is fuel enough.
  unfoldable pub on_deliver : World → PduHeader → ℕ → Run World
  on_deliver w header index = do
    let s = w.session
    let empty = init_pdu_submit_sm locals.request locals.request_buffers
    (request, index) ← deserialize_pdu_deliver_sm empty s.receive_buffer index
    (tlvs, index) ←
        deserialize_tlv mem header.command_length s.receive_buffer index header.command_length
    let tlvs = last_next tlvs
    let event = λ (f : ℕ). Event.deliver f header.sequence_no header.status request
    let w = call_handler s.handler_deliver event w
    let w = emit (Event.freed_tlvs (tlv_free tlvs) ∷ []) w
    (code, w) ← deliver_sm_response mem os w header
    ret w

  -- The switch on a response's command.
  unfoldable pub dispatch_response : World → PduHeader → ℕ → ℕ → Run World
  dispatch_response w header command_id index =
      if command_id == Types.bind_receiver
      then on_bind_response w header command_id index
      else if command_id == Types.bind_transmitter
      then on_bind_response w header command_id index
      else if command_id == Types.bind_transceiver
      then on_bind_response w header command_id index
      else if command_id == Types.submit_sm_id
      then on_submit_response w header index
      else ret w

  -- The switch on a request's command.
  unfoldable pub dispatch_request : World → PduHeader → ℕ → Run World
  dispatch_request w header index =
      if header.command_id == Types.enquire_link_id
      then (enquire_link_response mem os w header >>= λ r. ret r.1)
      else if header.command_id == Types.deliver_sm_id
      then on_deliver w header index
      else ret w

  -- What is done for a complete PDU.
  unfoldable pub dispatch : World → PduHeader → ℕ → Run World
  dispatch w header index =
      if header.command_id == Types.nack
      then ret w
      else if bit_and header.command_id Types.response_flag == 0
      then dispatch_request w header index
      else dispatch_response w header (bit_xor header.command_id Types.response_flag) index

  -- `while ( session->receiveBuffer.dataLen > 0 )`; the header is the thread's local variable.
  unfoldable pub drain : ℕ → PduHeader → World → Run (PduHeader × World)
  drain zero header w = if w.session.receive_buffer.data_len == 0 then ret (header, w) else starved
  drain (suc fuel) header w = elim (w.session.receive_buffer.data_len == 0) [
    | true ↦ ret (header, w)
    | false ↦ do
      (code, header, index) ← deserialize_pdu_header header w.session.receive_buffer 0
      elim code [
        | ErrorCode.none ↦ do
          w ← dispatch w header index
          let s = w.session
          b ← Buffer.remove s.receive_buffer 0 header.command_length
          drain fuel header (with_session (record s { receive_buffer = b }) w)
        | _ ↦ ret (header, w)
      ]
  ]

  -- The thread's loop, for a connection that delivers these chunks and then ends. `fuel` is for the
  -- loop over the PDUs that a chunk completes.
  unfoldable pub receive_loop : ℕ → Buffer → PduHeader → World → List (List ℕ) → Run World
  receive_loop fuel local header w [] = do
    (code, local) ← net_receive [] local
    ret (set_state w SessionState.closed)
  receive_loop fuel local header w (chunk ∷ chunks) = do
    (code, local) ← net_receive chunk local
    elim code [
      | ErrorCode.none ↦ do
        let s = w.session
        b ← Buffer.copy mem s.receive_buffer local.ptr local.data_len
        (header, w) ← drain fuel header (with_session (record s { receive_buffer = b }) w)
        receive_loop fuel local header w chunks
      | _ ↦ ret (set_state w SessionState.closed)
    ]

  -- as_smpp_receive_worker
  unfoldable pub receive_worker : ℕ → World → List (List ℕ) → Run World
  receive_worker fuel w chunks =
      let local : Buffer = record { ptr = replicate 1024 0; data_len = 0; capacity = 1024 } in
      receive_loop fuel local locals.header w chunks

-- as_smpp_connect, on what as_smpp_net_connect returned
unfoldable pub connected : World → ErrorCode × ℕ × List Event → ErrorCode × World
connected w (code, handle, released) =
    let s = w.session in
    let w = emit released (with_session (record s { socket_handle = handle }) w) in
    elim code [
      | ErrorCode.none ↦
          (ErrorCode.none, emit (Event.spawned_worker ∷ []) (set_state w SessionState.opened))
      | _ ↦ (ErrorCode.net, w)
    ]

-- as_smpp_connect
unfoldable pub connect : Platform → World → CharPtr → ℕ → ErrorCode × World
connect os w hostname port_no =
    connected w (net_connect os w.session.socket_handle hostname port_no)
