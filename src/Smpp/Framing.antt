-- ===== src/Smpp/Framing.antt =====
-- What a call that sends hands to the socket: a header with the length of the whole PDU, and the body.
use as_smpp.Prelude.{ℕ, ◌+◌, ◌-◌, ◌%◌, ◌^◌, ◌≤◌, ◌<◌, ◌≡◌, refl, sym, ap, ◌∙◌, arith}
use as_smpp.Prelude.{List, [], ◌∷◌, ◌++◌, ret}
use as_smpp.Prelude.{length, length-append, length-drop, drop, ltb-false}
use as_smpp.Prelude.{take-append_ge, drop-take}
use as_smpp.Memory.{Memory}
use as_smpp.Buffer.{Buffer, ensure_capacity}
use as_smpp.Buffer.Cells.{load_block, load_block_lem}
use as_smpp.Buffer.Valid.{IsValid, contents, length-contents, fill}
use as_smpp.Types.{PduHeader}
use as_smpp.Session.{Event, World}
use as_smpp.Net.{Platform, net_send, send_result}
use as_smpp.Serializer.{serialize_integer}
use as_smpp.Serializer.Spec.{big_endian}
use as_smpp.Serializer.Integer.{write_digits-Fills, length-big_endian}
use as_smpp.Serializer.Header.{header_bytes}
use as_smpp.Smpp.{send, cleared}

-- A PDU on the wire.
unfoldable pub frame : ℕ → ℕ → ℕ → List ℕ → List ℕ
frame command_id status sequence_no body =
    header_bytes (record {
      command_length = 16 + length body;
      command_id = command_id;
      status = status;
      sequence_no = sequence_no;
    })
    ++ body

-- The same before its length is known.
abbrev pub unsized : ℕ → ℕ → ℕ → PduHeader
unsized command_id status sequence_no = record {
  command_length = 0;
  command_id = command_id;
  status = status;
  sequence_no = sequence_no;
}

-- The buffer with `n` in its first four cells.
abbrev pub patched : ℕ → Buffer → Buffer
patched n b = record b { ptr = big_endian 4 n ++ drop 4 b.ptr }

pub cleared-IsValid : {b : Buffer} → IsValid b → IsValid (cleared b)
cleared-IsValid v = record { sized = v.sized; filled = omega arith; bounded = v.bounded }

module _ (mem : Memory) (os : Platform) where
  write_length :
      (b : Buffer) (n : ℕ)
      → IsValid b
      → 4 ≤ b.capacity
      → serialize_integer mem (cleared b) n 4 ≡ ret (record (patched n b) { data_len = 4 })
  unfolding serialize_integer ensure_capacity fill big_endian
  write_length b n v room = rw (ltb-false b.capacity 4 room) (
      (write_digits-Fills 4 n (omega arith)).run (cleared b) (cleared-IsValid v)
        (omega (arith, length-big_endian 4 n)))

  patched-IsValid : (b : Buffer) (n : ℕ) → IsValid b → 4 ≤ b.capacity → IsValid (patched n b)
  patched-IsValid b n v room = record {
    sized = omega (
      arith,
      length-append (big_endian 4 n) (drop 4 b.ptr),
      length-drop 4 b.ptr,
      v.sized,
      length-big_endian 4 n,
    );
    filled = v.filled;
    bounded = v.bounded;
  }

  contents-patched :
      (b : Buffer) (n : ℕ)
      → IsValid b
      → 4 ≤ b.data_len
      → contents (patched n b) ≡ big_endian 4 n ++ drop 4 (contents b)
  contents-patched b n v enough =
      take-append_ge (big_endian 4 n) (drop 4 b.ptr) b.data_len (b.data_len - 4)
        (omega (arith, length-big_endian 4 n))
      ∙ ap (λ t. big_endian 4 n ++ t)
          (sym (drop-take 4 (b.data_len - 4) b.data_len b.ptr (omega arith)))

  -- as_smpp_send on a PDU whose length is still 0: the length is put in, and the PDU is handed over.
  module _ (id status seq : ℕ) (body : List ℕ) (small : 16 + length body < 2 ^ 32) where
    patched-frame :
        (b : Buffer)
        → IsValid b
        → contents b ≡ header_bytes (unsized id status seq) ++ body
        → (b.data_len ≡ 16 + length body)
          × (contents (patched (16 + length body) b) ≡ frame id status seq body)
    unfolding frame header_bytes big_endian
    patched-frame b v e =
        let n = 16 + length body in
        let h = header_bytes (unsized id status seq) in
        let total : b.data_len ≡ n = omega (arith, ap length e, length-contents b v) in
        (
          total,
          contents-patched b n v (omega (arith, total)) ∙ ap (λ t. big_endian 4 n ++ drop 4 t) e,
        )

    pub send_lem :
        (w : World)
        → IsValid w.session.send_buffer
        → contents w.session.send_buffer ≡ header_bytes (unsized id status seq) ++ body
        → let s = w.session in
          let bytes = frame id status seq body in
          (send mem os w
            ≡ ret (
              send_result (os.send s.socket_handle bytes),
              record {
                session = record s { send_buffer = patched (16 + length body) s.send_buffer };
                trace = w.trace ++ (Event.sent s.socket_handle bytes ∷ []);
              },
            ))
          × IsValid (patched (16 + length body) s.send_buffer)
    unfolding send net_send
    send_lem w v e =
        let b = w.session.send_buffer in
        let n = 16 + length body in
        let (total, bytes) = patched-frame b v e in
        let word : b.data_len % 2 ^ 32 ≡ n = omega (arith, total) in
        let room : 4 ≤ b.capacity = omega (arith, total, v.filled) in
        let v' = patched-IsValid b n v room in
        let loaded : load_block (patched n b).ptr 0 b.data_len ≡ ret (frame id status seq body) =
          load_block_lem (patched n b).ptr 0 b.data_len (omega (arith, v'.sized, v'.filled))
          ∙ ap ret bytes in
        (rw (word, write_length b n v room, loaded) refl, v')
