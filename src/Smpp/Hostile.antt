-- ===== src/Smpp/Hostile.antt =====
-- as_smpp_receive_worker of src/as-smpp-core/src/smpp.c on any bytes, in any chunks.
use as_smpp.Prelude.{ℕ, ◌+◌, ◌*◌, ◌≤◌, ◌<◌, ◌≡◌, refl, arith, ◌⊎◌, inl, inr}
use as_smpp.Prelude.{List, [], ◌∷◌, ret, length, length-append, All, replicate, length-replicate}
use as_smpp.Prelude.{Safe, returns, faults, Safe-cases, drop, length-drop, take, length-take, ap}
use as_smpp.Memory.{Memory, IsSupplied, size_mod}
use as_smpp.Buffer
use as_smpp.Buffer.{Buffer}
use as_smpp.Buffer.Valid.{IsValid, contents, length-contents}
use as_smpp.Types.{PduHeader}
use as_smpp.Session.{SessionState, World, set_state}
use as_smpp.Net.{Platform}
use as_smpp.Serializer.RoundTrip.{copy_lem}
use as_smpp.Smpp.Worker.{Locals, drain, receive_loop, receive_worker}
use as_smpp.Smpp.Termination.{with_received, Stalls, drain_ends}
use as_smpp.Smpp.Stream.{joined, IsChunk}
use as_smpp.Smpp.Reassembly.{received, net_receive-chunk, receive_loop-end}

-- A PDU that states the length 0 is reached once a chunk has come in: this one, or a later one.
pub data StallsOn (mem : Memory) (os : Platform) (locals : Locals) (fuel : ℕ)
    : List (List ℕ) → Buffer → PduHeader → World → Type 0 where
  now :
      {chunk : List ℕ} {chunks : List (List ℕ)} {local b : Buffer} {header : PduHeader} {w : World}
      → Buffer.copy mem w.session.receive_buffer (received local chunk).ptr (length chunk) ≡ ret b
      → Stalls mem os locals header (with_received w b)
      → StallsOn mem os locals fuel (chunk ∷ chunks) local header w
  later :
      {chunk : List ℕ} {chunks : List (List ℕ)} {local b : Buffer} {header last : PduHeader}
      {w w' : World}
      → Buffer.copy mem w.session.receive_buffer (received local chunk).ptr (length chunk) ≡ ret b
      → drain mem os locals fuel header (with_received w b) ≡ ret (last, w')
      → StallsOn mem os locals fuel chunks (received local chunk) last w'
      → StallsOn mem os locals fuel (chunk ∷ chunks) local header w

-- The thread's array at its start.
abbrev pub fresh_array : Buffer
fresh_array = record { ptr = replicate 1024 0; data_len = 0; capacity = 1024 }

module _ (mem : Memory) (os : Platform) (locals : Locals) (supply : IsSupplied mem) where
  receive_loop_ends :
      (chunks : List (List ℕ)) (fuel : ℕ) (local : Buffer) (header : PduHeader) (w : World)
      → All IsChunk chunks
      → length local.ptr ≡ 1024
      → IsValid w.session.receive_buffer
      → w.session.receive_buffer.data_len + length (joined chunks) ≤ fuel
      → w.session.receive_buffer.capacity + 17 * length (joined chunks) < size_mod
      → Safe
          (λ w'. w'.session.state ≡ SessionState.closed)
          (receive_loop mem os locals fuel local header w chunks)
        ⊎ StallsOn mem os locals fuel chunks local header w
  unfolding receive_loop joined set_state
  receive_loop_ends [] fuel local header w ok size v enough room =
      inl (rw (receive_loop-end mem os locals fuel local header w) (returns refl))
  receive_loop_ends (c ∷ cs) fuel local header w ok size v enough room =
      let recv = w.session.receive_buffer in
      let local' = received local c in
      let read = net_receive-chunk local c size ok.0 in
      let more = length-append c (joined cs) in
      let back = length-append c (drop (length c) local.ptr) in
      let (b, copied, vb, holds, growth) =
        copy_lem mem supply recv local'.ptr (length c) (omega (arith, back)) v
          (omega (arith, more, ok.0.0)) in
      let w₁ = with_received w b in
      let some_data : b.data_len ≡ recv.data_len + length c = omega (
        arith,
        length-contents b vb,
        ap length holds,
        length-append (contents recv) (take (length c) local'.ptr),
        length-take (length c) local'.ptr,
        back,
        length-contents recv v,
      ) in
      elim (drain_ends mem os locals fuel header w₁ vb (omega (arith, some_data, more))) [
        | inr s ↦ inr (now copied s)
        | inl drained ↦ elim (Safe-cases drained) [
          | inl out ↦ inl (rw (read, receive_loop) (rw (copied, out) faults))
          | inr ((last, w₂), done, less) ↦
              elim (receive_loop_ends cs fuel local' last w₂ ok.1
                (omega (arith, back, length-drop (length c) local.ptr, size, ok.0.1)) less.valid
                (omega (arith, less.data_len, some_data, more))
                (omega (arith, less.capacity, growth, more, ok.0.0))) [
                  | inl rest ↦ inl (rw (read, receive_loop) (rw (copied, done) rest))
                  | inr s ↦ inr (later copied done s)
                ]
        ]
      ]

  -- Whatever bytes a peer sends, in chunks of 1 to 1024 bytes, where the receive buffer is well formed, size_t
  -- leaves it 17 bytes for each byte received to grow, allocations succeed, and the loop over the received
  -- PDUs has a unit of fuel for each byte that was in the buffer or comes in: the receiving thread closes
  -- the session and ends, or faults, unless a PDU is reached that states the length 0, once one of the
  -- chunks is in the buffer and the PDUs of the earlier ones, and those before it in this one, were dealt
  -- with.
  pub receive_worker_ends :
      (chunks : List (List ℕ)) (fuel : ℕ) (w : World)
      → All IsChunk chunks
      → IsValid w.session.receive_buffer
      → w.session.receive_buffer.data_len + length (joined chunks) ≤ fuel
      → w.session.receive_buffer.capacity + 17 * length (joined chunks) < size_mod
      → Safe
          (λ w'. w'.session.state ≡ SessionState.closed)
          (receive_worker mem os locals fuel w chunks)
        ⊎ StallsOn mem os locals fuel chunks fresh_array locals.header w
  unfolding receive_worker
  receive_worker_ends chunks fuel w ok v enough room =
      receive_loop_ends chunks fuel fresh_array locals.header w ok (length-replicate {A = ℕ} 1024 0)
        v enough room
