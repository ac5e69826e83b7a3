-- ===== src/Examples/Worker.antt =====
-- The theorems on the receiving thread, at concrete inputs.
use as_smpp.Prelude.{ℕ, ◌+◌, ◌^◌, ◌<◌, ◌≡◌, refl, arith, List, [], ◌∷◌, ◌++◌}
use as_smpp.Prelude.{ret, starved}
use as_smpp.Buffer.{Buffer}
use as_smpp.Buffer.Valid.{IsValid, contents}
use as_smpp.Types.{PduHeader}
use as_smpp.Session.{SessionMode, SessionState, World, with_session}
use as_smpp.Serializer.Spec.{big_endian}
use as_smpp.Serializer.Header.{header_bytes, IsHeader}
use as_smpp.Smpp.{bind_command}
use as_smpp.Smpp.Worker.{drain, dispatch}
use as_smpp.Smpp.Receiving.{drain_step}
use as_smpp.Smpp.Stalling.{drain_stalls}
use as_smpp.Smpp.Worker.{receive_worker}
use as_smpp.Smpp.Stream.{joined}
use as_smpp.Smpp.Hostile.{StallsOn, fresh_array, receive_worker_ends}
use as_smpp.Prelude.{Safe, ◌⊎◌}
use as_smpp.Examples.Data.{
  zeroed, zeroed-IsSupplied, empty-IsValid, online, buffer_of, buffer_of-IsValid,
}
use as_smpp.Examples.Data.{contents-buffer_of, world_with, blank_header, blank_locals}

-- A negative acknowledgement, which does nothing.
abbrev refusal : ℕ → PduHeader
refusal len = record { command_length = len; command_id = 0x8000_0000; status = 3; sequence_no = 9 }

refusal-IsHeader : (len : ℕ) → len < 2 ^ 32 → IsHeader (refusal len)
refusal-IsHeader len h = record {
  command_length = h;
  command_id = omega arith;
  status = omega arith;
  sequence_no = omega arith;
}

abbrev refusal_then : ℕ → List ℕ → List ℕ
refusal_then len rest = header_bytes (refusal len) ++ rest

refusal_then-IsValid : (len : ℕ) → IsValid (buffer_of (refusal_then len (1 ∷ 2 ∷ [])))
unfolding header_bytes big_endian
refusal_then-IsValid len = buffer_of-IsValid (refusal_then len (1 ∷ 2 ∷ [])) (omega arith)

abbrev refused : ℕ → World
refused len = world_with (refusal_then len (1 ∷ 2 ∷ []))

dispatch-refusal :
    (len : ℕ) (w : World) → dispatch zeroed online blank_locals w (refusal len) 16 ≡ ret w
unfolding dispatch
dispatch-refusal len w = refl

drain_step_example :
    (b' : Buffer) × (drain zeroed online blank_locals 5 blank_header (refused 16)
      ≡ drain zeroed online blank_locals 4 (refusal 16) (
          let s = (refused 16).session in
          with_session (record s { receive_buffer = b' }) (refused 16)))
    × IsValid b'
    × (contents b' ≡ 1 ∷ 2 ∷ [])
    × (b'.capacity ≡ 18)
unfolding header_bytes big_endian
drain_step_example =
    drain_step zeroed online blank_locals 4 blank_header (refusal 16) (refused 16) (refused 16) []
      (1 ∷ 2 ∷ []) (refusal-IsHeader 16 (omega arith)) refl (refusal_then-IsValid 16)
      (contents-buffer_of (refusal_then 16 (1 ∷ 2 ∷ []))) (dispatch-refusal 16 (refused 16)) refl

drain_stalls_example : drain zeroed online blank_locals 1000 blank_header (refused 0) ≡ starved
drain_stalls_example =
    drain_stalls zeroed online blank_locals 1000 blank_header (refusal 0) (refused 0) (1 ∷ 2 ∷ [])
      (refusal-IsHeader 0 (omega arith)) refl refl (refusal_then-IsValid 0)
      (contents-buffer_of (refusal_then 0 (1 ∷ 2 ∷ [])))

-- The answer to a bind request that the peer turned down, with the status 13.
abbrev bind_refusal : PduHeader
bind_refusal = record {
  command_length = 19;
  command_id = 0x8000_0009;
  status = 13;
  sequence_no = 1;
}

abbrev bind_refusal_bytes : List ℕ
bind_refusal_bytes = header_bytes bind_refusal ++ (97 ∷ 98 ∷ 0 ∷ [])

bind_refusal_bytes-IsValid : IsValid (buffer_of bind_refusal_bytes)
unfolding header_bytes big_endian
bind_refusal_bytes-IsValid = buffer_of-IsValid bind_refusal_bytes (omega arith)

command-bind_refusal : bind_refusal.command_id ≡ 0x8000_0000 + bind_command SessionMode.transceiver
unfolding bind_command
command-bind_refusal = refl

-- The answer to a bind request whose text has no terminator, and half of the next header.
abbrev garbage : List (List ℕ)
garbage =
    (0 ∷ 0 ∷ 0 ∷ 20 ∷ 128 ∷ 0 ∷ 0 ∷ 9 ∷ 0 ∷ 0 ∷ 0 ∷ 0 ∷ 0 ∷ 0 ∷ 0 ∷ 1 ∷ 97 ∷ [])
    ∷ (98 ∷ 99 ∷ 100 ∷ 0 ∷ 0 ∷ 0 ∷ 0 ∷ [])
    ∷ []

receive_worker_ends_example :
    Safe
      (λ w'. w'.session.state ≡ SessionState.closed)
      (receive_worker zeroed online blank_locals 24 (world_with []) garbage)
    ⊎ StallsOn zeroed online blank_locals 24 garbage fresh_array blank_header (world_with [])
unfolding joined
receive_worker_ends_example =
    receive_worker_ends zeroed online blank_locals zeroed-IsSupplied garbage 24 (world_with [])
      ((omega arith, omega arith), ((omega arith, omega arith), tt)) empty-IsValid (omega arith)
      (omega arith)
