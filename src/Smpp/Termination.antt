-- ===== src/Smpp/Termination.antt =====
-- The loop over the received PDUs in as_smpp_receive_worker of src/as-smpp-core/src/smpp.c, on any bytes.
use as_smpp.Prelude.{ℕ, zero, suc, ◌≤◌, ◌≡◌, refl, ap, ◌∙◌, arith, ◌⊎◌, inl, inr}
use as_smpp.Prelude.{
  ret, ◌==◌, true, Bool-cases, Safe, returns, faults, Safe-map, Safe-cases, length, length-drop,
}
use as_smpp.Memory.{Memory}
use as_smpp.Buffer
use as_smpp.Buffer.{Buffer}
use as_smpp.Buffer.Valid.{IsValid, length-contents, contents}
use as_smpp.Buffer.Editing.{remove_lem}
use as_smpp.Types.{ErrorCode, PduHeader}
use as_smpp.Session.{World, with_session}
use as_smpp.Net.{Platform}
use as_smpp.Serializer.Pdu.{deserialize_pdu_header}
use as_smpp.Serializer.Endings.{deserialize_pdu_header-Safe}
use as_smpp.Smpp.Worker.{Locals, dispatch, drain}
use as_smpp.Smpp.Endings.{dispatch-Safe}

-- The world with another receive buffer.
abbrev pub with_received : World → Buffer → World
with_received w b = let s = w.session in with_session (record s { receive_buffer = b }) w

-- The front of the data is read as a whole PDU of this header.
abbrev pub ReadsHeader : PduHeader → World → PduHeader → ℕ → Type 0
ReadsHeader old w h index =
    deserialize_pdu_header old w.session.receive_buffer 0 ≡ ret (ErrorCode.none, h, index)

-- Some rounds of the loop lead from a header and a world to others.
pub data Rounds (mem : Memory) (os : Platform) (locals : Locals)
    : PduHeader → World → PduHeader → World → Type 0 where
  none : {h : PduHeader} {w : World} → Rounds mem os locals h w h w
  round :
      {old h last : PduHeader} {w w₁ w' : World} {index : ℕ} {b : Buffer}
      → ReadsHeader old w h index
      → dispatch mem os locals w h index ≡ ret w₁
      → Buffer.remove w₁.session.receive_buffer 0 h.command_length ≡ ret b
      → Rounds mem os locals h (with_received w₁ b) last w'
      → Rounds mem os locals old w last w'

-- A PDU that states the length 0 is reached.
pub record Stalls (mem : Memory) (os : Platform) (locals : Locals) (old : PduHeader) (w : World)
    : Type 0 where
  pub last : PduHeader
  pub world : World
  pub rounds : Rounds mem os locals old w last world
  pub header : PduHeader
  pub index : ℕ
  pub reads : ReadsHeader last world header index
  pub length_zero : header.command_length ≡ 0

-- The receive buffer is well formed, has no more data than before, and has its old block.
pub record Shrinks (w w' : World) : Type 0 where
  pub valid : IsValid w'.session.receive_buffer
  pub data_len : w'.session.receive_buffer.data_len ≤ w.session.receive_buffer.data_len
  pub capacity : w'.session.receive_buffer.capacity ≡ w.session.receive_buffer.capacity

same-Shrinks : (w : World) → IsValid w.session.receive_buffer → Shrinks w w
same-Shrinks w v = record { valid = v; data_len = omega arith; capacity = refl }

Shrinks-round :
    {w w' : World} (w₁ : World) {b : Buffer}
    → b.data_len ≤ w.session.receive_buffer.data_len
    → b.capacity ≡ w.session.receive_buffer.capacity
    → Shrinks (with_received w₁ b) w'
    → Shrinks w w'
Shrinks-round w₁ less old_size k = record {
  valid = k.valid;
  data_len = omega (arith, k.data_len);
  capacity = k.capacity ∙ old_size;
}

module _ (mem : Memory) (os : Platform) (locals : Locals) where
  -- Whatever the receive buffer holds, with fuel for each byte the loop ends in a return or a fault,
  -- unless a PDU that states the length 0 is reached.
  pub drain_ends :
      (fuel : ℕ) (old : PduHeader) (w : World)
      → IsValid w.session.receive_buffer
      → w.session.receive_buffer.data_len ≤ fuel
      → Safe (λ r. Shrinks w r.1) (drain mem os locals fuel old w) ⊎ Stalls mem os locals old w
  unfolding drain
  drain_ends zero old w v enough =
      let done : (w.session.receive_buffer.data_len == 0) ≡ true = ground arith in
      inl (rw done (returns (same-Shrinks w v)))
  drain_ends (suc fuel) old w v enough =
      elim (Bool-cases (w.session.receive_buffer.data_len == 0)) [
        | inl done ↦ inl (rw (done, drain) (returns (same-Shrinks w v)))
        | inr busy ↦
            elim (Safe-cases (deserialize_pdu_header-Safe w.session.receive_buffer v old)) [
              | inl out ↦ inl (rw (busy, drain) (rw out faults))
              | inr ((code, h, index), seen, inr waits) ↦
                  inl (rw (busy, drain) (rw seen (rw waits (returns (same-Shrinks w v)))))
              | inr ((code, h, index), seen, inl (whole, stated, inside)) ↦
                  let recv = w.session.receive_buffer in
                  let n = h.command_length in
                  let reads : ReadsHeader old w h index =
                    seen ∙ ap (λ c. ret (c, h, index)) whole in
                  elim (Bool-cases (n == 0)) [
                    | inl stuck ↦ inr (record {
                      last = old;
                      world = w;
                      rounds = Rounds.none;
                      header = h;
                      index = index;
                      reads = reads;
                      length_zero = ground arith;
                    })
                    | inr more ↦
                        elim (Safe-cases (dispatch-Safe mem os locals w h index v inside)) [
                          | inl out ↦ inl (rw (busy, drain) (rw (reads, out) faults))
                          | inr (w₁, done, same) ↦
                              let (b, removed, v', kept, cap) =
                                remove_lem recv 0 n v (omega arith) (omega (arith, stated)) in
                              let removed' : Buffer.remove w₁.session.receive_buffer 0 n ≡ ret b =
                                rw same removed in
                              let less : (b.data_len ≤ fuel) × (b.data_len ≤ recv.data_len) =
                                ground (
                                  arith,
                                  length-contents b v',
                                  ap length kept,
                                  length-drop n (contents recv),
                                  length-contents recv v,
                                ) in
                              elim (drain_ends fuel h (with_received w₁ b) v' less.0) [
                                | inl ends ↦ inl (
                                    rw (busy, drain)
                                      (rw (reads, done, removed')
                                        (Safe-map (λ r k. Shrinks-round w₁ less.1 cap k) ends)))
                                | inr s ↦ inr (record {
                                  last = s.last;
                                  world = s.world;
                                  rounds = round reads done removed' s.rounds;
                                  header = s.header;
                                  index = s.index;
                                  reads = s.reads;
                                  length_zero = s.length_zero;
                                })
                              ]
                        ]
                  ]
            ]
      ]
