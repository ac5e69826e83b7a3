-- ===== src/Examples/Threads.antt =====
-- Two threads that answer a request each.
use as_smpp.Prelude.{ℕ, ◌≡◌, ◌≢◌, refl, arith, List, [], ◌∷◌, ◌++◌, ret, none, ◌==◌, if◌then◌else◌}
use as_smpp.Types.{PduHeader}
use as_smpp.Session.{World}
use as_smpp.Smpp.Sending.{enquire_link_response-frame}
use as_smpp.Smpp.Interleaving.{
  Locals, SendCall, Config, Steps, outside, actions, perform, perform_all,
}
use as_smpp.Smpp.Interleaving.Order.{IsIdle, pending, calls_of}
use as_smpp.Smpp.Interleaving.Serial.{count, Steps-perform_all}
use as_smpp.Smpp.Interleaving.Wire.{IsSendable, IsFrame, traffic, Steps-traffic}
use as_smpp.Buffer.Valid.{IsValid}
use as_smpp.Prelude.{All, Bool-cases, inl, inr}
use as_smpp.Smpp.Interleaving.Progress.{perform-Steps}
use as_smpp.Examples.Data.{zeroed, zeroed-IsSupplied, online, world_with, empty-IsValid}

abbrev request : ℕ → PduHeader
request n = record { command_length = 16; command_id = 0x15; status = 0; sequence_no = n }

abbrev two_threads : Config
two_threads = record {
  world = world_with [];
  holder = none;
  threads = λ i.
      if i == 0
      then outside (SendCall.answer_enquiry (request 9) ∷ [])
      else outside (SendCall.answer_enquiry (request 4) ∷ []);
}

two_threads-IsIdle : IsIdle two_threads
two_threads-IsIdle = record { unlocked = refl; all_outside = λ i. ground arith }

two_threads-IsSendable : (i : ℕ) → All IsSendable (pending (two_threads.threads i))
two_threads-IsSendable i = elim (Bool-cases (i == 0)) [
  | inl e ↦ rw e (IsSendable.enquiry (request 9), tt)
  | inr e ↦ rw e (IsSendable.enquiry (request 4), tt)
]

answer_returns :
    (w : World) × (perform zeroed online (world_with []) (SendCall.answer_enquiry (request 4))
      ≡ ret w)
unfolding perform
answer_returns =
    let (w, e, once) =
      enquire_link_response-frame zeroed online zeroed-IsSupplied (world_with []) (request 4)
        empty-IsValid (omega arith) in
    (w, rw e refl)

perform-Steps_example :
    (d : Config) × (steps : Steps zeroed online two_threads d) × (count zeroed online steps ≡ 9)
    × (d.world ≡ answer_returns.0)
    × (d.holder ≡ none)
    × (d.threads 1 ≡ outside [])
    × ((j : ℕ) → j ≢ 1 → d.threads j ≡ two_threads.threads j)
unfolding actions
perform-Steps_example =
    perform-Steps zeroed online two_threads 1 (SendCall.answer_enquiry (request 4)) []
      answer_returns.0 refl refl answer_returns.1

answered :
    (d : Config) × (steps : Steps zeroed online two_threads d) × (count zeroed online steps ≡ 9)
    × (d.world ≡ answer_returns.0)
    × (d.holder ≡ none)
    × (d.threads 1 ≡ outside [])
    × ((j : ℕ) → j ≢ 1 → d.threads j ≡ two_threads.threads j)
unfolding actions
answered =
    perform-Steps zeroed online two_threads 1 (SendCall.answer_enquiry (request 4)) []
      answer_returns.0 refl refl answer_returns.1

Steps-perform_all_example :
    (order : List (ℕ × SendCall)) × (perform_all zeroed online two_threads.world order
      ≡ ret (answered.0).world)
    × ((i : ℕ)
        → pending (two_threads.threads i) ≡ calls_of i order ++ pending ((answered.0).threads i))
Steps-perform_all_example =
    Steps-perform_all zeroed online two_threads answered.0 two_threads-IsIdle answered.1 answered.4

abbrev blank : Locals
blank = record { sequence_no = 0; data_len = 0 }

Steps-traffic_example :
    (frames : List (List ℕ)) × All IsFrame frames
    × ((answered.0).world.trace ≡ two_threads.world.trace ++ traffic 7 frames)
    × IsValid (answered.0).world.session.send_buffer
Steps-traffic_example =
    Steps-traffic zeroed online zeroed-IsSupplied two_threads answered.0 two_threads-IsIdle
      answered.1 answered.4 two_threads-IsSendable empty-IsValid (omega (arith, answered.2))
