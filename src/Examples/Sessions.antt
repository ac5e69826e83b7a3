-- ===== src/Examples/Sessions.antt =====
-- The theorems on the session, at concrete inputs.
use as_smpp.Prelude.{◌≡◌, arith, [], ◌∷◌, ret}
use as_smpp.Session.{SessionState, World, state_code, wait_for_state, locked, unlocked}
use as_smpp.Session.{signalled_all, waited, state_mutex}
use as_smpp.Session.Waiting.{wait_for_state_lem}
use as_smpp.Examples.Data.{world_with}

abbrev opened_session : World
opened_session = world_with []

-- Woken up twice, the second time by the answer to the bind request.
wait_for_state_lem_example :
    wait_for_state opened_session SessionState.bound_trx
      (SessionState.opened ∷ SessionState.bound_trx ∷ SessionState.closed ∷ [])
    ≡ ret (
        let s = opened_session.session in
        record {
          session = record s { state = SessionState.bound_trx };
          trace = locked state_mutex ∷ waited ∷ waited ∷ unlocked state_mutex ∷ signalled_all ∷ [];
        })
unfolding state_code
wait_for_state_lem_example =
    wait_for_state_lem opened_session SessionState.bound_trx (SessionState.opened ∷ [])
      (SessionState.closed ∷ []) (λ e. absurd (omega (arith, e)))
      ((λ e. absurd (omega (arith, e))), tt)
