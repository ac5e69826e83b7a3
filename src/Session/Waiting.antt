-- ===== src/Session/Waiting.antt =====
-- as_smpp_session_wait_for_state of src/as-smpp-core/src/session.c.
use as_smpp.Prelude.{ℕ, suc, ◌+◌, ◌≡◌, ◌≢◌, refl, ap, ◌∙◌, arith, ◌==◌, true, false}
use as_smpp.Prelude.{List, [], ◌∷◌, ◌++◌, append_assoc, ret, starved, ◌>>=◌, length, replicate, All}
use as_smpp.Session.{SessionState, Event, World, state_code, wait_loop, wait_for_state}
use as_smpp.Session.{locked, unlocked, signalled_all, waited, state_mutex, emit}

-- Another state than the one that is waited for.
abbrev pub Differs : SessionState → SessionState → Type 0
Differs state s = state_code s ≢ state_code state

-- The world after `n` waits, with the state that was waited for.
abbrev pub waited_world : World → SessionState → ℕ → World
waited_world w state n =
    let s = w.session in
    record { session = record s { state = state }; trace = w.trace ++ replicate n waited }

wait_loop_lem :
    (w : World) (state : SessionState) (before after : List SessionState)
    → Differs state w.session.state
    → All (Differs state) before
    → wait_loop w state (before ++ (state ∷ after)) ≡ ret (waited_world w state (length before + 1))
unfolding wait_loop
wait_loop_lem w state [] [] now later =
    let more : (state_code w.session.state == state_code state) ≡ false = ground (arith, now) in
    let done : (state_code state == state_code state) ≡ true = ground arith in
    rw (more, wait_loop) (rw done refl)
wait_loop_lem w state [] (next ∷ after) now later =
    let more : (state_code w.session.state == state_code state) ≡ false = ground (arith, now) in
    let done : (state_code state == state_code state) ≡ true = ground arith in
    rw (more, wait_loop) (rw (done, wait_loop) refl)
wait_loop_lem w state (s ∷ before) after now later =
    let more : (state_code w.session.state == state_code state) ≡ false = ground (arith, now) in
    let old = w.session in
    let w₁ : World = record {
      session = record old { state = s };
      trace = w.trace ++ (waited ∷ []);
    } in
    rw (more, wait_loop)
      (wait_loop_lem w₁ state before after later.0 later.1
        ∙ ap
            (λ t.
              ret (let k = w.session in record { session = record k { state = state }; trace = t }))
            (append_assoc w.trace (waited ∷ []) (replicate (length before + 1) waited)
              ∙ ap (λ n. w.trace ++ replicate n waited)
                  (let e : suc (length before + 1) ≡ length (s ∷ before) + 1 = omega arith in e)))

wait_loop_blocks :
    (w : World) (state : SessionState) (wakeups : List SessionState)
    → Differs state w.session.state
    → All (Differs state) wakeups
    → wait_loop w state wakeups ≡ starved
unfolding wait_loop
wait_loop_blocks w state [] now later =
    let more : (state_code w.session.state == state_code state) ≡ false = ground (arith, now) in
    rw more refl
wait_loop_blocks w state (s ∷ wakeups) now later =
    let more : (state_code w.session.state == state_code state) ≡ false = ground (arith, now) in
    let old = w.session in
    let w₁ : World = record {
      session = record old { state = s };
      trace = w.trace ++ (waited ∷ []);
    } in
    rw (more, wait_loop) (wait_loop_blocks w₁ state wakeups later.0 later.1)

-- Where the session is not in the wanted state and the other threads leave it in other states at a number
-- of wake-ups and then in the wanted one: wait_for_state returns, having waited once for each of these
-- wake-ups, with the state mutex locked before and unlocked after, and signals all waiting threads. The
-- session is in the wanted state and otherwise as it was.
pub wait_for_state_lem :
    (w : World) (state : SessionState) (before after : List SessionState)
    → Differs state w.session.state
    → All (Differs state) before
    → wait_for_state w state (before ++ (state ∷ after))
      ≡ ret (
          let s = w.session in
          record {
            session = record s { state = state };
            trace =
                w.trace
                ++ (locked state_mutex ∷ replicate (length before + 1) waited
                    ++ (unlocked state_mutex ∷ signalled_all ∷ []));
          })
unfolding wait_for_state
wait_for_state_lem w state before after now later =
    let w₁ = emit (locked state_mutex ∷ []) w in
    let n = length before + 1 in
    let end : List Event = unlocked state_mutex ∷ signalled_all ∷ [] in
    ap (λ r. r >>= λ w. ret (emit end w)) (wait_loop_lem w₁ state before after now later)
    ∙ ap
        (λ t. ret (let s = w.session in record { session = record s { state = state }; trace = t }))
        (append_assoc (w.trace ++ (locked state_mutex ∷ [])) (replicate n waited) end
          ∙ append_assoc w.trace (locked state_mutex ∷ []) (replicate n waited ++ end))

-- Where the session is not in the wanted state and is not in it at any of the wake-ups, wait_for_state
-- is still waiting after them: it has no limit and does not look at whether the session was closed.
wait_for_state_blocks :
    (w : World) (state : SessionState) (wakeups : List SessionState)
    → Differs state w.session.state
    → All (Differs state) wakeups
    → wait_for_state w state wakeups ≡ starved
unfolding wait_for_state
wait_for_state_blocks w state wakeups now later =
    ap (λ r. r >>= λ w. ret (emit (unlocked state_mutex ∷ signalled_all ∷ []) w))
      (wait_loop_blocks (emit (locked state_mutex ∷ []) w) state wakeups now later)
