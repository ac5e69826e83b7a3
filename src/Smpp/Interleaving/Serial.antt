-- ===== src/Smpp/Interleaving/Serial.antt =====
-- Interleaved calls against calls one after the other.
use as_smpp.Prelude.{ℕ, ◌≡◌, ◌≢◌, inl, inr, refl, sym, ap, ◌∙◌, List, [], ◌∷◌, ◌++◌, arith, none}
use as_smpp.Prelude.{ret, ◌>>=◌, ◌==◌, ==_iff, Bool-cases}
use as_smpp.Prelude.{suc, length, length-append, ◌≤◌}
use as_smpp.Memory.{Memory}
use as_smpp.Session.{World}
use as_smpp.Net.{Platform}
use as_smpp.Smpp.{unlock_send}
use as_smpp.Smpp.Interleaving.{
  Locals, Action, SendCall, Config, Step, Steps, outside, inside, acquires, acts, releases, here,
  next, run_actions, perform, perform_all, set_thread,
}
use mathlib.Core.Path.{subst}
use as_smpp.Smpp.Interleaving.Order.{
  pending, calls_of, IsIdle, IsOutside, Busy, Idle, Serial, calls_of-last_self, calls_of-last_other,
  perform_all-append, start-Serial, lock_step, act_step, only-Busy, completion,
}

module _ (mem : Memory) (os : Platform) where
  unlock_step :
      (start c : Config) (order : List (ℕ × SendCall)) (before : World) (j : ℕ)
      (calls : List SendCall) (locals : Locals) (n : ℕ)
      → length order ≤ n
      → c.threads j ≡ inside locals [] calls
      → perform_all mem os start.world order ≡ ret before
      → Busy mem os start c order before
      → Serial mem os start
          (record {
            world = unlock_send c.world;
            holder = none;
            threads = set_thread c.threads j (outside calls);
          })
          (suc n)
  unfolding perform_all run_actions
  unlock_step start c order before j calls locals n few e p busy =
      let here = only-Busy mem os start c order before j locals [] calls e busy in
      let t : inside locals [] calls ≡ inside busy.locals busy.rest busy.calls =
        sym e ∙ ap (λ k. c.threads k) (sym here) ∙ busy.within in
      let after = unlock_send c.world in
      let last : ℕ × SendCall = (j, busy.call) in
      let own : pending (start.threads j) ≡ calls_of j (order ++ (last ∷ [])) ++ calls =
        ap (λ k. pending (start.threads k)) (sym here)
        ∙ busy.same
        ∙ ap (λ k. calls_of k order ++ (busy.call ∷ busy.calls)) here
        ∙ ap (λ x. calls_of j order ++ (busy.call ∷ pending x)) (sym t)
        ∙ sym (calls_of-last_self j order busy.call calls) in
      let performed : perform mem os before busy.call ≡ ret after =
        sym (ap (λ x. completion mem os x c.world) t ∙ busy.completes) in
      record {
        order = order ++ (last ∷ []);
        before = after;
        few = omega (arith, few, length-append order (last ∷ []));
        performed =
            perform_all-append mem os start.world order (last ∷ [])
            ∙ ap (λ x. x >>= λ w. perform_all mem os w (last ∷ [])) p
            ∙ ap (λ x. x >>= λ w. ret w) performed;
        phase = inl (record {
          free = refl;
          reached = refl;
          all = λ k. elim (Bool-cases (k == j)) [
            | inl same ↦
                let k_j = (==_iff k j).0 same in
                record {
                  out = rw same tt;
                  same = rw same (
                      subst
                        (λ q.
                          pending (start.threads q) ≡ calls_of q (order ++ (last ∷ [])) ++ calls)
                        (sym k_j) own);
                }
            | inr other ↦
                let ne : k ≢ j = ground arith in
                let w = busy.others k (λ k_i. ne (k_i ∙ here)) in
                record {
                  out = rw other w.out;
                  same = rw other (
                      w.same
                      ∙ ap (λ x. x ++ pending (c.threads k))
                          (sym (calls_of-last_other k j order busy.call (λ e. ne (sym e)))));
                }
          ];
        });
      }

  Idle-outside :
      (start c : Config) (order : List (ℕ × SendCall)) (before : World) (i : ℕ) (locals : Locals)
      (rest : List Action) (calls : List SendCall)
      → c.threads i ≡ inside locals rest calls
      → Idle mem os start c order before
      → ⊥
  Idle-outside start c order before i locals rest calls e idle =
      subst (λ t. IsOutside t) e (idle.all i).out

  Step-Serial :
      {start c d : Config} {n : ℕ}
      → Step mem os c d
      → Serial mem os start c n
      → Serial mem os start d (suc n)
  Step-Serial {start} {n = n} (acquires c i call calls locals e free) s = elim s.phase [
    | inl idle ↦ record {
      order = s.order;
      before = s.before;
      few = omega (arith, s.few);
      performed = s.performed;
      phase = inr (lock_step mem os start c i call calls locals s.order s.before e idle);
    }
    | inr busy ↦ absurd (ground (arith, free, busy.holds))
  ]
  Step-Serial {start} {n = n} (acts c i a rest calls locals after w e r) s = elim s.phase [
    | inl idle ↦ absurd (Idle-outside start c s.order s.before i locals (a ∷ rest) calls e idle)
    | inr busy ↦ record {
      order = s.order;
      before = s.before;
      few = omega (arith, s.few);
      performed = s.performed;
      phase = inr (act_step mem os start c s.order s.before i a rest calls locals after w e r busy);
    }
  ]
  Step-Serial {start} {n = n} (releases c i calls locals e) s = elim s.phase [
    | inl idle ↦ absurd (Idle-outside start c s.order s.before i locals [] calls e idle)
    | inr busy ↦ unlock_step start c s.order s.before i calls locals n s.few e s.performed busy
  ]

  -- The number of steps.
  abbrev pub count : {start c : Config} → Steps mem os start c → ℕ
  count here = 0
  count (next before s) = suc (count before)

  Steps-Serial :
      {start c : Config}
      → IsIdle start
      → (steps : Steps mem os start c) → Serial mem os start c (count steps)
  Steps-Serial {start} idle here = start-Serial mem os start idle
  Steps-Serial idle (next before s) = Step-Serial s (Steps-Serial idle before)

  pub calls_made :
      (start c : Config)
      → IsIdle start
      → (steps : Steps mem os start c) → c.holder ≡ none
      → (order : List (ℕ × SendCall)) × (length order ≤ count steps)
        × (perform_all mem os start.world order ≡ ret c.world)
        × ((i : ℕ) → pending (start.threads i) ≡ calls_of i order ++ pending (c.threads i))
  calls_made start c idle steps free =
      let s = Steps-Serial idle steps in
      elim s.phase [
        | inl now ↦
            (s.order, s.few, s.performed ∙ ap (λ w. ret w) now.reached, λ i. (now.all i).same)
        | inr busy ↦ absurd (ground (arith, free, busy.holds))
      ]

  -- From a state in which the send mutex is free and no thread is within a call: whenever threads have made
  -- calls that send, interleaved in any way, and the mutex is free again, there is an order of whole calls,
  -- for each thread that in which it made them, that ends with the same session and the same trace when the
  -- calls are made one after the other. The calls in it and those still to come are the calls that the
  -- threads were given.
  pub Steps-perform_all :
      (start c : Config)
      → IsIdle start
      → Steps mem os start c
      → c.holder ≡ none
      → (order : List (ℕ × SendCall)) × (perform_all mem os start.world order ≡ ret c.world)
        × ((i : ℕ) → pending (start.threads i) ≡ calls_of i order ++ pending (c.threads i))
  Steps-perform_all start c idle steps free =
      let (order, few, performed, same) = calls_made start c idle steps free in
      (order, performed, same)
