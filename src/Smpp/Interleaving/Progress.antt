-- ===== src/Smpp/Interleaving/Progress.antt =====
-- What a thread can do by itself: a call that it is to make can be made to its end.
use as_smpp.Prelude.{ℕ, ◌≡◌, ◌≢◌, refl, ap, ◌∙◌, List, [], ◌∷◌, arith, Option, none, some}
use as_smpp.Prelude.{ret, ret_injective, bind_returns, ◌==◌, ==_iff, false}
use as_smpp.Prelude.{◌+◌, length}
use as_smpp.Memory.{Memory}
use as_smpp.Session.{World}
use as_smpp.Net.{Platform}
use as_smpp.Smpp.{lock_send, unlock_send}
use as_smpp.Smpp.Interleaving.{
  Locals, Action, SendCall, Thread, Config, Steps, outside, inside, acquires, acts, releases, here,
  next, actions, run_actions, perform, set_thread,
}
use as_smpp.Smpp.Interleaving.Serial.{count}
use as_smpp.Smpp.Interleaving.Calls.{finish-actions}

-- From `c` to `d` only the thread `i` has changed, and the world.
record Moved (c d : Config) (i : ℕ) (t : Thread) (h : Option ℕ) (w : World) : Type 0 where
  world : d.world ≡ w
  holder : d.holder ≡ h
  moved : d.threads i ≡ t
  others : (j : ℕ) → j ≢ i → d.threads j ≡ c.threads j

set_self : (threads : ℕ → Thread) (i : ℕ) (t : Thread) → set_thread threads i t i ≡ t
set_self threads i t = rw ((==_iff i i).1 refl) refl

set_other :
    (threads : ℕ → Thread) (i j : ℕ) (t : Thread) → j ≢ i → set_thread threads i t j ≡ threads j
set_other threads i j t ne = let other : (j == i) ≡ false = ground (arith, ne) in rw other refl

module _ (mem : Memory) (os : Platform) where
  Steps-trans : {c d e : Config} → Steps mem os c d → Steps mem os d e → Steps mem os c e
  Steps-trans s here = s
  Steps-trans s (next t u) = next (Steps-trans s t) u

  count-Steps-trans :
      {c d e : Config} (s : Steps mem os c d) (t : Steps mem os d e)
      → count mem os (Steps-trans s t) ≡ count mem os s + count mem os t
  unfolding Steps-trans
  count-Steps-trans s here = omega arith
  count-Steps-trans s (next t u) = omega (arith, count-Steps-trans s t)

  run_steps :
      (i : ℕ) (rest : List Action) (locals after : Locals) (calls : List SendCall) (w : World)
      (c : Config)
      → c.threads i ≡ inside locals rest calls
      → run_actions mem os rest locals c.world ≡ ret (after, w)
      → (d : Config) × (steps : Steps mem os c d) × (count mem os steps ≡ length rest)
        × Moved c d i (inside after [] calls) c.holder w
  unfolding run_actions
  run_steps i [] locals after calls w c e r =
      let same : (locals, c.world) ≡ (after, w) = ret_injective r in
      (
        c,
        here,
        refl,
        record {
          world = ap (λ (x : Locals × World). x.1) same;
          holder = refl;
          moved = e ∙ ap (λ (x : Locals × World). inside x.0 [] calls) same;
          others = λ j ne. refl;
        },
      )
  run_steps i (a ∷ rest) locals after calls w c e r =
      let (done, first, remaining) =
        bind_returns (a locals c.world) (λ done. run_actions mem os rest done.0 done.1) (after, w)
          r in
      let c₁ : Config = record {
        world = done.1;
        holder = c.holder;
        threads = set_thread c.threads i (inside done.0 rest calls);
      } in
      let (d, steps, many, m) =
        run_steps i rest done.0 after calls w c₁ (set_self c.threads i (inside done.0 rest calls))
          remaining in
      (
        d,
        Steps-trans (next here (acts c i a rest calls locals done.0 done.1 e first)) steps,
        count-Steps-trans (next here (acts c i a rest calls locals done.0 done.1 e first)) steps
            ∙ omega (arith, many),
        record {
          world = m.world;
          holder = m.holder;
          moved = m.moved;
          others = λ j ne. m.others j ne ∙ set_other c.threads i j (inside done.0 rest calls) ne;
        },
      )

  -- Where the send mutex is free and a call that a thread is to make would return if it were made alone,
  -- the thread can make it, one step for each of its actions and two for the mutex, with the same session and
  -- trace; the mutex is free afterwards and the other threads are as they were.
  pub perform-Steps :
      (c : Config) (i : ℕ) (call : SendCall) (calls : List SendCall) (w : World)
      → c.threads i ≡ outside (call ∷ calls)
      → c.holder ≡ none
      → perform mem os c.world call ≡ ret w
      → (d : Config) × (steps : Steps mem os c d) × (count mem os steps
          ≡ length (actions mem os call) + 2)
        × (d.world ≡ w)
        × (d.holder ≡ none)
        × (d.threads i ≡ outside calls)
        × ((j : ℕ) → j ≢ i → d.threads j ≡ c.threads j)
  perform-Steps c i call calls w e free r =
      let l : Locals = record { sequence_no = 0; data_len = 0 } in
      let (last, runs, unlocks) =
        bind_returns (run_actions mem os (actions mem os call) l (lock_send c.world))
          (λ u. ret (unlock_send u.1)) w (finish-actions mem os call l c.world ∙ r) in
      let t = inside l (actions mem os call) calls in
      let c₁ : Config = record {
        world = lock_send c.world;
        holder = some i;
        threads = set_thread c.threads i t;
      } in
      let (d, steps, many, m) =
        run_steps i (actions mem os call) l last.0 calls last.1 c₁ (set_self c.threads i t) runs in
      (
        record {
          world = unlock_send d.world;
          holder = none;
          threads = set_thread d.threads i (outside calls);
        },
        next (Steps-trans (next here (acquires c i call calls l e free)) steps)
            (releases d i calls last.0 m.moved),
        omega (arith, many, count-Steps-trans (next here (acquires c i call calls l e free)) steps),
        ap (λ x. unlock_send x) m.world ∙ ret_injective unlocks,
        refl,
        set_self d.threads i (outside calls),
        λ j ne.
            set_other d.threads i j (outside calls) ne
            ∙ m.others j ne
            ∙ set_other c.threads i j t ne,
      )
