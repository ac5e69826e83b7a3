-- ===== src/Smpp/Interleaving/Order.antt =====
-- What is kept while calls are interleaved: the calls made so far, one after the other, and the call
-- that the holder of the mutex is within.
use as_smpp.Prelude.{
  ℕ, ◌≡◌, ◌≢◌, ◌⊎◌, inl, inr, refl, sym, ap, ◌∙◌, List, [], ◌∷◌, ◌++◌, append-nil, append_assoc,
  arith, Option, none, some,
}
use as_smpp.Prelude.{
  Run, ret, ◌>>=◌, >>=-assoc, bind_cong, ◌==◌, ==_iff, Bool-cases, if◌then◌else◌, false,
}
use as_smpp.Prelude.{length, ◌≤◌}
use as_smpp.Memory.{Memory}
use as_smpp.Session.{World}
use as_smpp.Net.{Platform}
use as_smpp.Smpp.{lock_send, unlock_send}
use as_smpp.Smpp.Interleaving.{
  Locals, Action, SendCall, Thread, Config, outside, inside, actions, run_actions, perform,
  perform_all, set_thread,
}
use as_smpp.Smpp.Interleaving.Calls.{finish, finish-actions}
use mathlib.Core.Path.{subst}

-- The calls that a thread is still to make, and those of a thread in a sequence.
abbrev pub pending : Thread → List SendCall
pending (outside calls) = calls
pending (inside locals rest calls) = calls

abbrev pub calls_of : ℕ → List (ℕ × SendCall) → List SendCall
calls_of i [] = []
calls_of i (c ∷ cs) = if c.0 == i then c.1 ∷ calls_of i cs else calls_of i cs

abbrev pub IsOutside : Thread → Type 0
IsOutside (outside calls) = Unit
IsOutside (inside locals rest calls) = ⊥

-- No thread is within a call.
pub record IsIdle (c : Config) : Type 0 where
  pub unlocked : c.holder ≡ none
  pub all_outside : (i : ℕ) → IsOutside (c.threads i)

-- A thread outside, whose calls in `order` and those to come are the calls it started with.
pub record Waits (start now : Config) (order : List (ℕ × SendCall)) (i : ℕ) : Type 0 where
  pub out : IsOutside (now.threads i)
  pub same : pending (start.threads i) ≡ calls_of i order ++ pending (now.threads i)

pub calls_of-append :
    (i : ℕ) (xs ys : List (ℕ × SendCall)) → calls_of i (xs ++ ys) ≡ calls_of i xs ++ calls_of i ys
calls_of-append i [] ys = refl
calls_of-append i (x ∷ xs) ys = ground (arith, calls_of-append i xs ys)

pub calls_of-last_self :
    (j : ℕ) (order : List (ℕ × SendCall)) (call : SendCall) (calls : List SendCall)
    → calls_of j (order ++ ((j, call) ∷ [])) ++ calls ≡ calls_of j order ++ (call ∷ calls)
calls_of-last_self j order call calls =
    let one : calls_of j ((j, call) ∷ []) ≡ call ∷ [] = rw ((==_iff j j).1 refl) refl in
    ap (λ x. x ++ calls) (calls_of-append j order ((j, call) ∷ []))
    ∙ ap (λ x. (calls_of j order ++ x) ++ calls) one
    ∙ append_assoc (calls_of j order) (call ∷ []) calls

pub calls_of-last_other :
    (k j : ℕ) (order : List (ℕ × SendCall)) (call : SendCall)
    → j ≢ k
    → calls_of k (order ++ ((j, call) ∷ [])) ≡ calls_of k order
calls_of-last_other k j order call ne =
    let other : (j == k) ≡ false = ground (arith, ne) in
    let none_here : calls_of k ((j, call) ∷ []) ≡ [] = rw other refl in
    calls_of-append k order ((j, call) ∷ [])
    ∙ ap (λ x. calls_of k order ++ x) none_here
    ∙ append-nil (calls_of k order)

module _ (mem : Memory) (os : Platform) where
  pub perform_all-append :
      (w : World) (xs ys : List (ℕ × SendCall))
      → perform_all mem os w (xs ++ ys)
        ≡ (perform_all mem os w xs >>= λ w'. perform_all mem os w' ys)
  unfolding perform_all
  perform_all-append w [] ys = refl
  perform_all-append w (x ∷ xs) ys =
      bind_cong (perform mem os w x.1) (λ w'. perform_all-append w' xs ys)
      ∙ sym (
          >>=-assoc (perform mem os w x.1) (λ w'. perform_all mem os w' xs)
            (λ w'. perform_all mem os w' ys))

  -- The thread `i` is within `call`, which the actions that are left complete, and holds the mutex.
  pub record Busy (start now : Config) (order : List (ℕ × SendCall)) (before : World) : Type 0 where
    pub i : ℕ
    pub call : SendCall
    pub locals : Locals
    pub rest : List Action
    pub calls : List SendCall
    pub holds : now.holder ≡ some i
    pub within : now.threads i ≡ inside locals rest calls
    pub completes : finish mem os rest locals now.world ≡ perform mem os before call
    pub same : pending (start.threads i) ≡ calls_of i order ++ (call ∷ calls)
    pub others : (j : ℕ) → j ≢ i → Waits start now order j

  pub record Idle (start now : Config) (order : List (ℕ × SendCall)) (before : World) : Type 0 where
    pub free : now.holder ≡ none
    pub reached : before ≡ now.world
    pub all : (j : ℕ) → Waits start now order j

  -- `n` bounds the number of calls made.
  pub record Serial (start now : Config) (n : ℕ) : Type 0 where
    pub order : List (ℕ × SendCall)
    pub before : World
    pub few : length order ≤ n
    pub performed : perform_all mem os start.world order ≡ ret before
    pub phase : Idle start now order before ⊎ Busy start now order before

  pub start-Serial : (c : Config) → IsIdle c → Serial c c 0
  unfolding perform_all
  start-Serial c idle = record {
    order = [];
    before = c.world;
    few = omega arith;
    performed = refl;
    phase = inl (record {
      free = idle.unlocked;
      reached = refl;
      all = λ j. record { out = idle.all_outside j; same = refl };
    });
  }

  -- A thread that is not the one set.
  pub Waits-still :
      (start now : Config) (order : List (ℕ × SendCall)) (w : World) (h : Option ℕ) (i j : ℕ)
      (t : Thread)
      → j ≢ i
      → Waits start now order j
      → Waits start (record { world = w; holder = h; threads = set_thread now.threads i t }) order j
  Waits-still start now order w h i j t ne v =
      let other : (j == i) ≡ false = ground (arith, ne) in
      record { out = rw other v.out; same = v.same ∙ rw other refl }

  pub lock_step :
      (start c : Config) (i : ℕ) (call : SendCall) (calls : List SendCall) (locals : Locals)
      (order : List (ℕ × SendCall)) (before : World)
      → c.threads i ≡ outside (call ∷ calls)
      → Idle start c order before
      → Busy start
          (record {
            world = lock_send c.world;
            holder = some i;
            threads = set_thread c.threads i (inside locals (actions mem os call) calls);
          })
          order
          before
  lock_step start c i call calls locals order before e idle = record {
    i = i;
    call = call;
    locals = locals;
    rest = actions mem os call;
    calls = calls;
    holds = refl;
    within = rw ((==_iff i i).1 refl) refl;
    completes =
        finish-actions mem os call locals c.world
        ∙ ap (λ w. perform mem os w call) (sym idle.reached);
    same = (idle.all i).same ∙ ap (λ t. calls_of i order ++ pending t) e;
    others = λ j ne.
        Waits-still start c order (lock_send c.world) (some i) i j
          (inside locals (actions mem os call) calls) ne (idle.all j);
  }

  -- A thread within a call is the busy one.
  pub only-Busy :
      (start c : Config) (order : List (ℕ × SendCall)) (before : World) (j : ℕ) (locals : Locals)
      (rest : List Action) (calls : List SendCall)
      → c.threads j ≡ inside locals rest calls
      → (busy : Busy start c order before) → busy.i ≡ j
  only-Busy start c order before j locals rest calls e busy = elim (Bool-cases (busy.i == j)) [
    | inl same ↦ (==_iff busy.i j).0 same
    | inr other ↦
        let ne : j ≢ busy.i = ground arith in
        absurd (subst (λ t. IsOutside t) e (busy.others j ne).out)
  ]

  -- What is left of a call.
  abbrev pub completion : Thread → World → Run World
  completion (outside calls) w = ret w
  completion (inside locals rest calls) w = finish mem os rest locals w

  act_completion :
      (a : Action) (rest : List Action) (locals after : Locals) (calls : List SendCall)
      (v w : World)
      → a locals v ≡ ret (after, w)
      → completion (inside locals (a ∷ rest) calls) v ≡ completion (inside after rest calls) w
  unfolding run_actions
  act_completion a rest locals after calls v w r =
      ap (λ x. (x >>= λ done. run_actions mem os rest done.0 done.1) >>= λ u. ret (unlock_send u.1))
        r

  pub act_step :
      (start c : Config) (order : List (ℕ × SendCall)) (before : World) (j : ℕ) (a : Action)
      (rest : List Action) (calls : List SendCall) (locals after : Locals) (w : World)
      → c.threads j ≡ inside locals (a ∷ rest) calls
      → a locals c.world ≡ ret (after, w)
      → Busy start c order before
      → Busy start
          (record {
            world = w;
            holder = c.holder;
            threads = set_thread c.threads j (inside after rest calls);
          })
          order
          before
  act_step start c order before j a rest calls locals after w e r busy =
      let i = busy.i in
      let here = only-Busy start c order before j locals (a ∷ rest) calls e busy in
      let t : inside locals (a ∷ rest) calls ≡ inside busy.locals busy.rest busy.calls =
        sym e ∙ ap (λ k. c.threads k) (sym here) ∙ busy.within in
      record {
        i = j;
        call = busy.call;
        locals = after;
        rest = rest;
        calls = calls;
        holds = busy.holds ∙ ap (λ k. some k) here;
        within = rw ((==_iff j j).1 refl) refl;
        completes =
            sym (act_completion a rest locals after calls c.world w r)
            ∙ ap (λ x. completion x c.world) t
            ∙ busy.completes;
        same =
            ap (λ k. pending (start.threads k)) (sym here)
            ∙ busy.same
            ∙ ap (λ k. calls_of k order ++ (busy.call ∷ busy.calls)) here
            ∙ ap (λ x. calls_of j order ++ (busy.call ∷ pending x)) (sym t);
        others = λ k ne.
            Waits-still start c order w c.holder j k (inside after rest calls) ne
              (busy.others k (λ k_i. ne (k_i ∙ here)));
      }
