-- ===== src/Sched/Yield/Priorities.antt =====
-- Scheduling by priorities: what the last loop of `sched_yield` runs.
use sistemas_operativos.Prelude.{
  ℕ, ◌+◌, ◌%◌, ◌<◌, ◌≤◌, ◌≡◌, refl, sym, ap, subst, ◌∙◌, ◌≢◌, ◌⊎◌, inl, inr, arith, leb, ==→≡,
  ==_refl, Bool, true, false, true≢false, ◌&&◌, Bool-cases, Option, none, some, ℤ, pos, negsuc, neg,
  is_neg,
}
use sistemas_operativos.Sched.State.{nenv, aging_interval, Env, Kernel}
use sistemas_operativos.Sched.Run.{runs, env_run, count_and_run}
use sistemas_operativos.Sched.Yield.{
  count_call, start_of, pick_from, keep_or_halt, run_or_keep, runnable, above, at_prio,
  max_prio_from, age, demote_picked, runnable_at, run_at, sched_yield_priorities,
}
use sistemas_operativos.Sched.Yield.Choice.{at_distance, Nearest, pick_from-Nearest}
use sistemas_operativos.Sched.Yield.Highest.{Highest, max_prio_from-Highest}

no_aging :
    (k : Kernel)
    → k.aging_ticks + 1 < aging_interval
    → age k ≡ record k { aging_ticks = k.aging_ticks + 1 }
unfolding age
no_aging k h = rw (young k.aging_ticks h) refl
  where
    young : (n : ℕ) → n + 1 < aging_interval → leb aging_interval (n + 1) ≡ false
    young n h = ground arith

-- The environment at the distance `d` is runnable, no runnable one has a higher priority, and those
-- before it that are runnable have lower ones.
pub record BestAt (envs : ℕ → Env) (start d : ℕ) : Type 0 where
  pub near : d < nenv
  pub ready : runnable (at_distance envs start d) ≡ true
  pub highest :
      (t : ℕ)
      → t < nenv
      → runnable (at_distance envs start t) ≡ true
      → (at_distance envs start t).priority ≤ (at_distance envs start d).priority
  pub first :
      (t : ℕ)
      → t < d
      → runnable (at_distance envs start t) ≡ true
      → (at_distance envs start t).priority < (at_distance envs start d).priority

value : ℤ → ℕ
value (pos n) = n
value (negsuc n) = n

pass_ready : (a b : Bool) → (a && b) ≡ true → a ≡ true
pass_ready a b h = ground arith

pass_other : (a b : Bool) → (a && b) ≡ true → b ≡ true
pass_other a b h = ground arith

both : (a b : Bool) → a ≡ true → b ≡ true → (a && b) ≡ true
both a b h k = ground arith

fail_other : (a b : Bool) → a ≡ true → (a && b) ≡ false → b ≡ false
fail_other a b h k = ground arith

at_most : (p q : ℕ) → above p (pos q) ≡ false → p ≤ q
at_most p q h = ground arith

not_at : (p q : ℕ) → at_prio p (pos q) ≡ false → p ≢ q
not_at p q h = ground arith

module _ (envs : ℕ → Env) (start q : ℕ) (h : Highest envs start 0 nenv (neg 1) (pos q)) where
  found-BestAt :
      (d : ℕ)
      → d < nenv
      → runnable_at (pos q) (at_distance envs start d) ≡ true
      → ((t : ℕ) → 0 ≤ t → t < d → runnable_at (pos q) (at_distance envs start t) ≡ false)
      → BestAt envs start d
  found-BestAt d below passes before = record {
    near = below;
    ready = pass_ready _ _ passes;
    highest = λ t p ready. rw (here) (under t p ready);
    first = λ t p ready. rw (here) (
        lower (under t (omega arith) ready)
          (not_at _ q (fail_other _ _ ready (before t (omega arith) p))));
  }
    where
      here : (at_distance envs start d).priority ≡ q
      here = ==→≡ (at_distance envs start d).priority q (
          pass_other (runnable (at_distance envs start d))
            (at_prio (at_distance envs start d).priority (pos q)) passes)

      under :
          (t : ℕ)
          → t < nenv
          → runnable (at_distance envs start t) ≡ true
          → (at_distance envs start t).priority ≤ q
      under t p ready = at_most _ q (h.bounds t (omega arith) p ready)

      lower : {a b : ℕ} → a ≤ b → a ≢ b → a < b
      lower le ne = omega arith

-- what the last loop finds for the `max_prio` of the first
best :
    (envs : ℕ → Env) (start : ℕ) (m : ℤ) (r : Option ℕ)
    → Highest envs start 0 nenv (neg 1) m
    → Nearest (runnable_at m) envs start 0 r
    → ((d : ℕ) × (r ≡ some ((start + d) % nenv)) × BestAt envs start d)
      ⊎ ((r ≡ none) × ((t : ℕ) → t < nenv → runnable (at_distance envs start t) ≡ false))
unfolding value
best envs start (negsuc n) r h (inl (d, found, above_, below, passes, before)) =
    absurd (true≢false (sym (pass_other _ _ passes)))
best envs start (negsuc n) r h (inr (absent, none_at)) = inr (
  absent,
  λ t p. elim (Bool-cases (runnable (at_distance envs start t))) [
    | inl ready ↦ absurd (true≢false (h.bounds t (omega arith) p ready))
    | inr e ↦ e
  ],
)
best envs start (pos q) r h (inl (d, found, above_, below, passes, before)) =
    inl (d, found, found-BestAt envs start q h d below passes before)
best envs start (pos q) r h (inr (absent, none_at)) = elim h.attained [
  | inl same ↦ absurd (never q same)
  | inr (t, p, below, ready, e) ↦
      absurd (true≢false (sym (passes_there t ready e) ∙ none_at t (omega arith) below))
]
  where
    never : (q : ℕ) → pos q ≢ neg 1
    never q e = true≢false (sym (ap is_neg e))

    passes_there :
        (t : ℕ)
        → runnable (at_distance envs start t) ≡ true
        → pos q ≡ pos (at_distance envs start t).priority
        → runnable_at (pos q) (at_distance envs start t) ≡ true
    passes_there t ready e =
        both _ _ ready (subst (λ n. at_prio n (pos q) ≡ true) (ap value e) (==_refl q))

-- the kernel of a call that ages nothing
aged : Kernel → Kernel
aged k = record (count_call k) { aging_ticks = k.aging_ticks + 1 }

ran_some : (k : Kernel) (e : ℕ) → (k' : Kernel) × (run_or_keep k (some e) ≡ runs e k')
unfolding run_or_keep count_and_run env_run
ran_some k e = (_, refl)

-- On a call that ages nothing, `sched_yield` by priorities runs the runnable environment of the highest
-- priority that comes first after the current one. If none is runnable, it goes on with the
-- environments as they were: to the current one, if that is running, or else to `sched_halt`.
pub sched_yield_priorities-BestAt :
    (k : Kernel)
    → k.aging_ticks + 1 < aging_interval
    → let start = start_of k.envs k.curenv in
      ((d : ℕ) × (k' : Kernel) × BestAt k.envs start d
        × (sched_yield_priorities k ≡ runs ((start + d) % nenv) k'))
      ⊎ ((k' : Kernel) × ((t : ℕ) → t < nenv → runnable (at_distance k.envs start t) ≡ false)
          × (sched_yield_priorities k ≡ keep_or_halt k' k.curenv)
          × (k'.envs ≡ k.envs))
unfolding sched_yield_priorities run_at run_or_keep demote_picked aged
sched_yield_priorities-BestAt k young =
    let start = start_of k.envs k.curenv in
    let m = max_prio_from k.envs start nenv 0 (neg 1) in
    let picked = pick_from (runnable_at m) k.envs start nenv 0 in
    let unaged : sched_yield_priorities k ≡ run_or_keep (demote_picked m (aged k) picked) picked =
      ap (run_at m start) (no_aging (count_call k) young) in
    elim (best k.envs start m picked (max_prio_from-Highest k.envs start nenv 0 (neg 1))
      (pick_from-Nearest (runnable_at m) k.envs start nenv 0 (omega arith))) [
        | inl (d, found, b) ↦
            let (k', e) =
              ran_some (demote_picked m (aged k) (some ((start + d) % nenv)))
                ((start + d) % nenv) in
            inl (d, k', b, unaged ∙ ap (λ r. run_or_keep (demote_picked m (aged k) r) r) found ∙ e)
        | inr (absent, idle) ↦ inr (
          aged k,
          idle,
          unaged ∙ ap (λ r. run_or_keep (demote_picked m (aged k) r) r) absent,
          refl,
        )
      ]
