-- ===== src/Sched/Yield/Aging.antt =====
-- A call of `sched_yield` by priorities that raises the priorities.
use sistemas_operativos.Prelude.{
  ℕ, zero, suc, ◌+◌, ◌%◌, ◌<◌, ◌≤◌, ◌≡◌, refl, sym, ap, subst, ◌∙◌, ◌≢◌, inl, inr, arith, ltb, leb,
  ◌==◌, ==→≡, ==→≢, if◌then◌else◌, Bool, true, false, true≢false, ◌&&◌, not, Bool-cases, Option,
  none, update, update_self, update_ne, ℤ, pos, neg,
}
use sistemas_operativos.Sched.State.{
  nenv, max_priority, aging_interval, Status, env_free, env_dying, env_runnable, env_running,
  env_not_runnable, Env, Kernel, is_free, is_runnable, is_alive,
}
use sistemas_operativos.Sched.Run.{halted, any_alive, sched_halt}
use sistemas_operativos.Sched.Yield.{
  count_call, start_of, pick_from, keep_or_halt, run_or_keep, runnable, above, at_prio,
  max_prio_from, age_env, age_from, age, demote_picked, runnable_at, run_at, sched_yield_priorities,
}
use sistemas_operativos.Sched.Yield.Choice.{
  at_distance, Nearest, pick_from-Nearest, distance, distance_lem, distance_bound,
}
use sistemas_operativos.Sched.Yield.Highest.{Highest, max_prio_from-Highest}

same_range :
    (left j i : ℕ)
    → i ≢ j
    → (leb (j + 1) i && ltb i (j + 1 + left)) ≡ (leb j i && ltb i (j + suc left))
same_range left j i ne = ground arith

age_from-age_env :
    (left j : ℕ) (envs : ℕ → Env) (i : ℕ)
    → age_from left j envs i ≡ (if leb j i && ltb i (j + left) then age_env (envs i) else envs i)
unfolding age_from
age_from-age_env zero j envs i = ground arith
age_from-age_env (suc left) j envs i =
    age_from-age_env left (j + 1) (update envs j (age_env (envs j))) i
    ∙ elim (Bool-cases (i == j)) [
      | inl e ↦ rw (==→≡ i j e, update_self) (ground arith)
      | inr e ↦
          rw (update_ne envs j (age_env (envs j)) i (==→≢ i j e))
            (ap (λ b. if b then age_env (envs i) else envs i) (same_range left j i (==→≢ i j e)))
    ]

alive_runnable : (s : Status) → is_runnable s ≡ true → (is_alive s ≡ true) × (is_free s ≡ false)
alive_runnable env_free h = absurd (true≢false (sym h))
alive_runnable env_dying h = absurd (true≢false (sym h))
alive_runnable env_runnable h = (refl, refl)
alive_runnable env_running h = absurd (true≢false (sym h))
alive_runnable env_not_runnable h = absurd (true≢false (sym h))

pub age_env-status : (e : Env) → (age_env e).env_status ≡ e.env_status
unfolding age_env
age_env-status e = elim (Bool-cases (not (is_free e.env_status) && ltb e.priority max_priority)) [
  | inl h ↦ rw h refl
  | inr h ↦ rw h refl
]

age_env-raises :
    (e : Env)
    → runnable e ≡ true
    → e.priority < max_priority
    → (age_env e).priority ≡ e.priority + 1
unfolding age_env
age_env-raises e ready low = rw ((alive_runnable e.env_status ready).1, below e.priority low) refl
  where
    below : (p : ℕ) → p < max_priority → ltb p max_priority ≡ true
    below p h = ground arith

any_alive-true :
    (envs : ℕ → Env) (left lo i : ℕ)
    → lo ≤ i
    → i < lo + left
    → is_alive (envs i).env_status ≡ true
    → any_alive envs left lo ≡ true
unfolding any_alive
any_alive-true envs zero lo i p q h = absurd (omega arith)
any_alive-true envs (suc left) lo i p q h = elim (Bool-cases (is_alive (envs lo).env_status)) [
  | inl e ↦ rw e refl
  | inr e ↦ rw e (
      any_alive-true envs left (lo + 1) i
        (further lo i p (λ s. true≢false (sym h ∙ ap (λ j. is_alive (envs j).env_status) s ∙ e)))
        (omega arith) h)
]
  where
    further : (a b : ℕ) → a ≤ b → b ≢ a → a + 1 ≤ b
    further a b le ne = omega arith

-- what an aging call does to every environment of the array
pub aged_env : (envs : ℕ → Env) (i : ℕ) → i < nenv → age_from nenv 0 envs i ≡ age_env (envs i)
aged_env envs i h =
    age_from-age_env nenv 0 envs i ∙ ap (λ b. if b then age_env (envs i) else envs i) (inside i h)
  where
    inside : (i : ℕ) → i < nenv → (leb 0 i && ltb i (0 + nenv)) ≡ true
    inside i h = ground arith

aging :
    (k : Kernel)
    → aging_interval ≤ k.aging_ticks + 1
    → age k ≡ record k { envs = age_from nenv 0 k.envs; aging_ticks = 0 }
unfolding age
aging k h = rw (old k.aging_ticks h) refl
  where
    old : (n : ℕ) → aging_interval ≤ n + 1 → leb aging_interval (n + 1) ≡ true
    old n h = ground arith

left_false : (a b : Bool) → a ≡ false → (a && b) ≡ false
left_false a b h = ground arith

right_false : (a b : Bool) → b ≡ false → (a && b) ≡ false
right_false a b h = ground arith

raised_away :
    (e : Env) (p : ℕ)
    → runnable e ≡ true
    → p < max_priority
    → e.priority ≡ p
    → at_prio (age_env e).priority (pos p) ≡ false
raised_away e p ready low same =
    ap (λ n. n == p)
      (age_env-raises e ready (subst (λ n. n < max_priority) (sym same) low) ∙ ap (λ n. n + 1) same)
    ∙ away p
  where
    away : (p : ℕ) → (p + 1 == p) ≡ false
    away p = ground arith

-- the kernel of a call that ages
raised : Kernel → Kernel
raised k = record (count_call k) { envs = age_from nenv 0 k.envs; aging_ticks = 0 }

module _ (k : Kernel) (j p : ℕ) (fits : j < nenv) (ready : runnable (k.envs j) ≡ true)
    (level : (i : ℕ) → i < nenv → runnable (k.envs i) ≡ true → (k.envs i).priority ≡ p) where
  -- the first loop finds the priority that all the runnable environments have
  max_prio-level : (start : ℕ) → max_prio_from k.envs start nenv 0 (neg 1) ≡ pos p
  max_prio-level start =
      conclude (max_prio_from k.envs start nenv 0 (neg 1))
        (max_prio_from-Highest k.envs start nenv 0 (neg 1))
    where
      conclude : (m : ℤ) → Highest k.envs start 0 (0 + nenv) (neg 1) m → m ≡ pos p
      conclude m h = elim h.attained [
        | inl none_found ↦ absurd (
            true≢false (
              subst (λ m. above (at_distance k.envs start (distance start j)).priority m ≡ false)
                none_found
                (h.bounds (distance start j) (omega arith) (distance_bound start j)
                  (ap (λ i. runnable (k.envs i)) (distance_lem start j fits) ∙ ready))))
        | inr (t, lo, below, ready_t, e) ↦
            e ∙ ap pos (level ((start + t) % nenv) (omega arith) ready_t)
      ]

  -- after the aging none of them has it any more
  missed_by_all :
      (start t : ℕ)
      → p < max_priority
      → runnable_at (pos p) (at_distance (age_from nenv 0 k.envs) start t) ≡ false
  missed_by_all start t low =
      ap (runnable_at (pos p)) (aged_env k.envs ((start + t) % nenv) (omega arith))
      ∙ elim (Bool-cases (runnable (at_distance k.envs start t))) [
        | inl ready_t ↦ right_false _ _ (
            raised_away (at_distance k.envs start t) p ready_t low
              (level ((start + t) % nenv) (omega arith) ready_t))
        | inr e ↦ left_false _ _ (ap is_runnable (age_env-status (at_distance k.envs start t)) ∙ e)
      ]

  none_left :
      (start : ℕ)
      → p < max_priority
      → (r : Option ℕ) → Nearest (runnable_at (pos p)) (age_from nenv 0 k.envs) start 0 r
      → run_or_keep (demote_picked (pos p) (raised k) r) r ≡ keep_or_halt (raised k) k.curenv
  unfolding run_or_keep demote_picked raised
  none_left start low r (inl (d, found, above_, below, passes, before)) =
      absurd (true≢false (sym passes ∙ missed_by_all start d low))
  none_left start low r (inr (absent, before)) =
      ap (λ r. run_or_keep (demote_picked (pos p) (raised k) r) r) absent

halts :
    (k : Kernel) (j : ℕ)
    → j < nenv
    → runnable (k.envs j) ≡ true
    → keep_or_halt k none ≡ halted (record k { curenv = none })
unfolding keep_or_halt sched_halt
halts k j fits ready =
    rw
      (any_alive-true k.envs nenv 0 j (omega arith) (omega arith)
        (alive_runnable (k.envs j).env_status ready).0)
      refl

-- On a call that ages, the last loop looks for the priority that was the highest before the aging. So if
-- all runnable environments have one priority, below 8, and no environment is current, it finds none of
-- them: the CPU halts although they are runnable.
pub sched_yield_priorities-halts :
    (k : Kernel) (j p : ℕ)
    → aging_interval ≤ k.aging_ticks + 1
    → k.curenv ≡ none
    → j < nenv
    → runnable (k.envs j) ≡ true
    → p < max_priority
    → ((i : ℕ) → i < nenv → runnable (k.envs i) ≡ true → (k.envs i).priority ≡ p)
    → (k' : Kernel) × (sched_yield_priorities k ≡ halted k') × (runnable (k'.envs j) ≡ true)
unfolding sched_yield_priorities run_at raised
sched_yield_priorities-halts k j p old idle fits ready low level =
    let start = start_of k.envs k.curenv in
    let still : runnable (age_from nenv 0 k.envs j) ≡ true =
      ap runnable (aged_env k.envs j fits) ∙ ap is_runnable (age_env-status (k.envs j)) ∙ ready in
    (
      record (raised k) { curenv = none },
      ap (run_at (max_prio_from k.envs start nenv 0 (neg 1)) start) (aging (count_call k) old)
          ∙ ap (λ m. run_at m start (raised k)) (max_prio-level k j p fits ready level start)
          ∙ none_left k j p fits ready level start low
              (pick_from (runnable_at (pos p)) (age_from nenv 0 k.envs) start nenv 0)
              (pick_from-Nearest (runnable_at (pos p)) (age_from nenv 0 k.envs) start nenv 0
                (omega arith))
          ∙ ap (keep_or_halt (raised k)) idle
          ∙ halts (raised k) j fits still,
      still,
    )
