-- ===== src/Sched/Yield/RoundRobin.antt =====
-- Scheduling by round robin.
use sistemas_operativos.Prelude.{
  ℕ, ◌<◌, ◌≡◌, refl, sym, ap, ◌∙◌, ◌≢◌, inl, inr, arith, ◌==◌, ==→≡, ==→≢, ≢→==, Bool, true, false,
  ◌&&◌, not, Bool-cases, Option, none, some, some-injective, none-ne-some, true≢false, update_self,
  update_ne,
}
use sistemas_operativos.Sched.State.{nenv, Env, Kernel, is_running}
use sistemas_operativos.Sched.Run.{
  Next, runs, halted, monitor, put_back, env_run, count_run, count_and_run, any_alive, sched_halt,
}
use sistemas_operativos.Sched.Yield.{
  count_call, start_of, keep_or_halt, run_or_keep, runnable, sched_yield_round_robin,
}
use sistemas_operativos.Sched.Yield.Choice.{Nearest, pick_from-Nearest}

-- The CPU runs at most one environment: the one that `curenv` points to.
pub record OneRunning (k : Kernel) : Type 0 where
  pub only : (i : ℕ) → i < nenv → is_running (k.envs i).env_status ≡ true → k.curenv ≡ some i
  pub in_array : (c : ℕ) → k.curenv ≡ some c → c < nenv

-- What is true of the state in which a call ends, if the environment `e` of it runs or the CPU waits.
abbrev pub After : (Kernel → Type 0) → Next → Type 0
After P (runs e k) = P k
After P (halted k) = P k
After P (monitor k) = P k

put_back-clears :
    (envs : ℕ → Env) (cur : Option ℕ) (e i : ℕ)
    → (is_running (envs i).env_status ≡ true → cur ≡ some i)
    → i ≢ e
    → is_running (put_back envs cur e i).env_status ≡ false
unfolding put_back
put_back-clears envs none e i only ne = elim (Bool-cases (is_running (envs i).env_status)) [
  | inl r ↦ absurd (none-ne-some _ (only r))
  | inr r ↦ r
]
put_back-clears envs (some c) e i only ne = elim (Bool-cases (i == c)) [
  | inl same ↦ elim (Bool-cases (is_running (envs c).env_status)) [
    | inl r ↦ rw (==→≡ i c same, ≢→== c e (λ h. ne (==→≡ i c same ∙ h)), r, update_self) refl
    | inr r ↦ rw (==→≡ i c same, ≢→== c e (λ h. ne (==→≡ i c same ∙ h)), r) r
  ]
  | inr other ↦ elim (Bool-cases (is_running (envs i).env_status)) [
    | inl r ↦ absurd (==→≢ i c other (sym (some-injective _ _ (only r))))
    | inr r ↦ elim (Bool-cases (not (c == e) && is_running (envs c).env_status)) [
      | inl go ↦ rw (go, update_ne envs c _ i (==→≢ i c other)) r
      | inr stay ↦ rw stay r
    ]
  ]
]

-- After `env_run` the environment `e` is the current one and is running, and no other is.
env_run-OneRunning : (k : Kernel) (e : ℕ) → OneRunning k → e < nenv → After OneRunning (env_run k e)
unfolding env_run
env_run-OneRunning k e one fits = record {
  only = λ i h r. elim (Bool-cases (i == e)) [
    | inl same ↦ ap some (sym (==→≡ i e same))
    | inr other ↦ absurd (
        true≢false (
          sym r
          ∙ rw (update_ne (put_back k.envs k.curenv e) e _ i (==→≢ i e other))
              (put_back-clears k.envs k.curenv e i (one.only i h) (==→≢ i e other))))
  ];
  in_array = λ c h. rw (← some-injective _ _ h) fits;
}

module _ (k : Kernel) (one : OneRunning k) where
  count_and_run-OneRunning : (e : ℕ) → e < nenv → After OneRunning (count_and_run k e)
  unfolding count_and_run
  count_and_run-OneRunning e fits =
      env_run-OneRunning (record k { stats = count_run k.stats (k.envs e).env_id }) e
        (record { only = one.only; in_array = one.in_array }) fits

  -- the CPU waits only when no environment is running
  sched_halt-OneRunning :
      ((i : ℕ) → i < nenv → is_running (k.envs i).env_status ≡ false)
      → After OneRunning (sched_halt k)
  unfolding sched_halt
  sched_halt-OneRunning idle = elim (Bool-cases (any_alive k.envs nenv 0)) [
    | inl e ↦ rw e (record {
      only = λ i h r. absurd (true≢false (sym r ∙ idle i h));
      in_array = λ c h. absurd (none-ne-some _ h);
    })
    | inr e ↦ rw e one
  ]

  keep_or_halt-OneRunning :
      (cur : Option ℕ) → k.curenv ≡ cur → After OneRunning (keep_or_halt k cur)
  unfolding keep_or_halt
  keep_or_halt-OneRunning none h = sched_halt-OneRunning (λ i p.
      elim (Bool-cases (is_running (k.envs i).env_status)) [
        | inl r ↦ absurd (none-ne-some _ (sym h ∙ one.only i p r))
        | inr r ↦ r
      ])
  keep_or_halt-OneRunning (some c) h = elim (Bool-cases (is_running (k.envs c).env_status)) [
    | inl r ↦ rw r (count_and_run-OneRunning c (one.in_array c h))
    | inr r ↦ rw r (
        sched_halt-OneRunning (λ i p. elim (Bool-cases (is_running (k.envs i).env_status)) [
          | inl q ↦ absurd (
              true≢false (
                sym q
                ∙ ap (λ j. is_running (k.envs j).env_status)
                    (some-injective _ _ (sym (one.only i p q) ∙ h))
                ∙ r))
          | inr q ↦ q
        ]))
  ]

  pub run_or_keep-OneRunning :
      (picked : Option ℕ)
      → ((e : ℕ) → picked ≡ some e → e < nenv)
      → After OneRunning (run_or_keep k picked)
  unfolding run_or_keep
  run_or_keep-OneRunning none fits = keep_or_halt-OneRunning k.curenv refl
  run_or_keep-OneRunning (some e) fits = count_and_run-OneRunning e (fits e refl)

pub Nearest-fits :
    (test : Env → Bool) (envs : ℕ → Env) (start : ℕ) (r : Option ℕ)
    → Nearest test envs start 0 r
    → (e : ℕ) → r ≡ some e
    → e < nenv
Nearest-fits test envs start r (inl (d, found, above, below, passes, before)) e h =
    rw (← some-injective _ _ (sym found ∙ h)) (omega arith)
Nearest-fits test envs start r (inr (absent, more)) e h = absurd (none-ne-some _ (sym absent ∙ h))

-- If at most one environment is running, the current one, that is so again after `sched_yield` by
-- round robin, whatever it decides.
pub sched_yield_round_robin-OneRunning :
    (k : Kernel) → OneRunning k → After OneRunning (sched_yield_round_robin k)
unfolding sched_yield_round_robin
sched_yield_round_robin-OneRunning k one =
    run_or_keep-OneRunning (count_call k) (record { only = one.only; in_array = one.in_array }) _
      (Nearest-fits runnable k.envs (start_of k.envs k.curenv) _
        (pick_from-Nearest runnable k.envs (start_of k.envs k.curenv) nenv 0 (omega arith)))
