-- ===== src/Sched/Yield/Running.antt =====
-- Scheduling by priorities keeps at most one environment running.
use sistemas_operativos.Prelude.{
  ℕ, ◌+◌, ◌<◌, ◌≡◌, refl, sym, ap, ◌∙◌, inl, inr, arith, ltb, leb, ◌==◌, ==→≡, ==→≢, ◌&&◌,
  Bool-cases, Option, none, some, update, update_self, update_ne, ℤ, pos, negsuc, neg,
}
use sistemas_operativos.Sched.State.{nenv, quantum_limit, aging_interval, Env, Kernel, is_running}
use sistemas_operativos.Sched.Yield.{
  count_call, start_of, age_from, age, demote, demote_picked, runnable_at, max_prio_from, run_at,
  sched_yield_priorities,
}
use sistemas_operativos.Sched.Yield.Choice.{pick_from-Nearest}
use sistemas_operativos.Sched.Yield.RoundRobin.{
  OneRunning, After, run_or_keep-OneRunning, Nearest-fits,
}
use sistemas_operativos.Sched.Yield.Aging.{age_env-status, aged_env}

aged-status :
    (envs : ℕ → Env) (i : ℕ) → i < nenv → (age_from nenv 0 envs i).env_status ≡ (envs i).env_status
aged-status envs i h = ap (λ (e : Env). e.env_status) (aged_env envs i h) ∙ age_env-status (envs i)

age-OneRunning : (k : Kernel) → OneRunning k → OneRunning (age k)
unfolding age
age-OneRunning k one = elim (Bool-cases (leb aging_interval (k.aging_ticks + 1))) [
  | inl e ↦ rw e (record {
    only = λ i h r. one.only i h (ap is_running (sym (aged-status k.envs i h)) ∙ r);
    in_array = one.in_array;
  })
  | inr e ↦ rw e (record { only = one.only; in_array = one.in_array })
]

demote-status : (m : ℤ) (e : Env) → (demote m e).env_status ≡ e.env_status
unfolding demote
demote-status (negsuc n) e = refl
demote-status (pos q) e = elim (Bool-cases (leb quantum_limit e.env_runs && ltb 1 q)) [
  | inl h ↦ rw h refl
  | inr h ↦ rw h refl
]

demoted_at :
    (m : ℤ) (envs : ℕ → Env) (e i : ℕ)
    → (update envs e (demote m (envs e)) i).env_status ≡ (envs i).env_status
demoted_at m envs e i = elim (Bool-cases (i == e)) [
  | inl same ↦ rw (==→≡ i e same, update_self) (demote-status m (envs e))
  | inr other ↦ rw (update_ne envs e (demote m (envs e)) i (==→≢ i e other)) refl
]

demote_picked-OneRunning :
    (m : ℤ) (k : Kernel) (picked : Option ℕ) → OneRunning k → OneRunning (demote_picked m k picked)
unfolding demote_picked
demote_picked-OneRunning m k none one = one
demote_picked-OneRunning m k (some e) one = record {
  only = λ i h r. one.only i h (ap is_running (sym (demoted_at m k.envs e i)) ∙ r);
  in_array = one.in_array;
}

run_at-OneRunning :
    (m : ℤ) (start : ℕ) (k : Kernel) → OneRunning k → After OneRunning (run_at m start k)
unfolding run_at
run_at-OneRunning m start k one = run_or_keep-OneRunning _ (demote_picked-OneRunning m k _ one) _ (
    Nearest-fits (runnable_at m) k.envs start _
      (pick_from-Nearest (runnable_at m) k.envs start nenv 0 (omega arith)))

-- If at most one environment is running, the current one, that is so again after `sched_yield` by
-- priorities, whether it raises priorities or lowers one, and whatever it decides.
pub sched_yield_priorities-OneRunning :
    (k : Kernel) → OneRunning k → After OneRunning (sched_yield_priorities k)
unfolding sched_yield_priorities
sched_yield_priorities-OneRunning k one =
    run_at-OneRunning (max_prio_from k.envs (start_of k.envs k.curenv) nenv 0 (neg 1))
      (start_of k.envs k.curenv) (age (count_call k))
      (age-OneRunning (count_call k) (record { only = one.only; in_array = one.in_array }))
