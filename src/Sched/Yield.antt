-- ===== src/Sched/Yield.antt =====
-- `sched_yield` of kern/sched.c, as SCHED_ROUND_ROBIN and as SCHED_PRIORITIES compile it.
pub mod Choice
pub mod Aging
pub mod Running
pub mod Highest
pub mod Priorities
pub mod Turns
pub mod RoundRobin
use sistemas_operativos.Prelude.{
  ℕ, zero, suc, ◌+◌, ◌-◌, ◌%◌, ◌^◌, ltb, leb, ◌==◌, if◌then◌else◌, Bool, true, false, ◌&&◌, ◌||◌,
  not, Option, none, some, update, ℤ, pos, negsuc, neg, inc_mod,
}
use sistemas_operativos.Sched.State.{
  nenv, env_index, max_priority, quantum_limit, aging_interval, Env, Stats, Kernel, is_free,
  is_runnable, is_running,
}
use sistemas_operativos.Sched.Run.{Next, count_and_run, sched_halt}

-- `sched_stats.n_sched_calls++`
abbrev pub count_call : Kernel → Kernel
count_call k = record k {
  stats = record k.stats { n_sched_calls = inc_mod (2 ^ 64) k.stats.n_sched_calls };
}

abbrev pub start_of : (ℕ → Env) → Option ℕ → ℕ
start_of envs none = 0
start_of envs (some c) = env_index (envs c).env_id + 1

-- `for (i = 0; i < NENV; i++)` over `envs[(start + i) % NENV]`, up to the first that passes the test,
-- at `i` with `left` to go
unfoldable pub pick_from : (Env → Bool) → (ℕ → Env) → ℕ → ℕ → ℕ → Option ℕ
pick_from test envs start zero i = none
pick_from test envs start (suc left) i =
    let rest = pick_from test envs start left (i + 1) in
    if test (envs ((start + i) % nenv)) then some ((start + i) % nenv) else rest

-- the end of `sched_yield`, when the search found nothing
unfoldable pub keep_or_halt : Kernel → Option ℕ → Next
keep_or_halt k none = sched_halt k
keep_or_halt k (some c) =
    if is_running (k.envs c).env_status then count_and_run k c else sched_halt k

unfoldable pub run_or_keep : Kernel → Option ℕ → Next
run_or_keep k (some e) = count_and_run k e
run_or_keep k none = keep_or_halt k k.curenv

abbrev pub runnable : Env → Bool
runnable e = is_runnable e.env_status

unfoldable pub sched_yield_round_robin : Kernel → Next
sched_yield_round_robin k =
    run_or_keep (count_call k) (pick_from runnable k.envs (start_of k.envs k.curenv) nenv 0)

-- `priority > max_prio` and `priority == max_prio`
abbrev pub above : ℕ → ℤ → Bool
above p (pos q) = ltb q p
above p (negsuc n) = true

abbrev pub at_prio : ℕ → ℤ → Bool
at_prio p (pos q) = p == q
at_prio p (negsuc n) = false

-- the first loop: `best` is `max_prio` so far
unfoldable pub max_prio_from : (ℕ → Env) → ℕ → ℕ → ℕ → ℤ → ℤ
max_prio_from envs start zero i best = best
max_prio_from envs start (suc left) i best =
    let e = envs ((start + i) % nenv) in
    max_prio_from envs start left (i + 1)
      (if runnable e && above e.priority best then pos e.priority else best)

unfoldable pub age_env : Env → Env
age_env e =
    if not (is_free e.env_status) && ltb e.priority max_priority
    then record e { priority = e.priority + 1 }
    else e

unfoldable pub age_from : ℕ → ℕ → (ℕ → Env) → ℕ → Env
age_from zero j envs = envs
age_from (suc left) j envs = age_from left (j + 1) (update envs j (age_env (envs j)))

-- `aging_ticks++` and what it brings
unfoldable pub age : Kernel → Kernel
age k =
    if leb aging_interval (k.aging_ticks + 1)
    then record k { envs = age_from nenv 0 k.envs; aging_ticks = 0 }
    else record k { aging_ticks = k.aging_ticks + 1 }

-- `if (env->env_runs >= QUANTUM_LIMIT && max_prio > 1)`
unfoldable pub demote : ℤ → Env → Env
demote (negsuc n) e = e
demote (pos q) e =
    if leb quantum_limit e.env_runs && ltb 1 q then record e { priority = q - 1 } else e

unfoldable pub demote_picked : ℤ → Kernel → Option ℕ → Kernel
demote_picked max_prio k none = k
demote_picked max_prio k (some e) = record k { envs = update k.envs e (demote max_prio (k.envs e)) }

-- a runnable environment of priority `max_prio`
abbrev pub runnable_at : ℤ → Env → Bool
runnable_at max_prio e = runnable e && at_prio e.priority max_prio

-- The last loop and the end, for the `max_prio` of the first loop.
unfoldable pub run_at : ℤ → ℕ → Kernel → Next
run_at max_prio start k =
    let picked = pick_from (runnable_at max_prio) k.envs start nenv 0 in
    run_or_keep (demote_picked max_prio k picked) picked

unfoldable pub sched_yield_priorities : Kernel → Next
sched_yield_priorities k =
    let start = start_of k.envs k.curenv in
    run_at (max_prio_from k.envs start nenv 0 (neg 1)) start (age (count_call k))
