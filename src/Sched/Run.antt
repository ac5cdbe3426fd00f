-- ===== src/Sched/Run.antt =====
-- `env_run` of kern/env.c, and `sched_halt` and the statistics of kern/sched.c. A call that does not
-- return ends with what the CPU does next.
use sistemas_operativos.Prelude.{
  ℕ, zero, suc, ◌+◌, ◌^◌, ◌==◌, if◌then◌else◌, Bool, true, false, ◌&&◌, not, Option, none, some,
  update, inc_mod,
}
use sistemas_operativos.Sched.State.{
  nenv, env_index, Status, env_runnable, env_running, Env, Stats, Kernel, is_running, is_alive,
}

-- An environment runs, or the CPU waits for an interrupt, or the monitor has it.
pub data Next : Type 0 where
  runs : ℕ → Kernel → Next
  halted : Kernel → Next
  monitor : Kernel → Next

abbrev pub set_status : (ℕ → Env) → ℕ → Status → ℕ → Env
set_status envs i s = update envs i (record (envs i) { env_status = s })

-- `if (curenv != NULL && curenv != e && curenv->env_status == ENV_RUNNING)`
unfoldable pub put_back : (ℕ → Env) → Option ℕ → ℕ → ℕ → Env
put_back envs none e = envs
put_back envs (some c) e =
    if not (c == e) && is_running (envs c).env_status then set_status envs c env_runnable else envs

abbrev pub start_env : Env → Env
start_env e = record e { env_status = env_running; env_runs = inc_mod (2 ^ 32) e.env_runs }

unfoldable pub env_run : Kernel → ℕ → Next
env_run k e =
    let envs = put_back k.envs k.curenv e in
    runs e (record k { envs = update envs e (start_env (envs e)); curenv = some e })

-- the statistics of a run
unfoldable pub count_run : Stats → ℕ → Stats
count_run stats envid =
    let switched = if envid == stats.last_env_run then stats else record stats {
      n_context_switches = inc_mod (2 ^ 64) stats.n_context_switches;
      last_env_run = envid;
    } in
    record switched {
      runs_per_env =
          update switched.runs_per_env (env_index envid)
            (inc_mod (2 ^ 64) (switched.runs_per_env (env_index envid)));
    }

-- the statistics, then `env_run`
unfoldable pub count_and_run : Kernel → ℕ → Next
count_and_run k e = env_run (record k { stats = count_run k.stats (k.envs e).env_id }) e

-- whether the loop of `sched_halt` breaks, with `left` environments to go
unfoldable pub any_alive : (ℕ → Env) → ℕ → ℕ → Bool
any_alive envs zero i = false
any_alive envs (suc left) i =
    let rest = any_alive envs left (i + 1) in if is_alive (envs i).env_status then true else rest

unfoldable pub sched_halt : Kernel → Next
sched_halt k = if any_alive k.envs nenv 0 then halted (record k { curenv = none }) else monitor k
