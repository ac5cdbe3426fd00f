-- ===== src/Sched/State.antt =====
-- inc/env.h and the state that kern/sched.c keeps. `envs` is a function of the index, and a pointer
-- into the array is the index.
use sistemas_operativos.Prelude.{ℕ, ◌%◌, Bool, true, false, Option}

abbrev pub nenv : ℕ
nenv = 1024

-- `ENVX(envid)`, for an id read as a 32-bit word
abbrev pub env_index : ℕ → ℕ
env_index envid = envid % nenv

abbrev pub max_priority : ℕ
max_priority = 8

abbrev pub quantum_limit : ℕ
quantum_limit = 5

abbrev pub aging_interval : ℕ
aging_interval = 50

pub data Status : Type 0 where
  env_free env_dying env_runnable env_running env_not_runnable : Status

-- The saved registers: those that the kernel sets by name, and the rest.
pub record Trapframe : Type 0 where
  pub reg_eax : ℕ
  pub tf_es : ℕ
  pub tf_ds : ℕ
  pub tf_eip : ℕ
  pub tf_cs : ℕ
  pub tf_eflags : ℕ
  pub tf_esp : ℕ
  pub tf_ss : ℕ
  pub tf_rest : ℕ → ℕ

-- The page directory is the index of its page. `env_cpunum` is left out: there is one CPU. The `int` priority is
-- a number: what sets it, `env_create`, `sys_exofork`, `sys_setpriority` and the scheduler, never makes it
-- negative.
pub record Env : Type 0 where
  pub env_tf : Trapframe
  pub env_link : Option ℕ
  pub env_id : ℕ
  pub env_parent_id : ℕ
  pub env_type : ℕ
  pub env_status : Status
  pub env_runs : ℕ
  pub priority : ℕ
  pub env_pgdir : Option ℕ
  pub env_pgfault_upcall : ℕ
  pub env_ipc_recving : Bool
  pub env_ipc_dstva : ℕ
  pub env_ipc_value : ℕ
  pub env_ipc_from : ℕ
  pub env_ipc_perm : ℕ

pub record Stats : Type 0 where
  pub n_sched_calls : ℕ
  pub n_context_switches : ℕ
  pub last_env_run : ℕ
  pub runs_per_env : ℕ → ℕ

-- One CPU: `curenv` is its environment.
pub record Kernel : Type 0 where
  pub envs : ℕ → Env
  pub curenv : Option ℕ
  pub aging_ticks : ℕ
  pub stats : Stats

abbrev pub is_free : Status → Bool
is_free env_free = true
is_free env_dying = false
is_free env_runnable = false
is_free env_running = false
is_free env_not_runnable = false

abbrev pub is_runnable : Status → Bool
is_runnable env_free = false
is_runnable env_dying = false
is_runnable env_runnable = true
is_runnable env_running = false
is_runnable env_not_runnable = false

abbrev pub is_running : Status → Bool
is_running env_free = false
is_running env_dying = false
is_running env_runnable = false
is_running env_running = true
is_running env_not_runnable = false

-- the statuses for which `sched_halt` does not enter the monitor
abbrev pub is_alive : Status → Bool
is_alive env_free = false
is_alive env_dying = true
is_alive env_runnable = true
is_alive env_running = true
is_alive env_not_runnable = false
