-- ===== src/Envs.antt =====
-- The kernel's environments with their memory: what kern/env.c and kern/syscall.c share. A null pointer
-- that is followed, and a panic, have no result.
pub mod Alloc
pub mod Load
pub mod Free
pub mod Calls
pub mod Messages
pub mod Dispatch
pub mod Fork
mod Tests
use sistemas_operativos.Prelude.{ℕ, Option, ℤ, update}
use sistemas_operativos.Pages.{PhysicalMemory}
use sistemas_operativos.Sched.State.{Env}

-- `kern_pgdir` is the page of the kernel's directory.
pub record System : Type 0 where
  pub envs : ℕ → Env
  pub env_free_list : Option ℕ
  pub curenv : Option ℕ
  pub memory : PhysicalMemory
  pub kern_pgdir : ℕ

-- What a function returns, and the system it leaves.
abbrev pub Step : Type 0 → Type 0
Step A = Option (A × System)

-- What a function does that may not return: it returns, or ends in `sched_yield` for good.
pub data Exit : Type 0 where
  returned : ℤ → System → Exit
  yielded : System → Exit

-- `envs[e] = f(envs[e])`
abbrev pub change_env : System → ℕ → (Env → Env) → System
change_env s e f = record s { envs = update s.envs e (f (s.envs e)) }

abbrev pub with_memory : System → PhysicalMemory → System
with_memory s m = record s { memory = m }
