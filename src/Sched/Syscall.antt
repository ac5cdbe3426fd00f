-- ===== src/Sched/Syscall.antt =====
-- `envid2env` of kern/env.c, and the system calls of kern/syscall.c that read or set a priority. In a
-- system call `curenv` is not null: it is the index `cur`.
pub mod Priority
use sistemas_operativos.Prelude.{
  ℕ, ltb, ◌==◌, if◌then◌else◌, Bool, true, ◌&&◌, ◌||◌, not, Option, none, some, update, ℤ, pos,
  negsuc, neg,
}
use sistemas_operativos.Sched.State.{env_index, max_priority, Env, is_free}

-- E_BAD_ENV and E_INVAL of inc/error.h
abbrev pub bad_env : ℤ
bad_env = neg 2

abbrev pub invalid : ℤ
invalid = neg 3

-- the index of `*env_store`, if the code is 0
unfoldable pub envid2env : (ℕ → Env) → ℕ → ℕ → Bool → Option ℕ
envid2env envs cur envid checkperm =
    let e = env_index envid in
    if envid == 0
    then some cur
    else if is_free (envs e).env_status || not ((envs e).env_id == envid)
    then none
    else if checkperm && (not (e == cur) && not ((envs e).env_parent_id == (envs cur).env_id))
    then none
    else some e

unfoldable pub priority_of : (ℕ → Env) → Option ℕ → ℤ
priority_of envs none = bad_env
priority_of envs (some e) = pos (envs e).priority

unfoldable pub sys_getpriority : (ℕ → Env) → ℕ → ℕ → ℤ
sys_getpriority envs cur envid = priority_of envs (envid2env envs cur envid true)

-- the checks of `sys_setpriority` on the `int` priority that it is given, and the assignment
unfoldable pub set_priority : (ℕ → Env) → ℕ → ℕ → ℤ → Option ℕ → ℤ × (ℕ → Env)
set_priority envs cur envid priority none = (bad_env, envs)
set_priority envs cur envid (negsuc n) (some e) = (invalid, envs)
set_priority envs cur envid (pos p) (some e) =
    if ltb max_priority p
    then (invalid, envs)
    else if (envid == (envs cur).env_id) && not (ltb p (envs e).priority)
    then (invalid, envs)
    else if ltb (envs e).priority p
    then (invalid, envs)
    else (pos 0, update envs e (record (envs e) { priority = p }))

unfoldable pub sys_setpriority : (ℕ → Env) → ℕ → ℕ → ℤ → ℤ × (ℕ → Env)
sys_setpriority envs cur envid priority =
    set_priority envs cur envid priority (envid2env envs cur envid true)
