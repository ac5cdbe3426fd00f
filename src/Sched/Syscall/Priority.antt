-- ===== src/Sched/Syscall/Priority.antt =====
-- What `sys_setpriority` does to the priorities.
use sistemas_operativos.Prelude.{
  ℕ, ◌<◌, ◌≤◌, ◌≡◌, refl, ◌⊎◌, inl, inr, arith, ltb, ◌==◌, Bool, true, false, Bool-cases, ◌&&◌, not,
  Option, none, some, update, ℤ, pos, negsuc, is_neg,
}
use sistemas_operativos.Sched.State.{max_priority, Env}
use sistemas_operativos.Sched.Syscall.{envid2env, set_priority, sys_setpriority}

-- A change of priorities that raises none: nothing with a code below 0, or one environment's with the
-- code 0, to the number that was asked for, which is in range and strictly lower if the environment
-- is the caller's.
abbrev pub Lowers : (ℕ → Env) → ℕ → ℕ → ℤ → ℤ × (ℕ → Env) → Type 0
Lowers envs cur envid priority r =
    ((is_neg r.0 ≡ true) × (r.1 ≡ envs))
    ⊎ ((r.0 ≡ pos 0)
        × (e : ℕ) × (p : ℕ) × (envid2env envs cur envid true ≡ some e)
        × (priority ≡ pos p)
        × (p ≤ max_priority)
        × (p ≤ (envs e).priority)
        × ((envid == (envs cur).env_id) ≡ true → p < (envs e).priority)
        × (r.1 ≡ update envs e (record (envs e) { priority = p })))

in_range : (p : ℕ) → ltb max_priority p ≡ false → p ≤ max_priority
in_range p h = ground arith

not_above : (p q : ℕ) → ltb q p ≡ false → p ≤ q
not_above p q h = ground arith

strictly : (b : Bool) (p q : ℕ) → (b && not (ltb p q)) ≡ false → b ≡ true → p < q
strictly b p q h e = ground arith

set_priority-Lowers :
    (envs : ℕ → Env) (cur envid : ℕ) (priority : ℤ) (r : Option ℕ)
    → envid2env envs cur envid true ≡ r
    → Lowers envs cur envid priority (set_priority envs cur envid priority r)
unfolding set_priority
set_priority-Lowers envs cur envid priority none h = inl (refl, refl)
set_priority-Lowers envs cur envid (negsuc n) (some e) h = inl (refl, refl)
set_priority-Lowers envs cur envid (pos p) (some e) h = elim (Bool-cases (ltb max_priority p)) [
  | inl big ↦ rw big (inl (refl, refl))
  | inr fits ↦ elim (Bool-cases ((envid == (envs cur).env_id) && not (ltb p (envs e).priority))) [
    | inl own ↦ rw (fits, own) (inl (refl, refl))
    | inr other ↦ elim (Bool-cases (ltb (envs e).priority p)) [
      | inl raises ↦ rw (fits, other, raises) (inl (refl, refl))
      | inr lowers ↦
          rw (fits, other, lowers)
            (inr (
              refl,
              e,
              p,
              h,
              refl,
              in_range p fits,
              not_above p (envs e).priority lowers,
              strictly _ p (envs e).priority other,
              refl,
            ))
    ]
  ]
]

-- `sys_setpriority` either returns a code below 0 and changes nothing, or returns 0 and sets the
-- priority of the environment that `envid2env` allows to a number from 0 to 8 that is not higher than
-- before, and strictly lower when the caller names itself by its id.
pub sys_setpriority-Lowers :
    (envs : ℕ → Env) (cur envid : ℕ) (priority : ℤ)
    → Lowers envs cur envid priority (sys_setpriority envs cur envid priority)
unfolding sys_setpriority
sys_setpriority-Lowers envs cur envid priority =
    set_priority-Lowers envs cur envid priority (envid2env envs cur envid true) refl
