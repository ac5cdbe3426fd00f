-- ===== src/Sched/Yield/Choice.antt =====
-- The search of `sched_yield` around the array.
use sistemas_operativos.Prelude.{
  ℕ, zero, suc, ◌+◌, ◌-◌, ◌%◌, ◌<◌, ◌≤◌, ◌≡◌, refl, ◌⊎◌, inl, inr, arith, ◌==◌, ==→≡, Bool, true,
  false, Bool-cases, Option, none, some,
}
use sistemas_operativos.Sched.State.{nenv, Env}
use sistemas_operativos.Sched.Yield.{pick_from}

-- the environment at the distance `d` from `start`
abbrev pub at_distance : (ℕ → Env) → ℕ → ℕ → Env
at_distance envs start d = envs ((start + d) % nenv)

-- The answer of a search from the distance `lo` on: the nearest environment that passes the test, or
-- none if no environment passes.
abbrev pub Nearest : (Env → Bool) → (ℕ → Env) → ℕ → ℕ → Option ℕ → Type 0
Nearest test envs start lo r =
    ((d : ℕ) × (r ≡ some ((start + d) % nenv))
      × (lo ≤ d)
      × (d < nenv)
      × (test (at_distance envs start d) ≡ true)
      × ((t : ℕ) → lo ≤ t → t < d → test (at_distance envs start t) ≡ false))
    ⊎ ((r ≡ none) × ((t : ℕ) → lo ≤ t → t < nenv → test (at_distance envs start t) ≡ false))

module _ (test : Env → Bool) (envs : ℕ → Env) (start : ℕ) where
  missed :
      (lo t : ℕ)
      → test (at_distance envs start lo) ≡ false
      → (lo + 1 ≤ t → test (at_distance envs start t) ≡ false)
      → lo ≤ t
      → test (at_distance envs start t) ≡ false
  missed lo t e k h = elim (Bool-cases (t == lo)) [
    | inl same ↦ rw (==→≡ t lo same) e
    | inr other ↦ k (ground (arith, other))
  ]

  Nearest-step :
      (lo : ℕ) (r : Option ℕ)
      → test (at_distance envs start lo) ≡ false
      → Nearest test envs start (lo + 1) r
      → Nearest test envs start lo r
  Nearest-step lo r e (inl (d, found, above, below, passes, before)) =
      inl (d, found, omega arith, below, passes, λ t p q. missed lo t e (λ h. before t h q) p)
  Nearest-step lo r e (inr (absent, before)) =
      inr (absent, λ t p q. missed lo t e (λ h. before t h q) p)

  pub pick_from-Nearest :
      (left lo : ℕ)
      → lo + left ≡ nenv
      → Nearest test envs start lo (pick_from test envs start left lo)
  unfolding pick_from
  pick_from-Nearest zero lo h = inr (refl, λ t p q. absurd (omega arith))
  pick_from-Nearest (suc left) lo h = elim (Bool-cases (test (at_distance envs start lo))) [
    | inl e ↦ rw e (inl (lo, refl, omega arith, omega arith, e, λ t p q. absurd (omega arith)))
    | inr e ↦ rw e (Nearest-step lo _ e (pick_from-Nearest left (lo + 1) (omega arith)))
  ]

-- how far behind `start` the index `j` comes
abbrev pub distance : ℕ → ℕ → ℕ
distance start j = (j + (nenv - start % nenv)) % nenv

pub distance_lem : (start j : ℕ) → j < nenv → (start + distance start j) % nenv ≡ j
distance_lem start j h = omega arith

pub distance_bound : (start j : ℕ) → distance start j < nenv
distance_bound start j = omega arith
