-- ===== src/Sched/Yield/Turns.antt =====
-- Under round robin each environment that is ready gets its turn.
use sistemas_operativos.Prelude.{ℕ, suc, ◌<◌, ◌≡◌, ◌⊎◌, true, Option, some, update}
use sistemas_operativos.Sched.State.{nenv, env_index, Env, Kernel}
use sistemas_operativos.Sched.Run.{runs, put_back, start_env, count_run}
use sistemas_operativos.Sched.Yield.{count_call, start_of, runnable, sched_yield_round_robin}
use sistemas_operativos.Sched.Yield.Choice.{distance}

-- Each environment's id carries its index, as `env_alloc` makes it.
abbrev pub WellNumbered : (ℕ → Env) → Type 0
WellNumbered envs = (i : ℕ) → i < nenv → env_index (envs i).env_id ≡ i

started : (ℕ → Env) → Option ℕ → ℕ → ℕ → Env
started envs cur e = update (put_back envs cur e) e (start_env (put_back envs cur e e))

-- the kernel that the call leaves if it runs `e`
ran : Kernel → ℕ → Kernel
unfolding started
ran k e = record k {
  envs = started k.envs k.curenv e;
  curenv = some e;
  stats = count_run (count_call k).stats (k.envs e).env_id;
}

-- what one call brings to the environment `j` that is ready
pub record Step (k : Kernel) (j : ℕ) : Type 0 where
  pub chosen : ℕ
  pub after : Kernel
  pub result : sched_yield_round_robin k ≡ runs chosen after
  pub turn :
      (chosen ≡ j)
      ⊎ ((runnable (after.envs j) ≡ true)
          × WellNumbered after.envs
          × (distance (start_of after.envs after.curenv) j < distance (start_of k.envs k.curenv) j))

module _ (k : Kernel) (j : ℕ) (numbered : WellNumbered k.envs) (fits : j < nenv)
    (ready : runnable (k.envs j) ≡ true) where
  abbrev start : ℕ
  start = start_of k.envs k.curenv

-- The environment `j` is chosen in one of the next `n` calls, if nothing but the scheduler changes the
-- environments in between.
pub data TurnWithin (j : ℕ) : ℕ → Kernel → Type 0 where
  now : {n : ℕ} {k k' : Kernel} → sched_yield_round_robin k ≡ runs j k' → TurnWithin j (suc n) k
  later :
      {n : ℕ} {k : Kernel} (i : ℕ) (k' : Kernel)
      → sched_yield_round_robin k ≡ runs i k'
      → TurnWithin j n k'
      → TurnWithin j (suc n) k
