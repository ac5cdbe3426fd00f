-- ===== src/Sched/Tests.antt =====
-- The scheduler with three environments.
use sistemas_operativos.Prelude.{
  ℕ, ◌+◌, ◌%◌, ◌<◌, ◌≡◌, refl, sym, ◌⊎◌, inl, inr, arith, leb, if◌then◌else◌, true, false,
  Bool-cases, none, none-ne-some, pos, true≢false, ◌∙◌,
}
use sistemas_operativos.Sched.State.{
  nenv, env_free, env_runnable, Trapframe, Env, Kernel, is_running,
}
use sistemas_operativos.Sched.Run.{runs, halted}
use sistemas_operativos.Sched.Yield.{
  start_of, keep_or_halt, runnable, sched_yield_round_robin, sched_yield_priorities,
}
use sistemas_operativos.Sched.Yield.Choice.{at_distance}
use sistemas_operativos.Sched.Yield.RoundRobin.{
  OneRunning, After, sched_yield_round_robin-OneRunning,
}
use sistemas_operativos.Sched.Yield.Running.{sched_yield_priorities-OneRunning}
use sistemas_operativos.Sched.Yield.Priorities.{BestAt, sched_yield_priorities-BestAt}
use sistemas_operativos.Sched.Yield.Aging.{sched_yield_priorities-halts}
use sistemas_operativos.Sched.Syscall.{sys_setpriority}
use sistemas_operativos.Sched.Syscall.Priority.{Lowers, sys_setpriority-Lowers}

abbrev no_registers : Trapframe
no_registers = record {
  reg_eax = 0;
  tf_es = 0;
  tf_ds = 0;
  tf_eip = 0;
  tf_cs = 0;
  tf_eflags = 0;
  tf_esp = 0;
  tf_ss = 0;
  tf_rest = λ i. 0;
}

-- the environments 0 to 2 are runnable, with the priority 5
abbrev three : ℕ → Env
three i = record {
  env_tf = no_registers;
  env_link = none;
  env_id = i;
  env_parent_id = 0;
  env_type = 0;
  env_status = if leb 3 i then env_free else env_runnable;
  env_runs = 0;
  priority = 5;
  env_pgdir = none;
  env_pgfault_upcall = 0;
  env_ipc_recving = false;
  env_ipc_dstva = 0;
  env_ipc_value = 0;
  env_ipc_from = 0;
  env_ipc_perm = 0;
}

abbrev kernel : ℕ → Kernel
kernel ticks = record {
  envs = three;
  curenv = none;
  aging_ticks = ticks;
  stats = record {
    n_sched_calls = 0;
    n_context_switches = 0;
    last_env_run = 0;
    runs_per_env = λ i. 0;
  };
}

idle : (i : ℕ) → is_running (three i).env_status ≡ false
idle i = elim (Bool-cases (leb 3 i)) [ inl e ↦ rw e refl | inr e ↦ rw e refl ]

kernel-OneRunning : OneRunning (kernel 0)
kernel-OneRunning = record {
  only = λ i h r. absurd (true≢false (sym r ∙ idle i));
  in_array = λ c h. absurd (none-ne-some c h);
}

sched_yield_round_robin-OneRunning_example : After OneRunning (sched_yield_round_robin (kernel 0))
sched_yield_round_robin-OneRunning_example =
    sched_yield_round_robin-OneRunning (kernel 0) kernel-OneRunning

sched_yield_priorities-BestAt_example :
    let start = start_of three none in
    ((d : ℕ) × (k' : Kernel) × BestAt three start d
      × (sched_yield_priorities (kernel 0) ≡ runs ((start + d) % nenv) k'))
    ⊎ ((k' : Kernel) × ((t : ℕ) → t < nenv → runnable (at_distance three start t) ≡ false)
        × (sched_yield_priorities (kernel 0) ≡ keep_or_halt k' none)
        × (k'.envs ≡ three))
sched_yield_priorities-BestAt_example = sched_yield_priorities-BestAt (kernel 0) (omega arith)

sched_yield_priorities-halts_example :
    (k' : Kernel) × (sched_yield_priorities (kernel 49) ≡ halted k') × (runnable (k'.envs 1) ≡ true)
sched_yield_priorities-halts_example =
    sched_yield_priorities-halts (kernel 49) 1 5 (omega arith) refl (omega arith) refl (omega arith)
      (λ i h r. refl)

sys_setpriority-Lowers_example : Lowers three 1 2 (pos 3) (sys_setpriority three 1 2 (pos 3))
sys_setpriority-Lowers_example = sys_setpriority-Lowers three 1 2 (pos 3)

sched_yield_priorities-OneRunning_example : After OneRunning (sched_yield_priorities (kernel 49))
sched_yield_priorities-OneRunning_example = sched_yield_priorities-OneRunning (kernel 49) (record {
  only = λ i h r. absurd (true≢false (sym r ∙ idle i));
  in_array = λ c h. absurd (none-ne-some c h);
})
