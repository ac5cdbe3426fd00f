-- ===== src/Envs/Tests.antt =====
-- Environments and messages in a small system.
use sistemas_operativos.Prelude.{
  ℕ, ◌^◌, ◌<◌, ◌≡◌, refl, arith, ◌==◌, ◌+◌, ◌&&◌, if◌then◌else◌, update, Option, none, some,
  some-injective, [], ◌∷◌,
}
use mathlib.Core.List.{Memᴰ}
use mathlib.Core.List.Memᴰ
use sistemas_operativos.Pages.Allocator.Pool.{Pool, end, next}
use sistemas_operativos.Sched.State.{env_free, env_not_runnable, Env}
use sistemas_operativos.Envs.{System}
use sistemas_operativos.Envs.Alloc.{new_trapframe, env_alloc}
use sistemas_operativos.Envs.Alloc.Fresh.{HeadInTable, AllocatedEnv, env_alloc-AllocatedEnv}
use sistemas_operativos.Envs.Calls.{sys_page_map, on_env, env_page_map, map_found}
use sistemas_operativos.Envs.Fork.{uvpt_at, uvpd_at, must, duppage}
use sistemas_operativos.Sched.Syscall.{envid2env}
use sistemas_operativos.Pages.Layout.{pgnum, pdx, ptx, pte_addr}
use sistemas_operativos.Pages.Allocator.{incref, page_free, page_decref}
use sistemas_operativos.Pages.Tables.{
  set_word, page2pa, pa2page, entry_in, pgdir_walk, mapped_page, page_lookup, unmap, page_remove,
  map_entry, page_insert,
}

-- the environment 1 waits for a message, and the others are free
abbrev waiting : ℕ → Env
waiting i = record {
  env_tf = new_trapframe;
  env_link = none;
  env_id = if i == 1 then 4097 else 0;
  env_parent_id = 0;
  env_type = 0;
  env_status = if i == 1 then env_not_runnable else env_free;
  env_runs = 0;
  priority = 8;
  env_pgdir = none;
  env_pgfault_upcall = 0;
  env_ipc_recving = i == 1;
  env_ipc_dstva = 0;
  env_ipc_value = 0;
  env_ipc_from = 0;
  env_ipc_perm = 0;
}

-- The page 3 is free, and the page 0 is the kernel's directory.
abbrev system : System
system = record {
  envs = waiting;
  env_free_list = some 2;
  curenv = some 0;
  memory = record {
    npages = 10;
    pp_ref = λ p. 0;
    pp_link = λ p. none;
    page_free_list = some 3;
    words = λ p i. 0;
  };
  kern_pgdir = 0;
}

system-Pool : Pool system.memory (3 ∷ [])
system-Pool = record {
  chain = next (omega arith) refl (λ i. Memᴰ.not-nil i) end;
  unlinked = λ p b d. refl;
}

system-HeadInTable : HeadInTable system
system-HeadInTable e h = (omega (arith, some-injective _ _ h), narrow e (some-injective _ _ h))
  where
    narrow : (e : ℕ) → 2 ≡ e → (waiting e).env_id < 2 ^ 31
    narrow e h = rw (← h) (omega arith)

zero_taken : ¬ Memᴰ {A = ℕ} 0 (3 ∷ [])
zero_taken (Memᴰ.head e) = absurd (omega arith)
zero_taken (Memᴰ.tail i) = Memᴰ.not-nil i

env_alloc-AllocatedEnv_example : AllocatedEnv system (3 ∷ []) 4097 (env_alloc system 4097)
env_alloc-AllocatedEnv_example =
    env_alloc-AllocatedEnv system 4097 (3 ∷ []) (omega arith) system-Pool zero_taken
      system-HeadInTable

-- The environment 0 and its child 1, of ids 4096 and 4097. Their directories are the pages 1 and 4 and
-- their tables the pages 2 and 5; the first has the page 3, which it may write, at the address 0x5000.
abbrev family : System
family = record system {
  envs = λ i. record (waiting i) {
    env_id = 4096 + i;
    env_status = env_not_runnable;
    env_parent_id = if i == 1 then 4096 else 0;
    env_pgdir = some (if i == 1 then 4 else 1);
  };
  memory = record (system.memory) {
    pp_ref = λ p. if p == 3 then 1 else 0;
    words = λ p i.
        if p == 1 && i == 0
        then 0x2007
        else if p == 4 && i == 0
        then 0x5007
        else if p == 2 && i == 5
        then 0x3007
        else 0;
  };
}

abbrev mappings : Option System → Option (ℕ × (ℕ × ℕ))
mappings none = none
mappings (some s) = some (s.memory.words 5 5, (s.memory.words 2 5, s.memory.pp_ref 3))

-- Both map the page for reading, marked as copied on write, and it has two references.
duppage_test : mappings (duppage family 0 4097 5) ≡ some (0x3805, (0x3805, 2))
unfolding duppage uvpt_at uvpd_at must sys_page_map on_env envid2env env_page_map map_found
    page_lookup pgdir_walk entry_in mapped_page pa2page pgnum pdx ptx pte_addr page2pa page_insert
    map_entry page_remove unmap page_decref page_free incref set_word update
duppage_test = refl
