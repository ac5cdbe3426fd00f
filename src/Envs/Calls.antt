-- ===== src/Envs/Calls.antt =====
-- The system calls of kern/syscall.c on environments and their memory. `curenv` is not null in a system
-- call: it is the index `cur`. An address and an id are words of 32 bits.
use sistemas_operativos.Prelude.{
  ℕ, ◌%◌, leb, ◌==◌, if◌then◌else◌, Bool, true, ◌&&◌, ◌||◌, not, Option, none, some, ◌>>=◌, ℤ, pos,
  negsuc, bit_and, bit_or, is_neg,
}
use sistemas_operativos.Pages.{PhysicalMemory, Kernel}
use sistemas_operativos.Pages.Layout.{pgsize, utop, pte_p, pte_w, pte_u, pte_syscall}
use sistemas_operativos.Pages.Allocator.{page_alloc}
use sistemas_operativos.Pages.Tables.{no_mem, page_lookup, page_remove, page_insert}
use sistemas_operativos.Pages.Access.{user_mem_check}
use sistemas_operativos.Sched.State.{Status, env_runnable, env_not_runnable, Env}
use sistemas_operativos.Sched.Syscall.{bad_env, invalid, envid2env}
use sistemas_operativos.Envs.{System, Step, Exit, returned, yielded, change_env, with_memory}
use sistemas_operativos.Envs.Alloc.{env_alloc}
use sistemas_operativos.Envs.Free.{env_destroy}

-- `check_perm` without a `pte`. The bits above those of PTE_SYSCALL are refused.
unfoldable pub check_perm : ℕ → ℤ
check_perm perm =
    if not (bit_and perm pte_syscall == perm)
    then invalid
    else if bit_and perm pte_p == 0 || bit_and perm pte_u == 0
    then invalid
    else pos 0

-- `env_page_alloc` for what `page_alloc` gives
unfoldable pub insert_new : Option ℕ → ℕ → ℕ → Option ℕ × PhysicalMemory → Kernel ℤ
insert_new pgdir va perm (none, m) = some (no_mem, m)
insert_new pgdir va perm (some p, m) = pgdir >>= λ directory. page_insert m directory p va perm

unfoldable pub env_page_alloc : PhysicalMemory → Option ℕ → ℕ → ℕ → Kernel ℤ
env_page_alloc m pgdir va perm =
    let inserted = page_alloc m true >>= λ r. insert_new pgdir va perm r in
    if is_neg (check_perm perm) then some (check_perm perm, m) else inserted

-- `env_page_map` for what `page_lookup` finds: the page, and the entry that maps it at the source
unfoldable pub map_found : Option ℕ → ℕ → ℕ → Option (ℕ × (ℕ × ℕ)) × PhysicalMemory → Kernel ℤ
map_found dst dstva perm (none, m) = some (invalid, m)
map_found dst dstva perm (some (page, (t, i)), m) =
    if not (bit_and perm pte_w == 0) && bit_and (m.words t i) pte_w == 0
    then some (invalid, m)
    else dst >>= λ directory. page_insert m directory page dstva perm

unfoldable pub env_page_map : PhysicalMemory → Option ℕ → ℕ → Option ℕ → ℕ → ℕ → Kernel ℤ
env_page_map m src srcva dst dstva perm =
    src >>= λ directory. page_lookup m directory srcva >>= λ r. map_found dst dstva perm r

-- `(uint32_t) va >= UTOP || (uint32_t) va % PGSIZE`
abbrev pub bad_address : ℕ → Bool
bad_address va = leb utop va || not (va % pgsize == 0)

-- what a function on the memory returns, in the system
abbrev pub in_memory : System → Kernel ℤ → Step ℤ
in_memory s r = r >>= λ (code, m). some (code, with_memory s m)

-- A call on the environment that an id gives to `cur`, or -E_BAD_ENV.
unfoldable pub on_env : System → ℕ → ℕ → (ℕ → Step ℤ) → Step ℤ
on_env s cur envid f = elim (envid2env s.envs cur envid true) [
  | none ↦ some (bad_env, s)
  | some e ↦ f e
]

unfoldable pub sys_page_alloc : System → ℕ → ℕ → ℕ → ℕ → Step ℤ
sys_page_alloc s cur envid va perm =
    if bad_address va
    then some (invalid, s)
    else on_env s cur envid λ e.
      in_memory s
        (env_page_alloc s.memory (s.envs e).env_pgdir va (bit_or (bit_or perm pte_u) pte_p))

unfoldable pub sys_page_map : System → ℕ → ℕ → ℕ → ℕ → ℕ → ℕ → Step ℤ
sys_page_map s cur srcenvid srcva dstenvid dstva perm =
    if bad_address srcva || bad_address dstva
    then some (invalid, s)
    else on_env s cur srcenvid λ a. on_env s cur dstenvid λ b. in_memory s (
        env_page_map s.memory (s.envs a).env_pgdir srcva (s.envs b).env_pgdir dstva
          (bit_or (bit_or pte_p pte_u) perm))

unfoldable pub sys_page_unmap : System → ℕ → ℕ → ℕ → Step ℤ
sys_page_unmap s cur envid va =
    if bad_address va
    then some (invalid, s)
    else on_env s cur envid λ e. (s.envs e).env_pgdir >>= λ pgdir.
        page_remove s.memory pgdir va >>= λ m. some (pos 0, with_memory s m)

-- the child of `sys_exofork`: it waits, with the registers and the priority of its parent, and 0 in eax
abbrev pub forked : Env → Env → Env
forked parent child = record child {
  env_status = env_not_runnable;
  env_tf = record (parent.env_tf) { reg_eax = 0 };
  priority = parent.priority;
}

-- `sys_exofork` for what `env_alloc` gives
unfoldable pub fork_with : ℕ → ℤ × System → ℤ × System
fork_with cur (negsuc n, s) = (negsuc n, s)
fork_with cur (pos e, s) =
    let s1 = change_env s e (forked (s.envs cur)) in (pos (s1.envs e).env_id, s1)

unfoldable pub sys_exofork : System → ℕ → Step ℤ
sys_exofork s cur = env_alloc s (s.envs cur).env_id >>= λ r. some (fork_with cur r)

-- `ENV_RUNNABLE` and `ENV_NOT_RUNNABLE`, the statuses that may be set
unfoldable pub settable : ℕ → Option Status
settable status =
    if status == 2 then some env_runnable else if status == 4 then some env_not_runnable else none

unfoldable pub sys_env_set_status : System → ℕ → ℕ → ℕ → Step ℤ
sys_env_set_status s cur envid status = elim (settable status) [
  | none ↦ some (invalid, s)
  | some st ↦
      on_env s cur envid λ e. some (pos 0, change_env s e (λ env. record env { env_status = st }))
]

-- `user_mem_assert`: an environment that may not use the range is destroyed, and then the call may not
-- return
unfoldable pub user_mem_assert : System → ℕ → ℕ → ℕ → ℕ → Option Exit
user_mem_assert s e va len perm = (s.envs e).env_pgdir >>= λ pgdir.
    user_mem_check s.memory pgdir va len (bit_or perm pte_u) 0 >>= λ (code, addr).
    if is_neg code then env_destroy s e else some (returned (pos 0) s)

-- the rest of the call, if the first part returns
unfoldable pub go_on : Exit → (System → Exit) → Exit
go_on (returned code s) f = f s
go_on (yielded s) f = yielded s

unfoldable pub sys_env_set_pgfault_upcall : System → ℕ → ℕ → ℕ → Option Exit
sys_env_set_pgfault_upcall s cur envid func = elim (envid2env s.envs cur envid true) [
  | none ↦ some (returned bad_env s)
  | some e ↦ user_mem_assert s e func pgsize (bit_or pte_p pte_u) >>= λ exit. some (
      go_on exit (λ s1.
        returned (pos 0) (change_env s1 e (λ env. record env { env_pgfault_upcall = func }))))
]

unfoldable pub sys_env_destroy : System → ℕ → ℕ → Option Exit
sys_env_destroy s cur envid = elim (envid2env s.envs cur envid true) [
  | none ↦ some (returned bad_env s)
  | some e ↦ env_destroy s e >>= λ exit. some (go_on exit (returned (pos 0)))
]
