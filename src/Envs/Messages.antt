-- ===== src/Envs/Messages.antt =====
-- Messages between environments: `sys_ipc_try_send` and `sys_ipc_recv` of kern/syscall.c.
pub mod Delivery
use sistemas_operativos.Prelude.{
  ℕ, leb, ◌==◌, if◌then◌else◌, Bool, true, false, ◌&&◌, ◌||◌, not, ◌%◌, Option, none, some, ◌>>=◌,
  ℤ, pos, neg, bit_and, bit_or, is_neg,
}
use sistemas_operativos.Pages.{PhysicalMemory, Kernel}
use sistemas_operativos.Pages.Layout.{pgsize, utop, pte_p, pte_w, pte_u}
use sistemas_operativos.Pages.Tables.{page_lookup}
use sistemas_operativos.Sched.State.{env_runnable, env_not_runnable, Env}
use sistemas_operativos.Sched.Syscall.{bad_env, invalid, envid2env}
use sistemas_operativos.Envs.{System, Step, Exit, returned, yielded, change_env, with_memory}
use sistemas_operativos.Envs.Calls.{env_page_alloc, env_page_map, bad_address}

-- `-E_IPC_NOT_RECV`
abbrev pub not_recv : ℤ
not_recv = neg 7

-- what the label `bail` sets: the message, and that the receiver goes on with 0
abbrev pub receive : ℕ → ℕ → Env → Env
receive from value env = record env {
  env_ipc_from = from;
  env_ipc_recving = false;
  env_ipc_value = value;
  env_tf = record (env.env_tf) { reg_eax = 0 };
  env_status = env_runnable;
}

unfoldable pub deliver : System → ℕ → ℕ → ℕ → ℤ × System
deliver s cur dst value = (pos 0, change_env s dst (receive (s.envs cur).env_id value))

-- A page of the receiver's own at the address, which the mapping of the sender's page then replaces.
unfoldable pub map_message : PhysicalMemory → Env → ℕ → Env → ℕ → Kernel ℤ
map_message m src srcva dst perm =
    env_page_alloc m dst.env_pgdir dst.env_ipc_dstva perm >>= λ (code, m1).
    if is_neg code
    then some (code, m1)
    else env_page_map m1 src.env_pgdir srcva dst.env_pgdir dst.env_ipc_dstva perm

-- the page for a receiver that asks for one, and then the message
unfoldable pub send_page : System → ℕ → ℕ → ℕ → ℕ → ℕ → Step ℤ
send_page s cur dst value srcva perm =
    let mapped = map_message s.memory (s.envs cur) srcva (s.envs dst) perm >>= λ (code, m). some (
      if is_neg code
      then (code, with_memory s m)
      else deliver (change_env (with_memory s m) dst (λ env. record env { env_ipc_perm = perm }))
          cur dst value) in
    if (s.envs dst).env_ipc_dstva == 0 then some (deliver s cur dst value) else mapped

-- the two checks of `*srcpte`, which is `pte`
abbrev pub absent_page : ℕ → Bool
absent_page pte = not (pte == 0) && bit_and pte pte_p == 0

abbrev pub read_only : ℕ → ℕ → Bool
read_only perm pte = not (bit_and perm pte_w == 0) && bit_and pte pte_w == 0

-- The checks of the page that `page_lookup` found at `srcva`. Without one, `srcpte` is not set and is
-- followed all the same.
unfoldable pub check_found :
    System → ℕ → ℕ → ℕ → ℕ → ℕ → Option (ℕ × (ℕ × ℕ)) × PhysicalMemory → Step ℤ
check_found s cur dst value srcva perm (none, m) = none
check_found s cur dst value srcva perm (some (page, (t, i)), m) =
    if absent_page (m.words t i)
    then some (invalid, with_memory s m)
    else if read_only perm (m.words t i)
    then some (invalid, with_memory s m)
    else send_page (with_memory s m) cur dst value srcva (bit_or perm (bit_or pte_u pte_p))

unfoldable pub check_source : System → ℕ → ℕ → ℕ → ℕ → ℕ → Step ℤ
check_source s cur dst value srcva perm = (s.envs cur).env_pgdir >>= λ pgdir.
    page_lookup s.memory pgdir srcva >>= λ r. check_found s cur dst value srcva perm r

-- `sys_ipc_try_send` to the environment `dst`, which waits for a message
unfoldable pub send_waiting : System → ℕ → ℕ → ℕ → ℕ → ℕ → Step ℤ
send_waiting s cur dst value srcva perm =
    if leb utop srcva
    then some (deliver (change_env s dst (λ env. record env { env_ipc_perm = 0 })) cur dst value)
    else if not (srcva % pgsize == 0)
    then some (invalid, s)
    else check_source s cur dst value srcva perm

unfoldable pub send_to : System → ℕ → ℕ → ℕ → ℕ → ℕ → Step ℤ
send_to s cur dst value srcva perm =
    if not (s.envs dst).env_ipc_recving
    then some (not_recv, s)
    else send_waiting s cur dst value srcva perm

unfoldable pub sys_ipc_try_send : System → ℕ → ℕ → ℕ → ℕ → ℕ → Step ℤ
sys_ipc_try_send s cur envid value srcva perm = elim (envid2env s.envs cur envid false) [
  | none ↦ some (bad_env, s)
  | some dst ↦ send_to s cur dst value srcva perm
]

-- The flag is set before the address is checked, and stays set if the address is refused.
unfoldable pub sys_ipc_recv : System → ℕ → ℕ → Exit
sys_ipc_recv s cur dstva =
    let s1 = change_env s cur (λ env. record env { env_ipc_recving = true }) in
    if bad_address dstva
    then returned invalid s1
    else yielded (
        change_env s1 cur
          (λ env. record env { env_ipc_dstva = dstva; env_status = env_not_runnable }))
