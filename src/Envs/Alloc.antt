-- ===== src/Envs/Alloc.antt =====
-- The table of environments and its list of free ones: `env_init`, `env_alloc`, `env_create` and
-- `region_alloc` of kern/env.c.
pub mod Ids
pub mod Fresh
use sistemas_operativos.Prelude.{
  ℕ, zero, suc, ◌+◌, ◌-◌, ◌*◌, ◌/◌, ◌%◌, ◌^◌, leb, ltb, ◌==◌, if◌then◌else◌, Bool, true, false,
  ◌||◌, Option, none, some, ◌>>=◌, update, ℤ, pos, neg, bit_or, is_zero,
}
use sistemas_operativos.Pages.{PhysicalMemory}
use sistemas_operativos.Pages.Layout.{
  pgsize, utop, uvpt, pte_p, pte_w, pte_u, pdx, rounddown, roundup,
}
use sistemas_operativos.Pages.Allocator.{clear_page, page_alloc, incref}
use sistemas_operativos.Pages.Tables.{no_mem, set_word, page2pa, pa2page, page_insert}
use sistemas_operativos.Sched.State.{
  nenv, max_priority, Status, env_free, env_runnable, Trapframe, Env,
}
use sistemas_operativos.Envs.{System, Step, change_env, with_memory}

-- `-E_NO_FREE_ENV`
abbrev pub no_free_env : ℤ
no_free_env = neg 5

-- one round of the loop of `env_init`
abbrev pub free_env : ℕ → Env → Env
free_env i e = record e { env_id = 0; env_status = env_free; env_link = some (i + 1) }

-- the first `n` rounds
unfoldable pub init_envs : ℕ → (ℕ → Env) → ℕ → Env
init_envs zero envs = envs
init_envs (suc n) envs = let made = init_envs n envs in update made n (free_env n (made n))

-- `env_init`, but for the segment registers
unfoldable pub env_init : System → System
env_init s =
    let made = init_envs nenv s.envs in
    record s {
      envs = update made 1023 (record (made 1023) { env_link = none });
      env_free_list = some 0;
    }

-- the directory in the page `p`: that of the kernel, which also maps itself
unfoldable pub new_directory_page : PhysicalMemory → ℕ → ℕ → PhysicalMemory
new_directory_page m kern_pgdir p =
    let copied = record m { words = update m.words p (m.words kern_pgdir) } in
    set_word (incref copied p) p (pdx uvpt) (bit_or (bit_or (page2pa p) pte_p) pte_u)

-- `env_setup_vm` for what `page_alloc` gives
unfoldable pub setup_with : System → ℕ → Option ℕ × PhysicalMemory → Step ℤ
setup_with s e (none, m) = some (no_mem, with_memory s m)
setup_with s e (some p, m) = pa2page m (page2pa p) >>= λ q. some (
  pos 0,
  change_env (with_memory s (new_directory_page m s.kern_pgdir p)) e
      (λ env. record env { env_pgdir = some q }),
)

unfoldable pub env_setup_vm : System → ℕ → Step ℤ
env_setup_vm s e = page_alloc s.memory true >>= λ r. setup_with s e r

-- The next generation above that of an id, without the index. As an `int32_t`, a word from 2^31 on is
-- negative.
unfoldable pub generation : ℕ → ℕ
generation id =
    let next = (id + 4096) % 2 ^ 32 / nenv * nenv in
    if next == 0 || leb (2 ^ 31) next then 4096 else next

-- the registers of a new environment: the segments, the stack and FL_IF
unfoldable pub new_trapframe : Trapframe
new_trapframe = record {
  reg_eax = 0;
  tf_es = 0x23;
  tf_ds = 0x23;
  tf_eip = 0;
  tf_cs = 0x1b;
  tf_eflags = 0x200;
  tf_esp = 0xeebfe000;
  tf_ss = 0x23;
  tf_rest = λ i. 0;
}

abbrev pub new_env : ℕ → ℕ → Env → Env
new_env e parent env = record env {
  env_id = bit_or (generation env.env_id) e;
  env_parent_id = parent;
  env_type = 0;
  env_status = env_runnable;
  env_runs = 0;
  env_tf = new_trapframe;
  env_pgfault_upcall = 0;
  env_ipc_recving = false;
}

-- `env_alloc` behind `env_setup_vm`
unfoldable pub alloc_with : ℕ → ℕ → ℤ × System → ℤ × System
alloc_with e parent (code, s) =
    if is_zero code
    then (pos e, record (change_env s e (new_env e parent)) { env_free_list = (s.envs e).env_link })
    else (code, s)

-- `env_alloc` for the head of the list
unfoldable pub alloc_head : System → ℕ → Option ℕ → Step ℤ
alloc_head s parent none = some (no_free_env, s)
alloc_head s parent (some e) = env_setup_vm s e >>= λ r. some (alloc_with e parent r)

-- A code below 0, or the index of `*newenv_store`.
unfoldable pub env_alloc : System → ℕ → Step ℤ
env_alloc s parent = alloc_head s parent s.env_free_list

-- The loop of `region_alloc`, at the page at `va` with `left` pages to go. It panics without memory.
unfoldable pub region_from : ℕ → PhysicalMemory → ℕ → ℕ → Option PhysicalMemory
region_from zero m pgdir va = some m
region_from (suc left) m pgdir va = page_alloc m false >>= λ (page, m1). page >>= λ p.
    page_insert m1 pgdir p va (bit_or pte_u pte_w) >>= λ (code, m2).
    if is_zero code then region_from left m2 pgdir (va + pgsize) else none

unfoldable pub region_alloc : PhysicalMemory → ℕ → ℕ → ℕ → Option PhysicalMemory
region_alloc m pgdir va len =
    let va_hi = roundup ((va + len) % 2 ^ 32) in
    let mapped = region_from ((va_hi - rounddown va) / pgsize) m pgdir (rounddown va) in
    if ltb utop va_hi then none else mapped
