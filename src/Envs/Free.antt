-- ===== src/Envs/Free.antt =====
-- `env_free` and `env_destroy` of kern/env.c.
use sistemas_operativos.Prelude.{
  ℕ, zero, suc, ◌+◌, ◌==◌, if◌then◌else◌, Bool, false, ◌&&◌, not, Option, none, some, ◌>>=◌, pos,
  bit_and,
}
use sistemas_operativos.Pages.{PhysicalMemory}
use sistemas_operativos.Pages.Layout.{utop, pte_p, pdx, pte_addr, pgaddr}
use sistemas_operativos.Pages.Allocator.{page_decref}
use sistemas_operativos.Pages.Tables.{set_word, pa2page, page2pa, page_remove}
use sistemas_operativos.Sched.State.{env_free, env_dying, is_running}
use sistemas_operativos.Envs.{System, Exit, returned, yielded, change_env, with_memory}

-- The loop over the entries of the table `t` of the entry `pdeno`, from `pteno` on with `left` to go.
unfoldable pub unmap_from : ℕ → PhysicalMemory → ℕ → ℕ → ℕ → ℕ → Option PhysicalMemory
unmap_from zero m pgdir t pdeno pteno = some m
unmap_from (suc left) m pgdir t pdeno pteno =
    let removed =
      if bit_and (m.words t pteno) pte_p == 0
      then some m
      else page_remove m pgdir (pgaddr pdeno pteno) in
    removed >>= λ m1. unmap_from left m1 pgdir t pdeno (pteno + 1)

-- One round of the loop over the directory: the table of `pdeno` is emptied and given up.
unfoldable pub free_table : PhysicalMemory → ℕ → ℕ → Option PhysicalMemory
free_table m pgdir pdeno =
    let pde = m.words pgdir pdeno in
    let freed = pa2page m (pte_addr pde) >>= λ t.
    unmap_from 1024 m pgdir t pdeno 0 >>= λ m1. page_decref (set_word m1 pgdir pdeno 0) t in
    if bit_and pde pte_p == 0 then some m else freed

-- the loop, from `pdeno` on with `left` entries to go
unfoldable pub free_tables_from : ℕ → PhysicalMemory → ℕ → ℕ → Option PhysicalMemory
free_tables_from zero m pgdir pdeno = some m
free_tables_from (suc left) m pgdir pdeno =
    free_table m pgdir pdeno >>= λ m1. free_tables_from left m1 pgdir (pdeno + 1)

-- The environment's pages, its tables, its directory and then itself are given back. (Which directory the
-- processor uses is not modelled.)
unfoldable pub env_free_memory : PhysicalMemory → ℕ → Option PhysicalMemory
env_free_memory m pgdir = free_tables_from (pdx utop) m pgdir 0 >>= λ m1.
    pa2page m1 (page2pa pgdir) >>= λ p. page_decref m1 p

-- `env_free`; its name is that of a status too
unfoldable pub free_environment : System → ℕ → Option System
free_environment s e = (s.envs e).env_pgdir >>= λ pgdir. env_free_memory s.memory pgdir >>= λ m.
    some
      (record (change_env (with_memory s m) e (λ env. record env {
        env_pgdir = none;
        env_status = env_free;
        env_link = s.env_free_list;
      })) { env_free_list = some e })

-- whether `curenv` is the environment `e`
abbrev pub is_current : Option ℕ → ℕ → Bool
is_current none e = false
is_current (some c) e = c == e

unfoldable pub env_destroy : System → ℕ → Option Exit
env_destroy s e =
    let freed = free_environment s e >>= λ s1. some (
      if is_current s1.curenv e
      then yielded (record s1 { curenv = none })
      else returned (pos 0) s1) in
    if is_running (s.envs e).env_status && not (is_current s.curenv e)
    then some (returned (pos 0) (change_env s e (λ env. record env { env_status = env_dying })))
    else freed
