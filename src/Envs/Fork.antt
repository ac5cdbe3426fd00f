-- ===== src/Envs/Fork.antt =====
-- lib/fork.c and lib/pgfault.c: the fork that copies on write, which the environment `cur` runs itself by
-- its system calls. A panic of the environment has no result, nor has a fault on its own accesses.
use sistemas_operativos.Prelude.{
  ◌≡◌, refl, ◌∙◌, bit_and-zero, bit_and-one, bit_and_even, ℕ, zero, suc, ◌+◌, ◌-◌, ◌*◌, ◌/◌, ◌%◌,
  ◌^◌, ◌==◌, if◌then◌else◌, Bool, true, false, ◌||◌, ◌&&◌, not, Option, none, some, ◌>>=◌, ℤ, pos,
  negsuc, bit_and, bit_or, is_neg,
}
use sistemas_operativos.Pages.Layout.{
  pgsize, utop, pte_p, pte_w, pte_u, pte_syscall, pte_uncached, pgnum, pte_addr, rounddown,
}
use sistemas_operativos.Envs.{System, Step, Exit, returned, yielded, with_memory}
use sistemas_operativos.Envs.Calls.{
  sys_page_alloc, sys_page_map, sys_page_unmap, sys_exofork, sys_env_set_status,
  sys_env_set_pgfault_upcall,
}

abbrev pub pte_cow : ℕ
pte_cow = 0x800

abbrev pub fec_wr : ℕ
fec_wr = 2

-- `PTSIZE`
abbrev pub utemp : ℕ
utemp = 0x400000

abbrev pub pftemp : ℕ
pftemp = utemp + 0x400000 - pgsize

abbrev pub lacks : ℕ → ℕ → Bool
lacks entry bits = bit_and entry bits == 0

-- `uvpd[n]`
unfoldable pub uvpd_at : System → ℕ → ℕ → Option ℕ
uvpd_at s cur n = (s.envs cur).env_pgdir >>= λ pgdir. some (s.memory.words pgdir n)

-- `uvpt[pn]`. Without a table that the environment may read, the access is a fault.
unfoldable pub uvpt_at : System → ℕ → ℕ → Option ℕ
uvpt_at s cur pn = uvpd_at s cur (pn / 1024) >>= λ pde.
    if lacks pde pte_p || lacks pde pte_u
    then none
    else some (s.memory.words (pgnum (pte_addr pde)) (pn % 1024))

-- the page at `va`, if the environment may use it, for a write if `write`
unfoldable pub user_page : System → ℕ → ℕ → Bool → Option ℕ
user_page s cur va write = uvpt_at s cur (va / pgsize) >>= λ pte.
    if lacks pte pte_p || lacks pte pte_u || (write && lacks pte pte_w)
    then none
    else some (pgnum (pte_addr pte))

-- `memmove(dst, src, PGSIZE)` between two pages
unfoldable pub move_page : System → ℕ → ℕ → ℕ → Option System
move_page s cur dst src = user_page s cur src false >>= λ from. user_page s cur dst true >>= λ to.
    some (
      with_memory s (record (s.memory) {
        words = λ p i. if p == to then s.memory.words from i else s.memory.words p i;
      }))

-- a call that must not fail
unfoldable pub must : Step ℤ → Option System
must r = r >>= λ (code, s). if is_neg code then none else some s

-- The condition of `pgfault` is `(err & FEC_WR) & !(fault_pte & PTE_COW)`.
unfoldable pub bad_fault : ℕ → ℕ → Bool
bad_fault err pte = not (bit_and (bit_and err fec_wr) (if lacks pte pte_cow then 1 else 0) == 0)

-- `pgfault` behind its condition
unfoldable pub copy_on_write : System → ℕ → ℕ → Option System
copy_on_write s cur va =
    let perm = bit_or (bit_or pte_p pte_u) pte_w in
    must (sys_page_alloc s cur 0 pftemp perm) >>= λ s1.
    move_page s1 cur pftemp (rounddown va) >>= λ s2.
    must (sys_page_map s2 cur 0 pftemp 0 (rounddown va) perm) >>= λ s3.
    must (sys_page_unmap s3 cur 0 pftemp)

unfoldable pub pgfault : System → ℕ → ℕ → ℕ → Option System
pgfault s cur va err = uvpt_at s cur (va / pgsize) >>= λ pte.
    if bad_fault err pte then none else copy_on_write s cur va

-- PTE_PCD and PTE_PWT for a page that has one of them
abbrev pub with_uncached : ℕ → ℕ → ℕ
with_uncached perm pte = if lacks pte pte_uncached then perm else bit_or perm pte_uncached

unfoldable pub duppage : System → ℕ → ℕ → ℕ → Option System
duppage s cur envid pn = uvpt_at s cur pn >>= λ pte.
    let addr = pn * pgsize % 2 ^ 32 in
    let perm = with_uncached (bit_or pte_u pte_p) pte in
    let shared_on_write =
      must (sys_page_map s cur 0 addr envid addr (bit_or perm pte_cow)) >>= λ s1.
      must (sys_page_map s1 cur 0 addr 0 addr (bit_or perm pte_cow)) in
    if lacks pte pte_p || lacks pte pte_u
    then none
    else if lacks pte pte_w && lacks pte pte_cow
    then must (sys_page_map s cur 0 addr envid addr perm)
    else shared_on_write

unfoldable pub dup_or_share : System → ℕ → ℕ → ℕ → ℕ → Option System
dup_or_share s cur envid pn perm = uvpt_at s cur pn >>= λ pte.
    let addr = pn * pgsize % 2 ^ 32 in
    let perm1 = with_uncached (bit_and (bit_and perm (bit_and pte pte_w)) pte_syscall) pte in
    let copied = must (sys_page_alloc s cur envid addr perm1) >>= λ s1.
    must (sys_page_map s1 cur envid addr 0 utemp perm1) >>= λ s2.
    move_page s2 cur utemp addr >>= λ s3. must (sys_page_unmap s3 cur 0 utemp) in
    if lacks pte pte_p
    then some s
    else if lacks pte pte_w || not (lacks pte pte_uncached)
    then must (sys_page_map s cur 0 addr envid addr perm1)
    else copied

-- what is done with the page `pn`, if its table is present and for users
abbrev pub if_table : System → ℕ → ℕ → Option System → Option System
if_table s cur pn body =
    uvpd_at s cur (pn / 1024) >>= λ pde. if lacks pde pte_p || lacks pde pte_u then some s else body

-- the loop of `fork_v0` with `left` pages to go
unfoldable pub share_from : ℕ → System → ℕ → ℕ → ℕ → Option System
share_from zero s cur envid pn = some s
share_from (suc left) s cur envid pn =
    if_table s cur pn (dup_or_share s cur envid pn (bit_or (bit_or pte_p pte_u) pte_w)) >>= λ s1.
    share_from left s1 cur envid (pn + 1)

-- What follows `sys_exofork` for its code, in the parent; a negative code is a panic. ENV_RUNNABLE is 2.
unfoldable pub fork_v0_of : ℕ → ℤ × System → Step ℕ
fork_v0_of cur (negsuc n, s) = none
fork_v0_of cur (pos envid, s) = share_from (utop / pgsize) s cur envid 0 >>= λ s1.
    must (sys_env_set_status s1 cur envid 2) >>= λ s2. some (envid, s2)

unfoldable pub fork_v0 : System → ℕ → Step ℕ
fork_v0 s cur = sys_exofork s cur >>= λ r. fork_v0_of cur r

-- one round of the loop of `fork`: the page of the exception stack is left out
unfoldable pub fork_page : System → ℕ → ℕ → ℕ → Option System
fork_page s cur envid pn =
    let dup = uvpt_at s cur pn >>= λ pte.
    if lacks pte pte_p || lacks pte pte_u then some s else duppage s cur envid pn in
    if pn == utop / pgsize - 1 then some s else if_table s cur pn dup

unfoldable pub fork_from : ℕ → System → ℕ → ℕ → ℕ → Option System
fork_from zero s cur envid pn = some s
fork_from (suc left) s cur envid pn =
    fork_page s cur envid pn >>= λ s1. fork_from left s1 cur envid (pn + 1)

-- What a call that may not return gives to what follows it, if that is to see its code.
unfoldable pub then_do : Option Exit → (ℤ → System → Option Exit) → Option Exit
then_do none f = none
then_do (some (yielded s)) f = some (yielded s)
then_do (some (returned code s)) f = f code s

-- `set_pgfault_handler(pgfault)`, which returns when a call fails: `installed` is whether there is a
-- handler, and `upcall` the address of `_pgfault_upcall`
unfoldable pub set_pgfault_handler : System → ℕ → Bool → ℕ → Option Exit
set_pgfault_handler s cur true upcall = some (returned (pos 0) s)
set_pgfault_handler s cur false upcall =
    sys_page_alloc s cur 0 (utop - pgsize) (bit_or (bit_or pte_u pte_p) pte_w) >>= λ (code, s1).
    if is_neg code then some (returned code s1) else sys_env_set_pgfault_upcall s1 cur 0 upcall

-- `fork` behind `sys_exofork`, in the parent; `upcall` is `thisenv->env_pgfault_upcall`
unfoldable pub fork_end : ℕ → ℕ → System → Option Exit
fork_end cur envid s =
    must (sys_page_alloc s cur envid (utop - pgsize) (bit_or (bit_or pte_u pte_p) pte_w)) >>= λ s1.
    then_do (sys_env_set_pgfault_upcall s1 cur envid (s1.envs cur).env_pgfault_upcall) λ code s2.
      if is_neg code
      then none
      else must (sys_env_set_status s2 cur envid 2) >>= λ s3. some (returned (pos envid) s3)

unfoldable pub fork_of : ℕ → ℤ × System → Option Exit
fork_of cur (negsuc n, s) = none
fork_of cur (pos envid, s) = fork_from (utop / pgsize) s cur envid 0 >>= λ s1. fork_end cur envid s1

unfoldable pub fork : System → ℕ → Bool → ℕ → Option Exit
fork s cur installed upcall =
    then_do (set_pgfault_handler s cur installed upcall)
      λ code s1. sys_exofork s1 cur >>= λ r. fork_of cur r

no_common_bit : (err : ℕ) (b : Bool) → bit_and (bit_and err fec_wr) (if b then 1 else 0) ≡ 0
no_common_bit err true = bit_and-one (bit_and err 2) ∙ bit_and_even err
no_common_bit err false = bit_and-zero (bit_and err 2)

-- The condition of `pgfault` is never true.
bad_fault-never : (err pte : ℕ) → bad_fault err pte ≡ false
unfolding bad_fault
bad_fault-never err pte = rw (no_common_bit err (lacks pte pte_cow)) refl

-- Whatever the fault was, if the table is there and for users: the page is copied, and its copy may be
-- written.
pub pgfault-copies :
    (s : System) (cur va err pte : ℕ)
    → uvpt_at s cur (va / pgsize) ≡ some pte
    → pgfault s cur va err ≡ copy_on_write s cur va
unfolding pgfault
pgfault-copies s cur va err pte h = rw (h, bad_fault-never err pte) refl
