-- ===== src/Pages/Access.antt =====
-- `user_mem_check` of kern/pmap.c: whether a program may use a range of its memory.
pub mod Verdict
use sistemas_operativos.Prelude.{
  ℕ, zero, suc, ◌+◌, ◌-◌, ◌*◌, ◌/◌, ◌%◌, ◌^◌, ltb, ◌==◌, if◌then◌else◌, Bool, true, false, not,
  Option, none, some, ◌>>=◌, ℤ, pos, neg, bit_and, bit_or,
}
use sistemas_operativos.Pages.{PhysicalMemory}
use sistemas_operativos.Pages.Layout.{pgsize, utop, pte_p, rounddown, roundup}
use sistemas_operativos.Pages.Tables.{pgdir_walk}

-- `-E_FAULT`
abbrev pub fault : ℤ
fault = neg 6

-- there is no entry, or it lacks one of the permissions
unfoldable pub denied : PhysicalMemory → ℕ → Option (ℕ × ℕ) → Bool
denied m perm none = true
denied m perm (some (p, i)) = not (bit_and (m.words p i) (bit_or perm pte_p) == bit_or perm pte_p)

-- The loop, at the page at `va_act` with `left` pages to go: the address at fault, if there is one.
unfoldable pub check_from : PhysicalMemory → ℕ → ℕ → ℕ → ℕ → ℕ → Option (Option ℕ)
check_from m pgdir va_lo perm zero va_act = some none
check_from m pgdir va_lo perm (suc left) va_act =
    let rest = check_from m pgdir va_lo perm left (va_act + pgsize) in
    pgdir_walk m pgdir va_act false >>= λ (pte, m1).
    if denied m1 perm pte then some (some (if ltb va_lo va_act then va_act else va_lo)) else rest

-- The code, and `user_mem_check_addr`, which was `addr`. The loop runs from `ROUNDDOWN(va_lo, PGSIZE)` to
-- `va_hi` in steps of a page, and both are the address of one.
unfoldable pub user_mem_check : PhysicalMemory → ℕ → ℕ → ℕ → ℕ → ℕ → Option (ℤ × ℕ)
user_mem_check m pgdir va len perm addr =
    let va_hi = roundup ((va + len) % 2 ^ 32) in
    let pages = (va_hi - rounddown va) / pgsize in
    if ltb utop va_hi
    then some (fault, va)
    else check_from m pgdir va perm pages (rounddown va) >>= λ at. elim at [
      | none ↦ some (pos 0, addr)
      | some a ↦ some (fault, a)
    ]
