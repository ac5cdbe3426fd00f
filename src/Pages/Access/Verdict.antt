-- ===== src/Pages/Access/Verdict.antt =====
-- `user_mem_check` of kern/pmap.c says yes exactly when each byte of the range may be used.
use sistemas_operativos.Prelude.{
  ℕ, ◌+◌, ◌-◌, ◌%◌, ◌^◌, ◌≤◌, ◌<◌, ◌≡◌, ◌≢◌, ltb, ◌==◌, if◌then◌else◌, Bool, true, false, not,
  Option, none, some, ℤ, pos,
}
use sistemas_operativos.Pages.{PhysicalMemory}
use sistemas_operativos.Pages.Layout.{utop, pgnum, pdx, ptx, pte_addr, rounddown, roundup}
use sistemas_operativos.Pages.Access.{fault, denied}

-- Each table of the directory is a page of the memory.
abbrev pub Walks : PhysicalMemory → ℕ → Type 0
Walks m pgdir =
    (va : ℕ) → m.words pgdir (pdx va) ≢ 0 → pgnum (pte_addr (m.words pgdir (pdx va))) < m.npages

-- the entry for `va`, if there is a table for it
unfoldable pub entry_of : PhysicalMemory → ℕ → ℕ → Option (ℕ × ℕ)
entry_of m pgdir va =
    if m.words pgdir (pdx va) == 0
    then none
    else some (pgnum (pte_addr (m.words pgdir (pdx va))), ptx va)

-- The page of the byte at `a` has an entry with the permissions.
unfoldable pub allows : PhysicalMemory → ℕ → ℕ → ℕ → Bool
allows m pgdir perm a = not (denied m perm (entry_of m pgdir (rounddown a)))

-- What the loop over the pages from `start` to `stop` finds, for a range that begins at `lo`: that each
-- byte may be used, or the first page that may not.
data Scan (ok : ℕ → Bool) (lo start stop : ℕ) : Option (Option ℕ) → Type 0 where
  clean : ((b : ℕ) → start ≤ b → b < stop → ok b ≡ true) → Scan ok lo start stop (some none)
  faulty :
      (at : ℕ)
      → start ≤ at
      → at < stop
      → at % 4096 ≡ 0
      → ok at ≡ false
      → ((b : ℕ) → start ≤ b → b < at → ok b ≡ true)
      → Scan ok lo start stop (some (some (if ltb lo at then at else lo)))

-- What `user_mem_check` says of the range of `len` bytes at `va`, by a test of each byte: it ends above
-- UTOP; or each byte may be used, and the address of the last fault stays; or `a` is the first of the
-- bytes of its pages, from `va` on, that may not.
pub data Verdict (ok : ℕ → Bool) (va len addr : ℕ) : Option (ℤ × ℕ) → Type 0 where
  too_high : utop < roundup (va + len) → Verdict ok va len addr (some (fault, va))
  granted :
      roundup (va + len) ≤ utop
      → ((b : ℕ) → va ≤ b → b < va + len → ok b ≡ true)
      → Verdict ok va len addr (some (pos 0, addr))
  refused :
      (a : ℕ)
      → va ≤ a
      → a < roundup (va + len)
      → ok a ≡ false
      → ((b : ℕ) → va ≤ b → b < a → ok b ≡ true)
      → Verdict ok va len addr (some (fault, a))

module _ (m : PhysicalMemory) (pgdir va len perm addr : ℕ) (walks : Walks m pgdir)
    (short : va + len ≤ 2 ^ 32 - 4096) where
  ok : ℕ → Bool
  ok = allows m pgdir perm
