-- ===== src/Pages/Layout.antt =====
-- The constants and macros of inc/mmu.h, inc/memlayout.h and inc/types.h on addresses, which are words
-- of 32 bits.
use sistemas_operativos.Prelude.{ℕ, ◌+◌, ◌-◌, ◌*◌, ◌/◌, ◌%◌, ◌^◌}

abbrev pub pgsize : ℕ
pgsize = 4096

abbrev pub ptsize : ℕ
ptsize = 4194304

abbrev pub kernbase : ℕ
kernbase = 0xf0000000

abbrev pub iophysmem : ℕ
iophysmem = 0xa0000

abbrev pub extphysmem : ℕ
extphysmem = 0x100000

abbrev pub mpentry_paddr : ℕ
mpentry_paddr = 0x7000

-- `KSTACKTOP - PTSIZE`
abbrev pub mmiolim : ℕ
mmiolim = 0xefc00000

abbrev pub mmiobase : ℕ
mmiobase = 0xef800000

abbrev pub uvpt : ℕ
uvpt = 0xef400000

abbrev pub utop : ℕ
utop = 0xeec00000

abbrev pub pte_p : ℕ
pte_p = 1

abbrev pub pte_w : ℕ
pte_w = 2

abbrev pub pte_u : ℕ
pte_u = 4

-- `PTE_PWT | PTE_PCD`
abbrev pub pte_uncached : ℕ
pte_uncached = 0x18

abbrev pub pte_syscall : ℕ
pte_syscall = 0xe07

unfoldable pub pgnum : ℕ → ℕ
pgnum la = la / 4096

unfoldable pub pdx : ℕ → ℕ
pdx la = la / 4194304 % 1024

unfoldable pub ptx : ℕ → ℕ
ptx la = la / 4096 % 1024

-- `pte & ~0xFFF`
unfoldable pub pte_addr : ℕ → ℕ
pte_addr pte = pte / 4096 * 4096

-- `PGADDR(d, t, 0)`
unfoldable pub pgaddr : ℕ → ℕ → ℕ
pgaddr d t = d * 4194304 + t * 4096

-- `ROUNDDOWN(a, PGSIZE)`
unfoldable pub rounddown : ℕ → ℕ
rounddown a = a - a % pgsize

-- `ROUNDUP(a, PGSIZE)`, which wraps to 0 above the last page
unfoldable pub roundup : ℕ → ℕ
unfolding rounddown
roundup a = rounddown ((a + (pgsize - 1)) % 2 ^ 32)
