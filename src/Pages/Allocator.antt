-- ===== src/Pages/Allocator.antt =====
-- The page allocator of kern/pmap.c.
pub mod Pool
pub mod Initial
use sistemas_operativos.Prelude.{
  ℕ, zero, suc, ◌+◌, ◌-◌, ◌*◌, ◌%◌, ◌^◌, ltb, leb, ◌==◌, if◌then◌else◌, Bool, true, false, ◌&&◌,
  ◌||◌, not, Option, none, some, ◌>>=◌, update, inc_mod, dec_mod,
}
use sistemas_operativos.Pages.{PhysicalMemory, Kernel}
use sistemas_operativos.Pages.Layout.{
  pgsize, kernbase, iophysmem, extphysmem, mpentry_paddr, pgnum, roundup,
}

-- `boot_alloc(n)` with `nextfree`, the next free virtual address, and the address behind: the physical
-- memory must reach that far. `PADDR` and `KADDR` panic outside of it.
unfoldable pub boot_alloc : ℕ → ℕ → ℕ → Option (ℕ × ℕ)
boot_alloc npages nextfree n =
    let above = (nextfree + n) % 2 ^ 32 in
    let last = above - kernbase in
    if ltb above kernbase || leb (pgsize * npages % 2 ^ 32) last
    then none
    else if leb npages (pgnum last)
    then none
    else some (nextfree, roundup (last + kernbase))

-- the pages that the loop of `page_init` skips; `first` is the first page behind the kernel
unfoldable pub reserved : ℕ → ℕ → Bool
reserved first i =
    i == 0
    || pgnum mpentry_paddr == i
    || (leb (pgnum iophysmem) i && ltb i (pgnum extphysmem))
    || (leb (pgnum extphysmem) i && ltb i first)

unfoldable pub init_page : ℕ → PhysicalMemory → ℕ → PhysicalMemory
init_page first m i =
    if reserved first i then record m { pp_link = update m.pp_link i none } else record m {
      pp_link = update m.pp_link i m.page_free_list;
      pp_ref = update m.pp_ref i 0;
      page_free_list = some i;
    }

-- the first `n` rounds of the loop
unfoldable pub init_pages : ℕ → ℕ → PhysicalMemory → PhysicalMemory
init_pages first zero m = m
init_pages first (suc n) m = init_page first (init_pages first n m) n

-- `first` is `PGNUM(PADDR(boot_alloc(0)))`
unfoldable pub page_init : ℕ → PhysicalMemory → PhysicalMemory
page_init first m = init_pages first m.npages m

-- `memset(page2kva(pp), 0, PGSIZE)`; `KADDR` panics for a page outside the physical memory
unfoldable pub clear_page : PhysicalMemory → ℕ → Option PhysicalMemory
clear_page m p =
    if leb m.npages p then none else some (record m { words = update m.words p (λ i. 0) })

-- `page_alloc` for the head of the list, and whether the page is zeroed
unfoldable pub take_page : PhysicalMemory → Bool → Option ℕ → Kernel (Option ℕ)
take_page m zeroed none = some (none, m)
take_page m zeroed (some p) =
    let m1 = record m { page_free_list = m.pp_link p; pp_link = update m.pp_link p none } in
    if zeroed then (clear_page m1 p >>= λ m2. some (some p, m2)) else some (some p, m1)

-- `zeroed` is `alloc_flags & ALLOC_ZERO`
unfoldable pub page_alloc : PhysicalMemory → Bool → Kernel (Option ℕ)
page_alloc m zeroed = take_page m zeroed m.page_free_list

unfoldable pub page_free : PhysicalMemory → ℕ → Option PhysicalMemory
page_free m p = if not (m.pp_ref p == 0) then none else elim (m.pp_link p) [
  | some q ↦ none
  | none ↦
      some (record m { pp_link = update m.pp_link p m.page_free_list; page_free_list = some p })
]

-- `pp_ref` has 16 bits.
unfoldable pub page_decref : PhysicalMemory → ℕ → Option PhysicalMemory
page_decref m p =
    let m1 = record m { pp_ref = update m.pp_ref p (dec_mod (2 ^ 16) (m.pp_ref p)) } in
    if m1.pp_ref p == 0 then page_free m1 p else some m1

-- `pp->pp_ref++`
unfoldable pub incref : PhysicalMemory → ℕ → PhysicalMemory
incref m p = record m { pp_ref = update m.pp_ref p (inc_mod (2 ^ 16) (m.pp_ref p)) }
