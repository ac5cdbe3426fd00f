-- ===== src/Pages/Tables.antt =====
-- Page directories and page tables, as kern/pmap.c walks and changes them. A page directory is the index
-- of its page, and the address of an entry is that of its page and the index of the word there. What the
-- processor caches of them (`tlb_invalidate`) is not modelled.
pub mod Walk
pub mod Remove
pub mod Entry
pub mod Insert
use sistemas_operativos.Prelude.{
  ℕ, zero, suc, ◌+◌, ◌-◌, ◌*◌, ◌/◌, ◌%◌, ◌^◌, ltb, leb, ◌==◌, if◌then◌else◌, Bool, true, false,
  Option, none, some, ◌>>=◌, update, ℤ, pos, neg, bit_or,
}
use sistemas_operativos.Pages.{PhysicalMemory, Kernel}
use sistemas_operativos.Pages.Layout.{
  pgsize, mmiolim, pte_p, pte_w, pte_u, pte_uncached, pgnum, pdx, ptx, pte_addr, rounddown, roundup,
}
use sistemas_operativos.Pages.Allocator.{page_alloc, page_decref, incref}

-- `-E_NO_MEM`
abbrev pub no_mem : ℤ
no_mem = neg 4

-- `words[p][i] = w`
unfoldable pub set_word : PhysicalMemory → ℕ → ℕ → ℕ → PhysicalMemory
set_word m p i w = record m { words = update m.words p (update (m.words p) i w) }

-- `page2pa(pp)`, a word of 32 bits
unfoldable pub page2pa : ℕ → ℕ
page2pa p = p * pgsize % 2 ^ 32

-- `pa2page(pa)`, and `KADDR(pa)` as a page: both panic outside the physical memory
unfoldable pub pa2page : PhysicalMemory → ℕ → Option ℕ
pa2page m pa = if leb m.npages (pgnum pa) then none else some (pgnum pa)

-- The entry for `va` in the table that an entry of the directory gives, if there is a table.
unfoldable pub entry_in : PhysicalMemory → ℕ → ℕ → Option (Option (ℕ × ℕ))
entry_in m va entry =
    let found = pa2page m (pte_addr entry) >>= λ table. some (some (table, ptx va)) in
    if entry == 0 then some none else found

-- The first half of `pgdir_walk`, for a directory that has no table for `va`: a new one, when
-- `page_alloc` has a page.
unfoldable pub add_table : ℕ → ℕ → Option ℕ × PhysicalMemory → PhysicalMemory
add_table pgdir va (none, m) = m
add_table pgdir va (some p, m) =
    set_word (incref m p) pgdir (pdx va) (bit_or (bit_or (bit_or (page2pa p) pte_p) pte_w) pte_u)

-- `NULL` is `none`.
unfoldable pub pgdir_walk : PhysicalMemory → ℕ → ℕ → Bool → Kernel (Option (ℕ × ℕ))
pgdir_walk m pgdir va create =
    let walked =
      if m.words pgdir (pdx va) == 0
      then (if create then (page_alloc m true >>= λ r. some (add_table pgdir va r)) else some m)
      else some m in
    walked >>= λ m1. entry_in m1 va (m1.words pgdir (pdx va)) >>= λ pte. some (pte, m1)

-- The page of an entry, and `*pte_store`. A `*pte` other than 0 counts as present (`*pte && PTE_P`).
unfoldable pub mapped_page : PhysicalMemory → Option (ℕ × ℕ) → Option (Option (ℕ × (ℕ × ℕ)))
mapped_page m none = some none
mapped_page m (some (p, i)) =
    let found = pa2page m (pte_addr (m.words p i)) >>= λ page. some (some (page, (p, i))) in
    if m.words p i == 0 then some none else found

unfoldable pub page_lookup : PhysicalMemory → ℕ → ℕ → Kernel (Option (ℕ × (ℕ × ℕ)))
page_lookup m pgdir va =
    pgdir_walk m pgdir va false >>= λ (pte, m1). mapped_page m1 pte >>= λ found. some (found, m1)

-- `page_remove` for what `page_lookup` found: without a page there is nothing to do
unfoldable pub unmap : Option (ℕ × (ℕ × ℕ)) × PhysicalMemory → Option PhysicalMemory
unmap (none, m) = some m
unmap (some (page, (p, i)), m) = page_decref m page >>= λ m1. some (set_word m1 p i 0)

unfoldable pub page_remove : PhysicalMemory → ℕ → ℕ → Option PhysicalMemory
page_remove m pgdir va = page_lookup m pgdir va >>= λ r. unmap r

-- `page_insert` behind `pgdir_walk`
unfoldable pub map_entry : ℕ → ℕ → ℕ → ℕ → Option (ℕ × ℕ) × PhysicalMemory → Kernel ℤ
map_entry pgdir page va perm (none, m) = some (no_mem, m)
map_entry pgdir page va perm (some (p, i), m) = page_remove (incref m page) pgdir va >>= λ m1.
    some (pos 0, set_word m1 p i (bit_or (bit_or (page2pa page) perm) pte_p))

unfoldable pub page_insert : PhysicalMemory → ℕ → ℕ → ℕ → ℕ → Kernel ℤ
page_insert m pgdir page va perm =
    pgdir_walk m pgdir va true >>= λ r. map_entry pgdir page va perm r

-- One round of `boot_map_region`. An entry that could not be had is a null pointer: there is no result.
unfoldable pub boot_map_page : PhysicalMemory → ℕ → ℕ → ℕ → ℕ → Option PhysicalMemory
boot_map_page m pgdir va pa perm = pgdir_walk m pgdir va true >>= λ (pte, m1).
    page_remove m1 pgdir va >>= λ m2.
    pte >>= λ (p, i). some (set_word m2 p i (bit_or (bit_or pa perm) pte_p))

-- The loop of `boot_map_region` with `left` pages to go. (The build does not define TP1_PSE.)
unfoldable pub boot_map_from : ℕ → PhysicalMemory → ℕ → ℕ → ℕ → ℕ → Option PhysicalMemory
boot_map_from zero m pgdir va pa perm = some m
boot_map_from (suc left) m pgdir va pa perm = boot_map_page m pgdir va pa perm >>= λ m1.
    boot_map_from left m1 pgdir ((va + pgsize) % 2 ^ 32) ((pa + pgsize) % 2 ^ 32) perm

unfoldable pub boot_map_region : PhysicalMemory → ℕ → ℕ → ℕ → ℕ → ℕ → Option PhysicalMemory
boot_map_region m pgdir va size pa perm =
    boot_map_from ((size + (pgsize - 1)) / pgsize) m pgdir va pa perm

-- `mmio_map_region`, with the static `base` and the one it leaves
unfoldable pub mmio_map_region : PhysicalMemory → ℕ → ℕ → ℕ → ℕ → Kernel (ℕ × ℕ)
mmio_map_region m kern_pgdir base pa size =
    let rounded = roundup size in
    let behind = (base + rounded) % 2 ^ 32 in
    let mapped =
      boot_map_region m kern_pgdir base rounded (rounddown pa)
        (bit_or (bit_or pte_w pte_p) pte_uncached) in
    if leb mmiolim behind then none else mapped >>= λ m1. some ((base, behind), m1)
