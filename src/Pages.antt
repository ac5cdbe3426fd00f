-- ===== src/Pages.antt =====
-- The kernel's memory: the table of pages of kern/pmap.c and its list of free pages, and the words of
-- physical memory that hold page directories and page tables. `panic` has no result.
pub mod Layout
pub mod Allocator
pub mod Tables
pub mod Access
mod Tests
use sistemas_operativos.Prelude.{ℕ, Option}

-- `pages[i].pp_ref`, `pages[i].pp_link` and `page_free_list`, with the index of a page for the pointer to
-- its `struct PageInfo`, and the 1024 words of each page.
pub record PhysicalMemory : Type 0 where
  pub npages : ℕ
  pub pp_ref : ℕ → ℕ
  pub pp_link : ℕ → Option ℕ
  pub page_free_list : Option ℕ
  pub words : ℕ → ℕ → ℕ

-- What a kernel function returns, and the memory it leaves; `none` is a panic.
abbrev pub Kernel : Type 0 → Type 0
Kernel A = Option (A × PhysicalMemory)
