-- ===== src/Pages/Tests.antt =====
-- The kernel's memory at concrete page tables.
use sistemas_operativos.Prelude.{
  ℕ, ◌≡◌, refl, arith, true≢false, true, ◌==◌, if◌then◌else◌, none, [], update,
}
use mathlib.Core.List.{Memᴰ}
use mathlib.Core.List.Memᴰ
use sistemas_operativos.Pages.{PhysicalMemory}
use sistemas_operativos.Pages.Layout.{pgnum, pdx, ptx, pte_addr}
use sistemas_operativos.Pages.Allocator.{reserved, init_page, init_pages, page_init, page_alloc}
use sistemas_operativos.Pages.Allocator.Pool.{Pool, end, Allocated, page_alloc-Allocated}
use sistemas_operativos.Pages.Allocator.Initial.{free_pages, free_pages_sound, page_init-Pool}
use sistemas_operativos.Pages.Tables.{page_insert, page_remove}
use sistemas_operativos.Pages.Tables.Walk.{Tabled}
use sistemas_operativos.Pages.Tables.Remove.{Unmapped, page_remove-Unmapped}
use sistemas_operativos.Pages.Tables.Entry.{Inserted}
use sistemas_operativos.Pages.Tables.Insert.{Space, page_insert-Inserted}
use sistemas_operativos.Pages.Access.Verdict.{Verdict}

-- ten pages, all words 0
abbrev ten : PhysicalMemory
ten = record {
  npages = 10;
  pp_ref = λ p. 0;
  pp_link = λ p. none;
  page_free_list = none;
  words = λ p i. 0;
}

ready-Pool : Pool (page_init 0 ten) (free_pages 0 10)
ready-Pool = (page_init-Pool 0 ten refl).0

page_alloc-Allocated_example :
    Allocated (page_init 0 ten) true (free_pages 0 10) (page_alloc (page_init 0 ten) true)
page_alloc-Allocated_example =
    page_alloc-Allocated (page_init 0 ten) true (free_pages 0 10) ready-Pool

-- The page 7, of MPENTRY_PADDR, is no free page, nor is the page 0.
seven_taken : ¬ Memᴰ 7 (free_pages 0 10)
unfolding reserved pgnum
seven_taken i = true≢false (free_pages_sound 0 10 7 i).1

zero_taken : ¬ Memᴰ 0 (free_pages 0 10)
unfolding reserved pgnum
zero_taken i = true≢false (free_pages_sound 0 10 0 i).1

-- `page_init` changes no word.
ready_words : (p i : ℕ) → (page_init 0 ten).words p i ≡ 0
unfolding page_init init_pages init_page reserved pgnum
ready_words p i = refl

ready_page : ((page_init 0 ten).npages ≡ 10) × ((page_init 0 ten).pp_ref 0 ≡ 0)
unfolding page_init init_pages init_page reserved pgnum update
ready_page = (refl, refl)

ready-Space : Space (page_init 0 ten) (free_pages 0 10) 7 0x1000
ready-Space = record {
  owned = seven_taken;
  tabled = λ ne. absurd (ne (ready_words 7 _));
  counted = λ ne. absurd (ne (ready_words 7 _));
}

page_insert-Inserted_example :
    Inserted
      (page_init 0 ten)
      (free_pages 0 10)
      7
      0
      0x1000
      6
      (page_insert (page_init 0 ten) 7 0 0x1000 6)
page_insert-Inserted_example =
    page_insert-Inserted (page_init 0 ten) 7 0 0x1000 6 (omega (arith, ready_page.0)) (omega arith)
      (omega (arith, ready_page.0)) (omega (arith, ready_page.1)) (free_pages 0 10) ready-Pool
      zero_taken ready-Space

-- The page 2 is the table of the directory in page 1, and maps the page 3 at 0x5000 for a user.
abbrev tables : ℕ → ℕ → ℕ
tables p i =
    if p == 1
    then (if i == 0 then 0x2001 else 0)
    else if p == 2
    then (if i == 5 then 0x3005 else 0)
    else 0

abbrev mapping : PhysicalMemory
mapping = record {
  npages = 10;
  pp_ref = λ p. 1;
  pp_link = λ p. none;
  page_free_list = none;
  words = tables;
}

mapping-Pool : Pool mapping []
mapping-Pool = record { chain = end; unlinked = λ p b d. refl }

mapping-Tabled : Tabled mapping 1 0x5000 2
unfolding pgnum pdx pte_addr
mapping-Tabled = record {
  directed = λ e. omega arith;
  there = refl;
  inside = omega arith;
  apart = λ e. omega arith;
}

page_remove-Unmapped_example : Unmapped mapping [] 2 (ptx 0x5000) (page_remove mapping 1 0x5000)
unfolding pgnum ptx pte_addr
page_remove-Unmapped_example =
    page_remove-Unmapped mapping [] 1 0x5000 2 mapping-Pool mapping-Tabled (λ ne. record {
      inside = omega arith;
      taken = λ i. Memᴰ.not-nil i;
      referenced = λ e. omega arith;
      narrow = omega arith;
    })
