-- ===== src/Pages/Tables/Walk.antt =====
-- `pgdir_walk` and `page_lookup` of kern/pmap.c in a directory that has a table for the address.
use sistemas_operativos.Prelude.{
  ℕ, ◌/◌, ◌%◌, ◌^◌, ◌<◌, ◌≡◌, ◌≢◌, refl, ◌∙◌, arith, leb, ≢→==, Bool, false, none, some, bit_or,
  bit_or_above, bit_or_odd,
}
use sistemas_operativos.Pages.{PhysicalMemory}
use sistemas_operativos.Pages.Layout.{pte_p, pgnum, pdx, ptx, pte_addr}
use sistemas_operativos.Pages.Tables.{
  page2pa, pa2page, entry_in, pgdir_walk, mapped_page, page_lookup,
}

-- The directory `pgdir` has the table `t` for the address `va`.
pub record Tabled (m : PhysicalMemory) (pgdir va t : ℕ) : Type 0 where
  pub directed : m.words pgdir (pdx va) ≢ 0
  pub there : pgnum (pte_addr (m.words pgdir (pdx va))) ≡ t
  pub inside : t < m.npages
  pub apart : t ≢ pgdir

in_range : (n p : ℕ) → p < n → leb n p ≡ false
in_range n p h = ground arith

pub pa2page-inside :
    (m : PhysicalMemory) (pa p : ℕ) → pgnum pa ≡ p → p < m.npages → pa2page m pa ≡ some p
unfolding pa2page
pa2page-inside m pa p e b = rw (e, in_range m.npages p b) refl

module _ (m : PhysicalMemory) (pgdir va t : ℕ) (w : Tabled m pgdir va t) where
  pub entry_in-Tabled : entry_in m va (m.words pgdir (pdx va)) ≡ some (some (t, ptx va))
  unfolding entry_in
  entry_in-Tabled =
      rw
        (
          ≢→== _ 0 w.directed,
          pa2page-inside m (pte_addr (m.words pgdir (pdx va))) t w.there w.inside,
        )
        refl

  pub pgdir_walk-Tabled :
      (create : Bool) → pgdir_walk m pgdir va create ≡ some (some (t, ptx va), m)
  unfolding pgdir_walk
  pgdir_walk-Tabled create = rw (≢→== _ 0 w.directed, entry_in-Tabled) refl

  -- `page_lookup` finds nothing at an entry that is 0, and else the page of the entry.
  pub page_lookup-absent : m.words t (ptx va) ≡ 0 → page_lookup m pgdir va ≡ some (none, m)
  unfolding page_lookup mapped_page
  page_lookup-absent e = rw (pgdir_walk-Tabled false, e) refl

  pub page_lookup-present :
      (p : ℕ)
      → m.words t (ptx va) ≢ 0
      → pgnum (pte_addr (m.words t (ptx va))) ≡ p
      → p < m.npages
      → page_lookup m pgdir va ≡ some (some (p, (t, ptx va)), m)
  unfolding page_lookup mapped_page
  page_lookup-present p ne e b =
      rw
        (
          pgdir_walk-Tabled false,
          ≢→== (m.words t (ptx va)) 0 ne,
          pa2page-inside m (pte_addr (m.words t (ptx va))) p e b,
        )
        refl

-- The entry for a page: it is not 0, and its upper bits are the number of the page.
pub small_page : (p : ℕ) → p < 2 ^ 20 → page2pa p / 4096 ≡ p
unfolding page2pa
small_page p h = omega arith

pub odd_nonzero : (a : ℕ) → a % 2 ≡ 1 → a ≢ 0
odd_nonzero a h e = omega arith

pub number_of : (a p : ℕ) → a / 4096 ≡ p → pgnum (pte_addr a) ≡ p
unfolding pgnum pte_addr
number_of a p h = omega arith

abbrev pub entry_for : ℕ → ℕ → ℕ
entry_for p perm = bit_or (bit_or (page2pa p) perm) pte_p

pub entry_for-nonzero : (p perm : ℕ) → entry_for p perm ≢ 0
entry_for-nonzero p perm = odd_nonzero _ (bit_or_odd (bit_or (page2pa p) perm) pte_p refl)

pub entry_for-page :
    (p perm : ℕ) → p < 2 ^ 20 → perm < 4096 → pgnum (pte_addr (entry_for p perm)) ≡ p
entry_for-page p perm b h = number_of _ p (
    bit_or_above (bit_or (page2pa p) perm) pte_p (omega arith)
    ∙ bit_or_above (page2pa p) perm h
    ∙ small_page p b)
