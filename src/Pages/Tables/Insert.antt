-- ===== src/Pages/Tables/Insert.antt =====
-- `page_insert` of kern/pmap.c, with a new table or an old one.
use sistemas_operativos.Prelude.{
  ℕ, ◌+◌, ◌^◌, ◌≤◌, ◌<◌, ◌≡◌, ◌≢◌, refl, sym, ap, subst, ◌∙◌, arith, ◌==◌, ==→≡, ==→≢, true,
  Bool-cases, inl, inr, Option, some, ◌>>=◌, List, ◌∷◌, update, update_self, update_ne, inc_mod,
  bit_or, bit_or_odd, bit_or_odd_left, bit_or_above,
}
use mathlib.Core.List.{Memᴰ}
use sistemas_operativos.Pages.{PhysicalMemory, Kernel}
use sistemas_operativos.Pages.Layout.{pte_p, pte_w, pte_u, pgnum, pdx, ptx, pte_addr}
use sistemas_operativos.Pages.Allocator.{incref}
use sistemas_operativos.Pages.Allocator.Pool.{
  Pool, Pool-ref, Pool-words, Allocated, exhausted, taken, page_alloc-Allocated,
}
use sistemas_operativos.Pages.Tables.{
  set_word, page2pa, add_table, entry_in, pgdir_walk, map_entry, page_insert,
}
use sistemas_operativos.Pages.Tables.Walk.{
  Tabled, pgdir_walk-Tabled, number_of, odd_nonzero, small_page, entry_in-Tabled,
}
use sistemas_operativos.Pages.Tables.Remove.{page_at, Counted}
use sistemas_operativos.Pages.Tables.Entry.{
  Inserted, out_of_memory, word_set, word_kept, below, map_entry-Inserted, refs_untabled,
  refs_absent, refs_present,
}

-- The directory is a page of the memory that is not free. Its table for `va`, if there is one, is another
-- such page, and an entry other than 0 there is of a page that is not free and has its references counted.
pub record Space (m : PhysicalMemory) (ps : List ℕ) (pgdir va : ℕ) : Type 0 where
  pub owned : ¬ Memᴰ pgdir ps
  pub tabled : m.words pgdir (pdx va) ≢ 0 → Tabled m pgdir va (page_at m pgdir (pdx va))
  pub counted :
      m.words pgdir (pdx va) ≢ 0
      → m.words (page_at m pgdir (pdx va)) (ptx va) ≢ 0
      → Counted m ps (page_at m (page_at m pgdir (pdx va)) (ptx va))

-- the entry of a new table in the directory
abbrev table_entry : ℕ → ℕ
table_entry p = bit_or (bit_or (bit_or (page2pa p) pte_p) pte_w) pte_u

table_entry-nonzero : (p : ℕ) → table_entry p ≢ 0
table_entry-nonzero p = odd_nonzero _ (
    bit_or_odd_left (bit_or (bit_or (page2pa p) pte_p) pte_w) pte_u
      (bit_or_odd_left (bit_or (page2pa p) pte_p) pte_w (bit_or_odd (page2pa p) pte_p refl)))

table_entry-page : (p : ℕ) → p < 2 ^ 20 → pgnum (pte_addr (table_entry p)) ≡ p
table_entry-page p h = number_of _ p (
    bit_or_above (bit_or (bit_or (page2pa p) pte_p) pte_w) pte_u (omega arith)
    ∙ bit_or_above (bit_or (page2pa p) pte_p) pte_w (omega arith)
    ∙ bit_or_above (page2pa p) pte_p (omega arith)
    ∙ small_page p h)

module _ (m : PhysicalMemory) (pgdir va : ℕ) (bound : m.npages ≤ 2 ^ 20) where
  -- the memory with a new table, the page `p`
  module _ (p : ℕ) (ps : List ℕ) (m' : PhysicalMemory) (pool : Pool m' ps) (inside : p < m.npages)
      (free : ¬ Memᴰ p ps) (n : m'.npages ≡ m.npages) (words : m'.words ≡ update m.words p (λ i. 0))
      (apart : p ≢ pgdir) where
    extended-Pool : Pool (add_table pgdir va (some p, m')) ps
    unfolding add_table set_word incref
    extended-Pool =
        Pool-words _ ps _ (Pool-ref m' ps pool p (subst (λ k. p < k) (sym n) inside) free _)

    extended-Tabled : Tabled (add_table pgdir va (some p, m')) pgdir va p
    unfolding add_table set_word incref
    extended-Tabled = record {
      directed = λ e. table_entry-nonzero p (sym (word_set m'.words pgdir (pdx va) _) ∙ e);
      there =
          ap (λ x. pgnum (pte_addr x)) (word_set m'.words pgdir (pdx va) _)
          ∙ table_entry-page p (below p m.npages inside bound);
      inside = subst (λ k. p < k) (sym n) inside;
      apart = apart;
    }

    extended-empty : (add_table pgdir va (some p, m')).words p (ptx va) ≡ 0
    unfolding add_table set_word incref
    extended-empty =
        word_kept m'.words pgdir (pdx va) _ p (ptx va) apart
        ∙ ap (λ w. w p (ptx va)) words
        ∙ ap (λ f. f (ptx va)) (update_self m.words p (λ i. 0))

add_table-npages :
    (pgdir va p : ℕ) (m : PhysicalMemory) → (add_table pgdir va (some p, m)).npages ≡ m.npages
unfolding add_table set_word incref
add_table-npages pgdir va p m = refl

add_table-pp_ref :
    (pgdir va p q : ℕ) (m : PhysicalMemory)
    → q ≢ p
    → (add_table pgdir va (some p, m)).pp_ref q ≡ m.pp_ref q
unfolding add_table set_word incref
add_table-pp_ref pgdir va p q m ne = update_ne m.pp_ref p (inc_mod (2 ^ 16) (m.pp_ref p)) q ne

module _ (m : PhysicalMemory) (pgdir page va perm : ℕ) (bound : m.npages ≤ 2 ^ 20)
    (small : perm < 4096) (fits : page < m.npages) (narrow : m.pp_ref page + 1 < 2 ^ 16) where
  -- `page_insert` for what `page_alloc` gives for a table
  with_table :
      (ps : List ℕ) (r : Kernel (Option ℕ))
      → m.words pgdir (pdx va) ≡ 0
      → Allocated m true ps r
      → ¬ Memᴰ pgdir ps
      → ¬ Memᴰ page ps
      → Inserted m ps pgdir page va perm (
          (r >>= λ a. some (add_table pgdir va a))
          >>= (λ m1. entry_in m1 va (m1.words pgdir (pdx va)) >>= λ pte. some (pte, m1))
          >>= (λ walked. map_entry pgdir page va perm walked))
  unfolding add_table entry_in map_entry
  with_table _ _ e exhausted o d = rw e (out_of_memory refl e)
  with_table _ _ e (taken {p} {ps = qs} {m'} pool' b f n ref words) o d =
      rw (entry_in-Tabled _ pgdir va p tabled) (
        map_entry-Inserted m (p ∷ qs) pgdir page va perm p small _ qs
          (subst (λ k. k ≤ 2 ^ 20) (sym pages) bound) (subst (λ k. page < k) (sym pages) fits)
          (λ i. d (Memᴰ.tail i)) (subst (λ r. r + 1 < 2 ^ 16) (sym refs) narrow)
          (extended-Pool m pgdir va bound p qs m' pool' b f n words ne) tabled
          (λ z. absurd (z empty)) (λ z. ap (λ r. r + 1) refs ∙ refs_untabled m pgdir va page e)
          (λ z. absurd (z empty)))
    where
      ne : p ≢ pgdir
      ne z = o (Memᴰ.head (sym z))

      empty : (add_table pgdir va (some p, m')).words p (ptx va) ≡ 0
      empty = extended-empty m pgdir va bound p qs m' pool' b f n words ne

      pages : (add_table pgdir va (some p, m')).npages ≡ m.npages
      pages = add_table-npages pgdir va p m' ∙ n

      refs : (add_table pgdir va (some p, m')).pp_ref page ≡ m.pp_ref page
      refs = add_table-pp_ref pgdir va p page m' (λ z. d (Memᴰ.head z)) ∙ ap (λ g. g page) ref

      tabled : Tabled (add_table pgdir va (some p, m')) pgdir va p
      tabled = extended-Tabled m pgdir va bound p qs m' pool' b f n words ne

  -- On a memory of at most 2^20 pages whose free pages are the list `ps`, `page_insert` of a page that is
  -- not free, with less than 2^16 - 1 references, and of permissions in the low 12 bits returns: either
  -- -E_NO_MEM with the memory unchanged, and then the directory has no table for the address and no page is
  -- free; or 0, with an entry for the page and the permissions which `page_lookup` finds, one reference
  -- more to the page unless the address was mapped to it before, and a list of free pages. The
  -- directory, its table and the page of the old entry are taken to be pages that are not free, the table
  -- is not the directory, and the old page has its references counted.
  pub page_insert-Inserted :
      (ps : List ℕ)
      → Pool m ps
      → ¬ Memᴰ page ps
      → Space m ps pgdir va
      → Inserted m ps pgdir page va perm (page_insert m pgdir page va perm)
  unfolding page_insert pgdir_walk
  page_insert-Inserted ps pool d space = elim (Bool-cases (m.words pgdir (pdx va) == 0)) [
    | inl e ↦
        rw (page_insert, pgdir_walk, e)
          (with_table ps _ (==→≡ _ 0 e) (page_alloc-Allocated m true ps pool) space.owned d)
    | inr e ↦
        let ne = ==→≢ _ 0 e in
        subst (λ r. Inserted m ps pgdir page va perm (r >>= map_entry pgdir page va perm))
          (sym (pgdir_walk-Tabled m pgdir va _ (space.tabled ne) true))
          (map_entry-Inserted m ps pgdir page va perm _ small m ps bound fits d narrow pool
            (space.tabled ne) (space.counted ne) (refs_absent m pgdir va page ne)
            (refs_present m pgdir va page ne))
  ]
