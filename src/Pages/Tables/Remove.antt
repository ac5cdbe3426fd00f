-- ===== src/Pages/Tables/Remove.antt =====
-- `page_remove` of kern/pmap.c: what becomes of the entry, of the page and of the list of free pages.
use sistemas_operativos.Prelude.{
  ℕ, ◌-◌, ◌^◌, ◌<◌, ◌≡◌, ◌≢◌, refl, sym, ap, subst, ◌==◌, ==→≡, ==→≢, if◌then◌else◌, Bool-cases,
  inl, inr, Option, some, ◌>>=◌, List, ◌∷◌, update,
}
use mathlib.Core.List.{Memᴰ}
use sistemas_operativos.Pages.{PhysicalMemory}
use sistemas_operativos.Pages.Layout.{pgnum, ptx, pte_addr}
use sistemas_operativos.Pages.Allocator.Pool.{
  Pool, Pool-words, Released, released, page_decref-Released,
}
use sistemas_operativos.Pages.Tables.{set_word, page_remove, unmap}
use sistemas_operativos.Pages.Tables.Walk.{Tabled, page_lookup-absent, page_lookup-present}

-- the page of the entry `i` of the table `t`
abbrev pub page_at : PhysicalMemory → ℕ → ℕ → ℕ
page_at m t i = pgnum (pte_addr (m.words t i))

-- The page of an entry is one of the memory that is not free, and its references are counted.
pub record Counted (m : PhysicalMemory) (ps : List ℕ) (q : ℕ) : Type 0 where
  pub inside : q < m.npages
  pub taken : ¬ Memᴰ q ps
  pub referenced : m.pp_ref q ≢ 0
  pub narrow : m.pp_ref q < 2 ^ 16

-- What `page_remove` leaves: the memory as it was if the entry is 0; or else the entry is 0, its page has
-- one reference less, and with the last one it is the first free page.
pub data Unmapped (m : PhysicalMemory) (ps : List ℕ) (t i : ℕ)
    : Option PhysicalMemory → Type 0 where
  absent : m.words t i ≡ 0 → Unmapped m ps t i (some m)
  unmapped :
      {m' : PhysicalMemory}
      → m.words t i ≢ 0
      → Pool m' (if m.pp_ref (page_at m t i) == 1 then page_at m t i ∷ ps else ps)
      → m'.npages ≡ m.npages
      → m'.pp_ref ≡ update m.pp_ref (page_at m t i) (m.pp_ref (page_at m t i) - 1)
      → m'.words ≡ update m.words t (update (m.words t) i 0)
      → Unmapped m ps t i (some m')

module _ (m : PhysicalMemory) (ps : List ℕ) (t i : ℕ) where
  cleared :
      (r : Option PhysicalMemory)
      → m.words t i ≢ 0
      → Released m.npages m.words
          (update m.pp_ref (page_at m t i) (m.pp_ref (page_at m t i) - 1))
          (if m.pp_ref (page_at m t i) == 1 then page_at m t i ∷ ps else ps)
          r
      → Unmapped m ps t i (r >>= λ m1. some (set_word m1 t i 0))
  unfolding set_word
  cleared _ ne (released pool n r w) =
      unmapped ne (Pool-words _ _ _ pool) n r (ap (λ v. update v t (update (v t) i 0)) w)

module _ (m : PhysicalMemory) (ps : List ℕ) (pgdir va t : ℕ) (pool : Pool m ps)
    (w : Tabled m pgdir va t)
    (counted : m.words t (ptx va) ≢ 0 → Counted m ps (page_at m t (ptx va))) where
  -- `page_remove`, where the directory has a table for the address: nothing if the entry there is 0; or
  -- else the entry is cleared, its page loses a reference, and with the last one it becomes free. It is
  -- assumed that the page of an entry is not free and has its references counted.
  pub page_remove-Unmapped : Unmapped m ps t (ptx va) (page_remove m pgdir va)
  unfolding page_remove unmap
  page_remove-Unmapped = elim (Bool-cases (m.words t (ptx va) == 0)) [
    | inl e ↦
        subst (λ r. Unmapped m ps t (ptx va) (r >>= unmap))
          (sym (page_lookup-absent m pgdir va t w (==→≡ _ 0 e))) (absent (==→≡ _ 0 e))
    | inr e ↦
        let c = counted (==→≢ _ 0 e) in
        subst (λ r. Unmapped m ps t (ptx va) (r >>= unmap))
          (sym (page_lookup-present m pgdir va t w _ (==→≢ _ 0 e) refl c.inside))
          (cleared m ps t (ptx va) _ (==→≢ _ 0 e)
            (page_decref-Released m ps pool _ c.inside c.taken c.referenced c.narrow))
  ]
