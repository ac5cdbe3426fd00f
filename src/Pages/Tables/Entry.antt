-- ===== src/Pages/Tables/Entry.antt =====
-- `page_insert` of kern/pmap.c where the directory has a table for the address.
use sistemas_operativos.Prelude.{
  ℕ, ◌+◌, ◌-◌, ◌^◌, if◌then◌else◌, ◌≤◌, ◌<◌, ◌≡◌, ◌≢◌, refl, sym, ap, subst, ◌∙◌, arith, ◌==◌, ==→≡,
  ==→≢, ≢→==, Bool-cases, inl, inr, Option, some, ◌>>=◌, List, [], update, update_self, update_ne,
  inc_mod, ℤ, pos,
}
use mathlib.Core.List.{Memᴰ}
use sistemas_operativos.Pages.{PhysicalMemory, Kernel}
use sistemas_operativos.Pages.Layout.{pgnum, pdx, ptx, pte_addr}
use sistemas_operativos.Pages.Allocator.{incref}
use sistemas_operativos.Pages.Allocator.Pool.{Pool, Pool-ref, Pool-words}
use sistemas_operativos.Pages.Tables.{no_mem, set_word, page_lookup, map_entry}
use sistemas_operativos.Pages.Tables.Walk.{
  Tabled, page_lookup-present, entry_for, entry_for-nonzero, entry_for-page,
}
use sistemas_operativos.Pages.Tables.Remove.{
  page_at, Counted, Unmapped, absent, unmapped, page_remove-Unmapped,
}

-- The references of `page` after it is mapped at `va`: one more, but if it was mapped there before.
unfoldable pub refs_after : PhysicalMemory → ℕ → ℕ → ℕ → ℕ
refs_after m pgdir va page =
    let t = page_at m pgdir (pdx va) in
    if m.words pgdir (pdx va) == 0
    then m.pp_ref page + 1
    else if m.words t (ptx va) == 0
    then m.pp_ref page + 1
    else if page_at m t (ptx va) == page
    then m.pp_ref page
    else m.pp_ref page + 1

module _ (m : PhysicalMemory) (pgdir va page : ℕ) where
  pub refs_untabled : m.words pgdir (pdx va) ≡ 0 → m.pp_ref page + 1 ≡ refs_after m pgdir va page
  unfolding refs_after
  refs_untabled e = rw e refl

  pub refs_absent :
      m.words pgdir (pdx va) ≢ 0
      → m.words (page_at m pgdir (pdx va)) (ptx va) ≡ 0
      → m.pp_ref page + 1 ≡ refs_after m pgdir va page
  unfolding refs_after
  refs_absent ne e = rw (≢→== _ 0 ne, e) refl

  pub refs_present :
      m.words pgdir (pdx va) ≢ 0
      → m.words (page_at m pgdir (pdx va)) (ptx va) ≢ 0
      → (if page_at m (page_at m pgdir (pdx va)) (ptx va) == page
          then m.pp_ref page
          else m.pp_ref page + 1)
        ≡ refs_after m pgdir va page
  unfolding refs_after
  refs_present ne nz = rw (≢→== _ 0 ne, ≢→== _ 0 nz) refl

-- What `page_insert` leaves: -E_NO_MEM, when there is no table for the address and no page for one; or
-- the page mapped in an entry with its permissions and its references counted, and a list of free pages.
pub data Inserted (m : PhysicalMemory) (ps : List ℕ) (pgdir page va perm : ℕ)
    : Kernel ℤ → Type 0 where
  out_of_memory :
      ps ≡ [] → m.words pgdir (pdx va) ≡ 0 → Inserted m ps pgdir page va perm (some (no_mem, m))
  inserted :
      {m' : PhysicalMemory} {ps' : List ℕ} (t : ℕ)
      → Pool m' ps'
      → m'.words t (ptx va) ≡ entry_for page perm
      → m'.pp_ref page ≡ refs_after m pgdir va page
      → page_lookup m' pgdir va ≡ some (some (page, (t, ptx va)), m')
      → Inserted m ps pgdir page va perm (some (pos 0, m'))

-- the two words that matter after a word of the table is set
pub word_set : (words : ℕ → ℕ → ℕ) (t i v : ℕ) → update words t (update (words t) i v) t i ≡ v
word_set words t i v =
    ap (λ f. f i) (update_self words t (update (words t) i v)) ∙ update_self (words t) i v

pub word_kept :
    (words : ℕ → ℕ → ℕ) (t i v p j : ℕ)
    → p ≢ t
    → update words t (update (words t) i v) p j ≡ words p j
word_kept words t i v p j ne = ap (λ f. f j) (update_ne words t (update (words t) i v) p ne)

pub below : (p n : ℕ) → p < n → n ≤ 2 ^ 20 → p < 2 ^ 20
below p n b h = omega arith

pub Tabled-same :
    {m m' : PhysicalMemory} {pgdir va t : ℕ}
    → Tabled m pgdir va t
    → m'.npages ≡ m.npages
    → m'.words pgdir (pdx va) ≡ m.words pgdir (pdx va)
    → Tabled m' pgdir va t
Tabled-same {m} {m'} {pgdir} {va} {t} w n e = record {
  directed = λ z. w.directed (sym e ∙ z);
  there = ap (λ x. pgnum (pte_addr x)) e ∙ w.there;
  inside = subst (λ k. t < k) (sym n) w.inside;
  apart = w.apart;
}

module _ (pgdir page va perm t : ℕ) (small : perm < 4096) where
  -- A memory with a table for the address, in which the entry is set.
  mapped :
      (m : PhysicalMemory)
      → m.npages ≤ 2 ^ 20
      → page < m.npages
      → Tabled m pgdir va t
      → page_lookup (set_word m t (ptx va) (entry_for page perm)) pgdir va
        ≡ some (some (page, (t, ptx va)), set_word m t (ptx va) (entry_for page perm))
  unfolding set_word
  mapped m bound fits w =
      page_lookup-present _ pgdir va t still page
        (λ e. entry_for-nonzero page perm (sym (word_set m.words t (ptx va) _) ∙ e))
        (ap (λ x. pgnum (pte_addr x)) (word_set m.words t (ptx va) _)
          ∙ entry_for-page page perm (below page m.npages fits bound) small)
        fits
    where
      still : Tabled (set_word m t (ptx va) (entry_for page perm)) pgdir va t
      still =
          Tabled-same w refl (word_kept m.words t (ptx va) _ pgdir (pdx va) (λ e. w.apart (sym e)))

module _ (m0 : PhysicalMemory) (ps0 : List ℕ) (pgdir page va perm t : ℕ) (small : perm < 4096) where
  finish :
      (m : PhysicalMemory) (ps : List ℕ)
      → Pool m ps
      → m.npages ≤ 2 ^ 20
      → page < m.npages
      → Tabled m pgdir va t
      → m.pp_ref page ≡ refs_after m0 pgdir va page
      → Inserted m0 ps0 pgdir page va perm
          (some (pos 0, set_word m t (ptx va) (entry_for page perm)))
  unfolding set_word
  finish m ps pool bound fits w refs =
      inserted t (Pool-words m ps _ pool) (word_set m.words t (ptx va) (entry_for page perm)) refs
        (mapped pgdir page va perm t small m bound fits w)

  module _ (m : PhysicalMemory) (ps : List ℕ) (bound : m.npages ≤ 2 ^ 20) (fits : page < m.npages)
      (pool : Pool m ps) (w : Tabled m pgdir va t)
      (fresh : m.words t (ptx va) ≡ 0 → m.pp_ref page ≡ refs_after m0 pgdir va page)
      (old : m.words t (ptx va) ≢ 0
        → update m.pp_ref (page_at m t (ptx va)) (m.pp_ref (page_at m t (ptx va)) - 1) page
          ≡ refs_after m0 pgdir va page) where
    after :
        (r : Option PhysicalMemory)
        → Unmapped m ps t (ptx va) r
        → Inserted m0 ps0 pgdir page va perm
            (r >>= λ m1. some (pos 0, set_word m1 t (ptx va) (entry_for page perm)))
    after _ (absent e) = finish m ps pool bound fits w (fresh e)
    after _ (unmapped {m'} ne pool' n r words) =
        finish m' _ pool' (subst (λ k. k ≤ 2 ^ 20) (sym n) bound)
          (subst (λ k. page < k) (sym n) fits)
          (Tabled-same w n (
            ap (λ f. f pgdir (pdx va)) words
            ∙ word_kept m.words t (ptx va) 0 pgdir (pdx va) (λ e. w.apart (sym e))))
          (ap (λ f. f page) r ∙ old ne)

one_more : (r : ℕ) → r + 1 < 2 ^ 16 → inc_mod (2 ^ 16) r ≡ r + 1
one_more r h = ground arith

incremented :
    (ref : ℕ → ℕ) (p q : ℕ)
    → ref p + 1 < 2 ^ 16
    → ref q ≢ 0
    → ref q < 2 ^ 16
    → (update ref p (inc_mod (2 ^ 16) (ref p)) q ≢ 0)
      × (update ref p (inc_mod (2 ^ 16) (ref p)) q < 2 ^ 16)
incremented ref p q h ne b = elim (Bool-cases (q == p)) [
  | inl e ↦
      rw (==→≡ q p e, update_self ref p (inc_mod (2 ^ 16) (ref p)), one_more (ref p) h)
        (omega arith, omega arith)
  | inr e ↦ rw (update_ne ref p (inc_mod (2 ^ 16) (ref p)) q (==→≢ q p e)) (ne, b)
]

less_one : (r : ℕ) → r + 1 - 1 ≡ r
less_one r = omega arith

-- one reference more to `p`, and then one less to `q`
exchanged :
    (ref : ℕ → ℕ) (p q : ℕ)
    → ref p + 1 < 2 ^ 16
    → let more = update ref p (inc_mod (2 ^ 16) (ref p)) in
      update more q (more q - 1) p ≡ (if q == p then ref p else ref p + 1)
exchanged ref p q h = elim (Bool-cases (q == p)) [
  | inl e ↦
      rw
        (
          e,
          ==→≡ q p e,
          update_self (update ref p (inc_mod (2 ^ 16) (ref p))) p
              (update ref p (inc_mod (2 ^ 16) (ref p)) p - 1),
          update_self ref p (inc_mod (2 ^ 16) (ref p)),
          one_more (ref p) h,
        )
        (less_one (ref p))
  | inr e ↦
      rw
        (
          e,
          update_ne (update ref p (inc_mod (2 ^ 16) (ref p))) q
              (update ref p (inc_mod (2 ^ 16) (ref p)) q - 1) p (λ z. ==→≢ q p e (sym z)),
          update_self ref p (inc_mod (2 ^ 16) (ref p)),
          one_more (ref p) h,
        )
        refl
]

module _ (m0 : PhysicalMemory) (ps0 : List ℕ) (pgdir page va perm t : ℕ) (small : perm < 4096) where
  pub map_entry-Inserted :
      (m : PhysicalMemory) (ps : List ℕ)
      → m.npages ≤ 2 ^ 20
      → page < m.npages
      → ¬ Memᴰ page ps
      → m.pp_ref page + 1 < 2 ^ 16
      → Pool m ps
      → Tabled m pgdir va t
      → (m.words t (ptx va) ≢ 0 → Counted m ps (page_at m t (ptx va)))
      → (m.words t (ptx va) ≡ 0 → m.pp_ref page + 1 ≡ refs_after m0 pgdir va page)
      → (m.words t (ptx va) ≢ 0
          → (if page_at m t (ptx va) == page then m.pp_ref page else m.pp_ref page + 1)
            ≡ refs_after m0 pgdir va page)
      → Inserted m0 ps0 pgdir page va perm (map_entry pgdir page va perm (some (t, ptx va), m))
  unfolding map_entry incref
  map_entry-Inserted m ps bound fits d narrow pool w counted fresh old =
      after m0 ps0 pgdir page va perm t small (incref m page) ps bound fits pool' w'
        (λ e. update_self m.pp_ref page _ ∙ one_more (m.pp_ref page) narrow ∙ fresh e)
        (λ e. exchanged m.pp_ref page (page_at m t (ptx va)) narrow ∙ old e) _
        (page_remove-Unmapped (incref m page) ps pgdir va t pool' w' λ ne.
          let c = counted ne in
          let h = incremented m.pp_ref page (page_at m t (ptx va)) narrow c.referenced c.narrow in
          record { inside = c.inside; taken = c.taken; referenced = h.0; narrow = h.1 })
    where
      pool' : Pool (incref m page) ps
      pool' = Pool-ref m ps pool page fits d _

      w' : Tabled (incref m page) pgdir va t
      w' = Tabled-same w refl refl
