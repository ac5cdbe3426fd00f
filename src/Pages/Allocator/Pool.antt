-- ===== src/Pages/Allocator/Pool.antt =====
-- The list of free pages, and what `page_alloc`, `page_free` and `page_decref` of kern/pmap.c do to it.
use sistemas_operativos.Prelude.{
  ℕ, ◌-◌, ◌^◌, ◌<◌, ◌≡◌, ◌≢◌, refl, sym, subst, ◌∙◌, arith, leb, ◌==◌, ==→≡, ==→≢, if◌then◌else◌,
  Bool, true, false, Bool-cases, inl, inr, Option, none, some, List, [], ◌∷◌, update, update_self,
  update_ne, dec_mod,
}
use mathlib.Core.List.{Memᴰ}
use sistemas_operativos.Pages.{PhysicalMemory, Kernel}
use sistemas_operativos.Pages.Allocator.{clear_page, take_page, page_alloc, page_free, page_decref}

-- The links lead from a page through the list `ps` to its end, over pages of the memory that have no
-- references, none of them twice.
pub data FreeList (npages : ℕ) (ref : ℕ → ℕ) (link : ℕ → Option ℕ)
    : Option ℕ → List ℕ → Type 0 where
  end : FreeList npages ref link none []
  next :
      {p : ℕ} {ps : List ℕ}
      → p < npages
      → ref p ≡ 0
      → ¬ Memᴰ p ps
      → FreeList npages ref link (link p) ps
      → FreeList npages ref link (some p) (p ∷ ps)

-- The free pages are those of the list `ps`, and no other page of the memory has a link.
pub record Pool (m : PhysicalMemory) (ps : List ℕ) : Type 0 where
  pub chain : FreeList m.npages m.pp_ref m.pp_link m.page_free_list ps
  pub unlinked : (p : ℕ) → p < m.npages → ¬ Memᴰ p ps → m.pp_link p ≡ none

pub FreeList-frame :
    {n : ℕ} {ref ref' : ℕ → ℕ} {link link' : ℕ → Option ℕ} {h : Option ℕ} {ps : List ℕ}
    → FreeList n ref link h ps
    → ((p : ℕ) → Memᴰ p ps → (ref' p ≡ ref p) × (link' p ≡ link p))
    → FreeList n ref' link' h ps
FreeList-frame end same = end
FreeList-frame {n} {ref} {ref'} {link} {link'} (next {p} {ps} b r d c) same =
    let (rs, ls) = same p (Memᴰ.head refl) in
    next b (rs ∙ r) d (
      subst (λ h. FreeList n ref' link' h ps) (sym ls)
        (FreeList-frame c (λ q i. same q (Memᴰ.tail i))))

other_than : {p q : ℕ} {ps : List ℕ} → ¬ Memᴰ p ps → Memᴰ q ps → q ≢ p
other_than {p} {q} {ps} d i e = d (subst (λ x. Memᴰ x ps) e i)

not_among : {p q : ℕ} {ps : List ℕ} → q ≢ p → ¬ Memᴰ q ps → ¬ Memᴰ q (p ∷ ps)
not_among ne d (Memᴰ.head e) = ne e
not_among ne d (Memᴰ.tail i) = d i

-- What `page_alloc` leaves of the list `ps`: it takes the first page, and returns NULL if there is none.
-- References do not change, nor does any word but those of a page that is to be zeroed.
pub data Allocated (m : PhysicalMemory) (zeroed : Bool) : List ℕ → Kernel (Option ℕ) → Type 0 where
  exhausted : Allocated m zeroed [] (some (none, m))
  taken :
      {p : ℕ} {ps : List ℕ} {m' : PhysicalMemory}
      → Pool m' ps
      → p < m.npages
      → ¬ Memᴰ p ps
      → m'.npages ≡ m.npages
      → m'.pp_ref ≡ m.pp_ref
      → m'.words ≡ (if zeroed then update m.words p (λ i. 0) else m.words)
      → Allocated m zeroed (p ∷ ps) (some (some p, m'))

in_memory : (n p : ℕ) → p < n → leb n p ≡ false
in_memory n p h = ground arith

module _ (m : PhysicalMemory) where
  -- without its first page
  popped_chain :
      (p : ℕ) (ps : List ℕ)
      → ¬ Memᴰ p ps
      → FreeList m.npages m.pp_ref m.pp_link (m.pp_link p) ps
      → FreeList m.npages m.pp_ref (update m.pp_link p none) (m.pp_link p) ps
  popped_chain p ps d c =
      FreeList-frame c (λ q i. (refl, update_ne m.pp_link p none q (other_than d i)))

  popped_unlinked :
      (p : ℕ) (ps : List ℕ)
      → ((q : ℕ) → q < m.npages → ¬ Memᴰ q (p ∷ ps) → m.pp_link q ≡ none)
      → (q : ℕ) → q < m.npages
      → ¬ Memᴰ q ps
      → update m.pp_link p none q ≡ none
  popped_unlinked p ps u q b d = elim (Bool-cases (q == p)) [
    | inl e ↦ rw (==→≡ q p e) (update_self m.pp_link p none)
    | inr e ↦ update_ne m.pp_link p none q (==→≢ q p e) ∙ u q b (not_among (==→≢ q p e) d)
  ]

  take_page-Allocated :
      (zeroed : Bool) (h : Option ℕ) (ps : List ℕ)
      → FreeList m.npages m.pp_ref m.pp_link h ps
      → ((q : ℕ) → q < m.npages → ¬ Memᴰ q ps → m.pp_link q ≡ none)
      → Allocated m zeroed ps (take_page m zeroed h)
  unfolding take_page clear_page
  take_page-Allocated zeroed _ _ end u = exhausted
  take_page-Allocated true _ _ (next {p} {ps} b r d c) u = rw (in_memory m.npages p b) (
      taken (record { chain = popped_chain p ps d c; unlinked = popped_unlinked p ps u }) b d refl
        refl refl)
  take_page-Allocated false _ _ (next {p} {ps} b r d c) u =
      taken (record { chain = popped_chain p ps d c; unlinked = popped_unlinked p ps u }) b d refl
        refl refl

  -- On a memory whose free pages are the list `ps`, `page_alloc` takes the first of them off the list, or
  -- returns NULL if there is none; with ALLOC_ZERO it wipes that page and no other word.
  pub page_alloc-Allocated :
      (zeroed : Bool) (ps : List ℕ) → Pool m ps → Allocated m zeroed ps (page_alloc m zeroed)
  unfolding page_alloc
  page_alloc-Allocated zeroed ps pool =
      take_page-Allocated zeroed m.page_free_list ps pool.chain pool.unlinked

-- What `page_free` and `page_decref` leave: a memory of `n` pages with the references `ref`, the words `w`
-- and the list `ps`.
pub data Released (n : ℕ) (w : ℕ → ℕ → ℕ) (ref : ℕ → ℕ) (ps : List ℕ)
    : Option PhysicalMemory → Type 0 where
  released :
      {m : PhysicalMemory}
      → Pool m ps
      → m.npages ≡ n
      → m.pp_ref ≡ ref
      → m.words ≡ w
      → Released n w ref ps (some m)

module _ (m : PhysicalMemory) (ps : List ℕ) (pool : Pool m ps) (p : ℕ) (b : p < m.npages)
    (d : ¬ Memᴰ p ps) where
  pushed_unlinked :
      (q : ℕ) → q < m.npages → ¬ Memᴰ q (p ∷ ps) → update m.pp_link p m.page_free_list q ≡ none
  pushed_unlinked q c n =
      update_ne m.pp_link p m.page_free_list q (λ e. n (Memᴰ.head e))
      ∙ pool.unlinked q c (λ i. n (Memᴰ.tail i))

  pushed_chain :
      FreeList m.npages m.pp_ref
        (update m.pp_link p m.page_free_list)
        (update m.pp_link p m.page_free_list p)
        ps
  pushed_chain =
      subst (λ h. FreeList m.npages m.pp_ref (update m.pp_link p m.page_free_list) h ps)
        (sym (update_self m.pp_link p m.page_free_list))
        (FreeList-frame pool.chain
          (λ q i. (refl, update_ne m.pp_link p m.page_free_list q (other_than d i))))

  -- `page_free` puts a page of the memory that is not free and has no references in front of the list.
  pub page_free-Released :
      m.pp_ref p ≡ 0 → Released m.npages m.words m.pp_ref (p ∷ ps) (page_free m p)
  unfolding page_free
  page_free-Released r =
      rw (r, pool.unlinked p b d, page_free)
        (released (record { chain = next b r d pushed_chain; unlinked = pushed_unlinked }) refl refl
          refl)

  -- References of a page that is not free do not matter to the list.
  pub Pool-ref : (v : ℕ) → Pool (record m { pp_ref = update m.pp_ref p v }) ps
  Pool-ref v = record {
    chain = FreeList-frame pool.chain (λ q i. (update_ne m.pp_ref p v q (other_than d i), refl));
    unlinked = pool.unlinked;
  }

pub Pool-words :
    (m : PhysicalMemory) (ps : List ℕ) (w : ℕ → ℕ → ℕ)
    → Pool m ps
    → Pool (record m { words = w }) ps
Pool-words m ps w pool = record { chain = pool.chain; unlinked = pool.unlinked }

one_less : (r : ℕ) → r ≢ 0 → r < 2 ^ 16 → dec_mod (2 ^ 16) r ≡ r - 1
one_less r ne h = ground arith

last_reference : (r : ℕ) → r ≢ 0 → (r - 1 == 0) ≡ (r == 1)
last_reference r ne = ground arith

none_left : (r : ℕ) → (r == 1) ≡ true → r - 1 ≡ 0
none_left r e = ground arith

module _ (m : PhysicalMemory) (ps : List ℕ) (pool : Pool m ps) (p : ℕ) (b : p < m.npages)
    (d : ¬ Memᴰ p ps) where
  -- `page_decref` of a page of the memory that is not free and has references takes one of them away;
  -- with the last one, and only then, the page goes to the front of the list of free pages.
  pub page_decref-Released :
      m.pp_ref p ≢ 0
      → m.pp_ref p < 2 ^ 16
      → Released m.npages m.words
          (update m.pp_ref p (m.pp_ref p - 1))
          (if m.pp_ref p == 1 then p ∷ ps else ps)
          (page_decref m p)
  unfolding page_decref
  page_decref-Released ne h = elim (Bool-cases (m.pp_ref p == 1)) [
    | inl e ↦
        rw
          (
            e,
            page_decref,
            one_less (m.pp_ref p) ne h,
            update_self m.pp_ref p (m.pp_ref p - 1),
            last_reference (m.pp_ref p) ne,
            e,
          )
          (page_free-Released _ ps (Pool-ref m ps pool p b d (m.pp_ref p - 1)) p b d
            (update_self m.pp_ref p (m.pp_ref p - 1) ∙ none_left (m.pp_ref p) e))
    | inr e ↦
        rw
          (
            e,
            page_decref,
            one_less (m.pp_ref p) ne h,
            update_self m.pp_ref p (m.pp_ref p - 1),
            last_reference (m.pp_ref p) ne,
            e,
          )
          (released (Pool-ref m ps pool p b d (m.pp_ref p - 1)) refl refl refl)
  ]
