-- ===== src/Pages/Allocator/Initial.antt =====
-- The list of free pages that `page_init` of kern/pmap.c makes.
use sistemas_operativos.Prelude.{
  ℕ, zero, suc, ◌≤◌, ◌<◌, ◌≡◌, ◌≢◌, ◌↔◌, refl, sym, ap, subst, ◌∙◌, arith, ◌==◌, ==→≡, ==→≢,
  if◌then◌else◌, ◌⊎◌, Bool, true, false, Bool-cases, inl, inr, none, some, List, [], ◌∷◌, update,
  update_self, update_ne,
}
use mathlib.Core.List.{Memᴰ}
use mathlib.Core.List.Memᴰ
use sistemas_operativos.Pages.{PhysicalMemory}
use sistemas_operativos.Pages.Allocator.{reserved, init_page, init_pages, page_init}
use sistemas_operativos.Pages.Allocator.Pool.{FreeList, end, next, FreeList-frame, Pool}

-- the pages below `n` that are not reserved, the last one first
unfoldable pub free_pages : ℕ → ℕ → List ℕ
free_pages first zero = []
free_pages first (suc n) =
    let rest = free_pages first n in if reserved first n then rest else n ∷ rest

listed :
    (b : Bool) (n p : ℕ) (l : List ℕ)
    → Memᴰ p (if b then l else n ∷ l)
    → Memᴰ p l ⊎ ((p ≡ n) × (b ≡ false))
listed true n p l i = inl i
listed false n p l (Memᴰ.head h) = inr (h, refl)
listed false n p l (Memᴰ.tail i) = inl i

module _ (first : ℕ) where
  pub free_pages_sound :
      (n p : ℕ) → Memᴰ p (free_pages first n) → (p < n) × (reserved first p ≡ false)
  unfolding free_pages
  free_pages_sound zero p i = absurd (Memᴰ.not-nil i)
  free_pages_sound (suc n) p i = elim (listed (reserved first n) n p (free_pages first n) i) [
    | inl j ↦ let (b, r) = free_pages_sound n p j in (omega arith, r)
    | inr (h, e) ↦ (omega arith, ap (reserved first) h ∙ e)
  ]

  free_pages_complete : (n p : ℕ) → p < n → reserved first p ≡ false → Memᴰ p (free_pages first n)
  unfolding free_pages
  free_pages_complete zero p b r = absurd (omega arith)
  free_pages_complete (suc n) p b r = elim (Bool-cases (p == n)) [
    | inl e ↦ rw (sym (ap (reserved first) (==→≡ p n e)) ∙ r) (Memᴰ.head (==→≡ p n e))
    | inr e ↦ elim (Bool-cases (reserved first n)) [
      | inl f ↦ rw f (free_pages_complete n p (below p n b (==→≢ p n e)) r)
      | inr f ↦ rw f (Memᴰ.tail (free_pages_complete n p (below p n b (==→≢ p n e)) r))
    ]
  ]
    where
      below : (p n : ℕ) → p < suc n → p ≢ n → p < n
      below p n b ne = omega arith

-- What `n` rounds of the loop leave of a memory of `npages` pages that had no list: the list `l`.
record Initial (npages n : ℕ) (l : List ℕ) (m : PhysicalMemory) : Type 0 where
  same_pages : m.npages ≡ npages
  chain : FreeList npages m.pp_ref m.pp_link m.page_free_list l
  below : (p : ℕ) → Memᴰ p l → p < n
  unlinked : (p : ℕ) → p < n → ¬ Memᴰ p l → m.pp_link p ≡ none

less : (p n : ℕ) → p < suc n → p ≢ n → p < n
less p n b ne = omega arith

module _ {npages n : ℕ} {l : List ℕ} (m : PhysicalMemory) (h : Initial npages n l m) where
  earlier : (p : ℕ) → Memᴰ p l → p ≢ n
  earlier p i e = (let b = h.below p i in omega arith)

  at_end : ¬ Memᴰ n l
  at_end i = earlier n i refl

  skipped_link : (p : ℕ) → p < suc n → ¬ Memᴰ p l → update m.pp_link n none p ≡ none
  skipped_link p b d = elim (Bool-cases (p == n)) [
    | inl e ↦ rw (==→≡ p n e) (update_self m.pp_link n none)
    | inr e ↦ update_ne m.pp_link n none p (==→≢ p n e) ∙ h.unlinked p (less p n b (==→≢ p n e)) d
  ]

  skipped : Initial npages (suc n) l (record m { pp_link = update m.pp_link n none })
  skipped = record {
    same_pages = h.same_pages;
    chain = FreeList-frame h.chain (λ q i. (refl, update_ne m.pp_link n none q (earlier q i)));
    below = λ p i. (let b = h.below p i in omega arith);
    unlinked = skipped_link;
  }

  pushed_link :
      (p : ℕ) → p < suc n → ¬ Memᴰ p (n ∷ l) → update m.pp_link n m.page_free_list p ≡ none
  pushed_link p b d =
      update_ne m.pp_link n m.page_free_list p (λ e. d (Memᴰ.head e))
      ∙ h.unlinked p (less p n b (λ e. d (Memᴰ.head e))) (λ i. d (Memᴰ.tail i))

  pushed_below : (p : ℕ) → Memᴰ p (n ∷ l) → p < suc n
  pushed_below p (Memᴰ.head e) = omega arith
  pushed_below p (Memᴰ.tail i) = (let b = h.below p i in omega arith)

  pushed :
      n < npages
      → Initial npages (suc n) (n ∷ l) (record m {
        pp_link = update m.pp_link n m.page_free_list;
        pp_ref = update m.pp_ref n 0;
        page_free_list = some n;
      })
  pushed b = record {
    same_pages = h.same_pages;
    chain = next b (update_self m.pp_ref n 0) at_end (
        subst (λ c. FreeList npages (update m.pp_ref n 0) (update m.pp_link n m.page_free_list) c l)
          (sym (update_self m.pp_link n m.page_free_list))
          (FreeList-frame h.chain (λ q i. (
            update_ne m.pp_ref n 0 q (earlier q i),
            update_ne m.pp_link n m.page_free_list q (earlier q i),
          ))));
    below = pushed_below;
    unlinked = pushed_link;
  }

  init_page-Initial :
      (first : ℕ)
      → n < npages
      → Initial npages (suc n) (if reserved first n then l else n ∷ l) (init_page first m n)
  unfolding init_page
  init_page-Initial first b = elim (Bool-cases (reserved first n)) [
    | inl e ↦ rw (e, init_page) skipped
    | inr e ↦ rw (e, init_page) (pushed b)
  ]

init_pages-Initial :
    (first : ℕ) (m : PhysicalMemory) (n : ℕ)
    → m.page_free_list ≡ none
    → n ≤ m.npages
    → Initial m.npages n (free_pages first n) (init_pages first n m)
unfolding init_pages free_pages
init_pages-Initial first m zero h b = record {
  same_pages = refl;
  chain = subst (λ c. FreeList m.npages m.pp_ref m.pp_link c []) (sym h) end;
  below = λ p i. absurd (Memᴰ.not-nil i);
  unlinked = λ p c. absurd (omega arith);
}
init_pages-Initial first m (suc n) h b =
    init_page-Initial (init_pages first n m) (init_pages-Initial first m n h (omega arith)) first
      (omega arith)

pub page_init-Pool :
    (first : ℕ) (m : PhysicalMemory)
    → m.page_free_list ≡ none
    → Pool (page_init first m) (free_pages first m.npages)
      × ((p : ℕ)
          → Memᴰ p (free_pages first m.npages) ↔ ((p < m.npages) × (reserved first p ≡ false)))
unfolding page_init
page_init-Pool first m h = (
  record {
    chain =
        subst
          (λ n. FreeList n made.pp_ref made.pp_link made.page_free_list (free_pages first m.npages))
          (sym all.same_pages) all.chain;
    unlinked = λ p b d. all.unlinked p (subst (λ n. p < n) all.same_pages b) d;
  },
  λ p. (free_pages_sound first m.npages p, λ b. free_pages_complete first m.npages p b.0 b.1),
)
  where
    made : PhysicalMemory
    made = init_pages first m.npages m

    all : Initial m.npages m.npages (free_pages first m.npages) made
    all = init_pages-Initial first m m.npages h (omega arith)
