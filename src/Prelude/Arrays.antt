-- ===== src/Prelude/Arrays.antt =====
-- A C array or a region of memory as a function of the index.
use Prim.Native.Nat.{ℕ, zero, suc, ◌+◌, ◌≤◌, ◌<◌}
use mathlib.Core.Path.{◌≡◌, refl, sym, ap, ◌∙◌}
use mathlib.Core.Logic.{◌≢◌, inl, inr}
use native.Mathlib.Omega.{arith}
use sistemas_operativos.Prelude.Tests.{◌==◌, Bool-cases, ==→≡, if◌then◌else◌}

module _ {ℓ} {A : Type ℓ} where
  -- `f[i] = v`
  unfoldable pub update : (ℕ → A) → ℕ → A → ℕ → A
  update f i v j = if j == i then v else f j

  pub update_self : (f : ℕ → A) (i : ℕ) (v : A) → update f i v i ≡ v
  unfolding update
  update_self f i v = ground arith

  pub update_ne : (f : ℕ → A) (i : ℕ) (v : A) (j : ℕ) → j ≢ i → update f i v j ≡ f j
  unfolding update
  update_ne f i v j h = ground arith

-- How many of the first `n` cells are not zero.
unfoldable pub count_used : ℕ → (ℕ → ℕ) → ℕ
count_used zero f = 0
count_used (suc n) f = (if f n == 0 then 0 else 1) + count_used n f

pub count_used-le : (n : ℕ) (f : ℕ → ℕ) → count_used n f ≤ n
unfolding count_used
count_used-le zero f = omega arith
count_used-le (suc n) f = ground (arith, count_used-le n f)

pub count_used-zero : (n : ℕ) (f : ℕ → ℕ) → ((i : ℕ) → i < n → f i ≡ 0) → count_used n f ≡ 0
unfolding count_used
count_used-zero zero f h = refl
count_used-zero (suc n) f h = ground (arith, h n, count_used-zero n f (λ i p. h i (omega arith)))

-- A write beyond the counted cells does not count.
pub count_used-update_above :
    (n : ℕ) (f : ℕ → ℕ) (i v : ℕ) → n ≤ i → count_used n (update f i v) ≡ count_used n f
unfolding count_used update
count_used-update_above zero f i v h = refl
count_used-update_above (suc n) f i v h = ground (arith, count_used-update_above n f i v)

pub count_used-set :
    (n : ℕ) (f : ℕ → ℕ) (i : ℕ) → i < n → f i ≡ 0 → count_used n (update f i 1) ≡ count_used n f + 1
unfolding count_used update
count_used-set zero f i h e = absurd (omega arith)
count_used-set (suc n) f i h e =
    ground (arith, count_used-set n f i, count_used-update_above n f i 1)

pub count_used-clear :
    (n : ℕ) (f : ℕ → ℕ) (i : ℕ) → i < n → f i ≢ 0 → count_used n (update f i 0) + 1 ≡ count_used n f
unfolding count_used update
count_used-clear zero f i h e = absurd (omega arith)
count_used-clear (suc n) f i h e =
    ground (arith, count_used-clear n f i, count_used-update_above n f i 0)

-- Cell `k` is the first of the cells from `lo` on and below `hi` that holds `z`.
pub record FirstAt (f : ℕ → ℕ) (z lo hi k : ℕ) : Type 0 where
  pub from : lo ≤ k
  pub below : k < hi
  pub here : f k ≡ z
  pub before : (j : ℕ) → lo ≤ j → j < k → f j ≢ z

-- None of those cells holds `z`.
abbrev pub NoneAt : (ℕ → ℕ) → ℕ → ℕ → ℕ → Type 0
NoneAt f z lo hi = (j : ℕ) → lo ≤ j → j < hi → f j ≢ z

module _ (f : ℕ → ℕ) (z lo hi : ℕ) where
  pub NoneAt-step : f lo ≢ z → NoneAt f z (lo + 1) hi → NoneAt f z lo hi
  NoneAt-step ne h j a b e = elim (Bool-cases (j == lo)) [
    | inl p ↦ ne (ap f (sym (==→≡ j lo p)) ∙ e)
    | inr p ↦ h j (ground arith) b e
  ]

  pub FirstAt-here : lo < hi → f lo ≡ z → FirstAt f z lo hi lo
  FirstAt-here h e = record {
    from = omega arith;
    below = h;
    here = e;
    before = λ j a b. omega arith;
  }

pub FirstAt-step :
    (f : ℕ → ℕ) (z lo hi k : ℕ) → f lo ≢ z → FirstAt f z (lo + 1) hi k → FirstAt f z lo hi k
FirstAt-step f z lo hi k ne first = record {
  from = omega arith;
  below = first.below;
  here = first.here;
  before = NoneAt-step f z lo k ne first.before;
}
