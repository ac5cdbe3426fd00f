-- ===== src/Sched/Yield/Highest.antt =====
-- The first loop of `sched_yield` by priorities: the highest priority of a runnable environment.
use sistemas_operativos.Prelude.{
  ℕ, zero, suc, ◌+◌, ◌<◌, ◌≤◌, ◌≡◌, refl, sym, subst, ◌⊎◌, inl, inr, arith, ◌==◌, ==→≡, Bool, true,
  false, true≢false, ◌&&◌, Bool-cases, ℤ, pos, negsuc,
}
use sistemas_operativos.Sched.State.{Env}
use sistemas_operativos.Sched.Yield.{runnable, above, max_prio_from}
use sistemas_operativos.Sched.Yield.Choice.{at_distance}

-- `r` is the highest of `best` and of the priorities of the runnable environments at the distances
-- from `lo` on and below `hi`.
pub record Highest (envs : ℕ → Env) (start lo hi : ℕ) (best r : ℤ) : Type 0 where
  pub bounds :
      (t : ℕ)
      → lo ≤ t
      → t < hi
      → runnable (at_distance envs start t) ≡ true
      → above (at_distance envs start t).priority r ≡ false
  pub grows : (p : ℕ) → above p best ≡ false → above p r ≡ false
  pub attained :
      (r ≡ best)
      ⊎ ((t : ℕ) × (lo ≤ t)
          × (t < hi)
          × (runnable (at_distance envs start t) ≡ true)
          × (r ≡ pos (at_distance envs start t).priority))

not_above_self : (p : ℕ) → above p (pos p) ≡ false
not_above_self p = ground arith

above-grows :
    (p q : ℕ) (best : ℤ) → above p best ≡ true → above q best ≡ false → above q (pos p) ≡ false
above-grows p q (pos b) h k = ground arith
above-grows p q (negsuc n) h k = absurd (true≢false k)

module _ (envs : ℕ → Env) (start : ℕ) where
  Highest-nil : (lo : ℕ) (best : ℤ) → Highest envs start lo lo best best
  Highest-nil lo best = record {
    bounds = λ t p q. absurd (omega arith);
    grows = λ p h. h;
    attained = inl refl;
  }

  Highest-to :
      {hi hi' : ℕ} {best r : ℤ} (lo : ℕ)
      → hi ≡ hi'
      → Highest envs start lo hi best r
      → Highest envs start lo hi' best r
  Highest-to {best} {r} lo e h = subst (λ hi. Highest envs start lo hi best r) e h

  Highest-skip :
      (lo hi : ℕ) (best r : ℤ)
      → lo < hi
      → (runnable (at_distance envs start lo) && above (at_distance envs start lo).priority best)
        ≡ false
      → Highest envs start (lo + 1) hi best r
      → Highest envs start lo hi best r
  Highest-skip lo hi best r fits e h = record {
    bounds = λ t p q ready. elim (Bool-cases (t == lo)) [
      | inl same ↦
          subst (λ u. above (at_distance envs start u).priority r ≡ false) (sym (==→≡ t lo same))
            (h.grows _ (
              skipped _ _
                (subst (λ u. runnable (at_distance envs start u) ≡ true) (==→≡ t lo same) ready) e))
      | inr other ↦ h.bounds t (ground (arith, other)) q ready
    ];
    grows = h.grows;
    attained = elim h.attained [
      | inl same ↦ inl same
      | inr (t, p, q, ready, e') ↦ inr (t, omega arith, q, ready, e')
    ];
  }
    where
      skipped : (a b : Bool) → a ≡ true → (a && b) ≡ false → b ≡ false
      skipped a b h k = ground arith

  Highest-take :
      (lo hi : ℕ) (best r : ℤ)
      → lo < hi
      → runnable (at_distance envs start lo) ≡ true
      → above (at_distance envs start lo).priority best ≡ true
      → Highest envs start (lo + 1) hi (pos (at_distance envs start lo).priority) r
      → Highest envs start lo hi best r
  Highest-take lo hi best r fits ready_lo e h = record {
    bounds = λ t p q ready. elim (Bool-cases (t == lo)) [
      | inl same ↦
          subst (λ u. above (at_distance envs start u).priority r ≡ false) (sym (==→≡ t lo same))
            (h.grows _ (not_above_self _))
      | inr other ↦ h.bounds t (ground (arith, other)) q ready
    ];
    grows = λ p k. h.grows p (above-grows _ p best e k);
    attained = elim h.attained [
      | inl same ↦ inr (lo, omega arith, fits, ready_lo, same)
      | inr (t, p, q, ready, e') ↦ inr (t, omega arith, q, ready, e')
    ];
  }

  pub max_prio_from-Highest :
      (left lo : ℕ) (best : ℤ)
      → Highest envs start lo (lo + left) best (max_prio_from envs start left lo best)
  unfolding max_prio_from
  max_prio_from-Highest zero lo best =
      subst (λ hi. Highest envs start lo hi best best) (omega arith) (Highest-nil lo best)
  max_prio_from-Highest (suc left) lo best =
      elim (Bool-cases
        (runnable (at_distance envs start lo) && above (at_distance envs start lo).priority best)) [
          | inl e ↦ rw e (
              Highest-take lo (lo + suc left) best _ (omega arith) (and_left _ _ e)
                (and_right _ _ e)
                (Highest-to (lo + 1) (omega arith)
                  (max_prio_from-Highest left (lo + 1) (pos (at_distance envs start lo).priority))))
          | inr e ↦ rw e (
              Highest-skip lo (lo + suc left) best _ (omega arith) e
                (Highest-to (lo + 1) (omega arith) (max_prio_from-Highest left (lo + 1) best)))
        ]
    where
      and_left : (a b : Bool) → (a && b) ≡ true → a ≡ true
      and_left a b h = ground arith

      and_right : (a b : Bool) → (a && b) ≡ true → b ≡ true
      and_right a b h = ground arith
