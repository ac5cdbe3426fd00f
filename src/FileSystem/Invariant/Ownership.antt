-- ===== src/FileSystem/Invariant/Ownership.antt =====
-- Ownership of blocks when slots are emptied and when a free block is taken.
use sistemas_operativos.Prelude.{
  ℕ, ◌<◌, ◌≡◌, sym, ap, subst, ◌∙◌, ◌≢◌, ◌⊎◌, inl, inr, arith, ◌==◌, ◌&&◌, if◌then◌else◌,
}
use sistemas_operativos.FileSystem.State.{max_inodes, max_blocks, num_direct_blocks, no_block}
use sistemas_operativos.FileSystem.Invariant.{Owned}

-- Slots may be emptied, and blocks that none of the remaining slots holds may be freed.
pub Owned-shrink :
    {P P' : ℕ → ℕ → ℕ} {B B' : ℕ → ℕ}
    → Owned P B
    → ((i s : ℕ)
        → i < max_inodes
        → s < num_direct_blocks
        → P' i s ≢ no_block
        → (P' i s ≡ P i s) × (B' (P i s) ≡ B (P i s)))
    → Owned P' B'
Owned-shrink {P} {P'} {B} {B'} o keep = record {
  on_disk = λ i s p q ne.
      let e = (keep i s p q ne).0 in
      subst (λ b. b < max_blocks) (sym e) (o.on_disk i s p q (λ z. ne (e ∙ z)));
  marked = λ i s p q ne z.
      let e = (keep i s p q ne).0 in
      o.marked i s p q (λ z. ne (e ∙ z)) (sym (keep i s p q ne).1 ∙ ap B' (sym e) ∙ z);
  unshared = λ i s j t p q p' q' ne z.
      let e = (keep i s p q ne).0 in
      o.unshared i s j t p q p' q' (λ z. ne (e ∙ z))
        (sym e ∙ z ∙ (keep j t p' q' (λ w. ne (z ∙ w))).0);
}

-- A free block of the disk may be put in a slot.
module _ {P P' : ℕ → ℕ → ℕ} {B B' : ℕ → ℕ} (o : Owned P B) (k slot b : ℕ) (fits : b < max_blocks)
    (free : B b ≡ 0) (put : (i s : ℕ) → P' i s ≡ (if (i == k) && (s == slot) then b else P i s))
    (mark : (x : ℕ) → B' x ≡ (if x == b then 1 else B x)) where
  new_or_old : (i s : ℕ) → ((i ≡ k) × (s ≡ slot) × (P' i s ≡ b)) ⊎ (P' i s ≡ P i s)
  new_or_old i s = ground (arith, put i s)

  old_ne : (i s : ℕ) → i < max_inodes → s < num_direct_blocks → P i s ≢ no_block → P i s ≢ b
  old_ne i s p q ne e = o.marked i s p q ne (ap B e ∙ free)

  pub Owned-grow : Owned P' B'
  Owned-grow = record {
    on_disk = λ i s p q ne. elim (new_or_old i s) [
      | inl (a, c, e) ↦ omega arith
      | inr e ↦ omega (arith, e, o.on_disk i s p q (λ z. ne (e ∙ z)))
    ];
    marked = λ i s p q ne z. elim (new_or_old i s) [
      | inl (a, c, e) ↦ ground (arith, mark (P' i s))
      | inr e ↦ ground (
        arith,
        mark (P' i s),
        o.marked i s p q (λ z. ne (e ∙ z)),
        ap B e,
        old_ne i s p q (λ z. ne (e ∙ z)),
      )
    ];
    unshared = λ i s j t p q p' q' ne z. elim (new_or_old i s) [
      | inl (a, c, e) ↦ elim (new_or_old j t) [
        | inl (a', c', e') ↦ (omega arith, omega arith)
        | inr e' ↦ absurd (old_ne j t p' q' (λ w. ne (z ∙ e' ∙ w)) (sym e' ∙ sym z ∙ e))
      ]
      | inr e ↦ elim (new_or_old j t) [
        | inl (a', c', e') ↦ absurd (old_ne i s p q (λ w. ne (e ∙ w)) (sym e ∙ z ∙ e'))
        | inr e' ↦ o.unshared i s j t p q p' q' (λ w. ne (e ∙ w)) (sym e ∙ z ∙ e')
      ]
    ];
  }
