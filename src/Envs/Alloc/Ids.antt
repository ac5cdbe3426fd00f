-- ===== src/Envs/Alloc/Ids.antt =====
-- The ids that `env_alloc` of kern/env.c makes.
use sistemas_operativos.Prelude.{
  ℕ, ◌+◌, ◌*◌, ◌/◌, ◌%◌, ◌^◌, ◌<◌, ◌≡◌, ◌≢◌, refl, sym, ap, subst, ◌∙◌, arith, leb, ◌==◌, ◌||◌,
  true, false, ◌≤◌, Bool-cases, inl, inr, bit_or, bit_or_below,
}
use sistemas_operativos.Sched.State.{nenv, env_index}
use sistemas_operativos.Envs.Alloc.{generation}

-- What is true of the id of an environment in use, at the index `e`: it is positive as an `int32_t`, and
-- its low bits are the index.
pub record IsId (e id : ℕ) : Type 0 where
  pub positive : 0 < id
  pub narrow : id < 2 ^ 31
  pub indexed : env_index id ≡ e

-- The generation is a multiple of 1024 that is not that of `id`.
record NextGeneration (id g : ℕ) : Type 0 where
  quotient : ℕ
  multiple : g ≡ quotient * 1024
  some_bits : 0 < quotient
  fits : quotient < 2 ^ 21
  differs : quotient ≢ id / 1024

abbrev wrapped : ℕ → ℕ
wrapped id = (id + 4096) % 2 ^ 32 / 1024 * 1024

generation_first :
    (id : ℕ) → ((wrapped id == 0) || leb (2 ^ 31) (wrapped id)) ≡ true → generation id ≡ 4096
unfolding generation
generation_first id e = rw e refl

generation_later :
    (id : ℕ) → ((wrapped id == 0) || leb (2 ^ 31) (wrapped id)) ≡ false → generation id ≡ wrapped id
unfolding generation
generation_later id e = rw e refl

wraps :
    (id : ℕ)
    → id < 2 ^ 31
    → ((wrapped id == 0) || leb (2 ^ 31) (wrapped id)) ≡ true
    → 2 ^ 31 ≤ id + 4096
wraps id h e = ground arith

stays :
    (id : ℕ)
    → ((wrapped id == 0) || leb (2 ^ 31) (wrapped id)) ≡ false
    → (wrapped id ≢ 0) × (wrapped id < 2 ^ 31)
stays id e = (ground arith, ground arith)

generation-NextGeneration : (id : ℕ) → id < 2 ^ 31 → NextGeneration id (generation id)
generation-NextGeneration id h =
    elim (Bool-cases ((wrapped id == 0) || leb (2 ^ 31) (wrapped id))) [
      | inl e ↦
          let w = wraps id h e in
          record {
            quotient = 4;
            multiple = generation_first id e;
            some_bits = omega arith;
            fits = omega arith;
            differs = λ z. omega arith;
          }
      | inr e ↦
          let s = stays id e in
          record {
            quotient = (id + 4096) % 2 ^ 32 / 1024;
            multiple = generation_later id e;
            some_bits = omega (arith, s.0);
            fits = omega (arith, s.1);
            differs = λ z. omega arith;
          }
    ]

sum-IsId :
    (id e q : ℕ)
    → e < 1024
    → 0 < q
    → q < 2 ^ 21
    → q ≢ id / 1024
    → IsId e (q * 1024 + e) × (q * 1024 + e ≢ id)
sum-IsId id e q h p f d = (
  record { positive = omega arith; narrow = omega arith; indexed = omega arith },
  λ z. d (omega arith),
)

-- The id of a new environment at an index is one of that index, and not the id of the last environment
-- there, if that was not negative.
pub generation-IsId :
    (e id : ℕ)
    → e < nenv
    → id < 2 ^ 31
    → IsId e (bit_or (generation id) e) × (bit_or (generation id) e ≢ id)
generation-IsId e id h b =
    let g = generation-NextGeneration id b in
    subst (λ x. IsId e x × (x ≢ id))
      (sym (ap (λ x. bit_or x e) g.multiple ∙ bit_or_below g.quotient e h))
      (sum-IsId id e g.quotient h g.some_bits g.fits g.differs)
