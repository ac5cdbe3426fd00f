-- ===== src/Prelude/Bits.antt =====
-- `bit_or` at variables: its lowest digit, and what it does above the bits of one operand. `bit_and` with
-- the masks 0, 1 and 2.
use Prim.Native.Nat.{
  ℕ, zero, suc, ◌+◌, ◌*◌, ◌/◌, ◌%◌, ◌^◌, ◌≤◌, ◌<◌, min, max, bit_and, bit_or, digits,
  bit_and-bitwise, bit_or-bitwise,
}
use mathlib.Core.Path.{◌≡◌, refl, sym, ap, ◌∙◌}
use native.Mathlib.Omega.{arith}

abbrev or_digits : ℕ → ℕ → ℕ → ℕ
or_digits n a b = digits (λ b. b) max n a b

or_digits_fuel : (n m a b : ℕ) → a ≤ n → a ≤ m → or_digits n a b ≡ or_digits m a b
or_digits_fuel zero zero a b p q = refl
or_digits_fuel zero (suc m) zero b p q = refl
or_digits_fuel zero (suc m) (suc a) b p q = absurd (omega arith)
or_digits_fuel (suc n) zero zero b p q = refl
or_digits_fuel (suc n) zero (suc a) b p q = absurd (omega arith)
or_digits_fuel (suc n) (suc m) zero b p q = refl
or_digits_fuel (suc n) (suc m) (suc a) b p q =
    omega (arith, or_digits_fuel n m (suc a / 2) (b / 2) (omega arith) (omega arith))

zero-bit_or : (b : ℕ) → bit_or 0 b ≡ b
zero-bit_or b = bit_or-bitwise 0 b

pub bit_or_step : (a b : ℕ) → bit_or a b ≡ bit_or (a / 2) (b / 2) * 2 + max (a % 2) (b % 2)
bit_or_step zero b = omega (arith, zero-bit_or b, zero-bit_or (b / 2))
bit_or_step (suc a) b = omega (
  arith,
  bit_or-bitwise (suc a) b,
  bit_or-bitwise (suc a / 2) (b / 2),
  or_digits_fuel a (suc a / 2) (suc a / 2) (b / 2) (omega arith) (omega arith),
)

bit_or-zero_fuel : (n a : ℕ) → a ≤ n → bit_or a 0 ≡ a
bit_or-zero_fuel n zero h = zero-bit_or 0
bit_or-zero_fuel zero (suc a) h = absurd (omega arith)
bit_or-zero_fuel (suc n) (suc a) h =
    omega (arith, bit_or_step (suc a) 0, bit_or-zero_fuel n (suc a / 2) (omega arith))

pub bit_or-zero : (a : ℕ) → bit_or a 0 ≡ a
bit_or-zero a = bit_or-zero_fuel a a (omega arith)

halve : (b p : ℕ) → b < p * 2 → b / 2 < p
halve b p h = omega arith

abbrev halves : ℕ → ℕ → ℕ
halves zero a = a
halves (suc k) a = halves k (a / 2)

or_half : (a b : ℕ) → bit_or a b / 2 ≡ bit_or (a / 2) (b / 2)
or_half a b = omega (arith, bit_or_step a b)

halves-bit_or : (k a b : ℕ) → b < 2 ^ k → halves k (bit_or a b) ≡ halves k a
halves-bit_or zero a b h = elim_zero a b h
  where
    elim_zero : (a b : ℕ) → b < 1 → bit_or a b ≡ a
    elim_zero a zero h = bit_or-zero a
    elim_zero a (suc b) h = absurd (omega arith)
halves-bit_or (suc k) a b h =
    ap (halves k) (or_half a b) ∙ halves-bit_or k (a / 2) (b / 2) (halve b (2 ^ k) (omega arith))

page_halves : (a : ℕ) → halves 12 a ≡ a / 4096
page_halves a = omega arith

-- Bits below 4096 do not change the number of the page.
pub bit_or_above : (a b : ℕ) → b < 4096 → bit_or a b / 4096 ≡ a / 4096
bit_or_above a b h = sym (page_halves (bit_or a b)) ∙ halves-bit_or 12 a b h ∙ page_halves a

pub bit_or_odd : (a b : ℕ) → b % 2 ≡ 1 → bit_or a b % 2 ≡ 1
bit_or_odd a b h = omega (arith, bit_or_step a b)

pub bit_or_odd_left : (a b : ℕ) → a % 2 ≡ 1 → bit_or a b % 2 ≡ 1
bit_or_odd_left a b h = omega (arith, bit_or_step a b)

-- ten doublings
abbrev doubles : ℕ → ℕ → ℕ
doubles zero a = a
doubles (suc k) a = doubles k a * 2

doubles-bit_or : (k a b : ℕ) → b < 2 ^ k → bit_or (doubles k a) b ≡ doubles k a + b
doubles-bit_or zero a zero h = omega (arith, bit_or-zero a)
doubles-bit_or zero a (suc b) h = absurd (omega arith)
doubles-bit_or (suc k) a b h =
    joined (doubles k a) b (doubles-bit_or k a (b / 2) (halve b (2 ^ k) (omega arith)))
  where
    joined : (d b : ℕ) → bit_or d (b / 2) ≡ d + b / 2 → bit_or (d * 2) b ≡ d * 2 + b
    joined d b e = omega (arith, bit_or_step (d * 2) b, e, ap (λ x. bit_or x (b / 2)) (half d))
      where
        half : (d : ℕ) → d * 2 / 2 ≡ d
        half d = omega arith

-- Bits below 1024 are added to a multiple of 1024.
pub bit_or_below : (a b : ℕ) → b < 1024 → bit_or (a * 1024) b ≡ a * 1024 + b
bit_or_below a b h =
    ap (λ x. bit_or x b) (ten_times a)
    ∙ doubles-bit_or 10 a b h
    ∙ ap (λ x. x + b) (sym (ten_times a))
  where
    ten_times : (a : ℕ) → a * 1024 ≡ doubles 10 a
    ten_times a = omega arith

abbrev and_digits : ℕ → ℕ → ℕ → ℕ
and_digits n a b = digits (λ b. 0) min n a b

and_digits-zero : (n a : ℕ) → and_digits n a 0 ≡ 0
and_digits-zero zero a = refl
and_digits-zero (suc n) zero = refl
and_digits-zero (suc n) (suc a) = omega (arith, and_digits-zero n (suc a / 2))

pub bit_and-zero : (a : ℕ) → bit_and a 0 ≡ 0
bit_and-zero a = omega (arith, bit_and-bitwise a 0, and_digits-zero a a)

pub bit_and-one : (a : ℕ) → bit_and a 1 ≡ a % 2
bit_and-one zero = bit_and-bitwise 0 1
bit_and-one (suc a) = omega (arith, bit_and-bitwise (suc a) 1, and_digits-zero a (suc a / 2))

pub bit_and_even : (a : ℕ) → bit_and a 2 % 2 ≡ 0
bit_and_even zero = ap (λ n. n % 2) (bit_and-bitwise 0 2)
bit_and_even (suc a) = omega (arith, bit_and-bitwise (suc a) 2)
