-- ===== src/Prelude/Int.antt =====
-- The C `int`: a value, and the conversions between 32-bit words and it.
use Prim.Native.Nat.{ℕ, zero, suc, ◌+◌, ◌-◌, ◌%◌, ◌^◌}
use mathlib.Core.Path.{◌≡◌, refl}
use mathlib.Core.Logic.{◌⊎◌, inl, inr}
use mathlib.Core.Bool.{Bool, true, false}
use sistemas_operativos.Prelude.Tests.{ltb, if◌then◌else◌}

-- `negsuc n` is -(n + 1).
pub data ℤ : Type 0 where
  pos : ℕ → ℤ
  negsuc : ℕ → ℤ

-- `-n`
abbrev pub neg : ℕ → ℤ
neg zero = pos 0
neg (suc n) = negsuc n

abbrev pub is_neg : ℤ → Bool
is_neg (pos n) = false
is_neg (negsuc n) = true

-- the value of a 32-bit word read as an `int`
abbrev pub to_int : ℕ → ℤ
to_int w = if ltb w (2 ^ 31) then pos w else negsuc (2 ^ 32 - 1 - w)

-- the 32-bit word of an `int`
abbrev pub to_word : ℤ → ℕ
to_word (pos n) = n % 2 ^ 32
to_word (negsuc n) = (2 ^ 32 - 1 - n) % 2 ^ 32

-- `x++` and `x--` on an unsigned word of `m` values
abbrev pub inc_mod : ℕ → ℕ → ℕ
inc_mod m n = (n + 1) % m

abbrev pub dec_mod : ℕ → ℕ → ℕ
dec_mod m n = (n + m - 1) % m

-- `!x`
abbrev pub is_zero : ℤ → Bool
is_zero (pos zero) = true
is_zero (pos (suc n)) = false
is_zero (negsuc n) = false

-- `x == -1`
abbrev pub is_minus_one : ℤ → Bool
is_minus_one (pos n) = false
is_minus_one (negsuc zero) = true
is_minus_one (negsuc (suc n)) = false

-- To split on a computed value and keep the equation.
pub Int-cases : (n : ℤ) → ((k : ℕ) × (n ≡ pos k)) ⊎ ((k : ℕ) × (n ≡ negsuc k))
Int-cases (pos k) = inl (k, refl)
Int-cases (negsuc k) = inr (k, refl)
