-- ===== src/Prelude/Options.antt =====
-- Two results in a chain: the second is computed from the first, if there is one.
use mathlib.Core.Option.{Option, none, some}

infixl 5 ◌>>=◌
abbrev pub ◌>>=◌ : {A B : Type 0} → Option A → (A → Option B) → Option B
none >>= f = none
some a >>= f = f a
