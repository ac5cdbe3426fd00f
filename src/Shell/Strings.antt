-- ===== src/Shell/Strings.antt =====
-- src/utils.c, and the parts of the C library that the parser uses on strings. A string is the list of
-- its bytes, without the NUL; in its buffer only NULs follow it, as `read_line` leaves them.
use sistemas_operativos.Prelude.{
  ℕ, zero, suc, ◌+◌, ◌/◌, ◌%◌, ◌==◌, ltb, if◌then◌else◌, Bool, true, false, List, [], ◌∷◌, ◌++◌, ℤ,
  pos, negsuc, neg,
}

abbrev pub String : Type 0
String = List ℕ

-- the bytes before the first `c`, or all of them
unfoldable pub until : ℕ → String → String
until c [] = []
until c (x ∷ s) = let rest = until c s in if x == c then [] else x ∷ rest

-- the bytes behind the first `c`, or none
unfoldable pub behind : ℕ → String → String
behind c [] = []
behind c (x ∷ s) = let rest = behind c s in if x == c then s else rest

-- `while (buf[i] == SPACE) i++`
unfoldable pub skip_spaces : String → String
skip_spaces [] = []
skip_spaces (x ∷ s) = let rest = skip_spaces s in if x == b' ' then rest else x ∷ s

-- what `split_line` leaves in the buffer, and the string that it returns
unfoldable pub split_line : String → ℕ → String × String
split_line buf splitter = (until splitter buf, skip_spaces (behind splitter buf))

unfoldable pub contains_from : ℕ → ℕ → String → ℤ
contains_from i c [] = neg 1
contains_from i c (x ∷ s) = let rest = contains_from (i + 1) c s in if x == c then pos i else rest

unfoldable pub block_contains : String → ℕ → ℤ
block_contains buf c = contains_from 0 c buf

-- `strchr(s, c)` is not null
unfoldable pub has_byte : ℕ → String → Bool
has_byte c [] = false
has_byte c (x ∷ s) = if x == c then true else has_byte c s

-- `sprintf(arg, "%d", n)`; ten digits are enough for an `int`
unfoldable pub digits : ℕ → ℕ → String
digits zero n = []
digits (suc fuel) n =
    let rest = digits fuel (n / 10) in (if ltb n 10 then [] else rest) ++ ((b'0' + n % 10) ∷ [])

unfoldable pub decimal : ℤ → String
decimal (pos n) = digits 10 n
decimal (negsuc n) = b'-' ∷ digits 10 (n + 1)
