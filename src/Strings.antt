-- ===== src/Strings.antt =====
-- lib/string.c of the kernel, and `printnum` of lib/printfmt.c. A string is the list of its bytes without the NUL,
-- and a number of bytes is a `size_t`.
pub mod Numbers
mod Tests
use sistemas_operativos.Prelude.{
  ℕ, zero, suc, ◌+◌, ◌-◌, ◌*◌, ◌/◌, ◌%◌, leb, ltb, ◌==◌, if◌then◌else◌, Bool, true, false, ◌&&◌,
  ◌||◌, not, Option, none, some, List, [], ◌∷◌, ◌++◌, length, drop, replicate, ◌>>=◌, ℤ, pos, neg,
}

-- `strlen` counts on from `n`.
unfoldable pub strlen_from : ℕ → List ℕ → ℕ
strlen_from n [] = n
strlen_from n (c ∷ s) = strlen_from (n + 1) s

unfoldable pub strlen : List ℕ → ℕ
strlen s = strlen_from 0 s

unfoldable pub strnlen_from : ℕ → ℕ → List ℕ → ℕ
strnlen_from n zero s = n
strnlen_from n (suc size) [] = n
strnlen_from n (suc size) (c ∷ s) = strnlen_from (n + 1) size s

unfoldable pub strnlen : List ℕ → ℕ → ℕ
strnlen s size = strnlen_from 0 size s

-- The bytes that `strncpy` writes, which are `size`: the string, and NULs behind it.
unfoldable pub strncpy : List ℕ → ℕ → List ℕ
strncpy src zero = []
strncpy [] (suc size) = 0 ∷ strncpy [] size
strncpy (c ∷ src) (suc size) = c ∷ strncpy src size

-- The loop of `strlcpy`, with `size` bytes and the NUL to go.
unfoldable pub copy_up_to : ℕ → List ℕ → List ℕ
copy_up_to zero src = []
copy_up_to (suc size) [] = []
copy_up_to (suc size) (c ∷ src) = c ∷ copy_up_to size src

-- The bytes that `strlcpy` writes, with the NUL, and the length that it returns.
unfoldable pub strlcpy : List ℕ → ℕ → List ℕ × ℕ
strlcpy src zero = ([], 0)
strlcpy src (suc size) = let s = copy_up_to size src in (s ++ (0 ∷ []), length s)

-- `a - b` as an `int`
abbrev pub difference : ℕ → ℕ → ℤ
difference a b = if leb b a then pos (a - b) else neg (b - a)

unfoldable pub strcmp : List ℕ → List ℕ → ℤ
strcmp [] [] = pos 0
strcmp [] (b ∷ q) = difference 0 b
strcmp (a ∷ p) [] = difference a 0
strcmp (a ∷ p) (b ∷ q) = if a == b then strcmp p q else difference a b

unfoldable pub strncmp : ℕ → List ℕ → List ℕ → ℤ
strncmp zero p q = pos 0
strncmp (suc n) [] [] = pos 0
strncmp (suc n) [] (b ∷ q) = difference 0 b
strncmp (suc n) (a ∷ p) [] = difference a 0
strncmp (suc n) (a ∷ p) (b ∷ q) = if a == b then strncmp n p q else difference a b

-- the rest of the string from the first `c` on, if it has one
unfoldable pub strchr : List ℕ → ℕ → Option (List ℕ)
strchr [] c = none
strchr (a ∷ s) c = if a == c then some (a ∷ s) else strchr s c

-- The rest from the first `c` on, or the empty string at the end.
unfoldable pub strfind : List ℕ → ℕ → List ℕ
strfind [] c = []
strfind (a ∷ s) c = if a == c then a ∷ s else strfind s c

-- `n` bytes of each region are there.
unfoldable pub memcmp : ℕ → (ℕ → ℕ) → (ℕ → ℕ) → ℕ → ℤ
memcmp zero m k a = pos 0
memcmp (suc n) m k a =
    let rest = memcmp n m k (a + 1) in if m a == k a then rest else difference (m a) (k a)

-- the address of the first `c` of `n` bytes from `a` on, or the address behind them
unfoldable pub memfind : ℕ → (ℕ → ℕ) → ℕ → ℕ → ℕ
memfind zero m c a = a
memfind (suc n) m c a = let rest = memfind n m c (a + 1) in if m a == c % 256 then a else rest

-- `*s == ' ' || *s == '\t'`
unfoldable pub skip_blanks : List ℕ → List ℕ
skip_blanks [] = []
skip_blanks (c ∷ s) = if c == b' ' || c == 9 then skip_blanks s else c ∷ s

-- the digit that a byte is, if it is one
unfoldable pub digit_value : ℕ → Option ℕ
digit_value c =
    if leb b'0' c && leb c b'9'
    then some (c - b'0')
    else if leb b'a' c && leb c b'z'
    then some (c - b'a' + 10)
    else if leb b'A' c && leb c b'Z'
    then some (c - b'A' + 10)
    else none

-- The loop over the digits: the value, and the rest of the string. (The source does not detect overflow,
-- which is left out.)
unfoldable pub take_digits : ℕ → ℕ → List ℕ → ℕ × List ℕ
take_digits base val [] = (val, [])
take_digits base val (c ∷ s) = elim (digit_value c) [
  | none ↦ (val, c ∷ s)
  | some d ↦ if leb base d then (val, c ∷ s) else take_digits base (val * base + d) s
]

-- whether the string begins with "0", or with "0x"
unfoldable pub starts_zero : List ℕ → Bool
starts_zero [] = false
starts_zero (c ∷ s) = c == b'0'

unfoldable pub starts_hex : List ℕ → Bool
starts_hex [] = false
starts_hex (c ∷ []) = false
starts_hex (c ∷ d ∷ s) = c == b'0' && d == b'x'

-- the base, and the string behind its prefix
unfoldable pub base_prefix : ℕ → List ℕ → ℕ × List ℕ
base_prefix base s =
    if (base == 0 || base == 16) && starts_hex s
    then (16, drop 2 s)
    else if base == 0 && starts_zero s
    then (8, drop 1 s)
    else if base == 0
    then (10, s)
    else (base, s)

-- `strtol` behind the sign
unfoldable pub unsigned_number : ℕ → List ℕ → ℕ × List ℕ
unsigned_number base s = let (b, digits) = base_prefix base s in take_digits b 0 digits

-- the plus or minus sign, and then the number
unfoldable pub signed_number : ℕ → List ℕ → ℤ × List ℕ
signed_number base [] = (pos (unsigned_number base []).0, [])
signed_number base (c ∷ s) =
    let unsigned = unsigned_number base (c ∷ s) in
    let behind = unsigned_number base s in
    if c == b'+'
    then (pos behind.0, behind.1)
    else if c == b'-'
    then (neg behind.0, behind.1)
    else (pos unsigned.0, unsigned.1)

-- The number, and `*endptr`.
unfoldable pub strtol : List ℕ → ℕ → ℤ × List ℕ
strtol s base = signed_number base (skip_blanks s)

-- "0123456789abcdef"[d]
unfoldable pub digit_char : ℕ → ℕ
digit_char d = if ltb d 10 then b'0' + d else b'a' + (d - 10)

-- What `printnum` puts, on fuel; `none` is the fuel that ran out. A width below 1 pads nothing, like 0.
unfoldable pub printnum_from : ℕ → ℕ → ℕ → ℕ → ℕ → Option (List ℕ)
printnum_from zero num base width padc = none
printnum_from (suc fuel) num base width padc =
    let before = printnum_from fuel (num / base) base (width - 1) padc in
    (if leb base num then before else some (replicate (width - 1) padc)) >>= λ s.
    some (s ++ (digit_char (num % base) ∷ []))

-- A number below 2^64 has at most 64 digits.
unfoldable pub printnum : ℕ → ℕ → ℕ → ℕ → Option (List ℕ)
printnum num base width padc = printnum_from 64 num base width padc
