-- ===== src/FileSystem/Memory.antt =====
-- The bytes of `fs->data_block`, and what the C string and memory functions do with them.
pub mod Frame
use sistemas_operativos.Prelude.{
  ℕ, zero, suc, ◌+◌, ◌-◌, ◌*◌, ◌/◌, ◌%◌, ◌^◌, leb, ltb, ◌==◌, if◌then◌else◌, Bool, true, false,
  ◌&&◌, List, [], ◌∷◌, ◌++◌, length, get_or, take, replicate,
}

abbrev pub Bytes : Type 0
Bytes = ℕ → ℕ

-- `memcpy(a, bs, length bs)`: the bytes `bs` at the addresses from `a` on
unfoldable pub write_at : Bytes → ℕ → List ℕ → Bytes
write_at m a bs x = if leb a x && ltb x (a + length bs) then get_or bs (x - a) 0 else m x

unfoldable pub read_at : Bytes → ℕ → ℕ → List ℕ
read_at m a zero = []
read_at m a (suc n) = m a ∷ read_at m (a + 1) n

-- a little-endian `uint32_t`
unfoldable pub load_word : Bytes → ℕ → ℕ
load_word m a =
    m a % 256 + 256 * (m (a + 1) % 256) + 65536 * (m (a + 2) % 256) + 16777216 * (m (a + 3) % 256)

unfoldable pub word_bytes : ℕ → List ℕ
word_bytes v = v % 256 ∷ v / 256 % 256 ∷ v / 65536 % 256 ∷ v / 16777216 % 256 ∷ []

unfoldable pub store_word : Bytes → ℕ → ℕ → Bytes
unfolding write_at word_bytes
store_word m a v = write_at m a (word_bytes v)

-- `strcmp` of the bytes at `a` with the string `s` is 0
unfoldable pub str_at : Bytes → ℕ → List ℕ → Bool
str_at m a [] = m a == 0
str_at m a (c ∷ s) = (m a == c) && str_at m (a + 1) s

-- the bytes that `strncpy(dst, s, n)` writes: `s`, cut or filled up with NULs
unfoldable pub strncpy_bytes : List ℕ → ℕ → List ℕ
strncpy_bytes s n = take n (s ++ replicate n 0)

-- the string at `a`, of at most `n` bytes
unfoldable pub string_at : Bytes → ℕ → ℕ → List ℕ
string_at m a zero = []
string_at m a (suc n) = if m a == 0 then [] else m a ∷ string_at m (a + 1) n
