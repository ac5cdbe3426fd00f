-- ===== src/FileSystem/Memory/Frame.antt =====
-- Reads of bytes that a write leaves alone, and of those that it writes.
use sistemas_operativos.Prelude.{
  ℕ, suc, ◌+◌, ◌-◌, ◌%◌, ◌^◌, ◌≤◌, ◌<◌, ◌≡◌, refl, ◌∙◌, ◌≢◌, arith, leb, ltb, ◌==◌, Bool, true,
  false, ◌&&◌, List, [], ◌∷◌, ◌++◌, length, get_or, replicate, ap, ==_refl, get_or-take,
  length-take, length-append, length-replicate, get_or-replicate, get_or-append_right, ◌⊎◌,
}
use sistemas_operativos.FileSystem.Memory.{
  Bytes, write_at, load_word, word_bytes, store_word, str_at, strncpy_bytes,
}

-- The two memories agree at the addresses from `lo` on and below `hi`.
abbrev pub Agree : Bytes → Bytes → ℕ → ℕ → Type 0
Agree m n lo hi = (x : ℕ) → lo ≤ x → x < hi → n x ≡ m x

pub write_at-outside :
    (m : Bytes) (a : ℕ) (bs : List ℕ) (x : ℕ)
    → (x < a) ⊎ (a + length bs ≤ x)
    → write_at m a bs x ≡ m x
unfolding write_at
write_at-outside m a bs x h = ground (arith, h)

inside : (a n i : ℕ) → i < n → (leb a (a + i) && ltb (a + i) (a + n)) ≡ true
inside a n i h = ground arith

cancel : (a i : ℕ) → a + i - a ≡ i
cancel a i = omega arith

pub write_at-inside :
    (m : Bytes) (a : ℕ) (bs : List ℕ) (i : ℕ)
    → i < length bs
    → write_at m a bs (a + i) ≡ get_or bs i 0
unfolding write_at
write_at-inside m a bs i h = rw (inside a (length bs) i h, cancel a i)

pub load_word-Agree :
    (m n : Bytes) (a lo hi : ℕ)
    → Agree m n lo hi
    → lo ≤ a
    → a + 4 ≤ hi
    → load_word n a ≡ load_word m a
unfolding load_word
load_word-Agree m n a lo hi h p q = rw (
  h a (omega arith) (omega arith),
  h (a + 1) (omega arith) (omega arith),
  h (a + 2) (omega arith) (omega arith),
  h (a + 3) (omega arith) (omega arith),
)

pub load_word-store : (m : Bytes) (a v : ℕ) → load_word (store_word m a v) a ≡ v % 2 ^ 32
unfolding load_word store_word
load_word-store m a v = ground arith

-- No byte of the string is NUL.
abbrev pub NonZero : List ℕ → Type 0
NonZero [] = Unit {0}
NonZero (c ∷ s) = (c ≢ 0) × NonZero s

pub str_at-Agree :
    (m n : Bytes) (a : ℕ) (s : List ℕ) (lo hi : ℕ)
    → Agree m n lo hi
    → lo ≤ a
    → a + length s < hi
    → str_at n a s ≡ str_at m a s
unfolding str_at
str_at-Agree m n a [] lo hi h p q = rw (h a p (omega arith))
str_at-Agree m n a (c ∷ s) lo hi h p q =
    rw (h a p (omega arith), str_at-Agree m n (a + 1) s lo hi h (omega arith) (omega arith))

unfoldable pub same_string : List ℕ → List ℕ → Bool
same_string [] [] = true
same_string [] (d ∷ t) = false
same_string (c ∷ s) [] = false
same_string (c ∷ s) (d ∷ t) = (c == d) && same_string s t

-- Where `s` is stored, comparing with `t` compares the two strings.
pub str_at-same :
    (m : Bytes) (a : ℕ) (s t : List ℕ)
    → NonZero s
    → NonZero t
    → str_at m a s ≡ true
    → str_at m a t ≡ same_string s t
unfolding str_at same_string
str_at-same m a [] [] hs ht e = e
str_at-same m a [] (d ∷ t) hs ht e = ground arith
str_at-same m a (c ∷ s) [] hs ht e = ground arith
str_at-same m a (c ∷ s) (d ∷ t) hs ht e = ground (arith, str_at-same m (a + 1) s t)

str_at-get_or :
    (m : Bytes) (a : ℕ) (s rest : List ℕ)
    → ((i : ℕ) → i < length s + 1 → m (a + i) ≡ get_or (s ++ 0 ∷ rest) i 0)
    → str_at m a s ≡ true
unfolding str_at
str_at-get_or m a [] rest h = rw head refl
  where
    head : m a ≡ 0
    head = ap m (omega arith) ∙ h 0 (omega arith)
str_at-get_or m a (c ∷ s) rest h =
    rw
      (
        head,
        ==_refl c,
        str_at-get_or m (a + 1) s rest (λ i p. ap m (omega arith) ∙ h (suc i) (omega arith)),
      )
      refl
  where
    head : m a ≡ c
    head = ap m (omega arith) ∙ h 0 (omega arith)

pub length-strncpy : (s : List ℕ) (n : ℕ) → length (strncpy_bytes s n) ≡ n
unfolding strncpy_bytes
length-strncpy s n = omega (
  arith,
  length-take n (s ++ replicate n 0),
  length-append s (replicate n 0),
  length-replicate {A = ℕ} n 0,
)

-- A string shorter than the field is stored with its NUL.
pub str_at-strncpy :
    (m : Bytes) (a : ℕ) (s : List ℕ) (n : ℕ)
    → length s < suc n
    → str_at (write_at m a (strncpy_bytes s (suc n))) a s ≡ true
unfolding strncpy_bytes
str_at-strncpy m a s n h = str_at-get_or _ a s (replicate n 0) λ i p.
    write_at-inside m a (strncpy_bytes s (suc n)) i (omega (arith, length-strncpy s (suc n)))
    ∙ get_or-take (suc n) (s ++ 0 ∷ replicate n 0) i 0 (omega arith)

-- The byte behind a shorter string, up to the end of the field, is NUL.
pub strncpy_pads :
    (s : List ℕ) (n i : ℕ) → length s ≤ i → i < n → get_or (strncpy_bytes s n) i 0 ≡ 0
unfolding strncpy_bytes
strncpy_pads s n i h p =
    get_or-take n (s ++ replicate n 0) i 0 p
    ∙ get_or-append_right s (replicate n 0) i 0 h
    ∙ get_or-replicate n 0 (i - length s)

pub store_word-outside : (m : Bytes) (a v x : ℕ) → (x < a) ⊎ (a + 4 ≤ x) → store_word m a v x ≡ m x
unfolding store_word
store_word-outside m a v x h = write_at-outside m a (word_bytes v) x h
