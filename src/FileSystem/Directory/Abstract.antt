-- ===== src/FileSystem/Directory/Abstract.antt =====
-- A directory as the list of its entries, and how the bytes at an address stand for it.
use sistemas_operativos.Prelude.{
  ℕ, ◌+◌, ◌<◌, ◌≤◌, ◌≡◌, ◌*◌, ◌∙◌, arith, if◌then◌else◌, Bool, true, false, List, [], ◌∷◌, length,
  ℤ, neg, to_int,
}
use sistemas_operativos.FileSystem.State.{max_blocks, max_filename_len}
use sistemas_operativos.FileSystem.Memory.{Bytes, load_word, str_at}
use sistemas_operativos.FileSystem.Memory.Frame.{
  Agree, NonZero, same_string, load_word-Agree, str_at-Agree,
}
use sistemas_operativos.FileSystem.Directory.{entry_size, count_offset}

pub record Entry : Type 0 where
  pub name : List ℕ
  pub number : ℕ

-- the number of the first entry of that name
unfoldable pub lookup_name : List Entry → List ℕ → ℤ
lookup_name [] name = neg 1
lookup_name (e ∷ es) name = if same_string e.name name then to_int e.number else lookup_name es name

unfoldable pub has_name : List Entry → List ℕ → Bool
has_name [] name = false
has_name (e ∷ es) name = if same_string e.name name then true else has_name es name

-- without the first entry of that name
unfoldable pub erase_name : List Entry → List ℕ → List Entry
erase_name [] name = []
erase_name (e ∷ es) name = if same_string e.name name then es else e ∷ erase_name es name

-- The 36 bytes at `a` hold the entry.
pub record HoldsEntry (m : Bytes) (a : ℕ) (e : Entry) : Type 0 where
  pub nonzero : NonZero e.name
  pub short : length e.name < max_filename_len
  pub stored : str_at m a e.name ≡ true
  pub numbered : load_word m (a + max_filename_len) ≡ e.number

abbrev pub HoldsEntries : Bytes → ℕ → List Entry → Type 0
HoldsEntries m a [] = Unit {0}
HoldsEntries m a (e ∷ es) = HoldsEntry m a e × HoldsEntries m (a + entry_size) es

-- The directory at `dir` is the list of entries `es`.
pub record IsDirectory (m : Bytes) (dir : ℕ) (es : List Entry) : Type 0 where
  pub counted : load_word m (dir + count_offset) ≡ length es
  pub fits : length es ≤ max_blocks
  pub held : HoldsEntries m dir es

pub HoldsEntry-Agree :
    (m n : Bytes) (a : ℕ) (e : Entry)
    → Agree m n a (a + entry_size)
    → HoldsEntry m a e
    → HoldsEntry n a e
HoldsEntry-Agree m n a e h k = record {
  nonzero = k.nonzero;
  short = k.short;
  stored =
      str_at-Agree m n a e.name a (a + entry_size) h (omega arith) (omega (arith, k.short))
      ∙ k.stored;
  numbered =
      load_word-Agree m n (a + max_filename_len) a (a + entry_size) h (omega arith) (omega arith)
      ∙ k.numbered;
}

pub HoldsEntries-Agree :
    (m n : Bytes) (a : ℕ) (es : List Entry) (hi : ℕ)
    → Agree m n a hi
    → a + length es * entry_size ≤ hi
    → HoldsEntries m a es
    → HoldsEntries n a es
HoldsEntries-Agree m n a [] hi h p k = tt
HoldsEntries-Agree m n a (e ∷ es) hi h p (k, ks) = (
  HoldsEntry-Agree m n a e (λ x q r. h x q (omega arith)) k,
  HoldsEntries-Agree m n (a + entry_size) es hi (λ x q r. h x (omega arith) r) (omega arith) ks,
)
