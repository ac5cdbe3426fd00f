-- ===== src/FileSystem/Directory/Lookup.antt =====
-- `directory_lookup` reads the first entry of a name.
use sistemas_operativos.Prelude.{ℕ, ◌+◌, ◌≡◌, refl, arith, List, [], ◌∷◌, length}
use sistemas_operativos.FileSystem.Memory.{Bytes}
use sistemas_operativos.FileSystem.Memory.Frame.{NonZero, str_at-same}
use sistemas_operativos.FileSystem.Directory.{
  entry_size, entry_at, lookup_from, directory_lookup, has_name_from,
}
use sistemas_operativos.FileSystem.Directory.Abstract.{
  Entry, HoldsEntries, IsDirectory, lookup_name, has_name,
}

next_entry : (dir i : ℕ) → entry_at dir i + entry_size ≡ entry_at dir (i + 1)
next_entry dir i = omega arith

first_entry : (dir : ℕ) → dir ≡ entry_at dir 0
first_entry dir = omega arith

module _ (m : Bytes) (dir : ℕ) (name : List ℕ) (named : NonZero name) where
  pub lookup_from_lem :
      (es : List Entry) (i a : ℕ)
      → a ≡ entry_at dir i
      → HoldsEntries m a es
      → lookup_from m dir name (length es) i ≡ lookup_name es name
  unfolding lookup_from lookup_name
  lookup_from_lem [] i a h k = refl
  lookup_from_lem (e ∷ es) i a h (k, ks) = rw (
    ← h,
    str_at-same m a e.name name k.nonzero named k.stored,
    k.numbered,
    lookup_from_lem es (i + 1) (a + entry_size) (omega arith) ks,
  )

  pub has_name_from_lem :
      (es : List Entry) (i a : ℕ)
      → a ≡ entry_at dir i
      → HoldsEntries m a es
      → has_name_from m dir name (length es) i ≡ has_name es name
  unfolding has_name_from has_name
  has_name_from_lem [] i a h k = refl
  has_name_from_lem (e ∷ es) i a h (k, ks) = rw (
    ← h,
    str_at-same m a e.name name k.nonzero named k.stored,
    has_name_from_lem es (i + 1) (a + entry_size) (omega arith) ks,
  )

  -- On a directory that is the list `es`, and for a name without a NUL, `directory_lookup` returns the
  -- inode number of the first entry with the name, read as an `int`, and -1 if no entry has it.
  pub directory_lookup-lookup_name :
      (es : List Entry) → IsDirectory m dir es → directory_lookup m dir name ≡ lookup_name es name
  unfolding directory_lookup
  directory_lookup-lookup_name es d =
      rw d.counted (lookup_from_lem es 0 dir (first_entry dir) d.held)
