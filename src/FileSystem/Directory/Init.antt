-- ===== src/FileSystem/Directory/Init.antt =====
-- What `directory_init` leaves, and what `fs_create_directory` makes of it.
use sistemas_operativos.Prelude.{
  ℕ, ◌+◌, ◌^◌, ◌<◌, ◌≤◌, ◌≡◌, refl, subst, ap, ◌∙◌, ◌⊎◌, inl, inr, arith, true, List, [], ◌∷◌,
  length, pos,
}
use sistemas_operativos.FileSystem.State.{max_filename_len}
use sistemas_operativos.FileSystem.Memory.{Bytes, write_at, load_word, store_word, strncpy_bytes}
use sistemas_operativos.FileSystem.Memory.Frame.{
  NonZero, same_string, write_at-outside, store_word-outside, load_word-Agree, load_word-store,
  str_at-Agree, str_at-strncpy, length-strncpy,
}
use sistemas_operativos.FileSystem.Directory.{
  entry_size, count_offset, directory_size, entry_at, directory_init, directory_lookup,
  directory_add_entry,
}
use sistemas_operativos.FileSystem.Directory.Abstract.{
  Entry, HoldsEntry, IsDirectory, HoldsEntry-Agree, lookup_name, has_name,
}
use sistemas_operativos.FileSystem.Directory.Add.{rejects, directory_add_entry-append}
use sistemas_operativos.FileSystem.Directory.Lookup.{directory_lookup-lookup_name}
use sistemas_operativos.FileSystem.Create.{fill_directory}

module _ (m : Bytes) (a : ℕ) (name : List ℕ) (number : ℕ) where
  named : Bytes
  named = write_at m a (strncpy_bytes name max_filename_len)

  -- the two writes of an entry
  entered : Bytes
  unfolding named
  entered = store_word named (a + max_filename_len) number

  entered-outside : (x : ℕ) → (x < a) ⊎ (a + entry_size ≤ x) → entered x ≡ m x
  unfolding entered
  entered-outside x h =
      store_word-outside named (a + max_filename_len) number x (omega arith)
      ∙ write_at-outside m a (strncpy_bytes name max_filename_len) x
          (omega (arith, length-strncpy name max_filename_len))

  HoldsEntry-entered :
      NonZero name
      → length name < max_filename_len
      → number < 2 ^ 32
      → HoldsEntry entered a (record { name = name; number = number })
  unfolding entered
  HoldsEntry-entered nz short fits = record {
    nonzero = nz;
    short = short;
    stored =
        str_at-Agree named _ a name a (a + max_filename_len)
          (λ x p q. store_word-outside named (a + max_filename_len) number x (inl q)) (omega arith)
          (omega arith)
        ∙ str_at-strncpy m a name 31 short;
    numbered = load_word-store named (a + max_filename_len) number ∙ omega arith;
  }

abbrev pub dot : List ℕ
dot = b'.' ∷ []

abbrev pub dot_dot : List ℕ
dot_dot = b'.' ∷ b'.' ∷ []

-- `.` and `..`, both with the inode 0
abbrev pub dots : List Entry
dots = record { name = dot; number = 0 } ∷ record { name = dot_dot; number = 0 } ∷ []

dot-NonZero : NonZero dot
dot-NonZero = (λ e. omega arith, tt)

pub dot_dot-NonZero : NonZero dot_dot
dot_dot-NonZero = (λ e. omega arith, (λ e. omega arith, tt))

module _ (m : Bytes) (dir : ℕ) where
  counted : Bytes
  counted = store_word m (dir + count_offset) 2

  first : Bytes
  unfolding counted
  first = entered counted (entry_at dir 0) dot 0

  second : Bytes
  unfolding first
  second = entered first (entry_at dir 1) dot_dot 0

  second_lem : directory_init m dir ≡ second
  unfolding directory_init second first counted entered named
  second_lem = refl

  second-counted : load_word second (dir + count_offset) ≡ 2
  unfolding second first counted
  second-counted =
      load_word-Agree counted second (dir + count_offset) (dir + count_offset)
        (dir + directory_size)
        (λ x p q.
          entered-outside first (entry_at dir 1) dot_dot 0 x (omega arith)
          ∙ entered-outside counted (entry_at dir 0) dot 0 x (omega arith))
        (omega arith) (omega arith)
      ∙ load_word-store m (dir + count_offset) 2

  second-IsDirectory : IsDirectory second dir dots
  unfolding second first
  second-IsDirectory = record {
    counted = second-counted;
    fits = omega arith;
    held = (
      subst (λ a. HoldsEntry second a (record { name = dot; number = 0 })) (omega arith)
          (HoldsEntry-Agree first second (entry_at dir 0) _
            (λ x p q. entered-outside first (entry_at dir 1) dot_dot 0 x (inl (omega arith)))
            (HoldsEntry-entered counted (entry_at dir 0) dot 0 dot-NonZero (omega arith)
              (omega arith))),
      (
        subst (λ a. HoldsEntry second a (record { name = dot_dot; number = 0 })) (omega arith)
            (HoldsEntry-entered first (entry_at dir 1) dot_dot 0 dot_dot-NonZero (omega arith)
              (omega arith)),
        tt,
      ),
    );
  }

  pub directory_init-IsDirectory : IsDirectory (directory_init m dir) dir dots
  directory_init-IsDirectory = rw second_lem second-IsDirectory

-- An entry with the name `.` or `..` is not added to a directory that has both.
dots_stay :
    (m : Bytes) (dir number : ℕ) (name : List ℕ)
    → IsDirectory m dir dots
    → NonZero name
    → number < 2 ^ 32
    → rejects dots name ≡ true
    → (directory_add_entry m dir name number).1 ≡ m
dots_stay m dir number name d nz fits r =
    elim (directory_add_entry-append m dir name number dots d nz fits) [
      | inl (e, code, same) ↦ same
      | inr (e, code, d', same) ↦ ground arith
    ]

dot-rejects : rejects dots dot ≡ true
unfolding has_name same_string
dot-rejects = refl

dot_dot-rejects : rejects dots dot_dot ≡ true
unfolding has_name same_string
dot_dot-rejects = refl

dot-found : lookup_name dots dot ≡ pos 0
unfolding lookup_name same_string
dot-found = refl

dot_dot-found : lookup_name dots dot_dot ≡ pos 0
unfolding lookup_name same_string
dot_dot-found = refl

fill_directory-init :
    (m : Bytes) (dir i p : ℕ)
    → i < 2 ^ 32
    → p < 2 ^ 32
    → fill_directory m dir i p ≡ directory_init m dir
unfolding fill_directory
fill_directory-init m dir i p hi hp =
    let d = directory_init-IsDirectory m dir in
    ap (λ x. (directory_add_entry x dir dot_dot p).1)
      (dots_stay (directory_init m dir) dir i dot d dot-NonZero hi dot-rejects)
    ∙ dots_stay (directory_init m dir) dir p dot_dot d dot_dot-NonZero hp dot_dot-rejects

-- The contents that `fs_create_directory` gives a new directory are those of `directory_init`: `.`
-- and `..` both with the inode 0, whatever the 32-bit numbers `i` of the directory and `p` of its parent.
-- The two additions find their names there and change nothing, so looking up `.` or `..` in it gives
-- the inode 0.
pub fill_directory-dots :
    (m : Bytes) (dir i p : ℕ)
    → i < 2 ^ 32
    → p < 2 ^ 32
    → (fill_directory m dir i p ≡ directory_init m dir)
      × IsDirectory (fill_directory m dir i p) dir dots
      × (directory_lookup (fill_directory m dir i p) dir dot ≡ pos 0)
      × (directory_lookup (fill_directory m dir i p) dir dot_dot ≡ pos 0)
fill_directory-dots m dir i p hi hp =
    let d = directory_init-IsDirectory m dir in
    rw (fill_directory-init m dir i p hi hp) (
      refl,
      d,
      directory_lookup-lookup_name (directory_init m dir) dir dot dot-NonZero dots d ∙ dot-found,
      directory_lookup-lookup_name (directory_init m dir) dir dot_dot dot_dot-NonZero dots d
          ∙ dot_dot-found,
    )
