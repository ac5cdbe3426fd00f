-- ===== src/FileSystem/Directory/Add.antt =====
-- `directory_add_entry` appends an entry to the list.
use sistemas_operativos.Prelude.{
  ℕ, ◌+◌, ◌-◌, ◌*◌, ◌^◌, ◌<◌, ◌≤◌, ◌≡◌, refl, sym, ap, subst, ◌∙◌, ◌⊎◌, inl, inr, arith, leb, ◌==◌,
  if◌then◌else◌, Bool, true, false, ◌||◌, Bool-cases, ==→≡, List, [], ◌∷◌, ◌++◌, length,
  length-append, pos, neg,
}
use sistemas_operativos.FileSystem.State.{max_blocks, max_filename_len}
use sistemas_operativos.FileSystem.Memory.{
  Bytes, write_at, load_word, store_word, str_at, strncpy_bytes,
}
use sistemas_operativos.FileSystem.Memory.Frame.{
  Agree, NonZero, write_at-outside, write_at-inside, store_word-outside, load_word-Agree,
  load_word-store, str_at-Agree, str_at-strncpy, length-strncpy, strncpy_pads,
}
use sistemas_operativos.FileSystem.Directory.{
  entry_size, count_offset, directory_size, entry_at, entry_count, put_entry, directory_add_entry,
}
use sistemas_operativos.FileSystem.Directory.Abstract.{
  Entry, HoldsEntry, HoldsEntries, IsDirectory, HoldsEntry-Agree, HoldsEntries-Agree, has_name,
}
use sistemas_operativos.FileSystem.Directory.Lookup.{has_name_from_lem}

HoldsEntries-append :
    (m : Bytes) (a : ℕ) (es : List Entry) (e : Entry)
    → HoldsEntries m a es
    → HoldsEntry m (a + length es * entry_size) e
    → HoldsEntries m a (es ++ e ∷ [])
HoldsEntries-append m a [] e ks k = (subst (λ b. HoldsEntry m b e) (omega arith) k, tt)
HoldsEntries-append m a (d ∷ es) e (k', ks) k = (
  k',
  HoldsEntries-append m (a + entry_size) es e ks (subst (λ b. HoldsEntry m b e) (omega arith) k),
)

-- the writes of `put_entry` at the entry's address `a`
module _ (m : Bytes) (a : ℕ) (name : List ℕ) (number : ℕ) where
  named : Bytes
  named = write_at m a (strncpy_bytes name max_filename_len)

  closed : Bytes
  unfolding named
  closed = write_at named (a + (max_filename_len - 1)) (0 ∷ [])

  numbered : Bytes
  unfolding closed
  numbered = store_word closed (a + max_filename_len) number

  numbered-outside : (x : ℕ) → (x < a) ⊎ (a + entry_size ≤ x) → numbered x ≡ m x
  unfolding numbered
  numbered-outside x h =
      store_word-outside closed (a + max_filename_len) number x (omega arith)
      ∙ write_at-outside named (a + (max_filename_len - 1)) (0 ∷ []) x (omega arith)
      ∙ write_at-outside m a (strncpy_bytes name max_filename_len) x
          (omega (arith, length-strncpy name max_filename_len))

  module _ (short : length name < max_filename_len) where
    last_byte : closed (a + 31) ≡ named (a + 31)
    unfolding closed
    last_byte =
        ap closed (omega arith)
        ∙ write_at-inside named (a + 31) (0 ∷ []) 0 (omega arith)
        ∙ sym (
            write_at-inside m a (strncpy_bytes name max_filename_len) 31
              (omega (arith, length-strncpy name max_filename_len))
            ∙ strncpy_pads name max_filename_len 31 (omega arith) (omega arith))

    closed-Agree : Agree named closed a (a + max_filename_len)
    unfolding closed
    closed-Agree x p q = elim (Bool-cases (x == a + 31)) [
      | inl e ↦ rw (==→≡ _ _ e) last_byte
      | inr e ↦ write_at-outside named (a + (max_filename_len - 1)) (0 ∷ []) x (ground arith)
    ]

    numbered-stored : str_at numbered a name ≡ true
    unfolding numbered
    numbered-stored =
        str_at-Agree closed numbered a name a (a + max_filename_len)
          (λ x p q. store_word-outside closed (a + max_filename_len) number x (inl q)) (omega arith)
          (omega arith)
        ∙ str_at-Agree named closed a name a (a + max_filename_len) closed-Agree (omega arith)
            (omega arith)
        ∙ str_at-strncpy m a name 31 short

    HoldsEntry-numbered :
        NonZero name
        → number < 2 ^ 32
        → HoldsEntry numbered a (record { name = name; number = number })
    unfolding numbered
    HoldsEntry-numbered nz fits = record {
      nonzero = nz;
      short = short;
      stored = numbered-stored;
      numbered = load_word-store closed (a + max_filename_len) number ∙ omega arith;
    }

-- What `put_entry` leaves, if the directory is the list `es` and has room.
module _ (m : Bytes) (dir : ℕ) (name : List ℕ) (number : ℕ) (es : List Entry)
    (d : IsDirectory m dir es) (room : length es < max_blocks)
    (short : length name < max_filename_len) (nz : NonZero name) (fits : number < 2 ^ 32) where
  pub after : Bytes
  unfolding numbered put_entry
  after = put_entry m dir (length es) name number

  after-numbered :
      (x : ℕ)
      → (x < dir + count_offset) ⊎ (dir + directory_size ≤ x)
      → after x ≡ numbered m (entry_at dir (length es)) name number x
  unfolding after
  after-numbered x h =
      store_word-outside (numbered m (entry_at dir (length es)) name number) (dir + count_offset) _
        x (omega arith)

  pub after-outside :
      (x : ℕ) → (x < entry_at dir (length es)) ⊎ (dir + directory_size ≤ x) → after x ≡ m x
  after-outside x h =
      after-numbered x (omega arith)
      ∙ numbered-outside m (entry_at dir (length es)) name number x (omega arith)

  counted_before : entry_count (numbered m (entry_at dir (length es)) name number) dir ≡ length es
  counted_before =
      load_word-Agree m _ (dir + count_offset) (dir + count_offset) (dir + directory_size)
        (λ x p q. numbered-outside m (entry_at dir (length es)) name number x (omega arith))
        (omega arith) (omega arith)
      ∙ d.counted

  after-counted : load_word after (dir + count_offset) ≡ length es + 1
  unfolding after
  after-counted = load_word-store _ (dir + count_offset) _ ∙ rw counted_before (omega arith)

  pub after-IsDirectory : IsDirectory after dir (es ++ record { name = name; number = number } ∷ [])
  after-IsDirectory = record {
    counted = after-counted ∙ sym (length-append es _);
    fits = omega (arith, length-append {0} es (record { name = name; number = number } ∷ []));
    held =
        HoldsEntries-append after dir es _
          (HoldsEntries-Agree m after dir es (entry_at dir (length es))
            (λ x p q. after-outside x (inl q)) (omega arith) d.held)
          (HoldsEntry-Agree _ after (entry_at dir (length es)) _
            (λ x p q. after-numbered x (omega arith))
            (HoldsEntry-numbered m (entry_at dir (length es)) name number short nz fits));
  }

-- The names that a directory does not take: empty, too long, already there; and a full directory.
abbrev pub rejects : List Entry → List ℕ → Bool
rejects es name =
    (length name == 0 || leb max_filename_len (length name))
    || (leb max_blocks (length es) || has_name es name)

module _ (m : Bytes) (dir : ℕ) (name : List ℕ) (number : ℕ) (es : List Entry)
    (d : IsDirectory m dir es) (nz : NonZero name) where
  add_entry_lem :
      directory_add_entry m dir name number
      ≡ (if rejects es name then (neg 1, m) else (pos 0, put_entry m dir (length es) name number))
  unfolding directory_add_entry
  add_entry_lem =
      rw (d.counted, has_name_from_lem m dir name nz es 0 dir (omega arith) d.held) (ground arith)

  -- On a directory that is the list `es`, for a name without a NUL and a number of 32 bits,
  -- `directory_add_entry` returns -1 and writes nothing when the
  -- name is empty, has 32 bytes or more or is there already, or when the directory is full. Otherwise
  -- it returns 0, the directory is `es` with the new entry at the end, and no byte outside the
  -- directory changes.
  pub directory_add_entry-append :
      number < 2 ^ 32
      → let (r, n) = directory_add_entry m dir name number in
        ((rejects es name ≡ true) × (r ≡ neg 1) × (n ≡ m))
        ⊎ ((rejects es name ≡ false)
            × (r ≡ pos 0)
            × IsDirectory n dir (es ++ record { name = name; number = number } ∷ [])
            × ((x : ℕ) → (x < dir) ⊎ (dir + directory_size ≤ x) → n x ≡ m x))
  unfolding after
  directory_add_entry-append fits = elim (Bool-cases (rejects es name)) [
    | inl e ↦ rw (add_entry_lem, e) (inl (refl, refl, refl))
    | inr e ↦
        rw (add_entry_lem, e)
          (inr (
            refl,
            refl,
            after-IsDirectory m dir name number es d (ground arith) (ground arith) nz fits,
            λ x h.
                after-outside m dir name number es d (ground arith) (ground arith) nz fits x
                  (omega arith),
          ))
  ]
