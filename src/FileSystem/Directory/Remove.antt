-- ===== src/FileSystem/Directory/Remove.antt =====
-- `directory_remove_entry` erases the first entry of a name.
use sistemas_operativos.Prelude.{
  ℕ, zero, suc, ◌+◌, ◌-◌, ◌<◌, ◌≤◌, ◌≡◌, ◌≢◌, refl, ap, subst, ◌∙◌, ◌⊎◌, inl, inr, arith, ltb, ◌==◌,
  ◌&&◌, true, false, Bool-cases, List, [], ◌∷◌, length, get_or, ℤ, pos, neg,
}
use sistemas_operativos.FileSystem.State.{max_blocks, max_filename_len}
use sistemas_operativos.FileSystem.Memory.{Bytes, read_at, load_word, str_at}
use sistemas_operativos.FileSystem.Memory.Frame.{
  NonZero, same_string, write_at-outside, write_at-inside, store_word-outside, load_word-Agree,
  load_word-store, str_at-same,
}
use sistemas_operativos.FileSystem.Directory.{
  entry_size, count_offset, directory_size, entry_at, move_entry, shift_from, drop_entry,
  remove_from, directory_remove_entry,
}
use sistemas_operativos.FileSystem.Directory.Abstract.{
  Entry, HoldsEntry, HoldsEntries, IsDirectory, HoldsEntry-Agree, HoldsEntries-Agree, has_name,
  erase_name,
}

pub length-read_at : (m : Bytes) (a n : ℕ) → length (read_at m a n) ≡ n
unfolding read_at
length-read_at m a zero = refl
length-read_at m a (suc n) = ap suc (length-read_at m (a + 1) n)

get_or-read_at : (m : Bytes) (a n i : ℕ) → i < n → get_or (read_at m a n) i 0 ≡ m (a + i)
unfolding read_at
get_or-read_at m a zero i h = absurd (omega arith)
get_or-read_at m a (suc n) zero h = ap m (omega arith)
get_or-read_at m a (suc n) (suc i) h =
    get_or-read_at m (a + 1) n i (omega arith) ∙ ap m (omega arith)

module _ (m : Bytes) (dir j x : ℕ) where
  move_entry-outside :
      (x < entry_at dir j) ⊎ (entry_at dir (j + 1) ≤ x) → move_entry m dir j x ≡ m x
  unfolding move_entry
  move_entry-outside h =
      write_at-outside m (entry_at dir j) (read_at m (entry_at dir (j + 1)) entry_size) x
        (omega (arith, length-read_at m (entry_at dir (j + 1)) entry_size))

  move_entry-inside :
      entry_at dir j ≤ x → x < entry_at dir (j + 1) → move_entry m dir j x ≡ m (x + entry_size)
  unfolding move_entry
  move_entry-inside p q =
      ap (move_entry m dir j) {y = entry_at dir j + (x - entry_at dir j)} (omega arith)
      ∙ write_at-inside m (entry_at dir j) (read_at m (entry_at dir (j + 1)) entry_size)
          (x - entry_at dir j) (omega (arith, length-read_at m (entry_at dir (j + 1)) entry_size))
      ∙ get_or-read_at m (entry_at dir (j + 1)) entry_size (x - entry_at dir j) (omega arith)
      ∙ ap m (omega arith)

-- After the loop, entry `j` and those behind it are those that stood one place further on.
shift_from-outside :
    (m : Bytes) (dir left j x : ℕ)
    → (x < entry_at dir j) ⊎ (entry_at dir (j + left) ≤ x)
    → shift_from m dir left j x ≡ m x
unfolding shift_from
shift_from-outside m dir zero j x h = refl
shift_from-outside m dir (suc left) j x h =
    shift_from-outside (move_entry m dir j) dir left (j + 1) x (omega arith)
    ∙ move_entry-outside m dir j x (omega arith)

shift_from-inside :
    (m : Bytes) (dir left j x : ℕ)
    → entry_at dir j ≤ x
    → x < entry_at dir (j + left)
    → shift_from m dir left j x ≡ m (x + entry_size)
unfolding shift_from
shift_from-inside m dir zero j x p q = absurd (omega arith)
shift_from-inside m dir (suc left) j x p q = elim (Bool-cases (ltb x (entry_at dir (j + 1)))) [
  | inl e ↦
      shift_from-outside (move_entry m dir j) dir left (j + 1) x (ground arith)
      ∙ move_entry-inside m dir j x p (ground arith)
  | inr e ↦
      shift_from-inside (move_entry m dir j) dir left (j + 1) x (ground arith) (omega arith)
      ∙ move_entry-outside m dir j (x + entry_size) (ground arith)
]

-- the memory read from `d` further on
str_at-shift :
    (m : Bytes) (a : ℕ) (s : List ℕ) (d : ℕ) → str_at (λ x. m (x + d)) a s ≡ str_at m (a + d) s
unfolding str_at
str_at-shift m a [] d = refl
str_at-shift m a (c ∷ s) d =
    rw (str_at-shift m (a + 1) s d) (ap (λ b. (m (a + d) == c) && str_at m b s) (omega arith))

swap : (a k d : ℕ) → a + k + d ≡ a + d + k
swap a k d = omega arith

load_word-shift : (m : Bytes) (a d : ℕ) → load_word (λ x. m (x + d)) a ≡ load_word m (a + d)
unfolding load_word
load_word-shift m a d = rw (swap a 1 d, swap a 2 d, swap a 3 d)

HoldsEntries-shift :
    (m : Bytes) (a d : ℕ) (es : List Entry)
    → HoldsEntries m (a + d) es
    → HoldsEntries (λ x. m (x + d)) a es
HoldsEntries-shift m a d [] k = tt
HoldsEntries-shift m a d (e ∷ es) (k, ks) = (
  record {
    nonzero = k.nonzero;
    short = k.short;
    stored = str_at-shift m a e.name d ∙ k.stored;
    numbered =
        load_word-shift m (a + max_filename_len) d ∙ ap (load_word m) (omega arith) ∙ k.numbered;
  },
  HoldsEntries-shift m (a + entry_size) d es (subst (λ b. HoldsEntries m b es) (omega arith) ks),
)

-- Entry `i` was dropped: `es` now stands from there on, the count is one less, and only bytes from
-- entry `i` to the end of the directory changed.
record Dropped (m : Bytes) (dir i : ℕ) (es : List Entry) (n : Bytes) : Type 0 where
  held : HoldsEntries n (entry_at dir i) es
  counted : load_word n (dir + count_offset) + 1 ≡ load_word m (dir + count_offset)
  before : (x : ℕ) → x < entry_at dir i → n x ≡ m x
  beyond : (x : ℕ) → dir + directory_size ≤ x → n x ≡ m x

module _ (m : Bytes) (dir i : ℕ) (e : Entry) (es : List Entry)
    (held : HoldsEntries m (entry_at dir i) (e ∷ es))
    (counted : load_word m (dir + count_offset) ≡ i + length (e ∷ es))
    (fits : i + length (e ∷ es) ≤ max_blocks) where
  dropped-before : (x : ℕ) → x < entry_at dir i → drop_entry m dir (length es) i x ≡ m x
  unfolding drop_entry
  dropped-before x h =
      store_word-outside (shift_from m dir (length es) i) (dir + count_offset) _ x (omega arith)
      ∙ shift_from-outside m dir (length es) i x (inl h)

  dropped-beyond : (x : ℕ) → dir + directory_size ≤ x → drop_entry m dir (length es) i x ≡ m x
  unfolding drop_entry
  dropped-beyond x h =
      store_word-outside (shift_from m dir (length es) i) (dir + count_offset) _ x (omega arith)
      ∙ shift_from-outside m dir (length es) i x (omega arith)

  dropped-moved :
      (x : ℕ)
      → entry_at dir i ≤ x
      → x < entry_at dir (i + length es)
      → drop_entry m dir (length es) i x ≡ m (x + entry_size)
  unfolding drop_entry
  dropped-moved x p q =
      store_word-outside (shift_from m dir (length es) i) (dir + count_offset) _ x (omega arith)
      ∙ shift_from-inside m dir (length es) i x p q

  shifted_count :
      load_word (shift_from m dir (length es) i) (dir + count_offset) ≡ i + length (e ∷ es)
  shifted_count =
      load_word-Agree m _ (dir + count_offset) (dir + count_offset) (dir + directory_size)
        (λ x p q. shift_from-outside m dir (length es) i x (omega arith)) (omega arith)
        (omega arith)
      ∙ counted

  dropped-counted :
      load_word (drop_entry m dir (length es) i) (dir + count_offset) + 1
      ≡ load_word m (dir + count_offset)
  unfolding drop_entry
  dropped-counted =
      rw (load_word-store (shift_from m dir (length es) i) (dir + count_offset) _, shifted_count)
        (omega (arith, counted))

  drop_entry-Dropped : Dropped m dir i es (drop_entry m dir (length es) i)
  drop_entry-Dropped = record {
    held =
        HoldsEntries-Agree (λ x. m (x + entry_size)) _ (entry_at dir i) es
          (entry_at dir (i + length es)) dropped-moved (omega arith)
          (HoldsEntries-shift m (entry_at dir i) entry_size es held.1);
    counted = dropped-counted;
    before = dropped-before;
    beyond = dropped-beyond;
  }

Dropped-step :
    (m : Bytes) (dir i : ℕ) (e : Entry) (es : List Entry) (n : Bytes)
    → HoldsEntry m (entry_at dir i) e
    → Dropped m dir (i + 1) es n
    → Dropped m dir i (e ∷ es) n
Dropped-step m dir i e es n k d = record {
  held = (
    HoldsEntry-Agree m n (entry_at dir i) e (λ x p q. d.before x (omega arith)) k,
    subst (λ b. HoldsEntries n b es) (omega arith) d.held,
  );
  counted = d.counted;
  before = λ x p. d.before x (omega arith);
  beyond = d.beyond;
}

abbrev Removes : Bytes → ℕ → List ℕ → ℕ → List Entry → ℤ × Bytes → Type 0
Removes m dir name i es r =
    ((has_name es name ≡ false) × (r ≡ (neg 1, m)))
    ⊎ ((has_name es name ≡ true) × (r.0 ≡ pos 0) × Dropped m dir i (erase_name es name) r.1)

length-erase_name :
    (es : List Entry) (name : List ℕ)
    → has_name es name ≡ true
    → length (erase_name es name) + 1 ≡ length es
unfolding has_name erase_name
length-erase_name [] name h = cc
length-erase_name (e ∷ es) name h = ground (arith, length-erase_name es name)

Removes-step :
    (m : Bytes) (dir : ℕ) (name : List ℕ) (i : ℕ) (e : Entry) (es : List Entry) (r : ℤ × Bytes)
    → HoldsEntry m (entry_at dir i) e
    → same_string e.name name ≡ false
    → Removes m dir name (i + 1) es r
    → Removes m dir name i (e ∷ es) r
unfolding has_name erase_name
Removes-step m dir name i e es r k ne (inl (absent, same)) = inl (rw ne absent, same)
Removes-step m dir name i e es r k ne (inr (present, done, d)) =
    inr (rw ne present, done, rw ne (Dropped-step m dir i e (erase_name es name) r.1 k d))

Removes-here :
    (m : Bytes) (dir : ℕ) (name : List ℕ) (i : ℕ) (e : Entry) (es : List Entry) (n : Bytes)
    → same_string e.name name ≡ true
    → Dropped m dir i es n
    → Removes m dir name i (e ∷ es) (pos 0, n)
unfolding has_name erase_name
Removes-here m dir name i e es n hit d = rw hit (inr (refl, refl, d))

has_name-nil : (name : List ℕ) → has_name [] name ≡ false
unfolding has_name
has_name-nil name = refl

not_empty : (name : List ℕ) → name ≢ [] → (length name == 0) ≡ false
not_empty [] h = absurd (h refl)
not_empty (c ∷ s) h = ground arith

module _ (m : Bytes) (dir : ℕ) (name : List ℕ) (nz : NonZero name) where
  remove_from-Removes :
      (es : List Entry) (i : ℕ)
      → HoldsEntries m (entry_at dir i) es
      → load_word m (dir + count_offset) ≡ i + length es
      → i + length es ≤ max_blocks
      → Removes m dir name i es (remove_from m dir name (length es) i)
  unfolding remove_from
  remove_from-Removes [] i held counted fits = inl (has_name-nil name, refl)
  remove_from-Removes (e ∷ es) i held counted fits = elim (Bool-cases (same_string e.name name)) [
    | inl hit ↦
        rw (str_at-same m (entry_at dir i) e.name name held.0.nonzero nz held.0.stored, hit)
          (Removes-here m dir name i e es _ hit (drop_entry-Dropped m dir i e es held counted fits))
    | inr miss ↦
        rw (str_at-same m (entry_at dir i) e.name name held.0.nonzero nz held.0.stored, miss)
          (Removes-step m dir name i e es _ held.0 miss (
            remove_from-Removes es (i + 1) (subst (λ b. HoldsEntries m b es) (omega arith) held.1)
              (omega arith) (omega arith)))
  ]

  -- On a directory that is the list `es`, `directory_remove_entry` of a nonempty name without a NUL returns -1 and
  -- writes nothing if no entry has the name. Otherwise it returns 0, the directory is `es` without
  -- the first entry of that name, and no byte outside the directory changes.
  pub directory_remove_entry-erase_name :
      (es : List Entry)
      → IsDirectory m dir es
      → name ≢ []
      → let (r, n) = directory_remove_entry m dir name in
        ((has_name es name ≡ false) × (r ≡ neg 1) × (n ≡ m))
        ⊎ ((has_name es name ≡ true)
            × (r ≡ pos 0)
            × IsDirectory n dir (erase_name es name)
            × ((x : ℕ) → (x < dir) ⊎ (dir + directory_size ≤ x) → n x ≡ m x))
  unfolding directory_remove_entry
  directory_remove_entry-erase_name es d ne =
      rw (not_empty name ne, d.counted)
        (conclude (remove_from m dir name (length es) 0) (
          remove_from-Removes es 0 (subst (λ b. HoldsEntries m b es) (omega arith) d.held)
            (omega arith) (omega arith)))
    where
      conclude :
          (r : ℤ × Bytes)
          → Removes m dir name 0 es r
          → ((has_name es name ≡ false) × (r.0 ≡ neg 1) × (r.1 ≡ m))
            ⊎ ((has_name es name ≡ true)
                × (r.0 ≡ pos 0)
                × IsDirectory r.1 dir (erase_name es name)
                × ((x : ℕ) → (x < dir) ⊎ (dir + directory_size ≤ x) → r.1 x ≡ m x))
      conclude r (inl (absent, same)) = inl (absent, ap (λ p. p.0) same, ap (λ p. p.1) same)
      conclude r (inr (present, done, k)) = inr (
        present,
        done,
        record {
          counted = omega (arith, d.counted, k.counted, length-erase_name es name present);
          fits = omega (arith, d.fits, length-erase_name es name present);
          held = subst (λ b. HoldsEntries r.1 b (erase_name es name)) (omega arith) k.held;
        },
        λ x h. elim h [ inl p ↦ k.before x (omega arith) | inr p ↦ k.beyond x p ],
      )
