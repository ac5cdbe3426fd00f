-- ===== src/FileSystem/Invariant/TotalWrite.antt =====
-- `fs_write_file` has a result on a file system whose directories number inodes of the table.
use sistemas_operativos.Prelude.{
  ℕ, zero, suc, ◌+◌, ◌-◌, ◌%◌, ◌^◌, inl, inr, ◌<◌, ◌≡◌, refl, sym, ap, subst, ◌∙◌, ◌≢◌, arith, ltb,
  ◌==◌, if◌then◌else◌, Bool, true, false, true≢false, Bool-cases, none, some, List, length, ℤ, pos,
  negsuc, neg, is_neg, to_int, to_word,
}
use sistemas_operativos.FileSystem.State.{max_inodes, block_size, no_block, Filesystem, Host}
use sistemas_operativos.FileSystem.Memory.{Bytes, str_at}
use sistemas_operativos.FileSystem.Directory.{
  entry_at, inode_number, lookup_from, directory_lookup, get_directory_by_inode,
}
use sistemas_operativos.FileSystem.Table.Returns.{
  Returns, returns, Returns->>=, Returns-index, Returns-if, Returns-option, Returns-int,
}
use sistemas_operativos.FileSystem.Paths.{Parent, failed, parent, fs_resolve_parent}
use sistemas_operativos.FileSystem.Paths.Frame.{SameButReads}
use sistemas_operativos.FileSystem.Paths.Returns.{
  Closed, Closed-reads, Fits, ParentOf, fs_resolve_parent-Returns,
}
use sistemas_operativos.FileSystem.ReadWrite.{find_file, fs_write_file}
use sistemas_operativos.FileSystem.Invariant.{Balanced}
use sistemas_operativos.FileSystem.Invariant.Total.{with_result}
use sistemas_operativos.FileSystem.Invariant.Writing.{fs_write_file-Balanced}
use sistemas_operativos.FileSystem.Invariant.Loop.{write_inode-ends}

value : ℤ → ℕ
value (pos n) = n
value (negsuc n) = n

not_negative : (n m : ℕ) → negsuc n ≡ pos m → ⊥
not_negative n m e = true≢false (ap is_neg e)

if_true : (b : Bool) (x y : ℤ) → b ≡ true → (if b then x else y) ≡ x
if_true b x y h = rw h refl

if_false : (b : Bool) (x y : ℤ) → b ≡ false → (if b then x else y) ≡ y
if_false b x y h = rw h refl

below_half : (w : ℕ) → ltb w (2 ^ 31) ≡ true → w < 2 ^ 31
below_half w h = ground arith

to_int-bound : (w n : ℕ) → to_int w ≡ pos n → n < 2 ^ 31
unfolding value
to_int-bound w n e = elim (Bool-cases (ltb w (2 ^ 31))) [
  | inl h ↦
      subst (λ m. m < 2 ^ 31) (ap value (sym (if_true (ltb w (2 ^ 31)) (pos w) _ h) ∙ e))
        (below_half w h)
  | inr h ↦
      absurd (not_negative (2 ^ 32 - 1 - w) n (sym (if_false (ltb w (2 ^ 31)) (pos w) _ h) ∙ e))
]

lookup_from-bound :
    (m : Bytes) (dir : ℕ) (name : List ℕ) (left i n : ℕ)
    → lookup_from m dir name left i ≡ pos n
    → n < 2 ^ 31
unfolding lookup_from
lookup_from-bound m dir name zero i n e = absurd (not_negative 0 n e)
lookup_from-bound m dir name (suc left) i n e = elim (Bool-cases (str_at m (entry_at dir i) name)) [
  | inl h ↦ to_int-bound (inode_number m dir i) n (sym (if_true _ _ _ h) ∙ e)
  | inr h ↦ lookup_from-bound m dir name left (i + 1) n (sym (if_false _ _ _ h) ∙ e)
]

small_word : (n : ℕ) → n < 2 ^ 31 → (n % 2 ^ 32 ≡ n) × (n % 2 ^ 32 ≢ no_block)
small_word n h = (omega arith, omega arith)

-- the number of an entry that was found
entry-Fits :
    (fs : Filesystem) (i dir : ℕ) (name : List ℕ)
    → Closed fs
    → i < max_inodes
    → get_directory_by_inode (fs.inodes i) ≡ some dir
    → Fits (directory_lookup fs.bytes dir name)
unfolding directory_lookup
entry-Fits fs i dir name c p d n e =
    let (same, differs) = small_word n (lookup_from-bound fs.bytes dir name _ 0 n e) in
    subst (λ m. m < max_inodes) (ap to_word e ∙ same)
      (c.entries i dir name p d (subst (λ m. m ≢ no_block) (sym (ap to_word e)) differs))

or_minus_one : (code : ℤ) → Fits code → Fits (if is_neg code then neg 1 else code)
or_minus_one (pos n) h = h
or_minus_one (negsuc n) h = λ m e. absurd (not_negative 0 m e)

module _ (host : Host) (fs : Filesystem) (c : Closed fs) where
  pub find_file-Returns :
      (path : List ℕ) → Returns (λ code gs. Fits code × SameButReads fs gs) (find_file host fs path)
  unfolding find_file
  find_file-Returns path =
      Returns->>= (ParentOf host fs) P (fs_resolve_parent host fs path) _
        (fs_resolve_parent-Returns host fs path c) λ found gs h. below found gs h
    where
      P : ℤ → Filesystem → Type 0
      P code gs = Fits code × SameButReads fs gs

      none_fits : Fits (neg 1)
      none_fits m e = absurd (not_negative 0 m e)

      below :
          (found : Parent) (gs : Filesystem)
          → ParentOf host fs found gs
          → Returns P (elim found [
            | failed code ↦ some (neg 1, gs)
            | parent p name ↦ elim (get_directory_by_inode (gs.inodes p)) [
              | none ↦ some (neg 1, gs)
              | some dir ↦
                  let number = directory_lookup gs.bytes dir name in
                  some (if is_neg number then neg 1 else number, gs)
            ]
          ])
      below (failed code) gs h = returns (none_fits, h)
      below (parent p name) gs (fits, some_name, short, same) =
          Returns-option P (get_directory_by_inode (gs.inodes p)) _ _
            (λ e. returns (none_fits, same))
            λ dir d. returns (
              or_minus_one (directory_lookup gs.bytes dir name)
                  (entry-Fits gs p dir name (Closed-reads c same) fits d),
              same,
            )

  write-Returns :
      (path src : List ℕ) (offset : ℕ) (append : Bool)
      → fs.superblock.block_size_bytes ≡ block_size
      → Returns (λ code gs. Unit {0}) (fs_write_file host fs path src offset append)
  unfolding fs_write_file
  write-Returns path src offset append hb =
      Returns-if (λ code gs. Unit {0}) (length src == 0) _ _ (λ e. returns tt)
        λ e.
          Returns->>= (λ code gs. Fits code × SameButReads fs gs) (λ code gs. Unit {0})
            (find_file host fs path) _ (find_file-Returns path)
            λ code gs h.
              Returns-int (λ code gs. Unit {0}) code _ _
                (λ n e.
                  Returns-index (λ code gs. Unit {0}) n _ (h.0 n e)
                    (let (w, done, code_is, bounded, moved) =
                        write_inode-ends host gs n src
                          (if append then (gs.inodes n).file_size_bytes else offset)
                          (ap (λ s. s.block_size_bytes) h.1.superblock ∙ hb) in
                      subst (Returns (λ code gs. Unit {0})) (sym done) (returns tt)))
                (λ n e. returns tt)

  -- On a balanced file system whose directories number inodes of the table, and whose superblock has the
  -- disk's block size, `fs_write_file` has a result for every path, buffer and offset, and the file system
  -- is balanced again, whether all, some or nothing of the buffer was written.
  pub fs_write_file-Returns :
      (k : ℕ) (path src : List ℕ) (offset : ℕ) (append : Bool)
      → Balanced k fs
      → fs.superblock.block_size_bytes ≡ block_size
      → Returns (λ r. Balanced k) (fs_write_file host fs path src offset append)
  fs_write_file-Returns k path src offset append bal hb =
      with_result {P = λ r. Balanced k} {Q = λ code gs. Unit {0}}
        (fs_write_file-Balanced k host fs path src offset append bal)
        (write-Returns path src offset append hb)
