-- ===== src/FileSystem/Paths/Initial.antt =====
-- The directories of the file system that `fs_init` makes.
use sistemas_operativos.Prelude.{
  ℕ, ◌+◌, ◌<◌, ◌≡◌, refl, sym, ap, subst, ◌∙◌, ◌≢◌, ◌⊎◌, inl, inr, arith, ◌==◌, ==→≡, ==→≢,
  if◌then◌else◌, Bool, true, false, Bool-cases, none, some, none-ne-some, some-injective, List, ℤ,
  pos, neg, to_int, to_word, update, update_self, update_ne,
}
use sistemas_operativos.FileSystem.State.{
  max_inodes, max_filename_len, no_block, Inode, Filesystem, Host,
}
use sistemas_operativos.FileSystem.Inode.{inode_init, inode_get_direct_block}
use sistemas_operativos.FileSystem.Memory.{Bytes, load_word}
use sistemas_operativos.FileSystem.Directory.{
  entry_size, entry_at, directory_init, lookup_from, directory_lookup, first_block_from,
  get_directory_by_inode,
}
use sistemas_operativos.FileSystem.Directory.Abstract.{IsDirectory}
use sistemas_operativos.FileSystem.Directory.Init.{dots, directory_init-IsDirectory}
use sistemas_operativos.FileSystem.Create.{init_inodes, root_inode, fs_init}
use sistemas_operativos.FileSystem.Paths.Returns.{Closed}
use sistemas_operativos.FileSystem.Invariant.Init.{init_inodes-inode_init}

either :
    (a b : Bool) (x y : ℤ)
    → x ≡ pos 0
    → y ≡ pos 0
    → ((if a then x else (if b then y else neg 1)) ≡ pos 0)
      ⊎ ((if a then x else (if b then y else neg 1)) ≡ neg 1)
either true b x y hx hy = inl hx
either false true x y hx hy = inl hy
either false false x y hx hy = inr refl

first_number : (dir : ℕ) → entry_at dir 0 + max_filename_len ≡ dir + max_filename_len
first_number dir = omega arith

second_number : (dir : ℕ) → entry_at dir 1 + max_filename_len ≡ dir + entry_size + max_filename_len
second_number dir = omega arith

-- whatever name is looked up in a new directory, the answer is 0 or -1
two_entries :
    (m : Bytes) (dir : ℕ) (name : List ℕ)
    → IsDirectory m dir dots
    → (directory_lookup m dir name ≡ pos 0) ⊎ (directory_lookup m dir name ≡ neg 1)
unfolding directory_lookup lookup_from
two_entries m dir name d = rw d.counted (
    either _ _ _ _ (ap to_int (ap (load_word m) (first_number dir) ∙ d.held.0.numbered))
      (ap to_int (ap (load_word m) (second_number dir) ∙ d.held.1.0.numbered)))

no_directory : (host : Host) → get_directory_by_inode (inode_init host) ≡ none
unfolding get_directory_by_inode inode_init
no_directory host = refl

root_directory : (host : Host) → get_directory_by_inode (root_inode host) ≡ some 0
unfolding get_directory_by_inode first_block_from inode_get_direct_block update
root_directory host = refl

module _ (host : Host) (fs : Filesystem) where
  abbrev inits : ℕ → Inode
  inits = init_inodes host max_inodes 0 fs.inodes

  fresh : (i : ℕ) → i < max_inodes → inits i ≡ inode_init host
  fresh i h = init_inodes-inode_init host max_inodes 0 fs.inodes i ∙ ground arith

  only_root :
      (i dir : ℕ)
      → i < max_inodes
      → get_directory_by_inode ((fs_init host fs).inodes i) ≡ some dir
      → dir ≡ 0
  unfolding fs_init
  only_root i dir h d = elim (Bool-cases (i == 0)) [
    | inl e ↦ some-injective _ _ (
        sym d
        ∙ ap get_directory_by_inode
            (ap (update inits 0 (root_inode host)) (==→≡ i 0 e) ∙ update_self inits 0 _)
        ∙ root_directory host)
    | inr e ↦ absurd (
        none-ne-some dir (
          sym (no_directory host)
          ∙ ap get_directory_by_inode (sym (update_ne inits 0 _ i (==→≢ i 0 e) ∙ fresh i h))
          ∙ d))
  ]

  answers : (r : ℤ) → (r ≡ pos 0) ⊎ (r ≡ neg 1) → to_word r ≢ no_block → to_word r < max_inodes
  answers r (inl e) ne = rw e (omega arith)
  answers r (inr e) ne = absurd (ne (ap to_word e))

  -- The directories of the file system that `fs_init` makes number inodes of the table.
  pub fs_init-Closed : Closed (fs_init host fs)
  unfolding fs_init
  fs_init-Closed = record {
    root = omega arith;
    entries = λ i dir name h d. answers _ (
        two_entries _ dir name (
          subst (λ a. IsDirectory (directory_init fs.bytes 0) a dots) (sym (only_root i dir h d))
            (directory_init-IsDirectory fs.bytes 0)));
  }
