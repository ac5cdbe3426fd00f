-- ===== src/FileSystem/Invariant/Creation.antt =====
-- The operations that make entries keep the balance.
use sistemas_operativos.Prelude.{
  ℕ, refl, inl, inr, arith, leb, ◌==◌, ◌%◌, ◌^◌, if◌then◌else◌, Bool-cases, List, length, ℤ, pos,
  neg, is_neg, is_zero, FirstAt, none, some,
}
use sistemas_operativos.FileSystem.State.{max_inodes, max_path_len, Filesystem, Host}
use sistemas_operativos.FileSystem.Intmap.{find_free_block}
use sistemas_operativos.FileSystem.Intmap.Search.{find_free_block-Finds}
use sistemas_operativos.FileSystem.Inode.{inode_init, take_inode, inode_increment_links}
use sistemas_operativos.FileSystem.Inode.Blocks.{
  allocate_inode-Allocates, inode_add_direct_block-Adds,
}
use sistemas_operativos.FileSystem.Directory.{
  directory_add_entry, directory_lookup, get_directory_by_inode,
}
use sistemas_operativos.FileSystem.Table.Holds.{Holds, result, Holds->>=, Holds-if, Holds-option}
use sistemas_operativos.FileSystem.Paths.{Parent, failed, parent, fs_resolve_parent}
use sistemas_operativos.FileSystem.Paths.Frame.{SameButReads, fs_resolve_parent-SameButReads}
use sistemas_operativos.FileSystem.Create.{
  grow, enter_grown, new_file, file_with, make_file, new_directory, directory_added, directory_in,
  directory_with, make_directory, new_symlink, symlink_grown, symlink_with, make_symlink, make_link,
  in_parent, fs_create_file, fs_create_directory,
}
use sistemas_operativos.FileSystem.Invariant.{Balanced}
use sistemas_operativos.FileSystem.Invariant.Steps.{
  Balanced-reads, Balanced-bytes, Balanced-modify, Balanced-claim,
}
use sistemas_operativos.FileSystem.Invariant.Fresh.{
  grow-Grows, Fresh, Fresh-modify, claimed, claimed-Fresh, blocked, enter-Balanced,
  place_directory-Balanced, unblocked-Balanced,
}

module _ {k : ℕ} (host : Host) (fs : Filesystem) (bal : Balanced k fs) (dir : ℕ)
    (name : List ℕ) where
  file_claimed :
      (mode i : ℕ)
      → FirstAt fs.intmap.inodes 0 0 max_inodes i
      → let fs2 = claimed host fs i (λ _. new_file host mode) in Balanced k fs2 × Fresh fs2 i
  unfolding inode_init
  file_claimed mode i first = (
    Balanced-claim fs bal host i _ first.below first.here (λ s. refl),
    claimed-Fresh host fs i _ first.below (λ s. refl),
  )

  pub make_file-Balanced : (mode : ℕ) → Balanced k (make_file host fs mode dir name).1
  unfolding make_file file_with enter_grown blocked
  make_file-Balanced mode = elim (allocate_inode-Allocates host fs) [
    | inr (e, full) ↦ rw e bal
    | inl (i, e, first) ↦
        let (bal2, new) = file_claimed mode i first in
        elim (grow-Grows (claimed host fs i (λ _. new_file host mode)) i) [
          | inr (e', full) ↦ rw (e, e') (unblocked-Balanced host _ i bal2 new)
          | inl (b, slot, e', block, place) ↦
              rw (e, e')
                (enter-Balanced host _ i b slot bal2 new block place
                  (blocked host _ i b slot bal2 new block place).bytes dir name (neg 1))
        ]
  ]

  directory_claimed :
      (mode i : ℕ)
      → FirstAt fs.intmap.inodes 0 0 max_inodes i
      → let fs2 = claimed host fs i (λ _. new_directory host mode) in Balanced k fs2 × Fresh fs2 i
  unfolding inode_init inode_increment_links
  directory_claimed mode i first = (
    Balanced-claim fs bal host i _ first.below first.here (λ s. refl),
    claimed-Fresh host fs i _ first.below (λ s. refl),
  )

  directory_in-Balanced :
      (p i : ℕ) (gs : Filesystem)
      → Balanced k gs
      → Fresh gs i
      → Balanced k (directory_in host p dir name i gs (find_free_block gs.intmap)).1
  unfolding directory_in directory_added blocked
  directory_in-Balanced p i gs bal2 new = elim (find_free_block-Finds gs.intmap) [
    | inr (e, full) ↦ rw e (unblocked-Balanced host gs i bal2 new)
    | inl (b, e, first) ↦ elim (inode_add_direct_block-Adds gs i b first.below) [
      | inl (slot, e', place) ↦
          rw (e, e') (place_directory-Balanced host gs i b slot bal2 new first place p dir name)
      | inr (e', full) ↦ absurd (full 0 (omega arith) (omega arith) (new.empty 0))
    ]
  ]

  make_directory-Balanced : (mode p : ℕ) → Balanced k (make_directory host fs mode p dir name).1
  unfolding make_directory directory_with
  make_directory-Balanced mode p = elim (allocate_inode-Allocates host fs) [
    | inr (e, full) ↦ rw e bal
    | inl (i, e, first) ↦
        let (bal2, new) = directory_claimed mode i first in
        rw e (directory_in-Balanced p i (claimed host fs i (λ _. new_directory host mode)) bal2 new)
  ]

  symlink_claimed :
      (i : ℕ)
      → FirstAt fs.intmap.inodes 0 0 max_inodes i
      → let fs2 = claimed host fs i (new_symlink host) in Balanced k fs2 × Fresh fs2 i
  unfolding inode_init
  symlink_claimed i first = (
    Balanced-claim fs bal host i _ first.below first.here (λ s. refl),
    claimed-Fresh host fs i _ first.below (λ s. refl),
  )

  symlink_grown-Balanced :
      (target : List ℕ) (i : ℕ) (gs : Filesystem)
      → Balanced k gs
      → Fresh gs i
      → Balanced k (symlink_grown host target dir name i (grow gs i)).1
  unfolding symlink_grown blocked
  symlink_grown-Balanced target i gs bal2 new = elim (grow-Grows gs i) [
    | inr (e, full) ↦ rw e (unblocked-Balanced host gs i bal2 new)
    | inl (b, slot, e, block, place) ↦
        rw e (enter-Balanced host gs i b slot bal2 new block place _ dir name (neg 28))
  ]

  symlink_taken :
      (target : List ℕ) (i : ℕ)
      → FirstAt fs.intmap.inodes 0 0 max_inodes i
      → Balanced k (symlink_with host target dir name (pos i, take_inode host fs i)).1
  unfolding symlink_with
  symlink_taken target i first =
      let (bal2, new) = symlink_claimed i first in
      elim (Bool-cases (
        leb (claimed host fs i (new_symlink host)).superblock.max_file_size_bytes
          (length target))) [
            | inl h ↦ rw h (unblocked-Balanced host _ i bal2 new)
            | inr h ↦ rw h (
                symlink_grown-Balanced target i _
                  (Balanced-modify _ bal2 i
                    (λ inode. record inode { file_size_bytes = length target % 2 ^ 32 })
                    (λ s. refl))
                  (Fresh-modify _ i
                    (λ inode. record inode { file_size_bytes = length target % 2 ^ 32 }) (λ s. refl)
                    new))
          ]

  pub make_symlink-Balanced :
      (target : List ℕ) → Balanced k (make_symlink host fs target dir name).1
  unfolding make_symlink symlink_with
  make_symlink-Balanced target = elim (allocate_inode-Allocates host fs) [
    | inr (e, full) ↦ rw e bal
    | inl (i, e, first) ↦ rw e (symlink_taken target i first)
  ]

  pub make_link-Balanced : (source : ℕ) → Balanced k (make_link fs source dir name).1
  unfolding make_link inode_increment_links
  make_link-Balanced source =
      elim (Bool-cases (is_zero (directory_add_entry fs.bytes dir name source).0)) [
        | inl e ↦
            rw (e, make_link)
              (Balanced-modify _ (Balanced-bytes fs bal _) source inode_increment_links (λ s. refl))
        | inr e ↦ rw (e, make_link) (Balanced-bytes fs bal _)
      ]

-- The whole operations, from a path on.
module _ {k : ℕ} (host : Host) (fs : Filesystem) (bal : Balanced k fs) where
  abbrev Keeps : ℤ → Filesystem → Type 0
  Keeps r = Balanced k

  in_parent-Balanced :
      (path : List ℕ) (make : Filesystem → ℕ → ℕ → List ℕ → ℤ × Filesystem)
      → ((gs : Filesystem)
          → Balanced k gs
          → (p dir : ℕ) (name : List ℕ) → Balanced k (make gs p dir name).1)
      → Holds Keeps (in_parent host fs path make)
  unfolding in_parent
  in_parent-Balanced path make keep =
      Holds-if Keeps (length path == 0) _ _ (λ e. result bal)
        λ e.
          Holds-if Keeps (leb max_path_len (length path)) _ _ (λ e. result bal)
            λ e.
              Holds->>= (λ r. SameButReads fs) Keeps (fs_resolve_parent host fs path) _
                (fs_resolve_parent-SameButReads host fs path)
                λ found gs h. below found gs (Balanced-reads fs bal gs h)
    where
      below :
          (found : Parent) (gs : Filesystem)
          → Balanced k gs
          → Holds Keeps (elim found [
            | failed code ↦ some (neg 1, gs)
            | parent p name ↦ elim (get_directory_by_inode (gs.inodes p)) [
              | none ↦ some (neg 1, gs)
              | some dir ↦
                  if is_neg (directory_lookup gs.bytes dir name)
                  then some (make gs p dir name)
                  else some (neg 17, gs)
            ]
          ])
      below (failed code) gs b = result b
      below (parent p name) gs b =
          Holds-option Keeps (get_directory_by_inode (gs.inodes p)) _ _ (λ e. result b)
            λ dir e.
              Holds-if Keeps (is_neg (directory_lookup gs.bytes dir name)) _ _
                (λ e. result (keep gs b p dir name)) (λ e. result b)

  -- `fs_create_file` keeps the balance on every branch: with the file made, refused or undone, the
  -- counters, the maps and the pointers agree as they did, and no block belongs to two slots.
  pub fs_create_file-Balanced :
      (path : List ℕ) (mode : ℕ) → Holds (λ r. Balanced k) (fs_create_file host fs path mode)
  unfolding fs_create_file
  fs_create_file-Balanced path mode =
      in_parent-Balanced path _ λ gs b p dir name. make_file-Balanced host gs b dir name mode

  -- `fs_create_directory` keeps the balance on every branch.
  pub fs_create_directory-Balanced :
      (path : List ℕ) (mode : ℕ) (entry : List ℕ)
      → Holds (λ r. Balanced k) (fs_create_directory host fs path mode entry)
  unfolding fs_create_directory
  fs_create_directory-Balanced path mode entry =
      in_parent-Balanced path _
        λ gs b p dir name. make_directory-Balanced host gs b dir entry mode p
