-- ===== src/FileSystem/Paths/Frame.antt =====
-- Resolving a path changes nothing but times of access.
use sistemas_operativos.Prelude.{
  ℕ, ◌+◌, ltb, leb, ◌==◌, ◌≡◌, refl, sym, ap, ==→≡, ◌∙◌, ◌||◌, Bool-cases, some, List, [], ◌∷◌,
  length, drop, update, ℤ, pos, to_word, inl, inr,
}
use sistemas_operativos.FileSystem.State.{
  max_path_len, max_filename_len, max_dir_depth, no_block, Inode, Filesystem, Host,
}
use sistemas_operativos.FileSystem.Inode.{inode_update_atime}
use sistemas_operativos.FileSystem.Directory.{directory_lookup, get_directory_by_inode}
use sistemas_operativos.FileSystem.Table.{table_index, touch_access}
use sistemas_operativos.FileSystem.Table.Holds.{
  Holds, result, Holds-mono, Holds->>=, Holds-index, Holds-if, Holds-option, Holds-int,
}
use sistemas_operativos.FileSystem.Paths.{
  walk, fs_resolve_path, resolve_before, fs_resolve_parent, tokens, last_slash, parent_path, Parent,
  is_root_path,
}

-- the inode without its time of access
abbrev pub unread : Inode → Inode
unread inode = record inode { last_access_time = 0 }

-- The two file systems differ in times of access only.
pub record SameButReads (fs fs' : Filesystem) : Type 0 where
  pub intmap : fs'.intmap ≡ fs.intmap
  pub superblock : fs'.superblock ≡ fs.superblock
  pub bytes : fs'.bytes ≡ fs.bytes
  pub inodes : (i : ℕ) → unread (fs'.inodes i) ≡ unread (fs.inodes i)

pub SameButReads-refl : (fs : Filesystem) → SameButReads fs fs
SameButReads-refl fs = record { intmap = refl; superblock = refl; bytes = refl; inodes = λ i. refl }

pub SameButReads-trans :
    {fs gs hs : Filesystem} → SameButReads fs gs → SameButReads gs hs → SameButReads fs hs
SameButReads-trans p q = record {
  intmap = q.intmap ∙ p.intmap;
  superblock = q.superblock ∙ p.superblock;
  bytes = q.bytes ∙ p.bytes;
  inodes = λ i. q.inodes i ∙ p.inodes i;
}

read_update :
    (host : Host) (fs : Filesystem) (i j : ℕ)
    → unread (update fs.inodes i (inode_update_atime host (fs.inodes i)) j) ≡ unread (fs.inodes j)
unfolding update inode_update_atime
read_update host fs i j = elim (Bool-cases (j == i)) [
  | inl e ↦ rw e (ap (λ k. unread (fs.inodes k)) (sym (==→≡ j i e)))
  | inr e ↦ rw e refl
]

pub touch_access-SameButReads :
    (host : Host) (fs : Filesystem) (i : ℕ) → SameButReads fs (touch_access host fs i)
unfolding touch_access update
touch_access-SameButReads host fs i = record {
  intmap = refl;
  superblock = refl;
  bytes = refl;
  inodes = λ j. read_update host fs i j;
}

-- of a code, or of what else an operation returns
abbrev Q : Filesystem → ℤ → Filesystem → Type 0
Q fs r = SameButReads fs

same : {r : ℤ} (fs : Filesystem) → Holds (Q fs) (some (r, fs))
same fs = result (SameButReads-refl fs)

module _ (host : Host) where
  walk-SameButReads :
      (ts : List (List ℕ)) (fs : Filesystem) (depth current : ℕ)
      → Holds (λ r. SameButReads fs) (walk host fs ts depth current)
  unfolding walk
  walk-SameButReads [] fs depth current = result (SameButReads-refl fs)
  walk-SameButReads (t ∷ ts) fs depth current =
      Holds-if (Q fs) (ltb max_dir_depth depth) _ _ (λ e. same fs)
        λ e.
          Holds-option (Q fs) (get_directory_by_inode (fs.inodes current)) _ _ (λ e. same fs)
            λ dir e.
              Holds-if (Q fs) (to_word (directory_lookup fs.bytes dir t) == no_block) _ _
                (λ e. same fs)
                λ e.
                  Holds-index (Q fs) (table_index (pos (to_word (directory_lookup fs.bytes dir t))))
                    _
                    λ i e.
                      Holds-mono (Q (touch_access host fs i)) (Q fs) _
                        (walk-SameButReads ts (touch_access host fs i) (depth + 1) i)
                        (λ r gs h. SameButReads-trans (touch_access-SameButReads host fs i) h)

  -- Whatever the path is and whether or not it is found, `fs_resolve_path` changes nothing but times
  -- of access of inodes.
  pub fs_resolve_path-SameButReads :
      (fs : Filesystem) (path : List ℕ)
      → Holds (λ r. SameButReads fs) (fs_resolve_path host fs path)
  unfolding fs_resolve_path
  fs_resolve_path-SameButReads fs path =
      Holds-if (Q fs) (length path == 0) _ _ (λ e. same fs)
        λ e.
          Holds-if (Q fs) (leb max_path_len (length path)) _ _ (λ e. same fs)
            λ e.
              Holds-if (Q fs) (is_root_path path) _ _ (λ e. same fs)
                λ e.
                  Holds-index (Q fs) (table_index (pos fs.superblock.root_inode_number)) _ λ root e.
                    Holds-mono (Q (touch_access host fs root)) (Q fs) _
                      (walk-SameButReads (tokens path) (touch_access host fs root) 0 root)
                      (λ r gs h. SameButReads-trans (touch_access-SameButReads host fs root) h)

  resolve_before-SameButReads :
      (fs : Filesystem) (path : List ℕ) (slash : ℕ)
      → Holds (λ r. SameButReads fs) (resolve_before host fs path slash)
  unfolding resolve_before
  resolve_before-SameButReads fs path slash =
      Holds-if P
        (length (drop (slash + 1) path) == 0
          || leb max_filename_len (length (drop (slash + 1) path)))
        _ _ (λ e. result (SameButReads-refl fs))
        λ e.
          Holds->>= (Q fs) P (fs_resolve_path host fs (parent_path path slash)) _
            (fs_resolve_path-SameButReads fs (parent_path path slash))
            λ code gs h.
              Holds-int P code _ _ (λ n e. Holds-index P (table_index (pos n)) _ λ i e. result h)
                (λ n e. result h)
    where
      P : Parent → Filesystem → Type 0
      P r = SameButReads fs

  -- `fs_resolve_parent` changes nothing but times of access of inodes.
  pub fs_resolve_parent-SameButReads :
      (fs : Filesystem) (path : List ℕ)
      → Holds (λ r. SameButReads fs) (fs_resolve_parent host fs path)
  unfolding fs_resolve_parent
  fs_resolve_parent-SameButReads fs path =
      Holds-if (λ r. SameButReads fs) (length path == 0) _ _ (λ e. result (SameButReads-refl fs))
        λ e.
          Holds-if (λ r. SameButReads fs) (leb max_path_len (length path)) _ _
            (λ e. result (SameButReads-refl fs))
            λ e.
              Holds-int (λ r. SameButReads fs) (last_slash path (length path)) _ _
                (λ n e. resolve_before-SameButReads fs path n)
                (λ n e. result (SameButReads-refl fs))
