-- ===== src/FileSystem/Paths/Returns.antt =====
-- Path resolution has a result on a file system whose directories number inodes of the table.
use sistemas_operativos.Prelude.{
  ℕ, ◌+◌, ◌<◌, ◌≡◌, sym, ap, subst, ◌∙◌, ◌≢◌, arith, leb, ltb, ◌==◌, ==→≢, ◌||◌, false, true≢false,
  some, List, [], ◌∷◌, length, drop, ℤ, pos, negsuc, is_neg, to_int, to_word,
}
use sistemas_operativos.FileSystem.State.{
  max_inodes, max_path_len, max_filename_len, max_dir_depth, no_block, Filesystem, Host,
}
use sistemas_operativos.FileSystem.Inode.{inode_get_direct_block}
use sistemas_operativos.FileSystem.Directory.{
  directory_lookup, first_block_from, get_directory_by_inode,
}
use sistemas_operativos.FileSystem.Table.{touch_access}
use sistemas_operativos.FileSystem.Table.Returns.{
  Returns, returns, Returns-mono, Returns->>=, Returns-index, Returns-if, Returns-option,
  Returns-int,
}
use sistemas_operativos.FileSystem.Paths.{
  tokens, walk, is_root_path, fs_resolve_path, last_slash, Parent, failed, parent, parent_path,
  resolve_before, fs_resolve_parent,
}
use sistemas_operativos.FileSystem.Paths.Frame.{
  SameButReads, SameButReads-refl, SameButReads-trans, touch_access-SameButReads,
}

-- The root is an inode of the table, and so is what a directory of the table gives for any name.
pub record Closed (fs : Filesystem) : Type 0 where
  pub root : fs.superblock.root_inode_number < max_inodes
  pub entries :
      (i dir : ℕ) (name : List ℕ)
      → i < max_inodes
      → get_directory_by_inode (fs.inodes i) ≡ some dir
      → to_word (directory_lookup fs.bytes dir name) ≢ no_block
      → to_word (directory_lookup fs.bytes dir name) < max_inodes

same_directory :
    (fs gs : Filesystem) (i : ℕ)
    → SameButReads fs gs
    → get_directory_by_inode (gs.inodes i) ≡ get_directory_by_inode (fs.inodes i)
unfolding get_directory_by_inode first_block_from inode_get_direct_block
same_directory fs gs i h = ap get_directory_by_inode (h.inodes i)

pub Closed-reads : {fs gs : Filesystem} → Closed fs → SameButReads fs gs → Closed gs
Closed-reads {fs} {gs} c h = record {
  root = subst (λ s. s.root_inode_number < max_inodes) (sym h.superblock) c.root;
  entries = λ i dir name p d.
      subst
        (λ m.
          to_word (directory_lookup m dir name) ≢ no_block
          → to_word (directory_lookup m dir name) < max_inodes)
        (sym h.bytes) (c.entries i dir name p (sym (same_directory fs gs i h) ∙ d));
}

-- a code below 0, or the index of an inode
abbrev pub Fits : ℤ → Type 0
Fits code = (n : ℕ) → code ≡ pos n → n < max_inodes

-- what path resolution returns, and that it changes times of access only
abbrev Resolved : Filesystem → ℤ → Filesystem → Type 0
Resolved fs code gs = Fits code × SameButReads fs gs

to_int-small : (n : ℕ) → n < max_inodes → to_int n ≡ pos n
to_int-small n h = ground arith

small-Fits : (n : ℕ) → n < max_inodes → Fits (to_int n)
small-Fits n h m e = subst (λ k. k < max_inodes) (ap value (sym (to_int-small n h) ∙ e)) h
  where
    value : ℤ → ℕ
    value (pos k) = k
    value (negsuc k) = k

negative-Fits : (n : ℕ) → Fits (negsuc n)
negative-Fits n m e = absurd (true≢false (ap is_neg e))

module _ (host : Host) where
  walk-Returns :
      (ts : List (List ℕ)) (fs : Filesystem) (depth current : ℕ)
      → Closed fs
      → current < max_inodes
      → Returns (Resolved fs) (walk host fs ts depth current)
  unfolding walk
  walk-Returns [] fs depth current c h = returns (small-Fits current h, SameButReads-refl fs)
  walk-Returns (t ∷ ts) fs depth current c h =
      Returns-if (Resolved fs) (ltb max_dir_depth depth) _ _
        (λ e. returns (negative-Fits _, SameButReads-refl fs))
        λ e.
          Returns-option (Resolved fs) (get_directory_by_inode (fs.inodes current)) _ _
            (λ e. returns (negative-Fits _, SameButReads-refl fs))
            λ dir d.
              Returns-if (Resolved fs) (to_word (directory_lookup fs.bytes dir t) == no_block) _ _
                (λ e. returns (negative-Fits _, SameButReads-refl fs))
                λ e.
                  let i = to_word (directory_lookup fs.bytes dir t) in
                  let fits = c.entries current dir t h d (==→≢ _ _ e) in
                  Returns-index (Resolved fs) i _ fits (
                    Returns-mono (Resolved (touch_access host fs i)) (Resolved fs) _
                      (walk-Returns ts (touch_access host fs i) (depth + 1) i
                        (Closed-reads c (touch_access-SameButReads host fs i)) fits)
                      (λ r gs q.
                        (q.0, SameButReads-trans (touch_access-SameButReads host fs i) q.1)))

  -- On a file system whose directories number inodes of the table, `fs_resolve_path` of any path has a
  -- result: a code below 0 or the number of an inode of the table, with nothing changed but times of
  -- access.
  pub fs_resolve_path-Returns :
      (fs : Filesystem) (path : List ℕ)
      → Closed fs
      → Returns (λ code gs. Fits code × SameButReads fs gs) (fs_resolve_path host fs path)
  unfolding fs_resolve_path
  fs_resolve_path-Returns fs path c =
      Returns-if (Resolved fs) (length path == 0) _ _
        (λ e. returns (negative-Fits _, SameButReads-refl fs))
        λ e.
          Returns-if (Resolved fs) (leb max_path_len (length path)) _ _
            (λ e. returns (negative-Fits _, SameButReads-refl fs))
            λ e.
              Returns-if (Resolved fs) (is_root_path path) _ _
                (λ e. returns (small-Fits _ c.root, SameButReads-refl fs))
                λ e.
                  let root = fs.superblock.root_inode_number in
                  Returns-index (Resolved fs) root _ c.root (
                    Returns-mono (Resolved (touch_access host fs root)) (Resolved fs) _
                      (walk-Returns (tokens path) (touch_access host fs root) 0 root
                        (Closed-reads c (touch_access-SameButReads host fs root)) c.root)
                      (λ r gs q.
                        (q.0, SameButReads-trans (touch_access-SameButReads host fs root) q.1)))

  -- what `fs_resolve_parent` returns
  abbrev pub ParentOf : Filesystem → Parent → Filesystem → Type 0
  ParentOf fs (failed code) gs = SameButReads fs gs
  ParentOf fs (parent i name) gs =
      (i < max_inodes) × (0 < length name) × (length name < max_filename_len) × SameButReads fs gs

  named : (n : ℕ) → (n == 0 || leb max_filename_len n) ≡ false → (0 < n) × (n < max_filename_len)
  named n h = (ground arith, ground arith)

  resolve_before-Returns :
      (fs : Filesystem) (path : List ℕ) (slash : ℕ)
      → Closed fs
      → Returns (ParentOf fs) (resolve_before host fs path slash)
  unfolding resolve_before
  resolve_before-Returns fs path slash c =
      Returns-if (ParentOf fs)
        (length (drop (slash + 1) path) == 0
          || leb max_filename_len (length (drop (slash + 1) path)))
        _ _ (λ e. returns (SameButReads-refl fs))
        λ e.
          Returns->>= (Resolved fs) (ParentOf fs) (fs_resolve_path host fs (parent_path path slash))
            _ (fs_resolve_path-Returns fs (parent_path path slash) c)
            λ code gs h.
              Returns-int (ParentOf fs) code _ _
                (λ n e'.
                  let (some_name, short) = named (length (drop (slash + 1) path)) e in
                  Returns-index (ParentOf fs) n _ (h.0 n e')
                    (returns (h.0 n e', some_name, short, h.1)))
                (λ n e'. returns h.1)

  pub fs_resolve_parent-Returns :
      (fs : Filesystem) (path : List ℕ)
      → Closed fs
      → Returns (ParentOf fs) (fs_resolve_parent host fs path)
  unfolding fs_resolve_parent
  fs_resolve_parent-Returns fs path c =
      Returns-if (ParentOf fs) (length path == 0) _ _ (λ e. returns (SameButReads-refl fs))
        λ e.
          Returns-if (ParentOf fs) (leb max_path_len (length path)) _ _
            (λ e. returns (SameButReads-refl fs))
            λ e.
              Returns-int (ParentOf fs) (last_slash path (length path)) _ _
                (λ n e. resolve_before-Returns fs path n c) (λ n e. returns (SameButReads-refl fs))
