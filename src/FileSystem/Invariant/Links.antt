-- ===== src/FileSystem/Invariant/Links.antt =====
-- `fs_create_symlink`, `fs_create_hard_link` and the changes of attributes keep the balance.
use sistemas_operativos.Prelude.{ℕ, ◌≡◌, refl, if◌then◌else◌, List, ℤ, pos, is_neg, none, some}
use sistemas_operativos.FileSystem.State.{Inode, Filesystem, Host}
use sistemas_operativos.FileSystem.Inode.{inode_update_ctime}
use sistemas_operativos.FileSystem.Directory.{directory_lookup, get_directory_by_inode, is_dir}
use sistemas_operativos.FileSystem.Table.{table_index, touch_changed}
use sistemas_operativos.FileSystem.Table.Holds.{
  Holds, result, Holds->>=, Holds-index, Holds-if, Holds-option, Holds-int,
}
use sistemas_operativos.FileSystem.Errno.{enoent, eio, eexist, enotdir}
use sistemas_operativos.FileSystem.Paths.{
  Parent, failed, parent, fs_resolve_path, fs_resolve_parent,
}
use sistemas_operativos.FileSystem.Paths.Frame.{
  SameButReads, fs_resolve_path-SameButReads, fs_resolve_parent-SameButReads,
}
use sistemas_operativos.FileSystem.Create.{at_link, fs_create_symlink, fs_create_hard_link}
use sistemas_operativos.FileSystem.Attributes.{change_inode, fs_change_mode, fs_change_owner}
use sistemas_operativos.FileSystem.Invariant.{Balanced}
use sistemas_operativos.FileSystem.Invariant.Steps.{Balanced-reads, Balanced-modify}
use sistemas_operativos.FileSystem.Invariant.Creation.{make_symlink-Balanced, make_link-Balanced}

module _ (k : ℕ) (host : Host) where
  abbrev Keeps : ℤ → Filesystem → Type 0
  Keeps r = Balanced k

  at_link-Balanced :
      (fs : Filesystem) (path : List ℕ) (make : Filesystem → ℕ → List ℕ → ℤ × Filesystem)
      → Balanced k fs
      → ((gs : Filesystem)
          → Balanced k gs
          → (dir : ℕ) (name : List ℕ) → Balanced k (make gs dir name).1)
      → Holds Keeps (at_link host fs path make)
  unfolding at_link
  at_link-Balanced fs path make bal keep =
      Holds->>= (λ r. SameButReads fs) Keeps (fs_resolve_parent host fs path) _
        (fs_resolve_parent-SameButReads host fs path)
        λ found gs h. below found gs (Balanced-reads fs bal gs h)
    where
      below :
          (found : Parent) (gs : Filesystem)
          → Balanced k gs
          → Holds Keeps (elim found [
            | failed code ↦ some (enoent, gs)
            | parent p name ↦
                if is_dir (gs.inodes p).inode_type
                then elim (get_directory_by_inode (gs.inodes p)) [
                  | none ↦ some (eio, gs)
                  | some dir ↦
                      if is_neg (directory_lookup gs.bytes dir name)
                      then some (make gs dir name)
                      else some (eexist, gs)
                ]
                else some (enotdir, gs)
          ])
      below (failed code) gs b = result b
      below (parent p name) gs b =
          Holds-if Keeps (is_dir (gs.inodes p).inode_type) _ _
            (λ e.
              Holds-option Keeps (get_directory_by_inode (gs.inodes p)) _ _ (λ e. result b)
                λ dir e.
                  Holds-if Keeps (is_neg (directory_lookup gs.bytes dir name)) _ _
                    (λ e. result (keep gs b dir name)) (λ e. result b))
            (λ e. result b)

  module _ (fs : Filesystem) (bal : Balanced k fs) where
    -- `fs_create_symlink` keeps the balance on every branch.
    pub fs_create_symlink-Balanced :
        (target linkpath : List ℕ)
        → Holds (λ r. Balanced k) (fs_create_symlink host fs target linkpath)
    unfolding fs_create_symlink
    fs_create_symlink-Balanced target linkpath =
        at_link-Balanced fs linkpath _ bal
          λ gs b dir name. make_symlink-Balanced host gs b dir name target

    -- `fs_create_hard_link` keeps the balance on every branch.
    pub fs_create_hard_link-Balanced :
        (from to : List ℕ) → Holds (λ r. Balanced k) (fs_create_hard_link host fs from to)
    unfolding fs_create_hard_link
    fs_create_hard_link-Balanced from to =
        Holds->>= (λ r. SameButReads fs) Keeps (fs_resolve_path host fs from) _
          (fs_resolve_path-SameButReads host fs from)
          λ code gs h.
            Holds-int Keeps code _ _
              (λ n e. Holds-index Keeps (table_index (pos n)) _ λ source e.
                Holds-if Keeps (is_dir (gs.inodes source).inode_type) _ _
                  (λ e. result (Balanced-reads fs bal gs h))
                  (λ e.
                    at_link-Balanced gs to _ (Balanced-reads fs bal gs h)
                      λ hs b dir name. make_link-Balanced host hs b dir name source))
              (λ n e. result (Balanced-reads fs bal gs h))

    change_inode-Balanced :
        (path : List ℕ) (f : Inode → Inode)
        → ((n : Inode) (s : ℕ) → (f n).direct_block_ptrs s ≡ n.direct_block_ptrs s)
        → Holds Keeps (change_inode host fs path f)
    unfolding change_inode touch_changed
    change_inode-Balanced path f keep =
        Holds->>= (λ r. SameButReads fs) Keeps (fs_resolve_path host fs path) _
          (fs_resolve_path-SameButReads host fs path)
          λ code gs h.
            Holds-int Keeps code _ _
              (λ n e. Holds-index Keeps (table_index (pos n)) _ λ i e. result (
                Balanced-modify _
                  (Balanced-modify gs (Balanced-reads fs bal gs h) i f (keep (gs.inodes i))) i
                  (inode_update_ctime host) (λ s. refl)))
              (λ n e. result (Balanced-reads fs bal gs h))

    -- `fs_change_mode` and `fs_change_owner` keep the balance.
    fs_change_mode-Balanced :
        (path : List ℕ) (mode : ℕ) → Holds (λ r. Balanced k) (fs_change_mode host fs path mode)
    unfolding fs_change_mode
    fs_change_mode-Balanced path mode = change_inode-Balanced path _ λ n s. refl

    fs_change_owner-Balanced :
        (path : List ℕ) (uid gid : ℕ)
        → Holds (λ r. Balanced k) (fs_change_owner host fs path uid gid)
    unfolding fs_change_owner
    fs_change_owner-Balanced path uid gid = change_inode-Balanced path _ λ n s. refl
