-- ===== src/FileSystem/Invariant/Total.antt =====
-- On a file system whose directories number inodes of the table, the operations have a result.
use sistemas_operativos.Prelude.{
  ℕ, leb, ◌==◌, if◌then◌else◌, none, some, List, length, ℤ, neg, is_neg,
}
use sistemas_operativos.FileSystem.State.{max_path_len, Filesystem, Host}
use sistemas_operativos.FileSystem.Directory.{directory_lookup, get_directory_by_inode}
use sistemas_operativos.FileSystem.Table.{Outcome}
use sistemas_operativos.FileSystem.Table.Holds.{Holds, Holds-result}
use sistemas_operativos.FileSystem.Table.Returns.{
  Returns, returns, Returns->>=, Returns-if, Returns-option,
}
use sistemas_operativos.FileSystem.Errno.{eexist}
use sistemas_operativos.FileSystem.Paths.{Parent, failed, parent, fs_resolve_parent}
use sistemas_operativos.FileSystem.Paths.Returns.{Closed, ParentOf, fs_resolve_parent-Returns}
use sistemas_operativos.FileSystem.Create.{in_parent, fs_create_file}
use sistemas_operativos.FileSystem.Invariant.{Balanced}
use sistemas_operativos.FileSystem.Invariant.Creation.{fs_create_file-Balanced}

-- There is a result.
abbrev Any : ℤ → Filesystem → Type 0
Any code fs = Unit {0}

pub with_result :
    {P Q : ℤ → Filesystem → Type 0} {o : Outcome ℤ} → Holds P o → Returns Q o → Returns P o
with_result h (returns q) = returns (Holds-result _ h)

module _ (host : Host) where
  in_parent-Returns :
      (fs : Filesystem) (path : List ℕ) (make : Filesystem → ℕ → ℕ → List ℕ → ℤ × Filesystem)
      → Closed fs
      → Returns Any (in_parent host fs path make)
  unfolding in_parent
  in_parent-Returns fs path make c =
      Returns-if Any (length path == 0) _ _ (λ e. returns tt)
        λ e.
          Returns-if Any (leb max_path_len (length path)) _ _ (λ e. returns tt)
            λ e.
              Returns->>= (ParentOf host fs) Any (fs_resolve_parent host fs path) _
                (fs_resolve_parent-Returns host fs path c) λ found gs h. below found gs
    where
      below :
          (found : Parent) (gs : Filesystem)
          → Returns Any (elim found [
            | failed code ↦ some (neg 1, gs)
            | parent p name ↦ elim (get_directory_by_inode (gs.inodes p)) [
              | none ↦ some (neg 1, gs)
              | some dir ↦
                  if is_neg (directory_lookup gs.bytes dir name)
                  then some (make gs p dir name)
                  else some (eexist, gs)
            ]
          ])
      below (failed code) gs = returns tt
      below (parent p name) gs =
          Returns-option Any (get_directory_by_inode (gs.inodes p)) _ _ (λ e. returns tt)
            λ dir e.
              Returns-if Any (is_neg (directory_lookup gs.bytes dir name)) _ _ (λ e. returns tt)
                (λ e. returns tt)

  module _ (k : ℕ) (fs : Filesystem) (c : Closed fs) (bal : Balanced k fs) where
    -- On a balanced file system whose directories number inodes of the table, `fs_create_file` has a
    -- result for every path and mode, and the file system is balanced again on every branch: with the
    -- file made, refused or undone.
    pub fs_create_file-Returns :
        (path : List ℕ) (mode : ℕ) → Returns (λ r. Balanced k) (fs_create_file host fs path mode)
    unfolding fs_create_file
    fs_create_file-Returns path mode =
        with_result {P = λ r. Balanced k} {Q = Any} (fs_create_file-Balanced host fs bal path mode)
          (in_parent-Returns fs path _ c)
