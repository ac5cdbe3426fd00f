-- ===== src/FileSystem/Fuse.antt =====
-- The callbacks of fisopfs.c, which FUSE calls with the file system that `init` left. What FUSE itself
-- does, and the text on stderr, are not modelled. No path is a null pointer.
pub mod Persistence
pub mod Answers
pub mod Balance
use sistemas_operativos.Prelude.{
  ℕ, ◌+◌, ◌%◌, ◌^◌, leb, ◌==◌, if◌then◌else◌, false, Option, none, some, List, [], length, take,
  drop, bit_and, ℤ, pos, negsuc, neg, is_neg,
}
use sistemas_operativos.FileSystem.State.{
  max_inodes, max_filename_len, num_direct_blocks, perm_read, Inode, Filesystem, Host,
}
use sistemas_operativos.FileSystem.Inode.{modify_inode}
use sistemas_operativos.FileSystem.Table.{
  Outcome, ◌>>=◌, table_index, touch_modified, touch_changed,
}
use sistemas_operativos.FileSystem.Errno.{enoent, eio, eacces}
use sistemas_operativos.FileSystem.Paths.{last_slash, fs_resolve_path}
use sistemas_operativos.FileSystem.Create.{
  fs_create_file, fs_create_directory, fs_create_symlink, fs_create_hard_link,
}
use sistemas_operativos.FileSystem.ReadWrite.{fs_read_file, fs_write_file}
use sistemas_operativos.FileSystem.Remove.{release_from, fs_delete_file, fs_remove_directory}
use sistemas_operativos.FileSystem.Attributes.{
  Stat, fs_list_directory, fs_statistics, fs_read_symlink, fs_change_mode, fs_change_owner,
}

-- `fuse_get_context()->private_data`, with `none` for NULL
abbrev pub Mounted : Type 0
Mounted = Option Filesystem

-- The answer to FUSE and the `private_data` it leaves; `none` as in `Outcome`.
abbrev pub Reply : Type 0 → Type 0
Reply A = Option (A × Mounted)

-- `if (!fs) return -EIO;`, in front of every callback
unfoldable pub with_fs : {A : Type 0} → A → Mounted → (Filesystem → Outcome A) → Reply A
with_fs lost none f = some (lost, none)
with_fs lost (some fs) f = f fs >>= λ (a, fs1). some (a, some fs1)

unfoldable pub fisopfs_getattr : Host → Mounted → List ℕ → Reply (ℤ × Option Stat)
fisopfs_getattr host context path =
    with_fs (eio, none) context
      λ fs. fs_statistics host fs path >>= λ ((code, stat), fs1).
        some ((if is_neg code then code else pos 0, stat), fs1)

-- The code, with the names that go to `filler`. The callback has room for `MAX_INODES` of them: a
-- directory with more entries is written past the end of `entries`.
unfoldable pub fisopfs_readdir : Host → Mounted → List ℕ → Reply (ℤ × List (List ℕ))
fisopfs_readdir host context path =
    with_fs (eio, []) context
      λ fs. fs_list_directory host fs path >>= λ ((count, names), fs1). elim count [
        | negsuc e ↦ some ((enoent, []), fs1)
        | pos n ↦ if leb n max_inodes then some ((pos 0, names), fs1) else none
      ]

-- `fisopfs_read` for the inode `i` of its path
unfoldable pub read_allowed : Host → Filesystem → List ℕ → ℕ → ℕ → ℕ → Outcome (ℤ × List ℕ)
read_allowed host fs path size offset i =
    if bit_and (fs.inodes i).permission_bits perm_read == 0
    then some ((eacces, []), fs)
    else fs_read_file host fs path size offset >>= λ ((count, bytes), fs1).
        some ((if is_neg count then enoent else count, bytes), fs1)

unfoldable pub fisopfs_read : Host → Mounted → List ℕ → ℕ → ℕ → Reply (ℤ × List ℕ)
fisopfs_read host context path size offset =
    with_fs (eio, []) context
      λ fs. fs_resolve_path host fs path >>= λ (code, fs1). elim code [
        | negsuc e ↦ some ((enoent, []), fs1)
        | pos n ↦ table_index (pos n) >>= λ i. read_allowed host fs1 path size offset i
      ]

unfoldable pub fisopfs_write : Host → Mounted → List ℕ → List ℕ → ℕ → Reply ℤ
fisopfs_write host context path buf offset =
    with_fs eio context λ fs. fs_write_file host fs path buf offset false

unfoldable pub fisopfs_create : Host → Mounted → List ℕ → ℕ → Reply ℤ
fisopfs_create host context path mode = with_fs eio context λ fs. fs_create_file host fs path mode

unfoldable pub fisopfs_unlink : Host → Mounted → List ℕ → Reply ℤ
fisopfs_unlink host context path = with_fs eio context λ fs. fs_delete_file host fs path

-- `strncpy` of what stands behind the last slash, cut off at `name[MAX_FILENAME_LEN - 1]`
unfoldable pub last_name : List ℕ → List ℕ
last_name path = elim (last_slash path (length path)) [
  | negsuc e ↦ take 31 path
  | pos slash ↦ take 31 (drop (slash + 1) path)
]

unfoldable pub fisopfs_mkdir : Host → Mounted → List ℕ → ℕ → Reply ℤ
fisopfs_mkdir host context path mode =
    with_fs eio context λ fs. fs_create_directory host fs path mode (last_name path)

unfoldable pub fisopfs_rmdir : Host → Mounted → List ℕ → Reply ℤ
fisopfs_rmdir host context path = with_fs eio context λ fs. fs_remove_directory host fs path

-- `fisopfs_truncate` for the inode `i` of its path: its loop is that of `fs_delete_file`
unfoldable pub truncate_inode : Host → Filesystem → ℕ → ℕ → Filesystem
truncate_inode host fs i size =
    let emptied = if size == 0 then release_from fs i num_direct_blocks 0 else fs in
    let sized =
      modify_inode emptied i (λ inode. record inode { file_size_bytes = size % 2 ^ 32 }) in
    touch_changed host (touch_modified host sized i) i

-- What `fisopfs_truncate` and `fisopfs_utimens` share.
unfoldable pub on_inode : Host → Filesystem → List ℕ → (Filesystem → ℕ → Filesystem) → Outcome ℤ
on_inode host fs path change = fs_resolve_path host fs path >>= λ (code, fs1). elim code [
  | negsuc e ↦ some (enoent, fs1)
  | pos n ↦ table_index (pos n) >>= λ i. some (pos 0, change fs1 i)
]

unfoldable pub fisopfs_truncate : Host → Mounted → List ℕ → ℕ → Reply ℤ
fisopfs_truncate host context path size =
    with_fs eio context λ fs. on_inode host fs path (λ fs1 i. truncate_inode host fs1 i size)

-- the seconds of `tv[0]` and `tv[1]`
abbrev pub set_times : ℕ → ℕ → Inode → Inode
set_times access modification inode = record inode {
  last_access_time = access;
  last_modification_time = modification;
}

unfoldable pub fisopfs_utimens : Host → Mounted → List ℕ → ℕ → ℕ → Reply ℤ
fisopfs_utimens host context path access modification =
    with_fs eio context
      λ fs. on_inode host fs path (λ fs1 i. modify_inode fs1 i (set_times access modification))

unfoldable pub fisopfs_symlink : Host → Mounted → List ℕ → List ℕ → Reply ℤ
fisopfs_symlink host context target linkpath =
    with_fs eio context λ fs. fs_create_symlink host fs target linkpath

unfoldable pub fisopfs_readlink : Host → Mounted → List ℕ → ℕ → Reply (ℤ × List ℕ)
fisopfs_readlink host context path size =
    with_fs (eio, []) context
      λ fs. fs_read_symlink host fs path size >>= λ ((code, target), fs1).
        some ((if is_neg code then code else pos 0, target), fs1)

unfoldable pub fisopfs_link : Host → Mounted → List ℕ → List ℕ → Reply ℤ
fisopfs_link host context from to = with_fs eio context λ fs. fs_create_hard_link host fs from to

unfoldable pub fisopfs_chmod : Host → Mounted → List ℕ → ℕ → Reply ℤ
fisopfs_chmod host context path mode = with_fs eio context λ fs. fs_change_mode host fs path mode

unfoldable pub fisopfs_chown : Host → Mounted → List ℕ → ℕ → ℕ → Reply ℤ
fisopfs_chown host context path uid gid =
    with_fs eio context λ fs. fs_change_owner host fs path uid gid
