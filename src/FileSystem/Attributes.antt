-- ===== src/FileSystem/Attributes.antt =====
-- The operations of src/filesystem.c that read or set what an inode says of its file:
-- `fs_list_directory`, `fs_statistics`, `fs_read_symlink`, `fs_change_mode`, `fs_change_owner`.
use sistemas_operativos.Prelude.{
  ℕ, ◌+◌, ◌*◌, ◌%◌, ◌^◌, leb, ◌==◌, if◌then◌else◌, Bool, ◌||◌, not, Option, none, some, List, [],
  length, min, bit_and, bit_or, ℤ, pos, negsuc, neg, is_minus_one, dec_mod,
}
use sistemas_operativos.FileSystem.State.{
  block_size, max_path_len, perm_read, perm_write, perm_exec, InodeType, inode_file, inode_dir,
  inode_symlink, Inode, Filesystem, Host,
}
use sistemas_operativos.FileSystem.Inode.{modify_inode, inode_get_direct_block}
use sistemas_operativos.FileSystem.Memory.{read_at}
use sistemas_operativos.FileSystem.Directory.{
  directory_list_entries, is_dir, get_directory_by_inode,
}
use sistemas_operativos.FileSystem.Table.{Outcome, ◌>>=◌, table_index, touch_access, touch_changed}
use sistemas_operativos.FileSystem.Errno.{einval, enoent, eio, enotdir, enametoolong}
use sistemas_operativos.FileSystem.Paths.{fs_resolve_path}

-- The code, with the names that go to `buffer`. An inode number other than -1 is used as it stands.
unfoldable pub fs_list_directory : Host → Filesystem → List ℕ → Outcome (ℤ × List (List ℕ))
fs_list_directory host fs path =
    if length path == 0
    then some ((neg 1, []), fs)
    else if leb max_path_len (length path)
    then some ((enametoolong, []), fs)
    else fs_resolve_path host fs path >>= λ (code, fs1).
        if is_minus_one code
        then some ((enoent, []), fs1)
        else table_index code >>= λ i.
            if is_dir (fs1.inodes i).inode_type
            then elim (get_directory_by_inode (fs1.inodes i)) [
              | none ↦ some ((eio, []), fs1)
              | some dir ↦
                  let (count, names) = directory_list_entries fs1.bytes dir in
                  some ((pos count, names), touch_access host fs1 i)
            ]
            else some ((enotdir, []), fs1)

pub record Stat : Type 0 where
  pub st_uid : ℕ
  pub st_gid : ℕ
  pub st_atime : ℕ
  pub st_mtime : ℕ
  pub st_ctime : ℕ
  pub st_size : ℕ
  pub st_nlink : ℕ
  pub st_mode : ℕ

-- `FS_MODE_DIR`, `FS_MODE_FILE` and `FS_MODE_SYMLINK`
abbrev pub mode_of_type : InodeType → ℕ
mode_of_type inode_file = 0o100000
mode_of_type inode_dir = 0o40000
mode_of_type inode_symlink = 0o120000

unfoldable pub stat_of : Inode → Stat
stat_of inode = record {
  st_uid = inode.owner_user_id;
  st_gid = inode.owner_group_id;
  st_atime = inode.last_access_time;
  st_mtime = inode.last_modification_time;
  st_ctime = inode.last_metadata_change_time;
  st_size = inode.file_size_bytes;
  st_nlink = inode.hard_links_count;
  st_mode = bit_or (mode_of_type inode.inode_type) inode.permission_bits;
}

-- The code, with `*st` where it is filled in.
unfoldable pub fs_statistics : Host → Filesystem → List ℕ → Outcome (ℤ × Option Stat)
fs_statistics host fs path = fs_resolve_path host fs path >>= λ (code, fs1).
    if is_minus_one code
    then some ((enoent, none), fs1)
    else table_index code >>= λ i.
        some ((pos 0, some (stat_of (fs1.inodes i))), touch_access host fs1 i)

-- the link's target, as `fs_read_symlink` copies it
unfoldable pub read_target : Filesystem → Inode → ℕ → ℤ × List ℕ
read_target fs inode size = elim inode.inode_type [
  | inode_file ↦ (einval, [])
  | inode_dir ↦ (einval, [])
  | inode_symlink ↦ elim (inode_get_direct_block inode 0) [
    | negsuc e ↦ (eio, [])
    | pos b ↦ (
      pos 0,
      read_at fs.bytes (b * block_size) (min inode.file_size_bytes (dec_mod (2 ^ 64) size)),
    )
  ]
]

-- The code, with the bytes that go to `buf`, without the NUL behind them. `size - 1` wraps at 0.
unfoldable pub fs_read_symlink : Host → Filesystem → List ℕ → ℕ → Outcome (ℤ × List ℕ)
fs_read_symlink host fs path size = fs_resolve_path host fs path >>= λ (code, fs1). elim code [
  | negsuc n ↦ some ((enoent, []), fs1)
  | pos n ↦ table_index (pos n) >>= λ i. some (read_target fs1 (fs1.inodes i) size, fs1)
]

-- `mode & a || mode & b || mode & c`
abbrev any_bit : ℕ → ℕ → ℕ → ℕ → Bool
any_bit mode a b c =
    not (bit_and mode a == 0) || (not (bit_and mode b == 0) || not (bit_and mode c == 0))

-- The three classes of a mode as one: `S_IRUSR`, `S_IRGRP`, `S_IROTH`, and so on.
unfoldable pub new_perm : ℕ → ℕ
new_perm mode =
    (if any_bit mode 0o400 0o40 0o4 then perm_read else 0)
    + (if any_bit mode 0o200 0o20 0o2 then perm_write else 0)
    + (if any_bit mode 0o100 0o10 0o1 then perm_exec else 0)

-- What `fs_change_mode` and `fs_change_owner` share.
unfoldable pub change_inode : Host → Filesystem → List ℕ → (Inode → Inode) → Outcome ℤ
change_inode host fs path f = fs_resolve_path host fs path >>= λ (code, fs1). elim code [
  | negsuc n ↦ some (enoent, fs1)
  | pos n ↦ table_index (pos n) >>= λ i. some (pos 0, touch_changed host (modify_inode fs1 i f) i)
]

unfoldable pub fs_change_mode : Host → Filesystem → List ℕ → ℕ → Outcome ℤ
fs_change_mode host fs path mode =
    change_inode host fs path (λ inode. record inode { permission_bits = new_perm mode })

unfoldable pub fs_change_owner : Host → Filesystem → List ℕ → ℕ → ℕ → Outcome ℤ
fs_change_owner host fs path uid gid =
    change_inode host fs path
      (λ inode. record inode { owner_user_id = uid % 2 ^ 16; owner_group_id = gid % 2 ^ 16 })
