-- ===== src/FileSystem/Table.antt =====
-- The updates that the operations of src/filesystem.c share, and access to the table of inodes.
pub mod Holds
pub mod Returns
pub use sistemas_operativos.Prelude.{◌>>=◌}
use sistemas_operativos.Prelude.{
  ℕ, ltb, if◌then◌else◌, Option, none, some, ℤ, pos, negsuc, inc_mod, dec_mod, ◌^◌,
}
use sistemas_operativos.FileSystem.State.{max_inodes, Inode, Superblock, Filesystem, Host}
use sistemas_operativos.FileSystem.Inode.{
  modify_inode, inode_update_atime, inode_update_mtime, inode_update_ctime,
}
use sistemas_operativos.FileSystem.Memory.{Bytes}

-- An operation returns its code and the new file system. `none` is an access outside the table of
-- inodes, of which C says nothing.
abbrev pub Outcome : Type 0 → Type 0
Outcome A = Option (A × Filesystem)

-- `fs->inodes[n]` for an `int` n: its index, if it lies in the table
unfoldable pub table_index : ℤ → Option ℕ
table_index (pos n) = if ltb n max_inodes then some n else none
table_index (negsuc n) = none

abbrev pub set_bytes : Filesystem → Bytes → Filesystem
set_bytes fs m = record fs { bytes = m }

-- `free_inodes_count++` and `--`, `free_blocks_count++` and `--`
unfoldable pub inc_free_inodes : Filesystem → Filesystem
inc_free_inodes fs = record fs {
  superblock = record (fs.superblock) {
    free_inodes_count = inc_mod (2 ^ 32) fs.superblock.free_inodes_count;
  };
}

unfoldable pub dec_free_inodes : Filesystem → Filesystem
dec_free_inodes fs = record fs {
  superblock = record (fs.superblock) {
    free_inodes_count = dec_mod (2 ^ 32) fs.superblock.free_inodes_count;
  };
}

unfoldable pub inc_free_blocks : Filesystem → Filesystem
inc_free_blocks fs = record fs {
  superblock = record (fs.superblock) {
    free_blocks_count = inc_mod (2 ^ 32) fs.superblock.free_blocks_count;
  };
}

unfoldable pub dec_free_blocks : Filesystem → Filesystem
dec_free_blocks fs = record fs {
  superblock = record (fs.superblock) {
    free_blocks_count = dec_mod (2 ^ 32) fs.superblock.free_blocks_count;
  };
}

-- the timestamps of the inode `i`
unfoldable pub touch_access : Host → Filesystem → ℕ → Filesystem
unfolding modify_inode inode_update_atime
touch_access host fs i = modify_inode fs i (inode_update_atime host)

unfoldable pub touch_modified : Host → Filesystem → ℕ → Filesystem
unfolding modify_inode inode_update_mtime
touch_modified host fs i = modify_inode fs i (inode_update_mtime host)

unfoldable pub touch_changed : Host → Filesystem → ℕ → Filesystem
unfolding modify_inode inode_update_ctime
touch_changed host fs i = modify_inode fs i (inode_update_ctime host)
