-- ===== src/FileSystem/State.antt =====
-- The constants of config.h and the structures of inode.h, intmap.h, superblock.h and
-- filesystem.h. A fixed C array is a function of its index; `fs->data_block` is one region of
-- bytes, block `b` at the addresses from `b * block_size` on.
use sistemas_operativos.Prelude.{ℕ, ◌-◌, ◌^◌}

abbrev pub max_inodes : ℕ
max_inodes = 128

abbrev pub max_blocks : ℕ
max_blocks = 1024

abbrev pub block_size : ℕ
block_size = 4096

abbrev pub max_filename_len : ℕ
max_filename_len = 32

abbrev pub max_path_len : ℕ
max_path_len = 256

abbrev pub max_dir_depth : ℕ
max_dir_depth = 16

abbrev pub num_direct_blocks : ℕ
num_direct_blocks = 12

abbrev pub perm_read : ℕ
perm_read = 4

abbrev pub perm_write : ℕ
perm_write = 2

abbrev pub perm_exec : ℕ
perm_exec = 1

-- `PERM_READ | PERM_WRITE | PERM_EXEC`
abbrev pub perm_rwx : ℕ
perm_rwx = 7

-- `(uint32_t) -1`, the pointer of a slot that holds no block
abbrev pub no_block : ℕ
no_block = 2 ^ 32 - 1

pub data InodeType : Type 0 where
  inode_file inode_dir inode_symlink : InodeType

pub InodeType-discrete : Discrete InodeType
InodeType-discrete = hlevel

pub record Inode : Type 0 where
  pub file_size_bytes : ℕ
  pub owner_user_id : ℕ
  pub owner_group_id : ℕ
  pub permission_bits : ℕ
  pub last_access_time : ℕ
  pub last_modification_time : ℕ
  pub last_metadata_change_time : ℕ
  pub hard_links_count : ℕ
  pub direct_block_ptrs : ℕ → ℕ
  pub inode_type : InodeType

pub record Intmap : Type 0 where
  pub inodes : ℕ → ℕ
  pub blocks : ℕ → ℕ

pub record Superblock : Type 0 where
  pub total_inodes : ℕ
  pub total_blocks : ℕ
  pub free_inodes_count : ℕ
  pub free_blocks_count : ℕ
  pub block_size_bytes : ℕ
  pub max_file_size_bytes : ℕ
  pub max_filename_length : ℕ
  pub max_path_length : ℕ
  pub root_inode_number : ℕ

pub record Filesystem : Type 0 where
  pub inodes : ℕ → Inode
  pub intmap : Intmap
  pub superblock : Superblock
  pub bytes : ℕ → ℕ

-- What the process and the clock answer to `getuid`, `getgid` and `time` during one call.
pub record Host : Type 0 where
  pub uid : ℕ
  pub gid : ℕ
  pub now : ℕ
