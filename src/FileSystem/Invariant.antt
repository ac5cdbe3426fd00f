-- ===== src/FileSystem/Invariant.antt =====
-- What an operation of src/filesystem.c keeps true of the counters, the maps and the pointers.
pub mod Ownership
pub mod Steps
pub mod Init
pub mod Loop
pub mod Beyond
pub mod Fresh
pub mod Creation
pub mod Links
pub mod Writing
pub mod Removal
pub mod Total
pub mod TotalWrite
use sistemas_operativos.Prelude.{ℕ, ◌+◌, ◌%◌, ◌^◌, ◌<◌, ◌≡◌, ◌≢◌}
use sistemas_operativos.FileSystem.State.{
  max_inodes, max_blocks, num_direct_blocks, no_block, Filesystem,
}
use sistemas_operativos.FileSystem.Intmap.Counts.{used_inodes, used_blocks}

-- the block in slot `s` of the inode `i`
abbrev pub pointers : Filesystem → ℕ → ℕ → ℕ
pointers fs i s = (fs.inodes i).direct_block_ptrs s

-- Each slot that holds a block holds one of the disk's, which is marked, and no two slots of the
-- table hold the same.
pub record Owned (P : ℕ → ℕ → ℕ) (B : ℕ → ℕ) : Type 0 where
  pub on_disk :
      (i s : ℕ) → i < max_inodes → s < num_direct_blocks → P i s ≢ no_block → P i s < max_blocks
  pub marked : (i s : ℕ) → i < max_inodes → s < num_direct_blocks → P i s ≢ no_block → B (P i s) ≢ 0
  pub unshared :
      (i s j t : ℕ)
      → i < max_inodes
      → s < num_direct_blocks
      → j < max_inodes
      → t < num_direct_blocks
      → P i s ≢ no_block
      → P i s ≡ P j t
      → (i ≡ j) × (s ≡ t)

-- The counters agree with the maps, but for `lost` blocks that are free and not counted as free.
-- (The counter of blocks is a 32-bit word, which may wrap when blocks are lost.)
pub record Balanced (lost : ℕ) (fs : Filesystem) : Type 0 where
  pub inodes_counted : fs.superblock.free_inodes_count + used_inodes fs.intmap ≡ max_inodes
  pub blocks_counted :
      (fs.superblock.free_blocks_count + used_blocks fs.intmap + lost) % 2 ^ 32 ≡ max_blocks
  pub owned : Owned (pointers fs) fs.intmap.blocks
