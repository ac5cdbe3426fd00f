-- ===== src/FileSystem/Intmap/Counts.antt =====
-- How the updates of src/intmap.c change the numbers of used inodes and blocks.
use sistemas_operativos.Prelude.{
  ℕ, ◌+◌, ◌<◌, ◌≡◌, ◌≢◌, arith, count_used, count_used-set, count_used-clear,
}
use sistemas_operativos.FileSystem.State.{Intmap, max_inodes, max_blocks}
use sistemas_operativos.FileSystem.Intmap.{
  set_inode_used, clear_inode_used, set_block_used, clear_block_used,
}

abbrev pub used_inodes : Intmap → ℕ
used_inodes bm = count_used max_inodes bm.inodes

abbrev pub used_blocks : Intmap → ℕ
used_blocks bm = count_used max_blocks bm.blocks

module _ (bm : Intmap) (i : ℕ) where
  pub set_inode_used-counts :
      i < max_inodes → bm.inodes i ≡ 0 → used_inodes (set_inode_used bm i) ≡ used_inodes bm + 1
  unfolding set_inode_used
  set_inode_used-counts h e = ground (arith, count_used-set max_inodes bm.inodes i h e)

  pub clear_inode_used-counts :
      i < max_inodes → bm.inodes i ≢ 0 → used_inodes (clear_inode_used bm i) + 1 ≡ used_inodes bm
  unfolding clear_inode_used
  clear_inode_used-counts h e = ground (arith, count_used-clear max_inodes bm.inodes i h e)

  pub set_block_used-counts :
      i < max_blocks → bm.blocks i ≡ 0 → used_blocks (set_block_used bm i) ≡ used_blocks bm + 1
  unfolding set_block_used
  set_block_used-counts h e = ground (arith, count_used-set max_blocks bm.blocks i h e)

  pub clear_block_used-counts :
      i < max_blocks → bm.blocks i ≢ 0 → used_blocks (clear_block_used bm i) + 1 ≡ used_blocks bm
  unfolding clear_block_used
  clear_block_used-counts h e = ground (arith, count_used-clear max_blocks bm.blocks i h e)

  pub set_inode_used-blocks : (set_inode_used bm i).blocks ≡ bm.blocks
  unfolding set_inode_used
  set_inode_used-blocks = ground arith

  pub clear_inode_used-blocks : (clear_inode_used bm i).blocks ≡ bm.blocks
  unfolding clear_inode_used
  clear_inode_used-blocks = ground arith

  pub set_block_used-inodes : (set_block_used bm i).inodes ≡ bm.inodes
  unfolding set_block_used
  set_block_used-inodes = ground arith

  pub clear_block_used-inodes : (clear_block_used bm i).inodes ≡ bm.inodes
  unfolding clear_block_used
  clear_block_used-inodes = ground arith
