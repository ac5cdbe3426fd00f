-- ===== src/FileSystem/Intmap.antt =====
-- src/intmap.c: which inodes and which blocks are in use. The pointer `bm` is never null here.
pub mod Search
pub mod Counts
use sistemas_operativos.Prelude.{
  ℕ, zero, suc, ◌+◌, leb, ltb, ◌==◌, if◌then◌else◌, update, ℤ, pos, neg, is_zero, Bool, true, false,
}
use sistemas_operativos.FileSystem.State.{Intmap, max_inodes, max_blocks}

-- `for (i = 0; i < MAX; i++) cells[i] = 0`, at cell `i` with `left` cells to go
unfoldable pub clear_from : ℕ → ℕ → (ℕ → ℕ) → ℕ → ℕ
clear_from zero i cells = cells
clear_from (suc left) i cells = clear_from left (i + 1) (update cells i 0)

unfoldable pub intmap_init : Intmap → Intmap
intmap_init bm = record {
  inodes = clear_from max_inodes 0 bm.inodes;
  blocks = clear_from max_blocks 0 bm.blocks;
}

unfoldable pub is_inode_used : Intmap → ℕ → ℤ
is_inode_used bm index =
    if leb max_inodes index then neg 1 else if bm.inodes index == 0 then pos 0 else pos 1

unfoldable pub set_inode_used : Intmap → ℕ → Intmap
set_inode_used bm index =
    if leb max_inodes index then bm else record bm { inodes = update bm.inodes index 1 }

unfoldable pub clear_inode_used : Intmap → ℕ → Intmap
clear_inode_used bm index =
    if leb max_inodes index then bm else record bm { inodes = update bm.inodes index 0 }

-- The loop runs over `i`, with the result and the flag as the code keeps them.
unfoldable pub find_free_inode_from : Intmap → ℕ → ℕ → ℤ → Bool → ℤ
unfolding is_inode_used
find_free_inode_from bm zero i index found = index
find_free_inode_from bm (suc left) i index true = index
find_free_inode_from bm (suc left) i index false =
    if is_zero (is_inode_used bm i)
    then find_free_inode_from bm left (i + 1) (pos i) true
    else find_free_inode_from bm left (i + 1) index false

unfoldable pub find_free_inode : Intmap → ℤ
find_free_inode bm = find_free_inode_from bm 127 1 (neg 1) false

unfoldable pub is_block_used : Intmap → ℕ → ℤ
is_block_used bm index =
    if leb max_blocks index then neg 1 else if bm.blocks index == 0 then pos 0 else pos 1

unfoldable pub set_block_used : Intmap → ℕ → Intmap
set_block_used bm index =
    if leb max_blocks index then bm else record bm { blocks = update bm.blocks index 1 }

unfoldable pub clear_block_used : Intmap → ℕ → Intmap
clear_block_used bm index =
    if leb max_blocks index then bm else record bm { blocks = update bm.blocks index 0 }

-- `for (i = 0; i < MAX_BLOCKS; i++)`, at block `i` with `left` blocks to go
unfoldable pub find_free_block_from : Intmap → ℕ → ℕ → ℤ
unfolding is_block_used
find_free_block_from bm zero i = neg 1
find_free_block_from bm (suc left) i =
    let rest = find_free_block_from bm left (i + 1) in
    if is_zero (is_block_used bm i) then pos i else rest

unfoldable pub find_free_block : Intmap → ℤ
find_free_block bm = find_free_block_from bm max_blocks 0
