-- ===== src/FileSystem/Inode.antt =====
-- src/inode.c. A pointer to an inode of the table is its index; no pointer is null here. The
-- operations that touch only the inode are functions of the inode.
pub mod Free
pub mod Blocks
use sistemas_operativos.Prelude.{
  ℕ, zero, suc, ◌+◌, ◌-◌, ◌%◌, ◌^◌, leb, ◌==◌, if◌then◌else◌, ◌||◌, update, inc_mod, dec_mod, ℤ,
  pos, negsuc, neg, is_neg, is_zero, to_int,
}
use sistemas_operativos.FileSystem.State.{
  max_inodes, max_blocks, num_direct_blocks, no_block, perm_read, Inode, inode_file, Intmap,
  Filesystem, Host,
}
use sistemas_operativos.FileSystem.Intmap.{
  is_inode_used, set_inode_used, clear_inode_used, set_block_used, clear_block_used,
}

-- All fields are written, so nothing of the old inode is left.
unfoldable pub inode_init : Host → Inode
inode_init host = record {
  file_size_bytes = 0;
  owner_user_id = host.uid % 2 ^ 16;
  owner_group_id = host.gid % 2 ^ 16;
  permission_bits = perm_read;
  last_access_time = host.now;
  last_modification_time = host.now;
  last_metadata_change_time = host.now;
  hard_links_count = 1;
  direct_block_ptrs = λ _. no_block;
  inode_type = inode_file;
}

-- `fs->inodes[i] = f(fs->inodes[i])`
unfoldable pub modify_inode : Filesystem → ℕ → (Inode → Inode) → Filesystem
modify_inode fs i f = record fs { inodes = update fs.inodes i (f (fs.inodes i)) }

-- the inode's slot in the map is set, and the inode initialised
unfoldable pub take_inode : Host → Filesystem → ℕ → Filesystem
unfolding modify_inode
take_inode host fs i =
    modify_inode (record fs { intmap = set_inode_used fs.intmap i }) i (λ _. inode_init host)

-- `for (i = 0; i < MAX_INODES; i++)`, at inode `i` with `left` inodes to go
unfoldable pub allocate_inode_from : Host → Filesystem → ℕ → ℕ → ℤ × Filesystem
allocate_inode_from host fs zero i = (neg 1, fs)
allocate_inode_from host fs (suc left) i =
    let rest = allocate_inode_from host fs left (i + 1) in
    if is_zero (is_inode_used fs.intmap i) then (pos i, take_inode host fs i) else rest

unfoldable pub allocate_inode : Host → Filesystem → ℤ × Filesystem
allocate_inode host fs = allocate_inode_from host fs max_inodes 0

unfoldable pub inode_update_atime : Host → Inode → Inode
inode_update_atime host inode = record inode { last_access_time = host.now }

unfoldable pub inode_update_mtime : Host → Inode → Inode
inode_update_mtime host inode = record inode { last_modification_time = host.now }

unfoldable pub inode_update_ctime : Host → Inode → Inode
inode_update_ctime host inode = record inode { last_metadata_change_time = host.now }

unfoldable pub inode_increment_links : Inode → Inode
inode_increment_links inode = record inode {
  hard_links_count = inc_mod (2 ^ 16) inode.hard_links_count;
}

unfoldable pub inode_decrement_links : Inode → Inode
inode_decrement_links inode = record inode {
  hard_links_count = dec_mod (2 ^ 16) inode.hard_links_count;
}

-- slot `slot` of the inode `i` holds `block`, which is marked
unfoldable pub put_block : Filesystem → ℕ → ℕ → ℕ → Filesystem
unfolding modify_inode
put_block fs i slot block =
    modify_inode (record fs { intmap = set_block_used fs.intmap block }) i
      (λ inode. record inode { direct_block_ptrs = update inode.direct_block_ptrs slot block })

-- `for (i = 0; i < NUM_DIRECT_BLOCKS; i++)`, at `slot` with `left` slots to go
unfoldable pub add_direct_block_from : Filesystem → ℕ → ℕ → ℕ → ℕ → ℤ × Filesystem
add_direct_block_from fs i block zero slot = (neg 1, fs)
add_direct_block_from fs i block (suc left) slot =
    let rest = add_direct_block_from fs i block left (slot + 1) in
    if (fs.inodes i).direct_block_ptrs slot == no_block
    then (pos 0, put_block fs i slot block)
    else rest

unfoldable pub inode_add_direct_block : Filesystem → ℕ → ℕ → ℤ × Filesystem
inode_add_direct_block fs i block =
    if leb max_blocks block
    then (neg 1, fs)
    else add_direct_block_from fs i block num_direct_blocks 0

-- No caller passes a negative index.
unfoldable pub inode_get_direct_block : Inode → ℕ → ℤ
inode_get_direct_block inode index =
    if leb num_direct_blocks index
    then neg 1
    else if inode.direct_block_ptrs index == no_block
    then neg 1
    else to_int (inode.direct_block_ptrs index)

-- One round of the loop of `inode_free`, for a slot that holds `block`.
unfoldable pub free_slot : Intmap → ℕ → Intmap
free_slot bm block = if block == no_block then bm else clear_block_used bm block

-- The loop of `inode_free`: the map and the pointers, at `slot` with `left` slots to go.
unfoldable pub free_slots : Intmap → (ℕ → ℕ) → ℕ → ℕ → Intmap
free_slots bm ptrs zero slot = bm
free_slots bm ptrs (suc left) slot = free_slots (free_slot bm (ptrs slot)) ptrs left (slot + 1)

-- The pointers are reset in the loop and, with the rest of the inode, by `inode_init` after it.
unfoldable pub inode_free : Host → Filesystem → ℤ → Filesystem
unfolding modify_inode
inode_free host fs (negsuc n) = fs
inode_free host fs (pos i) =
    if leb max_inodes i
    then fs
    else let freed = free_slots fs.intmap (fs.inodes i).direct_block_ptrs num_direct_blocks 0 in
      modify_inode (record fs { intmap = clear_inode_used freed i }) i (λ _. inode_init host)
