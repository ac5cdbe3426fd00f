-- ===== src/FileSystem/Remove.antt =====
-- `fs_delete_file` and `fs_remove_directory` of src/filesystem.c. No pointer is null here.
use sistemas_operativos.Prelude.{
  ℕ, zero, suc, ◌+◌, ◌*◌, leb, ltb, ◌==◌, if◌then◌else◌, none, some, List, length, replicate,
  update, ℤ, pos, negsuc, neg, is_neg, is_zero, is_minus_one,
}
use sistemas_operativos.FileSystem.State.{
  block_size, max_path_len, num_direct_blocks, no_block, Filesystem, Host,
}
use sistemas_operativos.FileSystem.Intmap.{clear_inode_used, clear_block_used}
use sistemas_operativos.FileSystem.Inode.{
  inode_init, modify_inode, inode_decrement_links, inode_get_direct_block, inode_free,
}
use sistemas_operativos.FileSystem.Memory.{write_at}
use sistemas_operativos.FileSystem.Directory.{
  directory_lookup, directory_remove_entry, entry_count, is_dir, get_directory_by_inode,
}
use sistemas_operativos.FileSystem.Table.{
  Outcome, ◌>>=◌, table_index, set_bytes, inc_free_inodes, inc_free_blocks, touch_modified,
  touch_changed,
}
use sistemas_operativos.FileSystem.Errno.{enoent, eio, enotdir, eisdir, enametoolong, enotempty}
use sistemas_operativos.FileSystem.Paths.{failed, parent, fs_resolve_path, fs_resolve_parent}

-- One round of the loop of `fs_delete_file`: the block of the slot is unmarked, wiped and counted.
unfoldable pub release_slot : Filesystem → ℕ → ℕ → Filesystem
release_slot fs i slot = elim (inode_get_direct_block (fs.inodes i) slot) [
  | negsuc e ↦ fs
  | pos b ↦
      modify_inode
        (inc_free_blocks (record fs {
          intmap = clear_block_used fs.intmap b;
          bytes = write_at fs.bytes (b * block_size) (replicate block_size 0);
        }))
        i
        (λ inode. record inode { direct_block_ptrs = update inode.direct_block_ptrs slot no_block })
]

-- `for (i = 0; i < NUM_DIRECT_BLOCKS; i++)`, at `slot` with `left` slots to go
unfoldable pub release_from : Filesystem → ℕ → ℕ → ℕ → Filesystem
release_from fs i zero slot = fs
release_from fs i (suc left) slot = release_from (release_slot fs i slot) i left (slot + 1)

-- the inode and its blocks, when no link is left
unfoldable pub release_inode : Host → Filesystem → ℕ → Filesystem
release_inode host fs i =
    let fs1 = release_from fs i num_direct_blocks 0 in
    inc_free_inodes (
      modify_inode (record fs1 { intmap = clear_inode_used fs1.intmap i }) i (λ _. inode_init host))

-- one link less; with the last one the inode goes
unfoldable pub drop_link : Host → Filesystem → ℕ → Filesystem
drop_link host fs i =
    let fs1 = modify_inode fs i inode_decrement_links in
    if (fs1.inodes i).hard_links_count == 0 then release_inode host fs1 i else fs1

-- `fs_delete_file` from `directory_remove_entry` on
unfoldable pub unlink : Host → Filesystem → ℕ → List ℕ → ℕ → ℤ × Filesystem
unlink host fs dir name i =
    let (removed, bytes) = directory_remove_entry fs.bytes dir name in
    let fs1 = drop_link host (set_bytes fs bytes) i in
    let root = fs1.superblock.root_inode_number in
    if is_zero removed
    then (pos 0, touch_changed host (touch_modified host fs1 root) root)
    else (eio, set_bytes fs bytes)

unfoldable pub fs_delete_file : Host → Filesystem → List ℕ → Outcome ℤ
fs_delete_file host fs path = fs_resolve_parent host fs path >>= λ (found, fs1). elim found [
  | failed code ↦ some (neg 1, fs1)
  | parent p name ↦ elim (get_directory_by_inode (fs1.inodes p)) [
    | none ↦ some (neg 1, fs1)
    | some dir ↦ elim (directory_lookup fs1.bytes dir name) [
      | negsuc n ↦ some (enoent, fs1)
      | pos n ↦ table_index (pos n) >>= λ i.
          if is_dir (fs1.inodes i).inode_type
          then some (eisdir, fs1)
          else some (unlink host fs1 dir name i)
    ]
  ]
]

-- `fs_remove_directory` from `directory_remove_entry` on: `p` is the parent, `dir` its directory
unfoldable pub remove_child : Host → Filesystem → ℕ → ℕ → List ℕ → ℕ → ℤ × Filesystem
remove_child host fs p dir name i =
    let (removed, bytes) = directory_remove_entry fs.bytes dir name in
    let fs1 = inode_free host (set_bytes fs bytes) (pos i) in
    let fs2 = touch_modified host (touch_changed host (touch_changed host fs1 i) p) p in
    if is_neg removed then (eio, set_bytes fs bytes) else (pos 0, inc_free_inodes fs2)

-- `fs_remove_directory` for the inode `i` that its path leads to
unfoldable pub remove_empty : Host → Filesystem → List ℕ → ℕ → Outcome ℤ
remove_empty host fs path i =
    if is_dir (fs.inodes i).inode_type
    then elim (get_directory_by_inode (fs.inodes i)) [
      | none ↦ some (eio, fs)
      | some own ↦
          if ltb 2 (entry_count fs.bytes own)
          then some (enotempty, fs)
          else fs_resolve_parent host fs path >>= λ (found, fs1). elim found [
            | failed code ↦ some (eio, fs1)
            | parent p name ↦ elim (get_directory_by_inode (fs1.inodes p)) [
              | none ↦ some (eio, fs1)
              | some dir ↦ some (remove_child host fs1 p dir name i)
            ]
          ]
    ]
    else some (enotdir, fs)

-- An inode number other than -1 is used as it stands: a path that is too deep gives -36.
unfoldable pub fs_remove_directory : Host → Filesystem → List ℕ → Outcome ℤ
fs_remove_directory host fs path =
    if length path == 0
    then some (neg 1, fs)
    else if leb max_path_len (length path)
    then some (enametoolong, fs)
    else fs_resolve_path host fs path >>= λ (code, fs1).
        if is_minus_one code
        then some (enoent, fs1)
        else table_index code >>= λ i. remove_empty host fs1 path i
