-- ===== src/FileSystem/Create.antt =====
-- `fs_init`, and the operations of src/filesystem.c that make entries: `fs_create_file`,
-- `fs_create_directory`, `fs_create_symlink` and `fs_create_hard_link`. The part of each that
-- follows the checks of the path is a function of its own.
use sistemas_operativos.Prelude.{
  ℕ, zero, suc, ◌+◌, ◌-◌, ◌*◌, ◌%◌, ◌^◌, leb, ◌==◌, if◌then◌else◌, none, some, List, [], ◌∷◌,
  length, replicate, update, ℤ, pos, negsuc, neg, is_neg, is_zero,
}
use sistemas_operativos.FileSystem.State.{
  max_inodes, max_blocks, block_size, max_path_len, max_filename_len, num_direct_blocks, no_block,
  perm_rwx, inode_file, inode_dir, inode_symlink, Inode, Superblock, Filesystem, Host,
}
use sistemas_operativos.FileSystem.Intmap.{
  intmap_init, set_inode_used, set_block_used, clear_block_used, find_free_block,
}
use sistemas_operativos.FileSystem.Inode.{
  inode_init, modify_inode, allocate_inode, inode_increment_links, inode_add_direct_block,
  inode_free,
}
use sistemas_operativos.FileSystem.Memory.{Bytes, write_at}
use sistemas_operativos.FileSystem.Directory.{
  directory_size, directory_init, directory_lookup, directory_add_entry, is_dir,
  get_directory_by_inode,
}
use sistemas_operativos.FileSystem.Table.{
  Outcome, ◌>>=◌, table_index, set_bytes, inc_free_inodes, dec_free_inodes, inc_free_blocks,
  dec_free_blocks,
}
use sistemas_operativos.FileSystem.Errno.{eperm, enoent, eio, eexist, enotdir, enospc, enametoolong}
use sistemas_operativos.FileSystem.Paths.{failed, parent, fs_resolve_path, fs_resolve_parent}

-- `for (i = 0; i < MAX_INODES; i++) inode_init(&fs->inodes[i])`, with `left` inodes to go
unfoldable pub init_inodes : Host → ℕ → ℕ → (ℕ → Inode) → ℕ → Inode
init_inodes host zero i inodes = inodes
init_inodes host (suc left) i inodes =
    init_inodes host left (i + 1) (update inodes i (inode_init host))

abbrev pub root_inode : Host → Inode
root_inode host = record {
  file_size_bytes = directory_size;
  owner_user_id = 0;
  owner_group_id = 0;
  permission_bits = perm_rwx;
  last_access_time = host.now;
  last_modification_time = host.now;
  last_metadata_change_time = host.now;
  hard_links_count = (inode_init host).hard_links_count;
  direct_block_ptrs = update (λ _. no_block) 0 0;
  inode_type = inode_dir;
}

abbrev pub new_superblock : Superblock
new_superblock = record {
  total_inodes = max_inodes;
  total_blocks = max_blocks;
  free_inodes_count = max_inodes - 1;
  free_blocks_count = max_blocks - 1;
  block_size_bytes = block_size;
  max_file_size_bytes = num_direct_blocks * block_size;
  max_filename_length = max_filename_len;
  max_path_length = max_path_len;
  root_inode_number = 0;
}

unfoldable pub fs_init : Host → Filesystem → Filesystem
fs_init host fs = record {
  inodes = update (init_inodes host max_inodes 0 fs.inodes) 0 (root_inode host);
  intmap = set_inode_used (set_block_used (intmap_init fs.intmap) 0) 0;
  superblock = new_superblock;
  bytes = directory_init fs.bytes 0;
}

-- `inode_free(fs, i)` and `free_inodes_count++`, the way out of a failed creation
unfoldable pub give_back : Host → Filesystem → ℕ → Filesystem
unfolding inc_free_inodes
give_back host fs i = inc_free_inodes (inode_free host fs (pos i))

abbrev pub new_file : Host → ℕ → Inode
new_file host mode = record (inode_init host) {
  inode_type = inode_file;
  owner_user_id = host.uid % 2 ^ 16;
  owner_group_id = host.gid % 2 ^ 16;
  permission_bits = mode % 2 ^ 16;
}

-- A free block for the inode `i`: its number, or -1 when there is none, or no slot for it.
unfoldable pub grow_by : Filesystem → ℕ → ℤ → ℤ × Filesystem
grow_by fs i (negsuc n) = (neg 1, fs)
grow_by fs i (pos b) =
    let (added, fs1) = inode_add_direct_block fs i b in (if is_neg added then added else pos b, fs1)

unfoldable pub grow : Filesystem → ℕ → ℤ × Filesystem
unfolding grow_by
grow fs i = grow_by fs i (find_free_block fs.intmap)

-- the entry for the inode `i`, or all of it undone with the code `failure`
unfoldable pub enter : Host → Filesystem → ℕ → List ℕ → ℕ → ℤ → ℤ × Filesystem
enter host fs dir name i failure =
    let (entered, bytes) = directory_add_entry fs.bytes dir name i in
    let fs1 = set_bytes fs bytes in
    if is_zero entered then (pos 0, fs1) else (failure, inc_free_blocks (give_back host fs1 i))

-- The rest of a creation, given the block that `grow` found for the inode `i`.
unfoldable pub enter_grown : Host → ℕ → List ℕ → ℕ → ℤ × Filesystem → ℤ × Filesystem
enter_grown host dir name i (negsuc n, fs) = (enospc, give_back host fs i)
enter_grown host dir name i (pos b, fs) = enter host (dec_free_blocks fs) dir name i (neg 1)

-- The rest of `fs_create_file`, given the inode that `allocate_inode` found.
unfoldable pub file_with : Host → ℕ → ℕ → List ℕ → ℤ × Filesystem → ℤ × Filesystem
file_with host mode dir name (negsuc n, fs) = (enospc, fs)
file_with host mode dir name (pos i, fs) =
    enter_grown host dir name i
      (grow (modify_inode (dec_free_inodes fs) i (λ _. new_file host mode)) i)

-- `fs_create_file` from `allocate_inode` on
unfoldable pub make_file : Host → Filesystem → ℕ → ℕ → List ℕ → ℤ × Filesystem
make_file host fs mode dir name = file_with host mode dir name (allocate_inode host fs)

-- The checks of `fs_create_file` and `fs_create_directory`, with what follows them.
unfoldable pub in_parent :
    Host → Filesystem → List ℕ → (Filesystem → ℕ → ℕ → List ℕ → ℤ × Filesystem) → Outcome ℤ
in_parent host fs path make =
    if length path == 0
    then some (neg 1, fs)
    else if leb max_path_len (length path)
    then some (enametoolong, fs)
    else fs_resolve_parent host fs path >>= λ (found, fs1). elim found [
      | failed code ↦ some (neg 1, fs1)
      | parent p name ↦ elim (get_directory_by_inode (fs1.inodes p)) [
        | none ↦ some (neg 1, fs1)
        | some dir ↦
            if is_neg (directory_lookup fs1.bytes dir name)
            then some (make fs1 p dir name)
            else some (eexist, fs1)
      ]
    ]

unfoldable pub fs_create_file : Host → Filesystem → List ℕ → ℕ → Outcome ℤ
fs_create_file host fs path mode =
    in_parent host fs path (λ fs1 p dir name. make_file host fs1 mode dir name)

abbrev pub new_directory : Host → ℕ → Inode
new_directory host mode = record (inode_increment_links (inode_init host)) {
  inode_type = inode_dir;
  permission_bits = mode % 2 ^ 16;
  file_size_bytes = directory_size;
}

-- `.` and `..` as `fs_create_directory` writes them, the results of the two additions unread
unfoldable pub fill_directory : Bytes → ℕ → ℕ → ℕ → Bytes
fill_directory m dir i p =
    let m1 = directory_init m dir in
    let m2 = (directory_add_entry m1 dir (b'.' ∷ []) i).1 in
    (directory_add_entry m2 dir (b'.' ∷ b'.' ∷ []) p).1

-- The new directory in the block `b`, its entry in the parent's, and the parent's new link.
unfoldable pub place_directory : Host → Filesystem → ℕ → ℕ → List ℕ → ℕ → ℕ → ℤ × Filesystem
place_directory host fs p dir entry i b =
    let m = fill_directory fs.bytes (b * block_size) i p in
    let (entered, bytes) = directory_add_entry m dir entry i in
    let fs1 = set_bytes fs bytes in
    if is_zero entered then (pos 0, modify_inode fs1 p inode_increment_links) else (
      eio,
      let back = inode_free host fs1 (pos i) in
          inc_free_blocks
            (inc_free_inodes (record back { intmap = clear_block_used back.intmap b })),
    )

-- The rest of `fs_create_directory`, given the free block, and given what `inode_add_direct_block`
-- did with it.
unfoldable pub directory_added : Host → ℕ → ℕ → List ℕ → ℕ → ℕ → ℤ × Filesystem → ℤ × Filesystem
directory_added host p dir entry i b (pos n, fs) =
    place_directory host (dec_free_blocks fs) p dir entry i b
directory_added host p dir entry i b (negsuc n, fs) =
    let back = inode_free host fs (pos i) in
    (enospc, inc_free_inodes (record back { intmap = clear_block_used back.intmap b }))

unfoldable pub directory_in : Host → ℕ → ℕ → List ℕ → ℕ → Filesystem → ℤ → ℤ × Filesystem
directory_in host p dir entry i fs (negsuc n) = (enospc, give_back host fs i)
directory_in host p dir entry i fs (pos b) =
    directory_added host p dir entry i b (inode_add_direct_block fs i b)

-- The rest of it, given the inode that `allocate_inode` found.
unfoldable pub directory_with : Host → ℕ → ℕ → ℕ → List ℕ → ℤ × Filesystem → ℤ × Filesystem
directory_with host mode p dir entry (negsuc n, fs) = (enospc, fs)
directory_with host mode p dir entry (pos i, fs) =
    let fs1 = modify_inode (dec_free_inodes fs) i (λ _. new_directory host mode) in
    directory_in host p dir entry i fs1 (find_free_block fs1.intmap)

-- `fs_create_directory` from `allocate_inode` on: `p` is the parent, `entry` the parameter `name`
unfoldable pub make_directory : Host → Filesystem → ℕ → ℕ → ℕ → List ℕ → ℤ × Filesystem
make_directory host fs mode p dir entry =
    directory_with host mode p dir entry (allocate_inode host fs)

unfoldable pub fs_create_directory : Host → Filesystem → List ℕ → ℕ → List ℕ → Outcome ℤ
fs_create_directory host fs path mode entry =
    in_parent host fs path (λ fs1 p dir name. make_directory host fs1 mode p dir entry)

abbrev pub new_symlink : Host → Inode → Inode
new_symlink host inode = record inode {
  inode_type = inode_symlink;
  owner_user_id = host.uid % 2 ^ 16;
  owner_group_id = host.gid % 2 ^ 16;
  permission_bits = perm_rwx;
  hard_links_count = 1;
}

-- `memset(data, 0, BLOCK_SIZE); memcpy(data, target, len)`
unfoldable pub write_target : Bytes → ℕ → List ℕ → Bytes
write_target m b target =
    write_at (write_at m (b * block_size) (replicate block_size 0)) (b * block_size) target

-- The rest of `fs_create_symlink`, given the block that `grow` found for the inode `i`.
unfoldable pub symlink_grown : Host → List ℕ → ℕ → List ℕ → ℕ → ℤ × Filesystem → ℤ × Filesystem
symlink_grown host target dir name i (negsuc n, fs) = (enospc, give_back host fs i)
symlink_grown host target dir name i (pos b, fs) =
    let fs1 = dec_free_blocks fs in
    enter host (set_bytes fs1 (write_target fs1.bytes b target)) dir name i enospc

-- The rest of it, given the inode that `allocate_inode` found.
unfoldable pub symlink_with : Host → List ℕ → ℕ → List ℕ → ℤ × Filesystem → ℤ × Filesystem
symlink_with host target dir name (negsuc n, fs) = (enospc, fs)
symlink_with host target dir name (pos i, fs) =
    let fs1 = modify_inode (dec_free_inodes fs) i (new_symlink host) in
    let fs2 =
      modify_inode fs1 i (λ inode. record inode { file_size_bytes = length target % 2 ^ 32 }) in
    if leb fs1.superblock.max_file_size_bytes (length target)
    then (enametoolong, give_back host fs1 i)
    else symlink_grown host target dir name i (grow fs2 i)

-- `fs_create_symlink` from `allocate_inode` on
unfoldable pub make_symlink : Host → Filesystem → List ℕ → ℕ → List ℕ → ℤ × Filesystem
make_symlink host fs target dir name = symlink_with host target dir name (allocate_inode host fs)

-- what `fs_create_symlink` and `fs_create_hard_link` do with the path of the link
unfoldable pub at_link :
    Host → Filesystem → List ℕ → (Filesystem → ℕ → List ℕ → ℤ × Filesystem) → Outcome ℤ
at_link host fs path make = fs_resolve_parent host fs path >>= λ (found, fs1). elim found [
  | failed code ↦ some (enoent, fs1)
  | parent p name ↦
      if is_dir (fs1.inodes p).inode_type
      then elim (get_directory_by_inode (fs1.inodes p)) [
        | none ↦ some (eio, fs1)
        | some dir ↦
            if is_neg (directory_lookup fs1.bytes dir name)
            then some (make fs1 dir name)
            else some (eexist, fs1)
      ]
      else some (enotdir, fs1)
]

unfoldable pub fs_create_symlink : Host → Filesystem → List ℕ → List ℕ → Outcome ℤ
fs_create_symlink host fs target linkpath =
    at_link host fs linkpath (λ fs1 dir name. make_symlink host fs1 target dir name)

-- `fs_create_hard_link` from `directory_add_entry` on
unfoldable pub make_link : Filesystem → ℕ → ℕ → List ℕ → ℤ × Filesystem
make_link fs source dir name =
    let (entered, bytes) = directory_add_entry fs.bytes dir name source in
    let fs1 = set_bytes fs bytes in
    if is_zero entered
    then (pos 0, modify_inode fs1 source inode_increment_links)
    else (enospc, fs1)

unfoldable pub fs_create_hard_link : Host → Filesystem → List ℕ → List ℕ → Outcome ℤ
fs_create_hard_link host fs from to = fs_resolve_path host fs from >>= λ (code, fs1). elim code [
  | negsuc n ↦ some (enoent, fs1)
  | pos n ↦ table_index (pos n) >>= λ source.
      if is_dir (fs1.inodes source).inode_type
      then some (eperm, fs1)
      else at_link host fs1 to (λ fs2 dir name. make_link fs2 source dir name)
]
