-- ===== src/FileSystem/Tests.antt =====
-- The file system of src/filesystem.c at concrete disks and paths.
use sistemas_operativos.Prelude.{
  ℕ, ◌+◌, ◌<◌, ◌≤◌, ◌≡◌, ◌==◌, refl, ap, ◌≢◌, ◌⊎◌, arith, if◌then◌else◌, true, false, List, [], ◌∷◌,
  ◌++◌, length, ℤ, pos, neg, is_neg, some, update,
}
use sistemas_operativos.FileSystem.State.{
  max_blocks, block_size, num_direct_blocks, Intmap, Filesystem, Host,
}
use sistemas_operativos.FileSystem.Intmap.{find_free_block, set_inode_used, set_block_used}
use sistemas_operativos.FileSystem.Intmap.Counts.{used_inodes, used_blocks}
use sistemas_operativos.FileSystem.Intmap.Search.{Finds, find_free_block-Finds}
use sistemas_operativos.FileSystem.Inode.{inode_init}
use sistemas_operativos.FileSystem.Inode.Free.{held}
use sistemas_operativos.FileSystem.Memory.{Bytes}
use sistemas_operativos.FileSystem.Memory.Frame.{NonZero}
use sistemas_operativos.FileSystem.Directory.{
  directory_size, directory_init, directory_lookup, directory_add_entry, directory_remove_entry,
}
use sistemas_operativos.FileSystem.Directory.Abstract.{
  lookup_name, has_name, erase_name, IsDirectory,
}
use sistemas_operativos.FileSystem.Directory.Init.{
  dot, dot_dot, dots, dot_dot-NonZero, directory_init-IsDirectory, fill_directory-dots,
}
use sistemas_operativos.FileSystem.Directory.Lookup.{directory_lookup-lookup_name}
use sistemas_operativos.FileSystem.Directory.Add.{rejects, directory_add_entry-append}
use sistemas_operativos.FileSystem.Directory.Remove.{directory_remove_entry-erase_name}
use sistemas_operativos.FileSystem.Paths.{fs_resolve_path}
use sistemas_operativos.FileSystem.Paths.Frame.{SameButReads}
use sistemas_operativos.FileSystem.Table.Returns.{Returns}
use sistemas_operativos.FileSystem.Paths.Returns.{Closed, Fits, fs_resolve_path-Returns}
use sistemas_operativos.FileSystem.Paths.Initial.{fs_init-Closed}
use sistemas_operativos.FileSystem.Invariant.Total.{fs_create_file-Returns}
use sistemas_operativos.FileSystem.Invariant.TotalWrite.{fs_write_file-Returns}
use sistemas_operativos.FileSystem.Create.{
  new_superblock, init_inodes, fs_init, fill_directory, fs_create_file,
}
use sistemas_operativos.FileSystem.ReadWrite.{Written, finish_write, write_inode, fs_write_file}
use sistemas_operativos.FileSystem.Remove.{unlink, remove_child}
use sistemas_operativos.FileSystem.Invariant.{pointers, Balanced}
use sistemas_operativos.FileSystem.Invariant.Init.{fs_init-Balanced}
use sistemas_operativos.FileSystem.Invariant.Removal.{unlink-Balanced, remove_child-loses}
use sistemas_operativos.FileSystem.Invariant.Loop.{write_inode-ends}
use sistemas_operativos.FileSystem.Invariant.Beyond.{write_inode-beyond}
use sistemas_operativos.FileSystem.Fuse.{fisopfs_truncate}
use sistemas_operativos.FileSystem.Fuse.Answers.{Answers}
use sistemas_operativos.FileSystem.Fuse.Balance.{fisopfs_truncate-Balanced}

abbrev host : Host
host = record { uid = 1000; gid = 100; now = 7 }

abbrev two_bytes : List ℕ
two_bytes = b'x' ∷ b'y' ∷ []

abbrev blank : Filesystem
blank = record {
  inodes = λ _. inode_init host;
  intmap = record { inodes = λ _. 1; blocks = λ _. 1 };
  superblock = new_superblock;
  bytes = λ _. 0;
}

abbrev disk : Filesystem
disk = fs_init host blank

disk-Balanced : Balanced 0 disk
disk-Balanced = (fs_init-Balanced host blank).0

abbrev a_name : List ℕ
a_name = b'a' ∷ []

-- the path "/.", of the root
abbrev dot_path : List ℕ
dot_path = b'/' ∷ b'.' ∷ []

-- the path "/a"
abbrev a_path : List ℕ
a_path = b'/' ∷ b'a' ∷ []

fs_init-Balanced_example :
    Balanced 0 (fs_init host blank)
    × (used_inodes (fs_init host blank).intmap ≡ 1)
    × (used_blocks (fs_init host blank).intmap ≡ 1)
fs_init-Balanced_example = fs_init-Balanced host blank

root_used : disk.intmap.inodes 0 ≢ 0
unfolding fs_init set_inode_used set_block_used update
root_used e = omega arith

unlink-Balanced_example : Balanced 0 (unlink host disk 0 a_name 0).1
unlink-Balanced_example = unlink-Balanced host disk 0 disk-Balanced (omega arith) root_used 0 a_name

remove_child-loses_example :
    let lost =
      if is_neg (directory_remove_entry disk.bytes 0 (b'.' ∷ [])).0
      then 0
      else 0 + held (pointers disk 0) num_direct_blocks 0 in
    Balanced lost (remove_child host disk 0 0 (b'.' ∷ []) 0).1
remove_child-loses_example =
    remove_child-loses host disk 0 disk-Balanced (omega arith) root_used 0 0 (b'.' ∷ [])

disk-block_size : disk.superblock.block_size_bytes ≡ block_size
unfolding fs_init
disk-block_size = refl

write_inode-ends_example :
    (w : Written) × (write_inode host disk 1 two_bytes 4095 ≡ some (finish_write host 1 w))
    × ((finish_write host 1 w).0 ≡ pos w.count)
    × (w.count ≤ length two_bytes)
    × (w.position ≡ 4095 + w.count)
write_inode-ends_example = write_inode-ends host disk 1 two_bytes 4095 disk-block_size

abbrev two_used : Intmap
two_used = record { inodes = λ i. if i == 3 then 0 else 1; blocks = λ b. if b == 5 then 0 else 1 }

find_free_block-Finds_example : Finds two_used.blocks 0 max_blocks (find_free_block two_used)
find_free_block-Finds_example = find_free_block-Finds two_used

-- a directory in the block 0
abbrev m0 : Bytes
m0 = directory_init (λ _. 0) 0

a-NonZero : NonZero a_name
a-NonZero = (λ e. omega arith, tt)

directory_lookup-lookup_name_example : directory_lookup m0 0 dot_dot ≡ lookup_name dots dot_dot
directory_lookup-lookup_name_example =
    directory_lookup-lookup_name m0 0 dot_dot dot_dot-NonZero dots (directory_init-IsDirectory _ 0)

directory_add_entry-append_example :
    let (r, n) = directory_add_entry m0 0 a_name 7 in
    ((rejects dots a_name ≡ true) × (r ≡ neg 1) × (n ≡ m0))
    ⊎ ((rejects dots a_name ≡ false)
        × (r ≡ pos 0)
        × IsDirectory n 0 (dots ++ record { name = a_name; number = 7 } ∷ [])
        × ((x : ℕ) → (x < 0) ⊎ (0 + directory_size ≤ x) → n x ≡ m0 x))
directory_add_entry-append_example =
    directory_add_entry-append m0 0 a_name 7 dots (directory_init-IsDirectory _ 0) a-NonZero
      (omega arith)

dot_dot-nonempty : dot_dot ≢ []
dot_dot-nonempty e = omega (arith, ap (length {A = ℕ}) e)

directory_remove_entry-erase_name_example :
    let (r, n) = directory_remove_entry m0 0 dot_dot in
    ((has_name dots dot_dot ≡ false) × (r ≡ neg 1) × (n ≡ m0))
    ⊎ ((has_name dots dot_dot ≡ true)
        × (r ≡ pos 0)
        × IsDirectory n 0 (erase_name dots dot_dot)
        × ((x : ℕ) → (x < 0) ⊎ (0 + directory_size ≤ x) → n x ≡ m0 x))
directory_remove_entry-erase_name_example =
    directory_remove_entry-erase_name m0 0 dot_dot dot_dot-NonZero dots
      (directory_init-IsDirectory _ 0) dot_dot-nonempty

fill_directory-dots_example :
    (fill_directory (λ _. 0) 4096 5 3 ≡ directory_init (λ _. 0) 4096)
    × IsDirectory (fill_directory (λ _. 0) 4096 5 3) 4096 dots
    × (directory_lookup (fill_directory (λ _. 0) 4096 5 3) 4096 dot ≡ pos 0)
    × (directory_lookup (fill_directory (λ _. 0) 4096 5 3) 4096 dot_dot ≡ pos 0)
fill_directory-dots_example = fill_directory-dots (λ _. 0) 4096 5 3 (omega arith) (omega arith)

disk-Closed : Closed disk
disk-Closed = fs_init-Closed host blank

fs_init-Closed_example : Closed (fs_init host blank)
fs_init-Closed_example = fs_init-Closed host blank

fs_create_file-Returns_example :
    Returns (λ (r : ℤ). Balanced 0) (fs_create_file host disk a_path 0o644)
fs_create_file-Returns_example =
    fs_create_file-Returns host 0 disk disk-Closed disk-Balanced a_path 0o644

fs_write_file-Returns_example :
    Returns (λ (r : ℤ). Balanced 0) (fs_write_file host disk dot_path two_bytes 4095 false)
fs_write_file-Returns_example =
    fs_write_file-Returns host disk disk-Closed 0 dot_path two_bytes 4095 false disk-Balanced
      disk-block_size

fs_resolve_path-Returns_example :
    Returns (λ code gs. Fits code × SameButReads disk gs) (fs_resolve_path host disk a_path)
fs_resolve_path-Returns_example = fs_resolve_path-Returns host disk a_path disk-Closed

empty_file : (disk.inodes 1).file_size_bytes < 50000
unfolding fs_init init_inodes inode_init update
empty_file = omega arith

write_inode-beyond_example :
    (gs : Filesystem) × (write_inode host disk 1 two_bytes 50000 ≡ some (pos 0, gs))
    × (gs.bytes ≡ disk.bytes)
    × ((gs.inodes 1).file_size_bytes ≡ 50000)
write_inode-beyond_example =
    write_inode-beyond host disk 1 two_bytes 50000 disk-block_size (omega arith) (omega arith)
      empty_file

fisopfs_truncate-Balanced_example :
    Answers (λ code. Balanced 0) (fisopfs_truncate host (some disk) dot_path 0)
fisopfs_truncate-Balanced_example =
    fisopfs_truncate-Balanced host disk dot_path 0 disk-Closed disk-Balanced
