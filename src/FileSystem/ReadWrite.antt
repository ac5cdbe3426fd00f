-- ===== src/FileSystem/ReadWrite.antt =====
-- `fs_read_file` and `fs_write_file` of src/filesystem.c. Offsets are not negative, as the kernel
-- hands them out; no pointer is null here.
use sistemas_operativos.Prelude.{
  ℕ, zero, suc, ◌+◌, ◌-◌, ◌*◌, ◌/◌, ◌%◌, ◌^◌, leb, ltb, ◌==◌, if◌then◌else◌, Bool, ◌||◌, Option,
  none, some, List, [], ◌++◌, length, take, drop, min, ℤ, pos, negsuc, neg, is_neg,
}
use sistemas_operativos.FileSystem.State.{block_size, num_direct_blocks, Inode, Filesystem, Host}
use sistemas_operativos.FileSystem.Inode.{modify_inode, inode_get_direct_block}
use sistemas_operativos.FileSystem.Memory.{Bytes, write_at, read_at}
use sistemas_operativos.FileSystem.Directory.{directory_lookup, get_directory_by_inode}
use sistemas_operativos.FileSystem.Table.{
  Outcome, ◌>>=◌, table_index, set_bytes, dec_free_blocks, touch_access, touch_modified,
  touch_changed,
}
use sistemas_operativos.FileSystem.Paths.{failed, parent, fs_resolve_parent}
use sistemas_operativos.FileSystem.Create.{grow}

-- The inode number that the parent directory of the path gives for its name, or -1.
unfoldable pub find_file : Host → Filesystem → List ℕ → Outcome ℤ
find_file host fs path = fs_resolve_parent host fs path >>= λ (found, fs1). elim found [
  | failed code ↦ some (neg 1, fs1)
  | parent p name ↦ elim (get_directory_by_inode (fs1.inodes p)) [
    | none ↦ some (neg 1, fs1)
    | some dir ↦
        let number = directory_lookup fs1.bytes dir name in
        some (if is_neg number then neg 1 else number, fs1)
  ]
]

-- The loop of `fs_read_file`, with `left` slots from `index` on and `n` bytes still to read: at slot
-- twelve it ends. `bs` is the block size of the superblock.
unfoldable pub read_from : Bytes → Inode → ℕ → ℕ → ℕ → ℕ → ℕ → List ℕ
read_from m inode bs zero index offset n = []
read_from m inode bs (suc left) index offset n =
    let k = min n (bs - offset) in
    let rest = read_from m inode bs left (index + 1) 0 (n - k) in
    if n == 0 then [] else elim (inode_get_direct_block inode index) [
      | negsuc e ↦ []
      | pos b ↦ read_at m (b * block_size + offset) k ++ rest
    ]

-- the bytes that `fs_read_file` copies from the file of an inode
unfoldable pub read_inode : Filesystem → Inode → ℕ → ℕ → List ℕ
read_inode fs inode size offset =
    let bs = fs.superblock.block_size_bytes in
    let n = min size (inode.file_size_bytes - offset) in
    read_from fs.bytes inode bs (num_direct_blocks - offset / bs) (offset / bs) (offset % bs) n

-- The code, with the bytes that go to `buffer`.
unfoldable pub fs_read_file : Host → Filesystem → List ℕ → ℕ → ℕ → Outcome (ℤ × List ℕ)
fs_read_file host fs path size offset = find_file host fs path >>= λ (number, fs1). elim number [
  | negsuc n ↦ some ((neg 1, []), fs1)
  | pos n ↦ table_index (pos n) >>= λ i.
      let got = read_inode fs1 (fs1.inodes i) size offset in
      if leb (fs1.inodes i).file_size_bytes offset
      then some ((pos 0, []), fs1)
      else some ((pos (length got), got), touch_access host fs1 i)
]

-- The block at slot `index` of the inode `i`, or else a new one, or -1.
unfoldable pub block_for : Filesystem → ℕ → ℕ → ℤ × Filesystem
block_for fs i index = elim (inode_get_direct_block (fs.inodes i) index) [
  | pos b ↦ (pos b, fs)
  | negsuc e ↦
      let (block, fs1) = grow fs i in (block, if is_neg block then fs1 else dec_free_blocks fs1)
]

pub record Written : Type 0 where
  pub count : ℕ
  pub position : ℕ
  pub fs : Filesystem

-- What a round of the loop of `fs_write_file` does: it ends the loop, or goes on with what is left of
-- the buffer.
pub data Round : Type 0 where
  stop : Written → Round
  go : List ℕ → Written → Round

-- the copy into a block of the file system that `block_for` left
unfoldable pub copy_round : List ℕ → Written → ℤ × Filesystem → Round
copy_round src w (negsuc e, fs) = stop (record w { fs = fs })
copy_round src w (pos b, fs) =
    let bs = w.fs.superblock.block_size_bytes in
    let offset = w.position % bs in
    let k = min (length src) (bs - offset) in
    go (drop k src) (record {
      count = w.count + k;
      position = w.position + k;
      fs = set_bytes fs (write_at fs.bytes (b * block_size + offset) (take k src));
    })

unfoldable pub write_round : ℕ → List ℕ → Written → Round
write_round i src w =
    let index = w.position / w.fs.superblock.block_size_bytes in
    if length src == 0 || leb num_direct_blocks index
    then stop w
    else copy_round src w (block_for w.fs i index)

-- The loop, on fuel; `none` is the fuel that ran out. `src` is what is left of the buffer.
unfoldable pub write_from : ℕ → ℕ → List ℕ → Written → Option Written
write_from zero i src w = none
write_from (suc fuel) i src w = elim (write_round i src w) [
  | stop w' ↦ some w'
  | go rest w' ↦ write_from fuel i rest w'
]

-- One round for each slot, and one to end: each round but the last fills a block to its end.
abbrev pub write_rounds : ℕ
write_rounds = 13

-- the file size and the times after the loop
unfoldable pub finish_write : Host → ℕ → Written → ℤ × Filesystem
finish_write host i w =
    let grown =
      if ltb (w.fs.inodes i).file_size_bytes w.position
      then modify_inode w.fs i (λ inode. record inode { file_size_bytes = w.position % 2 ^ 32 })
      else w.fs in
    (pos w.count, touch_access host (touch_changed host (touch_modified host grown i) i) i)

unfoldable pub write_inode : Host → Filesystem → ℕ → List ℕ → ℕ → Option (ℤ × Filesystem)
write_inode host fs i src offset =
    write_from write_rounds i src (record { count = 0; position = offset; fs = fs }) >>= λ w.
    some (finish_write host i w)

unfoldable pub fs_write_file : Host → Filesystem → List ℕ → List ℕ → ℕ → Bool → Outcome ℤ
fs_write_file host fs path src offset append =
    if length src == 0
    then some (neg 1, fs)
    else find_file host fs path >>= λ (number, fs1). elim number [
      | negsuc n ↦ some (neg 1, fs1)
      | pos n ↦ table_index (pos n) >>= λ i.
          write_inode host fs1 i src (if append then (fs1.inodes i).file_size_bytes else offset)
    ]
