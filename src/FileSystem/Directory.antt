-- ===== src/FileSystem/Directory.antt =====
-- src/directory.c. A `directory_t` laid over `fs->data_block` at the address `dir`: entry `i` is
-- 36 bytes (a name of 32 and an inode number), and `entry_count` stands behind the 1024 entries,
-- 36864 bytes after `dir`, so it lies nine blocks further on. No pointer is null here.
pub mod Abstract
pub mod Lookup
pub mod Add
pub mod Remove
pub mod Init
use sistemas_operativos.Prelude.{
  ℕ, zero, suc, ◌+◌, ◌-◌, ◌*◌, leb, ltb, ◌==◌, if◌then◌else◌, Bool, true, false, ◌&&◌, ◌||◌, Option,
  none, some, List, [], ◌∷◌, length, ℤ, pos, negsuc, neg, to_int, inc_mod, dec_mod, ◌^◌,
}
use sistemas_operativos.FileSystem.State.{
  max_blocks, max_filename_len, block_size, num_direct_blocks, InodeType, inode_file, inode_dir,
  inode_symlink, Inode, Filesystem,
}
use sistemas_operativos.FileSystem.Inode.{inode_get_direct_block}
use sistemas_operativos.FileSystem.Memory.{
  Bytes, write_at, read_at, load_word, store_word, str_at, strncpy_bytes, string_at,
}

-- `sizeof(dir_entry_t)`
abbrev pub entry_size : ℕ
entry_size = 36

-- `offsetof(directory_t, entry_count)`
abbrev pub count_offset : ℕ
count_offset = 36864

-- `sizeof(directory_t)`
abbrev pub directory_size : ℕ
directory_size = 36868

-- `&dir->entries[i]`
abbrev pub entry_at : ℕ → ℕ → ℕ
entry_at dir i = dir + i * entry_size

-- `dir->entry_count`
abbrev pub entry_count : Bytes → ℕ → ℕ
entry_count m dir = load_word m (dir + count_offset)

-- `dir->entries[i].inode_number`
abbrev pub inode_number : Bytes → ℕ → ℕ → ℕ
inode_number m dir i = load_word m (entry_at dir i + max_filename_len)

-- `strncpy(dir->entries[i].name, name, MAX_FILENAME_LEN)`
abbrev pub copy_name : Bytes → ℕ → ℕ → List ℕ → Bytes
copy_name m dir i name = write_at m (entry_at dir i) (strncpy_bytes name max_filename_len)

unfoldable pub directory_init : Bytes → ℕ → Bytes
directory_init m dir =
    let m1 = store_word m (dir + count_offset) 2 in
    let m2 = copy_name m1 dir 0 (b'.' ∷ []) in
    let m3 = store_word m2 (entry_at dir 0 + max_filename_len) 0 in
    let m4 = copy_name m3 dir 1 (b'.' ∷ b'.' ∷ []) in
    store_word m4 (entry_at dir 1 + max_filename_len) 0

-- `for (i = 0; i < dir->entry_count; i++)`, at entry `i` with `left` entries to go
unfoldable pub lookup_from : Bytes → ℕ → List ℕ → ℕ → ℕ → ℤ
lookup_from m dir name zero i = neg 1
lookup_from m dir name (suc left) i =
    let rest = lookup_from m dir name left (i + 1) in
    if str_at m (entry_at dir i) name then to_int (inode_number m dir i) else rest

unfoldable pub directory_lookup : Bytes → ℕ → List ℕ → ℤ
directory_lookup m dir name = lookup_from m dir name (entry_count m dir) 0

-- the loop of `directory_add_entry` that looks for the name
unfoldable pub has_name_from : Bytes → ℕ → List ℕ → ℕ → ℕ → Bool
has_name_from m dir name zero i = false
has_name_from m dir name (suc left) i =
    let rest = has_name_from m dir name left (i + 1) in
    if str_at m (entry_at dir i) name then true else rest

-- Entry `i` is written, and the count raised.
unfoldable pub put_entry : Bytes → ℕ → ℕ → List ℕ → ℕ → Bytes
put_entry m dir i name number =
    let m1 = copy_name m dir i name in
    let m2 = write_at m1 (entry_at dir i + (max_filename_len - 1)) (0 ∷ []) in
    let m3 = store_word m2 (entry_at dir i + max_filename_len) number in
    store_word m3 (dir + count_offset) (inc_mod (2 ^ 32) (entry_count m3 dir))

unfoldable pub directory_add_entry : Bytes → ℕ → List ℕ → ℕ → ℤ × Bytes
directory_add_entry m dir name number =
    if length name == 0 || leb max_filename_len (length name)
    then (neg 1, m)
    else if leb max_blocks (entry_count m dir)
    then (neg 1, m)
    else if has_name_from m dir name (entry_count m dir) 0
    then (neg 1, m)
    else (pos 0, put_entry m dir (entry_count m dir) name number)

-- `dir->entries[j] = dir->entries[j + 1]`
unfoldable pub move_entry : Bytes → ℕ → ℕ → Bytes
move_entry m dir j = write_at m (entry_at dir j) (read_at m (entry_at dir (j + 1)) entry_size)

-- `for (j = i; j < dir->entry_count - 1; j++)`, at entry `j` with `left` entries to move
unfoldable pub shift_from : Bytes → ℕ → ℕ → ℕ → Bytes
shift_from m dir zero j = m
shift_from m dir (suc left) j = shift_from (move_entry m dir j) dir left (j + 1)

-- Entry `i` is dropped, with `after` entries behind it.
unfoldable pub drop_entry : Bytes → ℕ → ℕ → ℕ → Bytes
drop_entry m dir after i =
    let m1 = shift_from m dir after i in
    store_word m1 (dir + count_offset) (dec_mod (2 ^ 32) (entry_count m1 dir))

unfoldable pub remove_from : Bytes → ℕ → List ℕ → ℕ → ℕ → ℤ × Bytes
remove_from m dir name zero i = (neg 1, m)
remove_from m dir name (suc left) i =
    let rest = remove_from m dir name left (i + 1) in
    if str_at m (entry_at dir i) name then (pos 0, drop_entry m dir left i) else rest

unfoldable pub directory_remove_entry : Bytes → ℕ → List ℕ → ℤ × Bytes
directory_remove_entry m dir name =
    if length name == 0 then (neg 1, m) else remove_from m dir name (entry_count m dir) 0

-- the names that are copied to `buffer`, in their order
unfoldable pub list_from : Bytes → ℕ → ℕ → ℕ → List (List ℕ)
list_from m dir zero i = []
list_from m dir (suc left) i =
    string_at m (entry_at dir i) max_filename_len ∷ list_from m dir left (i + 1)

unfoldable pub directory_list_entries : Bytes → ℕ → ℕ × List (List ℕ)
directory_list_entries m dir = (entry_count m dir, list_from m dir (entry_count m dir) 0)

abbrev pub is_dir : InodeType → Bool
is_dir inode_file = false
is_dir inode_dir = true
is_dir inode_symlink = false

-- the address of the first block of the slots from `slot` on
unfoldable pub first_block_from : Inode → ℕ → ℕ → Option ℕ
first_block_from inode zero slot = none
first_block_from inode (suc left) slot =
    let rest = first_block_from inode left (slot + 1) in
    elim (inode_get_direct_block inode slot) [ pos b ↦ some (b * block_size) | negsuc n ↦ rest ]

-- `NULL` is `none`. A pointer that is no block number reads as a negative number and is skipped.
unfoldable pub get_directory_by_inode : Inode → Option ℕ
get_directory_by_inode inode =
    if is_dir inode.inode_type then first_block_from inode num_direct_blocks 0 else none
