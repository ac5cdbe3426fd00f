-- ===== src/FileSystem/Fuse/Persistence.antt =====
-- The file that fisopfs.c keeps the file system in: `main` chooses its name, `fisops_init` reads it
-- and `fisops_destroy` writes it. The library's answers are parameters: what the file holds, and which
-- calls succeed. A string is the list of its bytes, without the NUL.
use sistemas_operativos.Prelude.{
  ℕ, ◌-◌, ◌*◌, ltb, ◌==◌, if◌then◌else◌, Bool, true, false, none, some, List, [], ◌∷◌, ◌++◌, length,
  take, drop, ◌&&◌,
}
use sistemas_operativos.FileSystem.State.{max_path_len, inode_file, Inode, Filesystem, Host}
use sistemas_operativos.FileSystem.Create.{fs_init}
use sistemas_operativos.FileSystem.Fuse.{Mounted}

-- The file at `filedisk_path`: `fopen` fails, or it has no bytes, too few for a file system, or those of
-- one.
pub data DiskFile : Type 0 where
  missing : DiskFile
  empty : DiskFile
  short : DiskFile
  image : Filesystem → DiskFile

-- the zeroed memory that `calloc` gives
abbrev zero_inode : Inode
zero_inode = record {
  inode_type = inode_file;
  permission_bits = 0;
  owner_user_id = 0;
  owner_group_id = 0;
  last_access_time = 0;
  last_modification_time = 0;
  last_metadata_change_time = 0;
  file_size_bytes = 0;
  hard_links_count = 0;
  direct_block_ptrs = λ _. 0;
}

abbrev pub zero_fs : Filesystem
zero_fs = record {
  inodes = λ _. zero_inode;
  intmap = record { inodes = λ _. 0; blocks = λ _. 0 };
  superblock = record {
    total_inodes = 0;
    total_blocks = 0;
    free_inodes_count = 0;
    free_blocks_count = 0;
    block_size_bytes = 0;
    max_file_size_bytes = 0;
    max_filename_length = 0;
    max_path_length = 0;
    root_inode_number = 0;
  };
  bytes = λ _. 0;
}

-- `memory` is whether `calloc` has memory
unfoldable pub new_fs : Host → Bool → Mounted
new_fs host memory = if memory then some (fs_init host zero_fs) else none

-- `memory` answers the first `calloc`, and `more` the one after a failed `fread`.
unfoldable pub fisops_init : Host → Bool → Bool → DiskFile → Mounted
fisops_init host memory more missing = new_fs host memory
fisops_init host memory more empty = new_fs host memory
fisops_init host memory more short = if memory then new_fs host more else none
fisops_init host memory more (image fs) = if memory then some fs else none

-- What comes of `fopen(filedisk_path, "wb")` and of `fwrite` behind it, which may leave some bytes.
pub data Saving : Type 0 where
  unopened : Saving
  interrupted : Bool → Saving
  complete : Saving

unfoldable pub fisops_destroy : Saving → Mounted → DiskFile → DiskFile
fisops_destroy saving none file = file
fisops_destroy unopened (some fs) file = file
fisops_destroy (interrupted some_bytes) (some fs) file = if some_bytes then short else empty
fisops_destroy complete (some fs) file = image fs

-- `strcmp(s, t) == 0`
unfoldable pub strcmp_zero : List ℕ → List ℕ → Bool
strcmp_zero [] [] = true
strcmp_zero [] (b ∷ t) = false
strcmp_zero (a ∷ s) [] = false
strcmp_zero (a ∷ s) (b ∷ t) = a == b && strcmp_zero s t

-- ".fisopfs"
abbrev pub extension : List ℕ
extension = b'.' ∷ b'f' ∷ b'i' ∷ b's' ∷ b'o' ∷ b'p' ∷ b'f' ∷ b's' ∷ []

-- "persistence_file.fisopfs"
abbrev pub default_name : List ℕ
default_name =
    (b'p' ∷ b'e' ∷ b'r' ∷ b's' ∷ b'i' ∷ b's' ∷ b't' ∷ b'e' ∷ b'n' ∷ b'c' ∷ b'e' ∷ b'_' ∷ [])
    ++ (b'f' ∷ b'i' ∷ b'l' ∷ b'e' ∷ extension)

-- "--filedisk"
abbrev pub option_name : List ℕ
option_name = b'-' ∷ b'-' ∷ b'f' ∷ b'i' ∷ b'l' ∷ b'e' ∷ b'd' ∷ b'i' ∷ b's' ∷ b'k' ∷ []

-- The loop of `main` over the arguments behind the program's name: the name of the file, and the
-- arguments that are left for FUSE.
unfoldable pub take_filedisk : List (List ℕ) → List ℕ × List (List ℕ)
take_filedisk [] = (default_name, [])
take_filedisk (a ∷ []) = (default_name, a ∷ [])
take_filedisk (a ∷ b ∷ args) =
    let (name, left) = take_filedisk (b ∷ args) in
    if strcmp_zero a option_name then (b, args) else (name, a ∷ left)

-- the test on the last bytes of the name
unfoldable pub has_extension : List ℕ → Bool
has_extension name =
    ltb (length extension) (length name)
    && strcmp_zero (drop (length name - length extension) name) extension

abbrev pub full_name : List ℕ → List ℕ
full_name name =
    let chosen = if length name == 0 then default_name else name in
    if has_extension chosen then chosen else chosen ++ extension

-- `filedisk_path` as `snprintf` leaves it, which cuts it off at the end of the array
unfoldable pub filedisk_path : List ℕ → List ℕ → List ℕ
filedisk_path cwd name = take (2 * max_path_len - 1) (cwd ++ (b'/' ∷ full_name name))
