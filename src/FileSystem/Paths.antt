-- ===== src/FileSystem/Paths.antt =====
-- `fs_resolve_path` and `fs_resolve_parent` of src/filesystem.c. A path is the list of its bytes,
-- without the NUL; no pointer is null here.
pub mod Frame
pub mod Returns
pub mod Initial
use sistemas_operativos.Prelude.{
  ℕ, zero, suc, ◌+◌, ◌-◌, ◌%◌, leb, ltb, ◌==◌, if◌then◌else◌, Bool, false, ◌||◌, ◌&&◌, Option, none,
  some, List, [], ◌∷◌, ◌++◌, length, get_or, take, drop, ℤ, pos, negsuc, neg, to_int, to_word,
}
use sistemas_operativos.FileSystem.State.{
  max_path_len, max_filename_len, max_dir_depth, no_block, Filesystem, Host,
}
use sistemas_operativos.FileSystem.Directory.{directory_lookup, get_directory_by_inode}
use sistemas_operativos.FileSystem.Table.{Outcome, ◌>>=◌, table_index, touch_access}
use sistemas_operativos.FileSystem.Errno.{einval, enametoolong}

-- the token read so far, if it is not empty
abbrev flush : List ℕ → List (List ℕ) → List (List ℕ)
flush [] rest = rest
flush (c ∷ s) rest = (c ∷ s) ∷ rest

tokens_from : List ℕ → List ℕ → List (List ℕ)
tokens_from seen [] = flush seen []
tokens_from seen (c ∷ s) =
    let next = tokens_from [] s in
    let more = tokens_from (seen ++ (c ∷ [])) s in if c == b'/' then flush seen next else more

-- what the calls of `strtok(_, "/")` return, one after the other
unfoldable pub tokens : List ℕ → List (List ℕ)
unfolding tokens_from
tokens path = tokens_from [] path

-- The loop over the tokens: `depth` counts them, `current` is the inode reached.
unfoldable pub walk : Host → Filesystem → List (List ℕ) → ℕ → ℕ → Outcome ℤ
walk host fs [] depth current = some (to_int current, fs)
walk host fs (token ∷ rest) depth current =
    if ltb max_dir_depth depth
    then some (enametoolong, fs)
    else elim (get_directory_by_inode (fs.inodes current)) [
      | none ↦ some (neg 1, fs)
      | some dir ↦
          let next = to_word (directory_lookup fs.bytes dir token) in
          if next == no_block
          then some (neg 1, fs)
          else table_index (pos next) >>= λ i. walk host (touch_access host fs i) rest (depth + 1) i
    ]

abbrev pub is_root_path : List ℕ → Bool
is_root_path [] = false
is_root_path (c ∷ s) = (c == b'/') && (length s == 0)

unfoldable pub fs_resolve_path : Host → Filesystem → List ℕ → Outcome ℤ
fs_resolve_path host fs path =
    if length path == 0
    then some (neg 1, fs)
    else if leb max_path_len (length path)
    then some (enametoolong, fs)
    else if is_root_path path
    then some (to_int fs.superblock.root_inode_number, fs)
    else table_index (pos fs.superblock.root_inode_number) >>= λ root.
        walk host (touch_access host fs root) (tokens path) 0 root

-- `for (i = len_path - 1; i >= 0; i--)`, with `i + 1` bytes to go
unfoldable pub last_slash : List ℕ → ℕ → ℤ
last_slash path zero = neg 1
last_slash path (suc i) =
    let rest = last_slash path i in if get_or path i 0 == b'/' then pos i else rest

-- A code below 0, or the index of `*parent_inode` and `target_name`.
pub data Parent : Type 0 where
  failed : ℤ → Parent
  parent : ℕ → List ℕ → Parent

abbrev pub parent_path : List ℕ → ℕ → List ℕ
parent_path path slash = if slash == 0 then b'/' ∷ [] else take slash path

-- the directory of the path and the name behind its last slash, at `slash`
unfoldable pub resolve_before : Host → Filesystem → List ℕ → ℕ → Outcome Parent
unfolding fs_resolve_path
resolve_before host fs path slash =
    let name = drop (slash + 1) path in
    if length name == 0 || leb max_filename_len (length name)
    then some (failed einval, fs)
    else fs_resolve_path host fs (parent_path path slash) >>= λ (code, fs1). elim code [
      | negsuc n ↦ some (failed (negsuc n), fs1)
      | pos n ↦ table_index (pos n) >>= λ i. some (parent i name, fs1)
    ]

unfoldable pub fs_resolve_parent : Host → Filesystem → List ℕ → Outcome Parent
fs_resolve_parent host fs path =
    if length path == 0
    then some (failed einval, fs)
    else if leb max_path_len (length path)
    then some (failed enametoolong, fs)
    else elim (last_slash path (length path)) [
      | negsuc n ↦ some (failed einval, fs)
      | pos slash ↦ resolve_before host fs path slash
    ]
