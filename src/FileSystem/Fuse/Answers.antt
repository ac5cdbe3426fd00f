-- ===== src/FileSystem/Fuse/Answers.antt =====
-- What the callbacks of fisopfs.c answer when a file system is mounted.
use sistemas_operativos.Prelude.{ℕ, ◌≤◌, some, List, [], length, ℤ, pos, neg}
use sistemas_operativos.FileSystem.State.{Inode, Filesystem}
use sistemas_operativos.FileSystem.Table.{Outcome, ◌>>=◌}
use sistemas_operativos.FileSystem.Table.Returns.{Returns, returns}
use sistemas_operativos.FileSystem.Errno.{enoent, eacces}
use sistemas_operativos.FileSystem.Fuse.{Reply, with_fs}

-- The callback answers, and a file system is still mounted.
pub data Answers {A : Type 0} (P : A → Filesystem → Type 0) : Reply A → Type 0 where
  answers : {a : A} {fs : Filesystem} → P a fs → Answers P (some (a, some fs))

pub with_fs-Answers :
    {A : Type 0} (P : A → Filesystem → Type 0) (lost : A) (fs : Filesystem)
    (f : Filesystem → Outcome A)
    → Returns P (f fs)
    → Answers P (with_fs lost (some fs) f)
unfolding with_fs
with_fs-Answers {A} P lost fs f h = forward (f fs) h
  where
    forward : (o : Outcome A) → Returns P o → Answers P (o >>= λ (a, gs). some (a, some gs))
    forward _ (returns p) = answers p

-- A read leaves an error, with no bytes, or the number of bytes it copied, which is at most `size`.
pub data ReadResult (size : ℕ) : ℤ × List ℕ → Type 0 where
  no_entry : ReadResult size (enoent, [])
  forbidden : ReadResult size (eacces, [])
  copied : {bytes : List ℕ} → length bytes ≤ size → ReadResult size (pos (length bytes), bytes)

-- `fs_read_file` gives -1 and nothing, or the number of its bytes.
data FileRead (size : ℕ) : ℤ × List ℕ → Type 0 where
  no_file : FileRead size (neg 1, [])
  some_bytes : {bytes : List ℕ} → length bytes ≤ size → FileRead size (pos (length bytes), bytes)
