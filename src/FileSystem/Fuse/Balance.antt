-- ===== src/FileSystem/Fuse/Balance.antt =====
-- `fisopfs_truncate` and the file on disk keep a file system balanced.
use sistemas_operativos.Prelude.{
  ℕ, ◌%◌, ◌^◌, ◌==◌, if◌then◌else◌, Bool, true, false, Bool-cases, none, some, List, inl, inr, refl,
  ℤ, ◌<◌,
}
use sistemas_operativos.FileSystem.State.{max_inodes, num_direct_blocks, Filesystem, Host}
use sistemas_operativos.FileSystem.Inode.{inode_update_mtime, inode_update_ctime}
use sistemas_operativos.FileSystem.Remove.{release_from}
use sistemas_operativos.FileSystem.Table.{touch_modified, touch_changed}
use sistemas_operativos.FileSystem.Table.Returns.{returns, Returns->>=, Returns-index, Returns-int}
use sistemas_operativos.FileSystem.Paths.{fs_resolve_path}
use sistemas_operativos.FileSystem.Paths.Frame.{SameButReads}
use sistemas_operativos.FileSystem.Paths.Returns.{Closed, Fits, fs_resolve_path-Returns}
use sistemas_operativos.FileSystem.Paths.Initial.{fs_init-Closed}
use sistemas_operativos.FileSystem.Invariant.{Balanced}
use sistemas_operativos.FileSystem.Invariant.Init.{fs_init-Balanced}
use sistemas_operativos.FileSystem.Invariant.Steps.{Balanced-reads, Balanced-modify}
use sistemas_operativos.FileSystem.Invariant.Removal.{release_from-Balanced}
use sistemas_operativos.FileSystem.Fuse.{Mounted, truncate_inode, on_inode, fisopfs_truncate}
use sistemas_operativos.FileSystem.Fuse.Answers.{Answers, with_fs-Answers}
use sistemas_operativos.FileSystem.Fuse.Persistence.{
  DiskFile, missing, empty, short, image, zero_fs, new_fs, fisops_init, Saving, unopened,
  interrupted, complete, fisops_destroy,
}

module _ {k : ℕ} (host : Host) (fs : Filesystem) where
  emptied-Balanced :
      (i size : ℕ)
      → i < max_inodes
      → Balanced k fs
      → Balanced k (if size == 0 then release_from fs i num_direct_blocks 0 else fs)
  emptied-Balanced i size fits bal = elim (Bool-cases (size == 0)) [
    | inl e ↦ rw e (release_from-Balanced i fits num_direct_blocks 0 fs bal)
    | inr e ↦ rw e bal
  ]

  truncate_inode-Balanced :
      (i size : ℕ) → i < max_inodes → Balanced k fs → Balanced k (truncate_inode host fs i size)
  unfolding truncate_inode touch_changed touch_modified
  truncate_inode-Balanced i size fits bal =
      Balanced-modify _
        (Balanced-modify _
          (Balanced-modify _ (emptied-Balanced i size fits bal) i
            (λ inode. record inode { file_size_bytes = size % 2 ^ 32 }) (λ s. refl))
          i (inode_update_mtime host) (λ s. refl))
        i (inode_update_ctime host) (λ s. refl)

module _ {k : ℕ} (host : Host) (fs : Filesystem) where
  -- On a mounted file system that is balanced and whose directories number inodes of the table,
  -- `fisopfs_truncate` answers for every path and size, and the file system is balanced again.
  pub fisopfs_truncate-Balanced :
      (path : List ℕ) (size : ℕ)
      → Closed fs
      → Balanced k fs
      → Answers (λ code. Balanced k) (fisopfs_truncate host (some fs) path size)
  unfolding fisopfs_truncate on_inode
  fisopfs_truncate-Balanced path size c bal = with_fs-Answers Q _ fs _ (
      Returns->>= (λ code gs. Fits code × SameButReads fs gs) Q (fs_resolve_path host fs path) _
        (fs_resolve_path-Returns host fs path c)
        λ code gs h.
          Returns-int Q code _ _
            (λ n e. Returns-index Q n _ (h.0 n e) (
              returns
                (truncate_inode-Balanced host gs n size (h.0 n e) (Balanced-reads fs bal gs h.1))))
            (λ n e. returns (Balanced-reads fs bal gs h.1)))
    where
      Q : ℤ → Filesystem → Type 0
      Q code = Balanced k

-- What is mounted, if anything, is balanced but for blocks that were lost, and its directories number
-- inodes of the table.
pub data SoundMount : Mounted → Type 0 where
  unmounted : SoundMount none
  mounted : {k : ℕ} {fs : Filesystem} → Balanced k fs → Closed fs → SoundMount (some fs)

-- If the file holds a file system, it is such a one.
pub data SoundFile : DiskFile → Type 0 where
  missing_file : SoundFile missing
  empty_file : SoundFile empty
  short_file : SoundFile short
  image_file : {k : ℕ} {fs : Filesystem} → Balanced k fs → Closed fs → SoundFile (image fs)

module _ (host : Host) where
  new_fs-SoundMount : (memory : Bool) → SoundMount (new_fs host memory)
  unfolding new_fs
  new_fs-SoundMount true = mounted (fs_init-Balanced host zero_fs).0 (fs_init-Closed host zero_fs)
  new_fs-SoundMount false = unmounted

  fisops_init-SoundMount :
      (memory more : Bool) (file : DiskFile)
      → SoundFile file
      → SoundMount (fisops_init host memory more file)
  unfolding fisops_init
  fisops_init-SoundMount memory more _ missing_file = new_fs-SoundMount memory
  fisops_init-SoundMount memory more _ empty_file = new_fs-SoundMount memory
  fisops_init-SoundMount true more _ short_file = new_fs-SoundMount more
  fisops_init-SoundMount false more _ short_file = unmounted
  fisops_init-SoundMount true more _ (image_file b c) = mounted b c
  fisops_init-SoundMount false more _ (image_file b c) = unmounted

fisops_destroy-SoundFile :
    (saving : Saving) (context : Mounted) (file : DiskFile)
    → SoundMount context
    → SoundFile file
    → SoundFile (fisops_destroy saving context file)
unfolding fisops_destroy
fisops_destroy-SoundFile saving _ file unmounted h = h
fisops_destroy-SoundFile unopened _ file (mounted b c) h = h
fisops_destroy-SoundFile (interrupted true) _ file (mounted b c) h = short_file
fisops_destroy-SoundFile (interrupted false) _ file (mounted b c) h = empty_file
fisops_destroy-SoundFile complete _ file (mounted b c) h = image_file b c

-- Whichever of the calls on the file and of the requests for memory fail, `fisops_destroy` and then
-- `fisops_init` leave no file system mounted or one that is balanced but for lost blocks and whose
-- directories number inodes of the table, if that held of what was mounted and of what the file held.
pub fisops_init-fisops_destroy :
    (host : Host) (memory more : Bool) (saving : Saving) (context : Mounted) (file : DiskFile)
    → SoundMount context
    → SoundFile file
    → SoundMount (fisops_init host memory more (fisops_destroy saving context file))
fisops_init-fisops_destroy host memory more saving context file m f =
    fisops_init-SoundMount host memory more _ (fisops_destroy-SoundFile saving context file m f)
