-- ===== src/FileSystem/Invariant/Beyond.antt =====
-- `fs_write_file` at an offset behind the last slot of a file.
use sistemas_operativos.Prelude.{
  ℕ, suc, ◌*◌, ◌/◌, ◌^◌, ◌<◌, ◌≤◌, ◌≡◌, refl, ap, ◌∙◌, arith, leb, ltb, ◌==◌, ◌||◌, true, some,
  List, length, update_self, pos,
}
use sistemas_operativos.FileSystem.State.{block_size, num_direct_blocks, Filesystem, Host}
use sistemas_operativos.FileSystem.Inode.{
  modify_inode, inode_update_atime, inode_update_mtime, inode_update_ctime,
}
use sistemas_operativos.FileSystem.Table.{◌>>=◌, touch_access, touch_modified, touch_changed}
use sistemas_operativos.FileSystem.ReadWrite.{
  Written, stop, go, write_round, write_from, finish_write, write_inode,
}

behind_slots :
    (n bs offset : ℕ)
    → bs ≡ block_size
    → num_direct_blocks * block_size ≤ offset
    → (n == 0 || leb num_direct_blocks (offset / bs)) ≡ true
behind_slots n bs offset h p =
    ap (λ b. n == 0 || leb num_direct_blocks (offset / b)) h
    ∙ either n (offset / block_size) (omega arith)
  where
    either : (n q : ℕ) → num_direct_blocks ≤ q → (n == 0 || leb num_direct_blocks q) ≡ true
    either n q h = ground arith

larger : (size offset : ℕ) → size < offset → ltb size offset ≡ true
larger size offset h = ground arith

stops :
    (fs : Filesystem) (i : ℕ) (src : List ℕ) (offset : ℕ)
    → fs.superblock.block_size_bytes ≡ block_size
    → num_direct_blocks * block_size ≤ offset
    → let w : Written = record { count = 0; position = offset; fs = fs } in
      write_round i src w ≡ stop w
unfolding write_round
stops fs i src offset hb far =
    rw (behind_slots (length src) fs.superblock.block_size_bytes offset hb far) refl

one_round :
    (fuel i : ℕ) (src : List ℕ) (w : Written)
    → write_round i src w ≡ stop w
    → write_from (suc fuel) i src w ≡ some w
unfolding write_from
one_round fuel i src w e =
    ap (λ r. elim r [ stop w' ↦ some w' | go rest w' ↦ write_from fuel i rest w' ]) e

first_round :
    (host : Host) (fs : Filesystem) (i : ℕ) (src : List ℕ) (offset : ℕ)
    → fs.superblock.block_size_bytes ≡ block_size
    → num_direct_blocks * block_size ≤ offset
    → write_inode host fs i src offset
      ≡ some (finish_write host i (record { count = 0; position = offset; fs = fs }))
unfolding write_inode
first_round host fs i src offset hb far =
    ap (λ o. o >>= λ w. some (finish_write host i w))
      (one_round 12 i src _ (stops fs i src offset hb far))

-- A write at an offset of 49152 or more, behind the last slot of a file, copies nothing, returns 0, and
-- still raises the file size to the offset, if the size was smaller, the offset has 32 bits and the
-- superblock has the disk's block size.
pub write_inode-beyond :
    (host : Host) (fs : Filesystem) (i : ℕ) (src : List ℕ) (offset : ℕ)
    → fs.superblock.block_size_bytes ≡ block_size
    → num_direct_blocks * block_size ≤ offset
    → offset < 2 ^ 32
    → (fs.inodes i).file_size_bytes < offset
    → (gs : Filesystem) × (write_inode host fs i src offset ≡ some (pos 0, gs))
      × (gs.bytes ≡ fs.bytes)
      × ((gs.inodes i).file_size_bytes ≡ offset)
unfolding finish_write touch_access touch_modified touch_changed modify_inode inode_update_atime
    inode_update_mtime inode_update_ctime
write_inode-beyond host fs i src offset hb far fits small = (
  (finish_write host i (record { count = 0; position = offset; fs = fs })).1,
  first_round host fs i src offset hb far,
  rw (larger (fs.inodes i).file_size_bytes offset small) refl,
  rw
      (
        larger (fs.inodes i).file_size_bytes offset small,
        update_self,
        update_self,
        update_self,
        update_self,
      )
      (omega arith),
)
