-- ===== src/FileSystem/Invariant/Writing.antt =====
-- `fs_write_file` keeps the balance, and its loop ends by itself.
use sistemas_operativos.Prelude.{
  ℕ, zero, suc, ◌/◌, ◌%◌, ◌^◌, refl, inl, inr, leb, ltb, ◌==◌, if◌then◌else◌, Bool, ◌||◌,
  Bool-cases, List, length, ℤ, pos, negsuc, neg, is_neg, Option, none, some,
}
use sistemas_operativos.FileSystem.State.{num_direct_blocks, Inode, Filesystem, Host}
use sistemas_operativos.FileSystem.Inode.{
  modify_inode, inode_get_direct_block, inode_update_atime, inode_update_mtime, inode_update_ctime,
}
use sistemas_operativos.FileSystem.Directory.{directory_lookup, get_directory_by_inode}
use sistemas_operativos.FileSystem.Table.{
  ◌>>=◌, table_index, dec_free_blocks, touch_access, touch_modified, touch_changed,
}
use sistemas_operativos.FileSystem.Table.Holds.{
  Holds, undefined, result, Holds->>=, Holds-index, Holds-if, Holds-option, Holds-int,
}
use sistemas_operativos.FileSystem.Paths.{Parent, failed, parent, fs_resolve_parent}
use sistemas_operativos.FileSystem.Paths.Frame.{SameButReads, fs_resolve_parent-SameButReads}
use sistemas_operativos.FileSystem.Create.{grow}
use sistemas_operativos.FileSystem.ReadWrite.{
  find_file, block_for, Written, Round, stop, go, copy_round, write_round, write_from, write_rounds,
  finish_write, write_inode, fs_write_file,
}
use sistemas_operativos.FileSystem.Invariant.{Balanced}
use sistemas_operativos.FileSystem.Invariant.Steps.{
  Balanced-reads, Balanced-bytes, Balanced-modify, Balanced-put,
}
use sistemas_operativos.FileSystem.Invariant.Fresh.{grow-Grows}

find_file-SameButReads :
    (host : Host) (fs : Filesystem) (path : List ℕ)
    → Holds (λ r. SameButReads fs) (find_file host fs path)
unfolding find_file
find_file-SameButReads host fs path =
    Holds->>= (λ r. SameButReads fs) (λ r. SameButReads fs) (fs_resolve_parent host fs path) _
      (fs_resolve_parent-SameButReads host fs path) below
  where
    below :
        (found : Parent) (gs : Filesystem)
        → SameButReads fs gs
        → Holds
            (λ r. SameButReads fs)
            (elim found [
              | failed code ↦ some (neg 1, gs)
              | parent p name ↦ elim (get_directory_by_inode (gs.inodes p)) [
                | none ↦ some (neg 1, gs)
                | some dir ↦
                    let number = directory_lookup gs.bytes dir name in
                    some (if is_neg number then neg 1 else number, gs)
              ]
            ])
    below (failed code) gs h = result h
    below (parent p name) gs h =
        Holds-option (λ r. SameButReads fs) (get_directory_by_inode (gs.inodes p)) _ _
          (λ e. result h) (λ dir e. result h)

grown-Balanced :
    {k : ℕ} (fs : Filesystem) (i : ℕ)
    → Balanced k fs
    → Balanced k (if is_neg (grow fs i).0 then (grow fs i).1 else dec_free_blocks (grow fs i).1)
grown-Balanced fs i bal = elim (grow-Grows fs i) [
  | inl (b, slot, e, block, place) ↦ rw e (Balanced-put fs bal i slot b block.below block.here)
  | inr (e, full) ↦ rw e bal
]

block_for-Balanced :
    {k : ℕ} (fs : Filesystem) (i index : ℕ) → Balanced k fs → Balanced k (block_for fs i index).1
unfolding block_for
block_for-Balanced {k} fs i index bal = cases (inode_get_direct_block (fs.inodes i) index)
  where
    cases :
        (n : ℤ)
        → Balanced k
            (elim n as (λ n. ℤ × Filesystem) [
              | pos b ↦ (pos b, fs)
              | negsuc e ↦
                  let (block, fs1) = grow fs i in
                  (block, if is_neg block then fs1 else dec_free_blocks fs1)
            ]).1
    cases (pos b) = bal
    cases (negsuc e) = grown-Balanced fs i bal

-- a condition on the state after a round
abbrev OfRound : (Written → Type 0) → Round → Type 0
OfRound P (stop w) = P w
OfRound P (go rest w) = P w

write_round-Balanced :
    {k : ℕ} (i : ℕ) (src : List ℕ) (w : Written)
    → Balanced k w.fs
    → OfRound (λ w'. Balanced k w'.fs) (write_round i src w)
unfolding write_round copy_round
write_round-Balanced {k} i src w bal =
    elim (Bool-cases
      (length src == 0 || leb num_direct_blocks (w.position / w.fs.superblock.block_size_bytes))) [
        | inl e ↦ rw e bal
        | inr e ↦ rw e (
            copied (block_for w.fs i (w.position / w.fs.superblock.block_size_bytes))
              (block_for-Balanced w.fs i _ bal))
      ]
  where
    copied :
        (r : ℤ × Filesystem)
        → Balanced k r.1
        → OfRound (λ w'. Balanced k w'.fs) (copy_round src w r)
    copied (negsuc e, fs) b = b
    copied (pos c, fs) b = Balanced-bytes fs b _

-- What holds of the state that the loop ends with, if it ends.
abbrev Ends : (Written → Type 0) → Option Written → Type 0
Ends P none = Unit {0}
Ends P (some w) = P w

write_from-Balanced :
    {k : ℕ} (fuel i : ℕ) (src : List ℕ) (w : Written)
    → Balanced k w.fs
    → Ends (λ w'. Balanced k w'.fs) (write_from fuel i src w)
unfolding write_from
write_from-Balanced zero i src w bal = tt
write_from-Balanced {k} (suc fuel) i src w bal =
    next (write_round i src w) (write_round-Balanced i src w bal) (write_from-Balanced fuel i)
  where
    next :
        (r : Round)
        → OfRound (λ w'. Balanced k w'.fs) r
        → ((rest : List ℕ) (w' : Written)
            → Balanced k w'.fs
            → Ends (λ w'. Balanced k w'.fs) (write_from fuel i rest w'))
        → Ends
            (λ w'. Balanced k w'.fs)
            (elim r [ stop w' ↦ some w' | go rest w' ↦ write_from fuel i rest w' ])
    next (stop w') b more = b
    next (go rest w') b more = more rest w' b

finish_write-Balanced :
    {k : ℕ} (host : Host) (i : ℕ) (w : Written)
    → Balanced k w.fs
    → Balanced k (finish_write host i w).1
unfolding finish_write touch_access touch_changed touch_modified
finish_write-Balanced {k} host i w bal =
    Balanced-modify _
      (Balanced-modify _ (Balanced-modify _ sized i (inode_update_mtime host) (λ s. refl)) i
        (inode_update_ctime host) (λ s. refl))
      i (inode_update_atime host) (λ s. refl)
  where
    set_size : Inode → Inode
    set_size inode = record inode { file_size_bytes = w.position % 2 ^ 32 }

    sized : Balanced k (
        if ltb (w.fs.inodes i).file_size_bytes w.position
        then modify_inode w.fs i set_size
        else w.fs)
    sized = elim (Bool-cases (ltb (w.fs.inodes i).file_size_bytes w.position)) [
      | inl e ↦ rw e (Balanced-modify w.fs bal i set_size (λ s. refl))
      | inr e ↦ rw e bal
    ]

write_inode-Balanced :
    {k : ℕ} (host : Host) (fs : Filesystem) (i : ℕ) (src : List ℕ) (offset : ℕ)
    → Balanced k fs
    → Holds (λ r. Balanced k) (write_inode host fs i src offset)
unfolding write_inode
write_inode-Balanced {k} host fs i src offset bal =
    finish (write_from write_rounds i src start) (write_from-Balanced write_rounds i src start bal)
  where
    start : Written
    start = record { count = 0; position = offset; fs = fs }

    finish :
        (o : Option Written)
        → Ends (λ w'. Balanced k w'.fs) o
        → Holds (λ r. Balanced k) (o >>= λ w. some (finish_write host i w))
    finish none h = undefined
    finish (some w) h = result (finish_write-Balanced host i w h)

-- `fs_write_file` keeps the balance, whether it writes all, some or nothing of the buffer.
pub fs_write_file-Balanced :
    (k : ℕ) (host : Host) (fs : Filesystem) (path src : List ℕ) (offset : ℕ) (append : Bool)
    → Balanced k fs
    → Holds (λ r. Balanced k) (fs_write_file host fs path src offset append)
unfolding fs_write_file
fs_write_file-Balanced k host fs path src offset append bal =
    Holds-if (λ r. Balanced k) (length src == 0) _ _ (λ e. result bal)
      λ e.
        Holds->>= (λ r. SameButReads fs) (λ r. Balanced k) (find_file host fs path) _
          (find_file-SameButReads host fs path)
          λ number gs h.
            Holds-int (λ r. Balanced k) number _ _
              (λ n e.
                Holds-index (λ r. Balanced k) (table_index (pos n)) _
                  λ i e. write_inode-Balanced host gs i src _ (Balanced-reads fs bal gs h))
              (λ n e. result (Balanced-reads fs bal gs h))
