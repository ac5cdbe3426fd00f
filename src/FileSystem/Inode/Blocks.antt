-- ===== src/FileSystem/Inode/Blocks.antt =====
-- What `allocate_inode`, `inode_add_direct_block` and `inode_get_direct_block` answer.
use sistemas_operativos.Prelude.{
  ℕ, zero, suc, ◌+◌, ◌<◌, ◌≡◌, refl, ◌≢◌, ◌⊎◌, inl, inr, arith, leb, false, ◌==◌, Bool-cases, ==→≡,
  ==→≢, ℤ, pos, neg, FirstAt, NoneAt, FirstAt-here, FirstAt-step, NoneAt-step,
}
use sistemas_operativos.FileSystem.State.{
  max_inodes, max_blocks, num_direct_blocks, no_block, Filesystem, Host,
}
use sistemas_operativos.FileSystem.Intmap.Search.{inode-is_zero}
use sistemas_operativos.FileSystem.Inode.{
  take_inode, allocate_inode_from, allocate_inode, put_block, add_direct_block_from,
  inode_add_direct_block,
}

-- the outcome of an allocation that starts its search at `lo`
abbrev pub Allocates : Host → Filesystem → ℕ → ℤ × Filesystem → Type 0
Allocates host fs lo r =
    ((i : ℕ) × (r ≡ (pos i, take_inode host fs i)) × FirstAt fs.intmap.inodes 0 lo max_inodes i)
    ⊎ ((r ≡ (neg 1, fs)) × NoneAt fs.intmap.inodes 0 lo max_inodes)

Allocates-step :
    (host : Host) (fs : Filesystem) (lo : ℕ) (r : ℤ × Filesystem)
    → fs.intmap.inodes lo ≢ 0
    → Allocates host fs (lo + 1) r
    → Allocates host fs lo r
Allocates-step host fs lo r ne (inl (i, e, first)) =
    inl (i, e, FirstAt-step fs.intmap.inodes 0 lo max_inodes i ne first)
Allocates-step host fs lo r ne (inr (e, full)) =
    inr (e, NoneAt-step fs.intmap.inodes 0 lo max_inodes ne full)

allocate_inode_from-Allocates :
    (host : Host) (fs : Filesystem) (left lo : ℕ)
    → lo + left ≡ max_inodes
    → Allocates host fs lo (allocate_inode_from host fs left lo)
unfolding allocate_inode_from
allocate_inode_from-Allocates host fs zero lo h = inr (refl, λ j a b. omega arith)
allocate_inode_from-Allocates host fs (suc left) lo h =
    elim (Bool-cases (fs.intmap.inodes lo == 0)) [
      | inl free ↦
          rw (inode-is_zero fs.intmap lo (omega arith), free)
            (inl (
              lo,
              refl,
              FirstAt-here fs.intmap.inodes 0 lo max_inodes (omega arith) (==→≡ _ _ free),
            ))
      | inr used ↦
          rw (inode-is_zero fs.intmap lo (omega arith), used)
            (Allocates-step host fs lo _ (==→≢ _ _ used)
              (allocate_inode_from-Allocates host fs left (lo + 1) (omega arith)))
    ]

pub allocate_inode-Allocates :
    (host : Host) (fs : Filesystem) → Allocates host fs 0 (allocate_inode host fs)
unfolding allocate_inode
allocate_inode-Allocates host fs = allocate_inode_from-Allocates host fs max_inodes 0 (omega arith)

-- the outcome of adding a block to the slots from `lo` on
abbrev pub Adds : Filesystem → ℕ → ℕ → ℕ → ℤ × Filesystem → Type 0
Adds fs i block lo r =
    ((slot : ℕ) × (r ≡ (pos 0, put_block fs i slot block))
      × FirstAt (fs.inodes i).direct_block_ptrs no_block lo num_direct_blocks slot)
    ⊎ ((r ≡ (neg 1, fs)) × NoneAt (fs.inodes i).direct_block_ptrs no_block lo num_direct_blocks)

not_beyond : (block : ℕ) → block < max_blocks → leb max_blocks block ≡ false
not_beyond block h = ground arith

module _ (fs : Filesystem) (i block : ℕ) where
  Adds-step :
      (lo : ℕ) (r : ℤ × Filesystem)
      → (fs.inodes i).direct_block_ptrs lo ≢ no_block
      → Adds fs i block (lo + 1) r
      → Adds fs i block lo r
  Adds-step lo r ne (inl (slot, e, first)) = inl (
    slot,
    e,
    FirstAt-step (fs.inodes i).direct_block_ptrs no_block lo num_direct_blocks slot ne first,
  )
  Adds-step lo r ne (inr (e, full)) =
      inr (e, NoneAt-step (fs.inodes i).direct_block_ptrs no_block lo num_direct_blocks ne full)

  add_direct_block_from-Adds :
      (left lo : ℕ)
      → lo + left ≡ num_direct_blocks
      → Adds fs i block lo (add_direct_block_from fs i block left lo)
  unfolding add_direct_block_from
  add_direct_block_from-Adds zero lo h = inr (refl, λ j a b. omega arith)
  add_direct_block_from-Adds (suc left) lo h =
      elim (Bool-cases ((fs.inodes i).direct_block_ptrs lo == no_block)) [
        | inl free ↦ rw free (
            inl (
              lo,
              refl,
              FirstAt-here (fs.inodes i).direct_block_ptrs no_block lo num_direct_blocks
                  (omega arith) (==→≡ _ _ free),
            ))
        | inr used ↦ rw used (
            Adds-step lo _ (==→≢ _ _ used) (add_direct_block_from-Adds left (lo + 1) (omega arith)))
      ]

  pub inode_add_direct_block-Adds :
      block < max_blocks → Adds fs i block 0 (inode_add_direct_block fs i block)
  unfolding inode_add_direct_block
  inode_add_direct_block-Adds h =
      rw (not_beyond block h) (add_direct_block_from-Adds num_direct_blocks 0 (omega arith))
