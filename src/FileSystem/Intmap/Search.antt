-- ===== src/FileSystem/Intmap/Search.antt =====
-- What the searches and the updates of src/intmap.c answer.
use sistemas_operativos.Prelude.{
  ℕ, zero, suc, ◌+◌, Bool-cases, ==→≡, ==→≢, ◌<◌, ◌≡◌, refl, ◌≢◌, ◌⊎◌, inl, inr, arith, FirstAt,
  NoneAt, FirstAt-here, FirstAt-step, NoneAt-step, ltb, leb, ◌&&◌, ◌==◌, if◌then◌else◌, update, ℤ,
  pos, neg, is_zero, true, false,
}
use sistemas_operativos.FileSystem.State.{Intmap, max_inodes, max_blocks}
use sistemas_operativos.FileSystem.Intmap.{
  clear_from, intmap_init, is_inode_used, find_free_inode_from, find_free_inode, is_block_used,
  find_free_block_from, find_free_block,
}

-- a search for a free cell of `f` from `lo` on and below `hi`, answered in C's way
abbrev pub Finds : (ℕ → ℕ) → ℕ → ℕ → ℤ → Type 0
Finds f lo hi r = ((k : ℕ) × (r ≡ pos k) × FirstAt f 0 lo hi k) ⊎ ((r ≡ neg 1) × NoneAt f 0 lo hi)

Finds-here : (f : ℕ → ℕ) (lo hi : ℕ) → lo < hi → f lo ≡ 0 → Finds f lo hi (pos lo)
Finds-here f lo hi h e = inl (lo, refl, FirstAt-here f 0 lo hi h e)

Finds-step : (f : ℕ → ℕ) (lo hi : ℕ) (r : ℤ) → f lo ≢ 0 → Finds f (lo + 1) hi r → Finds f lo hi r
Finds-step f lo hi r ne (inl (k, e, first)) = inl (k, e, FirstAt-step f 0 lo hi k ne first)
Finds-step f lo hi r ne (inr (e, full)) = inr (e, NoneAt-step f 0 lo hi ne full)

pub block-is_zero :
    (bm : Intmap) (i : ℕ) → i < max_blocks → is_zero (is_block_used bm i) ≡ (bm.blocks i == 0)
unfolding is_block_used
block-is_zero bm i h = ground arith

find_free_block_from-Finds :
    (bm : Intmap) (left i : ℕ)
    → i + left ≡ max_blocks
    → Finds bm.blocks i max_blocks (find_free_block_from bm left i)
unfolding find_free_block_from
find_free_block_from-Finds bm zero i h = inr (refl, λ j a b. omega arith)
find_free_block_from-Finds bm (suc left) i h = elim (Bool-cases (bm.blocks i == 0)) [
  | inl free ↦
      rw (block-is_zero bm i (omega arith), free)
        (Finds-here bm.blocks i max_blocks (omega arith) (==→≡ _ _ free))
  | inr used ↦
      rw (block-is_zero bm i (omega arith), used)
        (Finds-step bm.blocks i max_blocks _ (==→≢ _ _ used)
          (find_free_block_from-Finds bm left (i + 1) (omega arith)))
]

-- `find_free_block` returns the lowest free block, and -1 exactly when no block is free.
pub find_free_block-Finds : (bm : Intmap) → Finds bm.blocks 0 max_blocks (find_free_block bm)
unfolding find_free_block
find_free_block-Finds bm = find_free_block_from-Finds bm max_blocks 0 (omega arith)

pub inode-is_zero :
    (bm : Intmap) (i : ℕ) → i < max_inodes → is_zero (is_inode_used bm i) ≡ (bm.inodes i == 0)
unfolding is_inode_used
inode-is_zero bm i h = ground arith

find_free_inode_from-found :
    (bm : Intmap) (left i : ℕ) (r : ℤ) → find_free_inode_from bm left i r true ≡ r
unfolding find_free_inode_from
find_free_inode_from-found bm zero i r = refl
find_free_inode_from-found bm (suc left) i r = refl

find_free_inode_from-Finds :
    (bm : Intmap) (left i : ℕ)
    → i + left ≡ max_inodes
    → Finds bm.inodes i max_inodes (find_free_inode_from bm left i (neg 1) false)
unfolding find_free_inode_from
find_free_inode_from-Finds bm zero i h = inr (refl, λ j a b. omega arith)
find_free_inode_from-Finds bm (suc left) i h = elim (Bool-cases (bm.inodes i == 0)) [
  | inl free ↦
      rw
        (inode-is_zero bm i (omega arith), free, find_free_inode_from-found bm left (i + 1) (pos i))
        (Finds-here bm.inodes i max_inodes (omega arith) (==→≡ _ _ free))
  | inr used ↦
      rw (inode-is_zero bm i (omega arith), used)
        (Finds-step bm.inodes i max_inodes _ (==→≢ _ _ used)
          (find_free_inode_from-Finds bm left (i + 1) (omega arith)))
]

-- `find_free_inode` returns the lowest free inode other than the root's, and -1 exactly when all
-- of them are in use.
pub find_free_inode-Finds : (bm : Intmap) → Finds bm.inodes 1 max_inodes (find_free_inode bm)
unfolding find_free_inode
find_free_inode-Finds bm = find_free_inode_from-Finds bm 127 1 (omega arith)

clear_from-zero :
    (left i : ℕ) (cells : ℕ → ℕ) (j : ℕ)
    → clear_from left i cells j ≡ (if leb i j && ltb j (i + left) then 0 else cells j)
unfolding clear_from update
clear_from-zero zero i cells j = ground arith
clear_from-zero (suc left) i cells j =
    ground (arith, clear_from-zero left (i + 1) (update cells i 0) j)

-- After `intmap_init` no inode and no block is in use.
pub intmap_init-free :
    (bm : Intmap)
    → ((i : ℕ) → i < max_inodes → (intmap_init bm).inodes i ≡ 0)
      × ((b : ℕ) → b < max_blocks → (intmap_init bm).blocks b ≡ 0)
unfolding intmap_init
intmap_init-free bm = (
  λ i h. ground (arith, clear_from-zero max_inodes 0 bm.inodes i),
  λ b h. ground (arith, clear_from-zero max_blocks 0 bm.blocks b),
)
