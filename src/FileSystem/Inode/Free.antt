-- ===== src/FileSystem/Inode/Free.antt =====
-- What freeing the blocks of an inode does to the map of blocks.
use sistemas_operativos.Prelude.{
  ℕ, zero, suc, ◌+◌, ◌<◌, ◌≤◌, ◌≡◌, refl, sym, ◌∙◌, ◌≢◌, arith, leb, ltb, ◌&&◌, ==→≡, ◌==◌,
  if◌then◌else◌, update, Bool-cases, ==→≢, inl, inr,
}
use sistemas_operativos.FileSystem.State.{max_blocks, no_block, Intmap}
use sistemas_operativos.FileSystem.Intmap.{clear_block_used}
use sistemas_operativos.FileSystem.Intmap.Counts.{used_blocks, clear_block_used-counts}
use sistemas_operativos.FileSystem.Inode.{free_slot, free_slots}

add_parts : (a b c d e : ℕ) → a + b ≡ c → c + d ≡ e → a + (d + b) ≡ e
add_parts a b c d e p q = omega arith

-- how many of the slots from `slot` on hold a block
unfoldable pub held : (ℕ → ℕ) → ℕ → ℕ → ℕ
held ptrs zero slot = 0
held ptrs (suc left) slot = (if ptrs slot == no_block then 0 else 1) + held ptrs left (slot + 1)

-- Slots `lo` to `hi - 1` hold distinct blocks of the disk, each marked in the map.
pub record SlotsMarked (bm : Intmap) (ptrs : ℕ → ℕ) (lo hi : ℕ) : Type 0 where
  pub on_disk : (s : ℕ) → lo ≤ s → s < hi → ptrs s ≢ no_block → ptrs s < max_blocks
  pub marked : (s : ℕ) → lo ≤ s → s < hi → ptrs s ≢ no_block → bm.blocks (ptrs s) ≢ 0
  pub distinct : (s t : ℕ) → lo ≤ s → s < t → t < hi → ptrs s ≢ no_block → ptrs s ≢ ptrs t

module _ (bm : Intmap) (block : ℕ) where
  free_slot-inodes : (free_slot bm block).inodes ≡ bm.inodes
  unfolding free_slot clear_block_used
  free_slot-inodes = ground arith

  free_slot-other :
      (b : ℕ) → (block ≢ no_block → block ≢ b) → (free_slot bm block).blocks b ≡ bm.blocks b
  unfolding free_slot clear_block_used update
  free_slot-other b h = ground (arith, h)

  free_slot-counts :
      (block ≢ no_block → block < max_blocks)
      → (block ≢ no_block → bm.blocks block ≢ 0)
      → used_blocks (free_slot bm block) + (if block == no_block then 0 else 1) ≡ used_blocks bm
  unfolding free_slot
  free_slot-counts h k = elim (Bool-cases (block == no_block)) [
    | inl e ↦ rw (e, free_slot) (omega arith)
    | inr e ↦
        let ne : block ≢ no_block = ==→≢ _ _ e in
        rw (e, free_slot) (clear_block_used-counts bm block (h ne) (k ne))
  ]

pub free_slots-inodes :
    (bm : Intmap) (ptrs : ℕ → ℕ) (left slot : ℕ) → (free_slots bm ptrs left slot).inodes ≡ bm.inodes
unfolding free_slots
free_slots-inodes bm ptrs zero slot = refl
free_slots-inodes bm ptrs (suc left) slot =
    free_slots-inodes (free_slot bm (ptrs slot)) ptrs left (slot + 1)
    ∙ free_slot-inodes bm (ptrs slot)

-- A block that no slot holds keeps its mark.
pub free_slots-other :
    (bm : Intmap) (ptrs : ℕ → ℕ) (left slot b : ℕ)
    → ((s : ℕ) → slot ≤ s → s < slot + left → ptrs s ≢ no_block → ptrs s ≢ b)
    → (free_slots bm ptrs left slot).blocks b ≡ bm.blocks b
unfolding free_slots
free_slots-other bm ptrs zero slot b h = refl
free_slots-other bm ptrs (suc left) slot b h =
    free_slots-other (free_slot bm (ptrs slot)) ptrs left (slot + 1) b
      (λ s p q. h s (omega arith) (omega arith))
    ∙ free_slot-other bm (ptrs slot) b (h slot (omega arith) (omega arith))

SlotsMarked-step :
    (bm : Intmap) (ptrs : ℕ → ℕ) (lo hi : ℕ)
    → lo < hi
    → SlotsMarked bm ptrs lo hi
    → SlotsMarked (free_slot bm (ptrs lo)) ptrs (lo + 1) hi
SlotsMarked-step bm ptrs lo hi h m = record {
  on_disk = λ s p q. m.on_disk s (omega arith) q;
  marked = λ s p q r e. m.marked s (omega arith) q r (
      sym (free_slot-other bm (ptrs lo) (ptrs s) (m.distinct lo s (omega arith) (omega arith) q))
      ∙ e);
  distinct = λ s t p q. m.distinct s t (omega arith) q;
}

-- Freeing gives back exactly the blocks that the slots hold.
pub free_slots-counts :
    (bm : Intmap) (ptrs : ℕ → ℕ) (left slot hi : ℕ)
    → slot + left ≡ hi
    → SlotsMarked bm ptrs slot hi
    → used_blocks (free_slots bm ptrs left slot) + held ptrs left slot ≡ used_blocks bm
unfolding free_slots held
free_slots-counts bm ptrs zero slot hi h m = omega arith
free_slots-counts bm ptrs (suc left) slot hi h m =
    let rest =
      free_slots-counts (free_slot bm (ptrs slot)) ptrs left (slot + 1) hi (omega arith)
        (SlotsMarked-step bm ptrs slot hi (omega arith) m) in
    let first =
      free_slot-counts bm (ptrs slot) (m.on_disk slot (omega arith) (omega arith))
        (m.marked slot (omega arith) (omega arith)) in
    add_parts _ _ _ _ _ rest first

free_slot-zero : (bm : Intmap) (block b : ℕ) → bm.blocks b ≡ 0 → (free_slot bm block).blocks b ≡ 0
unfolding free_slot clear_block_used update
free_slot-zero bm block b e = ground arith

free_slots-zero :
    (bm : Intmap) (ptrs : ℕ → ℕ) (left slot b : ℕ)
    → bm.blocks b ≡ 0
    → (free_slots bm ptrs left slot).blocks b ≡ 0
unfolding free_slots
free_slots-zero bm ptrs zero slot b e = e
free_slots-zero bm ptrs (suc left) slot b e =
    free_slots-zero (free_slot bm (ptrs slot)) ptrs left (slot + 1) b
      (free_slot-zero bm (ptrs slot) b e)

free_slot-cleared :
    (bm : Intmap) (block : ℕ) → block < max_blocks → (free_slot bm block).blocks block ≡ 0
unfolding free_slot clear_block_used update
free_slot-cleared bm block h = ground arith

-- The block of a slot is not marked any more.
pub free_slots-cleared :
    (bm : Intmap) (ptrs : ℕ → ℕ) (left slot s : ℕ)
    → slot ≤ s
    → s < slot + left
    → ptrs s < max_blocks
    → (free_slots bm ptrs left slot).blocks (ptrs s) ≡ 0
unfolding free_slots
free_slots-cleared bm ptrs zero slot s p q h = absurd (omega arith)
free_slots-cleared bm ptrs (suc left) slot s p q h = elim (Bool-cases (s == slot)) [
  | inl e ↦
      free_slots-zero (free_slot bm (ptrs slot)) ptrs left (slot + 1) (ptrs s)
        (rw (==→≡ s slot e) (free_slot-cleared bm (ptrs slot) (rw (← ==→≡ s slot e) h)))
  | inr e ↦
      free_slots-cleared (free_slot bm (ptrs slot)) ptrs left (slot + 1) s (ground arith)
        (omega arith) h
]

-- A slot that alone holds a block makes one.
pub held_one :
    (ptrs : ℕ → ℕ) (slot b left lo : ℕ)
    → ((s : ℕ) → ptrs s ≡ no_block)
    → b < max_blocks
    → held (update ptrs slot b) left lo ≡ (if leb lo slot && ltb slot (lo + left) then 1 else 0)
unfolding held update
held_one ptrs slot b zero lo empty h = ground arith
held_one ptrs slot b (suc left) lo empty h =
    ground (arith, held_one ptrs slot b left (lo + 1), empty lo)

pub held_none : (ptrs : ℕ → ℕ) (left lo : ℕ) → ((s : ℕ) → ptrs s ≡ no_block) → held ptrs left lo ≡ 0
unfolding held
held_none ptrs zero lo empty = refl
held_none ptrs (suc left) lo empty = ground (arith, held_none ptrs left (lo + 1), empty lo)
