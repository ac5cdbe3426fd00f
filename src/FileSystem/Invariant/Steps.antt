-- ===== src/FileSystem/Invariant/Steps.antt =====
-- The steps that operations are made of keep the balance.
use sistemas_operativos.Prelude.{
  ℕ, suc, ◌+◌, ◌%◌, ◌^◌, ◌<◌, ◌≡◌, refl, sym, ap, fun_ext, ◌∙◌, ◌≢◌, inl, inr, arith, leb, ◌==◌,
  ◌&&◌, if◌then◌else◌, false, Bool-cases, ==→≡, ==→≢, ==_refl, dec_mod, inc_mod, update,
  update_self, update_ne, count_used, count_used-le,
}
use sistemas_operativos.FileSystem.State.{
  max_inodes, max_blocks, num_direct_blocks, no_block, Inode, Intmap, Filesystem, Host,
}
use sistemas_operativos.FileSystem.Intmap.{
  set_inode_used, clear_inode_used, set_block_used, clear_block_used,
}
use sistemas_operativos.FileSystem.Intmap.Counts.{
  used_inodes, set_inode_used-counts, clear_inode_used-counts, set_block_used-counts,
  set_inode_used-blocks, clear_inode_used-blocks, set_block_used-inodes, clear_block_used-inodes,
}
use sistemas_operativos.FileSystem.Inode.{
  inode_init, modify_inode, take_inode, put_block, free_slots, inode_free,
}
use sistemas_operativos.FileSystem.Inode.Free.{
  held, SlotsMarked, free_slots-inodes, free_slots-other, free_slots-counts, free_slots-cleared,
}
use sistemas_operativos.FileSystem.Memory.{Bytes}
use sistemas_operativos.FileSystem.Table.{
  set_bytes, inc_free_inodes, dec_free_inodes, inc_free_blocks, dec_free_blocks,
}
use sistemas_operativos.FileSystem.Paths.Frame.{SameButReads}
use sistemas_operativos.FileSystem.Create.{give_back}
use sistemas_operativos.FileSystem.Invariant.{pointers, Owned, Balanced}
use sistemas_operativos.FileSystem.Invariant.Ownership.{Owned-shrink, Owned-grow}

dec_counted :
    (f u u' k : ℕ)
    → (f + u + k) % 2 ^ 32 ≡ max_blocks
    → u' ≡ u + 1
    → (dec_mod (2 ^ 32) f + u' + k) % 2 ^ 32 ≡ max_blocks
dec_counted f u u' k p q = omega arith

inc_counted :
    (f u k : ℕ)
    → (f + u + suc k) % 2 ^ 32 ≡ max_blocks
    → (inc_mod (2 ^ 32) f + u + k) % 2 ^ 32 ≡ max_blocks
inc_counted f u k p = omega arith

more_lost :
    (f u u' k h : ℕ)
    → (f + u + k) % 2 ^ 32 ≡ max_blocks
    → u' + h ≡ u
    → (f + u' + (k + h)) % 2 ^ 32 ≡ max_blocks
more_lost f u u' k h p q = ap (λ n. n % 2 ^ 32) {x = f + u' + (k + h)} (omega arith) ∙ p

pub inc_inodes :
    (f u u' : ℕ) → f + u ≡ max_inodes → u' + 1 ≡ u → inc_mod (2 ^ 32) f + u' ≡ max_inodes
inc_inodes f u u' p q = omega arith

not_beyond : (i : ℕ) → i < max_inodes → leb max_inodes i ≡ false
not_beyond i h = ground arith

lt_irrefl : (s t : ℕ) → s < t → s ≡ t → ⊥
lt_irrefl s t p q = omega arith

put_cell :
    (inodes : ℕ → Inode) (i slot c j s : ℕ)
    → let new : Inode = record (inodes i) {
      direct_block_ptrs = update (inodes i).direct_block_ptrs slot c;
    } in
      (update inodes i new j).direct_block_ptrs s
      ≡ (if (j == i) && (s == slot) then c else (inodes j).direct_block_ptrs s)
unfolding update
put_cell inodes i slot c j s = elim (Bool-cases (j == i)) [
  | inl e ↦ rw (==→≡ j i e, ==_refl i) refl
  | inr e ↦ rw e refl
]

pub marked_cell :
    (bm : Intmap) (c : ℕ)
    → c < max_blocks
    → (x : ℕ) → (set_block_used bm c).blocks x ≡ (if x == c then 1 else bm.blocks x)
unfolding set_block_used update
marked_cell bm c fits x = ground arith

module _ {k : ℕ} (fs : Filesystem) (b : Balanced k fs) where
  pub Balanced-reads : (gs : Filesystem) → SameButReads fs gs → Balanced k gs
  Balanced-reads gs h = record {
    inodes_counted = rw (h.superblock, h.intmap) b.inodes_counted;
    blocks_counted = rw (h.superblock, h.intmap) b.blocks_counted;
    owned = Owned-shrink b.owned λ i s p q ne. (
      ap (λ (n : Inode). n.direct_block_ptrs s) (h.inodes i),
      ap (λ m. m.blocks (pointers fs i s)) h.intmap,
    );
  }

  pub Balanced-bytes : (m : Bytes) → Balanced k (set_bytes fs m)
  Balanced-bytes m = record {
    inodes_counted = b.inodes_counted;
    blocks_counted = b.blocks_counted;
    owned = b.owned;
  }

  pub Balanced-modify :
      (i : ℕ) (f : Inode → Inode)
      → ((s : ℕ) → (f (fs.inodes i)).direct_block_ptrs s ≡ pointers fs i s)
      → Balanced k (modify_inode fs i f)
  unfolding modify_inode
  Balanced-modify i f keep = record {
    inodes_counted = b.inodes_counted;
    blocks_counted = b.blocks_counted;
    owned = Owned-shrink b.owned λ j s p q ne. (same j s, refl);
  }
    where
      same :
          (j s : ℕ) → (update fs.inodes i (f (fs.inodes i)) j).direct_block_ptrs s ≡ pointers fs j s
      same j s = elim (Bool-cases (j == i)) [
        | inl e ↦ rw (==→≡ j i e, update_self) (keep s)
        | inr e ↦ ap (λ (n : Inode). n.direct_block_ptrs s) (update_ne fs.inodes i _ j (==→≢ _ _ e))
      ]

  -- a free inode is taken and initialised, and counted
  pub Balanced-claim :
      (host : Host) (i : ℕ) (f : Inode → Inode)
      → i < max_inodes
      → fs.intmap.inodes i ≡ 0
      → ((s : ℕ) → (f (inode_init host)).direct_block_ptrs s ≡ no_block)
      → Balanced k (modify_inode (dec_free_inodes (take_inode host fs i)) i f)
  unfolding modify_inode dec_free_inodes take_inode
  Balanced-claim host i f fits free empty = record {
    inodes_counted = omega (
      arith,
      b.inodes_counted,
      set_inode_used-counts fs.intmap i fits free,
      count_used-le max_inodes (set_inode_used fs.intmap i).inodes,
    );
    blocks_counted = rw (set_inode_used-blocks fs.intmap i) b.blocks_counted;
    owned = Owned-shrink b.owned λ j s p q ne.
        (same j s ne, ap (λ g. g (pointers fs j s)) (set_inode_used-blocks fs.intmap i));
  }
    where
      new : ℕ → Inode
      new =
          update (update fs.inodes i (inode_init host)) i
            (f (update fs.inodes i (inode_init host) i))

      same :
          (j s : ℕ)
          → (new j).direct_block_ptrs s ≢ no_block
          → (new j).direct_block_ptrs s ≡ pointers fs j s
      same j s ne = elim (Bool-cases (j == i)) [
        | inl e ↦ absurd (ne (rw (==→≡ j i e, update_self, update_self) (empty s)))
        | inr e ↦
            ap (λ (n : Inode). n.direct_block_ptrs s)
              (update_ne _ i _ j (==→≢ _ _ e) ∙ update_ne fs.inodes i _ j (==→≢ _ _ e))
      ]

  -- a free block is put in a slot, and counted
  pub Balanced-put :
      (i slot c : ℕ)
      → c < max_blocks
      → fs.intmap.blocks c ≡ 0
      → Balanced k (dec_free_blocks (put_block fs i slot c))
  unfolding modify_inode dec_free_blocks put_block
  Balanced-put i slot c fits free = record {
    inodes_counted = rw (set_block_used-inodes fs.intmap c) b.inodes_counted;
    blocks_counted =
        dec_counted _ _ _ k b.blocks_counted (set_block_used-counts fs.intmap c fits free);
    owned =
        Owned-grow b.owned i slot c fits free (put_cell fs.inodes i slot c)
          (marked_cell fs.intmap c fits);
  }

-- One of the blocks that were not counted is counted again.
pub Balanced-recount :
    {k : ℕ} (fs : Filesystem) → Balanced (suc k) fs → Balanced k (inc_free_blocks fs)
unfolding inc_free_blocks
Balanced-recount {k} fs b = record {
  inodes_counted = b.inodes_counted;
  blocks_counted = inc_counted _ _ k b.blocks_counted;
  owned = b.owned;
}

-- The slots of an inode of the table are marked blocks, and distinct.
pub Owned-SlotsMarked :
    (fs : Filesystem) (i : ℕ)
    → i < max_inodes
    → Owned (pointers fs) fs.intmap.blocks
    → SlotsMarked fs.intmap (pointers fs i) 0 num_direct_blocks
Owned-SlotsMarked fs i fits o = record {
  on_disk = λ s p q. o.on_disk i s fits q;
  marked = λ s p q. o.marked i s fits q;
  distinct = λ s t p q r ne e.
      absurd (lt_irrefl s t q (o.unshared i s i t fits (omega arith) fits r ne e).1);
}

-- An inode that is in use is given back: its blocks are freed and are not counted.
module _ {k : ℕ} (fs : Filesystem) (b : Balanced k fs) (host : Host) (i : ℕ)
    (fits : i < max_inodes) where
  freed : Intmap
  freed = free_slots fs.intmap (pointers fs i) num_direct_blocks 0

  give_back_lem :
      give_back host fs i
      ≡ inc_free_inodes
          (modify_inode (record fs { intmap = clear_inode_used freed i }) i (λ _. inode_init host))
  unfolding give_back inode_free freed
  give_back_lem = rw (not_beyond i fits) refl

  freed-other :
      (j s : ℕ)
      → j < max_inodes
      → s < num_direct_blocks
      → j ≢ i
      → pointers fs j s ≢ no_block
      → freed.blocks (pointers fs j s) ≡ fs.intmap.blocks (pointers fs j s)
  unfolding freed
  freed-other j s p q ne held_by_j =
      free_slots-other fs.intmap (pointers fs i) num_direct_blocks 0 (pointers fs j s)
        λ t c d h e. ne (sym (b.owned.unshared i t j s fits d p q h e).0)

  Balanced-freed :
      fs.intmap.inodes i ≢ 0
      → Balanced (k + held (pointers fs i) num_direct_blocks 0) (
          inc_free_inodes (
            modify_inode
              (record fs { intmap = clear_inode_used freed i })
              i
              (λ _. inode_init host)))
  unfolding inc_free_inodes modify_inode freed inode_init
  Balanced-freed used = record {
    inodes_counted = inc_inodes _ _ _ b.inodes_counted cleared;
    blocks_counted = rw (clear_inode_used-blocks freed i) (
        more_lost _ _ _ k _ b.blocks_counted (
          free_slots-counts fs.intmap (pointers fs i) num_direct_blocks 0 num_direct_blocks
            (omega arith) (Owned-SlotsMarked fs i fits b.owned)));
    owned = Owned-shrink b.owned λ j s p q ne. (
      ap (λ (n : Inode). n.direct_block_ptrs s) (other j s ne),
      ap (λ g. g (pointers fs j s)) (clear_inode_used-blocks freed i)
          ∙ freed-other j s p q (not_i j s ne)
              (λ e. ne (ap (λ (n : Inode). n.direct_block_ptrs s) (other j s ne) ∙ e)),
    );
  }
    where
      same_inodes : (x : ℕ) → freed.inodes x ≡ fs.intmap.inodes x
      same_inodes x =
          ap (λ g. g x) (free_slots-inodes fs.intmap (pointers fs i) num_direct_blocks 0)

      cleared : used_inodes (clear_inode_used freed i) + 1 ≡ used_inodes fs.intmap
      cleared =
          clear_inode_used-counts freed i fits (λ e. used (sym (same_inodes i) ∙ e))
          ∙ ap (count_used max_inodes)
              (free_slots-inodes fs.intmap (pointers fs i) num_direct_blocks 0)

      not_i :
          (j s : ℕ)
          → (update fs.inodes i (inode_init host) j).direct_block_ptrs s ≢ no_block
          → j ≢ i
      not_i j s ne e = ne (rw (e, update_self) refl)

      other :
          (j s : ℕ)
          → (update fs.inodes i (inode_init host) j).direct_block_ptrs s ≢ no_block
          → update fs.inodes i (inode_init host) j ≡ fs.inodes j
      other j s ne = update_ne fs.inodes i _ j (not_i j s ne)

  pub Balanced-give_back :
      fs.intmap.inodes i ≢ 0
      → Balanced (k + held (pointers fs i) num_direct_blocks 0) (give_back host fs i)
  Balanced-give_back used = rw give_back_lem (Balanced-freed used)

  freed-cleared :
      (s : ℕ)
      → s < num_direct_blocks
      → pointers fs i s < max_blocks
      → (inc_free_inodes (
            modify_inode
              (record fs { intmap = clear_inode_used freed i })
              i
              (λ _. inode_init host))).intmap.blocks
          (pointers fs i s)
        ≡ 0
  unfolding inc_free_inodes modify_inode freed
  freed-cleared s p q =
      ap (λ g. g (pointers fs i s)) (clear_inode_used-blocks freed i)
      ∙ free_slots-cleared fs.intmap (pointers fs i) num_direct_blocks 0 s (omega arith) p q

  -- Its blocks are not marked any more.
  pub give_back-cleared :
      (s : ℕ)
      → s < num_direct_blocks
      → pointers fs i s < max_blocks
      → (give_back host fs i).intmap.blocks (pointers fs i s) ≡ 0
  give_back-cleared s p q = rw give_back_lem (freed-cleared s p q)

-- Clearing the mark of a block that has none changes nothing.
clear_idle : (bm : Intmap) (b : ℕ) → bm.blocks b ≡ 0 → (clear_block_used bm b).blocks ≡ bm.blocks
unfolding clear_block_used update
clear_idle bm b e = fun_ext λ x. elim (Bool-cases (x == b)) [
  | inl h ↦ ground (arith, ap bm.blocks (==→≡ x b h))
  | inr h ↦ ground arith
]

pub Balanced-clear :
    {k : ℕ} (fs : Filesystem) (b : ℕ)
    → Balanced k fs
    → fs.intmap.blocks b ≡ 0
    → Balanced k (record fs { intmap = clear_block_used fs.intmap b })
Balanced-clear {k} fs b bal e = record {
  inodes_counted = rw (clear_block_used-inodes fs.intmap b) bal.inodes_counted;
  blocks_counted = rw (clear_idle fs.intmap b e) bal.blocks_counted;
  owned =
      Owned-shrink bal.owned
        λ j s p q ne. (refl, ap (λ g. g (pointers fs j s)) (clear_idle fs.intmap b e));
}
