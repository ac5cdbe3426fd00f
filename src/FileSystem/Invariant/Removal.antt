-- ===== src/FileSystem/Invariant/Removal.antt =====
-- `fs_delete_file` keeps the balance, and `fs_remove_directory` loses the directory's blocks.
use sistemas_operativos.Prelude.{
  ℕ, zero, suc, ◌+◌, ◌%◌, ◌^◌, ◌≡◌, ◌<◌, ◌≢◌, refl, sym, ap, ◌∙◌, inl, inr, arith, ◌==◌,
  if◌then◌else◌, Bool-cases, ==→≡, ==→≢, update, update_self, update_ne, List, Int-cases, pos,
  is_neg, is_zero, inc_mod, ◌⊎◌,
}
use sistemas_operativos.FileSystem.State.{
  max_inodes, max_blocks, num_direct_blocks, no_block, Inode, Intmap, Filesystem, Host,
}
use sistemas_operativos.FileSystem.Intmap.{clear_inode_used, clear_block_used}
use sistemas_operativos.FileSystem.Intmap.Counts.{
  clear_inode_used-counts, clear_block_used-counts, clear_inode_used-blocks,
  clear_block_used-inodes,
}
use sistemas_operativos.FileSystem.Inode.{
  inode_init, modify_inode, inode_decrement_links, inode_get_direct_block, inode_update_ctime,
  inode_update_mtime,
}
use sistemas_operativos.FileSystem.Inode.Free.{held}
use sistemas_operativos.FileSystem.Memory.{Bytes}
use sistemas_operativos.FileSystem.Directory.{directory_remove_entry}
use sistemas_operativos.FileSystem.Table.{
  set_bytes, inc_free_inodes, inc_free_blocks, touch_modified, touch_changed,
}
use sistemas_operativos.FileSystem.Create.{give_back}
use sistemas_operativos.FileSystem.Remove.{
  release_slot, release_from, release_inode, drop_link, unlink, remove_child,
}
use sistemas_operativos.FileSystem.Invariant.{pointers, Balanced}
use sistemas_operativos.FileSystem.Invariant.Ownership.{Owned-shrink}
use sistemas_operativos.FileSystem.Invariant.Steps.{
  inc_inodes, Balanced-bytes, Balanced-modify, Balanced-give_back,
}

pub get_direct_block-pos :
    (inode : Inode) (s b : ℕ)
    → inode_get_direct_block inode s ≡ pos b
    → (s < num_direct_blocks)
      × (inode.direct_block_ptrs s ≡ b)
      × (inode.direct_block_ptrs s ≢ no_block)
unfolding inode_get_direct_block
get_direct_block-pos inode s b e = (ground arith, ground arith, ground arith)

clear_block-other : (bm : Intmap) (b c : ℕ) → c ≢ b → (clear_block_used bm b).blocks c ≡ bm.blocks c
unfolding clear_block_used update
clear_block-other bm b c h = ground arith

emptied_cell :
    (ptrs : ℕ → ℕ) (slot s : ℕ)
    → update ptrs slot no_block s ≢ no_block
    → (s ≢ slot) × (update ptrs slot no_block s ≡ ptrs s)
unfolding update
emptied_cell ptrs slot s ne = (ground arith, ground arith)

recounted :
    (f u u' k : ℕ)
    → (f + u + k) % 2 ^ 32 ≡ max_blocks
    → u' + 1 ≡ u
    → (inc_mod (2 ^ 32) f + u' + k) % 2 ^ 32 ≡ max_blocks
recounted f u u' k p q = omega arith

abbrev emptied : ℕ → Inode → Inode
emptied slot inode = record inode {
  direct_block_ptrs = update inode.direct_block_ptrs slot no_block;
}

-- the pointers of a table where one slot was emptied
module _ (inodes : ℕ → Inode) (i slot : ℕ) where
  kept_self :
      (s : ℕ)
      → let n = update inodes i (emptied slot (inodes i)) i in
        n.direct_block_ptrs s ≢ no_block
        → ((i ≢ i) ⊎ (s ≢ slot)) × (n.direct_block_ptrs s ≡ (inodes i).direct_block_ptrs s)
  kept_self s =
      rw update_self
        (λ ne. let c = emptied_cell (inodes i).direct_block_ptrs slot s ne in (inr c.0, c.1))

  kept_cell :
      (j s : ℕ)
      → let n = update inodes i (emptied slot (inodes i)) j in
        n.direct_block_ptrs s ≢ no_block
        → ((j ≢ i) ⊎ (s ≢ slot)) × (n.direct_block_ptrs s ≡ (inodes j).direct_block_ptrs s)
  kept_cell j s = elim (Bool-cases (j == i)) [
    | inl e ↦ rw (==→≡ j i e) (kept_self s)
    | inr e ↦ λ ne. (
      inl (==→≢ j i e),
      ap (λ (n : Inode). n.direct_block_ptrs s) (update_ne inodes i _ j (==→≢ j i e)),
    )
  ]

module _ {k : ℕ} (fs : Filesystem) (i slot b : ℕ) (bal : Balanced k fs) (fits : i < max_inodes)
    (inside : slot < num_direct_blocks) (holds : pointers fs i slot ≡ b)
    (full : pointers fs i slot ≢ no_block) where
  other_block :
      (j s : ℕ)
      → j < max_inodes
      → s < num_direct_blocks
      → pointers fs j s ≢ no_block
      → (j ≢ i) ⊎ (s ≢ slot)
      → pointers fs j s ≢ b
  other_block j s p q ne (inl d) e =
      d (bal.owned.unshared j s i slot p q fits inside ne (e ∙ sym holds)).0
  other_block j s p q ne (inr d) e =
      d (bal.owned.unshared j s i slot p q fits inside ne (e ∙ sym holds)).1

  on_disk : b < max_blocks
  on_disk = rw (← holds) (bal.owned.on_disk i slot fits inside full)

  wiped-Balanced :
      (m : Bytes)
      → Balanced k (
          modify_inode
            (inc_free_blocks (record fs { intmap = clear_block_used fs.intmap b; bytes = m }))
            i
            (emptied slot))
  unfolding inc_free_blocks modify_inode
  wiped-Balanced m = record {
    inodes_counted = rw (clear_block_used-inodes fs.intmap b) bal.inodes_counted;
    blocks_counted = recounted _ _ _ k bal.blocks_counted (
        clear_block_used-counts fs.intmap b on_disk
          (rw (← holds) (bal.owned.marked i slot fits inside full)));
    owned = Owned-shrink bal.owned λ j s p q ne.
        let c = kept_cell fs.inodes i slot j s ne in
        (
          c.1,
          clear_block-other fs.intmap b (pointers fs j s)
              (other_block j s p q (λ z. ne (c.1 ∙ z)) c.0),
        );
  }

module _ {k : ℕ} (i : ℕ) (fits : i < max_inodes) where
  release_slot-Balanced :
      (fs : Filesystem) (slot : ℕ) → Balanced k fs → Balanced k (release_slot fs i slot)
  unfolding release_slot
  release_slot-Balanced fs slot bal = elim (Int-cases (inode_get_direct_block (fs.inodes i) slot)) [
    | inl (b, e) ↦
        let (inside, holds, full) = get_direct_block-pos (fs.inodes i) slot b e in
        rw (e, release_slot) (wiped-Balanced fs i slot b bal fits inside holds full _)
    | inr (n, e) ↦ rw (e, release_slot) bal
  ]

  pub release_from-Balanced :
      (left slot : ℕ) (fs : Filesystem) → Balanced k fs → Balanced k (release_from fs i left slot)
  unfolding release_from
  release_from-Balanced zero slot fs bal = bal
  release_from-Balanced (suc left) slot fs bal =
      release_from-Balanced left (slot + 1) (release_slot fs i slot)
        (release_slot-Balanced fs slot bal)

release_slot-inodes :
    (fs : Filesystem) (i slot : ℕ) → (release_slot fs i slot).intmap.inodes ≡ fs.intmap.inodes
unfolding release_slot modify_inode inc_free_blocks
release_slot-inodes fs i slot = elim (Int-cases (inode_get_direct_block (fs.inodes i) slot)) [
  | inl (b, e) ↦ rw (e, release_slot) (clear_block_used-inodes fs.intmap b)
  | inr (n, e) ↦ rw (e, release_slot) refl
]

release_from-inodes :
    (left slot : ℕ) (fs : Filesystem) (i : ℕ)
    → (release_from fs i left slot).intmap.inodes ≡ fs.intmap.inodes
unfolding release_from
release_from-inodes zero slot fs i = refl
release_from-inodes (suc left) slot fs i =
    release_from-inodes left (slot + 1) (release_slot fs i slot) i ∙ release_slot-inodes fs i slot

-- An inode that is in use is unmarked and initialised, and counted as free.
module _ {k : ℕ} (host : Host) (fs : Filesystem) (i : ℕ) (bal : Balanced k fs)
    (fits : i < max_inodes) (used : fs.intmap.inodes i ≢ 0) where
  retired-Balanced : Balanced k (
      inc_free_inodes (
        modify_inode
          (record fs { intmap = clear_inode_used fs.intmap i })
          i
          (λ _. inode_init host)))
  unfolding inc_free_inodes modify_inode inode_init
  retired-Balanced = record {
    inodes_counted =
        inc_inodes _ _ _ bal.inodes_counted (clear_inode_used-counts fs.intmap i fits used);
    blocks_counted = rw (clear_inode_used-blocks fs.intmap i) bal.blocks_counted;
    owned = Owned-shrink bal.owned λ j s p q ne. (
      ap (λ (n : Inode). n.direct_block_ptrs s)
          (update_ne fs.inodes i _ j (λ e. ne (
            ap (λ x. (update fs.inodes i (inode_init host) x).direct_block_ptrs s) e
            ∙ ap (λ (n : Inode). n.direct_block_ptrs s)
                (update_self fs.inodes i (inode_init host))))),
      ap (λ g. g (pointers fs j s)) (clear_inode_used-blocks fs.intmap i),
    );
  }

module _ {k : ℕ} (host : Host) (fs : Filesystem) (i : ℕ) (bal : Balanced k fs)
    (fits : i < max_inodes) (used : fs.intmap.inodes i ≢ 0) where
  release_inode-Balanced : Balanced k (release_inode host fs i)
  unfolding release_inode
  release_inode-Balanced =
      retired-Balanced host (release_from fs i num_direct_blocks 0) i
        (release_from-Balanced i fits num_direct_blocks 0 fs bal) fits
        (λ e. used (sym (ap (λ g. g i) (release_from-inodes num_direct_blocks 0 fs i)) ∙ e))

module _ {k : ℕ} (host : Host) (fs : Filesystem) (i : ℕ) (bal : Balanced k fs)
    (fits : i < max_inodes) (used : fs.intmap.inodes i ≢ 0) where
  drop_link-Balanced : Balanced k (drop_link host fs i)
  unfolding drop_link inode_decrement_links modify_inode
  drop_link-Balanced = elim (Bool-cases ((dropped.inodes i).hard_links_count == 0)) [
    | inl e ↦ rw (e, drop_link) (release_inode-Balanced host dropped i dropped-Balanced fits used)
    | inr e ↦ rw (e, drop_link) dropped-Balanced
  ]
    where
      dropped : Filesystem
      dropped = modify_inode fs i inode_decrement_links

      dropped-Balanced : Balanced k dropped
      dropped-Balanced = Balanced-modify fs bal i inode_decrement_links (λ s. refl)

module _ {k : ℕ} (host : Host) (fs : Filesystem) (i : ℕ) (bal : Balanced k fs)
    (fits : i < max_inodes) (used : fs.intmap.inodes i ≢ 0) where
  -- On a balanced file system, unlinking a name from an inode of the table that is in use keeps the
  -- balance on every branch: with the name missing, with links left, and with the last link gone and
  -- all the inode's blocks freed.
  pub unlink-Balanced : (dir : ℕ) (name : List ℕ) → Balanced k (unlink host fs dir name i).1
  unfolding unlink touch_changed touch_modified
  unlink-Balanced dir name =
      elim (Bool-cases (is_zero (directory_remove_entry fs.bytes dir name).0)) [
        | inl e ↦
            rw (e, unlink)
              (Balanced-modify _
                (Balanced-modify _
                  (drop_link-Balanced host (set_bytes fs _) i (Balanced-bytes fs bal _) fits used) _
                  (inode_update_mtime host) (λ s. refl))
                _ (inode_update_ctime host) (λ s. refl))
        | inr e ↦ rw (e, unlink) (Balanced-bytes fs bal _)
      ]

  -- On a balanced file system, removing the directory of an inode of the table that is in use keeps
  -- the balance if the parent has no such entry. Otherwise as many blocks as the directory held are
  -- free afterwards and not counted as free.
  pub remove_child-loses :
      (p dir : ℕ) (name : List ℕ)
      → let lost =
          if is_neg (directory_remove_entry fs.bytes dir name).0
          then k
          else k + held (pointers fs i) num_direct_blocks 0 in
        Balanced lost (remove_child host fs p dir name i).1
  unfolding remove_child touch_changed touch_modified give_back inc_free_inodes modify_inode
  remove_child-loses p dir name =
      elim (Bool-cases (is_neg (directory_remove_entry fs.bytes dir name).0)) [
        | inl e ↦ rw (e, remove_child) (Balanced-bytes fs bal _)
        | inr e ↦
            rw (e, remove_child)
              (Balanced-modify _
                (Balanced-modify _
                  (Balanced-modify (give_back host removed i)
                    (Balanced-give_back removed (Balanced-bytes fs bal _) host i fits used) i
                    (inode_update_ctime host) (λ s. refl))
                  p (inode_update_ctime host) (λ s. refl))
                p (inode_update_mtime host) (λ s. refl))
      ]
    where
      removed : Filesystem
      removed = set_bytes fs (directory_remove_entry fs.bytes dir name).1
