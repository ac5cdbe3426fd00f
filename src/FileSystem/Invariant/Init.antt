-- ===== src/FileSystem/Invariant/Init.antt =====
-- The file system that `fs_init` makes.
use sistemas_operativos.Prelude.{
  ℕ, zero, suc, ◌+◌, ◌<◌, ◌≡◌, refl, ap, ◌∙◌, inl, inr, arith, leb, ltb, ◌==◌, ◌&&◌, if◌then◌else◌,
  Bool-cases, update, count_used, count_used-zero,
}
use sistemas_operativos.FileSystem.State.{
  max_inodes, max_blocks, no_block, Inode, Intmap, Filesystem, Host,
}
use sistemas_operativos.FileSystem.Intmap.{intmap_init, set_inode_used, set_block_used}
use sistemas_operativos.FileSystem.Intmap.Search.{intmap_init-free}
use sistemas_operativos.FileSystem.Intmap.Counts.{
  used_inodes, used_blocks, set_inode_used-counts, set_block_used-counts, set_inode_used-blocks,
  set_block_used-inodes,
}
use sistemas_operativos.FileSystem.Inode.{inode_init}
use sistemas_operativos.FileSystem.Create.{init_inodes, root_inode, fs_init}
use sistemas_operativos.FileSystem.Invariant.{Owned, Balanced}
use sistemas_operativos.FileSystem.Invariant.Ownership.{Owned-grow}
use sistemas_operativos.FileSystem.Invariant.Steps.{marked_cell}

pub init_inodes-inode_init :
    (host : Host) (left i : ℕ) (inodes : ℕ → Inode) (j : ℕ)
    → init_inodes host left i inodes j
      ≡ (if leb i j && ltb j (i + left) then inode_init host else inodes j)
unfolding init_inodes update
init_inodes-inode_init host zero i inodes j = ground arith
init_inodes-inode_init host (suc left) i inodes j =
    init_inodes-inode_init host left (i + 1) (update inodes i (inode_init host)) j ∙ ground arith

module _ (host : Host) (fs : Filesystem) where
  abbrev inited : ℕ → Inode
  inited = init_inodes host max_inodes 0 fs.inodes

  none_held : (i s : ℕ) → i < max_inodes → (inited i).direct_block_ptrs s ≡ no_block
  unfolding inode_init
  none_held i s h =
      ap (λ (n : Inode). n.direct_block_ptrs s) {y = inode_init host}
        (init_inodes-inode_init host max_inodes 0 fs.inodes i ∙ ground arith)

  empty-Owned : (B : ℕ → ℕ) → Owned (λ i s. (inited i).direct_block_ptrs s) B
  empty-Owned B = record {
    on_disk = λ i s p q ne. absurd (ne (none_held i s p));
    marked = λ i s p q ne. absurd (ne (none_held i s p));
    unshared = λ i s j t p q p' q' ne. absurd (ne (none_held i s p));
  }

  root_put :
      (i s : ℕ)
      → (update inited 0 (root_inode host) i).direct_block_ptrs s
        ≡ (if (i == 0) && (s == 0) then 0 else (inited i).direct_block_ptrs s)
  unfolding update
  root_put i s = elim (Bool-cases (i == 0)) [
    | inl e ↦ rw e (ground (arith, none_held i s))
    | inr e ↦ rw e refl
  ]

  root_map : Intmap
  root_map = set_block_used (intmap_init fs.intmap) 0

  inodes_used : used_inodes (set_inode_used root_map 0) ≡ 1
  unfolding root_map
  inodes_used =
      set_inode_used-counts root_map 0 (omega arith) (
        ap (λ g. g 0) (set_block_used-inodes (intmap_init fs.intmap) 0)
        ∙ (intmap_init-free fs.intmap).0 0 (omega arith))
      ∙ ap (λ n. n + 1)
          (ap (count_used max_inodes) (set_block_used-inodes (intmap_init fs.intmap) 0)
            ∙ count_used-zero max_inodes (intmap_init fs.intmap).inodes
                (intmap_init-free fs.intmap).0)

  blocks_used : used_blocks (set_inode_used root_map 0) ≡ 1
  unfolding root_map
  blocks_used =
      ap (count_used max_blocks) (set_inode_used-blocks root_map 0)
      ∙ set_block_used-counts (intmap_init fs.intmap) 0 (omega arith)
          ((intmap_init-free fs.intmap).1 0 (omega arith))
      ∙ ap (λ n. n + 1)
          (count_used-zero max_blocks (intmap_init fs.intmap).blocks (intmap_init-free fs.intmap).1)

  root_marked :
      (x : ℕ)
      → (set_inode_used root_map 0).blocks x
        ≡ (if x == 0 then 1 else (intmap_init fs.intmap).blocks x)
  unfolding root_map
  root_marked x =
      ap (λ g. g x) (set_inode_used-blocks root_map 0)
      ∙ marked_cell (intmap_init fs.intmap) 0 (omega arith) x

  -- After `fs_init` the counters agree with the maps, and no block belongs to two slots: one inode and
  -- one block are in use, the root's.
  pub fs_init-Balanced :
      Balanced 0 (fs_init host fs)
      × (used_inodes (fs_init host fs).intmap ≡ 1)
      × (used_blocks (fs_init host fs).intmap ≡ 1)
  unfolding fs_init root_map
  fs_init-Balanced = (
    record {
      inodes_counted = omega (arith, inodes_used);
      blocks_counted = rw blocks_used refl;
      owned =
          Owned-grow (empty-Owned (intmap_init fs.intmap).blocks) 0 0 0 (omega arith)
            ((intmap_init-free fs.intmap).1 0 (omega arith)) root_put root_marked;
    },
    inodes_used,
    blocks_used,
  )
