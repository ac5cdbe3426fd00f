-- ===== src/FileSystem/Invariant/Fresh.antt =====
-- An inode that was just taken, with and without its first block, and how a creation that fails gives
-- it back.
use sistemas_operativos.Prelude.{
  ℕ, suc, ◌+◌, ◌*◌, ◌<◌, ◌≡◌, refl, sym, ap, subst, ◌∙◌, ◌≢◌, ◌⊎◌, inl, inr, arith, if◌then◌else◌,
  Bool-cases, update, update_self, List, ℤ, pos, neg, is_neg, is_zero, FirstAt, NoneAt,
}
use sistemas_operativos.FileSystem.State.{
  max_inodes, max_blocks, block_size, num_direct_blocks, no_block, Inode, Intmap, Filesystem, Host,
}
use sistemas_operativos.FileSystem.Intmap.{set_inode_used}
use sistemas_operativos.FileSystem.Intmap.Search.{find_free_block-Finds}
use sistemas_operativos.FileSystem.Intmap.Counts.{set_block_used-inodes}
use sistemas_operativos.FileSystem.Memory.{Bytes}
use sistemas_operativos.FileSystem.Inode.{
  inode_init, modify_inode, take_inode, put_block, inode_add_direct_block, inode_increment_links,
}
use sistemas_operativos.FileSystem.Inode.Blocks.{Adds, inode_add_direct_block-Adds}
use sistemas_operativos.FileSystem.Inode.Free.{held, held_one, held_none}
use sistemas_operativos.FileSystem.Directory.{directory_add_entry}
use sistemas_operativos.FileSystem.Table.{set_bytes, dec_free_inodes, dec_free_blocks}
use sistemas_operativos.FileSystem.Create.{fill_directory, place_directory, give_back, grow, enter}
use sistemas_operativos.FileSystem.Invariant.{pointers, Balanced}
use sistemas_operativos.FileSystem.Invariant.Steps.{
  Balanced-bytes, Balanced-modify, Balanced-put, Balanced-recount, Balanced-give_back,
  give_back-cleared, Balanced-clear,
}

-- the outcome of `grow`
abbrev pub Grows : Filesystem → ℕ → ℤ × Filesystem → Type 0
Grows fs i r =
    ((b slot : ℕ) × (r ≡ (pos b, put_block fs i slot b))
      × FirstAt fs.intmap.blocks 0 0 max_blocks b
      × FirstAt (pointers fs i) no_block 0 num_direct_blocks slot)
    ⊎ ((r ≡ (neg 1, fs))
        × (NoneAt fs.intmap.blocks 0 0 max_blocks
            ⊎ NoneAt (pointers fs i) no_block 0 num_direct_blocks))

grow-found :
    (fs : Filesystem) (i b : ℕ) (r : ℤ × Filesystem)
    → FirstAt fs.intmap.blocks 0 0 max_blocks b
    → Adds fs i b 0 r
    → Grows fs i ((if is_neg r.0 then r.0 else pos b), r.1)
grow-found fs i b r first (inl (slot, e, empty)) = inl (b, slot, rw e refl, first, empty)
grow-found fs i b r first (inr (e, full)) = inr (rw e refl, inr full)

pub grow-Grows : (fs : Filesystem) (i : ℕ) → Grows fs i (grow fs i)
unfolding grow
grow-Grows fs i = elim (find_free_block-Finds fs.intmap) [
  | inl (b, e, first) ↦ rw e (
      grow-found fs i b (inode_add_direct_block fs i b) first
        (inode_add_direct_block-Adds fs i b first.below))
  | inr (e, full) ↦ rw e (inr (refl, inl full))
]

one_ne : ◌≢◌ {A = ℕ} 1 0
one_ne e = omega arith

set_inode_used_self : (bm : Intmap) (i : ℕ) → i < max_inodes → (set_inode_used bm i).inodes i ≡ 1
unfolding set_inode_used update
set_inode_used_self bm i h = ground arith

-- an inode that was just taken: in use, with no block
pub record Fresh (fs : Filesystem) (i : ℕ) : Type 0 where
  pub fits : i < max_inodes
  pub used : fs.intmap.inodes i ≢ 0
  pub empty : (s : ℕ) → pointers fs i s ≡ no_block

pub Fresh-modify :
    (fs : Filesystem) (i : ℕ) (f : Inode → Inode)
    → ((s : ℕ) → (f (fs.inodes i)).direct_block_ptrs s ≡ pointers fs i s)
    → Fresh fs i
    → Fresh (modify_inode fs i f) i
unfolding modify_inode
Fresh-modify fs i f keep new = record {
  fits = new.fits;
  used = new.used;
  empty = λ s.
      ap (λ (n : Inode). n.direct_block_ptrs s) (update_self fs.inodes i (f (fs.inodes i)))
      ∙ keep s
      ∙ new.empty s;
}

-- the state after the first steps of a creation
abbrev pub claimed : Host → Filesystem → ℕ → (Inode → Inode) → Filesystem
claimed host fs i f = modify_inode (dec_free_inodes (take_inode host fs i)) i f

pub claimed-Fresh :
    (host : Host) (fs : Filesystem) (i : ℕ) (f : Inode → Inode)
    → i < max_inodes
    → ((s : ℕ) → (f (inode_init host)).direct_block_ptrs s ≡ no_block)
    → Fresh (claimed host fs i f) i
unfolding modify_inode dec_free_inodes take_inode
claimed-Fresh host fs i f fits empty = record {
  fits = fits;
  used = λ e. one_ne (sym (set_inode_used_self fs.intmap i fits) ∙ e);
  empty = λ s.
      ap (λ (n : Inode). n.direct_block_ptrs s) (update_self _ i _)
      ∙ ap (λ (n : Inode). (f n).direct_block_ptrs s) (update_self fs.inodes i (inode_init host))
      ∙ empty s;
}

-- a fresh inode with its first block
module _ {k : ℕ} (host : Host) (fs : Filesystem) (i b slot : ℕ) (bal : Balanced k fs)
    (new : Fresh fs i) (first : FirstAt fs.intmap.blocks 0 0 max_blocks b)
    (place : FirstAt (pointers fs i) no_block 0 num_direct_blocks slot) where
  unfoldable pub blocked : Filesystem
  blocked = dec_free_blocks (put_block fs i slot b)

  pub blocked-Balanced : Balanced k blocked
  unfolding blocked
  blocked-Balanced = Balanced-put fs bal i slot b first.below first.here

  blocked-held : held (pointers blocked i) num_direct_blocks 0 ≡ 1
  unfolding blocked dec_free_blocks put_block modify_inode
  blocked-held =
      ap (λ (n : Inode). held n.direct_block_ptrs num_direct_blocks 0) (update_self fs.inodes i _)
      ∙ held_one (pointers fs i) slot b num_direct_blocks 0 new.empty first.below
      ∙ ground (arith, place.below)

  blocked-used : blocked.intmap.inodes i ≢ 0
  unfolding blocked dec_free_blocks put_block modify_inode
  blocked-used e = new.used (sym (ap (λ g. g i) (set_block_used-inodes fs.intmap b)) ∙ e)

  -- The entry is made, or all is undone.
  pub enter-Balanced :
      (m : Bytes) (dir : ℕ) (name : List ℕ) (failure : ℤ)
      → Balanced k (enter host (set_bytes blocked m) dir name i failure).1
  unfolding enter
  enter-Balanced m dir name failure =
      elim (Bool-cases (is_zero (directory_add_entry m dir name i).0)) [
        | inl e ↦ rw (e, enter) (Balanced-bytes _ (Balanced-bytes _ blocked-Balanced m) _)
        | inr e ↦
            rw (e, enter)
              (Balanced-recount _ (
                subst (λ n. Balanced n (undone (directory_add_entry m dir name i).1)) lost_one
                  (Balanced-give_back (set_bytes blocked (directory_add_entry m dir name i).1)
                    (Balanced-bytes _ blocked-Balanced _) host i new.fits blocked-used)))
      ]
    where
      undone : Bytes → Filesystem
      undone n = give_back host (set_bytes blocked n) i

      lost_one : k + held (pointers blocked i) num_direct_blocks 0 ≡ suc k
      lost_one = omega (arith, blocked-held)

  blocked-pointer : pointers blocked i slot ≡ b
  unfolding blocked dec_free_blocks put_block modify_inode
  blocked-pointer =
      ap (λ (n : Inode). n.direct_block_ptrs slot) (update_self fs.inodes i _)
      ∙ update_self (pointers fs i) slot b

  placed-free : (m : Bytes) → (give_back host (set_bytes blocked m) i).intmap.blocks b ≡ 0
  placed-free m =
      ap (give_back host (set_bytes blocked m) i).intmap.blocks (sym blocked-pointer)
      ∙ give_back-cleared (set_bytes blocked m) (Balanced-bytes _ blocked-Balanced m) host i
          new.fits slot place.below (rw blocked-pointer first.below)

  pub place_directory-Balanced :
      (p dir : ℕ) (entry : List ℕ) → Balanced k (place_directory host blocked p dir entry i b).1
  unfolding place_directory give_back inode_increment_links
  place_directory-Balanced p dir entry = elim (Bool-cases (is_zero entered)) [
    | inl e ↦
        rw (e, place_directory)
          (Balanced-modify _ (Balanced-bytes _ blocked-Balanced after) p inode_increment_links
            (λ s. refl))
    | inr e ↦
        rw (e, place_directory)
          (Balanced-recount _ (
            Balanced-clear (give_back host (set_bytes blocked after) i) b
              (subst (λ n. Balanced n (give_back host (set_bytes blocked after) i)) lost_one
                (Balanced-give_back (set_bytes blocked after) (Balanced-bytes _ blocked-Balanced _)
                  host i new.fits blocked-used))
              (placed-free after)))
  ]
    where
      filled : Bytes
      filled = fill_directory blocked.bytes (b * block_size) i p

      entered : ℤ
      entered = (directory_add_entry filled dir entry i).0

      after : Bytes
      after = (directory_add_entry filled dir entry i).1

      lost_one : k + held (pointers blocked i) num_direct_blocks 0 ≡ suc k
      lost_one = omega (arith, blocked-held)

-- A fresh inode without a block is given back.
pub unblocked-Balanced :
    {k : ℕ} (host : Host) (fs : Filesystem) (i : ℕ)
    → Balanced k fs
    → Fresh fs i
    → Balanced k (give_back host fs i)
unblocked-Balanced {k} host fs i bal new =
    subst (λ n. Balanced n (give_back host fs i)) same
      (Balanced-give_back fs bal host i new.fits new.used)
  where
    same : k + held (pointers fs i) num_direct_blocks 0 ≡ k
    same = omega (arith, held_none (pointers fs i) num_direct_blocks 0 new.empty)
