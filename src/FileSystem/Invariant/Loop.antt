-- ===== src/FileSystem/Invariant/Loop.antt =====
-- The loop of `fs_write_file` ends by itself, and what its code and position say.
use sistemas_operativos.Prelude.{
  ℕ, zero, suc, ◌+◌, ◌-◌, ◌/◌, ◌%◌, ◌≡◌, ◌<◌, ◌≤◌, ◌⊎◌, refl, sym, ap, ◌∙◌, inl, inr, arith, leb,
  ◌==◌, ◌||◌, if◌then◌else◌, Bool, false, Bool-cases, List, length, length-drop, min, ℤ, Int-cases,
  pos, negsuc, is_neg, Option, some,
}
use sistemas_operativos.FileSystem.State.{block_size, num_direct_blocks, Filesystem, Host}
use sistemas_operativos.FileSystem.Inode.{modify_inode, put_block, inode_get_direct_block}
use sistemas_operativos.FileSystem.Table.{dec_free_blocks}
use sistemas_operativos.FileSystem.Create.{grow}
use sistemas_operativos.FileSystem.ReadWrite.{
  block_for, Written, Round, stop, go, copy_round, write_round, write_from, write_rounds,
  finish_write, write_inode,
}
use sistemas_operativos.FileSystem.Invariant.Fresh.{grow-Grows}

abbrev block_bytes : Filesystem → ℕ
block_bytes fs = fs.superblock.block_size_bytes

grown-block_bytes :
    (fs : Filesystem) (i : ℕ)
    → block_bytes (if is_neg (grow fs i).0 then (grow fs i).1 else dec_free_blocks (grow fs i).1)
      ≡ block_bytes fs
unfolding dec_free_blocks put_block modify_inode
grown-block_bytes fs i = elim (grow-Grows fs i) [
  | inl (b, slot, e, block, place) ↦ rw e refl
  | inr (e, full) ↦ rw e refl
]

block_for-block_bytes :
    (fs : Filesystem) (i index : ℕ) → block_bytes (block_for fs i index).1 ≡ block_bytes fs
unfolding block_for
block_for-block_bytes fs i index = elim (Int-cases (inode_get_direct_block (fs.inodes i) index)) [
  | inl (b, e) ↦ rw (e, block_for) refl
  | inr (n, e) ↦ rw (e, block_for) (grown-block_bytes fs i)
]

-- What a round does to the counts. It ends the loop, or fills a block to its end, or empties the
-- buffer.
abbrev Advances : List ℕ → Written → Round → Type 0
Advances src w (stop w') = (w'.count ≡ w.count) × (w'.position ≡ w.position)
Advances src w (go rest w') =
    (block_bytes w'.fs ≡ block_size)
    × (w'.count + length rest ≡ w.count + length src)
    × (w'.position + w.count ≡ w.position + w'.count)
    × (0 < length src)
    × (w.position / block_size < num_direct_blocks)
    × ((length rest ≡ 0) ⊎ (w'.position / block_size ≡ w.position / block_size + 1))

copied :
    (n p : ℕ) (a : ℕ)
    → let k = min n (block_size - p % block_size) in
      (a + k + (n - k) ≡ a + n)
      × (p + k + a ≡ p + (a + k))
      × ((n - k ≡ 0) ⊎ ((p + k) / block_size ≡ p / block_size + 1))
copied n p a = (
  omega arith,
  omega arith,
  elim (Bool-cases (leb n (block_size - p % block_size))) [
    | inl e ↦ inl (ground arith)
    | inr e ↦ inr (ground arith)
  ],
)

copy_round-Advances :
    (src : List ℕ) (w : Written) (r : ℤ × Filesystem)
    → block_bytes w.fs ≡ block_size
    → block_bytes r.1 ≡ block_size
    → 0 < length src
    → w.position / block_size < num_direct_blocks
    → Advances src w (copy_round src w r)
unfolding copy_round
copy_round-Advances src w (negsuc e, fs) hw hr h0 h = (refl, refl)
copy_round-Advances src w (pos b, fs) hw hr h0 h =
    rw (hw, length-drop)
      (let (kept, moved, ended) = copied (length src) w.position w.count in
        (hr, kept, moved, h0, h, ended))

not_empty : (n : ℕ) (b : Bool) → (n == 0 || b) ≡ false → 0 < n
not_empty n b e = ground arith

below_twelve : (n q : ℕ) → (n == 0 || leb num_direct_blocks q) ≡ false → q < num_direct_blocks
below_twelve n q e = ground arith

below_block :
    (n p bs : ℕ)
    → bs ≡ block_size
    → (n == 0 || leb num_direct_blocks (p / bs)) ≡ false
    → p / block_size < num_direct_blocks
below_block n p bs h e =
    below_twelve n (p / block_size) (ap (λ b. n == 0 || leb num_direct_blocks (p / b)) (sym h) ∙ e)

write_round-Advances :
    (i : ℕ) (src : List ℕ) (w : Written)
    → block_bytes w.fs ≡ block_size
    → Advances src w (write_round i src w)
unfolding write_round
write_round-Advances i src w hw =
    elim (Bool-cases (length src == 0 || leb num_direct_blocks (w.position / block_bytes w.fs))) [
      | inl e ↦ rw e (refl, refl)
      | inr e ↦ rw e (
          copy_round-Advances src w (block_for w.fs i (w.position / block_bytes w.fs)) hw
            (block_for-block_bytes w.fs i _ ∙ hw) (not_empty (length src) _ e)
            (below_block (length src) w.position (block_bytes w.fs) hw e))
    ]

-- The loop ended, it copied no more than the buffer, and its position went on by what it copied.
abbrev pub Ended : List ℕ → Written → Option Written → Type 0
Ended src w o =
    (w' : Written) × (o ≡ some w')
    × (w'.count ≤ w.count + length src)
    × (w'.position + w.count ≡ w.position + w'.count)

-- Each slot that is left has its round, and there is one to end.
abbrev Enough : ℕ → List ℕ → Written → Type 0
Enough fuel src w = (length src ≡ 0) ⊎ (num_direct_blocks < fuel + w.position / block_size)

still_enough :
    (n n' q q' fuel : ℕ)
    → (n ≡ 0) ⊎ (num_direct_blocks < suc fuel + q)
    → 0 < n
    → q < num_direct_blocks
    → (n' ≡ 0) ⊎ (q' ≡ q + 1)
    → ((n' ≡ 0) ⊎ (num_direct_blocks < fuel + q')) × (0 < fuel)
still_enough n n' q q' fuel (inl z) h0 h1 m = absurd (omega arith)
still_enough n n' q q' fuel (inr e) h0 h1 (inl m) = (inl m, omega arith)
still_enough n n' q q' fuel (inr e) h0 h1 (inr m) = (inr (omega arith), omega arith)

summed :
    (c c' c'' p p' p'' n n' : ℕ)
    → c' + n' ≡ c + n
    → p' + c ≡ p + c'
    → c'' ≤ c' + n'
    → p'' + c' ≡ p' + c''
    → (c'' ≤ c + n) × (p'' + c ≡ p + c'')
summed c c' c'' p p' p'' n n' h0 h1 h2 h3 = (omega arith, omega arith)

round-Ended :
    (fuel i : ℕ) (src : List ℕ) (w : Written) (r : Round)
    → Advances src w r
    → Enough (suc fuel) src w
    → ((rest : List ℕ) (w' : Written)
        → block_bytes w'.fs ≡ block_size
        → Enough fuel rest w'
        → 0 < fuel
        → Ended rest w' (write_from fuel i rest w'))
    → Ended src w (elim r [ stop w' ↦ some w' | go rest w' ↦ write_from fuel i rest w' ])
round-Ended fuel i src w (stop w') (c, p) enough ih =
    (w', refl, omega (arith, c), omega (arith, c, p))
round-Ended fuel i src w (go rest w') (hw, kept, moved, nonempty, below, ended) enough ih =
    let (enough', some_fuel) =
      still_enough (length src) (length rest) _ _ fuel enough nonempty below ended in
    let (w'', e, c, p) = ih rest w' hw enough' some_fuel in
    let (c', p') =
      summed w.count w'.count w''.count w.position w'.position w''.position (length src)
        (length rest) kept moved c p in
    (w'', e, c', p')

write_from-Ended :
    (fuel i : ℕ) (src : List ℕ) (w : Written)
    → block_bytes w.fs ≡ block_size
    → Enough fuel src w
    → 0 < fuel
    → Ended src w (write_from fuel i src w)
unfolding write_from
write_from-Ended zero i src w hw enough some_fuel = absurd (omega arith)
write_from-Ended (suc fuel) i src w hw enough some_fuel =
    round-Ended fuel i src w (write_round i src w) (write_round-Advances i src w hw) enough
      (λ rest w'. write_from-Ended fuel i rest w')

from_zero : (c n : ℕ) → c ≤ 0 + n → c ≤ n
from_zero c n h = omega arith

moved_by : (p o c : ℕ) → p + 0 ≡ o + c → p ≡ o + c
moved_by p o c h = omega arith

-- When the superblock's block size is the disk's, thirteen rounds are enough for the loop of
-- `fs_write_file`: it ends, with a code that is at most the length of the buffer, and the position
-- from which the file size is set is the offset plus that code.
pub write_inode-ends :
    (host : Host) (fs : Filesystem) (i : ℕ) (src : List ℕ) (offset : ℕ)
    → fs.superblock.block_size_bytes ≡ block_size
    → (w : Written) × (write_inode host fs i src offset ≡ some (finish_write host i w))
      × ((finish_write host i w).0 ≡ pos w.count)
      × (w.count ≤ length src)
      × (w.position ≡ offset + w.count)
unfolding write_inode finish_write
write_inode-ends host fs i src offset hb =
    let (w, e, c, p) =
      write_from-Ended write_rounds i src (record { count = 0; position = offset; fs = fs }) hb
        (inr (omega arith)) (omega arith) in
    (w, rw e refl, refl, from_zero _ _ c, moved_by _ _ _ p)
