-- ===== src/Pafs/WithBlock.antt =====
-- The block of a file that is taken if there is none, and what the steps behind one another change.
use peker_os.Common.{
  ℕ, ◌≤◌, ◌<◌, ◌≡◌, refl, ap, ◌∙◌, ◌≢◌, true, false, arith, inl, inr, ◌==◌, Bool-cases, Option,
  none, some,
}
use native.Mathlib.Decide.{dec_lt}
use peker_os.Common.Bytes.{Bytes}
use peker_os.Pafs.{Pafs, pafs_bitmap_test, pafs_disk_write, take_block, inode_block, set_block}
use peker_os.Pafs.Alloc.{Allocates, takes, full, alloc_block-Allocates}
use peker_os.Pafs.Files.{with_block}
use peker_os.Pafs.Blocks.{
  InUse, IsFs, Changes, Changes-refl, after, after_self, after-disk, after-Changes,
}

-- What `with_block` gives: the place has a block, and all else is as it was; or no block is free.
pub data HasBlock (p : Pafs) (ino i : ℕ) : Option Pafs → Type 0 where
  has :
      (q : Pafs)
      → inode_block q ino i ≢ 0
      → Changes p q ino i
      → ((c : ℕ) → 18 ≤ c → q.disk c ≡ p.disk c)
      → HasBlock p ino i (some q)
  no_block :
      inode_block p ino i ≡ 0
      → ((c : ℕ) → 18 ≤ c → c < 4096 → pafs_bitmap_test p c ≡ true)
      → HasBlock p ino i none

pub taken-HasBlock :
    (p : Pafs) (ino i : ℕ) {r : Option (ℕ × Pafs)}
    → IsFs p
    → i < 14
    → inode_block p ino i ≡ 0
    → Allocates p 18 4096 r
    → HasBlock p ino i (elim r [ none ↦ none | some (b, q) ↦ some (set_block q ino i b) ])
unfolding after
taken-HasBlock p ino i f hi was (takes b lo hi_b free all) =
    has (set_block (take_block p b) ino i b)
      (λ z. omega (arith, after_self p f ino i b hi was lo hi_b free, z))
      (after-Changes p f ino i b hi was lo hi_b free) (after-disk p f ino i b hi was lo hi_b free)
taken-HasBlock p ino i f hi was (full all) = no_block was all

pub with_block-HasBlock :
    (p : Pafs) (ino i : ℕ) → IsFs p → i < 14 → HasBlock p ino i (with_block p ino i)
unfolding with_block
with_block-HasBlock p ino i f hi = elim (Bool-cases (inode_block p ino i == 0)) [
  | inl none_yet ↦
      rw (none_yet, with_block)
        (taken-HasBlock p ino i f hi (ground arith) (alloc_block-Allocates p))
  | inr has_one ↦
      rw (has_one, with_block) (has p (ground arith) (Changes-refl ino i f) (λ c from. refl))
]

module _ {p q r : Pafs} {ino i k : ℕ} (le : i ≤ k) (first : Changes p q ino i)
    (second : Changes q r ino k) where
  trans-sectors :
      (b : ℕ)
      → InUse p b
      → ((j : ℕ) → i ≤ j → j < 14 → inode_block p ino j ≢ b)
      → r.disk b ≡ p.disk b
  trans-sectors b (from, to, used) o =
      second.sectors b (from, to, first.used b used) (λ j lo hi e. not_taken j lo hi e)
      ∙ first.sectors b (from, to, used) o
    where
      not_taken : (j : ℕ) → k ≤ j → j < 14 → inode_block q ino j ≡ b → ⊥
      not_taken j lo hi e = elim (Bool-cases (inode_block q ino j == inode_block p ino j)) [
        | inl kept ↦ o j (omega arith) hi (ground (arith, e))
        | inr changed ↦
            let free = first.taken j (omega arith) hi (ground arith) in
            ground (arith, used, free, ap (pafs_bitmap_test p) e)
      ]

  trans-taken :
      (j : ℕ)
      → i ≤ j
      → j < 14
      → inode_block r ino j ≢ inode_block p ino j
      → pafs_bitmap_test p (inode_block r ino j) ≡ false
  trans-taken j lo hi ne = elim (Bool-cases (inode_block r ino j == inode_block q ino j)) [
    | inl kept ↦
        let e : inode_block r ino j ≡ inode_block q ino j = ground arith in
        ap (pafs_bitmap_test p) e ∙ first.taken j lo hi (λ z. ne (e ∙ z))
    | inr changed ↦ elim (dec_lt j k) [
      | yes before ↦ absurd (ground (arith, second.blocks ino j hi (inr before)))
      | no from ↦
          let free = second.taken j (omega arith) hi (ground arith) in
          elim (Bool-cases (pafs_bitmap_test p (inode_block r ino j))) [
            | inl used ↦ absurd (ground (arith, free, first.used (inode_block r ino j) used))
            | inr unused ↦ unused
          ]
    ]
  ]

  pub Changes-trans : Changes p r ino i
  Changes-trans = record {
    fs = second.fs;
    types = λ g. second.types g ∙ first.types g;
    sizes = λ g. second.sizes g ∙ first.sizes g;
    root = second.root ∙ first.root;
    used = λ b u. second.used b (first.used b u);
    blocks = λ g j hj o.
        second.blocks g j hj (elim o [ inl ne ↦ inl ne | inr lt ↦ inr (omega arith) ])
        ∙ first.blocks g j hj o;
    sectors = trans-sectors;
    taken = trans-taken;
  }

-- The data of the block that the place has is written.
pub Changes-data :
    {p q : Pafs} (ino i : ℕ) (sector : Bytes)
    → i < 14
    → Changes p q ino i
    → inode_block q ino i ≢ 0
    → Changes p (pafs_disk_write q (inode_block q ino i) sector) ino i
unfolding pafs_disk_write pafs_bitmap_test
Changes-data {p} {q} ino i sector hi ch ne = record {
  fs = record { bytes = ch.fs.bytes; in_use = ch.fs.in_use; apart = ch.fs.apart };
  types = ch.types;
  sizes = ch.sizes;
  root = ch.root;
  used = ch.used;
  blocks = ch.blocks;
  sectors = λ b u o.
      let other : b ≢ inode_block q ino i = not_it b u o in ground (arith, other, ch.sectors b u o);
  taken = ch.taken;
}
  where
    not_it :
        (b : ℕ)
        → InUse p b
        → ((j : ℕ) → i ≤ j → j < 14 → inode_block p ino j ≢ b)
        → b ≢ inode_block q ino i
    not_it b (from, to, used) o e = elim (Bool-cases (inode_block q ino i == inode_block p ino i)) [
      | inl kept ↦ o i (omega arith) hi (ground (arith, e))
      | inr changed ↦
          let free = ch.taken i (omega arith) hi (ground arith) in
          ground (arith, used, free, ap (pafs_bitmap_test p) e)
    ]
