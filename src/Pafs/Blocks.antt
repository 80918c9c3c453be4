-- ===== src/Pafs/Blocks.antt =====
-- Which blocks of kernel/fs/pafs.c belong to which inode, and what taking one may change.
use peker_os.Common.{
  ℕ, ◌+◌, ◌-◌, ◌*◌, ◌%◌, ◌^◌, ◌≤◌, ◌<◌, ◌≡◌, refl, sym, ap, ◌∙◌, ◌≢◌, ◌⊎◌, true, false, arith, inl,
  inr, ◌==◌, Bool-cases, if◌then◌else◌,
}
use mathlib.Core.Path.{subst}
use peker_os.Common.Bytes.{IsBytes}
use peker_os.Common.Bitmap.{test_bit-set_bit, set_bit-IsBytes}
use peker_os.Common.Words.{get32, get32-put32_ne}
use peker_os.Pafs.{
  Pafs, pafs_bitmap_test, pafs_disk_write, pafs_save_bitmap, pafs_save_superblock, take_block,
  inode_type, inode_size, inode_block, set_block, root_inode,
}
use peker_os.Pafs.Inodes.{block-set_block_self, block-set_block_ne, type-set_block, size-set_block}

-- A block of data that is marked as in use.
abbrev pub InUse : Pafs → ℕ → Type 0
InUse p b = (18 ≤ b) × (b < 4096) × (pafs_bitmap_test p b ≡ true)

-- The blocks of the inodes are data blocks in use, and no two places of the table have the same block.
pub record IsFs (p : Pafs) : Type 0 where
  pub bytes : IsBytes p.block_bitmap
  pub in_use : (g i : ℕ) → i < 14 → inode_block p g i ≢ 0 → InUse p (inode_block p g i)
  pub apart :
      (g i h j : ℕ)
      → i < 14
      → j < 14
      → inode_block p g i ≢ 0
      → inode_block p g i ≡ inode_block p h j
      → (g ≡ h) × (i ≡ j)

-- What an operation on the blocks of an inode from the index `i` on may change: those, and the data of
-- blocks that are theirs or that were free.
pub record Changes (p q : Pafs) (ino i : ℕ) : Type 0 where
  pub fs : IsFs q
  pub types : (g : ℕ) → inode_type q g ≡ inode_type p g
  pub sizes : (g : ℕ) → inode_size q g ≡ inode_size p g
  pub root : root_inode q ≡ root_inode p
  pub used : (b : ℕ) → pafs_bitmap_test p b ≡ true → pafs_bitmap_test q b ≡ true
  pub blocks : (g j : ℕ) → j < 14 → (g ≢ ino) ⊎ (j < i) → inode_block q g j ≡ inode_block p g j
  pub sectors :
      (b : ℕ)
      → InUse p b
      → ((j : ℕ) → i ≤ j → j < 14 → inode_block p ino j ≢ b)
      → q.disk b ≡ p.disk b
  pub taken :
      (j : ℕ)
      → i ≤ j
      → j < 14
      → inode_block q ino j ≢ inode_block p ino j
      → pafs_bitmap_test p (inode_block q ino j) ≡ false

pub Changes-refl : {p : Pafs} (ino i : ℕ) → IsFs p → Changes p p ino i
Changes-refl ino i f = record {
  fs = f;
  types = λ g. refl;
  sizes = λ g. refl;
  root = refl;
  used = λ b u. u;
  blocks = λ g j lt o. refl;
  sectors = λ b u o. refl;
  taken = λ j from to ne. absurd (ne refl);
}

module _ (p : Pafs) (v : IsBytes p.block_bitmap) (b : ℕ) where
  test-take_block :
      (c : ℕ)
      → pafs_bitmap_test (take_block p b) c ≡ (if b == c then true else pafs_bitmap_test p c)
  unfolding take_block pafs_bitmap_test pafs_save_superblock pafs_save_bitmap pafs_disk_write
  test-take_block c = test_bit-set_bit v b c

  take_block-IsBytes : IsBytes (take_block p b).block_bitmap
  unfolding take_block pafs_save_superblock pafs_save_bitmap pafs_disk_write
  take_block-IsBytes = set_bit-IsBytes v b

module _ (p : Pafs) (b : ℕ) where
  inodes-take_block : (take_block p b).inodes ≡ p.inodes
  unfolding take_block pafs_save_superblock pafs_save_bitmap pafs_disk_write
  inodes-take_block = refl

  disk-take_block : (c : ℕ) → 18 ≤ c → (take_block p b).disk c ≡ p.disk c
  unfolding take_block pafs_save_superblock pafs_save_bitmap pafs_disk_write
  disk-take_block c data_block = ground arith

  root-take_block : root_inode (take_block p b) ≡ root_inode p
  unfolding take_block pafs_save_superblock pafs_save_bitmap pafs_disk_write
  root-take_block =
      get32-put32_ne p.sb 12 ((get32 p.sb 12 + 2 ^ 32 - 1) % 2 ^ 32) 20 (inr (omega arith))

-- The block `b` was free and is now that of the place `ino`, `i`, which had none.
module _ (p : Pafs) (f : IsFs p) (ino i b : ℕ) (hi : i < 14) (was : inode_block p ino i ≡ 0)
    (lo : 18 ≤ b) (hi_b : b < 4096) (free : pafs_bitmap_test p b ≡ false) where
  unfoldable pub after : Pafs
  after = set_block (take_block p b) ino i b

  pub after_self : inode_block after ino i ≡ b
  unfolding after
  after_self = block-set_block_self (take_block p b) ino i b hi (omega arith)

  after-other : (g j : ℕ) → j < 14 → (ino ≢ g) ⊎ (i ≢ j) → inode_block after g j ≡ inode_block p g j
  unfolding after
  after-other g j hj ne =
      block-set_block_ne (take_block p b) ino i b hi g j hj ne
      ∙ ap (λ m. get32 m (64 * g + 8 + 4 * j)) (inodes-take_block p b)

  same_place : (g j : ℕ) → ((ino ≡ g) × (i ≡ j)) ⊎ ((ino ≢ g) ⊎ (i ≢ j))
  same_place g j = elim (Bool-cases (ino == g)) [
    | inl e ↦ elim (Bool-cases (i == j)) [
      | inl e' ↦ inl (ground arith, ground arith)
      | inr n' ↦ inr (inr (ground arith))
    ]
    | inr n ↦ inr (inl (ground arith))
  ]

  after-test : (c : ℕ) → pafs_bitmap_test after c ≡ (if b == c then true else pafs_bitmap_test p c)
  unfolding after pafs_bitmap_test
  after-test c = unfold pafs_bitmap_test in test-take_block p f.bytes b c

  after-used : (c : ℕ) → pafs_bitmap_test p c ≡ true → pafs_bitmap_test after c ≡ true
  after-used c u = ground (arith, after-test c)

  -- Another place's block is not the one that was free.
  not_free : (g j : ℕ) → j < 14 → inode_block p g j ≢ b
  not_free g j hj e =
      let in_use = f.in_use g j hj (λ z. omega (arith, z, e)) in
      ground (arith, free, in_use.2, ap (pafs_bitmap_test p) e)

  after-InUse : (c : ℕ) → InUse p c → InUse after c
  after-InUse c (from, to, used) = (from, to, after-used c used)

  blocks_after-InUse :
      (g j : ℕ) → j < 14 → inode_block after g j ≢ 0 → InUse after (inode_block after g j)
  blocks_after-InUse g j hj ne = elim (same_place g j) [
    | inl (e, e') ↦
        let self : inode_block after g j ≡ b = rw (← e, ← e') after_self in
        let used : pafs_bitmap_test after b ≡ true = ground (arith, after-test b) in
        subst (InUse after) (sym self) (lo, hi_b, used)
    | inr o ↦
        let old = after-other g j hj o in
        subst (InUse after) (sym old)
          (after-InUse (inode_block p g j) (f.in_use g j hj (λ z. ne (old ∙ z))))
  ]

  after-apart :
      (g k h j : ℕ)
      → k < 14
      → j < 14
      → inode_block after g k ≢ 0
      → inode_block after g k ≡ inode_block after h j
      → (g ≡ h) × (k ≡ j)
  after-apart g k h j hk hj ne same = elim (same_place g k) [
    | inl (e, e') ↦ elim (same_place h j) [
      | inl (d, d') ↦ (sym e ∙ d, sym e' ∙ d')
      | inr o ↦
          let self : inode_block after g k ≡ b = rw (← e, ← e') after_self in
          absurd (not_free h j hj (sym (after-other h j hj o) ∙ sym same ∙ self))
    ]
    | inr o ↦ elim (same_place h j) [
      | inl (d, d') ↦
          let self : inode_block after h j ≡ b = rw (← d, ← d') after_self in
          absurd (not_free g k hk (sym (after-other g k hk o) ∙ same ∙ self))
      | inr o' ↦
          f.apart g k h j hk hj (λ z. ne (after-other g k hk o ∙ z))
            (sym (after-other g k hk o) ∙ same ∙ after-other h j hj o')
    ]
  ]

  after-IsBytes : IsBytes after.block_bitmap
  unfolding after
  after-IsBytes = take_block-IsBytes p f.bytes b

  after-type : (g : ℕ) → inode_type after g ≡ inode_type p g
  unfolding after
  after-type g =
      type-set_block (take_block p b) ino i b hi g
      ∙ ap (λ m. get32 m (64 * g)) (inodes-take_block p b)

  after-size : (g : ℕ) → inode_size after g ≡ inode_size p g
  unfolding after
  after-size g =
      size-set_block (take_block p b) ino i b hi g
      ∙ ap (λ m. get32 m (64 * g + 4)) (inodes-take_block p b)

  after-root : root_inode after ≡ root_inode p
  unfolding after
  after-root = root-take_block p b

  pub after-disk : (c : ℕ) → 18 ≤ c → after.disk c ≡ p.disk c
  unfolding after
  after-disk c from = disk-take_block p b c from

  pub after-Changes : Changes p after ino i
  after-Changes = record {
    fs = record { bytes = after-IsBytes; in_use = blocks_after-InUse; apart = after-apart };
    types = after-type;
    sizes = after-size;
    root = after-root;
    used = after-used;
    blocks = λ g j hj o.
        after-other g j hj (elim o [ inl ne ↦ inl (λ e. ne (sym e)) | inr lt ↦ inr (omega arith) ]);
    sectors = λ c u o. after-disk c u.0;
    taken = λ j from to ne. elim (same_place ino j) [
      | inl (e, e') ↦
          let self : inode_block after ino j ≡ b =
            ap (inode_block after ino) (sym e') ∙ after_self in
          ap (pafs_bitmap_test p) self ∙ free
      | inr o ↦ absurd (ne (after-other ino j to o))
    ];
  }
