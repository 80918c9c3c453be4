-- ===== src/Pafs/Release.antt =====
-- The blocks that `pafs_delete` of kernel/fs/pafs.c gives back.
use peker_os.Common.{
  count_up, count_up-keeps, ℕ, ◌+◌, ◌%◌, ◌^◌, ◌≤◌, ◌<◌, ◌≡◌, refl, sym, ap, ◌∙◌, ◌≢◌, ◌⊎◌, false,
  arith, inl, inr, ◌==◌, Bool-cases, if◌then◌else◌,
}
use native.Mathlib.Decide.{dec_lt}
use peker_os.Common.Bytes.{IsBytes}
use peker_os.Common.Bitmap.{clear_bit, test_bit-clear_bit, clear_bit-IsBytes}
use peker_os.Pafs.{
  Pafs, pafs_bitmap_test, inode_type, inode_size, inode_block, set_block, set_free_blocks,
  free_blocks,
}
use peker_os.Pafs.Inodes.{block-set_block_self, block-set_block_ne, type-set_block, size-set_block}
use peker_os.Pafs.Blocks.{IsFs}
use peker_os.Pafs.Files.{release_block}

-- The blocks of `ino` below the index `i` are given back, and nothing else changed.
pub record Released (p : Pafs) (ino i : ℕ) (q : Pafs) : Type 0 where
  pub disk : q.disk ≡ p.disk
  pub types : (g : ℕ) → inode_type q g ≡ inode_type p g
  pub sizes : (g : ℕ) → inode_size q g ≡ inode_size p g
  pub others : (g j : ℕ) → j < 14 → (g ≢ ino) ⊎ (i ≤ j) → inode_block q g j ≡ inode_block p g j
  pub gone : (j : ℕ) → j < i → inode_block q ino j ≡ 0
  pub bytes : IsBytes q.block_bitmap
  pub freed :
      (j : ℕ) → j < i → inode_block p ino j ≢ 0 → pafs_bitmap_test q (inode_block p ino j) ≡ false
  pub kept :
      (b : ℕ)
      → ((j : ℕ) → j < i → inode_block p ino j ≢ b)
      → pafs_bitmap_test q b ≡ pafs_bitmap_test p b

module _ {p q : Pafs} {ino i : ℕ} (hi : i < 14) (r : Released p ino i q) where
  old_block : inode_block q ino i ≡ inode_block p ino i
  old_block = r.others ino i hi (inr (omega arith))

  keep-none : inode_block q ino i ≡ 0 → Released p ino (i + 1) q
  keep-none none_here = record {
    disk = r.disk;
    types = r.types;
    sizes = r.sizes;
    others = λ g j hj o. r.others g j hj (elim o [ inl ne ↦ inl ne | inr le ↦ inr (omega arith) ]);
    gone = λ j lt. elim (dec_lt j i) [
      | yes before ↦ r.gone j before
      | no from ↦ ap (inode_block q ino) {x = j} {y = i} (omega arith) ∙ none_here
    ];
    bytes = r.bytes;
    freed = λ j lt ne. elim (dec_lt j i) [
      | yes before ↦ r.freed j before ne
      | no from ↦
          absurd
            (ne (ap (inode_block p ino) {x = j} {y = i} (omega arith) ∙ sym old_block ∙ none_here))
    ];
    kept = λ b o. r.kept b (λ j lt. o j (omega arith));
  }

  cleared : Pafs
  cleared =
      set_block
        (set_free_blocks
          (record q { block_bitmap = clear_bit q.block_bitmap (inode_block q ino i) })
          ((free_blocks q + 1) % 2 ^ 32))
        ino i 0

  cleared-test :
      (b : ℕ)
      → pafs_bitmap_test cleared b
        ≡ (if inode_block q ino i == b then false else pafs_bitmap_test q b)
  unfolding cleared pafs_bitmap_test
  cleared-test b = test_bit-clear_bit r.bytes (inode_block q ino i) b

  cleared-block :
      (g j : ℕ) → j < 14 → (ino ≢ g) ⊎ (i ≢ j) → inode_block cleared g j ≡ inode_block q g j
  unfolding cleared
  cleared-block g j hj ne = block-set_block_ne q ino i 0 hi g j hj ne

  cleared_self : inode_block cleared ino i ≡ 0
  unfolding cleared
  cleared_self = block-set_block_self q ino i 0 hi (omega arith)

  give_back : Released p ino (i + 1) cleared
  unfolding cleared
  give_back = record {
    disk = r.disk;
    types = λ g. type-set_block q ino i 0 hi g ∙ r.types g;
    sizes = λ g. size-set_block q ino i 0 hi g ∙ r.sizes g;
    others = λ g j hj o. elim o [
      | inl ne ↦ cleared-block g j hj (inl (λ e. ne (sym e))) ∙ r.others g j hj (inl ne)
      | inr le ↦ cleared-block g j hj (inr (omega arith)) ∙ r.others g j hj (inr (omega arith))
    ];
    gone = λ j lt. elim (dec_lt j i) [
      | yes before ↦ cleared-block ino j (omega arith) (inr (omega arith)) ∙ r.gone j before
      | no from ↦ ap (inode_block cleared ino) {x = j} {y = i} (omega arith) ∙ cleared_self
    ];
    bytes = clear_bit-IsBytes r.bytes (inode_block q ino i);
    freed = λ j lt ne. elim (dec_lt j i) [
      | yes before ↦ ground (arith, cleared-test (inode_block p ino j), r.freed j before ne)
      | no from ↦
          let same : j ≡ i = omega arith in
          ground (arith, cleared-test (inode_block p ino j), ap (inode_block p ino) same, old_block)
    ];
    kept = λ b o.
        ground (
          arith,
          cleared-test b,
          r.kept b (λ j lt. o j (omega arith)),
          o i (omega arith),
          old_block,
        );
  }

  pub release_block-Released : Released p ino (i + 1) (release_block q ino i)
  unfolding release_block cleared
  release_block-Released = elim (Bool-cases (inode_block q ino i == 0)) [
    | inl none_here ↦ rw (none_here) (keep-none (ground arith))
    | inr has_one ↦ rw (has_one) (unfold cleared in give_back)
  ]

pub Released-all :
    {p : Pafs} (ino : ℕ)
    → IsFs p
    → Released p ino 14 (count_up (λ i q. release_block q ino i) 0 14 p)
Released-all {p} ino f =
    count_up-keeps (λ i q. Released p ino i q) 0 14 14 refl
      (λ i q from to now. release_block-Released to now)
      (record {
        disk = refl;
        types = λ g. refl;
        sizes = λ g. refl;
        others = λ g j hj o. refl;
        gone = λ j lt. absurd (omega arith);
        bytes = f.bytes;
        freed = λ j lt ne. absurd (omega arith);
        kept = λ b o. refl;
      })
