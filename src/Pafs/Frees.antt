-- ===== src/Pafs/Frees.antt =====
-- The state that `pafs_delete` of kernel/fs/pafs.c leaves: the inode and its blocks are given back.
use peker_os.Common.{
  count_up, ℕ, ◌+◌, ◌-◌, ◌*◌, ◌/◌, ◌%◌, ◌^◌, ◌<◌, ◌≡◌, refl, sym, ap, ◌∙◌, ◌≢◌, false, ◌&&◌, arith,
  inl, inr, ◌==◌, Bool-cases,
}
use mathlib.Core.Path.{subst}
use peker_os.Common.Bytes.{IsBytes}
use peker_os.Common.Bitmap.{test_bit}
use peker_os.Common.Words.{get32}
use peker_os.Pafs.{
  Pafs, type_free, pafs_bitmap_test, inode_type, inode_size, inode_block, set_size, set_type,
  set_free_inodes, free_inodes, pafs_disk_write, pafs_save_inode, pafs_save_bitmap,
  pafs_save_superblock, remove_at,
}
use peker_os.Pafs.Inodes.{
  type-set_type_self, type-set_type_ne, size-set_type, block-set_type, type-set_size,
  size-set_size_self, size-set_size_ne, block-set_size,
}
use peker_os.Pafs.Blocks.{IsFs, InUse}
use peker_os.Pafs.Same.{SameDir}
use peker_os.Pafs.Release.{Released, Released-all}
use peker_os.Pafs.Files.{release_block}

-- An entry that is removed from a directory leaves the table and the bitmap, but for the directory's size.
module _ (p : Pafs) (dir i j : ℕ) where
  bitmap-remove_at : (remove_at p dir i j).block_bitmap ≡ p.block_bitmap
  unfolding remove_at pafs_save_inode pafs_disk_write
  bitmap-remove_at = ground arith

  pub inodes-remove_at :
      (remove_at p dir i j).inodes
      ≡ (set_size p dir ((inode_size p dir + 2 ^ 32 - 32) % 2 ^ 32)).inodes
  unfolding remove_at pafs_save_inode pafs_disk_write
  inodes-remove_at =
      elim (Bool-cases
        ((i == (inode_size p dir / 32 - 1) / 16) && (j == (inode_size p dir / 32 - 1) % 16))) [
          | inl last ↦ rw (last) refl
          | inr other ↦ rw (other) refl
        ]

  pub block-remove_at :
      (g k : ℕ) → k < 14 → inode_block (remove_at p dir i j) g k ≡ inode_block p g k
  block-remove_at g k hk =
      ap (λ m. get32 m (64 * g + 8 + 4 * k)) inodes-remove_at
      ∙ block-set_size p dir ((inode_size p dir + 2 ^ 32 - 32) % 2 ^ 32) g k hk

  pub type-remove_at : (g : ℕ) → inode_type (remove_at p dir i j) g ≡ inode_type p g
  type-remove_at g =
      ap (λ m. get32 m (64 * g)) inodes-remove_at
      ∙ type-set_size p dir ((inode_size p dir + 2 ^ 32 - 32) % 2 ^ 32) g

  size-remove_at : (g : ℕ) → dir ≢ g → inode_size (remove_at p dir i j) g ≡ inode_size p g
  size-remove_at g ne =
      ap (λ m. get32 m (64 * g + 4)) inodes-remove_at
      ∙ size-set_size_ne p dir ((inode_size p dir + 2 ^ 32 - 32) % 2 ^ 32) g ne

-- What `pafs_delete` does to the table and the bitmap when it deletes `ino`: the inode is free and has no
-- blocks, those that it had are free, and the others are as they were.
pub record Frees (p : Pafs) (ino : ℕ) (q : Pafs) : Type 0 where
  pub fs : IsFs q
  pub gone :
      (inode_type q ino ≡ type_free)
      × (inode_size q ino ≡ 0)
      × ((j : ℕ) → j < 14 → inode_block q ino j ≡ 0)
  pub others : (g j : ℕ) → j < 14 → g ≢ ino → inode_block q g j ≡ inode_block p g j
  pub freed :
      (j : ℕ) → j < 14 → inode_block p ino j ≢ 0 → pafs_bitmap_test q (inode_block p ino j) ≡ false
  pub kept :
      (b : ℕ)
      → ((j : ℕ) → j < 14 → inode_block p ino j ≢ b)
      → pafs_bitmap_test q b ≡ pafs_bitmap_test p b

module _ (p : Pafs) (dir ino : ℕ) (f : IsFs p) (other : ino ≢ dir) where
  -- The state before the entry is removed.
  unfoldable pub freed_state : Pafs
  freed_state =
      let p2 =
        set_size (set_type (count_up (λ i q. release_block q ino i) 0 14 p) ino type_free) ino 0 in
      set_free_inodes p2 ((free_inodes p2 + 1) % 2 ^ 32)

  blocks_freed : Pafs
  blocks_freed = count_up (λ i q. release_block q ino i) 0 14 p

  blocks_free : Released p ino 14 blocks_freed
  unfolding blocks_freed
  blocks_free = Released-all ino f

  block-freed : (g j : ℕ) → j < 14 → inode_block freed_state g j ≡ inode_block blocks_freed g j
  unfolding freed_state blocks_freed
  block-freed g j hj =
      block-set_size (set_type (count_up (λ i q. release_block q ino i) 0 14 p) ino type_free) ino 0
        g j hj
      ∙ block-set_type (count_up (λ i q. release_block q ino i) 0 14 p) ino type_free g j hj

  type-freed : inode_type freed_state ino ≡ type_free
  unfolding freed_state
  type-freed =
      type-set_size (set_type (count_up (λ i q. release_block q ino i) 0 14 p) ino type_free) ino 0
        ino
      ∙ type-set_type_self (count_up (λ i q. release_block q ino i) 0 14 p) ino type_free
          (omega arith)

  type-freed_ne : (g : ℕ) → ino ≢ g → inode_type freed_state g ≡ inode_type blocks_freed g
  unfolding freed_state blocks_freed
  type-freed_ne g ne =
      type-set_size (set_type (count_up (λ i q. release_block q ino i) 0 14 p) ino type_free) ino 0
        g
      ∙ type-set_type_ne (count_up (λ i q. release_block q ino i) 0 14 p) ino type_free g ne

  size-freed : inode_size freed_state ino ≡ 0
  unfolding freed_state
  size-freed =
      size-set_size_self (set_type (count_up (λ i q. release_block q ino i) 0 14 p) ino type_free)
        ino 0 (omega arith)

  size-freed_ne : (g : ℕ) → ino ≢ g → inode_size freed_state g ≡ inode_size blocks_freed g
  unfolding freed_state blocks_freed
  size-freed_ne g ne =
      size-set_size_ne (set_type (count_up (λ i q. release_block q ino i) 0 14 p) ino type_free) ino
        0 g ne
      ∙ size-set_type (count_up (λ i q. release_block q ino i) 0 14 p) ino type_free g

  disk-freed : freed_state.disk ≡ p.disk
  unfolding freed_state blocks_freed
  disk-freed = (unfold blocks_freed in blocks_free.disk)

  pub freed-SameDir : SameDir p freed_state dir
  freed-SameDir = record {
    types = type-freed_ne dir other ∙ blocks_free.types dir;
    sizes = size-freed_ne dir other ∙ blocks_free.sizes dir;
    blocks = λ i lt. block-freed dir i lt ∙ blocks_free.others dir i lt (inl (λ e. other (sym e)));
    sectors = λ i lt ne. ap (λ d. d (inode_block p dir i)) disk-freed;
  }

  -- The state after the entry at `i`, `j` is removed, and all is saved.
  module _ (i j : ℕ) where
    unfoldable pub deleted_state : Pafs
    deleted_state =
        pafs_save_inode (pafs_save_bitmap (pafs_save_superblock (remove_at freed_state dir i j)))
          ino

    block-deleted :
        (g k : ℕ) → k < 14 → inode_block deleted_state g k ≡ inode_block blocks_freed g k
    unfolding deleted_state pafs_save_inode pafs_save_bitmap pafs_save_superblock pafs_disk_write
    block-deleted g k hk = block-remove_at freed_state dir i j g k hk ∙ block-freed g k hk

    test-deleted : (b : ℕ) → pafs_bitmap_test deleted_state b ≡ pafs_bitmap_test blocks_freed b
    unfolding deleted_state pafs_save_inode pafs_save_bitmap pafs_save_superblock pafs_disk_write
        pafs_bitmap_test
    test-deleted b =
        ap (λ m. test_bit m b)
          (bitmap-remove_at freed_state dir i j ∙ (unfold freed_state blocks_freed in refl))

    IsBytes-deleted : IsBytes deleted_state.block_bitmap
    unfolding deleted_state pafs_save_inode pafs_save_bitmap pafs_save_superblock pafs_disk_write
    IsBytes-deleted =
        subst IsBytes (sym (bitmap-remove_at freed_state dir i j))
          (unfold freed_state blocks_freed in blocks_free.bytes)

    gone-deleted : (k : ℕ) → k < 14 → inode_block deleted_state ino k ≡ 0
    gone-deleted k hk = block-deleted ino k hk ∙ blocks_free.gone k hk

    others-deleted :
        (g k : ℕ) → k < 14 → g ≢ ino → inode_block deleted_state g k ≡ inode_block p g k
    others-deleted g k hk ne = block-deleted g k hk ∙ blocks_free.others g k hk (inl ne)

    kept-deleted :
        (b : ℕ)
        → ((k : ℕ) → k < 14 → inode_block p ino k ≢ b)
        → pafs_bitmap_test deleted_state b ≡ pafs_bitmap_test p b
    kept-deleted b o = test-deleted b ∙ blocks_free.kept b o

    -- An inode that has a block is not the one that was deleted.
    has-block : (g k : ℕ) → k < 14 → inode_block deleted_state g k ≢ 0 → g ≢ ino
    has-block g k hk ne e = ne (ap (λ h. inode_block deleted_state h k) e ∙ gone-deleted k hk)

    deleted-IsFs : IsFs deleted_state
    deleted-IsFs = record {
      bytes = IsBytes-deleted;
      in_use = λ g k hk ne.
          (let not_it : g ≢ ino = has-block g k hk ne in
            let same = others-deleted g k hk not_it in
            let old = f.in_use g k hk (λ z. ne (same ∙ z)) in
            let still =
              kept-deleted (inode_block p g k)
                (λ l hl e. not_it (f.apart g k ino l hk hl (λ z. ne (same ∙ z)) (sym e)).0) in
            subst (InUse deleted_state) (sym same) (old.0, old.1, still ∙ old.2));
      apart = λ g k h l hk hl ne e.
          (let not_it : g ≢ ino = has-block g k hk ne in
            let not_it' : h ≢ ino = has-block h l hl (λ z. ne (e ∙ z)) in
            let same = others-deleted g k hk not_it in
            f.apart g k h l hk hl (λ z. ne (same ∙ z))
              (sym same ∙ e ∙ others-deleted h l hl not_it'));
    }

    type-deleted : inode_type deleted_state ino ≡ type_free
    unfolding deleted_state pafs_save_inode pafs_save_bitmap pafs_save_superblock pafs_disk_write
    type-deleted = type-remove_at freed_state dir i j ino ∙ type-freed

    size-deleted : inode_size deleted_state ino ≡ 0
    unfolding deleted_state pafs_save_inode pafs_save_bitmap pafs_save_superblock pafs_disk_write
    size-deleted = size-remove_at freed_state dir i j ino (λ e. other (sym e)) ∙ size-freed

    pub deleted-Frees : Frees p ino deleted_state
    deleted-Frees = record {
      fs = deleted-IsFs;
      gone = (type-deleted, size-deleted, gone-deleted);
      others = others-deleted;
      freed = λ k hk ne. test-deleted (inode_block p ino k) ∙ blocks_free.freed k hk ne;
      kept = kept-deleted;
    }
