-- ===== src/Pafs/Swap.antt =====
-- `pafs_remove_entry` of kernel/fs/pafs.c, when the last entry is in the block of the name.
use peker_os.Common.{
  ℕ, ◌+◌, ◌-◌, ◌*◌, ◌/◌, ◌%◌, ◌^◌, ◌≤◌, ◌<◌, ◌≡◌, refl, ap, ◌∙◌, ◌≢◌, false, not, ◌&&◌, ◌||◌, arith,
  inl, inr, ◌==◌, Bool-cases, if◌then◌else◌, some, List, length,
}
use peker_os.Common.Words.{get32}
use peker_os.Pafs.{
  Pafs, type_dir, inode_type, inode_size, inode_block, pafs_disk_write, pafs_save_inode, find_place,
  pafs_find_entry, remove_at, pafs_remove_entry, clear_entry, entry_inode,
}
use peker_os.Pafs.Inodes.{size-set_size_self}
use peker_os.Pafs.Blocks.{IsFs}
use peker_os.Pafs.Frees.{inodes-remove_at, block-remove_at, type-remove_at}
use peker_os.Pafs.Delete.{remove_found}
use peker_os.Pafs.Search.{entry-same, scan_name-keeps, Found, find_place-Found, find_place-keeps}

-- The name at `i`, `j` is not the last entry, and the last is in the same block behind it.
module _ (p : Pafs) (dir i j : ℕ) (last_block : (inode_size p dir / 32 - 1) / 16 ≡ i)
    (behind : j < (inode_size p dir / 32 - 1) % 16) (small : dir < 128) where
  after : Pafs
  after = remove_at p dir i j

  after-disk :
      (b : ℕ)
      → 18 ≤ b
      → after.disk b ≡ (
          if b == inode_block p dir i
          then clear_entry (p.disk b) ((inode_size p dir / 32 - 1) % 16)
          else p.disk b)
  unfolding after remove_at pafs_save_inode pafs_disk_write
  after-disk b data_block =
      let elsewhere : b == 1 + dir / 8 ≡ false = ground arith in
      let not_last : (i == (inode_size p dir / 32 - 1) / 16)
            && (j == (inode_size p dir / 32 - 1) % 16)
          ≡ false =
        ground arith in
      rw (elsewhere, not_last, last_block)
        (elim (Bool-cases (b == inode_block p dir i)) [
          | inl here ↦ rw (here) (
              ap (λ c. clear_entry (p.disk c) ((inode_size p dir / 32 - 1) % 16))
                {x = inode_block p dir i} {y = b} (ground arith))
          | inr there ↦ rw (there) refl
        ])

  after-size : inode_size p dir < 2 ^ 32 → inode_size after dir ≡ inode_size p dir - 32
  unfolding after
  after-size word =
      ap (λ m. get32 m (64 * dir + 4)) (inodes-remove_at p dir i j)
      ∙ size-set_size_self p dir ((inode_size p dir + 2 ^ 32 - 32) % 2 ^ 32) (omega arith)
      ∙ omega arith

  module _ (name : List ℕ) (short : length name ≤ 27) (f : IsFs p)
      (is_dir : inode_type p dir ≡ type_dir) (word : inode_size p dir < 2 ^ 32)
      (place : find_place p dir name 14 0 ≡ some (i, j)) where
    found : Found p dir name 14 0 i j
    found = find_place-Found p dir name 14 0 i j place

    -- The block is a data block, so that the metadata which is saved does not overwrite it.
    data_block : 18 ≤ inode_block p dir i
    data_block = (let (lo, hi, ne, there) = found in (f.in_use dir i hi ne).0)

    block-after :
        after.disk (inode_block p dir i)
        ≡ clear_entry (p.disk (inode_block p dir i)) ((inode_size p dir / 32 - 1) % 16)
    block-after = after-disk (inode_block p dir i) data_block ∙ ground arith

    after-sector :
        (x : ℕ)
        → x < 32 * (j + 1)
        → after.disk (inode_block p dir i) x ≡ p.disk (inode_block p dir i) x
    unfolding clear_entry
    after-sector x lt = ap (λ d. d x) block-after ∙ ground arith

    after-others :
        (k : ℕ)
        → k < 14
        → k ≢ i
        → inode_block p dir k ≢ 0
        → after.disk (inode_block p dir k) ≡ p.disk (inode_block p dir k)
    after-others k hk other ne =
        let apart : inode_block p dir k ≢ inode_block p dir i =
          λ e. other (let (lo, hi, has, there) = found in (f.apart dir k dir i hk hi ne e).1) in
        after-disk (inode_block p dir k) (f.in_use dir k hk ne).0 ∙ ground (arith, apart)

    -- The search finds it where it was.
    after-place : find_place after dir name 14 0 ≡ some (i, j)
    unfolding after
    after-place =
        let (lo, hi, ne, there) = found in
        find_place-keeps p (remove_at p dir i j) dir name i j (block-remove_at p dir i j dir)
          (unfold after in after-others) there
          (scan_name-keeps (p.disk (inode_block p dir i))
            ((remove_at p dir i j).disk (inode_block p dir i)) name j short
            (unfold after in after-sector) 16 0 there)
          14 0 refl place

    after-entry :
        entry_inode (after.disk (inode_block after dir i)) j
        ≡ entry_inode (p.disk (inode_block p dir i)) j
    unfolding after
    after-entry =
        let (lo, hi, ne, there) = found in
        ap (λ b. entry_inode ((remove_at p dir i j).disk b) j) (block-remove_at p dir i j dir i hi)
        ∙ entry-same (p.disk (inode_block p dir i))
            ((remove_at p dir i j).disk (inode_block p dir i)) name j short
            (unfold after in after-sector) j (omega arith)

    find-after : pafs_find_entry after dir name ≡ pafs_find_entry p dir name
    unfolding pafs_find_entry
    find-after =
        let type_after : inode_type after dir ≡ inode_type p dir =
          (unfold after in type-remove_at p dir i j dir) in
        let some_after : not (inode_type p dir == type_dir) || (inode_size p dir - 32 == 0)
            ≡ false =
          ground arith in
        let some_before : not (inode_type p dir == type_dir) || (inode_size p dir == 0) ≡ false =
          ground arith in
        rw (type_after, after-size word, some_after, some_before, after-place, place)
          (ap some after-entry)

    -- `pafs_remove_entry`, on a well-formed disk, of a name of at most 27 characters in a directory of the
    -- table, which is not the last entry of the directory but in the block of the last and before it: the
    -- name is still found, and the last entry is cleared.
    pub pafs_remove_entry-keeps :
        (pafs_find_entry (pafs_remove_entry p dir name).1 dir name ≡ pafs_find_entry p dir name)
        × ((x : ℕ)
            → x < 32
            → (pafs_remove_entry p dir name).1.disk
                (inode_block p dir i)
                (32 * ((inode_size p dir / 32 - 1) % 16) + x)
              ≡ 0)
    unfolding after clear_entry
    pafs_remove_entry-keeps = rw (remove_found p dir name i j place) (
      unfold after in find-after,
      λ x lt.
          ap (λ d. d (32 * ((inode_size p dir / 32 - 1) % 16) + x)) (unfold after in block-after)
          ∙ ground arith,
    )
