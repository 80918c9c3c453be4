-- ===== src/Pafs/Format.antt =====
-- `pafs_format` of kernel/fs/pafs.c: the disk that it makes is well formed.
use peker_os.Common.{
  count_up, count_up-keeps, ℕ, ◌+◌, ◌-◌, ◌*◌, ◌%◌, ◌^◌, ◌≤◌, ◌<◌, ◌≡◌, refl, sym, ap, ◌∙◌, ◌≢◌, ◌⊎◌,
  arith, inl, inr, ◌==◌, Bool-cases, Option, none, some,
}
use mathlib.Core.Path.{subst}
use native.Mathlib.Decide.{dec_lt}
use peker_os.Common.Bytes.{Bytes, IsBytes, store}
use peker_os.Common.Bitmap.{set_bit, set_bit-IsBytes}
use peker_os.Common.Words.{put32}
use peker_os.Pafs.{
  Pafs, type_free, type_dir, inode_block, set_type, set_size, set_block, set_free_inodes,
  free_inodes, find_free_inode, alloc_block, pafs_disk_write, pafs_save_superblock,
  pafs_save_bitmap, pafs_bitmap_test, zeros,
}
use peker_os.Pafs.Inodes.{block-set_block_self, block-set_block_ne, block-set_type, block-set_size}
use peker_os.Pafs.Alloc.{Allocates, takes, full, alloc_block-Allocates}
use peker_os.Pafs.Blocks.{IsFs}
use peker_os.Pafs.WithBlock.{HasBlock, has, taken-HasBlock}
use peker_os.Pafs.Files.{clear_blocks}

-- The whole of the metadata is written.
unfoldable pub save_metadata : Pafs → Pafs
save_metadata p = pafs_save_bitmap (
    count_up (λ i q. pafs_disk_write q (1 + i) (λ k. q.inodes (i * 512 + k))) 0 16
      (pafs_save_superblock p))

unfoldable pub clear_inode : ℕ → ℕ → Pafs → Pafs
clear_inode type ino p = clear_blocks (set_size (set_type p ino type) ino 0) ino

-- The superblock and the tables without an inode.
unfoldable pub blank_tables : Pafs → Pafs
blank_tables p =
    let p1 = record p {
      sb = put32 (put32 (put32 (put32 (put32 p.sb 0 2805) 4 4096) 8 128) 12 4078) 16 128;
    } in
    let p2 = count_up (clear_inode type_free) 0 128 p1 in
    record p2 {
      block_bitmap =
          count_up (λ i b. set_bit b i) 0 18 (count_up (λ i b. store b i 0) 0 512 p2.block_bitmap);
    }

-- The root's inode and its first block, which is cleared.
unfoldable pub make_root : Pafs → ℕ → Pafs
make_root p root = elim (alloc_block (clear_inode type_dir root p)) [
  | none ↦ clear_inode type_dir root p
  | some (b, q) ↦ pafs_disk_write (set_block q root 0 b) b zeros
]

-- All inodes are free when the root's is looked for.
unfoldable pub pafs_format : Pafs → Pafs
pafs_format p = elim (find_free_inode (blank_tables p)) [
  | none ↦ blank_tables p
  | some root ↦
      (let p1 = make_root (blank_tables p) root in
        let p2 = record p1 { sb = put32 p1.sb 20 root } in
        save_metadata (set_free_inodes p2 ((free_inodes p2 + 2 ^ 32 - 1) % 2 ^ 32)))
]

-- An inode's blocks are cleared and those of the others are as they were.
record Clears (p : Pafs) (ino n : ℕ) (q : Pafs) : Type 0 where
  gone : (j : ℕ) → j < n → inode_block q ino j ≡ 0
  others : (g j : ℕ) → j < 14 → ino ≢ g → inode_block q g j ≡ inode_block p g j
  bitmap : q.block_bitmap ≡ p.block_bitmap

clear_blocks-Clears : (p : Pafs) (ino : ℕ) → Clears p ino 14 (clear_blocks p ino)
unfolding clear_blocks
clear_blocks-Clears p ino =
    count_up-keeps (λ n q. Clears p ino n q) 0 14 14 refl
      (λ i q from to now. record {
        gone = λ j lt. elim (dec_lt j i) [
          | yes before ↦
              block-set_block_ne q ino i 0 to ino j (omega arith) (inr (omega arith))
              ∙ now.gone j before
          | no at ↦
              ap (inode_block (set_block q ino i 0) ino) {x = j} {y = i} (omega arith)
              ∙ block-set_block_self q ino i 0 to (omega arith)
        ];
        others =
            λ g j lt ne. block-set_block_ne q ino i 0 to g j lt (inl ne) ∙ now.others g j lt ne;
        bitmap = now.bitmap;
      })
      (record { gone = λ j lt. absurd (omega arith); others = λ g j lt ne. refl; bitmap = refl })

-- No inode below `n`, or outside the table, has a block.
abbrev NoBlocks : ℕ → Pafs → Type 0
NoBlocks n q = (g j : ℕ) → j < 14 → (g < n) ⊎ (128 ≤ g) → inode_block q g j ≡ 0

clear_inode-NoBlocks :
    (type n m ino : ℕ) (q : Pafs)
    → NoBlocks n q
    → ((g : ℕ) → g < m → (g < n) ⊎ (g ≡ ino))
    → NoBlocks m (clear_inode type ino q)
unfolding clear_inode
clear_inode-NoBlocks type n m ino q none_yet below g j hj at =
    let cleared = clear_blocks-Clears (set_size (set_type q ino type) ino 0) ino in
    let before : (g < n) ⊎ (128 ≤ g) ⊎ (g ≡ ino) = elim at [
      | inl lt ↦ elim (below g lt) [ inl old ↦ inl old | inr new ↦ inr (inr new) ]
      | inr outside ↦ inr (inl outside)
    ] in
    let kept : ino ≢ g
        → (g < n) ⊎ (128 ≤ g)
        → inode_block (clear_blocks (set_size (set_type q ino type) ino 0) ino) g j ≡ 0 =
      λ ne old.
        cleared.others g j hj ne
        ∙ block-set_size (set_type q ino type) ino 0 g j hj
        ∙ block-set_type q ino type g j hj
        ∙ none_yet g j hj old in
    elim (Bool-cases (ino == g)) [
      | inl same ↦
          ap (λ h. inode_block (clear_blocks (set_size (set_type q ino type) ino 0) ino) h j)
            {x = g} {y = ino} (ground arith)
          ∙ cleared.gone j hj
      | inr other ↦ elim before [
        | inl lt ↦ kept (ground arith) (inl lt)
        | inr (inl outside) ↦ kept (ground arith) (inr outside)
        | inr (inr same) ↦ absurd (ground (arith, same))
      ]
    ]

clear_inode-bitmap :
    (type ino : ℕ) (q : Pafs) → (clear_inode type ino q).block_bitmap ≡ q.block_bitmap
unfolding clear_inode
clear_inode-bitmap type ino q =
    (clear_blocks-Clears (set_size (set_type q ino type) ino 0) ino).bitmap

-- A state without blocks is well formed.
NoBlocks-IsFs : (q : Pafs) → IsBytes q.block_bitmap → NoBlocks 128 q → IsFs q
NoBlocks-IsFs q bytes none_there = record {
  bytes = bytes;
  in_use = λ g i hi ne. absurd (ne (all g i hi));
  apart = λ g i h j hi hj ne same. absurd (ne (all g i hi));
}
  where
    all : (g i : ℕ) → i < 14 → inode_block q g i ≡ 0
    all g i hi = elim (dec_lt g 128) [
      | yes lt ↦ none_there g i hi (inl lt)
      | no ge ↦ none_there g i hi (inr (omega arith))
    ]

HasBlock-IsFs : {p q : Pafs} {ino i : ℕ} → HasBlock p ino i (some q) → IsFs q
HasBlock-IsFs (has q ne ch same) = ch.fs

-- The disk and the superblock do not matter for it.
IsFs-disk : (q : Pafs) (lba : ℕ) (sector : Bytes) → IsFs q → IsFs (pafs_disk_write q lba sector)
unfolding pafs_disk_write pafs_bitmap_test
IsFs-disk q lba sector f = record { bytes = f.bytes; in_use = f.in_use; apart = f.apart }

IsFs-sb : (q : Pafs) (sb : Bytes) → IsFs q → IsFs (record q { sb = sb })
unfolding pafs_bitmap_test
IsFs-sb q sb f = record { bytes = f.bytes; in_use = f.in_use; apart = f.apart }

save_metadata-IsFs : (q : Pafs) → IsFs q → IsFs (save_metadata q)
unfolding save_metadata pafs_save_superblock pafs_save_bitmap
save_metadata-IsFs q f =
    let first : IsFs (pafs_disk_write q 0 q.sb) = IsFs-disk q 0 q.sb f in
    let saved : Pafs =
      count_up (λ i r. pafs_disk_write r (1 + i) (λ k. r.inodes (i * 512 + k))) 0 16
        (pafs_disk_write q 0 q.sb) in
    IsFs-disk saved 17 saved.block_bitmap (
      count_up-keeps (λ n r. IsFs r) 0 16 16 refl
        (λ i r from to now. IsFs-disk r (1 + i) (λ k. r.inodes (i * 512 + k)) now) first)

module _ (p : Pafs) (bytes : IsBytes p.block_bitmap) (outside : NoBlocks 0 p) where
  blank_tables-NoBlocks : NoBlocks 128 (blank_tables p)
  unfolding blank_tables
  blank_tables-NoBlocks =
      count_up-keeps (λ n q. NoBlocks n q) 0 128 128 refl
        (λ i q from to now.
          clear_inode-NoBlocks type_free i (i + 1) i q now
            (λ g lt. elim (dec_lt g i) [ yes before ↦ inl before | no at ↦ inr (omega arith) ]))
        outside

  blank_tables-IsBytes : IsBytes (blank_tables p).block_bitmap
  unfolding blank_tables
  blank_tables-IsBytes =
      let cleared : (count_up (clear_inode type_free) 0 128 (record p {
        sb = put32 (put32 (put32 (put32 (put32 p.sb 0 2805) 4 4096) 8 128) 12 4078) 16 128;
      })).block_bitmap
          ≡ p.block_bitmap =
        count_up-keeps (λ n q. q.block_bitmap ≡ p.block_bitmap) 0 128 128 refl
          (λ i q from to now. clear_inode-bitmap type_free i q ∙ now) refl in
      count_up-keeps (λ n b. IsBytes b) 0 18 18 refl (λ i b from to now. set_bit-IsBytes now i)
        (count_up-keeps (λ n b. IsBytes b) 0 512 512 refl
          (λ i b from to now k. ground (arith, now k)) (subst IsBytes (sym cleared) bytes))

  root_free : (root : ℕ) → NoBlocks 128 (clear_inode type_dir root (blank_tables p))
  root_free root =
      clear_inode-NoBlocks type_dir 128 128 root (blank_tables p) blank_tables-NoBlocks
        (λ g lt. inl lt)

  root_free-IsFs : (root : ℕ) → IsFs (clear_inode type_dir root (blank_tables p))
  root_free-IsFs root =
      NoBlocks-IsFs (clear_inode type_dir root (blank_tables p))
        (subst IsBytes (sym (clear_inode-bitmap type_dir root (blank_tables p)))
          blank_tables-IsBytes)
        (root_free root)

  make_root-IsFs : (root : ℕ) → IsFs (make_root (blank_tables p) root)
  unfolding make_root
  make_root-IsFs root =
      go (alloc_block (clear_inode type_dir root (blank_tables p)))
        (alloc_block-Allocates (clear_inode type_dir root (blank_tables p)))
    where
      go :
          (r : Option (ℕ × Pafs))
          → Allocates (clear_inode type_dir root (blank_tables p)) 18 4096 r
          → IsFs (elim r [
            | none ↦ clear_inode type_dir root (blank_tables p)
            | some (b, q) ↦ pafs_disk_write (set_block q root 0 b) b zeros
          ])
      go none (full used) = root_free-IsFs root
      go (some (b, q)) (takes b' lo hi free before) = IsFs-disk (set_block q root 0 b) b zeros (
          HasBlock-IsFs (
            taken-HasBlock (clear_inode type_dir root (blank_tables p)) root 0 (root_free-IsFs root)
              (omega arith)
              (elim (dec_lt root 128) [
                | yes lt ↦ root_free root root 0 (omega arith) (inl lt)
                | no ge ↦ root_free root root 0 (omega arith) (inr (omega arith))
              ])
              (takes b' lo hi free before)))

  -- `pafs_format` makes a well-formed disk, with no block in two places, whatever is in the memory of its
  -- tables; the numbers outside of the tables are taken to be bytes and no blocks.
  pub pafs_format-IsFs : IsFs (pafs_format p)
  unfolding pafs_format
  pafs_format-IsFs = go (find_free_inode (blank_tables p))
    where
      go :
          (r : Option ℕ)
          → IsFs (elim r [
            | none ↦ blank_tables p
            | some root ↦
                (let p1 = make_root (blank_tables p) root in
                  let p2 = record p1 { sb = put32 p1.sb 20 root } in
                  save_metadata (set_free_inodes p2 ((free_inodes p2 + 2 ^ 32 - 1) % 2 ^ 32)))
          ])
      go none = NoBlocks-IsFs (blank_tables p) blank_tables-IsBytes blank_tables-NoBlocks
      go (some root) =
          let p1 : Pafs = make_root (blank_tables p) root in
          let p2 : Pafs = record p1 { sb = put32 p1.sb 20 root } in
          let f2 : IsFs p2 = IsFs-sb p1 (put32 p1.sb 20 root) (make_root-IsFs root) in
          save_metadata-IsFs (set_free_inodes p2 ((free_inodes p2 + 2 ^ 32 - 1) % 2 ^ 32))
            (IsFs-sb p2 (put32 p2.sb 16 ((free_inodes p2 + 2 ^ 32 - 1) % 2 ^ 32)) f2)
