-- ===== src/Pafs/Sample.antt =====
-- A small file system in the layout of include/pafs.h.
use peker_os.Common.{
  ℕ, ◌+◌, ◌*◌, ◌%◌, ◌<◌, ◌≡◌, refl, sym, ap, ◌∙◌, ◌≢◌, ◌⊎◌, true, arith, inl, inr, ◌==◌, Bool-cases,
  if◌then◌else◌, some, [], ◌∷◌,
}
use mathlib.Core.Path.{subst}
use peker_os.Common.Bytes.{Bytes}
use peker_os.Common.Words.{get32}
use peker_os.Common.Bitmap.{test_bit}
use peker_os.Pafs.{
  Pafs, type_file, type_dir, inode_type, inode_size, inode_block, root_inode, pafs_bitmap_test,
  name_matches, scan_name, find_place, pafs_find_entry,
}
use peker_os.Pafs.Blocks.{IsFs, InUse}
use peker_os.Common.Copy.{copy_from}
use peker_os.Pafs.Files.{read_loop, pafs_read}

-- The root with two files, `a` of three bytes and `b` of none.
abbrev table : Bytes
table i =
    if i == 0
    then 2
    else if i == 4
    then 64
    else if i == 8
    then 18
    else if i == 64
    then 1
    else if i == 68
    then 3
    else if i == 72
    then 19
    else if i == 128
    then 1
    else 0

abbrev root_sector : Bytes
root_sector i =
    if i == 0 then 1 else if i == 4 then 97 else if i == 32 then 2 else if i == 36 then 98 else 0

abbrev pub small_fs : Pafs
small_fs = record {
  sb = λ i. if i == 12 then 236 else if i == 13 then 15 else if i == 16 then 125 else 0;
  inodes = table;
  block_bitmap = λ i. if i == 0 then 255 else if i == 1 then 255 else if i == 2 then 15 else 0;
  disk = λ l. if l == 18 then root_sector else (λ k. if l == 19 then (7 + k) % 256 else 0);
}

table-zero : (a : ℕ) → 8 < a → a ≢ 64 → a ≢ 68 → a ≢ 72 → a ≢ 128 → table a ≡ 0
table-zero a lo n1 n2 n3 n4 = ground arith

no_block :
    (g i : ℕ)
    → i < 14
    → (64 * g + 8 + 4 * i ≢ 8)
    → (64 * g + 8 + 4 * i ≢ 72)
    → inode_block small_fs g i ≡ 0
unfolding get32
no_block g i hi n1 n2 =
    let t : ℕ = 64 * g + 8 + 4 * i in
    let byte : (k : ℕ) → k < 4 → table (t + k) ≡ 0 = λ k lt.
      table-zero (t + k) (omega arith) (omega arith) (omega arith) (omega arith) (omega arith) in
    omega (
      arith,
      ap table {x = t} {y = t + 0} (omega arith),
      byte 0 (omega arith),
      byte 1 (omega arith),
      byte 2 (omega arith),
      byte 3 (omega arith),
    )

has_block :
    (g i : ℕ) → i < 14 → inode_block small_fs g i ≢ 0 → ((g ≡ 0) × (i ≡ 0)) ⊎ ((g ≡ 1) × (i ≡ 0))
has_block g i hi ne = elim (Bool-cases (64 * g + 8 + 4 * i == 8)) [
  | inl root ↦ inl (ground arith, ground arith)
  | inr n1 ↦ elim (Bool-cases (64 * g + 8 + 4 * i == 72)) [
    | inl file ↦ inr (ground arith, ground arith)
    | inr n2 ↦ absurd (ne (no_block g i hi (ground arith) (ground arith)))
  ]
]

root_block : inode_block small_fs 0 0 ≡ 18
unfolding get32
root_block = refl

file_block : inode_block small_fs 1 0 ≡ 19
unfolding get32
file_block = refl

blocks_used : (pafs_bitmap_test small_fs 18 ≡ true) × (pafs_bitmap_test small_fs 19 ≡ true)
unfolding pafs_bitmap_test test_bit
blocks_used = (refl, refl)

block_of : {g i h j : ℕ} → g ≡ h → i ≡ j → inode_block small_fs g i ≡ inode_block small_fs h j
block_of {i = i} {h = h} e f = ap (λ g. inode_block small_fs g i) e ∙ ap (inode_block small_fs h) f

pub small_fs-IsFs : IsFs small_fs
small_fs-IsFs = record {
  bytes = λ i. ground arith;
  in_use = λ g i hi ne. elim (has_block g i hi ne) [
    | inl (e, f) ↦
        subst (InUse small_fs) (sym (block_of e f ∙ root_block))
          (omega arith, omega arith, blocks_used.0)
    | inr (e, f) ↦
        subst (InUse small_fs) (sym (block_of e f ∙ file_block))
          (omega arith, omega arith, blocks_used.1)
  ];
  apart = λ g i h j hi hj ne same. elim (has_block g i hi ne) [
    | inl (e, f) ↦ elim (has_block h j hj (λ z. ne (same ∙ z))) [
      | inl (d, c) ↦ (e ∙ sym d, f ∙ sym c)
      | inr (d, c) ↦
          absurd (omega (arith, same, block_of e f, block_of d c, root_block, file_block))
    ]
    | inr (e, f) ↦ elim (has_block h j hj (λ z. ne (same ∙ z))) [
      | inl (d, c) ↦
          absurd (omega (arith, same, block_of e f, block_of d c, root_block, file_block))
      | inr (d, c) ↦ (e ∙ sym d, f ∙ sym c)
    ]
  ];
}

pub a_found : pafs_find_entry small_fs (root_inode small_fs) (97 ∷ []) ≡ some 1
unfolding pafs_find_entry find_place scan_name name_matches get32
a_found = refl

pub a_place : find_place small_fs 0 (97 ∷ []) 14 0 ≡ some (0, 0)
unfolding find_place scan_name name_matches get32
a_place = refl

pub a_apart : (ino : ℕ) → pafs_find_entry small_fs 0 (97 ∷ []) ≡ some ino → ino ≢ 0
unfolding pafs_find_entry find_place scan_name name_matches get32
a_apart ino found e = ground (arith, found, e)

pub a_type : inode_type small_fs 1 ≡ type_file
unfolding get32
a_type = refl

pub a_size : inode_size small_fs 1 ≡ 3
unfolding get32
a_size = refl

pub a_read : pafs_read small_fs (97 ∷ []) 10 ≡ some (7 ∷ 8 ∷ 9 ∷ [])
unfolding pafs_read pafs_find_entry find_place scan_name name_matches get32 read_loop copy_from
a_read = refl

pub root_type : inode_type small_fs 0 ≡ type_dir
unfolding get32
root_type = refl

pub root_size : inode_size small_fs 0 ≡ 64
unfolding get32
root_size = refl

pub a_holes : (j : ℕ) → 512 * j < inode_size small_fs 1 → inode_block small_fs 1 j ≢ 0
a_holes j lt e =
    let first : j ≡ 0 = omega (arith, a_size) in
    omega (arith, e, ap (inode_block small_fs 1) first, file_block)

pub root_dir : inode_type small_fs (root_inode small_fs) ≡ type_dir
unfolding get32
root_dir = refl
