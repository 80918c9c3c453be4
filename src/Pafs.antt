-- ===== src/Pafs.antt =====
-- kernel/fs/pafs.c and include/pafs.h: the file system's state, its blocks and its directories. The
-- superblock, the table of inodes and the bitmap are memory, as in the source; the disk gives a sector
-- for each block address, be it the memory of the disk in RAM or the drive that ata.c talks to.
pub mod Files
pub mod Inodes
pub mod Alloc
pub mod Blocks
pub mod WithBlock
pub mod Write
pub mod Same
pub mod Read
pub mod VfsLoop
pub mod VfsRead
pub mod Release
pub mod Frees
pub mod Delete
pub mod Format
pub mod Search
pub mod Swap
pub mod RoundTrip
pub mod Sample
mod Tests
use peker_os.Common.{
  ℕ, zero, suc, ◌+◌, ◌-◌, ◌*◌, ◌/◌, ◌%◌, ◌^◌, Bool, true, false, not, ◌&&◌, ◌||◌, ◌==◌, ltb,
  if◌then◌else◌, Option, none, some, List, [], ◌∷◌, take, count_up,
}
use peker_os.Common.Bytes.{Bytes, store}
use peker_os.Common.Bitmap.{set_bit, clear_bit, test_bit}
use peker_os.Common.Words.{get32, put32}

abbrev pub type_free : ℕ
type_free = 0

abbrev pub type_file : ℕ
type_file = 1

abbrev pub type_dir : ℕ
type_dir = 2

abbrev pub lba_data_start : ℕ
lba_data_start = 18

pub record Pafs : Type 0 where
  pub sb : Bytes
  pub inodes : Bytes
  pub block_bitmap : Bytes
  pub disk : ℕ → Bytes

-- The fields of `struct pafs_superblock` that the operations use.
abbrev pub free_blocks : Pafs → ℕ
free_blocks p = get32 p.sb 12

abbrev pub free_inodes : Pafs → ℕ
free_inodes p = get32 p.sb 16

abbrev pub root_inode : Pafs → ℕ
root_inode p = get32 p.sb 20

abbrev pub set_free_blocks : Pafs → ℕ → Pafs
set_free_blocks p v = record p { sb = put32 p.sb 12 v }

abbrev pub set_free_inodes : Pafs → ℕ → Pafs
set_free_inodes p v = record p { sb = put32 p.sb 16 v }

-- The fields of an inode of the table: `struct pafs_inode` has 64 bytes.
abbrev pub inode_type : Pafs → ℕ → ℕ
inode_type p ino = get32 p.inodes (64 * ino)

abbrev pub inode_size : Pafs → ℕ → ℕ
inode_size p ino = get32 p.inodes (64 * ino + 4)

abbrev pub inode_block : Pafs → ℕ → ℕ → ℕ
inode_block p ino i = get32 p.inodes (64 * ino + 8 + 4 * i)

abbrev pub set_type : Pafs → ℕ → ℕ → Pafs
set_type p ino v = record p { inodes = put32 p.inodes (64 * ino) v }

abbrev pub set_size : Pafs → ℕ → ℕ → Pafs
set_size p ino v = record p { inodes = put32 p.inodes (64 * ino + 4) v }

abbrev pub set_block : Pafs → ℕ → ℕ → ℕ → Pafs
set_block p ino i b = record p { inodes = put32 p.inodes (64 * ino + 8 + 4 * i) b }

pub pafs_disk_write : Pafs → ℕ → Bytes → Pafs
pafs_disk_write p lba buffer = record p { disk = λ l. if l == lba then buffer else p.disk l }

pub pafs_save_superblock : Pafs → Pafs
pafs_save_superblock p = pafs_disk_write p 0 p.sb

-- The sector of the table that holds the inode; a sector has 8 of them.
pub pafs_save_inode : Pafs → ℕ → Pafs
pafs_save_inode p ino = pafs_disk_write p (1 + ino / 8) (λ k. p.inodes (ino / 8 * 512 + k))

pub pafs_save_bitmap : Pafs → Pafs
pafs_save_bitmap p = pafs_disk_write p 17 p.block_bitmap

pub pafs_bitmap_test : Pafs → ℕ → Bool
pafs_bitmap_test p b = test_bit p.block_bitmap b

-- The rounds left, and the loop's `i`.
pub find_free_loop : Pafs → ℕ → ℕ → Option ℕ
find_free_loop p zero i = none
find_free_loop p (suc n) i =
    let later = find_free_loop p n (i + 1) in if inode_type p i == type_free then some i else later

pub find_free_inode : Pafs → Option ℕ
find_free_inode p = find_free_loop p 128 0

-- The block is marked, and the bitmap and the superblock are saved.
pub take_block : Pafs → ℕ → Pafs
take_block p b = pafs_save_superblock (
    pafs_save_bitmap (record p {
      block_bitmap = set_bit p.block_bitmap b;
      sb = put32 p.sb 12 ((free_blocks p + 2 ^ 32 - 1) % 2 ^ 32);
    }))

pub alloc_loop : Pafs → ℕ → ℕ → Option (ℕ × Pafs)
alloc_loop p zero i = none
alloc_loop p (suc n) i =
    let later = alloc_loop p n (i + 1) in
    if pafs_bitmap_test p i then later else some (i, take_block p i)

-- The first free block of the 4096, or `none`, and then nothing changes.
pub alloc_block : Pafs → Option (ℕ × Pafs)
alloc_block p = alloc_loop p (4096 - lba_data_start) lba_data_start

-- A sector of zeros.
abbrev pub zeros : Bytes
zeros k = 0

-- `strcmp` with a name, at a place of memory, gives 0.
pub name_matches : Bytes → ℕ → List ℕ → Bool
name_matches m a [] = m a == 0
name_matches m a (c ∷ cs) = (m a == c) && name_matches m (a + 1) cs

-- The entries of a directory's sector have 32 bytes: an inode, 0 in a free one, and a name.
abbrev pub entry_inode : Bytes → ℕ → ℕ
entry_inode sector j = get32 sector (32 * j)

pub scan_name : Bytes → List ℕ → ℕ → ℕ → Option ℕ
scan_name sector name zero j = none
scan_name sector name (suc n) j =
    let later = scan_name sector name n (j + 1) in
    if not (entry_inode sector j == 0) && name_matches sector (32 * j + 4) name
    then some j
    else later

pub scan_free : Bytes → ℕ → ℕ → Option ℕ
scan_free sector zero j = none
scan_free sector (suc n) j =
    let later = scan_free sector n (j + 1) in if entry_inode sector j == 0 then some j else later

-- The search of `pafs_find_entry` and of `pafs_remove_entry`: the place of a name in a directory.
pub find_place : Pafs → ℕ → List ℕ → ℕ → ℕ → Option (ℕ × ℕ)
find_place p dir name zero i = none
find_place p dir name (suc n) i =
    let later = find_place p dir name n (i + 1) in
    if inode_block p dir i == 0
    then none
    else elim (scan_name (p.disk (inode_block p dir i)) name 16 0) [
      | none ↦ later
      | some j ↦ some (i, j)
    ]

pub pafs_find_entry : Pafs → ℕ → List ℕ → Option ℕ
pafs_find_entry p dir name =
    if not (inode_type p dir == type_dir) || (inode_size p dir == 0)
    then none
    else elim (find_place p dir name 14 0) [
      | none ↦ none
      | some (i, j) ↦ some (entry_inode (p.disk (inode_block p dir i)) j)
    ]

-- A name of at most 27 characters is written with a 0 behind it.
pub put_name : Bytes → ℕ → List ℕ → Bytes
put_name m a [] = store m a 0
put_name m a (c ∷ cs) = put_name (store m a c) (a + 1) cs

abbrev pub put_entry : Bytes → ℕ → ℕ → List ℕ → Bytes
put_entry sector j ino name = put_name (put32 sector (32 * j) ino) (32 * j + 4) (take 27 name)

-- A directory's block, taken and cleared if there is none.
pub dir_block : Pafs → ℕ → ℕ → Option Pafs
dir_block p dir i =
    if inode_block p dir i == 0
    then elim (alloc_block p) [
      | none ↦ none
      | some (b, p') ↦ some (pafs_disk_write (set_block p' dir i b) b zeros)
    ]
    else some p

pub write_entry : Pafs → ℕ → ℕ → ℕ → List ℕ → ℕ → Pafs
write_entry p dir i j name file_ino =
    let b = inode_block p dir i in
    let p1 = pafs_disk_write p b (put_entry (p.disk b) j file_ino name) in
    pafs_save_inode (set_size p1 dir ((inode_size p1 dir + 32) % 2 ^ 32)) dir

pub add_loop : Pafs → ℕ → List ℕ → ℕ → ℕ → ℕ → Bool × Pafs
add_loop p dir name file_ino zero i = (false, p)
add_loop p dir name file_ino (suc n) i = elim (dir_block p dir i) [
  | none ↦ (false, p)
  | some p1 ↦ elim (scan_free (p1.disk (inode_block p1 dir i)) 16 0) [
    | none ↦ add_loop p1 dir name file_ino n (i + 1)
    | some j ↦ (true, write_entry p1 dir i j name file_ino)
  ]
]

-- Whether there was room, and the state.
pub pafs_add_entry : Pafs → ℕ → List ℕ → ℕ → Bool × Pafs
pafs_add_entry p dir name file_ino =
    if inode_type p dir == type_dir then add_loop p dir name file_ino 14 0 else (false, p)

pub pafs_is_dir_empty : Pafs → ℕ → Bool
pafs_is_dir_empty p ino = (inode_type p ino == type_dir) && (inode_size p ino == 0)

-- The entry at one place of a sector copied from another.
pub copy_entry : Bytes → ℕ → Bytes → ℕ → Bytes
copy_entry target j source k i =
    if ltb i (32 * j)
    then target i
    else if ltb i (32 * j + 32)
    then source (32 * k + (i - 32 * j))
    else target i

pub clear_entry : Bytes → ℕ → Bytes
clear_entry sector j i =
    if ltb i (32 * j) then sector i else if ltb i (32 * j + 32) then 0 else sector i

-- The second half of `pafs_remove_entry`, at the place `i`, `j` of the name. The last sector is read
-- before the target's is written. A directory that holds a name has a size of 32 at least.
pub remove_at : Pafs → ℕ → ℕ → ℕ → Pafs
remove_at p dir i j =
    let last = inode_size p dir / 32 - 1 in
    let target_data = p.disk (inode_block p dir i) in
    let last_data = p.disk (inode_block p dir (last / 16)) in
    let p1 =
      if (i == last / 16) && (j == last % 16)
      then p
      else pafs_disk_write p (inode_block p dir i)
          (copy_entry target_data j last_data (last % 16)) in
    let p2 =
      pafs_disk_write p1 (inode_block p dir (last / 16)) (clear_entry last_data (last % 16)) in
    pafs_save_inode (set_size p2 dir ((inode_size p2 dir + 2 ^ 32 - 32) % 2 ^ 32)) dir

pub pafs_remove_entry : Pafs → ℕ → List ℕ → Bool × Pafs
pafs_remove_entry p dir name = elim (find_place p dir name 14 0) [
  | none ↦ (false, p)
  | some (i, j) ↦ (true, remove_at p dir i j)
]
