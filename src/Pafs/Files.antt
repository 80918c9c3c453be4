-- ===== src/Pafs/Files.antt =====
-- kernel/fs/pafs.c: files, their data, and the functions of a node of the file system. The calls of
-- the lock are left out; an error of -1 is `none`.
use peker_os.Common.{
  ℕ, zero, suc, ◌+◌, ◌-◌, ◌*◌, ◌/◌, ◌%◌, ◌^◌, Bool, true, false, not, ◌&&◌, ◌||◌, ◌==◌, ltb, leb,
  if◌then◌else◌, Option, none, some, List, [], ◌∷◌, ◌++◌, length, take, drop, count_up,
}
use peker_os.Common.Bytes.{Bytes}
use peker_os.Common.Bitmap.{clear_bit}
use peker_os.Common.Copy.{copy_to, copy_from}
use peker_os.Pafs.{
  Pafs, type_free, type_file, type_dir, free_blocks, free_inodes, root_inode, set_free_blocks,
  set_free_inodes, inode_type, inode_size, inode_block, set_type, set_size, set_block,
  pafs_disk_write, pafs_save_superblock, pafs_save_inode, pafs_save_bitmap, find_free_inode,
  alloc_block, zeros, entry_inode, pafs_find_entry, pafs_add_entry, pafs_is_dir_empty,
  pafs_remove_entry,
}

unfoldable pub clear_blocks : Pafs → ℕ → Pafs
clear_blocks p ino = count_up (λ i q. set_block q ino i 0) 0 14 p

-- The new inode of `pafs_create`, in memory.
pub new_inode : Pafs → ℕ → Bool → Pafs
new_inode p ino is_dir =
    let p1 =
      clear_blocks (set_size (set_type p ino (if is_dir then type_dir else type_file)) ino 0) ino in
    set_free_inodes p1 ((free_inodes p1 + 2 ^ 32 - 1) % 2 ^ 32)

-- The entry of the new inode; without room for it the inode is given back.
pub enter_inode : Pafs → ℕ → List ℕ → ℕ → Option ℕ × Pafs
enter_inode p parent name ino =
    let (room, p1) = pafs_add_entry p parent name ino in
    if room
    then (some ino, pafs_save_inode p1 ino)
    else (let p2 = set_type p1 ino type_free in
        (none, set_free_inodes p2 ((free_inodes p2 + 1) % 2 ^ 32)))

pub pafs_create : Pafs → ℕ → List ℕ → Bool → Option ℕ × Pafs
pafs_create p parent name is_dir =
    if free_inodes p == 0 then (none, p) else elim (pafs_find_entry p parent name) [
      | some old ↦ (none, p)
      | none ↦ elim (find_free_inode p) [
        | none ↦ (none, p)
        | some ino ↦ enter_inode (new_inode p ino is_dir) parent name ino
      ]
    ]

pub pafs_mkdir : Pafs → ℕ → List ℕ → Option ℕ × Pafs
pafs_mkdir p parent name = pafs_create p parent name true

-- A block of a file that is deleted.
unfoldable pub release_block : Pafs → ℕ → ℕ → Pafs
release_block p ino i =
    if inode_block p ino i == 0
    then p
    else set_block
        (set_free_blocks
          (record p { block_bitmap = clear_bit p.block_bitmap (inode_block p ino i) })
          ((free_blocks p + 1) % 2 ^ 32))
        ino i 0

pub data Deleted : Type 0 where
  missing not_empty removed : Deleted

-- The blocks and the inode are given back, the entry is removed, and all is saved.
unfoldable pub delete_inode : Pafs → ℕ → List ℕ → ℕ → Deleted × Pafs
delete_inode p parent name ino =
    let p1 = count_up (λ i q. release_block q ino i) 0 14 p in
    let p2 = set_size (set_type p1 ino type_free) ino 0 in
    let p3 = set_free_inodes p2 ((free_inodes p2 + 1) % 2 ^ 32) in
    let (found, p4) = pafs_remove_entry p3 parent name in
    (
      if found then removed else missing,
      pafs_save_inode (pafs_save_bitmap (pafs_save_superblock p4)) ino,
    )

unfoldable pub pafs_delete : Pafs → ℕ → List ℕ → Deleted × Pafs
pafs_delete p parent name = elim (pafs_find_entry p parent name) [
  | none ↦ (missing, p)
  | some ino ↦
      if (inode_type p ino == type_dir) && not (pafs_is_dir_empty p ino)
      then (not_empty, p)
      else delete_inode p parent name ino
]

-- A file's block, taken if there is none.
unfoldable pub with_block : Pafs → ℕ → ℕ → Option Pafs
with_block p ino i =
    if inode_block p ino i == 0
    then elim (alloc_block p) [ none ↦ none | some (b, p') ↦ some (set_block p' ino i b) ]
    else some p

-- The rounds left, the block's index, and the data left: how much is written.
unfoldable pub write_loop : Pafs → ℕ → ℕ → ℕ → List ℕ → ℕ × Pafs
write_loop p ino zero i bytes = (0, p)
write_loop p ino (suc n) i [] = (0, p)
write_loop p ino (suc n) i (c ∷ cs) = elim (with_block p ino i) [
  | none ↦ (0, p)
  | some p1 ↦
      let p2 = pafs_disk_write p1 (inode_block p1 ino i) (copy_to zeros 0 (take 512 (c ∷ cs))) in
      let (m, p3) = write_loop p2 ino n (i + 1) (drop 512 (c ∷ cs)) in
      (length (take 512 (c ∷ cs)) + m, p3)
]

unfoldable pub write_file : Pafs → ℕ → List ℕ → Option ℕ × Pafs
write_file p ino bytes =
    if inode_type p ino == type_file
    then (let (n, p1) = write_loop p ino 14 0 bytes in
        (some n, pafs_save_inode (set_size p1 ino n) ino))
    else (none, p)

unfoldable pub pafs_write : Pafs → List ℕ → List ℕ → Option ℕ × Pafs
pafs_write p name bytes = elim (pafs_find_entry p (root_inode p) name) [
  | some ino ↦ write_file p ino bytes
  | none ↦
      let (made, p1) = pafs_create p (root_inode p) name false in
      elim made [ none ↦ (none, p1) | some ino ↦ write_file p1 ino bytes ]
]

-- The rounds left, the block's index, and how much is left to read.
unfoldable pub read_loop : Pafs → ℕ → ℕ → ℕ → ℕ → List ℕ
read_loop p ino zero i n = []
read_loop p ino (suc k) i n =
    let rest = read_loop p ino k (i + 1) (n - 512) in
    if (n == 0) || (inode_block p ino i == 0)
    then []
    else copy_from (p.disk (inode_block p ino i)) 0 (if ltb 512 n then 512 else n) ++ rest

-- The bytes put into the buffer; one more is written, a 0, if it has room.
unfoldable pub pafs_read : Pafs → List ℕ → ℕ → Option (List ℕ)
pafs_read p name max_len = elim (pafs_find_entry p (root_inode p) name) [
  | none ↦ none
  | some ino ↦
      if inode_type p ino == type_file
      then some (
          read_loop p ino 14 0
            (if ltb max_len (inode_size p ino) then max_len else inode_size p ino))
      else none
]

-- The loop of `pafs_vfs_read`, from a place of the first block on.
unfoldable pub vfs_read_loop : Pafs → ℕ → ℕ → ℕ → ℕ → ℕ → List ℕ
vfs_read_loop p ino zero i offset n = []
vfs_read_loop p ino (suc k) i offset n =
    let here = if ltb n (512 - offset) then n else 512 - offset in
    let rest = vfs_read_loop p ino k (i + 1) 0 (n - here) in
    if n == 0 then [] else copy_from (p.disk (inode_block p ino i)) offset here ++ rest

unfoldable pub pafs_vfs_read : Pafs → ℕ → ℕ → ℕ → List ℕ
pafs_vfs_read p ino offset size =
    if not (inode_type p ino == type_file) || leb (inode_size p ino) offset
    then []
    else vfs_read_loop p ino (14 - offset / 512) (offset / 512) (offset % 512) (
        if ltb (inode_size p ino) ((offset + size) % 2 ^ 32)
        then inode_size p ino - offset
        else size)

-- The loop of `pafs_vfs_write`: a block that is not written whole keeps what it had.
pub vfs_write_loop : Pafs → ℕ → ℕ → ℕ → ℕ → List ℕ → ℕ × Pafs
vfs_write_loop p ino zero i offset bytes = (0, p)
vfs_write_loop p ino (suc n) i offset [] = (0, p)
vfs_write_loop p ino (suc n) i offset (c ∷ cs) = elim (with_block p ino i) [
  | none ↦ (0, p)
  | some p1 ↦
      let old =
        if ltb 0 offset || ltb (length (c ∷ cs)) 512
        then p1.disk (inode_block p1 ino i)
        else zeros in
      let p2 =
        pafs_disk_write p1 (inode_block p1 ino i)
          (copy_to old offset (take (512 - offset) (c ∷ cs))) in
      let (m, p3) = vfs_write_loop p2 ino n (i + 1) 0 (drop (512 - offset) (c ∷ cs)) in
      (length (take (512 - offset) (c ∷ cs)) + m, p3)
]

unfoldable pub pafs_vfs_write : Pafs → ℕ → ℕ → List ℕ → ℕ × Pafs
pafs_vfs_write p ino offset bytes =
    if inode_type p ino == type_file
    then (let (n, p1) =
          vfs_write_loop p ino (14 - offset / 512) (offset / 512) (offset % 512) bytes in
        let p2 =
          if ltb (inode_size p1 ino) ((offset + n) % 2 ^ 32)
          then set_size p1 ino ((offset + n) % 2 ^ 32)
          else p1 in
        (n, pafs_save_inode p2 ino))
    else (0, p)

-- A name in memory, of at most so many characters.
pub read_name : Bytes → ℕ → ℕ → List ℕ
read_name m a zero = []
read_name m a (suc n) = let rest = read_name m (a + 1) n in if m a == 0 then [] else m a ∷ rest

-- `pafs_vfs_readdir`: the inode and the name of an entry.
unfoldable pub pafs_vfs_readdir : Pafs → ℕ → ℕ → Option (ℕ × List ℕ)
pafs_vfs_readdir p ino index =
    let sector = p.disk (inode_block p ino (index / 16)) in
    if not (inode_type p ino == type_dir) || (inode_size p ino == 0)
    then none
    else if leb (14 * 16) index || (inode_block p ino (index / 16) == 0)
    then none
    else if entry_inode sector (index % 16) == 0
    then none
    else some (entry_inode sector (index % 16), read_name sector (32 * (index % 16) + 4) 27)

-- The inode, the length and the kind of the node that `pafs_vfs_finddir` makes.
unfoldable pub pafs_vfs_finddir : Pafs → ℕ → List ℕ → Option (ℕ × ℕ × Bool)
pafs_vfs_finddir p ino name = elim (pafs_find_entry p ino name) [
  | none ↦ none
  | some target ↦ some (target, inode_size p target, inode_type p target == type_dir)
]
