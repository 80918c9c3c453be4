-- ===== src/Pafs/RoundTrip.antt =====
-- `pafs_write` and `pafs_read` of kernel/fs/pafs.c, of a file that the root directory holds.
use peker_os.Common.{
  ℕ, ◌*◌, ◌^◌, ◌≤◌, ◌<◌, ◌≡◌, refl, sym, ap, ◌∙◌, ◌≢◌, ◌⊎◌, true, arith, inl, inr, ◌==◌, ltb,
  Bool-cases, if◌then◌else◌, Option, some, List, length, take,
}
use peker_os.Pafs.{
  Pafs, type_file, root_inode, inode_type, inode_size, inode_block, set_size, pafs_save_inode,
  pafs_disk_write, pafs_find_entry, pafs_bitmap_test,
}
use peker_os.Pafs.Inodes.{size-set_size_self, size-set_size_ne, type-set_size, block-set_size}
use mathlib.Core.Path.{subst}
use peker_os.Common.Runs.{length-take, take-all}
use peker_os.Pafs.Same.{SameDir, pafs_find_entry-same, find_entry-dir}
use peker_os.Pafs.Read.{read_loop-same, read_loop-front, read_of, pafs_read-found}
use peker_os.Pafs.Blocks.{IsFs, InUse, Changes}
use peker_os.Pafs.Files.{write_loop, write_file, pafs_write, read_loop, pafs_read}
use peker_os.Pafs.Write.{Writes, write_loop-Writes}

-- The inode, with its size, is saved after its blocks were written.
module _ (p q : Pafs) (dir ino n : ℕ) (f : IsFs p) (ch : Changes p q ino 0) (other : ino ≢ dir)
    (hi : ino < 128) where
  saved : Pafs
  saved = pafs_save_inode (set_size q ino n) ino

  saved-disk : (b : ℕ) → 18 ≤ b → saved.disk b ≡ q.disk b
  unfolding saved pafs_save_inode pafs_disk_write
  saved-disk b data_block = ground arith

  saved-block : (g j : ℕ) → j < 14 → inode_block saved g j ≡ inode_block q g j
  unfolding saved pafs_save_inode pafs_disk_write
  saved-block g j hj = block-set_size q ino n g j hj

  saved-type : (g : ℕ) → inode_type saved g ≡ inode_type q g
  unfolding saved pafs_save_inode pafs_disk_write
  saved-type g = type-set_size q ino n g

  saved-size : n < 2 ^ 32 → inode_size saved ino ≡ n
  unfolding saved pafs_save_inode pafs_disk_write
  saved-size small = size-set_size_self q ino n small

  saved-size_ne : (g : ℕ) → ino ≢ g → inode_size saved g ≡ inode_size q g
  unfolding saved pafs_save_inode pafs_disk_write
  saved-size_ne g ne = size-set_size_ne q ino n g ne

  saved-SameDir : SameDir p saved dir
  saved-SameDir = record {
    types = saved-type dir ∙ ch.types dir;
    sizes = saved-size_ne dir other ∙ ch.sizes dir;
    blocks = λ i lt. saved-block dir i lt ∙ ch.blocks dir i lt (inl (λ e. other (sym e)));
    sectors = λ i lt ne.
        let in_use = f.in_use dir i lt ne in
        saved-disk (inode_block p dir i) in_use.0
        ∙ ch.sectors (inode_block p dir i) in_use
            (λ j lo lt' e. other (sym (f.apart dir i ino j lt lt' ne (sym e)).0));
  }

  saved-IsFs : IsFs saved
  unfolding saved pafs_save_inode pafs_disk_write pafs_bitmap_test
  saved-IsFs = record {
    bytes = ch.fs.bytes;
    in_use = λ g i lt ne.
        (let e = block-set_size q ino n g i lt in
          subst (InUse q) (sym e) (ch.fs.in_use g i lt (λ z. ne (e ∙ z))));
    apart = λ g i h j lt lt' ne same.
        (let e = block-set_size q ino n g i lt in
          ch.fs.apart g i h j lt lt' (λ z. ne (e ∙ z))
            (sym e ∙ same ∙ block-set_size q ino n h j lt'));
  }

  -- What is read of the file itself, and of another.
  read_saved : (m : ℕ) → read_loop saved ino 14 0 m ≡ read_loop q ino 14 0 m
  read_saved m =
      read_loop-same q saved ino (saved-block ino)
        (λ j lt ne. saved-disk (inode_block q ino j) (ch.fs.in_use ino j lt ne).0) 14 0 m refl

  read_other : (g : ℕ) → g ≢ ino → (m : ℕ) → read_loop saved g 14 0 m ≡ read_loop p g 14 0 m
  read_other g ne m =
      read_loop-same p saved g (λ j lt. saved-block g j lt ∙ ch.blocks g j lt (inl ne))
        (λ j lt used.
          (let in_use = f.in_use g j lt used in
            saved-disk (inode_block p g j) in_use.0
            ∙ ch.sectors (inode_block p g j) in_use
                (λ k lo lt' e. ne (f.apart g j ino k lt lt' used (sym e)).0)))
        14 0 m refl

-- What `pafs_write` of a file gives: the number of bytes written, which is all of them, or 14 blocks, or
-- no block is free; `pafs_read` gives them back, and gives for any other file what it gave before.
pub data Written (p : Pafs) (name bytes : List ℕ) (ino : ℕ) : Option ℕ × Pafs → Type 0 where
  written :
      (n : ℕ) (q : Pafs)
      → IsFs q
      → (n ≡ length bytes)
        ⊎ (n ≡ 14 * 512)
        ⊎ ((c : ℕ) → 18 ≤ c → c < 4096 → pafs_bitmap_test q c ≡ true)
      → ((max_len : ℕ) → pafs_read q name max_len ≡ some (take max_len (take n bytes)))
      → ((other : List ℕ) (g max_len : ℕ)
          → pafs_find_entry p (root_inode p) other ≡ some g
          → g ≢ ino
          → pafs_read q other max_len ≡ pafs_read p other max_len)
      → Written p name bytes ino (some n, q)

read_cut :
    (max_len n : ℕ) (bytes : List ℕ)
    → n ≤ length bytes
    → take (if ltb max_len n then max_len else n) (take n bytes) ≡ take max_len (take n bytes)
read_cut max_len n bytes le = elim (Bool-cases (ltb max_len n)) [
  | inl less ↦ rw (less) refl
  | inr not_less ↦
      let len : length (take n bytes) ≤ n = ground (arith, length-take n bytes) in
      rw (not_less)
        (take-all n (take n bytes) len ∙ sym (take-all max_len (take n bytes) (ground arith)))
]

module _ (p : Pafs) (name bytes : List ℕ) (ino : ℕ) (f : IsFs p)
    (found : pafs_find_entry p (root_inode p) name ≡ some ino) (hi : ino < 128)
    (is_file : inode_type p ino ≡ type_file) (small : length bytes < 2 ^ 31) where
  not_root : ino ≢ root_inode p
  not_root e =
      omega (arith, is_file, ap (inode_type p) e, find_entry-dir p (root_inode p) ino name found)

  module _ (out : ℕ × Pafs) (w : Writes p ino 14 0 bytes out) where
    after : Pafs
    after = saved p out.1 (root_inode p) ino out.0 f w.changes not_root hi

    after-root : root_inode after ≡ root_inode p
    unfolding after saved pafs_save_inode pafs_disk_write
    after-root = w.changes.root

    after-find :
        (other : List ℕ)
        → pafs_find_entry after (root_inode after) other ≡ pafs_find_entry p (root_inode p) other
    unfolding after
    after-find other = rw (after-root) (
        pafs_find_entry-same
          (saved-SameDir p out.1 (root_inode p) ino out.0 f w.changes not_root hi) other)

    after-type : (g : ℕ) → inode_type after g ≡ inode_type p g
    unfolding after
    after-type g =
        saved-type p out.1 (root_inode p) ino out.0 f w.changes not_root hi g ∙ w.changes.types g

    after-size : inode_size after ino ≡ out.0
    unfolding after
    after-size =
        saved-size p out.1 (root_inode p) ino out.0 f w.changes not_root hi (omega (arith, w.front))

    after-size_ne : (g : ℕ) → g ≢ ino → inode_size after g ≡ inode_size p g
    unfolding after
    after-size_ne g ne =
        saved-size_ne p out.1 (root_inode p) ino out.0 f w.changes not_root hi g (λ e. ne (sym e))
        ∙ w.changes.sizes g

    loop_after : (m : ℕ) → read_loop after ino 14 0 m ≡ read_loop out.1 ino 14 0 m
    unfolding after
    loop_after m = read_saved p out.1 (root_inode p) ino out.0 f w.changes not_root hi m

    loop_after_ne : (g : ℕ) → g ≢ ino → (m : ℕ) → read_loop after g 14 0 m ≡ read_loop p g 14 0 m
    unfolding after
    loop_after_ne g ne m =
        read_other p out.1 (root_inode p) ino out.0 f w.changes not_root hi g ne m

    read_after : (max_len : ℕ) → read_of after ino max_len ≡ some (take max_len (take out.0 bytes))
    unfolding read_of
    read_after max_len =
        let here : inode_type after ino == type_file ≡ true =
          ground (arith, after-type ino, is_file) in
        let all : read_loop after ino 14 0 out.0 ≡ take out.0 bytes = loop_after out.0 ∙ w.reads in
        let len = if ltb max_len out.0 then max_len else out.0 in
        rw (here, after-size)
          (ap some (
            read_loop-front after ino 14 0 len out.0 (ground arith)
            ∙ ap (take len) all
            ∙ read_cut max_len out.0 bytes w.front))

    read_after_ne : (g max_len : ℕ) → g ≢ ino → read_of after g max_len ≡ read_of p g max_len
    unfolding read_of
    read_after_ne g max_len ne =
        rw
          (
            after-type g,
            after-size_ne g ne,
            loop_after_ne g ne (if ltb max_len (inode_size p g) then max_len else inode_size p g),
          )
          refl

    after-IsFs : IsFs after
    unfolding after
    after-IsFs = saved-IsFs p out.1 (root_inode p) ino out.0 f w.changes not_root hi

    after-used : (c : ℕ) → pafs_bitmap_test after c ≡ pafs_bitmap_test out.1 c
    unfolding after saved pafs_save_inode pafs_disk_write pafs_bitmap_test
    after-used c = refl

    after-Written : Written p name bytes ino (some out.0, after)
    after-Written =
        written out.0 after after-IsFs
          (elim w.ends [
            | inl all ↦ inl all
            | inr (inl blocks) ↦ inr (inl blocks)
            | inr (inr full) ↦ inr (inr (λ c lo lt. after-used c ∙ full c lo lt))
          ])
          (λ max_len.
            pafs_read-found after name ino max_len (after-find name ∙ found) ∙ read_after max_len)
          (λ other g max_len there ne.
            pafs_read-found after other g max_len (after-find other ∙ there)
            ∙ read_after_ne g max_len ne
            ∙ sym (pafs_read-found p other g max_len there))

  -- `pafs_write`, on a well-formed disk, of less than 2 ^ 31 bytes to a file that the root directory holds,
  -- with an inode of the table: it returns a number of bytes, which is all of them, or 14 blocks, or no
  -- block is free; `pafs_read` gives them back, gives for any other file of the root what it gave before,
  -- and the disk is well formed.
  pub pafs_write-Written : Written p name bytes ino (pafs_write p name bytes)
  unfolding pafs_write write_file after saved
  pafs_write-Written =
      let here : inode_type p ino == type_file ≡ true = ground (arith, is_file) in
      rw (found, pafs_write, here)
        (after-Written (write_loop p ino 14 0 bytes) (write_loop-Writes p ino 14 0 bytes f refl))
