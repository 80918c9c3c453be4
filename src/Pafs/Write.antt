-- ===== src/Pafs/Write.antt =====
-- The loop of `pafs_write` of kernel/fs/pafs.c: it changes the file's blocks alone, and the loop of
-- `pafs_read` gives back what it wrote.
use peker_os.Common.{
  ℕ, zero, suc, ◌+◌, ◌-◌, ◌*◌, ◌≤◌, ◌<◌, ◌≡◌, refl, sym, ap, ◌∙◌, ◌≢◌, ◌⊎◌, true, false, ◌||◌,
  arith, inl, inr, ◌==◌, ltb, if◌then◌else◌, Option, none, some, List, [], ◌∷◌, ◌++◌, length, take,
  drop,
}
use mathlib.Core.List.{append-nil}
use native.Mathlib.Decide.{dec_lt}
use peker_os.Common.Runs.{length-take, length-drop, take-all, take-take-drop}
use peker_os.Common.Copy.{copy_to, copy_from, copy_from-copy_to}
use peker_os.Pafs.{Pafs, pafs_bitmap_test, pafs_disk_write, inode_block, zeros}
use peker_os.Pafs.Blocks.{IsFs, Changes, Changes-refl}
use peker_os.Pafs.WithBlock.{
  Changes-trans, Changes-data, HasBlock, has, no_block, with_block-HasBlock,
}
use peker_os.Pafs.Files.{with_block, write_loop, read_loop}

-- What the loop does from the block `i` on: what it wrote is a front part of the data, and is read back;
-- it is all of the data, or the file has no place for another block, or the disk is full.
pub record Writes (p : Pafs) (ino n i : ℕ) (bytes : List ℕ) (out : ℕ × Pafs) : Type 0 where
  pub changes : Changes p out.1 ino i
  pub front : out.0 ≤ length bytes
  pub reads : read_loop out.1 ino n i out.0 ≡ take out.0 bytes
  pub ends :
      (out.0 ≡ length bytes)
      ⊎ (out.0 ≡ 512 * n)
      ⊎ ((c : ℕ) → 18 ≤ c → c < 4096 → pafs_bitmap_test out.1 c ≡ true)

read_loop-zero : (p : Pafs) (ino n i : ℕ) → read_loop p ino n i 0 ≡ []
unfolding read_loop
read_loop-zero p ino zero i = refl
read_loop-zero p ino (suc n) i = refl

Writes-none :
    (p : Pafs) (ino n i : ℕ) (bytes : List ℕ)
    → IsFs p
    → ((0 ≡ length bytes)
        ⊎ (0 ≡ 512 * n)
        ⊎ ((c : ℕ) → 18 ≤ c → c < 4096 → pafs_bitmap_test p c ≡ true))
    → Writes p ino n i bytes (0, p)
Writes-none p ino n i bytes f ends = record {
  changes = Changes-refl ino i f;
  front = omega arith;
  reads = read_loop-zero p ino n i;
  ends = ends;
}

-- A chunk of `l` bytes of the `n` that are left, and `k` that are written behind it.
module _ (n l k : ℕ) (cut : l ≡ (if ltb 512 n then 512 else n)) (rest : k ≤ n - 512) where
  chunk_read : (if ltb 512 (l + k) then 512 else l + k) ≡ l
  chunk_read = ground arith

  chunk_rest : l + k - 512 ≡ k
  chunk_rest = ground arith

  chunk-le : l + k ≤ n
  chunk-le = ground arith

  chunk_pos : 0 < n → 0 < l + k
  chunk_pos pos = ground arith

  chunk_last : n ≤ 512 → (l ≡ n) × (k ≡ 0)
  chunk_last small = ground arith

  chunk_whole : 512 < n → l ≡ 512
  chunk_whole large = ground arith

-- One block is written, and the rest behind it.
module _ (p q : Pafs) (ino n i : ℕ) (bytes : List ℕ) (hi : i < 14) (some_bytes : 0 < length bytes)
    (ch : Changes p q ino i) (ne : inode_block q ino i ≢ 0) where
  block : ℕ
  block = inode_block q ino i

  chunk : List ℕ
  chunk = take 512 bytes

  wrote : Pafs
  wrote = pafs_disk_write q block (copy_to zeros 0 chunk)

  wrote-Changes : Changes p wrote ino i
  unfolding wrote block
  wrote-Changes = Changes-data ino i (copy_to zeros 0 chunk) hi ch ne

  wrote-disk : wrote.disk block ≡ copy_to zeros 0 chunk
  unfolding wrote pafs_disk_write
  wrote-disk = ground arith

  wrote-block : (g j : ℕ) → inode_block wrote g j ≡ inode_block q g j
  unfolding wrote pafs_disk_write
  wrote-block g j = refl

  module _ (out : ℕ × Pafs) (w : Writes wrote ino n (i + 1) (drop 512 bytes) out) where
    kept_block : inode_block out.1 ino i ≡ block
    unfolding block
    kept_block = w.changes.blocks ino i hi (inr (omega arith)) ∙ wrote-block ino i

    kept_disk : out.1.disk block ≡ copy_to zeros 0 chunk
    unfolding block wrote pafs_disk_write
    kept_disk =
        w.changes.sectors block
          (wrote-Changes.fs.in_use ino i hi (λ z. ne (sym (wrote-block ino i) ∙ z)))
          (λ j lo hj e. omega (
            arith,
            lo,
            (wrote-Changes.fs.apart ino i ino j hi hj (λ z. ne (sym (wrote-block ino i) ∙ z))
                (wrote-block ino i ∙ sym e)).1,
          ))
        ∙ wrote-disk

    read_first :
        (m : ℕ)
        → 0 < m
        → read_loop out.1 ino (suc n) i m
          ≡ copy_from (copy_to zeros 0 chunk) 0 (if ltb 512 m then 512 else m)
            ++ read_loop out.1 ino n (i + 1) (m - 512)
    unfolding read_loop block
    read_first m pos =
        let sector : out.1.disk (inode_block out.1 ino i) ≡ copy_to zeros 0 chunk =
          ap out.1.disk kept_block ∙ kept_disk in
        let more : (m == 0) || (inode_block out.1 ino i == 0) ≡ false =
          ground (arith, kept_block, ne) in
        rw (more, read_loop)
          (ap
            (λ d.
              copy_from d 0 (if ltb 512 m then 512 else m)
              ++ read_loop out.1 ino n (i + 1) (m - 512))
            sector)

    len_chunk : length chunk ≡ (if ltb 512 (length bytes) then 512 else length bytes)
    unfolding chunk
    len_chunk = length-take 512 bytes

    front_drop : out.0 ≤ length bytes - 512
    front_drop = omega (arith, w.front, length-drop 512 bytes)

    front_all : take 512 bytes ++ take out.0 (drop 512 bytes) ≡ take (length chunk + out.0) bytes
    front_all = elim (dec_lt 512 (length bytes)) [
      | yes large ↦
          take-take-drop 512 out.0 bytes (omega arith)
          ∙ ap (λ k. take (k + out.0) bytes)
              (sym (chunk_whole (length bytes) (length chunk) out.0 len_chunk front_drop large))
      | no small ↦
          let last =
            chunk_last (length bytes) (length chunk) out.0 len_chunk front_drop (omega arith) in
          ap (λ k. take 512 bytes ++ take k (drop 512 bytes)) last.1
          ∙ append-nil (take 512 bytes)
          ∙ take-all 512 bytes (omega arith)
          ∙ sym (take-all (length chunk + out.0) bytes (omega (arith, last.0)))
    ]

    front_read :
        read_loop out.1 ino (suc n) i (length chunk + out.0) ≡ take (length chunk + out.0) bytes
    front_read =
        read_first (length chunk + out.0)
          (chunk_pos (length bytes) (length chunk) out.0 len_chunk front_drop some_bytes)
        ∙ ap
            (λ k.
              copy_from (copy_to zeros 0 chunk) 0 k
              ++ read_loop out.1 ino n (i + 1) (length chunk + out.0 - 512))
            (chunk_read (length bytes) (length chunk) out.0 len_chunk front_drop)
        ∙ ap (λ xs. xs ++ read_loop out.1 ino n (i + 1) (length chunk + out.0 - 512))
            (copy_from-copy_to zeros 0 chunk)
        ∙ ap (λ k. chunk ++ read_loop out.1 ino n (i + 1) k)
            (chunk_rest (length bytes) (length chunk) out.0 len_chunk front_drop)
        ∙ ap (λ xs. chunk ++ xs) w.reads
        ∙ (unfold chunk in front_all)

    step-ends :
        (length chunk + out.0 ≡ length bytes)
        ⊎ (length chunk + out.0 ≡ 512 * suc n)
        ⊎ ((c : ℕ) → 18 ≤ c → c < 4096 → pafs_bitmap_test out.1 c ≡ true)
    step-ends = elim (dec_lt 512 (length bytes)) [
      | no small ↦
          let last =
            chunk_last (length bytes) (length chunk) out.0 len_chunk front_drop (omega arith) in
          inl (omega (arith, last.0, last.1))
      | yes large ↦
          let whole = chunk_whole (length bytes) (length chunk) out.0 len_chunk front_drop large in
          elim w.ends [
            | inl all ↦ inl (omega (arith, whole, all, length-drop 512 bytes))
            | inr (inl full) ↦ inr (inl (omega (arith, whole, full)))
            | inr (inr none_free) ↦ inr (inr none_free)
          ]
    ]

    step-Writes : Writes p ino (suc n) i bytes (length chunk + out.0, out.1)
    step-Writes = record {
      changes = Changes-trans (omega arith) wrote-Changes w.changes;
      front = chunk-le (length bytes) (length chunk) out.0 len_chunk front_drop;
      reads = front_read;
      ends = step-ends;
    }

pub write_loop-Writes :
    (p : Pafs) (ino n i : ℕ) (bytes : List ℕ)
    → IsFs p
    → i + n ≡ 14
    → Writes p ino n i bytes (write_loop p ino n i bytes)
unfolding write_loop chunk
write_loop-Writes p ino zero i bytes f len = Writes-none p ino 0 i bytes f (inr (inl refl))
write_loop-Writes p ino (suc n) i [] f len = Writes-none p ino (suc n) i [] f (inl refl)
write_loop-Writes p ino (suc n) i (c ∷ cs) f len =
    go (λ q fs. write_loop-Writes q ino n (i + 1) (drop 512 (c ∷ cs)) fs (omega arith))
      (with_block p ino i) (with_block-HasBlock p ino i f (omega arith))
  where
    go :
        ((q : Pafs)
          → IsFs q
          → Writes q ino n
              (i + 1)
              (drop 512 (c ∷ cs))
              (write_loop q ino n (i + 1) (drop 512 (c ∷ cs))))
        → (o : Option Pafs) → HasBlock p ino i o
        → Writes p ino (suc n) i (c ∷ cs) (elim o [
          | none ↦ (0, p)
          | some p1 ↦
              let p2 =
                pafs_disk_write p1 (inode_block p1 ino i) (copy_to zeros 0 (take 512 (c ∷ cs))) in
              let (m, p3) = write_loop p2 ino n (i + 1) (drop 512 (c ∷ cs)) in
              (length (take 512 (c ∷ cs)) + m, p3)
        ])
    go ih none (no_block was all) = Writes-none p ino (suc n) i (c ∷ cs) f (inr (inr all))
    go ih (some q) (has q' ne ch same) =
        let p2 : Pafs =
          pafs_disk_write q' (inode_block q' ino i) (copy_to zeros 0 (take 512 (c ∷ cs))) in
        let f2 : IsFs p2 =
          (Changes-data ino i (copy_to zeros 0 (take 512 (c ∷ cs))) (omega arith) ch ne).fs in
        step-Writes p q' ino n i (c ∷ cs) (omega arith) (omega arith) ch ne
          (write_loop p2 ino n (i + 1) (drop 512 (c ∷ cs))) (unfold wrote block chunk in ih p2 f2)
