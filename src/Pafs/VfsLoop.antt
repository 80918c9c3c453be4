-- ===== src/Pafs/VfsLoop.antt =====
-- The loop of `pafs_vfs_read` of kernel/fs/pafs.c, next to that of `pafs_read`.
use peker_os.Common.{
  ℕ, zero, suc, ◌+◌, ◌-◌, ◌*◌, ◌/◌, ◌%◌, ◌≤◌, ◌<◌, ◌≡◌, refl, sym, ap, ◌∙◌, ◌≢◌, false, arith, inl,
  inr, ◌==◌, ltb, Bool-cases, if◌then◌else◌, List, [], ◌++◌, length, take, drop, length-append,
}
use native.Mathlib.Decide.{dec_lt}
use peker_os.Common.Bytes.{Bytes}
use peker_os.Common.Runs.{drop-nil, drop-all, drop-append, drop-drop, drop-take}
use peker_os.Common.Copy.{copy_from, length-copy_from, drop-copy_from}
use peker_os.Pafs.{Pafs, inode_block}
use peker_os.Pafs.Files.{read_loop, vfs_read_loop}
use peker_os.Pafs.Read.{chunk_of, read_end, read_more, read_loop-zero, read_loop-front}

-- How much of a block is read.
abbrev here_of : ℕ → ℕ → ℕ
here_of off n = if ltb n (512 - off) then n else 512 - off

-- A call with other numbers that are the same.
read_at :
    (p : Pafs) (ino : ℕ) {k k' i i' m m' : ℕ}
    → k ≡ k'
    → i ≡ i'
    → m ≡ m'
    → read_loop p ino k i m ≡ read_loop p ino k' i' m'
read_at p ino {k} {k'} {i} {i'} {m} {m'} e f g =
    ap (λ a. read_loop p ino a i m) e
    ∙ ap (λ a. read_loop p ino k' a m) f
    ∙ ap (λ a. read_loop p ino k' i' a) g

read_nothing : (p : Pafs) (ino k i m : ℕ) → m ≡ 0 → read_loop p ino k i m ≡ []
read_nothing p ino k i m e = ap (read_loop p ino k i) e ∙ read_loop-zero p ino k i

read_none : (p : Pafs) (ino i m : ℕ) → read_loop p ino 0 i m ≡ []
unfolding read_loop
read_none p ino i m = refl

pub length-read_loop : (p : Pafs) (ino k i m : ℕ) → length (read_loop p ino k i m) ≤ m
unfolding read_loop
length-read_loop p ino zero i m = omega arith
length-read_loop p ino (suc k) i zero = omega arith
length-read_loop p ino (suc k) i (suc m) = elim (Bool-cases (inode_block p ino i == 0)) [
  | inl end ↦ rw (read_end p ino k i (suc m) (ground arith), read_loop) (omega arith)
  | inr more ↦
      let len = length-copy_from (p.disk (inode_block p ino i)) 0 (chunk_of (suc m)) in
      let both =
        length-append (copy_from (p.disk (inode_block p ino i)) 0 (chunk_of (suc m)))
          (read_loop p ino k (i + 1) (suc m - 512)) in
      rw (read_more p ino k i (suc m) (omega arith) (ground arith), both, len, read_loop)
        (ground (arith, length-read_loop p ino k (i + 1) (suc m - 512)))
]

-- A file of `s` bytes without a hole.
module _ (p : Pafs) (ino s : ℕ) (holes : (j : ℕ) → 512 * j < s → inode_block p ino j ≢ 0) where
  drop_block :
      (b k i m : ℕ) (d : Bytes)
      → drop (512 * b) (read_loop p ino k (i + 1) (m - 512))
        ≡ read_loop p ino (k - b) (i + 1 + b) (m - 512 - 512 * b)
      → drop (512 * suc b) (copy_from d 0 (chunk_of m) ++ read_loop p ino k (i + 1) (m - 512))
        ≡ read_loop p ino (suc k - suc b) (i + suc b) (m - 512 * suc b)
  drop_block b k i m d later =
      let whole : List ℕ = copy_from d 0 (chunk_of m) in
      let rest : List ℕ = read_loop p ino k (i + 1) (m - 512) in
      let len = length-copy_from d 0 (chunk_of m) in
      drop-append (512 * suc b) whole rest
      ∙ ap (λ xs. xs ++ drop (512 * suc b - length whole) rest)
          (drop-all (512 * suc b) whole (ground (arith, len)))
      ∙ elim (dec_lt 512 m) [
        | yes large ↦
            ap (λ l. drop l rest) {x = 512 * suc b - length whole} {y = 512 * b}
              (ground (arith, len))
            ∙ later
            ∙ read_at p ino (omega arith) (omega arith) (omega arith)
        | no small ↦
            let nothing : rest ≡ [] = read_nothing p ino k (i + 1) (m - 512) (omega arith) in
            ap (drop (512 * suc b - length whole)) nothing
            ∙ drop-nil (512 * suc b - length whole)
            ∙ sym (read_nothing p ino (suc k - suc b) (i + suc b) (m - 512 * suc b) (omega arith))
      ]

  -- Whole blocks left out.
  read_loop-drop :
      (b k i m : ℕ)
      → (0 < m → 512 * i + m ≤ s)
      → drop (512 * b) (read_loop p ino k i m) ≡ read_loop p ino (k - b) (i + b) (m - 512 * b)
  read_loop-drop zero k i m le =
      read_at p ino {k = k} {k' = k - 0} {i = i} {i' = i + 0} {m = m} {m' = m - 512 * 0}
        (omega arith) (omega arith) (omega arith)
  read_loop-drop (suc b) zero i m le =
      ap (drop (512 * suc b)) (read_none p ino i m)
      ∙ drop-nil (512 * suc b)
      ∙ sym (read_none p ino (i + suc b) (m - 512 * suc b))
      ∙ ap (λ k. read_loop p ino k (i + suc b) (m - 512 * suc b)) {x = 0} {y = 0 - suc b}
          (omega arith)
  read_loop-drop (suc b) (suc k) i zero le =
      ap (drop (512 * suc b)) (read_nothing p ino (suc k) i 0 refl)
      ∙ drop-nil (512 * suc b)
      ∙ sym (read_nothing p ino (suc k - suc b) (i + suc b) (0 - 512 * suc b) (omega arith))
  read_loop-drop (suc b) (suc k) i (suc m) le =
      ap (drop (512 * suc b))
        (read_more p ino k i (suc m) (omega arith) (holes i (omega (arith, le (omega arith)))))
      ∙ drop_block b k i (suc m) (p.disk (inode_block p ino i))
          (read_loop-drop b k (i + 1) (suc m - 512) (λ pos. omega (arith, le (omega arith))))

  -- One round, of `here` bytes.
  vfs_round :
      (k i off n : ℕ)
      → off < 512
      → 0 < n
      → inode_block p ino i ≢ 0
      → copy_from (p.disk (inode_block p ino i)) off (here_of off n)
          ++ read_loop p ino k (i + 1) (0 + (n - here_of off n))
        ≡ drop off (read_loop p ino (suc k) i (off + n))
  vfs_round k i off n small pos ne =
      let d : Bytes = p.disk (inode_block p ino i) in
      let here : ℕ = here_of off n in
      let chunk : chunk_of (off + n) ≡ off + here = ground arith in
      let left : n - here ≡ off + n - 512 = ground arith in
      let rest : List ℕ = read_loop p ino k (i + 1) (off + n - 512) in
      ap (λ m. copy_from d off here ++ read_loop p ino k (i + 1) m) {x = 0 + (n - here)}
        {y = off + n - 512} (omega (arith, left))
      ∙ ap (λ a. copy_from d a here ++ rest) {x = off} {y = 0 + off} (omega arith)
      ∙ ap (λ xs. xs ++ rest) (sym (drop-copy_from d 0 off here))
      ∙ ap (λ l. drop off (copy_from d 0 (off + here)) ++ drop l rest) {x = 0}
          {y = off - length (copy_from d 0 (off + here))}
          (omega (arith, length-copy_from d 0 (off + here)))
      ∙ sym (drop-append off (copy_from d 0 (off + here)) rest)
      ∙ ap (λ c. drop off (copy_from d 0 c ++ rest)) (sym chunk)
      ∙ ap (drop off) (sym (read_more p ino k i (off + n) (omega arith) ne))

  vfs_read_loop-drop :
      (k i off n : ℕ)
      → off < 512
      → (0 < n → 512 * i + off + n ≤ s)
      → vfs_read_loop p ino k i off n ≡ drop off (read_loop p ino k i (off + n))
  unfolding vfs_read_loop
  vfs_read_loop-drop zero i off n small le =
      sym (ap (drop off) (read_none p ino i (off + n)) ∙ drop-nil off)
  vfs_read_loop-drop (suc k) i off zero small le = sym (
      drop-all off (read_loop p ino (suc k) i (off + 0))
        (omega (arith, length-read_loop p ino (suc k) i (off + 0))))
  vfs_read_loop-drop (suc k) i off (suc n) small le =
      let more : suc n == 0 ≡ false = ground arith in
      rw (more) (
        ap (λ xs. copy_from (p.disk (inode_block p ino i)) off (here_of off (suc n)) ++ xs)
          (vfs_read_loop-drop k (i + 1) 0 (suc n - here_of off (suc n)) (omega arith)
            (λ pos. ground (arith, le (omega arith))))
        ∙ vfs_round k i off (suc n) small (omega arith) (holes i (omega (arith, le (omega arith)))))

  -- The loop from any place on, against all that the file holds.
  pub vfs_read_loop-cut :
      (off n : ℕ)
      → off + n ≤ s
      → vfs_read_loop p ino (14 - off / 512) (off / 512) (off % 512) n
        ≡ take n (drop off (read_loop p ino 14 0 s))
  vfs_read_loop-cut off n le =
      let b : ℕ = off / 512 in
      let r : ℕ = off % 512 in
      let whole : List ℕ = read_loop p ino 14 0 s in
      vfs_read_loop-drop (14 - b) b r n (omega arith) (λ pos. omega arith)
      ∙ ap (drop r) (read_loop-front p ino (14 - b) b (r + n) (s - 512 * b) (omega arith))
      ∙ drop-take r n (read_loop p ino (14 - b) b (s - 512 * b))
      ∙ ap (λ i. take n (drop r (read_loop p ino (14 - b) i (s - 512 * b)))) {x = b} {y = 0 + b}
          (omega arith)
      ∙ ap (λ xs. take n (drop r xs)) (sym (read_loop-drop b 14 0 s (λ pos. omega arith)))
      ∙ ap (take n) (drop-drop (512 * b) r whole)
      ∙ ap (λ k. take n (drop k whole)) {x = 512 * b + r} {y = off} (omega arith)
