-- ===== src/Pafs/Read.antt =====
-- The loop of `pafs_read` of kernel/fs/pafs.c: what it reads depends on the blocks of the file alone,
-- and a shorter read gives a front part of a longer one.
use peker_os.Common.{
  ℕ, zero, suc, ◌+◌, ◌-◌, ◌≤◌, ◌<◌, ◌≡◌, refl, sym, ap, ◌∙◌, ◌≢◌, true, false, ◌||◌, arith, inl,
  inr, ◌==◌, ltb, Bool-cases, if◌then◌else◌, Option, none, some, List, [], ◌++◌, length, take,
}
use native.Mathlib.Decide.{dec_lt}
use peker_os.Common.Bytes.{Bytes}
use peker_os.Common.Runs.{take-append, take-all}
use peker_os.Common.Copy.{copy_from, length-copy_from, take-copy_from}
use peker_os.Pafs.{
  Pafs, inode_block, inode_size, inode_type, type_file, root_inode, pafs_find_entry,
}
use peker_os.Pafs.Files.{read_loop, pafs_read}

abbrev pub chunk_of : ℕ → ℕ
chunk_of n = if ltb 512 n then 512 else n

-- The two branches of a round.
module _ (p : Pafs) (ino n i m : ℕ) where
  pub read_end : inode_block p ino i ≡ 0 → read_loop p ino (suc n) i m ≡ []
  unfolding read_loop
  read_end end =
      let stops : (m == 0) || (inode_block p ino i == 0) ≡ true = ground (arith, end) in
      rw (stops, read_loop) refl

  pub read_more :
      0 < m
      → inode_block p ino i ≢ 0
      → read_loop p ino (suc n) i m
        ≡ copy_from (p.disk (inode_block p ino i)) 0 (chunk_of m)
          ++ read_loop p ino n (i + 1) (m - 512)
  unfolding read_loop
  read_more pos ne =
      let goes : (m == 0) || (inode_block p ino i == 0) ≡ false = ground (arith, ne) in
      rw (goes, read_loop) refl

pub read_loop-zero : (p : Pafs) (ino n i : ℕ) → read_loop p ino n i 0 ≡ []
unfolding read_loop
read_loop-zero p ino zero i = refl
read_loop-zero p ino (suc n) i = refl

module _ (p q : Pafs) (ino : ℕ)
    (blocks : (j : ℕ) → j < 14 → inode_block q ino j ≡ inode_block p ino j)
    (sectors : (j : ℕ)
      → j < 14
      → inode_block p ino j ≢ 0
      → q.disk (inode_block p ino j) ≡ p.disk (inode_block p ino j)) where
  pub read_loop-same : (n i m : ℕ) → i + n ≡ 14 → read_loop q ino n i m ≡ read_loop p ino n i m
  unfolding read_loop
  read_loop-same zero i m len = refl
  read_loop-same (suc n) i zero len = refl
  read_loop-same (suc n) i (suc m) len = elim (Bool-cases (inode_block p ino i == 0)) [
    | inl end ↦
        let none_here : inode_block p ino i ≡ 0 = ground arith in
        (read_end q ino n i (suc m) (blocks i (omega arith) ∙ none_here)
          ∙ sym (read_end p ino n i (suc m) none_here))
    | inr more ↦
        let ne : inode_block p ino i ≢ 0 = ground arith in
        let ne' : inode_block q ino i ≢ 0 = λ z. ne (sym (blocks i (omega arith)) ∙ z) in
        let sector : q.disk (inode_block q ino i) ≡ p.disk (inode_block p ino i) =
          ap q.disk (blocks i (omega arith)) ∙ sectors i (omega arith) ne in
        read_more q ino n i (suc m) (omega arith) ne'
        ∙ ap (λ d. copy_from d 0 (chunk_of (suc m)) ++ read_loop q ino n (i + 1) (suc m - 512))
            sector
        ∙ ap (λ xs. copy_from (p.disk (inode_block p ino i)) 0 (chunk_of (suc m)) ++ xs)
            (read_loop-same n (i + 1) (suc m - 512) (omega arith))
        ∙ sym (read_more p ino n i (suc m) (omega arith) ne)
  ]

module _ (d : Bytes) (m n : ℕ) (le : m ≤ n) where
  chunk_front : take m (copy_from d 0 (chunk_of n)) ≡ copy_from d 0 (chunk_of m)
  chunk_front = elim (dec_lt 512 m) [
    | yes lt ↦
        let m_is : chunk_of m ≡ 512 = ground arith in
        let n_is : chunk_of n ≡ 512 = ground arith in
        rw (m_is, n_is) (take-all m (copy_from d 0 512) (omega (arith, length-copy_from d 0 512)))
    | no ge ↦
        let m_is : chunk_of m ≡ m = ground arith in
        let less : m ≤ chunk_of n = ground arith in
        take-copy_from d 0 m (chunk_of n) less ∙ ap (copy_from d 0) (sym m_is)
  ]

  chunk_behind : m - length (copy_from d 0 (chunk_of n)) ≡ m - 512
  chunk_behind = rw (length-copy_from d 0 (chunk_of n)) (ground arith)

pub read_loop-front :
    (p : Pafs) (ino k i m n : ℕ) → m ≤ n → read_loop p ino k i m ≡ take m (read_loop p ino k i n)
unfolding read_loop
read_loop-front p ino zero i m n le = sym (take-all m [] (omega arith))
read_loop-front p ino (suc k) i zero n le = refl
read_loop-front p ino (suc k) i (suc m) n le = elim (Bool-cases (inode_block p ino i == 0)) [
  | inl end ↦
      let none_here : inode_block p ino i ≡ 0 = ground arith in
      read_end p ino k i (suc m) none_here
      ∙ ap (take (suc m)) (sym (read_end p ino k i n none_here))
  | inr more ↦
      let ne : inode_block p ino i ≢ 0 = ground arith in
      let d : Bytes = p.disk (inode_block p ino i) in
      let rest : List ℕ = read_loop p ino k (i + 1) (n - 512) in
      read_more p ino k i (suc m) (omega arith) ne
      ∙ ap (λ xs. copy_from d 0 (chunk_of (suc m)) ++ xs)
          (read_loop-front p ino k (i + 1) (suc m - 512) (n - 512) (omega arith))
      ∙ ap (λ l. copy_from d 0 (chunk_of (suc m)) ++ take l rest)
          (sym (chunk_behind d (suc m) n le))
      ∙ ap (λ xs. xs ++ take (suc m - length (copy_from d 0 (chunk_of n))) rest)
          (sym (chunk_front d (suc m) n le))
      ∙ sym (take-append (suc m) (copy_from d 0 (chunk_of n)) rest)
      ∙ ap (take (suc m)) (sym (read_more p ino k i n (omega arith) ne))
]

-- A read of a name that is there.
unfoldable pub read_of : Pafs → ℕ → ℕ → Option (List ℕ)
read_of p ino max_len =
    if inode_type p ino == type_file
    then some (
        read_loop p ino 14 0 (if ltb max_len (inode_size p ino) then max_len else inode_size p ino))
    else none

pub pafs_read-found :
    (p : Pafs) (name : List ℕ) (ino max_len : ℕ)
    → pafs_find_entry p (root_inode p) name ≡ some ino
    → pafs_read p name max_len ≡ read_of p ino max_len
unfolding pafs_read read_of
pafs_read-found p name ino max_len found = rw (found, pafs_read) refl

-- A buffer that has room for the whole file.
pub read_of-all :
    (p : Pafs) (ino max_len : ℕ)
    → inode_type p ino ≡ type_file
    → inode_size p ino ≤ max_len
    → read_of p ino max_len ≡ some (read_loop p ino 14 0 (inode_size p ino))
unfolding read_of
read_of-all p ino max_len is_file room =
    let here : inode_type p ino == type_file ≡ true = ground (arith, is_file) in
    let not_less : ltb max_len (inode_size p ino) ≡ false = ground arith in rw (here, not_less) refl
