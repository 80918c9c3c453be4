-- ===== src/Pafs/Alloc.antt =====
-- `alloc_block` of kernel/fs/pafs.c takes the first free block, or fails only if there is none.
use peker_os.Common.{
  ℕ, zero, suc, ◌+◌, ◌≤◌, ◌<◌, ◌≡◌, ap, true, false, arith, inl, inr, ◌==◌, Bool-cases, Option,
  none, some,
}
use mathlib.Core.Path.{subst}
use peker_os.Pafs.{Pafs, pafs_bitmap_test, take_block, alloc_loop, alloc_block}

-- What the search from the block `lo` up to `hi` finds.
pub data Allocates (p : Pafs) (lo hi : ℕ) : Option (ℕ × Pafs) → Type 0 where
  takes :
      (b : ℕ)
      → lo ≤ b
      → b < hi
      → pafs_bitmap_test p b ≡ false
      → ((c : ℕ) → lo ≤ c → c < b → pafs_bitmap_test p c ≡ true)
      → Allocates p lo hi (some (b, take_block p b))
  full : ((c : ℕ) → lo ≤ c → c < hi → pafs_bitmap_test p c ≡ true) → Allocates p lo hi none

used_from :
    (p : Pafs) (i n : ℕ)
    → pafs_bitmap_test p i ≡ true
    → ((c : ℕ) → i + 1 ≤ c → c < n → pafs_bitmap_test p c ≡ true)
    → (c : ℕ) → i ≤ c
    → c < n
    → pafs_bitmap_test p c ≡ true
used_from p i n used later c le lt = elim (Bool-cases (i == c)) [
  | inl same ↦ ground (arith, ap (pafs_bitmap_test p) {x = i} {y = c} (ground arith))
  | inr other ↦ later c (ground arith) lt
]

Allocates-skip :
    (p : Pafs) (i hi : ℕ) {r : Option (ℕ × Pafs)}
    → pafs_bitmap_test p i ≡ true
    → Allocates p (i + 1) hi r
    → Allocates p i hi r
Allocates-skip p i hi used (takes b le lt free all) =
    takes b (omega arith) lt free (used_from p i b used all)
Allocates-skip p i hi used (full all) = full (used_from p i hi used all)

alloc_loop-Allocates : (p : Pafs) (n i : ℕ) → Allocates p i (i + n) (alloc_loop p n i)
unfolding alloc_loop
alloc_loop-Allocates p zero i = full (λ c le lt. absurd (omega arith))
alloc_loop-Allocates p (suc n) i = elim (Bool-cases (pafs_bitmap_test p i)) [
  | inl used ↦
      let len : i + 1 + n ≡ i + suc n = omega arith in
      rw (used, alloc_loop)
        (Allocates-skip p i (i + suc n) used (
          subst (λ h. Allocates p (i + 1) h (alloc_loop p n (i + 1))) len
            (alloc_loop-Allocates p n (i + 1))))
  | inr free ↦
      rw (free, alloc_loop)
        (takes i (omega arith) (omega arith) free (λ c le lt. absurd (omega arith)))
]

-- `alloc_block` takes the first block from 18 on that is free, and fails only if all are in use.
pub alloc_block-Allocates : (p : Pafs) → Allocates p 18 4096 (alloc_block p)
unfolding alloc_block
alloc_block-Allocates p = alloc_loop-Allocates p 4078 18
