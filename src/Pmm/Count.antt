-- ===== src/Pmm/Count.antt =====
-- How many frames a bitmap of kernel/mm/pmm.c has in use, and the loop that counts them.
use peker_os.Common.{
  ℕ, zero, suc, ◌+◌, ◌≤◌, ◌<◌, ◌≡◌, refl, true, false, arith, if◌then◌else◌, count_up-keeps,
}
use native.Mathlib.Decide.{dec_lt}
use peker_os.Common.Bytes.{Bytes, IsBytes}
use peker_os.Pmm.{max_frames, bitmap_set, bitmap_clear, bitmap_test, count_loop}
use peker_os.Pmm.Bits.{bitmap_test-set, bitmap_test-clear}

-- The frames below the bound that are in use.
unfoldable pub count_used : Bytes → ℕ → ℕ
count_used b zero = 0
count_used b (suc n) = count_used b n + (if bitmap_test b n then 1 else 0)

pub count_used-le : (b : Bytes) (n : ℕ) → count_used b n ≤ n
unfolding count_used
count_used-le b zero = omega arith
count_used-le b (suc n) = ground (arith, count_used-le b n)

-- `count_used` matches on `suc`, and a loop counts by `+ 1`.
pub count_used_step :
    (b : Bytes) (n : ℕ) → count_used b (n + 1) ≡ count_used b n + (if bitmap_test b n then 1 else 0)
unfolding count_used
count_used_step b n = ground arith

module _ {b : Bytes} (v : IsBytes b) (f : ℕ) where
  count_used-set_above : (n : ℕ) → n ≤ f → count_used (bitmap_set b f) n ≡ count_used b n
  unfolding count_used
  count_used-set_above zero h = refl
  count_used-set_above (suc n) h =
      ground (arith, count_used-set_above n (omega arith), bitmap_test-set v f n)

  pub count_used-set :
      (n : ℕ) → bitmap_test b f ≡ false → f < n → count_used (bitmap_set b f) n ≡ count_used b n + 1
  unfolding count_used
  count_used-set zero e h = elim h [ ]
  count_used-set (suc n) e h = elim (dec_lt f n) [
    | yes p ↦ ground (arith, count_used-set n e p, bitmap_test-set v f n)
    | no p ↦ ground (arith, count_used-set_above n (omega arith), bitmap_test-set v f n)
  ]

  count_used-clear_above : (n : ℕ) → n ≤ f → count_used (bitmap_clear b f) n ≡ count_used b n
  unfolding count_used
  count_used-clear_above zero h = refl
  count_used-clear_above (suc n) h =
      ground (arith, count_used-clear_above n (omega arith), bitmap_test-clear v f n)

  pub count_used-clear :
      (n : ℕ)
      → bitmap_test b f ≡ true
      → f < n
      → count_used (bitmap_clear b f) n + 1 ≡ count_used b n
  unfolding count_used
  count_used-clear zero e h = elim h [ ]
  count_used-clear (suc n) e h = elim (dec_lt f n) [
    | yes p ↦ ground (arith, count_used-clear n e p, bitmap_test-clear v f n)
    | no p ↦ ground (arith, count_used-clear_above n (omega arith), bitmap_test-clear v f n)
  ]

-- The loop at the end of `init_pmm` counts the used frames: its counter does not wrap.
pub count_loop-eq :
    (b : Bytes) (total : ℕ) → total ≤ max_frames → count_loop b total ≡ count_used b total
unfolding count_loop count_used
count_loop-eq b total h =
    count_up-keeps (λ k n. n ≡ count_used b k) 0 total total (omega arith)
      (λ k n lo hi e. ground (arith, count_used_step b k, count_used-le b k)) refl
