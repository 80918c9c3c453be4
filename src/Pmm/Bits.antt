-- ===== src/Pmm/Bits.antt =====
-- The bitmap of kernel/mm/pmm.c as a map from frames to bits.
use peker_os.Common.{ℕ, ◌≡◌, true, false, ◌==◌, if◌then◌else◌}
use peker_os.Common.Bytes.{Bytes, IsBytes}
use peker_os.Common.Bitmap.{
  test_bit-set_bit, test_bit-clear_bit, set_bit-IsBytes, clear_bit-IsBytes,
}
use peker_os.Pmm.{bitmap_set, bitmap_clear, bitmap_test}

module _ {b : Bytes} (v : IsBytes b) (f : ℕ) where
  -- Setting a bit changes that bit and no other.
  pub bitmap_test-set :
      (g : ℕ) → bitmap_test (bitmap_set b f) g ≡ (if f == g then true else bitmap_test b g)
  unfolding bitmap_test bitmap_set
  bitmap_test-set = test_bit-set_bit v f

  pub bitmap_test-clear :
      (g : ℕ) → bitmap_test (bitmap_clear b f) g ≡ (if f == g then false else bitmap_test b g)
  unfolding bitmap_test bitmap_clear
  bitmap_test-clear = test_bit-clear_bit v f

  pub bitmap_set-IsBytes : IsBytes (bitmap_set b f)
  unfolding bitmap_set
  bitmap_set-IsBytes = set_bit-IsBytes v f

  pub bitmap_clear-IsBytes : IsBytes (bitmap_clear b f)
  unfolding bitmap_clear
  bitmap_clear-IsBytes = clear_bit-IsBytes v f
