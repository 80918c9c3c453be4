-- ===== src/Common/Bitmap.antt =====
-- Bitmaps in memory: eight bits to a byte, the lowest first.
use Prim.Native.Nat.{ℕ, ◌/◌, ◌%◌}
use mathlib.Core.Path.{◌≡◌}
use mathlib.Core.Bool.{Bool, true, false}
use native.Mathlib.Omega.{arith}
use peker_os.Common.Tests.{◌==◌, if◌then◌else◌}
use peker_os.Common.Bytes.{
  Bytes, IsBytes, store, or_bit, and_not_bit, bit, bit-or_bit, bit-and_not_bit, or_bit-lt,
  and_not_bit-lt,
}

unfoldable pub set_bit : Bytes → ℕ → Bytes
set_bit b f = store b (f / 8) (or_bit (b (f / 8)) (f % 8))

unfoldable pub clear_bit : Bytes → ℕ → Bytes
clear_bit b f = store b (f / 8) (and_not_bit (b (f / 8)) (f % 8))

unfoldable pub test_bit : Bytes → ℕ → Bool
test_bit b f = bit (b (f / 8)) (f % 8)

module _ {b : Bytes} (v : IsBytes b) (f : ℕ) where
  -- Setting a bit changes that bit and no other.
  pub test_bit-set_bit :
      (g : ℕ) → test_bit (set_bit b f) g ≡ (if f == g then true else test_bit b g)
  unfolding test_bit set_bit
  test_bit-set_bit g = ground (
    arith,
    v (f / 8),
    bit-or_bit (b (f / 8)) (f % 8) (g % 8) (v (f / 8)) (omega arith) (omega arith),
  )

  pub test_bit-clear_bit :
      (g : ℕ) → test_bit (clear_bit b f) g ≡ (if f == g then false else test_bit b g)
  unfolding test_bit clear_bit
  test_bit-clear_bit g =
      ground
        (arith, bit-and_not_bit (b (f / 8)) (f % 8) (g % 8) (v (f / 8)) (omega arith) (omega arith))

  pub set_bit-IsBytes : IsBytes (set_bit b f)
  unfolding set_bit
  set_bit-IsBytes i = ground (arith, v i, or_bit-lt (b (f / 8)) (f % 8) (v (f / 8)) (omega arith))

  pub clear_bit-IsBytes : IsBytes (clear_bit b f)
  unfolding clear_bit
  clear_bit-IsBytes i =
      ground (arith, v i, and_not_bit-lt (b (f / 8)) (f % 8) (v (f / 8)) (omega arith))
