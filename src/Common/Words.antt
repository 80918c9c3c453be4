-- ===== src/Common/Words.antt =====
-- Words of 32 bits in memory, the low byte first.
use Prim.Native.Nat.{ℕ, ◌+◌, ◌*◌, ◌/◌, ◌%◌, ◌^◌, ◌≤◌, ◌<◌}
use mathlib.Core.Path.{◌≡◌}
use mathlib.Core.Logic.{◌⊎◌, inl, inr}
use native.Mathlib.Omega.{arith}
use peker_os.Common.Tests.{◌==◌, if◌then◌else◌}
use peker_os.Common.Bytes.{Bytes, IsBytes}

unfoldable pub get32 : Bytes → ℕ → ℕ
get32 m a = m a + 256 * m (a + 1) + 65536 * m (a + 2) + 16777216 * m (a + 3)

unfoldable pub put32 : Bytes → ℕ → ℕ → Bytes
put32 m a v i =
    if i == a
    then v % 256
    else if i == a + 1
    then v / 256 % 256
    else if i == a + 2
    then v / 65536 % 256
    else if i == a + 3
    then v / 16777216 % 256
    else m i

module _ (m : Bytes) (a v : ℕ) where
  pub get32-put32_self : v < 2 ^ 32 → get32 (put32 m a v) a ≡ v
  unfolding get32 put32
  get32-put32_self small = ground arith

  -- A byte that is not one of the word's.
  pub put32-other : (i : ℕ) → (i < a) ⊎ (a + 4 ≤ i) → put32 m a v i ≡ m i
  unfolding put32
  put32-other i (inl before) = ground arith
  put32-other i (inr behind) = ground arith

  pub get32-put32_ne : (b : ℕ) → (b + 4 ≤ a) ⊎ (a + 4 ≤ b) → get32 (put32 m a v) b ≡ get32 m b
  unfolding get32
  get32-put32_ne b (inl before) = omega (
    arith,
    put32-other b (inl (omega arith)),
    put32-other (b + 1) (inl (omega arith)),
    put32-other (b + 2) (inl (omega arith)),
    put32-other (b + 3) (inl (omega arith)),
  )
  get32-put32_ne b (inr behind) = omega (
    arith,
    put32-other b (inr (omega arith)),
    put32-other (b + 1) (inr (omega arith)),
    put32-other (b + 2) (inr (omega arith)),
    put32-other (b + 3) (inr (omega arith)),
  )

  pub put32-IsBytes : IsBytes m → IsBytes (put32 m a v)
  unfolding put32
  put32-IsBytes bytes i = ground (arith, bytes i)

-- A word of bytes is below 2 ^ 32.
pub get32-lt : (m : Bytes) (a : ℕ) → IsBytes m → get32 m a < 2 ^ 32
unfolding get32
get32-lt m a bytes = omega (arith, bytes a, bytes (a + 1), bytes (a + 2), bytes (a + 3))

-- A word is what its four bytes are.
pub get32-same :
    (m n : Bytes) (a b : ℕ)
    → m a ≡ n b
    → m (a + 1) ≡ n (b + 1)
    → m (a + 2) ≡ n (b + 2)
    → m (a + 3) ≡ n (b + 3)
    → get32 m a ≡ get32 n b
unfolding get32
get32-same m n a b e f g h = omega (arith, e, f, g, h)
