-- ===== src/Common/Bytes.antt =====
-- Arrays of bytes, and the single bits of a byte: `b |= 1 << k`, `b &= ~(1 << k)`, `b >> k & 1`.
use Prim.Native.Nat.{ℕ, zero, suc, ◌-◌, ◌/◌, ◌%◌, ◌^◌, ◌<◌, bit_and, bit_or}
use mathlib.Core.Path.{◌≡◌, refl}
use mathlib.Core.Bool.{Bool, true, false, not, ◌&&◌}
use mathlib.Core.Logic.{inl, inr}
use native.Mathlib.Omega.{arith}
use peker_os.Common.Tests.{Bool-cases, ◌==◌, ltb, if◌then◌else◌}

-- An array in memory, by index. That an access is within the array is a theorem of its user.
abbrev pub Bytes : Type 0
Bytes = ℕ → ℕ

abbrev pub IsBytes : Bytes → Type 0
IsBytes b = (i : ℕ) → b i < 256

abbrev pub store : Bytes → ℕ → ℕ → Bytes
store b i v j = if i == j then v else b j

abbrev pub or_bit : ℕ → ℕ → ℕ
or_bit x k = bit_or x (2 ^ k)

-- `~(1 << k)` keeps, of a byte, the bits of `255 - 2 ^ k`.
abbrev pub and_not_bit : ℕ → ℕ → ℕ
and_not_bit x k = bit_and x (255 - 2 ^ k)

-- `x & (1 << k)`, as a test, is a test of this bit.
abbrev pub bit : ℕ → ℕ → Bool
bit x k = (x / 2 ^ k) % 2 == 1

-- A test of every number below a bound; a table is such a test of closed terms.
holds_below : (ℕ → Bool) → ℕ → Bool
holds_below test zero = true
holds_below test (suc bound) = holds_below test bound && test bound

holds_below→ :
    (test : ℕ → Bool) (bound : ℕ)
    → holds_below test bound ≡ true
    → (n : ℕ) → n < bound
    → test n ≡ true
unfolding holds_below
holds_below→ test zero table n small = absurd (omega arith)
holds_below→ test (suc bound) table n small = elim (Bool-cases (n == bound)) [
  | inl last ↦ ground (arith, table)
  | inr other ↦ holds_below→ test bound (ground (arith, table)) n (ground arith)
]

beq : Bool → Bool → Bool
beq true b = b
beq false b = not b

beq→≡ : (a b : Bool) → beq a b ≡ true → a ≡ b
unfolding beq
beq→≡ true true h = refl
beq→≡ true false h = ground arith
beq→≡ false true h = ground arith
beq→≡ false false h = refl

-- Every byte, and two of its bits.
all_bits : (ℕ → ℕ → ℕ → Bool) → Bool
all_bits p = holds_below (λ x. holds_below (λ i. holds_below (p x i) 8) 8) 256

all_bits_sound :
    (p : ℕ → ℕ → ℕ → Bool) (x i j : ℕ)
    → all_bits p ≡ true
    → x < 256
    → i < 8
    → j < 8
    → p x i j ≡ true
unfolding all_bits
all_bits_sound p x i j h hx hi hj =
    holds_below→ _ 8 (holds_below→ _ 8 (holds_below→ _ 256 h x hx) i hi) j hj

or_table : all_bits (λ x i j. beq (bit (or_bit x i) j) (if i == j then true else bit x j)) ≡ true
unfolding all_bits holds_below beq
or_table = refl

and_table :
    all_bits (λ x i j. beq (bit (and_not_bit x i) j) (if i == j then false else bit x j)) ≡ true
unfolding all_bits holds_below beq
and_table = refl

small_table : all_bits (λ x i j. ltb (or_bit x i) 256 && ltb (and_not_bit x i) 256) ≡ true
unfolding all_bits holds_below
small_table = refl

module _ (x i j : ℕ) (hx : x < 256) (hi : i < 8) (hj : j < 8) where
  pub bit-or_bit : bit (or_bit x i) j ≡ (if i == j then true else bit x j)
  bit-or_bit = beq→≡ _ _ (all_bits_sound _ x i j or_table hx hi hj)

  pub bit-and_not_bit : bit (and_not_bit x i) j ≡ (if i == j then false else bit x j)
  bit-and_not_bit = beq→≡ _ _ (all_bits_sound _ x i j and_table hx hi hj)

module _ (x i : ℕ) (hx : x < 256) (hi : i < 8) where
  fits : (ltb (or_bit x i) 256 && ltb (and_not_bit x i) 256) ≡ true
  fits = all_bits_sound _ x i 0 small_table hx hi (omega arith)

  pub or_bit-lt : or_bit x i < 256
  or_bit-lt = ground (arith, fits)

  pub and_not_bit-lt : and_not_bit x i < 256
  and_not_bit-lt = ground (arith, fits)
