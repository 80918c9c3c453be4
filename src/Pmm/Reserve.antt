-- ===== src/Pmm/Reserve.antt =====
-- The first megabyte and the kernel's frames in `init_pmm` of kernel/mm/pmm.c.
use peker_os.Common.{
  ℕ, ◌+◌, ◌-◌, ◌*◌, ◌/◌, ◌%◌, ◌^◌, ◌≤◌, ◌<◌, min, ◌≡◌, refl, ◌∙◌, ◌⊎◌, true, arith, inl, inr, ◌==◌,
  Bool-cases, count_up, count_up-keeps,
}
use native.Mathlib.Decide.{dec_lt}
use peker_os.Common.Bytes.{Bytes, IsBytes}
use peker_os.Pmm.{bitmap_set, bitmap_test, set_range, reserve}
use peker_os.Pmm.Bits.{bitmap_test-set, bitmap_set-IsBytes}

-- A loop that sets bits keeps the array one of bytes; it sets the bits of its range and no other.
pub record SetIn (b : Bytes) (lo hi : ℕ) (c : Bytes) : Type 0 where
  pub bytes : IsBytes c
  pub inside : (g : ℕ) → lo ≤ g → g < hi → bitmap_test c g ≡ true
  pub outside : (g : ℕ) → (g < lo) ⊎ (hi ≤ g) → bitmap_test c g ≡ bitmap_test b g

SetIn-step :
    {b : Bytes} (lo k : ℕ) (c : Bytes)
    → lo ≤ k
    → SetIn b lo k c
    → SetIn b lo (k + 1) (bitmap_set c k)
SetIn-step lo k c le s = record {
  bytes = bitmap_set-IsBytes s.bytes k;
  inside = λ g from to. elim (Bool-cases (k == g)) [
    | inl same ↦ ground (arith, bitmap_test-set s.bytes k g)
    | inr other ↦ ground (arith, bitmap_test-set s.bytes k g, s.inside g)
  ];
  outside = λ g out. ground (arith, bitmap_test-set s.bytes k g, s.outside g);
}

set_for-SetIn :
    {b : Bytes}
    → IsBytes b
    → (n lo : ℕ) → SetIn b lo (lo + n) (count_up (λ f c. bitmap_set c f) lo n b)
set_for-SetIn {b} v n lo =
    count_up-keeps (SetIn b lo) lo n (lo + n) refl (λ k c from to s. SetIn-step lo k c from s)
      (record { bytes = v; inside = λ g from to. absurd (omega arith); outside = λ g out. refl })

-- What was set stays set.
SetIn-keeps :
    {b c : Bytes} {lo hi : ℕ} (g : ℕ)
    → SetIn b lo hi c
    → bitmap_test b g ≡ true
    → bitmap_test c g ≡ true
SetIn-keeps {lo} {hi} g s h = elim (dec_lt g lo) [
  | yes below ↦ s.outside g (inl below) ∙ h
  | no from ↦ elim (dec_lt g hi) [
    | yes to ↦ s.inside g (omega arith) to
    | no above ↦ s.outside g (inr (omega arith)) ∙ h
  ]
]

module _ {b : Bytes} (v : IsBytes b) (total ks ke : ℕ) where
  low : SetIn b 0 256 (count_up (λ f c. bitmap_set c f) 0 256 b)
  low = set_for-SetIn v 256 0

  pub reserve-low : (g : ℕ) → g < 256 → bitmap_test (reserve total ks ke b) g ≡ true
  unfolding reserve set_range
  reserve-low g h = SetIn-keeps g (set_for-SetIn low.bytes _ _) (low.inside g (omega arith) h)

  pub reserve-IsBytes : IsBytes (reserve total ks ke b)
  unfolding reserve set_range
  reserve-IsBytes = (set_for-SetIn low.bytes _ _).bytes

  -- The frame of each byte of the kernel.
  pub reserve_kernel :
      (a : ℕ)
      → 0xC0000000 ≤ ks
      → ks ≤ a
      → a < ke
      → ke < 2 ^ 32
      → (a - 0xC0000000) / 4096 < total
      → bitmap_test (reserve total ks ke b) ((a - 0xC0000000) / 4096) ≡ true
  unfolding reserve set_range
  reserve_kernel a high lo hi small inside =
      (set_for-SetIn low.bytes _ _).inside _ (omega arith) (omega arith)

  pub reserve-keeps :
      (g : ℕ) → bitmap_test b g ≡ true → bitmap_test (reserve total ks ke b) g ≡ true
  unfolding reserve set_range
  reserve-keeps g h = SetIn-keeps g (set_for-SetIn low.bytes _ _) (SetIn-keeps g low h)

  -- A frame behind the first 256 and outside the kernel's is as it was.
  pub reserve-outside :
      (g : ℕ)
      → 256 ≤ g
      → 0xC0000000 ≤ ks
      → ks ≤ ke
      → ke < 2 ^ 32
      → (g < (ks - 0xC0000000) / 4096) ⊎ (ke - 0xC0000000 ≤ g * 4096)
      → bitmap_test (reserve total ks ke b) g ≡ bitmap_test b g
  unfolding reserve set_range
  reserve-outside g above high order small out =
      (set_for-SetIn low.bytes _ _).outside g (away out) ∙ low.outside g (inr above)
    where
      away :
          (g < (ks - 0xC0000000) / 4096) ⊎ (ke - 0xC0000000 ≤ g * 4096)
          → (g < (ks + 2 ^ 32 - 0xC0000000) % 2 ^ 32 / 4096)
            ⊎ ((ks + 2 ^ 32 - 0xC0000000) % 2 ^ 32 / 4096
                  + (min (((ke + 2 ^ 32 - 0xC0000000) % 2 ^ 32 + 4096 - 1) % 2 ^ 32 / 4096) total
                      - (ks + 2 ^ 32 - 0xC0000000) % 2 ^ 32 / 4096)
                ≤ g)
      away (inl less) = inl (omega arith)
      away (inr more) =
          let k : (ks + 2 ^ 32 - 0xC0000000) % 2 ^ 32 / 4096 ≤ g = omega arith in
          let e : ((ke + 2 ^ 32 - 0xC0000000) % 2 ^ 32 + 4096 - 1) % 2 ^ 32 / 4096 ≤ g =
            omega arith in
          inr (omega (arith, k, e))
