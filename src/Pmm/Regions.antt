-- ===== src/Pmm/Regions.antt =====
-- What the walk over the memory map in `init_pmm` of kernel/mm/pmm.c leaves in the bitmap.
use peker_os.Common.{
  ℕ, zero, suc, ◌+◌, ◌-◌, ◌*◌, ◌/◌, ◌%◌, ◌^◌, ◌≤◌, ◌<◌, min, ◌≡◌, refl, ◌∙◌, ◌⊎◌, true, false, ◌&&◌,
  arith, inl, inr, ◌==◌, ltb, ltb→lt, Bool-cases, count_up-keeps, some,
}
use native.Mathlib.Decide.{dec_lt}
use peker_os.Common.Bytes.{Bytes, IsBytes}
use peker_os.Pmm.{bitmap_clear, bitmap_test, MmapEntry, clear_range, free_region, mmap_loop}
use peker_os.Pmm.Bits.{bitmap_test-clear, bitmap_clear-IsBytes}

-- A loop that clears bits clears those of its range and no other.
pub record ClearIn (b : Bytes) (lo hi : ℕ) (c : Bytes) : Type 0 where
  pub bytes : IsBytes c
  pub inside : (g : ℕ) → lo ≤ g → g < hi → bitmap_test c g ≡ false
  pub outside : (g : ℕ) → (g < lo) ⊎ (hi ≤ g) → bitmap_test c g ≡ bitmap_test b g

ClearIn-step :
    {b : Bytes} (lo k : ℕ) (c : Bytes)
    → lo ≤ k
    → ClearIn b lo k c
    → ClearIn b lo (k + 1) (bitmap_clear c k)
ClearIn-step lo k c le s = record {
  bytes = bitmap_clear-IsBytes s.bytes k;
  inside = λ g from to. elim (Bool-cases (k == g)) [
    | inl same ↦ ground (arith, bitmap_test-clear s.bytes k g)
    | inr other ↦ ground (arith, bitmap_test-clear s.bytes k g, s.inside g)
  ];
  outside = λ g out. ground (arith, bitmap_test-clear s.bytes k g, s.outside g);
}

pub clear_range-ClearIn :
    {b : Bytes} (total lo hi : ℕ)
    → IsBytes b
    → ClearIn b lo (lo + (min hi total - lo)) (clear_range total lo hi b)
unfolding clear_range
clear_range-ClearIn {b} total lo hi v =
    count_up-keeps (ClearIn b lo) lo (min hi total - lo) (lo + (min hi total - lo)) refl
      (λ k c from to s. ClearIn-step lo k c from s)
      (record { bytes = v; inside = λ g from to. absurd (omega arith); outside = λ g out. refl })

-- What is clear stays clear.
ClearIn-keeps :
    {b c : Bytes} {lo hi : ℕ} (g : ℕ)
    → ClearIn b lo hi c
    → bitmap_test b g ≡ false
    → bitmap_test c g ≡ false
ClearIn-keeps {lo} {hi} g s h = elim (dec_lt g lo) [
  | yes below ↦ s.outside g (inl below) ∙ h
  | no from ↦ elim (dec_lt g hi) [
    | yes to ↦ s.inside g (omega arith) to
    | no above ↦ s.outside g (inr (omega arith)) ∙ h
  ]
]

-- No byte range of usable memory below 4 GB that the entry gives holds the whole frame.
pub record Withholds (e : MmapEntry) (g : ℕ) : Type 0 where
  pub withheld :
      e.type ≡ 1
      → e.base_addr_high ≡ 0
      → (e.base_addr_low + 4095 < 2 ^ 32)
        × ((g * 4096 < e.base_addr_low) ⊎ (e.base_addr_low + e.length_low < (g + 1) * 4096))

-- The entry gives a range of usable memory below 4 GB that holds the whole frame.
pub record Offers (e : MmapEntry) (g : ℕ) : Type 0 where
  pub usable : e.type ≡ 1
  pub low : e.base_addr_high ≡ 0
  pub start : e.base_addr_low + 4095 < 2 ^ 32
  pub end : e.base_addr_low + e.length_low < 2 ^ 32
  pub from : e.base_addr_low ≤ g * 4096
  pub to : (g + 1) * 4096 ≤ e.base_addr_low + e.length_low

module _ {b : Bytes} (v : IsBytes b) (total : ℕ) (e : MmapEntry) where
  pub free_region-IsBytes : IsBytes (free_region total e b)
  unfolding free_region
  free_region-IsBytes = elim (Bool-cases (e.type == 1 && e.base_addr_high == 0)) [
    | inl usable ↦ rw usable (clear_range-ClearIn total _ _ v).bytes
    | inr unusable ↦ rw unusable v
  ]

  free_region-keeps :
      (g : ℕ) → bitmap_test b g ≡ false → bitmap_test (free_region total e b) g ≡ false
  unfolding free_region
  free_region-keeps g h = elim (Bool-cases (e.type == 1 && e.base_addr_high == 0)) [
    | inl usable ↦ rw usable (ClearIn-keeps g (clear_range-ClearIn total _ _ v) h)
    | inr unusable ↦ rw unusable h
  ]

  free_region-Withholds :
      (g : ℕ) → Withholds e g → bitmap_test (free_region total e b) g ≡ bitmap_test b g
  unfolding free_region
  free_region-Withholds g h = elim (Bool-cases (e.type == 1 && e.base_addr_high == 0)) [
    | inl usable ↦
        let (start, out) = h.withheld (ground (arith, usable)) (ground (arith, usable)) in
        rw usable ((clear_range-ClearIn total _ _ v).outside g (away start out))
    | inr unusable ↦ rw unusable refl
  ]
    where
      away :
          e.base_addr_low + 4095 < 2 ^ 32
          → (g * 4096 < e.base_addr_low) ⊎ (e.base_addr_low + e.length_low < (g + 1) * 4096)
          → (g < (e.base_addr_low + 4096 - 1) % 2 ^ 32 / 4096)
            ⊎ ((e.base_addr_low + 4096 - 1) % 2 ^ 32 / 4096
                  + (min ((e.base_addr_low + e.length_low) % 2 ^ 32 / 4096) total
                      - (e.base_addr_low + 4096 - 1) % 2 ^ 32 / 4096)
                ≤ g)
      away start (inl below) = inl (omega arith)
      away start (inr above) = elim (dec_lt g ((e.base_addr_low + 4096 - 1) % 2 ^ 32 / 4096)) [
        | yes less ↦ inl less
        | no from ↦
            let end : (e.base_addr_low + e.length_low) % 2 ^ 32 / 4096 ≤ g = omega (arith, above) in
            inr (omega arith)
      ]

  free_region-Offers :
      (g : ℕ) → Offers e g → g < total → bitmap_test (free_region total e b) g ≡ false
  unfolding free_region
  free_region-Offers g h lt =
      let usable : (e.type == 1 && e.base_addr_high == 0) ≡ true =
        ground (arith, h.usable, h.low) in
      rw usable (
        (clear_range-ClearIn total _ _ v).inside g (omega (arith, h.start, h.from))
          (omega (arith, h.start, h.end, h.from, h.to, lt)))

-- A memory map as a boot loader leaves it: no entry reaches past the address space.
abbrev pub IsMap : (ℕ → MmapEntry) → ℕ → ℕ → Type 0
IsMap mem from end = (a : ℕ) → from ≤ a → a < end → a + (mem a).size + 4 < 2 ^ 32

-- The addresses of the entries of the map between two addresses.
pub data Listed (mem : ℕ → MmapEntry) (end : ℕ) : ℕ → ℕ → Type 0 where
  first : (addr : ℕ) → addr < end → Listed mem end addr addr
  later :
      (addr a : ℕ)
      → addr < end
      → Listed mem end (addr + (mem addr).size + 4) a
      → Listed mem end addr a

-- The bitmap after the walk: a frame that an entry offers is free, and one that they all withhold is as
-- it was.
pub record Walked (mem : ℕ → MmapEntry) (total addr end : ℕ) (b c : Bytes) : Type 0 where
  pub bytes : IsBytes c
  pub keeps : (g : ℕ) → bitmap_test b g ≡ false → bitmap_test c g ≡ false
  pub withheld :
      (g : ℕ)
      → ((a : ℕ) → Listed mem end addr a → Withholds (mem a) g)
      → bitmap_test c g ≡ bitmap_test b g
  pub freed :
      (g a : ℕ) → Listed mem end addr a → Offers (mem a) g → g < total → bitmap_test c g ≡ false

Walked-done :
    (mem : ℕ → MmapEntry) (total addr end : ℕ) (b : Bytes)
    → IsBytes b
    → end ≤ addr
    → Walked mem total addr end b b
Walked-done mem total addr end b v done = record {
  bytes = v;
  keeps = λ g h. h;
  withheld = λ g all. refl;
  freed = λ g a l o lt. none_left a l;
}
  where
    none_left : {P : Type 0} → (a : ℕ) → Listed mem end addr a → P
    none_left a (first x less) = absurd (omega (arith, less, done))
    none_left a (later x y less l) = absurd (omega (arith, less, done))

Walked-step :
    (mem : ℕ → MmapEntry) (total addr end : ℕ) (b c : Bytes)
    → IsBytes b
    → addr < end
    → Walked mem total (addr + (mem addr).size + 4) end (free_region total (mem addr) b) c
    → Walked mem total addr end b c
Walked-step mem total addr end b c v more w = record {
  bytes = w.bytes;
  keeps = λ g h. w.keeps g (free_region-keeps v total (mem addr) g h);
  withheld = λ g all.
      w.withheld g (λ a l. all a (later addr a more l))
      ∙ free_region-Withholds v total (mem addr) g (all addr (first addr more));
  freed = λ g a l o lt. freed g a l o lt w;
}
  where
    freed :
        (g a : ℕ)
        → Listed mem end addr a
        → Offers (mem a) g
        → g < total
        → Walked mem total (addr + (mem addr).size + 4) end (free_region total (mem addr) b) c
        → bitmap_test c g ≡ false
    freed g a (first x less) o lt w = w.keeps g (free_region-Offers v total (mem x) g o lt)
    freed g a (later x y less l) o lt w = w.freed g y l o lt

-- The walk over such a map ends.
pub mmap_loop-ends :
    (mem : ℕ → MmapEntry) (total k addr end : ℕ) (b : Bytes)
    → IsBytes b
    → 0 < k
    → end < addr + k
    → IsMap mem addr end
    → (c : Bytes) × (mmap_loop mem total k addr end b ≡ some c) × Walked mem total addr end b c
unfolding mmap_loop
mmap_loop-ends mem total zero addr end b v pos fuel m = elim pos [ ]
mmap_loop-ends mem total (suc k) addr end b v pos fuel m = elim (Bool-cases (ltb addr end)) [
  | inl more ↦
      let less : addr < end = ltb→lt _ _ more in
      let small : addr + (mem addr).size + 4 < 2 ^ 32 = m addr (omega arith) less in
      let e : (addr + (mem addr).size + 4) % 2 ^ 32 ≡ addr + (mem addr).size + 4 = omega arith in
      let (c, same, w) =
        mmap_loop-ends mem total k (addr + (mem addr).size + 4) end (free_region total (mem addr) b)
          (free_region-IsBytes v total (mem addr)) (omega (arith, less)) (omega arith)
          (λ a lo hi. m a (omega arith) hi) in
      rw (more, e) (c, same, Walked-step mem total addr end b c v less w)
  | inr done ↦ rw done (b, refl, Walked-done mem total addr end b v (ground (arith, done)))
]
