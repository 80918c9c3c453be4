-- ===== src/Pmm/Init.antt =====
-- `init_pmm` of kernel/mm/pmm.c.
use peker_os.Common.{ℕ, ◌+◌, ◌-◌, ◌*◌, ◌/◌, ◌^◌, ◌≤◌, ◌<◌, min, ◌≡◌, ◌⊎◌, true, false}
use peker_os.Common.Bytes.{Bytes, IsBytes}
use peker_os.Pmm.{Pmm, bitmap_test, MmapEntry, MultibootInfo, mmap_start}
use peker_os.Pmm.Inv.{IsValid}
use peker_os.Pmm.Regions.{IsMap, ClearIn, Listed, Withholds, Offers, Walked}

-- What the boot loader's map must satisfy, where there is one.
pub record IsBoot (mem : ℕ → MmapEntry) (mbi : MultibootInfo) : Type 0 where
  pub room : mmap_start mbi + mbi.mmap_length < 2 ^ 32
  pub entries : IsMap mem (mmap_start mbi) (mmap_start mbi + mbi.mmap_length)

-- The bitmap after step 3: by the map, or without one by the size of the upper memory.
record Step3 (mem : ℕ → MmapEntry) (mbi : MultibootInfo) (total : ℕ) (b c : Bytes) : Type 0 where
  pub bytes : IsBytes c
  pub mapped :
      mbi.flag_mmap ≡ true
      → Walked mem total (mmap_start mbi) (mmap_start mbi + mbi.mmap_length) b c
  pub unmapped :
      mbi.flag_mmap ≡ false → ClearIn b 256 (256 + (min (256 + mbi.mem_upper / 4) total - 256)) c

-- What `init_pmm` promises of the state that it leaves: the frames in use, and those that are free.
pub record Ready (mem : ℕ → MmapEntry) (mbi : MultibootInfo) (kernel_start kernel_end : ℕ) (q : Pmm)
    : Type 0 where
  pub valid : IsValid q
  pub low_used : (g : ℕ) → g < 256 → bitmap_test q.frame_bitmap g ≡ true
  pub kernel_used :
      (a : ℕ)
      → kernel_start ≤ a
      → a < kernel_end
      → (a - 0xC0000000) / 4096 < q.total_frames
      → bitmap_test q.frame_bitmap ((a - 0xC0000000) / 4096) ≡ true
  pub withheld_used :
      mbi.flag_mmap ≡ true
      → (g : ℕ) → g < q.total_frames
      → ((a : ℕ)
          → Listed mem (mmap_start mbi + mbi.mmap_length) (mmap_start mbi) a
          → Withholds (mem a) g)
      → bitmap_test q.frame_bitmap g ≡ true
  pub offered_free :
      mbi.flag_mmap ≡ true
      → (g a : ℕ) → Listed mem (mmap_start mbi + mbi.mmap_length) (mmap_start mbi) a
      → Offers (mem a) g
      → 256 ≤ g
      → g < q.total_frames
      → (g < (kernel_start - 0xC0000000) / 4096) ⊎ (kernel_end - 0xC0000000 ≤ g * 4096)
      → bitmap_test q.frame_bitmap g ≡ false
  pub above_used :
      mbi.flag_mmap ≡ false
      → (g : ℕ) → g < q.total_frames
      → 256 + mbi.mem_upper / 4 ≤ g
      → bitmap_test q.frame_bitmap g ≡ true
  pub upper_free :
      mbi.flag_mmap ≡ false
      → (g : ℕ) → 256 ≤ g
      → g < 256 + mbi.mem_upper / 4
      → g < q.total_frames
      → (g < (kernel_start - 0xC0000000) / 4096) ⊎ (kernel_end - 0xC0000000 ≤ g * 4096)
      → bitmap_test q.frame_bitmap g ≡ false
