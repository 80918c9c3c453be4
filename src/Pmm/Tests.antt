-- ===== src/Pmm/Tests.antt =====
-- Tests and examples of kernel/mm/pmm.c.
use peker_os.Common.{ℕ, ◌+◌, ◌≡◌, refl, ◌≢◌, true, arith, ◌==◌, if◌then◌else◌}
use peker_os.Pmm.{
  Pmm, bitmap_test, alloc_loop, alloc_frame, contiguous_loop, alloc_contiguous_frames, free_frame,
  pmm_free_frames, MmapEntry, MultibootInfo,
}
use peker_os.Pmm.Count.{count_used}
use peker_os.Pmm.Inv.{IsValid, free_frame-IsValid, free_frames-add-used}
use peker_os.Pmm.Alloc.{Found, alloc_frame-Found, alloc_frame-IsValid}
use peker_os.Pmm.Release.{SameUse, free_frame-alloc_frame}
use peker_os.Pmm.Contiguous.{FoundRun, alloc_contiguous-FoundRun}

-- Frames 0 and 2 of eight are in use.
abbrev eight : Pmm
eight = record {
  frame_bitmap = λ i. if i == 0 then 5 else 0;
  total_frames = 8;
  used_frames_count = 2;
  total_memory_kb = 32;
}

eight-IsValid : IsValid eight
unfolding count_used bitmap_test
eight-IsValid = record { bytes = λ i. ground arith; fits = omega arith; counted = refl }

alloc_first_free : (alloc_frame eight).0 ≡ 4096
unfolding alloc_frame alloc_loop bitmap_test
alloc_first_free = refl

run_of_three : (alloc_contiguous_frames eight 3).0 ≡ 12288
unfolding alloc_contiguous_frames contiguous_loop bitmap_test
run_of_three = refl

no_run_of_six : (alloc_contiguous_frames eight 6).0 ≡ 0
unfolding alloc_contiguous_frames contiguous_loop bitmap_test
no_run_of_six = refl

alloc_frame-IsValid_example : IsValid (alloc_frame eight).1
alloc_frame-IsValid_example = alloc_frame-IsValid eight-IsValid

alloc_frame-Found_example : Found eight 8 (alloc_frame eight)
alloc_frame-Found_example = alloc_frame-Found eight-IsValid

free_frame-IsValid_example : IsValid (free_frame eight 8192)
free_frame-IsValid_example = free_frame-IsValid eight-IsValid 8192

free_frames-add-used_example : pmm_free_frames eight + 2 ≡ 8
free_frames-add-used_example = free_frames-add-used eight-IsValid

alloc_nonzero : (alloc_frame eight).0 ≢ 0
unfolding alloc_frame alloc_loop bitmap_test
alloc_nonzero = omega arith

free_frame-alloc_frame_example :
    SameUse (free_frame (alloc_frame eight).1 (alloc_frame eight).0) eight
free_frame-alloc_frame_example = free_frame-alloc_frame eight-IsValid alloc_nonzero

alloc_contiguous-FoundRun_example : FoundRun eight 3 (alloc_contiguous_frames eight 3)
alloc_contiguous-FoundRun_example = alloc_contiguous-FoundRun 3 (omega arith) eight-IsValid

-- A map of two entries: 32 MB are usable, the rest is not.
abbrev memory_map : ℕ → MmapEntry
memory_map a =
    if a == 0xC0001000
    then record {
      size = 20;
      base_addr_low = 0;
      base_addr_high = 0;
      length_low = 0x2000000;
      type = 1;
    }
    else record {
      size = 20;
      base_addr_low = 0x2000000;
      base_addr_high = 0;
      length_low = 4096;
      type = 2;
    }

abbrev boot_info : MultibootInfo
boot_info = record {
  flag_mem = true;
  flag_mmap = true;
  mem_lower = 640;
  mem_upper = 31744;
  mmap_length = 48;
  mmap_addr = 4096;
}

abbrev before_boot : Pmm
before_boot = record {
  frame_bitmap = λ i. 0;
  total_frames = 0;
  used_frames_count = 0;
  total_memory_kb = 0;
}
