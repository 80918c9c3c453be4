-- ===== src/Pmm.antt =====
-- kernel/mm/pmm.c: the bitmap of physical frames and its statistics. The static variables of the
-- file are the fields of a record that every operation takes and returns.
pub mod Bits
pub mod Count
pub mod Inv
pub mod Alloc
pub mod Release
pub mod Contiguous
pub mod Reserve
pub mod Regions
pub mod Init
mod Tests
use peker_os.Common.{
  ℕ, zero, suc, ◌+◌, ◌-◌, ◌*◌, ◌/◌, ◌%◌, ◌^◌, min, Bool, ◌&&◌, ◌==◌, ltb, if◌then◌else◌, Option,
  none, some, count_up,
}
use mathlib.Core.Option
use peker_os.Common.Bytes.{Bytes, store, or_bit, and_not_bit, bit}
use peker_os.Common.Bitmap.{set_bit, clear_bit, test_bit}

abbrev pub max_frames : ℕ
max_frames = 1048576

abbrev pub frame_size : ℕ
frame_size = 4096

pub record Pmm : Type 0 where
  pub frame_bitmap : Bytes
  pub total_frames : ℕ
  pub used_frames_count : ℕ
  pub total_memory_kb : ℕ

pub bitmap_set : Bytes → ℕ → Bytes
unfolding set_bit
bitmap_set b frame = set_bit b frame

pub bitmap_clear : Bytes → ℕ → Bytes
unfolding clear_bit
bitmap_clear b frame = clear_bit b frame

pub bitmap_test : Bytes → ℕ → Bool
unfolding test_bit
bitmap_test b frame = test_bit b frame

-- `bitmap_set` and `used_frames_count++`
abbrev pub mark : Pmm → ℕ → Pmm
mark p f = record p {
  frame_bitmap = bitmap_set p.frame_bitmap f;
  used_frames_count = (p.used_frames_count + 1) % 2 ^ 32;
}

abbrev pub search_limit : Pmm → ℕ
search_limit p = if ltb 262144 p.total_frames then 262144 else p.total_frames

-- `bitmap_clear` and `used_frames_count--`
abbrev pub unmark : Pmm → ℕ → Pmm
unmark p f = record p {
  frame_bitmap = bitmap_clear p.frame_bitmap f;
  used_frames_count = (p.used_frames_count + 2 ^ 32 - 1) % 2 ^ 32;
}

-- The rounds left, and the loop's `f`.
pub alloc_loop : Pmm → ℕ → ℕ → ℕ × Pmm
alloc_loop p zero f = (0, p)
alloc_loop p (suc n) f =
    let rest = alloc_loop p n (f + 1) in
    if bitmap_test p.frame_bitmap f then rest else ((f * frame_size) % 2 ^ 32, mark p f)

pub alloc_frame : Pmm → ℕ × Pmm
alloc_frame p = alloc_loop p (search_limit p) 0

-- `for (i = start_frame; i < start_frame + count; i++)`
pub mark_range : Pmm → ℕ → ℕ → Pmm
mark_range p start count = count_up (λ i q. mark q i) start count p

-- The rounds left, and the loop's `f`, `current_count` and `start_frame`.
pub contiguous_loop : Pmm → ℕ → ℕ → ℕ → ℕ → ℕ → ℕ × Pmm
contiguous_loop p count zero f current_count start_frame = (0, p)
contiguous_loop p count (suc n) f current_count start_frame =
    let start = if current_count == 0 then f else start_frame in
    let next = contiguous_loop p count n (f + 1) (current_count + 1) start in
    let reset = contiguous_loop p count n (f + 1) 0 start_frame in
    if bitmap_test p.frame_bitmap f
    then reset
    else if current_count + 1 == count
    then ((start * frame_size) % 2 ^ 32, mark_range p start count)
    else next

-- `count` is an `int`; a negative one finds nothing, as 0 does.
pub alloc_contiguous_frames : Pmm → ℕ → ℕ × Pmm
alloc_contiguous_frames p count = contiguous_loop p count p.total_frames 0 0 0

pub free_frame : Pmm → ℕ → Pmm
free_frame p addr =
    let frame = addr / frame_size in
    if ltb frame p.total_frames && bitmap_test p.frame_bitmap frame then unmark p frame else p

pub pmm_free_frames : Pmm → ℕ
pmm_free_frames p = (p.total_frames + 2 ^ 32 - p.used_frames_count) % 2 ^ 32

-- `struct multiboot_mmap_entry` and the fields of `struct multiboot_info` that are read.
pub record MmapEntry : Type 0 where
  pub size : ℕ
  pub base_addr_low : ℕ
  pub base_addr_high : ℕ
  pub length_low : ℕ
  pub type : ℕ

pub record MultibootInfo : Type 0 where
  pub flag_mem : Bool
  pub flag_mmap : Bool
  pub mem_lower : ℕ
  pub mem_upper : ℕ
  pub mmap_length : ℕ
  pub mmap_addr : ℕ

-- `for (f = lo; f < hi && f < total_frames; f++)`
pub clear_range : ℕ → ℕ → ℕ → Bytes → Bytes
clear_range total lo hi b = count_up (λ f c. bitmap_clear c f) lo (min hi total - lo) b

pub set_range : ℕ → ℕ → ℕ → Bytes → Bytes
set_range total lo hi b = count_up (λ f c. bitmap_set c f) lo (min hi total - lo) b

pub free_region : ℕ → MmapEntry → Bytes → Bytes
free_region total e b =
    if e.type == 1 && e.base_addr_high == 0
    then clear_range total ((e.base_addr_low + frame_size - 1) % 2 ^ 32 / frame_size)
        ((e.base_addr_low + e.length_low) % 2 ^ 32 / frame_size) b
    else b

-- The walk over the memory map, on fuel: `mem` is the memory in which the boot loader left it.
pub mmap_loop : (ℕ → MmapEntry) → ℕ → ℕ → ℕ → ℕ → Bytes → Option Bytes
mmap_loop mem total zero addr end b = none
mmap_loop mem total (suc k) addr end b =
    let e = mem addr in
    let rest = mmap_loop mem total k ((addr + e.size + 4) % 2 ^ 32) end (free_region total e b) in
    if ltb addr end then rest else some b

-- Steps 4 to 6: the first megabyte, the kernel's own frames, and the count.
pub count_loop : Bytes → ℕ → ℕ
count_loop b total = count_up (λ f n. if bitmap_test b f then (n + 1) % 2 ^ 32 else n) 0 total 0

pub reserve : ℕ → ℕ → ℕ → Bytes → Bytes
reserve total kernel_start kernel_end b =
    set_range total ((kernel_start + 2 ^ 32 - 0xC0000000) % 2 ^ 32 / frame_size)
      (((kernel_end + 2 ^ 32 - 0xC0000000) % 2 ^ 32 + frame_size - 1) % 2 ^ 32 / frame_size)
      (count_up (λ f c. bitmap_set c f) 0 256 b)

-- The map's virtual address.
abbrev pub mmap_start : MultibootInfo → ℕ
mmap_start mbi = (mbi.mmap_addr + 0xC0000000) % 2 ^ 32

-- Step 3, from a bitmap with every frame in use.
pub regions : (ℕ → MmapEntry) → MultibootInfo → ℕ → Bytes → Option Bytes
unfolding mmap_loop
regions mem mbi total b =
    if mbi.flag_mmap
    then mmap_loop mem total (mbi.mmap_length + 1) (mmap_start mbi)
        ((mmap_start mbi + mbi.mmap_length) % 2 ^ 32) b
    else some (clear_range total 256 (256 + mbi.mem_upper / 4) b)

pub init_memory_kb : Pmm → MultibootInfo → ℕ
init_memory_kb p mbi =
    if mbi.flag_mem then (mbi.mem_lower + mbi.mem_upper + 1024) % 2 ^ 32 else p.total_memory_kb

pub init_frames : ℕ → ℕ
init_frames kb = if ltb max_frames (kb / 4) then max_frames else kb / 4

abbrev full_bitmap : Bytes → Bytes
full_bitmap b i = if ltb i (max_frames / 8) then 0xFF else b i

-- Steps 4 to 6, on the bitmap `b` of step 3.
pub finish : ℕ → ℕ → ℕ → ℕ → Bytes → Pmm
finish kb total kernel_start kernel_end b =
    let c = reserve total kernel_start kernel_end b in
    record {
      frame_bitmap = c;
      total_frames = total;
      used_frames_count = count_loop c total;
      total_memory_kb = kb;
    }

-- `kernel_start` and `kernel_end` are the linker's symbols. `none`: the walk did not end.
pub init_pmm : (ℕ → MmapEntry) → ℕ → ℕ → MultibootInfo → Pmm → Option Pmm
unfolding reserve count_loop regions init_memory_kb init_frames finish
init_pmm mem kernel_start kernel_end mbi p =
    let kb = init_memory_kb p mbi in
    let total = init_frames kb in
    Option.map (finish kb total kernel_start kernel_end)
      (regions mem mbi total (full_bitmap p.frame_bitmap))
