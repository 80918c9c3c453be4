-- ===== src/Kheap.antt =====
-- kernel/mm/kheap.c: the kernel heap, as block headers in memory linked both ways. Only the headers
-- are modelled, by address; what a caller stores in its block is not.
pub mod Blocks
pub mod Live
pub mod Coalesced
pub mod Chain
pub mod Malloc
pub mod Merge
pub mod Free
pub mod Full
pub mod RoundTrip
mod Tests
use peker_os.Common.{
  ℕ, zero, suc, ◌+◌, ◌-◌, ◌*◌, ◌/◌, ◌%◌, ◌^◌, Bool, true, false, not, ◌&&◌, ◌==◌, ltb, leb,
  if◌then◌else◌, Option, none, some,
}

abbrev pub heap_size : ℕ
heap_size = 4194304

-- `sizeof(struct heap_header)`
abbrev pub header_size : ℕ
header_size = 16

pub record HeapHeader : Type 0 where
  pub size : ℕ
  pub is_free : Bool
  pub next : ℕ
  pub prev : ℕ

abbrev pub Memory : Type 0
Memory = ℕ → HeapHeader

abbrev pub add32 : ℕ → ℕ → ℕ
add32 a b = (a + b) % 2 ^ 32

abbrev pub sub32 : ℕ → ℕ → ℕ
sub32 a b = (a + 2 ^ 32 - b) % 2 ^ 32

abbrev pub write : Memory → ℕ → HeapHeader → Memory
write m a h c = if a == c then h else m c

abbrev pub set_size : Memory → ℕ → ℕ → Memory
set_size m a v = write m a (record (m a) { size = v })

abbrev pub set_is_free : Memory → ℕ → Bool → Memory
set_is_free m a v = write m a (record (m a) { is_free = v })

abbrev pub set_next : Memory → ℕ → ℕ → Memory
set_next m a v = write m a (record (m a) { next = v })

abbrev pub set_prev : Memory → ℕ → ℕ → Memory
set_prev m a v = write m a (record (m a) { prev = v })

-- `if (p != 0) p->prev = q`
abbrev pub set_prev_if : Memory → ℕ → ℕ → Memory
set_prev_if m p q = if p == 0 then m else set_prev m p q

-- `heap_first` is the address of `heap_space`.
pub init_kheap : Memory → ℕ → Memory
init_kheap m heap_first =
    write m heap_first (record { size = heap_size; is_free = true; next = 0; prev = 0 })

-- `size` rounded up to a multiple of 4, with the header's size.
pub total_size : ℕ → ℕ
total_size size = add32 (if size % 4 == 0 then size else add32 size (4 - size % 4)) header_size

-- The block `current` cut in two, the second part free.
pub split : Memory → ℕ → ℕ → Memory
split m total current =
    let new_block = add32 current total in
    let m1 = write m new_block (record {
      size = sub32 (m current).size total;
      is_free = true;
      next = (m current).next;
      prev = current;
    }) in
    let m2 = set_prev_if m1 (m1 current).next new_block in
    set_size (set_next m2 current new_block) current total

pub take_block : Memory → ℕ → ℕ → Memory
take_block m total current =
    set_is_free
      (if ltb (add32 (add32 total header_size) 4) (m current).size
        then split m total current
        else m)
      current false

-- The first-fit search, on fuel.
pub kmalloc_loop : Memory → ℕ → ℕ → ℕ → Option (ℕ × Memory)
kmalloc_loop m zero total current = none
kmalloc_loop m (suc k) total current =
    let rest = kmalloc_loop m k total (m current).next in
    if current == 0
    then some (0, m)
    else if (m current).is_free && leb total (m current).size
    then some (add32 current header_size, take_block m total current)
    else rest

-- A heap has room for fewer blocks than the fuel.
pub kmalloc : Memory → ℕ → ℕ → Option (ℕ × Memory)
kmalloc m heap_first size =
    if size == 0
    then some (0, m)
    else kmalloc_loop m (heap_size / header_size + 2) (total_size size) heap_first

pub merge_right : Memory → ℕ → Memory
merge_right m block =
    if not ((m block).next == 0) && (m (m block).next).is_free
    then (let m1 = set_size m block (add32 (m block).size (m (m block).next).size) in
        let m2 = set_next m1 block (m1 (m1 block).next).next in
        set_prev_if m2 (m2 block).next block)
    else m

pub merge_left : Memory → ℕ → Memory
merge_left m block =
    if not ((m block).prev == 0) && (m (m block).prev).is_free
    then (let m1 = set_size m (m block).prev (add32 (m (m block).prev).size (m block).size) in
        let m2 = set_next m1 (m1 block).prev (m1 block).next in
        set_prev_if m2 (m2 block).next (m2 block).prev)
    else m

pub kfree : Memory → ℕ → Memory
kfree m ptr =
    let block = sub32 ptr header_size in
    if ptr == 0
    then m
    else if (m block).is_free
    then m
    else merge_left (merge_right (set_is_free m block true) block) block
