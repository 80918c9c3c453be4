-- ===== src/Kheap/Tests.antt =====
-- Tests and examples of kernel/mm/kheap.c.
use peker_os.Common.{
  ℕ, ◌+◌, ◌≤◌, ◌≡◌, refl, ◌⊎◌, true, false, arith, ◌==◌, if◌then◌else◌, some, List, [], ◌∷◌, ◌++◌,
}
use peker_os.Kheap.{Memory, init_kheap, heap_size, total_size, kmalloc, kfree}
use peker_os.Kheap.Blocks.{Block, block, used, allocate}
use peker_os.Kheap.Malloc.{IsHeap, payload, kmalloc_refines, total_size_wraps}
use peker_os.Kheap.Free.{kfree_refines}
use peker_os.Kheap.RoundTrip.{Adds, kmalloc-Adds, kfree-kmalloc, kfree-Removes}

abbrev no_headers : Memory
no_headers a = record { size = 0; is_free = false; next = 0; prev = 0 }

abbrev heap_start : ℕ
heap_start = 0xC0300000

abbrev one_block : List Block
one_block = block heap_size true ∷ []

-- `init_kheap` leaves one free block.
init-IsHeap : IsHeap (init_kheap no_headers heap_start) heap_start one_block
unfolding init_kheap
init-IsHeap = record {
  live = omega arith;
  room = omega arith;
  fills = refl;
  chain = (refl, omega arith, tt);
  coalesced = (refl, tt);
}

-- A block of 64 bytes in use, and the rest.
abbrev rest_size : ℕ
rest_size = 4194240

abbrev two_headers : Memory
two_headers a =
    if a == heap_start
    then record { size = 64; is_free = false; next = heap_start + 64; prev = 0 }
    else record { size = rest_size; is_free = true; next = 0; prev = heap_start }

abbrev one_free : List Block
one_free = block rest_size true ∷ []

two-IsHeap : IsHeap two_headers heap_start ([] ++ (block 64 false ∷ one_free))
two-IsHeap = record {
  live = omega arith;
  room = omega arith;
  fills = refl;
  chain = (refl, omega arith, (refl, omega arith, tt));
  coalesced = (refl, (refl, tt));
}

kmalloc-Adds_example :
    (m' : Memory) × (ptr : ℕ) × (ys : List Block) × (kmalloc two_headers heap_start 40
      ≡ some (ptr, m'))
    × IsHeap m' heap_start ys
    × Adds 40 two_headers
        (block 64 false ∷ one_free)
        ((heap_start, 64) ∷ [])
        (used heap_start ys)
        (ptr, m')
kmalloc-Adds_example = kmalloc-Adds 40 two-IsHeap (omega arith) (omega arith)

kmalloc_refines_example :
    (m' : Memory) × (kmalloc two_headers heap_start 40
      ≡ some (payload (allocate (total_size 40) heap_start (block 64 false ∷ one_free)).0, m'))
    × IsHeap m' heap_start (allocate (total_size 40) heap_start (block 64 false ∷ one_free)).1
kmalloc_refines_example = kmalloc_refines 40 two-IsHeap (omega arith) (omega arith)

kfree-kmalloc_example :
    (m' : Memory) × (ptr : ℕ) × (kmalloc two_headers heap_start 40 ≡ some (ptr, m'))
    × ((ptr ≡ 0) ⊎ IsHeap (kfree m' ptr) heap_start (block 64 false ∷ one_free))
kfree-kmalloc_example = kfree-kmalloc 40 two-IsHeap (omega arith) (omega arith)

kfree_refines_example : IsHeap (kfree two_headers (heap_start + 16)) heap_start one_block
kfree_refines_example = kfree_refines 64 [] one_free two-IsHeap

kfree-Removes_example :
    (ys : List Block) × IsHeap (kfree two_headers (heap_start + 16)) heap_start ys
    × ◌≡◌ {A = List (ℕ × ℕ)} ((heap_start, 64) ∷ []) ((heap_start, 64) ∷ [])
    × (used heap_start ys ≡ [])
kfree-Removes_example = kfree-Removes 64 [] one_free two-IsHeap

total_size_wraps_example : total_size 0xffff_fffe ≤ 16
total_size_wraps_example = total_size_wraps 0xffff_fffe (omega arith) (omega arith)
