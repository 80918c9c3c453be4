-- ===== src/Kheap/Full.antt =====
-- `kmalloc` of kernel/mm/kheap.c in a heap without a free block that is large enough.
use peker_os.Common.{
  ℕ, zero, suc, ◌+◌, ◌/◌, ◌<◌, ◌≡◌, refl, sym, ap, ◌∙◌, false, arith, ◌==◌, some, List, [], ◌∷◌,
  length,
}
use peker_os.Kheap.{Memory, kmalloc_loop, kmalloc, total_size, header_size, heap_size}
use peker_os.Kheap.Blocks.{Block, NoFit}
use peker_os.Kheap.Chain.{next_of, Chain}
use peker_os.Kheap.Malloc.{IsHeap, length-le-span, next_of-nonempty, ==-zero}

kmalloc_loop-NoFit :
    (m : Memory) (k total p a : ℕ) (xs : List Block)
    → 0 < a
    → length xs < k
    → Chain m 0 p a xs
    → NoFit total xs
    → kmalloc_loop m k total (next_of xs a 0) ≡ some (0, m)
unfolding kmalloc_loop
kmalloc_loop-NoFit m zero total p a xs live fuel ch miss = elim fuel [ ]
kmalloc_loop-NoFit m (suc k) total p a [] live fuel ch miss = refl
kmalloc_loop-NoFit m (suc k) total p a (b ∷ xs) live fuel ch miss =
    let some_block : (a == 0) ≡ false = ground arith in
    rw (some_block, ch.0)
      (rw (miss.0)
        (kmalloc_loop-NoFit m k total a (a + b.size) xs (omega arith) (omega arith) ch.2 miss.1))

pub kmalloc-NoFit :
    {m : Memory} {first : ℕ} {xs : List Block} (size : ℕ)
    → IsHeap m first xs
    → 0 < size
    → NoFit (total_size size) xs
    → kmalloc m first size ≡ some (0, m)
unfolding kmalloc
kmalloc-NoFit {m} {first} {xs} size h pos miss =
    let start : next_of xs first 0 ≡ first = next_of-nonempty xs first (omega (arith, h.fills)) in
    rw (==-zero size pos) (
      ap (kmalloc_loop m (heap_size / header_size + 2) (total_size size)) (sym start)
      ∙ kmalloc_loop-NoFit m (heap_size / header_size + 2) (total_size size) 0 first xs h.live
          (omega (arith, h.fills, length-le-span m 0 0 first xs h.chain)) h.chain miss)
