-- ===== src/Kheap/Free.antt =====
-- `kfree` of kernel/mm/kheap.c gives a block back to the list of blocks.
use peker_os.Common.{
  ℕ, ◌+◌, ◌-◌, ◌%◌, ◌^◌, ◌≤◌, ◌<◌, ◌≡◌, refl, sym, ap, ◌∙◌, true, false, arith, ◌==◌, List, [], ◌∷◌,
  ◌++◌,
}
use peker_os.Kheap.{HeapHeader, Memory, set_is_free, merge_right, merge_left, kfree, heap_size}
use peker_os.Kheap.Blocks.{Block, block, span, span-append, join_right, join_left, give_back}
use peker_os.Kheap.Chain.{Chain, Took, Took-append}
use peker_os.Kheap.Malloc.{IsHeap}
use peker_os.Kheap.Coalesced.{release-Coalesced}
use peker_os.Kheap.Live.{join_right-cons}
use peker_os.Kheap.Merge.{Took-freed, Took-right, next_of-join_right, Took-give_back}

span-join_right : (n : ℕ) (post : List Block) → span (join_right n post) ≡ n + span post
span-join_right n [] = refl
span-join_right n (c ∷ post) = ground arith

span-join_left : (l : Block) (ys : List Block) → span (join_left l ys) ≡ l.size + span ys
span-join_left l [] = refl
span-join_left l (c ∷ ys) = ground arith

span-give_back : (pre ys : List Block) → span (give_back pre ys) ≡ span pre + span ys
span-give_back [] ys = omega arith
span-give_back (l ∷ []) ys = omega (arith, span-join_left l ys)
span-give_back (l ∷ k ∷ pre) ys = omega (arith, span-give_back (k ∷ pre) ys)

-- The three steps of a release.
release-Chain :
    (m : Memory) (a t n : ℕ) (pre post : List Block)
    → 0 < a
    → t ≡ a + span pre
    → t + n + span post < 2 ^ 32
    → Chain m 0 0 a (pre ++ (block n false ∷ post))
    → Chain
        (merge_left (merge_right (set_is_free m t true) t) t)
        0
        0
        a
        (give_back pre (join_right n post))
release-Chain m a t n pre post live e room ch =
    let m1 : Memory = set_is_free m t true in
    let one : Took m m1 0 a (pre ++ (block n true ∷ post)) =
      Took-append 0 a t pre (block n false ∷ post) (block n true ∷ post) (λ c. refl) e
        (λ q. Took-freed m t n q post (omega arith)) ch in
    let two : Took m1 (merge_right m1 t) 0 a (pre ++ join_right n post) =
      Took-append 0 a t pre (block n true ∷ post) (join_right n post) (next_of-join_right n post) e
        (λ q. Took-right m1 t n q post (omega arith) room) one.chain in
    let (k, ys, j) = join_right-cons n post in
    last (merge_right m1 t) (join_right n post) k ys j two.chain
      (omega (arith, span-join_right n post, ap span j))
  where
    last :
        (m2 : Memory) (js : List Block) (k : ℕ) (ys : List Block)
        → js ≡ block k true ∷ ys
        → Chain m2 0 0 a (pre ++ js)
        → t + (k + span ys) < 2 ^ 32
        → Chain (merge_left m2 t) 0 0 a (give_back pre js)
    last m2 js k ys j ch small =
        rw j (Took-give_back m2 a t k pre ys live e (omega arith) (rw j at ch)).chain

-- What the header of a block says, behind any blocks.
Chain-is_free :
    (m : Memory) (p a t : ℕ) (pre : List Block) (b : Block) (post : List Block)
    → t ≡ a + span pre
    → Chain m 0 p a (pre ++ (b ∷ post))
    → (m t).is_free ≡ b.free
Chain-is_free m p a t [] b post e ch =
    let e' : t ≡ a = omega arith in rw e' (ap (λ (h : HeapHeader). h.is_free) ch.0)
Chain-is_free m p a t (l ∷ pre) b post e ch =
    Chain-is_free m a (a + l.size) t pre b post (omega arith) ch.2

Chain-big :
    (m : Memory) (p a : ℕ) (pre : List Block) (b : Block) (post : List Block)
    → Chain m 0 p a (pre ++ (b ∷ post))
    → 16 ≤ b.size
Chain-big m p a [] b post ch = ch.1
Chain-big m p a (l ∷ pre) b post ch = Chain-big m a (a + l.size) pre b post ch.2

kfree_used :
    (m : Memory) (t : ℕ)
    → t + 16 < 2 ^ 32
    → (m t).is_free ≡ false
    → kfree m (t + 16) ≡ merge_left (merge_right (set_is_free m t true) t) t
unfolding kfree
kfree_used m t small used =
    let nz : (t + 16 == 0) ≡ false = ground arith in
    let back : (t + 16 + 2 ^ 32 - 16) % 2 ^ 32 ≡ t = omega arith in rw (nz, back, used)

-- `kfree` of the address behind the header of a block in use gives that block back: the heap is the
-- one in which it is free and merged with its free neighbours.
pub kfree_refines :
    {m : Memory} {first : ℕ} (n : ℕ) (pre post : List Block)
    → IsHeap m first (pre ++ (block n false ∷ post))
    → IsHeap (kfree m (first + span pre + 16)) first (give_back pre (join_right n post))
kfree_refines {m} {first} n pre post h =
    let size : span pre + (n + span post) ≡ heap_size =
      sym (span-append pre (block n false ∷ post)) ∙ h.fills in
    let t : ℕ = first + span pre in
    let big : 16 ≤ n = Chain-big m 0 first pre (block n false) post h.chain in
    record {
      live = h.live;
      room = h.room;
      fills = omega (arith, span-give_back pre (join_right n post), span-join_right n post, size);
      chain =
          rw
            (kfree_used m t (omega (arith, size, h.room))
              (Chain-is_free m 0 first t pre (block n false) post refl h.chain))
            (release-Chain m first t n pre post h.live refl (omega (arith, size, h.room)) h.chain);
      coalesced = release-Coalesced pre n post h.coalesced;
    }
