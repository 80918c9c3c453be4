-- ===== src/Kheap/RoundTrip.antt =====
-- `kfree` of kernel/mm/kheap.c after `kmalloc`, and what both mean for the blocks in use.
use peker_os.Common.{
  ℕ, ◌+◌, ◌-◌, ◌^◌, ◌<◌, ◌≤◌, ◌≡◌, refl, sym, ap, ◌∙◌, ◌⊎◌, true, false, arith, inl, inr, ltb,
  ltb→lt, Bool-cases, some, List, [], ◌∷◌, ◌++◌,
}
use peker_os.Kheap.{Memory, kmalloc, kfree, total_size}
use peker_os.Kheap.Blocks.{
  Block, block, span, used, cut, fitting, allocate, join_right, give_back, head_free, Coalesced,
  NoFit,
}
use mathlib.Core.Option.{some-injective}
use peker_os.Kheap.Full.{kmalloc-NoFit}
use peker_os.Kheap.Live.{AddsBlock, adds, full, used-allocate, used_before, used-release}
use peker_os.Kheap.Malloc.{IsHeap, payload, kmalloc_refines, total_size_bounds}
use peker_os.Kheap.Free.{kfree_refines}

-- Where first fit takes a block, and that giving it back restores the list.
data Placed (total a : ℕ) (xs : List Block) : ℕ × List Block → Type 0 where
  placed :
      {out : ℕ × List Block} (pre : List Block) (b : Block) (post rest : List Block) (n : ℕ)
      → out ≡ (a + span pre, pre ++ (block n false ∷ rest))
      → join_right n rest ≡ b ∷ post
      → b.free ≡ true
      → xs ≡ pre ++ (b ∷ post)
      → Placed total a xs out
  nowhere : {out : ℕ × List Block} → out.0 ≡ 0 → Placed total a xs out

Block-free : (b : Block) → b.free ≡ true → block b.size true ≡ b
Block-free b e = ground arith

join_right-live :
    (xs : List Block) (n : ℕ) → head_free xs ≡ false → join_right n xs ≡ block n true ∷ xs
join_right-live [] n h = refl
join_right-live (c ∷ xs) n h = ground (arith, h)

Placed-cut :
    (total a : ℕ) (b : Block) (post : List Block)
    → fitting total b ≡ true
    → Coalesced (b ∷ post)
    → Placed total a (b ∷ post) (a, cut total b post)
Placed-cut total a b post fit c = elim (Bool-cases (ltb (total + 20) b.size)) [
  | inl large ↦
      let e : total + (b.size - total) ≡ b.size = omega (arith, ltb→lt (total + 20) b.size large) in
      rw large (
        placed [] b post (block (b.size - total) true ∷ post) total
          (ap (λ (k : ℕ). (k, block total false ∷ block (b.size - total) true ∷ post))
            (omega arith))
          (rw e (ap (λ d. d ∷ post) (Block-free b (ground arith)))) (ground arith) refl)
  | inr small ↦ rw small (
      placed [] b post post b.size (ap (λ (k : ℕ). (k, block b.size false ∷ post)) (omega arith))
        (join_right-live post b.size (ground (arith, c.0))
          ∙ ap (λ d. d ∷ post) (Block-free b (ground arith)))
        (ground arith) refl)
]

Placed-cons :
    {total a : ℕ} {xs : List Block} {out : ℕ × List Block} (b : Block)
    → Placed total (a + b.size) xs out
    → Placed total a (b ∷ xs) (out.0, b ∷ out.1)
Placed-cons b (nowhere z) = nowhere z
Placed-cons {a} b (placed {out} pre c post rest n e j free split) =
    placed (b ∷ pre) c post rest n
      (rw e (ap (λ (k : ℕ). (k, b ∷ pre ++ (block n false ∷ rest))) (omega arith))) j free
      (ap (λ l. b ∷ l) split)

allocate-Placed :
    (total a : ℕ) (xs : List Block) → Coalesced xs → Placed total a xs (allocate total a xs)
allocate-Placed total a [] c = nowhere refl
allocate-Placed total a (b ∷ xs) c = elim (Bool-cases (fitting total b)) [
  | inl fit ↦ rw fit (Placed-cut total a b xs fit c)
  | inr miss ↦ rw miss (Placed-cons b (allocate-Placed total (a + b.size) xs c.1))
]

-- Where no two free blocks lie side by side, a free block is not merged to the left.
give_back-Coalesced_id :
    (pre : List Block) (b : Block) (post : List Block)
    → b.free ≡ true
    → Coalesced (pre ++ (b ∷ post))
    → give_back pre (b ∷ post) ≡ pre ++ (b ∷ post)
give_back-Coalesced_id [] b post free c = refl
give_back-Coalesced_id (l ∷ []) b post free c = ground (arith, c.0)
give_back-Coalesced_id (l ∷ k ∷ pre) b post free c =
    ap (λ xs. l ∷ xs) (give_back-Coalesced_id (k ∷ pre) b post free c.1)

-- Each free block is too small for a header and the bytes asked for, rounded up by 3 at most.
abbrev pub NoRoom : ℕ → List Block → Type 0
NoRoom size [] = Unit
NoRoom size (b ∷ xs) = (b.free ≡ true → b.size < size + 19) × NoRoom size xs

-- What `kmalloc` returns and leaves when `size` bytes are asked for: a new block in use, with room for
-- them behind the 16 bytes of its header, or 0 and the memory as it was.
pub data Adds (size : ℕ) (m : Memory) (xs : List Block) (before after : List (ℕ × ℕ))
    (out : ℕ × Memory) : Type 0 where
  allocates :
      (pre post : List (ℕ × ℕ)) (at n : ℕ)
      → size + 16 ≤ n
      → out.0 ≡ at + 16
      → before ≡ pre ++ post
      → after ≡ pre ++ ((at, n) ∷ post)
      → Adds size m xs before after out
  too_full : out ≡ (0, m) → NoRoom size xs → Adds size m xs before after out

NoFit-NoRoom :
    (size : ℕ) (xs : List Block) → size + 20 < 2 ^ 32 → NoFit (total_size size) xs → NoRoom size xs
NoFit-NoRoom size [] small miss = tt
NoFit-NoRoom size (b ∷ xs) small miss =
    let t = total_size_bounds size small in
    ((λ free. ground (arith, miss.0)), NoFit-NoRoom size xs small miss.1)

module _ {m : Memory} {first : ℕ} {xs : List Block} (size : ℕ) (h : IsHeap m first xs)
    (pos : 0 < size) (small : size + 40 < 2 ^ 32) where
  used-kmalloc :
      {m' : Memory} (ys : List Block) (at : ℕ)
      → AddsBlock (total_size size) at xs (used first xs) (used first ys)
      → kmalloc m first size ≡ some (payload at, m')
      → Adds size m xs (used first xs) (used first ys) (payload at, m')
  used-kmalloc ys at (adds pre post n live le e e') done =
      let b = total_size_bounds size (omega arith) in
      allocates pre post at n (omega arith) (ground arith) e e'
  used-kmalloc ys at (full z miss e) done =
      too_full (some-injective _ _ (sym done ∙ kmalloc-NoFit size h pos miss))
        (NoFit-NoRoom size xs (omega arith) miss)

  -- In a well-formed heap, for a request of more than 0 bytes and 40 below 4 GB, `kmalloc` ends, and the
  -- heap is well formed. Either the blocks in use are those of before with one more, which has room for
  -- the bytes asked for behind its header, where the pointer returned points; or 0 is returned, the memory
  -- is unchanged, and each free block is too small for the header and the bytes, rounded up by 3 at most.
  pub kmalloc-Adds :
      (m' : Memory) × (ptr : ℕ) × (ys : List Block) × (kmalloc m first size ≡ some (ptr, m'))
      × IsHeap m' first ys
      × Adds size m xs (used first xs) (used first ys) (ptr, m')
  kmalloc-Adds =
      let (m', e, h') = kmalloc_refines size h pos small in
      (
        m',
        payload (allocate (total_size size) first xs).0,
        (allocate (total_size size) first xs).1,
        e,
        h',
        used-kmalloc (allocate (total_size size) first xs).1 (allocate (total_size size) first xs).0
            (used-allocate (total_size size) first xs h.live) e,
      )

  -- In a well-formed heap, for a request of more than 0 bytes and 40 below 4 GB, `kmalloc` ends, and
  -- unless it returned 0, `kfree` of what it returned restores the heap.
  pub kfree-kmalloc :
      (m' : Memory) × (ptr : ℕ) × (kmalloc m first size ≡ some (ptr, m'))
      × ((ptr ≡ 0) ⊎ IsHeap (kfree m' ptr) first xs)
  kfree-kmalloc =
      let (m', e, h') = kmalloc_refines size h pos small in
      (
        m',
        payload (allocate (total_size size) first xs).0,
        e,
        go m' (allocate (total_size size) first xs) h'
            (allocate-Placed (total_size size) first xs h.coalesced),
      )
    where
      go :
          (m' : Memory) (out : ℕ × List Block)
          → IsHeap m' first out.1
          → Placed (total_size size) first xs out
          → (payload out.0 ≡ 0) ⊎ IsHeap (kfree m' (payload out.0)) first xs
      go m' out h' (nowhere z) = inl (ground (arith, z))
      go m' out h' (placed pre b post rest n e j free split) =
          let e0 : out.0 ≡ first + span pre = ap (λ (o : ℕ × List Block). o.0) e in
          let e1 : out.1 ≡ pre ++ (block n false ∷ rest) = ap (λ (o : ℕ × List Block). o.1) e in
          let ptr : payload out.0 ≡ first + span pre + 16 = ground (arith, e0, h.live) in
          let same : give_back pre (join_right n rest) ≡ xs =
            rw j (give_back-Coalesced_id pre b post free (rw split at h.coalesced)) ∙ sym split in
          inr (rw ptr (rw same at (kfree_refines n pre rest (rw e1 at h'))))

-- In a well-formed heap, `kfree` at the pointer behind the header of a block in use takes exactly
-- that block off the blocks in use, and the heap stays well formed.
pub kfree-Removes :
    {m : Memory} {first : ℕ} (n : ℕ) (pre post : List Block)
    → IsHeap m first (pre ++ (block n false ∷ post))
    → (ys : List Block) × IsHeap (kfree m (first + span pre + 16)) first ys
      × (used first (pre ++ (block n false ∷ post))
          ≡ used first pre ++ ((first + span pre, n) ∷ used (first + span pre + n) post))
      × (used first ys ≡ used first pre ++ used (first + span pre + n) post)
kfree-Removes {first} n pre post h = (
  give_back pre (join_right n post),
  kfree_refines n pre post h,
  used_before first n pre post,
  used-release first n pre post,
)
