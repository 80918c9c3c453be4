-- ===== src/Kheap/Malloc.antt =====
-- `kmalloc` of kernel/mm/kheap.c is first fit over the list of its blocks.
use peker_os.Common.{
  ℕ, zero, suc, ◌+◌, ◌-◌, ◌*◌, ◌/◌, ◌%◌, ◌^◌, ◌≤◌, ◌<◌, ◌≡◌, refl, sym, ap, ◌∙◌, ◌≢◌, ◌⊎◌, true,
  false, arith, inl, inr, ◌==◌, ltb, ltb→lt, Bool-cases, if◌then◌else◌, some, List, [], ◌∷◌, length,
}
use peker_os.Kheap.{
  Memory, set_prev_if, take_block, split, kmalloc_loop, kmalloc, total_size, header_size, heap_size,
}
use peker_os.Kheap.Blocks.{Block, block, span, cut, fitting, allocate, span-allocate, Coalesced}
use peker_os.Kheap.Coalesced.{allocate-Coalesced}
use peker_os.Kheap.Chain.{
  header, next_of, Chain, Chain-frame, Chain-set_prev_if, set_prev_if-front, Took, Took-cons,
  next_of-bounds,
}

-- What taking a block that is cut leaves in memory.
module _ (m : Memory) (total a n p : ℕ) (b : Block) (at : m a ≡ header b n p) (pos : 16 ≤ total)
    (large : total + 20 < b.size) (room : a + b.size ≤ 2 ^ 32 - 1)
    (where_next : (n ≡ 0) ⊎ (n ≡ a + b.size)) (live : 0 < a) where
  take_split-here : take_block m total a a ≡ header (block total false) (a + total) p
  unfolding take_block split
  take_split-here = ground (arith, at)

  take_split-new : take_block m total a (a + total) ≡ header (block (b.size - total) true) n a
  unfolding take_block split
  take_split-new = ground (arith, at)

  take_split-other :
      (c : ℕ) → c ≢ a → c ≢ a + total → take_block m total a c ≡ set_prev_if m n (a + total) c
  unfolding take_block split
  take_split-other c ne ne' = ground (arith, at)

-- What taking a whole block leaves in memory.
module _ (m : Memory) (total a n p : ℕ) (b : Block) (at : m a ≡ header b n p)
    (small : b.size ≤ total + 20) (bound : total + 20 < 2 ^ 32) where
  take_whole-here : take_block m total a a ≡ header (block b.size false) n p
  unfolding take_block
  take_whole-here = ground (arith, at)

  take_whole-other : (c : ℕ) → c ≢ a → take_block m total a c ≡ m c
  unfolding take_block
  take_whole-other c ne = ground (arith, at)

module _ (m : Memory) (total a p : ℕ) (b : Block) (xs : List Block) (pos : 16 ≤ total)
    (room : a + span (b ∷ xs) ≤ 2 ^ 32 - 1) (live : 0 < a) (ch : Chain m 0 p a (b ∷ xs)) where
  take_block-split :
      total + 20 < b.size
      → Took m (take_block m total a) p a (block total false ∷ block (b.size - total) true ∷ xs)
  take_block-split large =
      let nxt = next_of xs (a + b.size) 0 in
      let bounds = next_of-bounds xs (a + b.size) in
      let other = take_split-other m total a nxt p b ch.0 pos large (omega arith) bounds live in
      let e : a + total + (b.size - total) ≡ a + b.size = omega arith in
      record {
        chain = (
          take_split-here m total a nxt p b ch.0 pos large (omega arith) bounds live,
          pos,
          (
            rw e (take_split-new m total a nxt p b ch.0 pos large (omega arith) bounds live),
            omega arith,
            rw e (
                Chain-frame 0 (a + total) (a + b.size) xs
                  (λ c lo hi. other c (omega arith) (omega arith))
                  (Chain-set_prev_if m a (a + b.size) (a + total) xs (omega arith) ch.2)),
          ),
        );
        front = λ c lt.
            other c (omega arith) (omega arith)
            ∙ set_prev_if-front m (a + total) c (a + b.size) xs (omega arith);
      }

  take_block-whole :
      b.size ≤ total + 20
      → total ≤ b.size
      → total + 20 < 2 ^ 32
      → Took m (take_block m total a) p a (block b.size false ∷ xs)
  take_block-whole small fit bound =
      let other = take_whole-other m total a (next_of xs (a + b.size) 0) p b ch.0 small bound in
      record {
        chain = (
          take_whole-here m total a _ p b ch.0 small bound,
          ch.1,
          Chain-frame 0 a (a + b.size) xs (λ c lo hi. other c (omega arith)) ch.2,
        );
        front = λ c lt. other c (omega arith);
      }

  take_block-Took :
      fitting total b ≡ true
      → total + 20 < 2 ^ 32
      → Took m (take_block m total a) p a (cut total b xs)
  take_block-Took fit bound = elim (Bool-cases (ltb (total + 20) b.size)) [
    | inl large ↦ rw large (take_block-split (ltb→lt _ _ large))
    | inr small ↦ rw small (take_block-whole (ground arith) (ground arith) bound)
  ]

next_of-allocate :
    (total a c : ℕ) (xs : List Block) → next_of (allocate total a xs).1 c 0 ≡ next_of xs c 0
next_of-allocate total a c [] = refl
next_of-allocate total a c (b ∷ xs) = ground arith

-- The result of the search: the address returned for the block at `at`.
abbrev pub payload : ℕ → ℕ
payload at = if at == 0 then 0 else at + header_size

-- `kmalloc`'s search, from any block of a chain on, is first fit.
kmalloc_loop-allocate :
    (m : Memory) (k total p a : ℕ) (xs : List Block)
    → 16 ≤ total
    → total + 20 < 2 ^ 32
    → 0 < a
    → a + span xs ≤ 2 ^ 32 - 1
    → length xs < k
    → Chain m 0 p a xs
    → (m' : Memory) × (kmalloc_loop m k total (next_of xs a 0)
        ≡ some (payload (allocate total a xs).0, m'))
      × Took m m' p a (allocate total a xs).1
unfolding kmalloc_loop
kmalloc_loop-allocate m zero total p a xs pos bound live room fuel ch = elim fuel [ ]
kmalloc_loop-allocate m (suc k) total p a [] pos bound live room fuel ch =
    (m, refl, record { chain = tt; front = λ c lt. refl })
kmalloc_loop-allocate m (suc k) total p a (b ∷ xs) pos bound live room fuel ch =
    let some_block : (a == 0) ≡ false = ground arith in
    rw (some_block, ch.0)
      (elim (Bool-cases (fitting total b)) [
        | inl fit ↦ rw fit (
          take_block m total a,
          ap (λ (v : ℕ). some (v, take_block m total a)) (ground (arith, ch.1)),
          take_block-Took m total a p b xs pos room live ch fit bound,
        )
        | inr miss ↦
            let (m', e, t) =
              kmalloc_loop-allocate m k total a (a + b.size) xs pos bound (omega arith)
                (omega arith) (omega arith) ch.2 in
            rw miss
              (m', e, Took-cons b xs ch (next_of-allocate total (a + b.size) (a + b.size) xs) t)
      ])

-- The heap at `first` holds the blocks `xs`, which fill `heap_size` bytes, with no two free ones
-- side by side.
pub record IsHeap (m : Memory) (first : ℕ) (xs : List Block) : Type 0 where
  pub live : 0 < first
  pub room : first + heap_size < 2 ^ 32
  pub fills : span xs ≡ heap_size
  pub chain : Chain m 0 0 first xs
  pub coalesced : Coalesced xs

pub length-le-span :
    (m : Memory) (stop p a : ℕ) (xs : List Block) → Chain m stop p a xs → 16 * length xs ≤ span xs
length-le-span m stop p a [] ch = omega arith
length-le-span m stop p a (b ∷ xs) ch =
    omega (arith, length-le-span m stop a (a + b.size) xs ch.2, ch.1)

-- The bytes that a request takes: a multiple of 4, with room for the header.
pub total_size_bounds :
    (size : ℕ)
    → size + 20 < 2 ^ 32
    → (size + 16 ≤ total_size size) × (total_size size ≤ size + 19) × (total_size size % 4 ≡ 0)
unfolding total_size
total_size_bounds size small = ground arith

pub next_of-nonempty : (xs : List Block) (a : ℕ) → 0 < span xs → next_of xs a 0 ≡ a
next_of-nonempty [] a h = elim h [ ]
next_of-nonempty (b ∷ xs) a h = refl

pub ==-zero : (n : ℕ) → 0 < n → (n == 0) ≡ false
==-zero n h = ground arith

-- A request within 40 bytes of 4 GB or less is answered by first fit, over the blocks that the pointers stand for.
pub kmalloc_refines :
    {m : Memory} {first : ℕ} {xs : List Block} (size : ℕ)
    → IsHeap m first xs
    → 0 < size
    → size + 40 < 2 ^ 32
    → (m' : Memory) × (kmalloc m first size
        ≡ some (payload (allocate (total_size size) first xs).0, m'))
      × IsHeap m' first (allocate (total_size size) first xs).1
unfolding kmalloc
kmalloc_refines {m} {first} {xs} size h pos small =
    let b = total_size_bounds size (omega arith) in
    let start : next_of xs first 0 ≡ first = next_of-nonempty xs first (omega (arith, h.fills)) in
    let (m', e, t) =
      kmalloc_loop-allocate m (heap_size / header_size + 2) (total_size size) 0 first xs
        (omega arith) (omega arith) h.live (omega (arith, h.room, h.fills))
        (omega (arith, h.fills, length-le-span m 0 0 first xs h.chain)) h.chain in
    rw (==-zero size pos) (
      m',
      ap (kmalloc_loop m (heap_size / header_size + 2) (total_size size)) (sym start) ∙ e,
      record {
        live = h.live;
        room = h.room;
        fills = span-allocate (total_size size) first xs ∙ h.fills;
        chain = t.chain;
        coalesced = allocate-Coalesced (total_size size) first xs h.coalesced;
      },
    )

-- For a request within 19 bytes of 4 GB the rounding wraps round: fewer bytes are set aside than a
-- header and 4 bytes take, and the code does not notice.
pub total_size_wraps : (size : ℕ) → 2 ^ 32 - 19 ≤ size → size < 2 ^ 32 → total_size size ≤ 16
unfolding total_size
total_size_wraps size lo hi = ground arith
