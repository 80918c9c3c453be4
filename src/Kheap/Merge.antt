-- ===== src/Kheap/Merge.antt =====
-- The merges of `kfree` of kernel/mm/kheap.c with the free neighbours of a block.
use peker_os.Common.{
  ℕ, ◌+◌, ◌^◌, ◌≤◌, ◌<◌, ◌≡◌, refl, ◌∙◌, ◌≢◌, ◌⊎◌, true, false, not, ◌&&◌, arith, inl, inr, ◌==◌,
  Bool-cases, List, [], ◌∷◌, ◌++◌,
}
use peker_os.Kheap.{Memory, set_is_free, set_prev_if, merge_right, merge_left}
use peker_os.Kheap.Blocks.{Block, block, span, join_right, give_back}
use peker_os.Kheap.Chain.{
  header, next_of, next_of-bounds, Chain, Chain-frame, Chain-set_prev_if, set_prev_if-front, Took,
  Took-cons,
}

==-other : (m : Memory) (a c : ℕ) → c ≢ a → set_is_free m a true c ≡ m c
==-other m a c ne = ground arith

module _ (m : Memory) (a n nn p : ℕ) (c : Block) (here : m a ≡ header (block n true) (a + n) p)
    (there : m (a + n) ≡ header c nn a) (free : c.free ≡ true) (room : a + n + c.size < 2 ^ 32)
    (big : 16 ≤ n) (where_next : (nn ≡ 0) ⊎ (nn ≡ a + n + c.size)) (big' : 16 ≤ c.size) where
  merge_right-here : merge_right m a a ≡ header (block (n + c.size) true) nn p
  unfolding merge_right
  merge_right-here = ground (arith, here, there)

  merge_right-other : (d : ℕ) → d ≢ a → merge_right m a d ≡ set_prev_if m nn a d
  unfolding merge_right
  merge_right-other d ne = ground (arith, here, there)

module _ (m : Memory) (q t nn p k : ℕ) (l : Block) (here : m t ≡ header (block k true) nn q)
    (there : m q ≡ header l t p) (free : l.free ≡ true) (live : 0 < q) (apart : t ≡ q + l.size)
    (room : t + k < 2 ^ 32) (where_next : (nn ≡ 0) ⊎ (nn ≡ t + k)) (big : 16 ≤ l.size)
    (big' : 16 ≤ k) where
  merge_left-here : merge_left m t q ≡ header (block (l.size + k) true) nn p
  unfolding merge_left
  merge_left-here = ground (arith, here, there)

  merge_left-other : (d : ℕ) → d ≢ q → merge_left m t d ≡ set_prev_if m nn q d
  unfolding merge_left
  merge_left-other d ne = ground (arith, here, there)

-- The first block freed.
pub Took-freed :
    (m : Memory) (a n p : ℕ) (post : List Block)
    → 0 < a
    → Chain m 0 p a (block n false ∷ post)
    → Took m (set_is_free m a true) p a (block n true ∷ post)
Took-freed m a n p post live (e, big, ch) = record {
  chain = (
    ground (arith, e),
    big,
    Chain-frame 0 a (a + n) post (λ c lo hi. ==-other m a c (omega arith)) ch,
  );
  front = λ c lt. ==-other m a c (omega arith);
}

Took-same : {m : Memory} {p a : ℕ} {xs : List Block} → Chain m 0 p a xs → Took m m p a xs
Took-same ch = record { chain = ch; front = λ c lt. refl }

-- Merging to the right, with a free block and one in use.
Took-merge :
    (m : Memory) (a n p : ℕ) (c : Block) (ys : List Block)
    → 0 < a
    → a + n + (c.size + span ys) < 2 ^ 32
    → c.free ≡ true
    → Chain m 0 p a (block n true ∷ c ∷ ys)
    → Took m (merge_right m a) p a (block (n + c.size) true ∷ ys)
Took-merge m a n p c ys live room free ch =
    let nn = next_of ys (a + n + c.size) 0 in
    let bounds = next_of-bounds ys (a + n + c.size) in
    let other = merge_right-other m a n nn p c ch.0 ch.2.0 free (omega arith) ch.1 bounds ch.2.1 in
    let e : a + (n + c.size) ≡ a + n + c.size = omega arith in
    record {
      chain = (
        rw e (merge_right-here m a n nn p c ch.0 ch.2.0 free (omega arith) ch.1 bounds ch.2.1),
        omega (arith, ch.1),
        rw e (
            Chain-frame 0 a (a + n + c.size) ys (λ d lo hi. other d (omega (arith, ch.1)))
              (Chain-set_prev_if m (a + n) (a + n + c.size) a ys (omega arith) ch.2.2)),
      );
      front =
          λ d lt. other d (omega arith) ∙ set_prev_if-front m a d (a + n + c.size) ys (omega arith);
    }

no_merge :
    (m : Memory) (a n p : ℕ) (c : Block) (nn q : ℕ) (t : ℕ)
    → c.free ≡ false
    → m a ≡ header (block n true) t p
    → m t ≡ header c nn q
    → (not ((m a).next == 0) && (m (m a).next).is_free) ≡ false
no_merge m a n p c nn q t used e e' = rw e (rw e' (ground arith))

merge_right-used :
    (m : Memory) (a n p : ℕ) (c : Block) (ys : List Block)
    → c.free ≡ false
    → Chain m 0 p a (block n true ∷ c ∷ ys)
    → merge_right m a ≡ m
unfolding merge_right
merge_right-used m a n p c ys used ch = rw (no_merge m a n p c _ _ (a + n) used ch.0 ch.2.0)

pub Took-right :
    (m : Memory) (a n p : ℕ) (post : List Block)
    → 0 < a
    → a + n + span post < 2 ^ 32
    → Chain m 0 p a (block n true ∷ post)
    → Took m (merge_right m a) p a (join_right n post)
unfolding merge_right
Took-right m a n p [] live room ch = rw ch.0 (Took-same ch)
Took-right m a n p (c ∷ ys) live room ch = elim (Bool-cases c.free) [
  | inl free ↦ simp free (Took-merge m a n p c ys live room free ch)
  | inr used ↦ rw (merge_right-used m a n p c ys used ch) (simp used (Took-same ch))
]

no_merge_left :
    (m : Memory) (q p k : ℕ) (l : Block) (nn : ℕ)
    → l.free ≡ false
    → m q ≡ header l (q + l.size) p
    → m (q + l.size) ≡ header (block k true) nn q
    → (not ((m (q + l.size)).prev == 0) && (m (m (q + l.size)).prev).is_free) ≡ false
no_merge_left m q p k l nn used e e' = rw e' (rw e (ground arith))

-- Merging to the left with a free block in front.
Took-merge_left :
    (m : Memory) (q p k : ℕ) (l : Block) (ys : List Block)
    → 0 < q
    → q + l.size + k + span ys < 2 ^ 32
    → l.free ≡ true
    → Chain m 0 p q (l ∷ block k true ∷ ys)
    → Took m (merge_left m (q + l.size)) p q (block (l.size + k) true ∷ ys)
Took-merge_left m q p k l ys live room free ch =
    let t : ℕ = q + l.size in
    let nn = next_of ys (t + k) 0 in
    let bounds = next_of-bounds ys (t + k) in
    let other =
      merge_left-other m q t nn p k l ch.2.0 ch.0 free live refl (omega arith) bounds ch.1 ch.2.1 in
    let e : q + (l.size + k) ≡ t + k = omega arith in
    record {
      chain = (
        rw e (
            merge_left-here m q t nn p k l ch.2.0 ch.0 free live refl (omega arith) bounds ch.1
              ch.2.1),
        omega (arith, ch.1),
        rw e (
            Chain-frame 0 q (t + k) ys (λ d lo hi. other d (omega (arith, ch.1)))
              (Chain-set_prev_if m t (t + k) q ys (omega arith) ch.2.2)),
      );
      front = λ d lt. other d (omega arith) ∙ set_prev_if-front m q d (t + k) ys (omega arith);
    }

merge_left-used :
    (m : Memory) (q p k : ℕ) (l : Block) (ys : List Block)
    → l.free ≡ false
    → Chain m 0 p q (l ∷ block k true ∷ ys)
    → merge_left m (q + l.size) ≡ m
unfolding merge_left
merge_left-used m q p k l ys used ch = rw (no_merge_left m q p k l _ used ch.0 ch.2.0)

next_of-give_back :
    (l : Block) (pre : List Block) (k : ℕ) (ys : List Block) (a : ℕ)
    → next_of (give_back (l ∷ pre) (block k true ∷ ys)) a 0 ≡ a
next_of-give_back l [] k ys a = ground arith
next_of-give_back l (l' ∷ pre) k ys a = refl

pub next_of-join_right : (n : ℕ) (post : List Block) (c : ℕ) → next_of (join_right n post) c 0 ≡ c
next_of-join_right n [] c = refl
next_of-join_right n (d ∷ post) c = ground arith

-- Merging to the left, behind any blocks.
Took-left :
    (m : Memory) (p a t k : ℕ) (l : Block) (pre ys : List Block)
    → 0 < a
    → t ≡ a + span (l ∷ pre)
    → t + k + span ys < 2 ^ 32
    → Chain m 0 p a (l ∷ pre ++ (block k true ∷ ys))
    → Took m (merge_left m t) p a (give_back (l ∷ pre) (block k true ∷ ys))
Took-left m p a t k l [] ys live e room ch =
    let e' : t ≡ a + l.size = omega arith in
    rw e' (elim (Bool-cases l.free) [
      | inl free ↦ simp free (Took-merge_left m a p k l ys live (omega arith) free ch)
      | inr used ↦ rw (merge_left-used m a p k l ys used ch) (simp used (Took-same ch))
    ])
Took-left m p a t k l (l' ∷ pre) ys live e room ch =
    Took-cons l ((l' ∷ pre) ++ (block k true ∷ ys)) ch (next_of-give_back l' pre k ys (a + l.size))
      (Took-left m a (a + l.size) t k l' pre ys (omega arith) (omega arith) room ch.2)

merge_left-first :
    (m : Memory) (a k : ℕ) (ys : List Block)
    → Chain m 0 0 a (block k true ∷ ys)
    → merge_left m a ≡ m
unfolding merge_left
merge_left-first m a k ys ch = rw ch.0

-- Merging to the left a block that is the first or is not.
pub Took-give_back :
    (m : Memory) (a t k : ℕ) (pre ys : List Block)
    → 0 < a
    → t ≡ a + span pre
    → t + k + span ys < 2 ^ 32
    → Chain m 0 0 a (pre ++ (block k true ∷ ys))
    → Took m (merge_left m t) 0 a (give_back pre (block k true ∷ ys))
Took-give_back m a t k [] ys live e room ch =
    let e' : t ≡ a = omega arith in rw (e', merge_left-first m a k ys ch) (Took-same ch)
Took-give_back m a t k (l ∷ pre) ys live e room ch = Took-left m 0 a t k l pre ys live e room ch
