-- ===== src/Kheap/Live.antt =====
-- The blocks in use of kernel/mm/kheap.c, before and after an allocation and a release.
use peker_os.Common.{
  ℕ, ◌+◌, ◌-◌, ◌≤◌, ◌<◌, ◌≡◌, refl, ap, ◌∙◌, true, false, arith, inl, inr, ltb, ltb→lt, Bool-cases,
  if◌then◌else◌, List, [], ◌∷◌, ◌++◌,
}
use peker_os.Kheap.Blocks.{
  Block, block, span, used, cut, fitting, allocate, join_right, join_left, give_back, NoFit,
}

-- How the list of blocks in use changes when `total` bytes are asked for.
pub data AddsBlock (total at : ℕ) (xs : List Block) (before after : List (ℕ × ℕ)) : Type 0 where
  adds :
      (pre post : List (ℕ × ℕ)) (n : ℕ)
      → 0 < at
      → total ≤ n
      → before ≡ pre ++ post
      → after ≡ pre ++ ((at, n) ∷ post)
      → AddsBlock total at xs before after
  full : at ≡ 0 → NoFit total xs → after ≡ before → AddsBlock total at xs before after

AddsBlock-cons :
    {total at : ℕ} {xs : List Block} {before after : List (ℕ × ℕ)} (b : Block) (a : ℕ)
    → fitting total b ≡ false
    → AddsBlock total at xs before after
    → AddsBlock total at
        (b ∷ xs)
        (if b.free then before else (a, b.size) ∷ before)
        (if b.free then after else (a, b.size) ∷ after)
AddsBlock-cons b a miss (full z nofit e) = full z (miss, nofit) (rw e)
AddsBlock-cons b a miss (adds pre post n pos le e e') = elim (Bool-cases b.free) [
  | inl free ↦ rw free (adds pre post n pos le e e')
  | inr live ↦ rw live (adds ((a, b.size) ∷ pre) post n pos le (rw e) (rw e'))
]

used-cut :
    (total a : ℕ) (b : Block) (xs : List Block)
    → 0 < a
    → fitting total b ≡ true
    → AddsBlock total a (b ∷ xs) (used a (b ∷ xs)) (used a (cut total b xs))
used-cut total a b xs pos fit = elim (Bool-cases (ltb (total + 20) b.size)) [
  | inl large ↦
      let e : a + total + (b.size - total) ≡ a + b.size =
        omega (arith, ltb→lt (total + 20) b.size large) in
      adds [] (used (a + b.size) xs) total pos (omega arith) (ground arith) (rw (large, e))
  | inr small ↦ adds [] (used (a + b.size) xs) b.size pos (ground arith) (ground arith) (rw small)
]

-- First fit adds one block in use, of at least the size asked for, and no other block in use changes;
-- it adds none only if no free block is large enough.
pub used-allocate :
    (total a : ℕ) (xs : List Block)
    → 0 < a
    → AddsBlock total (allocate total a xs).0 xs (used a xs) (used a (allocate total a xs).1)
used-allocate total a [] pos = full refl tt refl
used-allocate total a (b ∷ xs) pos = elim (Bool-cases (fitting total b)) [
  | inl fit ↦ rw fit (used-cut total a b xs pos fit)
  | inr miss ↦ rw miss (AddsBlock-cons b a miss (used-allocate total (a + b.size) xs (omega arith)))
]

used-join_right : (a n : ℕ) (xs : List Block) → used a (join_right n xs) ≡ used (a + n) xs
used-join_right a n [] = refl
used-join_right a n (c ∷ xs) = elim (Bool-cases c.free) [
  | inl free ↦ rw free (ap (λ k. used k xs) (omega arith))
  | inr live ↦ simp live
]

pub join_right-cons :
    (n : ℕ) (xs : List Block) → (m : ℕ) × (ys : List Block) × (join_right n xs ≡ block m true ∷ ys)
join_right-cons n [] = (n, [], refl)
join_right-cons n (c ∷ xs) = elim (Bool-cases c.free) [
  | inl free ↦ (n + c.size, xs, rw free)
  | inr live ↦ (n, c ∷ xs, rw live)
]

used-join_left :
    (a : ℕ) (l : Block) (m : ℕ) (ys : List Block)
    → used a (join_left l (block m true ∷ ys)) ≡ used a (l ∷ block m true ∷ ys)
used-join_left a l m ys = elim (Bool-cases l.free) [
  | inl free ↦ rw free (ap (λ k. used k ys) (omega arith))
  | inr live ↦ simp live
]

used-give_back :
    (a : ℕ) (pre : List Block) (m : ℕ) (ys : List Block)
    → used a (give_back pre (block m true ∷ ys)) ≡ used a (pre ++ (block m true ∷ ys))
used-give_back a [] m ys = refl
used-give_back a (l ∷ []) m ys = used-join_left a l m ys
used-give_back a (l ∷ k ∷ pre) m ys = simp (used-give_back (a + l.size) (k ∷ pre) m ys)

used-append : (a : ℕ) (xs ys : List Block) → used a (xs ++ ys) ≡ used a xs ++ used (a + span xs) ys
used-append a [] ys = ap (λ k. used k ys) (omega arith)
used-append a (b ∷ xs) ys =
    let e : a + b.size + span xs ≡ a + (b.size + span xs) = omega arith in
    elim (Bool-cases b.free) [
      | inl free ↦ simp (free, used-append (a + b.size) xs ys, e)
      | inr live ↦ simp (live, used-append (a + b.size) xs ys, e)
    ]

used-give_back_free :
    (a : ℕ) (pre js : List Block) {m : ℕ} {ys : List Block}
    → js ≡ block m true ∷ ys
    → used a (give_back pre js) ≡ used a pre ++ used (a + span pre) js
used-give_back_free a pre js {m} {ys} e =
    rw e (used-give_back a pre m ys ∙ used-append a pre (block m true ∷ ys))

-- A release takes its block off the blocks in use, and changes no other.
pub used-release :
    (a n : ℕ) (pre post : List Block)
    → used a (give_back pre (join_right n post)) ≡ used a pre ++ used (a + span pre + n) post
used-release a n pre post =
    let (m, ys, e) = join_right-cons n post in
    used-give_back_free a pre (join_right n post) e
    ∙ ap (λ l. used a pre ++ l) (used-join_right (a + span pre) n post)

-- The blocks in use before it.
pub used_before :
    (a n : ℕ) (pre post : List Block)
    → used a (pre ++ (block n false ∷ post))
      ≡ used a pre ++ ((a + span pre, n) ∷ used (a + span pre + n) post)
used_before a n pre post = used-append a pre (block n false ∷ post)
