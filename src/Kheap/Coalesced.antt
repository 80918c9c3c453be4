-- ===== src/Kheap/Coalesced.antt =====
-- No two free blocks of kernel/mm/kheap.c lie side by side, before and after each operation.
use peker_os.Common.{
  ℕ, ◌+◌, ◌≡◌, refl, true, false, arith, inl, inr, ltb, Bool-cases, List, [], ◌∷◌, ◌++◌,
}
use peker_os.Kheap.Blocks.{
  Block, block, fitting, allocate, join_right, join_left, give_back, head_free, Coalesced,
}

head_free-allocate :
    (total a : ℕ) (xs : List Block)
    → head_free xs ≡ false
    → head_free (allocate total a xs).1 ≡ false
head_free-allocate total a [] h = refl
head_free-allocate total a (b ∷ xs) h = ground (arith, h)

-- First fit leaves no two free blocks side by side.
pub allocate-Coalesced :
    (total a : ℕ) (xs : List Block) → Coalesced xs → Coalesced (allocate total a xs).1
allocate-Coalesced total a [] c = tt
allocate-Coalesced total a (b ∷ xs) c = elim (Bool-cases (fitting total b)) [
  | inl fit ↦ rw fit (elim (Bool-cases (ltb (total + 20) b.size)) [
    | inl large ↦ rw large (refl, (ground arith, c.1))
    | inr small ↦ rw small (refl, c.1)
  ])
  | inr miss ↦ rw miss (elim (Bool-cases b.free) [
    | inl free ↦ (
      ground (arith, head_free-allocate total (a + b.size) xs),
      allocate-Coalesced total (a + b.size) xs c.1,
    )
    | inr live ↦ (ground arith, allocate-Coalesced total (a + b.size) xs c.1)
  ])
]

join_right-Coalesced : (n : ℕ) (xs : List Block) → Coalesced xs → Coalesced (join_right n xs)
join_right-Coalesced n [] c = (refl, tt)
join_right-Coalesced n (d ∷ xs) c = elim (Bool-cases d.free) [
  | inl free ↦ rw free (ground (arith, c.0), c.1)
  | inr live ↦ simp live (refl, (ground (arith, c.0), c.1))
]

join_left-Coalesced :
    (l : Block) (ys : List Block) → Coalesced ys → head_free ys ≡ true → Coalesced (join_left l ys)
join_left-Coalesced l [] c h = absurd (ground arith)
join_left-Coalesced l (d ∷ ys) c h = elim (Bool-cases l.free) [
  | inl free ↦ rw free (ground (arith, c.0), c.1)
  | inr live ↦ rw live (ground arith, c)
]

-- What stands in front of a block in use.
head_free-give_back :
    (k : Block) (pre ys : List Block) → k.free ≡ false → head_free (give_back (k ∷ pre) ys) ≡ false
head_free-give_back k [] [] h = h
head_free-give_back k [] (c ∷ ys) h = ground arith
head_free-give_back k (l ∷ pre) ys h = h

give_back-Coalesced :
    (pre : List Block) (n : ℕ) (post ys : List Block)
    → Coalesced (pre ++ (block n false ∷ post))
    → Coalesced ys
    → head_free ys ≡ true
    → Coalesced (give_back pre ys)
give_back-Coalesced [] n post ys c d h = d
give_back-Coalesced (l ∷ []) n post ys c d h = join_left-Coalesced l ys d h
give_back-Coalesced (l ∷ k ∷ pre) n post ys c d h = (
  elim (Bool-cases k.free) [
    | inl free ↦ ground (arith, c.0)
    | inr live ↦ ground (arith, head_free-give_back k pre ys live)
  ],
  give_back-Coalesced (k ∷ pre) n post ys c.1 d h,
)

Coalesced-drop : (pre ys : List Block) → Coalesced (pre ++ ys) → Coalesced ys
Coalesced-drop [] ys c = c
Coalesced-drop (b ∷ pre) ys c = Coalesced-drop pre ys c.1

head_free-join_right : (n : ℕ) (xs : List Block) → head_free (join_right n xs) ≡ true
head_free-join_right n [] = refl
head_free-join_right n (d ∷ xs) = ground arith

-- A release leaves no two free blocks side by side: a free neighbour is merged.
pub release-Coalesced :
    (pre : List Block) (n : ℕ) (post : List Block)
    → Coalesced (pre ++ (block n false ∷ post))
    → Coalesced (give_back pre (join_right n post))
release-Coalesced pre n post c =
    give_back-Coalesced pre n post (join_right n post) c
      (join_right-Coalesced n post (Coalesced-drop pre (block n false ∷ post) c).1)
      (head_free-join_right n post)
