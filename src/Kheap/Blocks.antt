-- ===== src/Kheap/Blocks.antt =====
-- The heap of kernel/mm/kheap.c without its pointers: the blocks in the order of their addresses.
use peker_os.Common.{
  ℕ, ◌+◌, ◌-◌, ◌≤◌, ◌≡◌, refl, Bool, true, false, ◌&&◌, arith, ltb, leb, if◌then◌else◌, List, [],
  ◌∷◌, ◌++◌,
}

pub record Block : Type 0 where
  pub size : ℕ
  pub free : Bool

abbrev pub block : ℕ → Bool → Block
block n b = record { size = n; free = b }

-- The bytes that the blocks take.
abbrev pub span : List Block → ℕ
span [] = 0
span (b ∷ xs) = b.size + span xs

-- The address and size of each block in use, where the first block is at `a`.
abbrev pub used : ℕ → List Block → List (ℕ × ℕ)
used a [] = []
used a (b ∷ xs) = if b.free then used (a + b.size) xs else (a, b.size) ∷ used (a + b.size) xs

-- A block taken: cut in two if it is much too large.
abbrev pub cut : ℕ → Block → List Block → List Block
cut total b xs =
    if ltb (total + 20) b.size
    then block total false ∷ block (b.size - total) true ∷ xs
    else block b.size false ∷ xs

abbrev pub fitting : ℕ → Block → Bool
fitting total b = b.free && leb total b.size

-- First fit: the address of the block that is taken, or 0.
abbrev pub allocate : ℕ → ℕ → List Block → ℕ × List Block
allocate total a [] = (0, [])
allocate total a (b ∷ xs) =
    let rest = allocate total (a + b.size) xs in
    if fitting total b then (a, cut total b xs) else (rest.0, b ∷ rest.1)

-- A block given back, with the blocks behind it.
abbrev pub join_right : ℕ → List Block → List Block
join_right n [] = block n true ∷ []
join_right n (c ∷ xs) = if c.free then block (n + c.size) true ∷ xs else block n true ∷ c ∷ xs

-- A block in front of one given back.
abbrev pub join_left : Block → List Block → List Block
join_left l [] = l ∷ []
join_left l (c ∷ xs) = if l.free then block (l.size + c.size) true ∷ xs else l ∷ c ∷ xs

-- The blocks in front of the one given back, and the blocks from it on.
abbrev pub give_back : List Block → List Block → List Block
give_back [] ys = ys
give_back (l ∷ []) ys = join_left l ys
give_back (l ∷ k ∷ pre) ys = l ∷ give_back (k ∷ pre) ys

-- No two free blocks lie side by side.
abbrev pub head_free : List Block → Bool
head_free [] = false
head_free (b ∷ xs) = b.free

abbrev pub Coalesced : List Block → Type 0
Coalesced [] = Unit
Coalesced (b ∷ xs) = ((b.free && head_free xs) ≡ false) × Coalesced xs

-- Each block has room for its header.
abbrev pub Sized : List Block → Type 0
Sized [] = Unit
Sized (b ∷ xs) = (16 ≤ b.size) × Sized xs

pub span-append : (xs ys : List Block) → span (xs ++ ys) ≡ span xs + span ys
span-append [] ys = omega arith
span-append (b ∷ xs) ys = omega (arith, span-append xs ys)

pub span-allocate : (total a : ℕ) (xs : List Block) → span (allocate total a xs).1 ≡ span xs
span-allocate total a [] = refl
span-allocate total a (b ∷ xs) = ground (arith, span-allocate total (a + b.size) xs)

-- No block is free and large enough.
abbrev pub NoFit : ℕ → List Block → Type 0
NoFit total [] = Unit
NoFit total (b ∷ xs) = (fitting total b ≡ false) × NoFit total xs
