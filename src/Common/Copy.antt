-- ===== src/Common/Copy.antt =====
-- Runs of bytes copied into memory and out of it.
use Prim.Native.Nat.{ℕ, zero, suc, ◌+◌, ◌≤◌, ◌<◌}
use mathlib.Core.Path.{◌≡◌, refl, sym, ap, ◌∙◌}
use mathlib.Core.Logic.{◌⊎◌, inl, inr}
use mathlib.Core.List.{List, [], ◌∷◌, ◌++◌, append_assoc}
use mathlib.Core.Option.{none, some}
use native.Mathlib.Omega.{arith}
use peker_os.Common.Lists.{length, take, drop, get_elem?, length-append}
use peker_os.Common.Bytes.{Bytes, store}

unfoldable pub copy_to : Bytes → ℕ → List ℕ → Bytes
copy_to m a [] = m
copy_to m a (c ∷ cs) = copy_to (store m a c) (a + 1) cs

unfoldable pub copy_from : Bytes → ℕ → ℕ → List ℕ
copy_from m a zero = []
copy_from m a (suc n) = m a ∷ copy_from m (a + 1) n

pub copy_to-other :
    (m : Bytes) (a : ℕ) (xs : List ℕ) (i : ℕ)
    → (i < a) ⊎ (a + length xs ≤ i)
    → copy_to m a xs i ≡ m i
unfolding copy_to
copy_to-other m a [] i out = refl
copy_to-other m a (c ∷ cs) i (inl before) =
    copy_to-other (store m a c) (a + 1) cs i (inl (omega arith)) ∙ ground arith
copy_to-other m a (c ∷ cs) i (inr behind) =
    copy_to-other (store m a c) (a + 1) cs i (inr (omega arith)) ∙ ground arith

pub length-copy_from : (m : Bytes) (a n : ℕ) → length (copy_from m a n) ≡ n
unfolding copy_from
length-copy_from m a zero = refl
length-copy_from m a (suc n) = ap suc (length-copy_from m (a + 1) n)

-- What is copied out is what was copied in.
pub copy_from-copy_to :
    (m : Bytes) (a : ℕ) (xs : List ℕ) → copy_from (copy_to m a xs) a (length xs) ≡ xs
unfolding copy_from copy_to
copy_from-copy_to m a [] = refl
copy_from-copy_to m a (c ∷ cs) =
    let first : copy_to (store m a c) (a + 1) cs a ≡ c =
      copy_to-other (store m a c) (a + 1) cs a (inl (omega arith)) ∙ ground arith in
    ground (arith, first, copy_from-copy_to (store m a c) (a + 1) cs)

pub take-copy_from : (d : Bytes) (a m n : ℕ) → m ≤ n → take m (copy_from d a n) ≡ copy_from d a m
unfolding copy_from
take-copy_from d a zero n le = refl
take-copy_from d a (suc m) zero le = absurd (omega arith)
take-copy_from d a (suc m) (suc n) le =
    ap (λ xs. d a ∷ xs) (take-copy_from d (a + 1) m n (omega arith))

pub drop-copy_from :
    (d : Bytes) (a m n : ℕ) → drop m (copy_from d a (m + n)) ≡ copy_from d (a + m) n
unfolding copy_from
drop-copy_from d a zero n =
    ap (λ k. copy_from d a k) {x = 0 + n} {y = n} (omega arith)
    ∙ ap (λ b. copy_from d b n) {x = a} {y = a + 0} (omega arith)
drop-copy_from d a (suc m) n =
    ap (λ k. drop (suc m) (copy_from d a k)) {x = suc m + n} {y = suc (m + n)} (omega arith)
    ∙ drop-copy_from d (a + 1) m n
    ∙ ap (λ b. copy_from d b n) {x = a + 1 + m} {y = a + suc m} (omega arith)

-- The bytes of a list in memory; what lies behind them does not matter.
abbrev pub memory : List ℕ → Bytes
memory bytes i = elim (get_elem? bytes i) [ none ↦ 0 | some b ↦ b ]

pub memory-here :
    (front : List ℕ) (b : ℕ) (bs : List ℕ) → memory (front ++ (b ∷ bs)) (length front) ≡ b
memory-here [] b bs = refl
memory-here (x ∷ front) b bs = memory-here front b bs

pub copy_from-memory :
    (front bs : List ℕ) (i : ℕ)
    → i ≡ length front
    → copy_from (memory (front ++ bs)) i (length bs) ≡ bs
unfolding copy_from
copy_from-memory front [] i e = refl
copy_from-memory front (b ∷ bs) i e =
    let here : memory (front ++ (b ∷ bs)) i ≡ b =
      ap (memory (front ++ (b ∷ bs))) e ∙ memory-here front b bs in
    let there : copy_from (memory (front ++ (b ∷ bs))) (i + 1) (length bs) ≡ bs =
      ap (λ m. copy_from (memory m) (i + 1) (length bs)) (sym (append_assoc front (b ∷ []) bs))
      ∙ copy_from-memory (front ++ (b ∷ [])) bs (i + 1)
          (omega (arith, e, length-append front (b ∷ []))) in
    ground (arith, here, there)
