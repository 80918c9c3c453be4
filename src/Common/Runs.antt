-- ===== src/Common/Runs.antt =====
-- The front and the rest of a list.
use Prim.Native.Nat.{ℕ, zero, suc, ◌+◌, ◌-◌, ◌≤◌}
use mathlib.Core.Path.{◌≡◌, refl, sym, ap, ◌∙◌}
use mathlib.Core.List.{List, [], ◌∷◌, ◌++◌}
use native.Mathlib.Omega.{arith}
use peker_os.Common.Tests.{ltb, if◌then◌else◌}
use peker_os.Common.Lists.{length, take, drop}

module _ {ℓ} {A : Type ℓ} where
  pub take-drop : (n : ℕ) (xs : List A) → xs ≡ take n xs ++ drop n xs
  take-drop zero xs = refl
  take-drop (suc n) [] = refl
  take-drop (suc n) (x ∷ xs) = ap (λ ys. x ∷ ys) (take-drop n xs)

  pub length-take :
      (n : ℕ) (xs : List A) → length (take n xs) ≡ (if ltb n (length xs) then n else length xs)
  length-take zero [] = refl
  length-take zero (x ∷ xs) = ground arith
  length-take (suc n) [] = ground arith
  length-take (suc n) (x ∷ xs) = ground (arith, length-take n xs)

  pub length-drop : (n : ℕ) (xs : List A) → length (drop n xs) ≡ length xs - n
  length-drop zero xs = omega arith
  length-drop (suc n) [] = omega arith
  length-drop (suc n) (x ∷ xs) = omega (arith, length-drop n xs)

  pub take-all : (n : ℕ) (xs : List A) → length xs ≤ n → take n xs ≡ xs
  take-all zero [] le = refl
  take-all (suc n) [] le = refl
  take-all zero (x ∷ xs) le = absurd (omega (arith, le))
  take-all (suc n) (x ∷ xs) le = ap (λ bs. x ∷ bs) (take-all n xs (omega (arith, le)))

  pub take-take-drop :
      (m n : ℕ) (xs : List A) → m ≤ length xs → take m xs ++ take n (drop m xs) ≡ take (m + n) xs
  take-take-drop zero n xs le = ap (λ k. take k xs) {x = n} {y = 0 + n} (omega arith)
  take-take-drop (suc m) n [] le = absurd (omega (arith, le))
  take-take-drop (suc m) n (x ∷ xs) le =
      ap (λ ys. x ∷ ys) (take-take-drop m n xs (omega (arith, le)))
      ∙ ap (λ k. take k (x ∷ xs)) {x = suc (m + n)} {y = suc m + n} (omega arith)

  pub take-append :
      (m : ℕ) (xs ys : List A) → take m (xs ++ ys) ≡ take m xs ++ take (m - length xs) ys
  take-append zero [] ys = refl
  take-append (suc m) [] ys = ap (λ k. take k ys) {x = suc m} {y = suc m - 0} (omega arith)
  take-append zero (x ∷ xs) ys = ap (λ k. take k ys) {x = 0} {y = 0 - suc (length xs)} (omega arith)
  take-append (suc m) (x ∷ xs) ys =
      ap (λ zs. x ∷ zs) (take-append m xs ys)
      ∙ ap (λ k. x ∷ (take m xs ++ take k ys)) {x = m - length xs} {y = suc m - suc (length xs)}
          (omega arith)

  pub take-take : (m n : ℕ) (xs : List A) → m ≤ n → take m (take n xs) ≡ take m xs
  take-take zero n xs le = refl
  take-take (suc m) zero xs le = absurd (omega (arith, le))
  take-take (suc m) (suc n) [] le = refl
  take-take (suc m) (suc n) (x ∷ xs) le = ap (λ zs. x ∷ zs) (take-take m n xs (omega (arith, le)))

  pub drop-nil : (m : ℕ) → drop {A = A} m [] ≡ []
  drop-nil zero = refl
  drop-nil (suc m) = refl

  pub drop-all : (m : ℕ) (xs : List A) → length xs ≤ m → drop m xs ≡ []
  drop-all m [] le = drop-nil m
  drop-all zero (x ∷ xs) le = absurd (omega (arith, le))
  drop-all (suc m) (x ∷ xs) le = drop-all m xs (omega (arith, le))

  pub drop-append :
      (m : ℕ) (xs ys : List A) → drop m (xs ++ ys) ≡ drop m xs ++ drop (m - length xs) ys
  drop-append zero [] ys = refl
  drop-append (suc m) [] ys = ap (λ k. drop k ys) {x = suc m} {y = suc m - 0} (omega arith)
  drop-append zero (x ∷ xs) ys =
      ap (λ k. x ∷ (xs ++ drop k ys)) {x = 0} {y = 0 - suc (length xs)} (omega arith)
  drop-append (suc m) (x ∷ xs) ys =
      drop-append m xs ys
      ∙ ap (λ k. drop m xs ++ drop k ys) {x = m - length xs} {y = suc m - suc (length xs)}
          (omega arith)

  pub drop-drop : (m n : ℕ) (xs : List A) → drop n (drop m xs) ≡ drop (m + n) xs
  drop-drop zero n xs = ap (λ k. drop k xs) {x = n} {y = 0 + n} (omega arith)
  drop-drop (suc m) n [] =
      drop-nil n ∙ ap (λ k. drop {A = A} k []) {x = suc (m + n)} {y = suc m + n} (omega arith)
  drop-drop (suc m) n (x ∷ xs) =
      drop-drop m n xs ∙ ap (λ k. drop k (x ∷ xs)) {x = suc (m + n)} {y = suc m + n} (omega arith)

  pub drop-take : (m n : ℕ) (xs : List A) → drop m (take (m + n) xs) ≡ take n (drop m xs)
  drop-take zero n xs = ap (λ k. take k xs) {x = 0 + n} {y = n} (omega arith)
  drop-take (suc m) n [] =
      ap (λ k. drop (suc m) (take {A = A} k [])) {x = suc m + n} {y = suc (m + n)} (omega arith)
      ∙ sym (take-all n [] (omega arith))
  drop-take (suc m) n (x ∷ xs) =
      ap (λ k. drop (suc m) (take k (x ∷ xs))) {x = suc m + n} {y = suc (m + n)} (omega arith)
      ∙ drop-take m n xs
