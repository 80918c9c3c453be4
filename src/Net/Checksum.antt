-- ===== src/Net/Checksum.antt =====
-- The checksum of kernel/net/net.c: it fits into 16 bits, and a receiver who adds it in finds zero.
use peker_os.Common.{
  ℕ, zero, suc, ◌+◌, ◌-◌, ◌*◌, ◌/◌, ◌%◌, ◌^◌, ◌≤◌, ◌<◌, ◌≡◌, refl, ap, ◌∙◌, ◌⊎◌, arith, inl, inr,
  List, [], ◌∷◌, ◌++◌, length, length-append,
}
use native.Mathlib.Decide.{dec_lt}
use peker_os.Net.{sum_words, fold_carries, finish_checksum, calculate_checksum, store16}

-- Every element is a byte.
abbrev pub AllBytes : List ℕ → Type 0
AllBytes [] = Unit
AllBytes (x ∷ xs) = (x < 256) × AllBytes xs

-- The sum of the words, without a bound.
abbrev pub total : List ℕ → ℕ
total [] = 0
total (a ∷ []) = a
total (a ∷ b ∷ rest) = a + 256 * b + total rest

sum_words-total :
    (sum : ℕ) (xs : List ℕ)
    → AllBytes xs
    → sum + 65536 * length xs < 2 ^ 32
    → sum_words sum xs ≡ sum + total xs
unfolding sum_words
sum_words-total sum [] all small = omega arith
sum_words-total sum (a ∷ []) (la, all) small = omega (arith, la)
sum_words-total sum (a ∷ b ∷ rest) (la, (lb, all)) small =
    let e : (sum + (a + 256 * b)) % 2 ^ 32 ≡ sum + (a + 256 * b) = omega (arith, la, lb) in
    let r = sum_words-total (sum + (a + 256 * b)) rest all (omega (arith, la, lb)) in
    ap (λ s. sum_words s rest) e ∙ r ∙ omega arith

fold_carries-small : (k sum : ℕ) → sum < 65536 → fold_carries k sum ≡ sum
unfolding fold_carries
fold_carries-small zero sum small = refl
fold_carries-small (suc k) sum small = ground arith

fold_carries-large :
    (k sum : ℕ)
    → 65536 ≤ sum
    → fold_carries (suc k) sum ≡ fold_carries k (sum % 65536 + sum / 65536)
unfolding fold_carries
fold_carries-large k sum large = ground arith

-- What a sum of 32 bits folds to: 16 bits, the same modulo 65535, and zero only for zero.
pub record Folds (sum folded : ℕ) : Type 0 where
  pub small : folded < 65536
  pub same : folded % 65535 ≡ sum % 65535
  pub zeros : (1 ≤ folded) ⊎ (sum ≡ 0)
  pub le : folded ≤ sum

Folds-carry : {sum r : ℕ} → sum < 2 ^ 32 → Folds (sum % 65536 + sum / 65536) r → Folds sum r
Folds-carry {sum} {r} bound f = record {
  small = f.small;
  same = omega (arith, f.same);
  zeros = elim f.zeros [ inl some_bit ↦ inl some_bit | inr none_left ↦ inr (omega arith) ];
  le = omega (arith, f.le);
}

Folds-small : (k : ℕ) {sum : ℕ} → sum < 65536 → Folds sum (fold_carries k sum)
Folds-small k {sum} small =
    let e = fold_carries-small k sum small in
    rw e (record {
      small = small;
      same = refl;
      zeros = elim (dec_lt 0 sum) [ yes lt ↦ inl lt | no ge ↦ inr (omega arith) ];
      le = omega arith;
    })

Folds-large :
    (k : ℕ) {sum : ℕ}
    → sum < 2 ^ 32
    → 65536 ≤ sum
    → Folds (sum % 65536 + sum / 65536) (fold_carries k (sum % 65536 + sum / 65536))
    → Folds sum (fold_carries (suc k) sum)
Folds-large k {sum} bound large f = rw (fold_carries-large k sum large) (Folds-carry bound f)

-- The fuel of the loop is enough.
pub fold_carries-Folds : (sum : ℕ) → sum < 2 ^ 32 → Folds sum (fold_carries 3 sum)
fold_carries-Folds sum bound = elim (dec_lt sum 65536) [
  | yes small ↦ Folds-small 3 small
  | no large ↦
      let n : ℕ = sum % 65536 + sum / 65536 in
      Folds-large 2 bound (omega arith) (elim (dec_lt n 65536) [
        | yes small ↦ Folds-small 2 small
        | no large' ↦ Folds-large 1 (omega arith) (omega arith) (Folds-small 1 (omega arith))
      ])
]

total-append : (k : ℕ) (xs ys : List ℕ) → length xs ≡ 2 * k → total (xs ++ ys) ≡ total xs + total ys
total-append k [] ys even = omega arith
total-append k (a ∷ []) ys even = absurd (omega (arith, even))
total-append k (a ∷ b ∷ rest) ys even =
    omega (arith, total-append (k - 1) rest ys (omega (arith, even)))

total-small : (xs : List ℕ) → AllBytes xs → total xs ≤ 65536 * length xs
total-small [] all = omega arith
total-small (a ∷ []) (la, all) = omega (arith, la)
total-small (a ∷ b ∷ rest) (la, (lb, all)) = omega (arith, la, lb, total-small rest all)

AllBytes-append : (xs ys : List ℕ) → AllBytes xs → AllBytes ys → AllBytes (xs ++ ys)
AllBytes-append [] ys ax ay = ay
AllBytes-append (x ∷ xs) ys (lx, ax) ay = (lx, AllBytes-append xs ys ax ay)

-- A checksum has 16 bits.
finish_checksum-small : (sum : ℕ) → finish_checksum sum < 65536
unfolding finish_checksum
finish_checksum-small sum = omega arith

-- With its checksum added, a sum folds to all ones, and the checksum of that is zero.
finish_checksum-adds :
    (sum : ℕ) → sum + 65536 < 2 ^ 32 → finish_checksum (sum + finish_checksum sum) ≡ 0
unfolding finish_checksum
finish_checksum-adds sum bound =
    let f = fold_carries-Folds sum (omega arith) in
    let c : ℕ = 65535 - fold_carries 3 sum % 65536 in
    let g = fold_carries-Folds (sum + c) (omega arith) in
    elim g.zeros [
      | inl some_bit ↦ omega (arith, f.small, f.same, f.le, g.small, g.same, some_bit)
      | inr none_left ↦ omega (arith, f.small, f.same, f.le, g.small, g.same, none_left)
    ]

-- The bytes of a packet with zeros in the place of the checksum, an even number of bytes in front of
-- it: with the bytes of `calculate_checksum` in that place the packet's checksum is zero, which is what
-- a receiver checks.
pub calculate_checksum-verifies :
    (k : ℕ) (front back : List ℕ)
    → length front ≡ 2 * k
    → AllBytes front
    → AllBytes back
    → length front + length back < 60000
    → calculate_checksum (front ++ (store16 (calculate_checksum (front ++ (0 ∷ 0 ∷ back))) ++ back))
      ≡ 0
unfolding calculate_checksum
calculate_checksum-verifies k front back even af ab small =
    let sum : ℕ = total front + total back in
    let blank : sum_words 0 (front ++ (0 ∷ 0 ∷ back)) ≡ sum =
      sum_words-total 0 (front ++ (0 ∷ 0 ∷ back))
        (AllBytes-append front (0 ∷ 0 ∷ back) af (omega arith, (omega arith, ab)))
        (omega (arith, length-append front (0 ∷ 0 ∷ back)))
      ∙ omega (arith, total-append k front (0 ∷ 0 ∷ back) even) in
    let c : ℕ = finish_checksum sum in
    let e : calculate_checksum (front ++ (0 ∷ 0 ∷ back)) ≡ c = ap finish_checksum blank in
    let filled : sum_words 0 (front ++ (store16 c ++ back)) ≡ sum + c =
      sum_words-total 0 (front ++ (store16 c ++ back))
        (AllBytes-append front (store16 c ++ back) af (omega arith, (omega arith, ab)))
        (omega (arith, length-append front (store16 c ++ back)))
      ∙ omega (arith, total-append k front (store16 c ++ back) even, finish_checksum-small sum) in
    ap (λ x. calculate_checksum (front ++ (store16 x ++ back))) e
    ∙ ap finish_checksum filled
    ∙ finish_checksum-adds sum (omega (arith, total-small front af, total-small back ab))
