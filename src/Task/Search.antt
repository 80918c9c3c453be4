-- ===== src/Task/Search.antt =====
-- The search of the scheduler of kernel/proc/task.c: which task it finds, and that it ends.
use peker_os.Common.{
  ℕ, zero, suc, ◌+◌, ◌≤◌, ◌<◌, ◌≡◌, refl, ap, ◌∙◌, ◌≢◌, Bool, true, false, not, arith, inl, inr,
  ◌==◌, Bool-cases, none, some, List, [], ◌∷◌, length, get_elem?,
}
use native.Mathlib.Decide.{dec_lt}
use peker_os.Task.{Task, is_dead, find_next}

abbrev pub alive : List Task → ℕ → Bool
alive ts i = elim (get_elem? ts i) [ none ↦ false | some t ↦ not (is_dead t.state) ]

abbrev pub AllDead : List Task → ℕ → ℕ → Type 0
AllDead ts lo hi = (g : ℕ) → lo ≤ g → g < hi → alive ts g ≡ false

-- `j` is the first living task from `from` on, going round at the end of the list.
pub data IsNext (ts : List Task) (from j : ℕ) : Type 0 where
  ahead : alive ts j ≡ true → from ≤ j → j < length ts → AllDead ts from j → IsNext ts from j
  round :
      alive ts j ≡ true
      → j < from
      → j < length ts
      → AllDead ts from (length ts)
      → AllDead ts 0 j
      → IsNext ts from j

pub get_elem?-some :
    {A : Type 0} (xs : List A) (i : ℕ) → i < length xs → (a : A) × (get_elem? xs i ≡ some a)
get_elem?-some [] i h = elim h [ ]
get_elem?-some (x ∷ xs) zero h = (x, refl)
get_elem?-some (x ∷ xs) (suc i) h = get_elem?-some xs i (omega arith)

pub alive-lt : (ts : List Task) (i : ℕ) → alive ts i ≡ true → i < length ts
alive-lt [] i live = absurd (ground arith)
alive-lt (t ∷ ts) zero live = omega arith
alive-lt (t ∷ ts) (suc i) live = omega (arith, alive-lt ts i live)

AllDead-cons :
    (ts : List Task) {lo hi : ℕ} → alive ts lo ≡ false → AllDead ts (lo + 1) hi → AllDead ts lo hi
AllDead-cons ts {lo} here rest g le lt = elim (Bool-cases (lo == g)) [
  | inl same ↦ ground (arith, here)
  | inr other ↦ rest g (ground arith) lt
]

module _ (ts : List Task) where
  find_next-alive : (k i : ℕ) → i < length ts → alive ts i ≡ true → find_next ts (suc k) i ≡ some i
  unfolding find_next
  find_next-alive k i inside live =
      let (t, e) = get_elem?-some ts i inside in ground (arith, e, inside)

  find_next-dead :
      (k i : ℕ)
      → i < length ts
      → alive ts i ≡ false
      → find_next ts (suc k) i ≡ find_next ts k (i + 1)
  unfolding find_next
  find_next-dead k i inside gone =
      let (t, e) = get_elem?-some ts i inside in ground (arith, e, inside)

  -- The null pointer behind the last task stands for the first task.
  find_next-wrap : (k : ℕ) → find_next ts k (length ts) ≡ find_next ts k 0
  unfolding find_next
  find_next-wrap zero = refl
  find_next-wrap (suc k) = ground arith

  -- A living task at `w` or in front of it is found.
  find_ahead :
      (k i w : ℕ)
      → i ≤ w
      → w < length ts
      → alive ts w ≡ true
      → w < i + k
      → (j : ℕ) × (find_next ts k i ≡ some j)
        × (alive ts j ≡ true)
        × (i ≤ j)
        × (j ≤ w)
        × AllDead ts i j
  find_ahead zero i w le inside live fuel = absurd (omega arith)
  find_ahead (suc k) i w le inside live fuel = elim (Bool-cases (alive ts i)) [
    | inl yes_here ↦ (
      i,
      find_next-alive k i (omega arith) yes_here,
      yes_here,
      omega arith,
      le,
      λ g lo hi. absurd (omega arith),
    )
    | inr gone ↦
        let later : i + 1 ≤ w = ground (arith, live, gone) in
        let (j, e, live', lo, hi, all) = find_ahead k (i + 1) w later inside live (omega arith) in
        (
          j,
          find_next-dead k i (omega arith) gone ∙ e,
          live',
          omega arith,
          hi,
          AllDead-cons ts gone all,
        )
  ]

  IsNext-step : (i j : ℕ) → alive ts i ≡ false → i < length ts → IsNext ts (i + 1) j → IsNext ts i j
  IsNext-step i j gone lt (ahead live from to all) =
      ahead live (omega arith) to (AllDead-cons ts gone all)
  IsNext-step i j gone lt (round live from to all all') =
      let other : i ≢ j = λ e. ground (arith, gone, live, ap (alive ts) e) in
      round live (omega (arith, other)) to (AllDead-cons ts gone all) all'

  -- A living task in front of `i` is found, round the end of the list if need be.
  find_round :
      (k i w : ℕ)
      → i ≤ length ts
      → w < i
      → alive ts w ≡ true
      → length ts + w < i + k
      → (j : ℕ) × (find_next ts k i ≡ some j) × IsNext ts i j
  find_round zero i w le before live fuel = absurd (omega arith)
  find_round (suc k) i w le before live fuel = elim (dec_lt i (length ts)) [
    | yes lt ↦ elim (Bool-cases (alive ts i)) [
      | inl here ↦ (
        i,
        find_next-alive k i lt here,
        ahead here (omega arith) lt (λ g lo hi. absurd (omega arith)),
      )
      | inr gone ↦
          let (j, e, next) =
            find_round k (i + 1) w (omega arith) (omega arith) live (omega arith) in
          (j, find_next-dead k i lt gone ∙ e, IsNext-step i j gone lt next)
    ]
    | no ge ↦
        let at_end : i ≡ length ts = omega arith in
        let (j, e, live', lo, hi, all) =
          find_ahead (suc k) 0 w (omega arith) (omega arith) live (omega arith) in
        (
          j,
          ap (find_next ts (suc k)) at_end ∙ find_next-wrap (suc k) ∙ e,
          round live' (omega arith) (omega arith) (λ g lo' hi'. absurd (omega arith)) all,
        )
  ]

  -- With a round of the list for fuel the search ends if any task is alive.
  pub find_next-IsNext :
      (i w : ℕ)
      → i ≤ length ts
      → w < length ts
      → alive ts w ≡ true
      → (j : ℕ) × (find_next ts (length ts + 1) i ≡ some j) × IsNext ts i j
  find_next-IsNext i w le inside live = elim (dec_lt w i) [
    | yes before ↦ find_round (length ts + 1) i w le before live (omega arith)
    | no from ↦
        let (j, e, live', lo, hi, all) =
          find_ahead (length ts + 1) i w (omega arith) inside live (omega arith) in
        (j, e, ahead live' lo (omega arith) all)
  ]
