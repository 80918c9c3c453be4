-- ===== src/Common/Loops.antt =====
-- Counted loops.
use Prim.Native.Nat.{ℕ, zero, suc, ◌+◌, ◌≤◌, ◌<◌}
use mathlib.Core.Path.{◌≡◌}
use native.Mathlib.Omega.{arith}

module _ {ℓ} {S : Type ℓ} (body : ℕ → S → S) where
  -- The body at `first`, `first + 1` and so on, as often as the count says.
  pub count_up : ℕ → ℕ → S → S
  count_up first zero s = s
  count_up first (suc rounds) s = count_up (first + 1) rounds (body first s)

-- What each round within the bounds keeps holds at the last index.
pub count_up-keeps {ℓ κ} :
    {S : Type ℓ} (Inv : ℕ → S → Type κ) {body : ℕ → S → S} (first rounds last : ℕ)
    → first + rounds ≡ last
    → ((i : ℕ) (t : S) → first ≤ i → i < last → Inv i t → Inv (i + 1) (body i t))
    → {s : S} → Inv first s
    → Inv last (count_up body first rounds s)
unfolding count_up
count_up-keeps Inv first zero last ends round begin =
    let none_left : first ≡ last = omega arith in rw (← none_left) begin
count_up-keeps Inv first (suc rounds) last ends round begin =
    count_up-keeps Inv (first + 1) rounds last (omega arith)
      (λ i t from to now. round i t (omega arith) to now)
      (round first _ (omega arith) (omega arith) begin)
