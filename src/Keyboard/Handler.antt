-- ===== src/Keyboard/Handler.antt =====
-- The handler of kernel/drivers/keyboard.c: it reads inside its tables, and types what they say.
use peker_os.Common.{
  ℕ, zero, suc, ◌<◌, ◌≡◌, refl, ap, ◌∙◌, Bool, true, false, not, ◌||◌, arith, inl, inr, ◌==◌, ltb,
  Bool-cases, if◌then◌else◌, Option, none, some, List, [], ◌∷◌, length, get_elem?,
}
use peker_os.Common.Bytes.{bit}
use peker_os.Keyboard.{
  Keyboard, scancode_normal, scancode_shift, put_key, keyboard_put, keyboard_handler,
}

get_elem?-some :
    {A : Type 0} (xs : List A) (i : ℕ) → i < length xs → (a : A) × (get_elem? xs i ≡ some a)
get_elem?-some [] i h = elim h [ ]
get_elem?-some (x ∷ xs) zero h = (x, refl)
get_elem?-some (x ∷ xs) (suc i) h = get_elem?-some xs i (omega arith)

put_key-some :
    (k : Keyboard) (shell_active : Bool) (c : ℕ)
    → (out : Keyboard × Option ℕ) × (put_key k shell_active (some c) ≡ some out)
unfolding put_key
put_key-some k shell_active c = elim (Bool-cases (c == 0)) [
  | inl nothing ↦ ((k, none), rw (nothing, put_key) refl)
  | inr typed ↦ (keyboard_put k shell_active c, rw (typed, put_key) refl)
]

-- The two tables are equally long, so the test with the length of one guards a read of the other.
table-some :
    (shift : Bool) (scancode : ℕ)
    → scancode < length scancode_normal
    → (c : ℕ) × (get_elem? (if shift then scancode_shift else scancode_normal) scancode ≡ some c)
table-some true scancode inside = get_elem?-some scancode_shift scancode inside
table-some false scancode inside = get_elem?-some scancode_normal scancode inside

-- There is a result.
abbrev pub Total : {A : Type 0} → Option A → Type 0
Total {A} o = (out : A) × (o ≡ some out)

branch :
    {A : Type 0} (b : Bool) (x y : Option A)
    → Total x
    → (b ≡ false → Total y)
    → Total (if b then x else y)
branch true x y first second = first
branch false x y first second = second refl

put_key-Total :
    (k : Keyboard) (shell_active : Bool) (o : Option ℕ) → Total o → Total (put_key k shell_active o)
put_key-Total k shell_active o (c, e) =
    let (out, e') = put_key-some k shell_active c in (out, ap (put_key k shell_active) e ∙ e')

-- Whatever the port gives and whatever the state is, the handler has a result: it reads no table out of
-- its bounds.
pub keyboard_handler-Total :
    (k : Keyboard) (shell_active : Bool) (scancode : ℕ)
    → Total (keyboard_handler k shell_active scancode)
unfolding keyboard_handler
keyboard_handler-Total k shell_active scancode =
    branch ((scancode == 0x2A) || (scancode == 0x36)) _ _ (_, refl)
      (λ e1.
        branch ((scancode == 0xAA) || (scancode == 0xB6)) _ _ (_, refl)
          (λ e2.
            branch (bit scancode 7) _ _ (_, refl)
              (λ e3.
                branch (scancode == 0x48) _ _ (_, refl)
                  (λ e4.
                    branch (scancode == 0x50) _ _ (_, refl)
                      (λ e5.
                        branch (not (ltb scancode (length scancode_normal))) _ _ (_, refl)
                          (λ e6.
                            put_key-Total k shell_active _
                              (table-some k.shift_pressed scancode (ground (arith, e6)))))))))
