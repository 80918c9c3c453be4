-- ===== src/Keyboard/Tests.antt =====
-- Runs of kernel/drivers/keyboard.c at concrete rings.
use peker_os.Common.{
  ℕ, zero, suc, ◌+◌, ◌%◌, ◌<◌, ◌≡◌, refl, sym, ap, false, arith, List, [], ◌∷◌, ◌++◌, length,
}
use mathlib.Core.Path.{subst}
use peker_os.Keyboard.{Keyboard, keyboard_put, keyboard_handler}
use peker_os.Keyboard.Ring.{
  Holds, Pending, keyboard_put-Holds, keyboard_put-loses, Gives, keyboard_get-Gives,
}
use peker_os.Keyboard.Handler.{Total, keyboard_handler-Total}

-- One character at the end of the memory.
abbrev one : Keyboard
one = record { shift_pressed = false; kbd_buffer = λ i. 97; kbd_buf_head = 0; kbd_buf_tail = 255 }

one-Holds : Holds one (97 ∷ [])
one-Holds = record { pending = (refl, omega arith, (refl, omega arith)); room = omega arith }

keyboard_put-Holds_example : Holds (keyboard_put one false 98).0 ((97 ∷ []) ++ (98 ∷ []))
keyboard_put-Holds_example = keyboard_put-Holds one (97 ∷ []) 98 one-Holds (omega arith)

keyboard_get-Gives_example : Gives one (97 ∷ [])
keyboard_get-Gives_example = keyboard_get-Gives one (97 ∷ []) one-Holds

keyboard_handler-Total_example : Total (keyboard_handler one false 0x1E)
keyboard_handler-Total_example = keyboard_handler-Total one false 0x1E

-- A ring in which 255 characters wait, all of them the same.
abbrev full : Keyboard
full = record { shift_pressed = false; kbd_buffer = λ i. 97; kbd_buf_head = 255; kbd_buf_tail = 0 }

abbrev repeated : ℕ → List ℕ
repeated zero = []
repeated (suc n) = 97 ∷ repeated n

repeated-Pending : (n t : ℕ) → t + n < 256 → Pending (λ i. 97) t (repeated n) (t + n)
repeated-Pending zero t small = (omega arith, omega arith)
repeated-Pending (suc n) t small =
    let next : (t + 1) % 256 ≡ t + 1 = omega arith in
    let sum : t + 1 + n ≡ t + suc n = omega arith in
    (
      refl,
      omega arith,
      subst (λ i. Pending (λ j. 97) i (repeated n) (t + suc n)) (sym next)
          (subst (Pending (λ j. 97) (t + 1) (repeated n)) sum
            (repeated-Pending n (t + 1) (omega arith))),
    )

length-repeated : (n : ℕ) → length (repeated n) ≡ n
length-repeated zero = refl
length-repeated (suc n) = ap suc (length-repeated n)

full-Holds : Holds full (repeated 255)
full-Holds = record {
  pending = repeated-Pending 255 0 (omega arith);
  room = omega (arith, length-repeated 255);
}

keyboard_put-loses_example : Holds (keyboard_put full false 98).0 []
keyboard_put-loses_example =
    keyboard_put-loses full (repeated 255) 98 full-Holds (length-repeated 255)
