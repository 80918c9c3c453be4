-- ===== src/Keyboard.antt =====
-- kernel/drivers/keyboard.c: the ring of characters and the handler of the keyboard's interrupt. What
-- the handler reads from the port is an argument, and the characters for the shell are a result.
mod Ring
mod Handler
mod Tests
use peker_os.Common.{
  ℕ, ◌+◌, ◌%◌, Bool, true, false, not, ◌&&◌, ◌||◌, ◌==◌, ltb, if◌then◌else◌, Option, none, some,
  List, [], ◌∷◌, length, get_elem?,
}
use peker_os.Common.Bytes.{bit, store}

-- The static variables of the file.
pub record Keyboard : Type 0 where
  pub shift_pressed : Bool
  pub kbd_buffer : ℕ → ℕ
  pub kbd_buf_head : ℕ
  pub kbd_buf_tail : ℕ

-- With the shell's flag: the state after, and the character that the shell is given.
pub keyboard_put : Keyboard → Bool → ℕ → Keyboard × Option ℕ
keyboard_put k shell_active c = if shell_active then (k, some c) else (
  record k {
    kbd_buffer = store k.kbd_buffer k.kbd_buf_head c;
    kbd_buf_head = (k.kbd_buf_head + 1) % 256;
  },
  none,
)

pub keyboard_get : Keyboard → ℕ × Keyboard
keyboard_get k =
    if k.kbd_buf_head == k.kbd_buf_tail
    then (0, k)
    else (k.kbd_buffer k.kbd_buf_tail, record k { kbd_buf_tail = (k.kbd_buf_tail + 1) % 256 })

abbrev pub scancode_normal : List ℕ
scancode_normal =
    0 ∷ 27 ∷ 49 ∷ 50 ∷ 51 ∷ 52 ∷ 53 ∷ 54 ∷ 55 ∷ 56 ∷ 57 ∷ 48 ∷ 42 ∷ 45 ∷ 8 ∷ 9 ∷ 113 ∷ 119 ∷ 101
    ∷ 114 ∷ 116 ∷ 121 ∷ 117 ∷ 105 ∷ 111 ∷ 112 ∷ 103 ∷ 129 ∷ 10 ∷ 0 ∷ 97 ∷ 115 ∷ 100 ∷ 102 ∷ 103
    ∷ 104 ∷ 106 ∷ 107 ∷ 108 ∷ 115 ∷ 105 ∷ 34 ∷ 0 ∷ 44 ∷ 122 ∷ 120 ∷ 99 ∷ 118 ∷ 98 ∷ 110 ∷ 109 ∷ 148
    ∷ 135 ∷ 46 ∷ 0 ∷ 42 ∷ 0 ∷ 32 ∷ 0 ∷ 0 ∷ 0 ∷ 0 ∷ 0 ∷ 0 ∷ 0 ∷ 0 ∷ 0 ∷ 0 ∷ 0 ∷ 0 ∷ 0 ∷ 0 ∷ 0 ∷ 0 ∷ 0
    ∷ 0 ∷ 0 ∷ 0 ∷ 0 ∷ 0 ∷ 0 ∷ 0 ∷ 0 ∷ 0 ∷ 0 ∷ 0 ∷ 0 ∷ 0 ∷ 0 ∷ 0 ∷ 0 ∷ 0 ∷ 0 ∷ 0 ∷ 0 ∷ 0 ∷ 0 ∷ 0 ∷ 0
    ∷ 0 ∷ 0 ∷ 0 ∷ 0 ∷ 0 ∷ 0 ∷ 0 ∷ 0 ∷ 0 ∷ 0 ∷ 0 ∷ 0 ∷ 0 ∷ 0 ∷ 0 ∷ 0 ∷ 0 ∷ 0 ∷ 0 ∷ 0 ∷ 0 ∷ 0 ∷ 0 ∷ 0
    ∷ 0 ∷ 0 ∷ 0 ∷ 0 ∷ 0 ∷ 0 ∷ []

abbrev pub scancode_shift : List ℕ
scancode_shift =
    0 ∷ 27 ∷ 33 ∷ 39 ∷ 94 ∷ 43 ∷ 37 ∷ 38 ∷ 47 ∷ 40 ∷ 41 ∷ 61 ∷ 63 ∷ 95 ∷ 8 ∷ 9 ∷ 81 ∷ 87 ∷ 69 ∷ 82
    ∷ 84 ∷ 89 ∷ 85 ∷ 73 ∷ 79 ∷ 80 ∷ 71 ∷ 154 ∷ 10 ∷ 0 ∷ 65 ∷ 83 ∷ 68 ∷ 70 ∷ 71 ∷ 72 ∷ 74 ∷ 75 ∷ 76
    ∷ 83 ∷ 73 ∷ 39 ∷ 0 ∷ 59 ∷ 90 ∷ 88 ∷ 67 ∷ 86 ∷ 66 ∷ 78 ∷ 77 ∷ 153 ∷ 128 ∷ 58 ∷ 0 ∷ 42 ∷ 0 ∷ 32
    ∷ 0 ∷ 0 ∷ 0 ∷ 0 ∷ 0 ∷ 0 ∷ 0 ∷ 0 ∷ 0 ∷ 0 ∷ 0 ∷ 0 ∷ 0 ∷ 0 ∷ 0 ∷ 0 ∷ 0 ∷ 0 ∷ 0 ∷ 0 ∷ 0 ∷ 0 ∷ 0 ∷ 0
    ∷ 0 ∷ 0 ∷ 0 ∷ 0 ∷ 0 ∷ 0 ∷ 0 ∷ 0 ∷ 0 ∷ 0 ∷ 0 ∷ 0 ∷ 0 ∷ 0 ∷ 0 ∷ 0 ∷ 0 ∷ 0 ∷ 0 ∷ 0 ∷ 0 ∷ 0 ∷ 0 ∷ 0
    ∷ 0 ∷ 0 ∷ 0 ∷ 0 ∷ 0 ∷ 0 ∷ 0 ∷ 0 ∷ 0 ∷ 0 ∷ 0 ∷ 0 ∷ 0 ∷ 0 ∷ 0 ∷ 0 ∷ 0 ∷ 0 ∷ 0 ∷ 0 ∷ 0 ∷ 0 ∷ 0 ∷ []

-- The table's character, which is put unless it is 0; a read out of the table is `none`.
pub put_key : Keyboard → Bool → Option ℕ → Option (Keyboard × Option ℕ)
put_key k shell_active none = none
put_key k shell_active (some c) =
    if c == 0 then some (k, none) else some (keyboard_put k shell_active c)

-- The scan codes of the shift keys, of their release, and of the arrows.
pub keyboard_handler : Keyboard → Bool → ℕ → Option (Keyboard × Option ℕ)
keyboard_handler k shell_active scancode =
    if (scancode == 0x2A) || (scancode == 0x36)
    then some (record k { shift_pressed = true }, none)
    else if (scancode == 0xAA) || (scancode == 0xB6)
    then some (record k { shift_pressed = false }, none)
    else if bit scancode 7
    then some (k, none)
    else if scancode == 0x48
    then some (k, some 0x11)
    else if scancode == 0x50
    then some (k, some 0x12)
    else if not (ltb scancode (length scancode_normal))
    then some (k, none)
    else put_key k shell_active
        (get_elem? (if k.shift_pressed then scancode_shift else scancode_normal) scancode)
