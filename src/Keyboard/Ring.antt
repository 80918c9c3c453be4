-- ===== src/Keyboard/Ring.antt =====
-- The ring of characters of kernel/drivers/keyboard.c as a queue of at most 255.
use peker_os.Common.{
  ℕ, ◌+◌, ◌%◌, ◌<◌, ◌≡◌, refl, ap, ◌≢◌, true, false, arith, ◌==◌, List, [], ◌∷◌, ◌++◌, length,
  length-append,
}
use peker_os.Common.Bytes.{store}
use peker_os.Keyboard.{Keyboard, keyboard_put, keyboard_get}

-- From the place `tail` on the ring holds the characters up to the place `head`.
abbrev pub Pending : (ℕ → ℕ) → ℕ → List ℕ → ℕ → Type 0
Pending b tail [] head = (tail ≡ head) × (tail < 256)
Pending b tail (c ∷ q) head = (b tail ≡ c) × (tail < 256) × Pending b ((tail + 1) % 256) q head

-- The keyboard's ring holds the characters of `q`, the oldest first.
pub record Holds (k : Keyboard) (q : List ℕ) : Type 0 where
  pub pending : Pending k.kbd_buffer k.kbd_buf_tail q k.kbd_buf_head
  pub room : length q < 256

Pending-head :
    (b : ℕ → ℕ) (t : ℕ) (q : List ℕ) (h : ℕ)
    → Pending b t q h
    → (h ≡ (t + length q) % 256) × (t < 256)
Pending-head b t [] h (e, lt) = (omega (arith, e, lt), lt)
Pending-head b t (c ∷ q) h (e, lt, rest) =
    let (e', lt') = Pending-head b ((t + 1) % 256) q h rest in (omega (arith, e'), lt)

Pending-put :
    (b : ℕ → ℕ) (t : ℕ) (q : List ℕ) (h v : ℕ)
    → Pending b t q h
    → length q < 255
    → Pending (store b h v) t (q ++ (v ∷ [])) ((h + 1) % 256)
Pending-put b t [] h v (e, lt) room =
    let here : store b h v t ≡ v = ground (arith, e) in
    let next : (t + 1) % 256 ≡ (h + 1) % 256 = ap (λ i. (i + 1) % 256) e in
    (here, lt, (next, omega arith))
Pending-put b t (c ∷ q) h v (e, lt, rest) room =
    let (at, lt') = Pending-head b ((t + 1) % 256) q h rest in
    let other : h ≢ t = λ z. omega (arith, at, z, room) in
    let here : store b h v t ≡ c = ground (arith, other, e) in
    (here, lt, Pending-put b ((t + 1) % 256) q h v rest (omega arith))

-- A character that is put while the shell is not active is the last of the queue, if fewer than 255 wait.
pub keyboard_put-Holds :
    (k : Keyboard) (q : List ℕ) (c : ℕ)
    → Holds k q
    → length q < 255
    → Holds (keyboard_put k false c).0 (q ++ (c ∷ []))
unfolding keyboard_put
keyboard_put-Holds k q c h room = record {
  pending = Pending-put k.kbd_buffer k.kbd_buf_tail q k.kbd_buf_head c h.pending room;
  room = omega (arith, length-append q (c ∷ []));
}

-- A character that is put while 255 wait: the ring is empty after it, and all 256 are lost.
pub keyboard_put-loses :
    (k : Keyboard) (q : List ℕ) (c : ℕ)
    → Holds k q
    → length q ≡ 255
    → Holds (keyboard_put k false c).0 []
unfolding keyboard_put
keyboard_put-loses k q c h full =
    let (at, lt) = Pending-head k.kbd_buffer k.kbd_buf_tail q k.kbd_buf_head h.pending in
    record { pending = (omega (arith, at, full, lt), lt); room = omega arith }

-- What `keyboard_get` does at a queue: 0 if it is empty, or the oldest character.
abbrev pub Gives : Keyboard → List ℕ → Type 0
Gives k [] = keyboard_get k ≡ (0, k)
Gives k (c ∷ q) = (k' : Keyboard) × (keyboard_get k ≡ (c, k')) × Holds k' q

-- `keyboard_get` returns 0 and changes nothing if the queue is empty, and otherwise the oldest character,
-- and leaves the others.
pub keyboard_get-Gives : (k : Keyboard) (q : List ℕ) → Holds k q → Gives k q
unfolding keyboard_get
keyboard_get-Gives k [] h =
    let same : (k.kbd_buf_head == k.kbd_buf_tail) ≡ true = ground (arith, h.pending.0) in
    rw same refl
keyboard_get-Gives k (c ∷ q) h =
    let (at, lt) = Pending-head k.kbd_buffer k.kbd_buf_tail (c ∷ q) k.kbd_buf_head h.pending in
    let room : length q + 1 < 256 = omega (arith, h.room) in
    let ne : k.kbd_buf_head ≢ k.kbd_buf_tail = λ z. omega (arith, at, lt, z, room) in
    let other : (k.kbd_buf_head == k.kbd_buf_tail) ≡ false = ground (arith, ne) in
    let k' : Keyboard = record k { kbd_buf_tail = (k.kbd_buf_tail + 1) % 256 } in
    (
      k',
      rw other (ap (λ x. (x, k')) h.pending.0),
      record { pending = h.pending.2; room = omega arith },
    )
