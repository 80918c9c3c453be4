-- ===== src/Socket/Ring.antt =====
-- The ring of bytes of a socket of kernel/net/socket.c as a queue.
use peker_os.Common.{
  ℕ, zero, suc, ◌+◌, ◌-◌, ◌%◌, ◌≤◌, ◌<◌, ◌≡◌, refl, sym, ap, ◌∙◌, ◌≢◌, arith, ◌==◌, if◌then◌else◌,
  List, [], ◌∷◌, ◌++◌, length,
}
use mathlib.Core.Path.{subst}
use mathlib.Core.List.{append-nil, append_assoc}
use peker_os.Socket.{Socket, put_byte, put_bytes, take_bytes}

-- The `n` bytes of the ring's memory from the place `t` on.
abbrev pub slice : (ℕ → ℕ) → ℕ → ℕ → List ℕ
slice b t zero = []
slice b t (suc n) = b t ∷ slice b ((t + 1) % 4096) n

-- What the socket holds, the oldest byte first.
abbrev pub contents : Socket → List ℕ
contents s = slice s.buffer s.buffer_tail s.buffer_len

-- The head is `n` places behind the tail.
pub record Ahead (s : Socket) (n : ℕ) : Type 0 where
  pub tail_in : s.buffer_tail < 4096
  pub head_at : s.buffer_head ≡ (s.buffer_tail + n) % 4096
  pub fits : n ≤ 4096

slice-other :
    (b : ℕ → ℕ) (h v t n : ℕ)
    → t < 4096
    → ((i : ℕ) → i < n → (t + i) % 4096 ≢ h)
    → slice (λ i. if i == h then v else b i) t n ≡ slice b t n
slice-other b h v t zero inside ne = refl
slice-other b h v t (suc n) inside ne =
    let here : t ≢ h = λ e. ne 0 (omega arith) (omega (arith, e)) in
    let rest =
      slice-other b h v ((t + 1) % 4096) n (omega arith)
        (λ i lt e. ne (i + 1) (omega arith) (omega (arith, e))) in
    ground (arith, rest, here)

slice-snoc :
    (b : ℕ → ℕ) (t n : ℕ) → t < 4096 → slice b t (suc n) ≡ slice b t n ++ (b ((t + n) % 4096) ∷ [])
slice-snoc b t zero inside = let here : t ≡ (t + 0) % 4096 = omega arith in ap (λ i. b i ∷ []) here
slice-snoc b t (suc n) inside =
    let place : ((t + 1) % 4096 + n) % 4096 ≡ (t + suc n) % 4096 = omega arith in
    ap (λ bs. b t ∷ bs)
      (slice-snoc b ((t + 1) % 4096) n (omega arith)
        ∙ ap (λ i. slice b ((t + 1) % 4096) n ++ (b i ∷ [])) place)

pub length-slice : (b : ℕ → ℕ) (t n : ℕ) → length (slice b t n) ≡ n
length-slice b t zero = refl
length-slice b t (suc n) = ap suc (length-slice b ((t + 1) % 4096) n)

-- A ring that holds some bytes and then others.
pub slice-append :
    (b : ℕ → ℕ) (t n : ℕ) (xs ys : List ℕ)
    → t < 4096
    → slice b t n ≡ xs ++ ys
    → (slice b t (length xs) ≡ xs)
      × (slice b ((t + length xs) % 4096) (n - length xs) ≡ ys)
      × (length xs ≤ n)
slice-append b t n [] ys inside e =
    let here : (t + 0) % 4096 ≡ t = omega arith in
    let len : n - 0 ≡ n = omega arith in
    (refl, ap (slice b ((t + 0) % 4096)) len ∙ ap (λ i. slice b i n) here ∙ e, omega arith)
slice-append b t zero (x ∷ xs) ys inside e = absurd (ground (arith, e))
slice-append b t (suc n) (x ∷ xs) ys inside e =
    let (first, rest, le) =
      slice-append b ((t + 1) % 4096) n xs ys (omega arith) (ground (arith, e)) in
    let place : (t + suc (length xs)) % 4096 ≡ ((t + 1) % 4096 + length xs) % 4096 = omega arith in
    let len : suc n - suc (length xs) ≡ n - length xs = omega arith in
    (
      ground (arith, e, first),
      ap (λ i. slice b i (suc n - suc (length xs))) place
          ∙ ap (slice b (((t + 1) % 4096 + length xs) % 4096)) len
          ∙ rest,
      omega (arith, le),
    )

-- A byte put into a ring with room stands behind the others.
put_byte-Ahead :
    (s : Socket) (n v : ℕ)
    → Ahead s n
    → n < 4096
    → Ahead (put_byte s v) (suc n)
      × (slice (put_byte s v).buffer s.buffer_tail (suc n)
          ≡ slice s.buffer s.buffer_tail n ++ (v ∷ []))
unfolding put_byte
put_byte-Ahead s n v a room = (
  record { tail_in = a.tail_in; head_at = omega (arith, a.head_at); fits = omega arith },
  slice-snoc (put_byte s v).buffer s.buffer_tail n a.tail_in ∙ same,
)
  where
    first : slice (put_byte s v).buffer s.buffer_tail n ≡ slice s.buffer s.buffer_tail n
    first =
        slice-other s.buffer s.buffer_head v s.buffer_tail n a.tail_in
          (λ i lt e. omega (arith, a.head_at, a.tail_in, e))

    last : (put_byte s v).buffer ((s.buffer_tail + n) % 4096) ≡ v
    last = ground (arith, a.head_at)

    same :
        slice (put_byte s v).buffer s.buffer_tail n
          ++ ((put_byte s v).buffer ((s.buffer_tail + n) % 4096) ∷ [])
        ≡ slice s.buffer s.buffer_tail n ++ (v ∷ [])
    same =
        ap (λ bs. bs ++ ((put_byte s v).buffer ((s.buffer_tail + n) % 4096) ∷ [])) first
        ∙ ap (λ x. slice s.buffer s.buffer_tail n ++ (x ∷ [])) last

-- Bytes put into a ring with room stand behind the others, and leave the tail.
pub put_bytes-Ahead :
    (s : Socket) (n : ℕ) (vs : List ℕ)
    → Ahead s n
    → n + length vs ≤ 4096
    → Ahead (put_bytes s vs) (n + length vs)
      × ((put_bytes s vs).buffer_tail ≡ s.buffer_tail)
      × (slice (put_bytes s vs).buffer s.buffer_tail (n + length vs)
          ≡ slice s.buffer s.buffer_tail n ++ vs)
unfolding put_byte put_bytes
put_bytes-Ahead s n [] a room =
    let len : n ≡ n + 0 = omega arith in
    (
      subst (Ahead s) len a,
      refl,
      ap (slice s.buffer s.buffer_tail) (sym len)
          ∙ sym (append-nil (slice s.buffer s.buffer_tail n)),
    )
put_bytes-Ahead s n (v ∷ vs) a room =
    let (a', e) = put_byte-Ahead s n v a (omega arith) in
    let (a'', t', e') = put_bytes-Ahead (put_byte s v) (suc n) vs a' (omega arith) in
    let len : suc n + length vs ≡ n + suc (length vs) = omega arith in
    (
      subst (Ahead (put_bytes (put_byte s v) vs)) len a'',
      t',
      ap (slice (put_bytes (put_byte s v) vs).buffer s.buffer_tail) (sym len)
          ∙ e'
          ∙ ap (λ bs. bs ++ vs) e
          ∙ append_assoc (slice s.buffer s.buffer_tail n) (v ∷ []) vs,
    )

pub put_bytes-waiting : (s : Socket) (vs : List ℕ) → (put_bytes s vs).waiting_task ≡ s.waiting_task
unfolding put_byte put_bytes
put_bytes-waiting s [] = refl
put_bytes-waiting s (v ∷ vs) = put_bytes-waiting (put_byte s v) vs

-- What is read is what stands there, and the tail goes round the ring.
pub take_bytes-slice :
    (s : Socket) (n : ℕ)
    → s.buffer_tail < 4096
    → take_bytes s n
      ≡ (slice s.buffer s.buffer_tail n, record s { buffer_tail = (s.buffer_tail + n) % 4096 })
unfolding take_bytes
take_bytes-slice s zero inside =
    let here : s.buffer_tail ≡ (s.buffer_tail + 0) % 4096 = omega arith in
    ap (λ i. ([], record s { buffer_tail = i })) here
take_bytes-slice s (suc n) inside =
    let e =
      take_bytes-slice (record s { buffer_tail = (s.buffer_tail + 1) % 4096 }) n (omega arith) in
    let place : ((s.buffer_tail + 1) % 4096 + n) % 4096 ≡ (s.buffer_tail + suc n) % 4096 =
      omega arith in
    ap (λ (x : List ℕ × Socket). (s.buffer s.buffer_tail ∷ x.0, x.1)) e
    ∙ ap (λ i. (slice s.buffer s.buffer_tail (suc n), record s { buffer_tail = i })) place
