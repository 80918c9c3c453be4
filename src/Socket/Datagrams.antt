-- ===== src/Socket/Datagrams.antt =====
-- The ring of a datagram socket of kernel/net/socket.c as a queue of datagrams.
use peker_os.Common.{
  ℕ, ◌+◌, ◌-◌, ◌*◌, ◌/◌, ◌%◌, ◌^◌, ◌≤◌, ◌<◌, ◌≡◌, refl, sym, ap, ◌∙◌, ◌⊎◌, true, false, arith, inl,
  inr, ◌==◌, ltb, leb, Bool-cases, if◌then◌else◌, Option, none, some, List, [], ◌∷◌, ◌++◌, length,
  ◌≢◌, get_elem?, take,
}
use mathlib.Core.Path.{subst}
use mathlib.Core.List.{append-nil, append_assoc}
use peker_os.Common.Runs.{take-all}
use peker_os.Socket.{
  Socket, Packet, put_bytes, encode_header, decode_header, store_packet, deliver, waits, returns,
  recv_payload, recv_dgram, socket_recvfrom, sock_dgram, SockaddrIn, address_for, set_state,
}
use mathlib.Core.Option.{some-injective}
use peker_os.Net.{htons}
use peker_os.Task.{Task, sleep}
use peker_os.Socket.Wake.{set_state_self, set_state_other}
use peker_os.Socket.Ring.{
  slice, contents, Ahead, put_bytes-Ahead, take_bytes-slice, slice-append, length-slice,
}

-- The bytes of the datagrams of a queue, each behind its header.
abbrev pub flat : List Packet → List ℕ
flat [] = []
flat (p ∷ q) = encode_header p ++ p.payload ++ flat q

-- The fields of a packet are numbers of their width.
pub record Sized (p : Packet) : Type 0 where
  pub ip : p.src_ip < 2 ^ 32
  pub port : p.src_port < 2 ^ 16
  pub len : length p.payload < 2 ^ 16

abbrev pub AllSized : List Packet → Type 0
AllSized [] = Unit
AllSized (p ∷ q) = Sized p × AllSized q

-- The socket's ring is in order and holds the datagrams of `q`, the oldest first.
pub record Holds (s : Socket) (q : List Packet) : Type 0 where
  pub ahead : Ahead s s.buffer_len
  pub sized : AllSized q
  pub stored : contents s ≡ flat q

flat-append :
    (q : List Packet) (p : Packet) → flat (q ++ (p ∷ [])) ≡ flat q ++ (encode_header p ++ p.payload)
flat-append [] p = append-nil (encode_header p ++ p.payload)
flat-append (x ∷ q) p =
    ap (λ bs. encode_header x ++ x.payload ++ bs) (flat-append q p)
    ∙ sym (append_assoc (encode_header x ++ x.payload) (flat q) (encode_header p ++ p.payload))

AllSized-append : (q : List Packet) (p : Packet) → AllSized q → Sized p → AllSized (q ++ (p ∷ []))
AllSized-append [] p all one = (one, tt)
AllSized-append (x ∷ q) p (first, all) one = (first, AllSized-append q p all one)

-- A header is read as it was written.
decode_header-encode_header :
    (p : Packet)
    → Sized p
    → decode_header (encode_header p) ≡ (p.src_ip, p.src_port, length p.payload)
decode_header-encode_header p z =
    let ip : p.src_ip % 256
          + 256 * (p.src_ip / 256 % 256)
          + 65536 * (p.src_ip / 65536 % 256)
          + 16777216 * (p.src_ip / 16777216 % 256)
        ≡ p.src_ip =
      omega (arith, z.ip) in
    let port : p.src_port % 256 + 256 * (p.src_port / 256 % 256) ≡ p.src_port =
      omega (arith, z.port) in
    let len : length p.payload % 256 + 256 * (length p.payload / 256 % 256) ≡ length p.payload =
      omega (arith, z.len) in
    ground (arith, ip, port, len)

store_packet-Holds :
    (s : Socket) (q : List Packet) (p : Packet)
    → Holds s q
    → Sized p
    → s.buffer_len + 8 + length p.payload ≤ 4096
    → Holds (store_packet s p) (q ++ (p ∷ []))
unfolding store_packet
store_packet-Holds s q p h z room =
    let (a, t, e) = put_bytes-Ahead s s.buffer_len (encode_header p) h.ahead (omega arith) in
    let s1 : Socket = put_bytes s (encode_header p) in
    let (a', t', e') = put_bytes-Ahead s1 (s.buffer_len + 8) p.payload a (omega arith) in
    let s2 : Socket = put_bytes s1 p.payload in
    let len : s.buffer_len + 8 + length p.payload ≡ s.buffer_len + (8 + length p.payload) =
      omega arith in
    record {
      ahead = record {
        tail_in = a'.tail_in;
        head_at = omega (arith, a'.head_at);
        fits = omega arith;
      };
      sized = AllSized-append q p h.sized z;
      stored =
          ap (slice s2.buffer s2.buffer_tail) (sym len)
          ∙ ap (λ i. slice s2.buffer i (s.buffer_len + 8 + length p.payload)) t'
          ∙ e'
          ∙ ap (λ i. slice s1.buffer i (s.buffer_len + 8) ++ p.payload) t
          ∙ ap (λ bs. bs ++ p.payload) (e ∙ ap (λ bs. bs ++ encode_header p) h.stored)
          ∙ append_assoc (flat q) (encode_header p) p.payload
          ∙ sym (flat-append q p);
    }

store_packet-waiting : (s : Socket) (p : Packet) → (store_packet s p).waiting_task ≡ none
unfolding store_packet
store_packet-waiting s p = refl

-- A datagram that fits into what is left of the ring is the last of the queue then, and the task that
-- waits is woken; otherwise nothing changes and nobody is woken.
pub deliver-Holds :
    (s : Socket) (q : List Packet) (p : Packet)
    → Holds s q
    → Sized p
    → ((s.buffer_len + 8 + length p.payload ≤ 4096)
        × Holds (deliver s p).0 (q ++ (p ∷ []))
        × ((deliver s p).0.waiting_task ≡ none)
        × ((deliver s p).1 ≡ s.waiting_task))
      ⊎ ((4096 < s.buffer_len + 8 + length p.payload) × (deliver s p ≡ (s, none)))
unfolding deliver
deliver-Holds s q p h z = elim (Bool-cases (leb (s.buffer_len + 8 + length p.payload) 4096)) [
  | inl room ↦
      let fits : s.buffer_len + 8 + length p.payload ≤ 4096 = ground arith in
      let done : deliver s p ≡ (store_packet s p, s.waiting_task) = rw room refl in
      inl (
        fits,
        subst (λ (x : Socket × Option ℕ). Holds x.0 (q ++ (p ∷ []))) (sym done)
            (store_packet-Holds s q p h z fits),
        ap (λ (x : Socket × Option ℕ). x.0.waiting_task) done ∙ store_packet-waiting s p,
        ap (λ (x : Socket × Option ℕ). x.1) done,
      )
  | inr full ↦ inr (ground arith, rw full refl)
]

take-cut : (n : ℕ) (xs : List ℕ) → take (if ltb n (length xs) then n else length xs) xs ≡ take n xs
take-cut n xs = elim (Bool-cases (ltb n (length xs))) [
  | inl less ↦ ap (λ c. take (if c then n else length xs) xs) less
  | inr more ↦
      ap (λ c. take (if c then n else length xs) xs) more
      ∙ take-all (length xs) xs (omega arith)
      ∙ sym (take-all n xs (ground (arith, more)))
]

-- The oldest datagram of the queue is read, cut to the length asked for, and the rest of the queue is held
-- then.
recv_dgram-Holds :
    (s : Socket) (p : Packet) (q : List Packet) (len : ℕ) (room : Option ℕ)
    → Holds s (p ∷ q)
    → (s' : Socket) × (recv_dgram s len room
        ≡ returns s' (take len p.payload) (address_for room p.src_ip p.src_port))
      × Holds s' q
unfolding recv_dgram recv_payload
recv_dgram-Holds s p q len room h =
    let n : ℕ = length p.payload in
    let (header, rest, lo) =
      slice-append s.buffer s.buffer_tail s.buffer_len (encode_header p) (p.payload ++ flat q)
        h.ahead.tail_in h.stored in
    let t1 : ℕ = (s.buffer_tail + 8) % 4096 in
    let (bytes, rest', lo') =
      slice-append s.buffer t1 (s.buffer_len - 8) p.payload (flat q) (omega arith) rest in
    let t2 : ℕ = (t1 + n) % 4096 in
    let left : s.buffer_len - 8 - n ≡ (s.buffer_len + 2 ^ 32 - (8 + n)) % 2 ^ 32 =
      omega (arith, lo, lo', h.ahead.fits) in
    let s' : Socket = record s {
      buffer_tail = t2;
      buffer_len = (s.buffer_len + 2 ^ 32 - (8 + n)) % 2 ^ 32;
    } in
    let e1 = take_bytes-slice s 8 h.ahead.tail_in in
    let e2 = take_bytes-slice (record s { buffer_tail = t1 }) n (omega arith) in
    (
      s',
      ap (λ (x : List ℕ × Socket). recv_payload x.1 len room (decode_header x.0)) e1
          ∙ ap (recv_payload (record s { buffer_tail = t1 }) len room)
              (ap decode_header header ∙ decode_header-encode_header p h.sized.0)
          ∙ ap
              (λ (x : List ℕ × Socket).
                returns (record x.1 { buffer_len = (s.buffer_len + 2 ^ 32 - (8 + n)) % 2 ^ 32 })
                  (take (if ltb len n then len else n) x.0) (address_for room p.src_ip p.src_port))
              e2
          ∙ ap (λ bs. returns s' bs (address_for room p.src_ip p.src_port))
              (ap (take (if ltb len n then len else n)) bytes ∙ take-cut len p.payload),
      record {
        ahead = record {
          tail_in = omega arith;
          head_at = omega (arith, left, h.ahead.head_at, lo, lo');
          fits = omega (arith, left, h.ahead.fits);
        };
        sized = h.sized.1;
        stored = ap (slice s.buffer t2) (sym left) ∙ rest';
      },
    )

-- What is written to the caller's address: where there is room for one, the datagram's sender, the port
-- in the network's order, and else nothing.
pub data Addressed (room : Option ℕ) (p : Packet) : Option SockaddrIn → Type 0 where
  fills :
      (address_len : ℕ) (a : SockaddrIn)
      → room ≡ some address_len
      → 16 ≤ address_len
      → a.sin_family ≡ 2
      → a.sin_port ≡ htons p.src_port
      → a.s_addr ≡ p.src_ip
      → Addressed room p (some a)
  too_short : (address_len : ℕ) → room ≡ some address_len → address_len < 16 → Addressed room p none
  not_asked : room ≡ none → Addressed room p none

address_for-Addressed :
    (room : Option ℕ) (p : Packet) → Addressed room p (address_for room p.src_ip p.src_port)
unfolding address_for
address_for-Addressed none p = not_asked refl
address_for-Addressed (some n) p = elim (Bool-cases (leb 16 n)) [
  | inl fits ↦ rw fits (fills n _ refl (ground arith) refl refl refl)
  | inr short ↦ rw short (too_short n refl (ground arith))
]

-- The task noted in the socket sleeps, and no other changes.
pub record Sleeps (tasks : List Task) (current_task : ℕ) (tasks' : List Task) : Type 0 where
  pub asleep :
      (x : Task)
      → get_elem? tasks current_task ≡ some x
      → get_elem? tasks' current_task ≡ some (record x { state = sleep })
  pub others : (w : ℕ) → current_task ≢ w → get_elem? tasks' w ≡ get_elem? tasks w

set_state-Sleeps :
    (tasks : List Task) (current_task : ℕ)
    → Sleeps tasks current_task (set_state tasks (some current_task) false)
set_state-Sleeps tasks current_task = record {
  asleep = λ x at. set_state_self tasks (some current_task) false current_task x refl at;
  others = λ w ne.
      set_state_other tasks (some current_task) false w (λ e. ne (some-injective current_task w e));
}

-- What `socket_recvfrom` does at a socket that holds a queue.
abbrev pub Serves : Socket → List Packet → List Task → ℕ → ℕ → Option ℕ → Type 0
Serves s [] tasks current_task len room =
    (tasks' : List Task) × (socket_recvfrom s tasks current_task len room
      ≡ waits (record s { waiting_task = some current_task }) tasks')
    × Sleeps tasks current_task tasks'
Serves s (p ∷ q) tasks current_task len room =
    (s' : Socket) × (from : Option SockaddrIn) × (socket_recvfrom s tasks current_task len room
      ≡ returns s' (take len p.payload) from)
    × Addressed room p from
    × Holds s' q

empty-len : (s : Socket) → Holds s [] → s.buffer_len ≡ 0
empty-len s h =
    let l = length-slice s.buffer s.buffer_tail s.buffer_len in sym l ∙ ap length h.stored

-- At a datagram socket that holds a queue, `socket_recvfrom` waits if the queue is empty: the task is
-- noted in the socket and sleeps, and no other task changes. Otherwise it returns the oldest datagram,
-- cut to the length asked for, and leaves the others; where the caller gives an address and a length of
-- at least 16, the sender's address and port are written there, and nothing is written elsewise.
pub socket_recvfrom-Serves :
    (s : Socket) (q : List Packet) (tasks : List Task) (current_task len : ℕ) (room : Option ℕ)
    → Holds s q
    → s.type ≡ sock_dgram
    → Serves s q tasks current_task len room
unfolding socket_recvfrom
socket_recvfrom-Serves s [] tasks current_task len room h dgram =
    let e : (s.buffer_len == 0) ≡ true = ground (arith, empty-len s h) in
    (set_state tasks (some current_task) false, rw e refl, set_state-Sleeps tasks current_task)
socket_recvfrom-Serves s (p ∷ q) tasks current_task len room h dgram =
    let (first, rest, lo) =
      slice-append s.buffer s.buffer_tail s.buffer_len (encode_header p) (p.payload ++ flat q)
        h.ahead.tail_in h.stored in
    let e : (s.buffer_len == 0) ≡ false = ground (arith, lo) in
    let d : (s.type == 2) ≡ true = ground (arith, dgram) in
    let (s', r, h') = recv_dgram-Holds s p q len room h in
    (s', address_for room p.src_ip p.src_port, rw e (rw d r), address_for-Addressed room p, h')
