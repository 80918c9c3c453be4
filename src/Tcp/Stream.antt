-- ===== src/Tcp/Stream.antt =====
-- Data over a connection of kernel/net/tcp.c: a segment that arrives, and one that arrives again.
use peker_os.Common.{
  ℕ, ◌+◌, ◌-◌, ◌*◌, ◌/◌, ◌%◌, ◌^◌, ◌≤◌, ◌<◌, ◌≡◌, refl, sym, ap, ◌∙◌, ◌⊎◌, true, false, arith, inl,
  inr, ltb, leb, Bool-cases, none, some, List, [], ◌∷◌, ◌++◌, length,
}
use mathlib.Core.Path.{subst}
use peker_os.Net.{htonl, load32}
use peker_os.Socket.{Socket, put_bytes}
use peker_os.Socket.Ring.{contents, slice, Ahead, put_bytes-Ahead, put_bytes-waiting}
use peker_os.Tcp.{
  Pcb, Handled, established, tcp_ack, has_fin, tcp_send_segment, unchanged, on_state,
  on_established, on_data, bytes_at,
}
use peker_os.Common.Copy.{memory}
use peker_os.Tcp.Segment.{SizedPcb, Reads, length-tcp_send_segment, tcp_send_segment-Reads}
use peker_os.Tcp.Sessions.{arrive}

-- The flags of `socket_sendto`, TCP_ACK and TCP_PSH.
abbrev pub tcp_data : ℕ
tcp_data = 24

-- The segment that `socket_sendto` sends.
abbrev pub data_segment : Pcb → List ℕ → List ℕ
data_segment c bytes = (tcp_send_segment c tcp_data bytes).0

established-data :
    (s c : Pcb) (x : Socket) (src_ip len : ℕ) (seg : ℕ → ℕ) (bytes : List ℕ)
    → s.state ≡ established
    → Reads c tcp_data bytes seg
    → 0 < length bytes
    → len ≡ 20 + length bytes
    → on_state s.state s (some x) src_ip seg len ≡ on_data s (some x) seg bytes
unfolding on_state on_established
established-data s c x src_ip len seg bytes state r some_data size =
    let no_fin : has_fin (seg 13) ≡ false = rw r.has_flags refl in
    let more : ltb (seg 12 / 16 * 4) len ≡ true = ground (arith, r.offset, size) in
    let n : len - 20 ≡ length bytes = omega (arith, size) in
    let same : bytes_at seg (seg 12 / 16 * 4) (len - seg 12 / 16 * 4) ≡ bytes =
      ap (λ k. bytes_at seg k (len - k)) r.offset ∙ ap (bytes_at seg 20) n ∙ r.bytes in
    simp (state, on_state)
      (rw (no_fin, on_established) (rw more (ap (on_data s (some x) seg) same)))

-- What a segment of data does: it is behind the bytes that the socket holds, the task that waits there
-- is woken, the next byte is expected, and the answer acknowledges it.
pub record Delivers (s c : Pcb) (x : Socket) (bytes : List ℕ) (h : Handled) : Type 0 where
  pub socket : Socket
  pub block : Pcb
  pub stored : h.sock ≡ some socket
  pub appended : contents socket ≡ contents x ++ bytes
  pub ahead : Ahead socket socket.buffer_len
  pub len : socket.buffer_len ≡ x.buffer_len + length bytes
  pub quiet : socket.waiting_task ≡ none
  pub woken : h.woken ≡ x.waiting_task
  pub kept : h.pcb ≡ some block
  pub state : block.state ≡ s.state
  pub next : block.rcv_nxt ≡ (tcp_send_segment c tcp_data bytes).1.snd_nxt
  pub answer : h.sent ≡ (tcp_send_segment (record s { rcv_nxt = block.rcv_nxt }) tcp_ack []).0 ∷ []

on_data-Delivers :
    (s c : Pcb) (x : Socket) (seg : ℕ → ℕ) (bytes : List ℕ)
    → Reads c tcp_data bytes seg
    → Ahead x x.buffer_len
    → x.buffer_len + length bytes ≤ 4096
    → Delivers s c x bytes (on_data s (some x) seg bytes)
unfolding on_data tcp_send_segment
on_data-Delivers s c x seg bytes r a room =
    let fits : leb (x.buffer_len + length bytes) 4096 ≡ true = ground arith in
    let (a', t, e) = put_bytes-Ahead x x.buffer_len bytes a room in
    rw (fits, on_data)
      (record {
        socket = record (put_bytes x bytes) {
          buffer_len = x.buffer_len + length bytes;
          waiting_task = none;
        };
        block = record s {
          snd_nxt = (s.snd_nxt + 0 + 0) % 2 ^ 32;
          rcv_nxt = (htonl (load32 seg 4) + length bytes) % 2 ^ 32;
        };
        stored = refl;
        appended = ap (λ i. slice (put_bytes x bytes).buffer i (x.buffer_len + length bytes)) t ∙ e;
        ahead = record { tail_in = a'.tail_in; head_at = a'.head_at; fits = a'.fits };
        len = refl;
        quiet = refl;
        woken = put_bytes-waiting x bytes;
        kept = refl;
        state = refl;
        next = omega (arith, r.seq);
        answer = refl;
      })

-- A segment of at least one byte of data and at most 65515, from a sender whose block has fields of their
-- width, arrives at a connected block whose socket's ring is in order: it is delivered if the socket has
-- room for it, and otherwise dropped without an answer.
pub tcp_input-Delivers :
    (s c : Pcb) (x : Socket) (src_ip : ℕ) (bytes : List ℕ)
    → SizedPcb c
    → s.state ≡ established
    → Ahead x x.buffer_len
    → 0 < length bytes
    → length bytes ≤ 65515
    → ((x.buffer_len + length bytes ≤ 4096)
        × Delivers s c x bytes (arrive s (some x) src_ip (data_segment c bytes)))
      ⊎ ((4096 < x.buffer_len + length bytes)
          × (arrive s (some x) src_ip (data_segment c bytes) ≡ unchanged s (some x)))
unfolding on_data
tcp_input-Delivers s c x src_ip bytes zc state a some_data le =
    let seg : ℕ → ℕ = memory (data_segment c bytes) in
    let r = tcp_send_segment-Reads c tcp_data bytes zc le in
    let e =
      established-data s c x src_ip (length (data_segment c bytes)) seg bytes state r some_data
        (length-tcp_send_segment c tcp_data bytes le) in
    elim (Bool-cases (leb (x.buffer_len + length bytes) 4096)) [
      | inl room ↦
          let fits : x.buffer_len + length bytes ≤ 4096 = ground arith in
          inl
            (fits, subst (Delivers s c x bytes) (sym e) (on_data-Delivers s c x seg bytes r a fits))
      | inr full ↦ inr (ground arith, e ∙ rw (full, on_data) refl)
    ]

delivered :
    (s c : Pcb) (x : Socket) (src_ip : ℕ) (bytes : List ℕ)
    → SizedPcb c
    → s.state ≡ established
    → Ahead x x.buffer_len
    → 0 < length bytes
    → x.buffer_len + length bytes ≤ 4096
    → Delivers s c x bytes (arrive s (some x) src_ip (data_segment c bytes))
delivered s c x src_ip bytes zc state a some_data room =
    elim (tcp_input-Delivers s c x src_ip bytes zc state a some_data (omega (arith, room))) [
      | inl (fits, d) ↦ d
      | inr (full, e) ↦ absurd (omega (arith, room, full))
    ]

-- A segment that arrives a second time, as when its answer was lost, is delivered a second time: the
-- sequence number is not compared with the one expected, so the socket holds its bytes twice.
pub tcp_input-twice :
    (s c : Pcb) (x : Socket) (src_ip : ℕ) (bytes : List ℕ)
    → SizedPcb c
    → s.state ≡ established
    → Ahead x x.buffer_len
    → 0 < length bytes
    → x.buffer_len + length bytes + length bytes ≤ 4096
    → (first : Delivers s c x bytes (arrive s (some x) src_ip (data_segment c bytes)))
      × (again : Delivers first.block c first.socket bytes
          (arrive first.block (some first.socket) src_ip (data_segment c bytes)))
      × (contents again.socket ≡ contents x ++ bytes ++ bytes)
tcp_input-twice s c x src_ip bytes zc state a some_data room =
    let first = delivered s c x src_ip bytes zc state a some_data (omega arith) in
    let again =
      delivered first.block c first.socket src_ip bytes zc (first.state ∙ state) first.ahead
        some_data (omega (arith, first.len)) in
    (first, again, again.appended ∙ ap (λ bs. bs ++ bytes) first.appended)
