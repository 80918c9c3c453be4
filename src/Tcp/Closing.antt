-- ===== src/Tcp/Closing.antt =====
-- The end of a connection of kernel/net/tcp.c: `tcp_close` at both ends, and what they hear.
use peker_os.Common.{
  ℕ, ◌+◌, ◌%◌, ◌^◌, ◌≡◌, refl, ap, ◌∙◌, true, false, arith, Option, none, some, List, [], ◌∷◌,
  length,
}
use peker_os.Socket.{Socket}
use peker_os.Tcp.{
  Pcb, Handled, closed, established, close_wait, fin_wait_1, fin_wait_2, last_ack, tcp_fin, tcp_ack,
  has_fin, has_ack, tcp_send_segment, segment_bytes, unchanged, replies, wakes, on_state,
  on_established, on_fin_wait_1, on_fin_wait_2, on_last_ack,
}
use peker_os.Tcp.Input.{tcp_close}
use peker_os.Common.Copy.{memory}
use peker_os.Tcp.Segment.{SizedPcb, Reads, tcp_send_segment-Reads}
use peker_os.Tcp.Sessions.{arrive, wakes-kept}

established-fin :
    (p q : Pcb) (sock : Option Socket) (src_ip len : ℕ) (seg : ℕ → ℕ)
    → p.state ≡ established
    → Reads q (tcp_fin + tcp_ack) [] seg
    → on_state p.state p sock src_ip seg len
      ≡ wakes (replies (record p { rcv_nxt = (q.snd_nxt + 1) % 2 ^ 32 }) tcp_ack close_wait sock)
unfolding on_state on_established
established-fin p q sock src_ip len seg state r =
    let fin : has_fin (seg 13) ≡ true = rw r.has_flags refl in
    simp (state, on_state)
      (rw (fin, on_established)
        (ap (λ n. wakes (replies (record p { rcv_nxt = (n + 1) % 2 ^ 32 }) tcp_ack close_wait sock))
          r.seq))

fin_wait_1-ack :
    (p q : Pcb) (sock : Option Socket) (src_ip len : ℕ) (seg : ℕ → ℕ)
    → p.state ≡ fin_wait_1
    → Reads q tcp_ack [] seg
    → on_state p.state p sock src_ip seg len ≡ unchanged (record p { state = fin_wait_2 }) sock
unfolding on_state on_fin_wait_1
fin_wait_1-ack p q sock src_ip len seg state r =
    let no_fin : has_fin (seg 13) ≡ false = rw r.has_flags refl in
    let ack : has_ack (seg 13) ≡ true = rw r.has_flags refl in
    simp (state, on_state) (rw (no_fin, on_fin_wait_1) (rw (ack, on_fin_wait_1) refl))

fin_wait_2-fin :
    (p q : Pcb) (sock : Option Socket) (src_ip len : ℕ) (seg : ℕ → ℕ)
    → p.state ≡ fin_wait_2
    → Reads q (tcp_fin + tcp_ack) [] seg
    → on_state p.state p sock src_ip seg len
      ≡ record (replies (record p { rcv_nxt = (q.snd_nxt + 1) % 2 ^ 32 }) tcp_ack closed sock) {
        pcb = none;
      }
unfolding on_state on_fin_wait_2 tcp_send_segment segment_bytes
fin_wait_2-fin p q sock src_ip len seg state r =
    let fin : has_fin (seg 13) ≡ true = rw r.has_flags refl in
    simp (state, on_state)
      (rw (fin, on_fin_wait_2)
        (ap
          (λ n. record (replies (record p { rcv_nxt = (n + 1) % 2 ^ 32 }) tcp_ack closed sock) {
            pcb = none;
          })
          r.seq))

last_ack-ack :
    (p q : Pcb) (sock : Option Socket) (src_ip len : ℕ) (seg : ℕ → ℕ)
    → p.state ≡ last_ack
    → Reads q tcp_ack [] seg
    → on_state p.state p sock src_ip seg len
      ≡ record { pcb = none; sock = sock; woken = none; sent = [] }
unfolding on_state on_last_ack
last_ack-ack p q sock src_ip len seg state r =
    let ack : has_ack (seg 13) ≡ true = rw r.has_flags refl in
    simp (state, on_state) (rw (ack, on_last_ack) refl)

close-established :
    (p : Pcb)
    → p.state ≡ established
    → tcp_close p ≡ (
      (tcp_send_segment p (tcp_fin + tcp_ack) []).0 ∷ [],
      record (tcp_send_segment p (tcp_fin + tcp_ack) []).1 { state = fin_wait_1 },
    )
unfolding tcp_close
close-established p state = simp (state, tcp_close) refl

close-close_wait :
    (p : Pcb)
    → p.state ≡ close_wait
    → tcp_close p ≡ (
      (tcp_send_segment p (tcp_fin + tcp_ack) []).0 ∷ [],
      record (tcp_send_segment p (tcp_fin + tcp_ack) []).1 { state = last_ack },
    )
unfolding tcp_close
close-close_wait p state = simp (state, tcp_close) refl

-- The four segments that end a connection, in their order, and what each end makes of them.
pub record Closes (p q : Pcb) (sock_p sock_q : Option Socket) (ip_p ip_q : ℕ) : Type 0 where
  pub fin : List ℕ
  pub ack : List ℕ
  pub fin_back : List ℕ
  pub ack_back : List ℕ
  pub p_2 : Pcb
  pub q_1 : Pcb
  pub p_closes : (tcp_close p).0 ≡ fin ∷ []
  pub q_hears : (arrive q sock_q ip_p fin).pcb ≡ some q_1
  pub q_waits : q_1.state ≡ close_wait
  pub q_answers : (arrive q sock_q ip_p fin).sent ≡ ack ∷ []
  pub p_hears : (arrive (tcp_close p).1 sock_p ip_q ack).pcb ≡ some p_2
  pub q_closes : (tcp_close q_1).0 ≡ fin_back ∷ []
  pub p_answers : (arrive p_2 sock_p ip_q fin_back).sent ≡ ack_back ∷ []
  pub p_freed : (arrive p_2 sock_p ip_q fin_back).pcb ≡ none
  pub q_freed : (arrive (tcp_close q_1).1 sock_q ip_p ack_back).pcb ≡ none

-- Two connected blocks: one end calls `tcp_close`, and the other after it has heard of it; when each
-- has heard the other's FIN and the answers, both blocks are freed.
pub tcp_close-Closes :
    (p q : Pcb) (sock_p sock_q : Option Socket) (ip_p ip_q : ℕ)
    → SizedPcb p
    → SizedPcb q
    → p.state ≡ established
    → q.state ≡ established
    → Closes p q sock_p sock_q ip_p ip_q
unfolding tcp_send_segment
tcp_close-Closes p q sock_p sock_q ip_p ip_q zp zq ep eq =
    let fa : ℕ = tcp_fin + tcp_ack in
    let p1 : Pcb = record (tcp_send_segment p fa []).1 { state = fin_wait_1 } in
    let q0 : Pcb = record q { rcv_nxt = (p.snd_nxt + 1) % 2 ^ 32 } in
    let q1 : Pcb = record (tcp_send_segment q0 tcp_ack []).1 { state = close_wait } in
    let q2 : Pcb = record (tcp_send_segment q1 fa []).1 { state = last_ack } in
    let p2 : Pcb = record p1 { state = fin_wait_2 } in
    let p3 : Pcb = record p2 { rcv_nxt = (q1.snd_nxt + 1) % 2 ^ 32 } in
    let fin : List ℕ = (tcp_send_segment p fa []).0 in
    let ack : List ℕ = (tcp_send_segment q0 tcp_ack []).0 in
    let fin_back : List ℕ = (tcp_send_segment q1 fa []).0 in
    let ack_back : List ℕ = (tcp_send_segment p3 tcp_ack []).0 in
    let zq0 : SizedPcb q0 = record {
      local_port = zq.local_port;
      remote_port = zq.remote_port;
      snd_nxt = zq.snd_nxt;
      rcv_nxt = omega arith;
    } in
    let zq1 : SizedPcb q1 = record {
      local_port = zq.local_port;
      remote_port = zq.remote_port;
      snd_nxt = omega arith;
      rcv_nxt = omega arith;
    } in
    let zp3 : SizedPcb p3 = record {
      local_port = zp.local_port;
      remote_port = zp.remote_port;
      snd_nxt = omega arith;
      rcv_nxt = omega arith;
    } in
    let c1 = close-established p ep in
    let e1 =
      established-fin q p sock_q ip_p (length fin) (memory fin) eq
        (tcp_send_segment-Reads p fa [] zp (omega arith)) in
    let e2 =
      fin_wait_1-ack p1 q0 sock_p ip_q (length ack) (memory ack) refl
        (tcp_send_segment-Reads q0 tcp_ack [] zq0 (omega arith)) in
    let c2 = close-close_wait q1 refl in
    let e3 =
      fin_wait_2-fin p2 q1 sock_p ip_q (length fin_back) (memory fin_back) refl
        (tcp_send_segment-Reads q1 fa [] zq1 (omega arith)) in
    let e4 =
      last_ack-ack q2 p3 sock_q ip_p (length ack_back) (memory ack_back) refl
        (tcp_send_segment-Reads p3 tcp_ack [] zp3 (omega arith)) in
    let h1 : Handled = replies q0 tcp_ack close_wait sock_q in
    record {
      fin = fin;
      ack = ack;
      fin_back = fin_back;
      ack_back = ack_back;
      p_2 = p2;
      q_1 = q1;
      p_closes = ap (λ (x : List (List ℕ) × Pcb). x.0) c1;
      q_hears = ap (λ (h : Handled). h.pcb) e1 ∙ (wakes-kept h1).0;
      q_waits = refl;
      q_answers = ap (λ (h : Handled). h.sent) e1 ∙ (wakes-kept h1).1;
      p_hears =
          ap (λ (x : List (List ℕ) × Pcb). (arrive x.1 sock_p ip_q ack).pcb) c1
          ∙ ap (λ (h : Handled). h.pcb) e2;
      q_closes = ap (λ (x : List (List ℕ) × Pcb). x.0) c2;
      p_answers = ap (λ (h : Handled). h.sent) e3;
      p_freed = ap (λ (h : Handled). h.pcb) e3;
      q_freed =
          ap (λ (x : List (List ℕ) × Pcb). (arrive x.1 sock_q ip_p ack_back).pcb) c2
          ∙ ap (λ (h : Handled). h.pcb) e4;
    }
