-- ===== src/Tcp/Sessions.antt =====
-- Two ends of kernel/net/tcp.c that hear each other: opening, data, and closing.
use peker_os.Common.{
  ℕ, ◌+◌, ◌%◌, ◌^◌, ◌≡◌, refl, ap, ◌∙◌, true, ◌&&◌, arith, Option, none, some, List, [], ◌∷◌,
  length,
}
use peker_os.Socket.{Socket}
use peker_os.Tcp.{
  Pcb, Handled, listen, syn_sent, syn_received, established, tcp_syn, tcp_ack, has_syn, has_ack,
  tcp_send_segment, unchanged, replies, wakes, on_state, on_listen, on_syn_sent, on_syn_received,
}
use peker_os.Common.Copy.{memory}
use peker_os.Net.{htons, load16}
use peker_os.Tcp.Search.{IsFor, talks}
use peker_os.Tcp.Segment.{SizedPcb, Reads, tcp_send_segment-Reads}

-- The bytes of a segment arrive at a block.
abbrev pub arrive : Pcb → Option Socket → ℕ → List ℕ → Handled
arrive p sock src_ip bytes = on_state p.state p sock src_ip (memory bytes) (length bytes)

-- The two ends are connected, each waits for what the other sends next, and their ports agree.
pub record Connected (c s : Pcb) : Type 0 where
  pub client : c.state ≡ established
  pub server : s.state ≡ established
  pub to_client : c.rcv_nxt ≡ s.snd_nxt
  pub to_server : s.rcv_nxt ≡ c.snd_nxt
  pub client_port : s.remote_port ≡ c.local_port
  pub server_port : c.remote_port ≡ s.local_port

-- The listening block, opened for the sender of a segment.
abbrev opened : Pcb → Pcb → ℕ → Pcb
opened s c src_ip = record s {
  remote_port = c.local_port;
  remote_ip = src_ip;
  rcv_nxt = (c.snd_nxt + 1) % 2 ^ 32;
}

listen-syn :
    (s c : Pcb) (sock : Option Socket) (src_ip len : ℕ) (seg : ℕ → ℕ)
    → s.state ≡ listen
    → Reads c tcp_syn [] seg
    → on_state s.state s sock src_ip seg len
      ≡ replies (opened s c src_ip) (tcp_syn + tcp_ack) syn_received sock
unfolding on_state on_listen
listen-syn s c sock src_ip len seg state r =
    let syn : has_syn (seg 13) ≡ true = rw r.has_flags refl in
    rw (state, on_state) (rw (syn, on_listen) (rw (r.src_port, r.seq) refl))

syn_sent-syn_ack :
    (c s : Pcb) (sock : Option Socket) (src_ip len : ℕ) (seg : ℕ → ℕ)
    → c.state ≡ syn_sent
    → Reads s (tcp_syn + tcp_ack) [] seg
    → on_state c.state c sock src_ip seg len
      ≡ wakes (replies (record c { rcv_nxt = (s.snd_nxt + 1) % 2 ^ 32 }) tcp_ack established sock)
unfolding on_state on_syn_sent
syn_sent-syn_ack c s sock src_ip len seg state r =
    let both : has_syn (seg 13) && has_ack (seg 13) ≡ true = rw r.has_flags refl in
    simp (state, on_state)
      (rw (both, on_syn_sent)
        (ap
          (λ n. wakes (replies (record c { rcv_nxt = (n + 1) % 2 ^ 32 }) tcp_ack established sock))
          r.seq))

syn_received-ack :
    (s c : Pcb) (sock : Option Socket) (src_ip len : ℕ) (seg : ℕ → ℕ)
    → s.state ≡ syn_received
    → Reads c tcp_ack [] seg
    → on_state s.state s sock src_ip seg len ≡ unchanged (record s { state = established }) sock
unfolding on_state on_syn_received
syn_received-ack s c sock src_ip len seg state r =
    let ack : has_ack (seg 13) ≡ true = rw r.has_flags refl in
    rw (state, on_state) (rw (ack, on_syn_received) refl)

-- A wake-up changes neither the block nor what is sent.
pub wakes-kept : (h : Handled) → ((wakes h).pcb ≡ h.pcb) × ((wakes h).sent ≡ h.sent)
wakes-kept h = go h.sock refl
  where
    go : (o : Option Socket) → h.sock ≡ o → ((wakes h).pcb ≡ h.pcb) × ((wakes h).sent ≡ h.sent)
    go none e = (ground (arith, e), ground (arith, e))
    go (some x) e = (ground (arith, e), ground (arith, e))

-- The ports of a segment's header.
pub record AtPorts (bytes : List ℕ) (src dest : ℕ) : Type 0 where
  pub src_port : htons (load16 (memory bytes) 0) ≡ src
  pub dest_port : htons (load16 (memory bytes) 2) ≡ dest

-- The three segments that open a connection, and what each end makes of them.
pub record Exchange (c s : Pcb) (sock_c sock_s : Option Socket) (ip_c ip_s : ℕ) : Type 0 where
  pub server_1 : Pcb
  pub client_2 : Pcb
  pub server_2 : Pcb
  pub syn_ack : List ℕ
  pub ack : List ℕ
  pub syn_received_by : (arrive s sock_s ip_c (tcp_send_segment c tcp_syn []).0).pcb ≡ some server_1
  pub syn_ack_sent : (arrive s sock_s ip_c (tcp_send_segment c tcp_syn []).0).sent ≡ syn_ack ∷ []
  pub syn_ack_received :
      (arrive (tcp_send_segment c tcp_syn []).1 sock_c ip_s syn_ack).pcb ≡ some client_2
  pub ack_sent : (arrive (tcp_send_segment c tcp_syn []).1 sock_c ip_s syn_ack).sent ≡ ack ∷ []
  pub ack_received : (sock : Option Socket) → (arrive server_1 sock ip_c ack).pcb ≡ some server_2
  pub quiet : (sock : Option Socket) → (arrive server_1 sock ip_c ack).sent ≡ []
  pub connected : Connected client_2 server_2
  pub client_ip : server_2.remote_ip ≡ ip_c
  pub server_ip : client_2.remote_ip ≡ c.remote_ip
  pub for_client : AtPorts syn_ack s.local_port c.local_port
  pub for_server : AtPorts ack c.local_port s.local_port
  pub answers : IsFor ip_c c.local_port s.local_port server_1

pub arrive-Exchange :
    (c s : Pcb) (sock_c sock_s : Option Socket) (ip_c ip_s : ℕ)
    → SizedPcb c
    → SizedPcb s
    → c.state ≡ syn_sent
    → s.state ≡ listen
    → c.remote_port ≡ s.local_port
    → Exchange c s sock_c sock_s ip_c ip_s
unfolding tcp_send_segment
arrive-Exchange c s sock_c sock_s ip_c ip_s zc zs client server port =
    let c1 : Pcb = (tcp_send_segment c tcp_syn []).1 in
    let s0 : Pcb = opened s c ip_c in
    let s1 : Pcb = record (tcp_send_segment s0 (tcp_syn + tcp_ack) []).1 { state = syn_received } in
    let c2 : Pcb = record c1 { rcv_nxt = (s.snd_nxt + 1) % 2 ^ 32 } in
    let c3 : Pcb = record (tcp_send_segment c2 tcp_ack []).1 { state = established } in
    let syn : List ℕ = (tcp_send_segment c tcp_syn []).0 in
    let syn_ack : List ℕ = (tcp_send_segment s0 (tcp_syn + tcp_ack) []).0 in
    let ack : List ℕ = (tcp_send_segment c2 tcp_ack []).0 in
    let z0 : SizedPcb s0 = record {
      local_port = zs.local_port;
      remote_port = zc.local_port;
      snd_nxt = zs.snd_nxt;
      rcv_nxt = omega arith;
    } in
    let z2 : SizedPcb c2 = record {
      local_port = zc.local_port;
      remote_port = zc.remote_port;
      snd_nxt = omega arith;
      rcv_nxt = omega arith;
    } in
    let e1 =
      listen-syn s c sock_s ip_c (length syn) (memory syn) server
        (tcp_send_segment-Reads c tcp_syn [] zc (omega arith)) in
    let r1 = tcp_send_segment-Reads s0 (tcp_syn + tcp_ack) [] z0 (omega arith) in
    let r2 = tcp_send_segment-Reads c2 tcp_ack [] z2 (omega arith) in
    let e2 =
      syn_sent-syn_ack c1 s0 sock_c ip_s (length syn_ack) (memory syn_ack) client
        (tcp_send_segment-Reads s0 (tcp_syn + tcp_ack) [] z0 (omega arith)) in
    let e3 = λ (sock : Option Socket).
      syn_received-ack s1 c2 sock ip_c (length ack) (memory ack) refl r2 in
    let h2 : Handled = replies c2 tcp_ack established sock_c in
    record {
      server_1 = s1;
      client_2 = c3;
      server_2 = record s1 { state = established };
      syn_ack = syn_ack;
      ack = ack;
      syn_received_by = ap (λ (h : Handled). h.pcb) e1;
      syn_ack_sent = ap (λ (h : Handled). h.sent) e1;
      syn_ack_received = ap (λ (h : Handled). h.pcb) e2 ∙ (wakes-kept h2).0;
      ack_sent = ap (λ (h : Handled). h.sent) e2 ∙ (wakes-kept h2).1;
      ack_received = λ sock. ap (λ (h : Handled). h.pcb) (e3 sock);
      quiet = λ sock. ap (λ (h : Handled). h.sent) (e3 sock);
      connected = record {
        client = refl;
        server = refl;
        to_client = omega arith;
        to_server = omega arith;
        client_port = refl;
        server_port = port;
      };
      client_ip = refl;
      server_ip = refl;
      for_client = record { src_port = r1.src_port; dest_port = r1.dest_port };
      for_server = record { src_port = r2.src_port; dest_port = r2.dest_port ∙ port };
      answers = talks refl refl refl;
    }
