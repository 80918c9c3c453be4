-- ===== src/Tcp/Opening.antt =====
-- How two hosts of kernel/net/tcp.c open a connection: three segments through `tcp_input` and its tables.
use peker_os.Common.{
  ℕ, ◌≡◌, refl, sym, ap, ◌∙◌, arith, some, List, [], ◌∷◌, ◌++◌, length, get_elem?,
}
use mathlib.Core.Path.{subst}
use peker_os.Common.Copy.{memory}
use peker_os.Net.{htons, load16}
use peker_os.Tcp.{Pcb, syn_sent, listen, tcp_syn, tcp_send_segment}
use peker_os.Tcp.Input.{Tcp, socket_of, tcp_input}
use peker_os.Tcp.Search.{IsFor, listens, talks, NoneFor}
use peker_os.Tcp.Dispatch.{Handles, tcp_input-Handles}
use peker_os.Tcp.Segment.{SizedPcb, tcp_send_segment-Reads}
use peker_os.Tcp.Sessions.{arrive, AtPorts, Connected, arrive-Exchange}

-- A host hears a segment from an address.
abbrev pub hears : Tcp → ℕ → List ℕ → Tcp
hears t src_ip bytes = tcp_input t src_ip (memory bytes) (length bytes)

hears-Handles :
    (t : Tcp) (src_ip : ℕ) (bytes : List ℕ) (i : ℕ) (p : Pcb) (src dest : ℕ)
    → AtPorts bytes src dest
    → get_elem? t.tcp_pcbs i ≡ some (some p)
    → IsFor src_ip src dest p
    → NoneFor src_ip src dest t.tcp_pcbs i
    → Handles t i p (arrive p (socket_of t.sockets p) src_ip bytes) (hears t src_ip bytes)
hears-Handles t src_ip bytes i p src dest ports at is before =
    tcp_input-Handles t src_ip (memory bytes) (length bytes) i p at
      (move (λ x y. IsFor src_ip x y p) is) (move (λ x y. NoneFor src_ip x y t.tcp_pcbs i) before)
  where
    move :
        (P : ℕ → ℕ → Type 0)
        → P src dest
        → P (htons (load16 (memory bytes) 0)) (htons (load16 (memory bytes) 2))
    move P h =
        subst (λ x. P x (htons (load16 (memory bytes) 2))) (sym ports.src_port)
          (subst (λ y. P src y) (sym ports.dest_port) h)

-- The three segments through the two hosts' tables, and the two blocks then.
pub record Opens (client_host server_host : Tcp) (i k ip_c ip_s : ℕ) (syn : List ℕ) : Type 0 where
  pub syn_ack : List ℕ
  pub ack : List ℕ
  pub client : Pcb
  pub server : Pcb
  pub answered : (hears server_host ip_c syn).sent ≡ syn_ack ∷ server_host.sent
  pub confirmed : (hears client_host ip_s syn_ack).sent ≡ ack ∷ client_host.sent
  pub quiet : (hears (hears server_host ip_c syn) ip_c ack).sent ≡ (hears server_host ip_c syn).sent
  pub client_block : get_elem? (hears client_host ip_s syn_ack).tcp_pcbs i ≡ some (some client)
  pub server_block :
      get_elem? (hears (hears server_host ip_c syn) ip_c ack).tcp_pcbs k ≡ some (some server)
  pub connected : Connected client server
  pub client_ip : server.remote_ip ≡ ip_c
  pub server_ip : client.remote_ip ≡ ip_s

-- A host's block has sent its SYN, as `socket_connect` does, to the address and the port at which another
-- host's block listens; the fields of both have their widths, and no block in front of the two in their
-- tables is one for the segments between the two. When the hosts hear the SYN, the answer and the answer
-- to that through `tcp_input`, each at its table, the two blocks are connected: each has the ports and
-- the address of the other and waits for what the other sends next, whatever the initial sequence
-- numbers are, and no more is sent.
pub tcp_input-Opens :
    (client_host server_host : Tcp) (i k : ℕ) (c s : Pcb) (ip_c ip_s : ℕ)
    → SizedPcb c
    → SizedPcb s
    → c.state ≡ syn_sent
    → s.state ≡ listen
    → c.remote_port ≡ s.local_port
    → c.remote_ip ≡ ip_s
    → get_elem? client_host.tcp_pcbs i ≡ some (some (tcp_send_segment c tcp_syn []).1)
    → get_elem? server_host.tcp_pcbs k ≡ some (some s)
    → NoneFor ip_s s.local_port c.local_port client_host.tcp_pcbs i
    → NoneFor ip_c c.local_port s.local_port server_host.tcp_pcbs k
    → Opens client_host server_host i k ip_c ip_s (tcp_send_segment c tcp_syn []).0
unfolding tcp_send_segment
tcp_input-Opens client_host server_host i k c s ip_c ip_s zc zs client server port ip at_i at_k
      first_i first_k =
    let syn : List ℕ = (tcp_send_segment c tcp_syn []).0 in
    let c1 : Pcb = (tcp_send_segment c tcp_syn []).1 in
    let x =
      arrive-Exchange c s (socket_of client_host.sockets c1) (socket_of server_host.sockets s) ip_c
        ip_s zc zs client server port in
    let r = tcp_send_segment-Reads c tcp_syn [] zc (omega arith) in
    let to_server : AtPorts syn c.local_port s.local_port = record {
      src_port = r.src_port;
      dest_port = r.dest_port ∙ port;
    } in
    let h1 =
      hears-Handles server_host ip_c syn k s c.local_port s.local_port to_server at_k
        (listens server refl) first_k in
    let at_k1 = h1.block ∙ ap some x.syn_received_by in
    let h2 =
      hears-Handles client_host ip_s x.syn_ack i c1 s.local_port c.local_port x.for_client at_i
        (talks refl port ip) first_i in
    let h3 =
      hears-Handles (hears server_host ip_c syn) ip_c x.ack k x.server_1 c.local_port s.local_port
        x.for_server at_k1 x.answers
        (λ j p lt at.
          first_k j p lt (sym (h1.other_blocks j (λ e. absurd (omega (arith, e, lt)))) ∙ at)) in
    record {
      syn_ack = x.syn_ack;
      ack = x.ack;
      client = x.client_2;
      server = x.server_2;
      answered = h1.sent ∙ ap (λ l. l ++ server_host.sent) x.syn_ack_sent;
      confirmed = h2.sent ∙ ap (λ l. l ++ client_host.sent) x.ack_sent;
      quiet = h3.sent ∙ ap (λ l. l ++ (hears server_host ip_c syn).sent) (x.quiet _);
      client_block = h2.block ∙ ap some x.syn_ack_received;
      server_block = h3.block ∙ ap some (x.ack_received _);
      connected = x.connected;
      client_ip = x.client_ip;
      server_ip = x.server_ip ∙ ip;
    }
