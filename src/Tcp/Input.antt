-- ===== src/Tcp/Input.antt =====
-- kernel/net/tcp.c: `tcp_input` and `tcp_close` on the table of control blocks.
use peker_os.Common.{
  ℕ, suc, ◌+◌, Bool, true, false, ◌&&◌, ◌||◌, ◌==◌, if◌then◌else◌, Option, none, some, List, [],
  ◌∷◌, ◌++◌, get_elem?, set,
}
use peker_os.Net.{htons, load16}
use peker_os.Task.{Task}
use peker_os.Socket.{Socket, set_state}
use peker_os.Tcp.{
  TcpState, Pcb, Handled, closed, listen, established, close_wait, fin_wait_1, last_ack, tcp_fin,
  tcp_ack, tcp_send_segment, on_state,
}

-- The tables, the tasks, and the segments sent so far, the last one first.
pub record Tcp : Type 0 where
  pub tcp_pcbs : List (Option Pcb)
  pub sockets : List Socket
  pub tasks : List Task
  pub sent : List (List ℕ)

abbrev pub is_listen : TcpState → Bool
is_listen listen = true
is_listen _ = false

-- A segment from an address and a port, for a port, is for a block.
abbrev pub is_for : ℕ → ℕ → ℕ → Option Pcb → Bool
is_for src_ip src_port dest_port none = false
is_for src_ip src_port dest_port (some p) =
    (p.local_port == dest_port)
    && (is_listen p.state || ((p.remote_port == src_port) && (p.remote_ip == src_ip)))

-- The loop of `tcp_input`: the first block that the segment is for.
unfoldable pub find_pcb : List (Option Pcb) → ℕ → ℕ → ℕ → Option (ℕ × Pcb)
find_pcb [] src_ip src_port dest_port = none
find_pcb (none ∷ ps) src_ip src_port dest_port = elim (find_pcb ps src_ip src_port dest_port) [
  | none ↦ none
  | some (i, p) ↦ some (suc i, p)
]
find_pcb (some p ∷ ps) src_ip src_port dest_port =
    let rest = find_pcb ps src_ip src_port dest_port in
    if is_for src_ip src_port dest_port (some p)
    then some (0, p)
    else elim rest [ none ↦ none | some (i, q) ↦ some (suc i, q) ]

-- A block's socket.
abbrev pub socket_of : List Socket → Pcb → Option Socket
socket_of ss p = elim p.socket [ none ↦ none | some k ↦ get_elem? ss k ]

abbrev pub put_socket : List Socket → Pcb → Option Socket → List Socket
put_socket ss p none = ss
put_socket ss p (some s) = elim p.socket [ none ↦ ss | some k ↦ set ss k s ]

-- What is done at a block is written back to the tables.
unfoldable pub write_back : Tcp → ℕ → Pcb → Handled → Tcp
write_back t i p h = record {
  tcp_pcbs = set t.tcp_pcbs i h.pcb;
  sockets = put_socket t.sockets p h.sock;
  tasks = set_state t.tasks h.woken true;
  sent = h.sent ++ t.sent;
}

unfoldable pub tcp_input : Tcp → ℕ → (ℕ → ℕ) → ℕ → Tcp
tcp_input t src_ip seg len =
    elim (find_pcb t.tcp_pcbs src_ip (htons (load16 seg 0)) (htons (load16 seg 2))) [
      | none ↦ t
      | some (i, p) ↦ write_back t i p (on_state p.state p (socket_of t.sockets p) src_ip seg len)
    ]

-- `tcp_close`, at the block: the segments sent, and the block after.
unfoldable pub tcp_close : Pcb → List (List ℕ) × Pcb
tcp_close p = elim p.state [
  | established ↦
      let (bytes, p') = tcp_send_segment p (tcp_fin + tcp_ack) [] in
      (bytes ∷ [], record p' { state = fin_wait_1 })
  | close_wait ↦
      let (bytes, p') = tcp_send_segment p (tcp_fin + tcp_ack) [] in
      (bytes ∷ [], record p' { state = last_ack })
  | _ ↦ ([], record p { state = closed })
]
