-- ===== src/Tcp/Tests.antt =====
-- Runs of kernel/net/tcp.c at concrete blocks and segments.
use peker_os.Common.{
  ℕ, ◌+◌, ◌≤◌, ◌<◌, ◌≡◌, refl, ◌⊎◌, true, arith, zero, suc, none, some, get_elem?, List, [], ◌∷◌,
  ◌++◌, length,
}
use peker_os.Socket.{Socket}
use peker_os.Socket.Ring.{contents, Ahead}
use peker_os.Tcp.{
  TcpState, Pcb, listen, syn_sent, established, on_state, tcp_send_segment, unchanged,
}
use peker_os.Tcp.Edges.{Edge, state_of, on_state-Edge}
use peker_os.Tcp.Input.{Tcp, tcp_input}
use mathlib.Core.Option.{none-ne-some, some-injective}
use peker_os.Tcp.Search.{IsFor}
use peker_os.Tcp.Dispatch.{Dispatched, tcp_input-Dispatched}
use peker_os.Common.Copy.{memory}
use peker_os.Tcp.Segment.{SizedPcb, Reads, tcp_send_segment-Reads}
use peker_os.Tcp.Sessions.{arrive}
use peker_os.Tcp.Opening.{Opens, tcp_input-Opens}
use peker_os.Tcp.Stream.{data_segment, Delivers, tcp_input-Delivers, tcp_input-twice}
use peker_os.Tcp.Closing.{Closes, tcp_close-Closes}

abbrev client : Pcb
client = record {
  local_ip = 251789322;
  remote_ip = 33685514;
  local_port = 10000;
  remote_port = 80;
  state = syn_sent;
  snd_nxt = 100;
  rcv_nxt = 0;
  window_size = 4096;
  socket = none;
}

abbrev server : Pcb
server = record {
  local_ip = 33685514;
  remote_ip = 0;
  local_port = 80;
  remote_port = 0;
  state = listen;
  snd_nxt = 4294967295;
  rcv_nxt = 0;
  window_size = 4096;
  socket = some 0;
}

client-Sized : (state : TcpState) → SizedPcb (record client { state = state })
client-Sized state = record {
  local_port = omega arith;
  remote_port = omega arith;
  snd_nxt = omega arith;
  rcv_nxt = omega arith;
}

server-Sized : (state : TcpState) → SizedPcb (record server { state = state })
server-Sized state = record {
  local_port = omega arith;
  remote_port = omega arith;
  snd_nxt = omega arith;
  rcv_nxt = omega arith;
}

tcp_send_segment-Reads_example :
    Reads client 2 (1 ∷ 2 ∷ []) (memory (tcp_send_segment client 2 (1 ∷ 2 ∷ [])).0)
tcp_send_segment-Reads_example =
    tcp_send_segment-Reads client 2 (1 ∷ 2 ∷ []) (client-Sized syn_sent) (omega arith)

tcp_close-Closes_example :
    Closes
      (record client { state = established })
      (record server { state = established })
      none
      none
      251789322
      33685514
tcp_close-Closes_example =
    tcp_close-Closes (record client { state = established }) (record server { state = established })
      none none 251789322 33685514 (client-Sized established) (server-Sized established) refl refl

-- A stream's socket with nothing in it.
abbrev stream : Socket
stream = record {
  domain = 2;
  type = 1;
  protocol = 0;
  local_port = 80;
  local_addr = 0;
  remote_port = 0;
  remote_addr = 0;
  buffer = λ i. 0;
  buffer_head = 4095;
  buffer_tail = 4095;
  buffer_len = 0;
  waiting_task = some 2;
  tcp_pcb = some 0;
  in_use = true;
}

stream-Ahead : Ahead stream 0
stream-Ahead = record { tail_in = omega arith; head_at = refl; fits = omega arith }

abbrev serving : Pcb
serving = record server { state = established }

abbrev sending : Pcb
sending = record client { state = established }

abbrev hello : List ℕ
hello = 104 ∷ 105 ∷ []

tcp_input-Delivers_example :
    ((stream.buffer_len + length hello ≤ 4096)
      × Delivers serving sending stream hello
          (arrive serving (some stream) 7 (data_segment sending hello)))
    ⊎ ((4096 < stream.buffer_len + length hello)
        × (arrive serving (some stream) 7 (data_segment sending hello)
            ≡ unchanged serving (some stream)))
tcp_input-Delivers_example =
    tcp_input-Delivers serving sending stream 7 hello (client-Sized established) refl stream-Ahead
      (omega arith) (omega arith)

tcp_input-twice_example :
    (first : Delivers serving sending stream hello
      (arrive serving (some stream) 7 (data_segment sending hello)))
    × (again : Delivers first.block sending first.socket hello
        (arrive first.block (some first.socket) 7 (data_segment sending hello)))
    × (contents again.socket ≡ contents stream ++ hello ++ hello)
tcp_input-twice_example =
    tcp_input-twice serving sending stream 7 hello (client-Sized established) refl stream-Ahead
      (omega arith) (omega arith)

on_state-Edge_example :
    Edge
      (memory (tcp_send_segment client 2 []).0 13)
      listen
      (state_of (on_state listen server none 7 (memory (tcp_send_segment client 2 []).0) 20).pcb)
on_state-Edge_example =
    on_state-Edge listen server none 7 20 (memory (tcp_send_segment client 2 []).0) refl

abbrev tables : Tcp
tables = record { tcp_pcbs = none ∷ some server ∷ []; sockets = stream ∷ []; tasks = []; sent = [] }

tcp_input-Dispatched_example :
    Dispatched tables 251789322
      (memory (tcp_send_segment client 2 []).0)
      20
      (tcp_input tables 251789322 (memory (tcp_send_segment client 2 []).0) 20)
tcp_input-Dispatched_example =
    tcp_input-Dispatched tables 251789322 (memory (tcp_send_segment client 2 []).0) 20

abbrev client_tables : Tcp
client_tables = record {
  tcp_pcbs = some (tcp_send_segment client 2 []).1 ∷ [];
  sockets = [];
  tasks = [];
  sent = [];
}

tcp_input-Opens_example :
    Opens client_tables tables 0 1 251789322 33685514 (tcp_send_segment client 2 []).0
tcp_input-Opens_example =
    tcp_input-Opens client_tables tables 0 1 client server 251789322 33685514
      (client-Sized syn_sent) (server-Sized listen) refl refl refl refl refl refl
      (λ j p lt at. absurd (omega (arith, lt))) only
  where
    only :
        (j : ℕ) (p : Pcb)
        → j < 1
        → get_elem? (none ∷ some server ∷ []) j ≡ some (some p)
        → ¬ IsFor 251789322 10000 80 p
    only zero p lt at = absurd (none-ne-some p (some-injective none (some p) at))
    only (suc j) p lt at = absurd (omega arith)
