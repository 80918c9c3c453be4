-- ===== src/Tcp/Calls.antt =====
-- kernel/net/socket.c: `socket_bind`, `socket_connect`, `socket_listen`, `socket_accept`, `socket_sendto`.
-- A socket is its place in the table. What waits at the scheduler is a function for each turn.
use peker_os.Common.{
  ℕ, ◌<◌, ◌≡◌, refl, Bool, true, false, arith, ◌==◌, if◌then◌else◌, Option, none, some, List, [],
  ◌∷◌, ◌++◌, length, get_elem?, set, length-set, get_elem?-set_self, take, ◌%◌, ◌^◌,
}
use peker_os.Socket.{Socket, sock_stream, sock_dgram, set_state}
use peker_os.Net.{htons}
use peker_os.Tcp.{
  TcpState, listen, syn_sent, established, Pcb, new_pcb, tcp_syn, tcp_new_pcb, tcp_send_segment,
}
use peker_os.Tcp.Input.{Tcp}

unfoldable pub set_socket : Tcp → ℕ → Socket → Tcp
set_socket st i s = record st { sockets = set st.sockets i s }

unfoldable pub set_pcb : Tcp → ℕ → Pcb → Tcp
set_pcb st k p = record st { tcp_pcbs = set st.tcp_pcbs k (some p) }

unfoldable pub pcb_of : Tcp → Socket → Option (ℕ × Pcb)
pcb_of st s = elim s.tcp_pcb [
  | none ↦ none
  | some k ↦ elim (get_elem? st.tcp_pcbs k) [
    | none ↦ none
    | some entry ↦ elim entry [ none ↦ none | some p ↦ some (k, p) ]
  ]
]

-- The port in the order of the network, and the address.
unfoldable pub socket_bind : Tcp → ℕ → Socket → ℕ → ℕ → Tcp
socket_bind st i s sin_port s_addr =
    let s1 = record s { local_port = htons sin_port; local_addr = s_addr } in
    let st1 = set_socket st i s1 in
    if s.type == sock_stream
    then elim (pcb_of st s) [
      | none ↦ st1
      | some (k, p) ↦
          set_pcb st1 k (record p { local_port = s1.local_port; local_ip = s1.local_addr })
    ]
    else st1

-- The control block of a socket, made if there is none; `none` if the table is full, when the code goes
-- on with a null pointer.
unfoldable pub own_pcb : Tcp → ℕ → Socket → Option (ℕ × Pcb × Tcp)
own_pcb st i s = elim s.tcp_pcb [
  | some old ↦ elim (pcb_of st s) [ none ↦ none | some (k, p) ↦ some (k, p, st) ]
  | none ↦ elim (tcp_new_pcb st.tcp_pcbs) [
    | none ↦ none
    | some (k, pcbs) ↦
        (let p = record new_pcb { socket = some i } in
          some (
            k,
            p,
            set_socket (set_pcb (record st { tcp_pcbs = pcbs }) k p) i
                (record s { tcp_pcb = some k }),
          ))
  ]
]

-- Whether the socket listens, and the state.
unfoldable pub socket_listen : Tcp → ℕ → Socket → Option (Bool × Tcp)
socket_listen st i s =
    if s.type == sock_stream
    then elim (own_pcb st i s) [
      | none ↦ none
      | some (k, p, st1) ↦
          some (true, set_pcb st1 k (record p { local_port = s.local_port; state = listen }))
    ]
    else some (false, st)

-- `socket_connect` up to its call of the scheduler: the SYN is sent, and the task waits. The local port
-- is the one that tcp_get_free_port gives; the request for the address of the
-- card, and the hundred turns of other tasks before the SYN, are left out.
unfoldable pub connect_start : Tcp → ℕ → Socket → ℕ → ℕ → ℕ → ℕ → ℕ → Option Tcp
connect_start st i s sin_port s_addr free_port my_ip current =
    let s1 = record s { remote_addr = s_addr; remote_port = htons sin_port } in
    if s.type == sock_stream
    then elim (own_pcb (set_socket st i s1) i s1) [
      | none ↦ none
      | some (k, p, st1) ↦
          (let p1 = record p {
            local_port = free_port;
            local_ip = my_ip;
            remote_port = s1.remote_port;
            remote_ip = s_addr;
            state = syn_sent;
            snd_nxt = 100;
          } in
            let (segment, p2) = tcp_send_segment p1 tcp_syn [] in
            let st2 = set_pcb st1 k p2 in
            some
              (record (set_socket st2 i
                (record s1 { tcp_pcb = some k; waiting_task = some current })) {
                  tasks = set_state st2.tasks (some current) false;
                  sent = st2.sent ++ (segment ∷ []);
                }))
    ]
    else some (set_socket st i s1)

abbrev is_established : TcpState → Bool
is_established established = true
is_established _ = false

-- What `socket_connect` returns when the task runs again.
unfoldable pub connect_result : Tcp → Socket → Bool
connect_result st s =
    if s.type == sock_stream
    then elim (pcb_of st s) [ none ↦ false | some (k, p) ↦ is_established p.state ]
    else true

-- A turn of `socket_accept`: the node is returned, or the task waits, or there is an error, or the code
-- follows a null pointer to a control block.
pub data Accepted : Type 0 where
  accepts : Accepted
  crashes : Accepted
  sleeps : Tcp → Accepted
  refuses : Accepted

unfoldable pub socket_accept : Tcp → ℕ → Socket → ℕ → Accepted
socket_accept st i s current =
    if s.type == sock_stream
    then elim (pcb_of st s) [
      | none ↦ crashes
      | some (k, p) ↦
          if is_established p.state
          then accepts
          else sleeps (record (set_socket st i (record s { waiting_task = some current })) {
            tasks = set_state st.tasks (some current) false;
          })
    ]
    else refuses

-- `socket_sendto`: an error, or the number returned and either the arguments of `net_send_udp`, or the
-- state after a segment is sent. The number is the length given, of which a segment has the
-- low 16 bits.
pub data SentTo : Type 0 where
  refused : SentTo
  datagram : ℕ → ℕ → ℕ → ℕ → List ℕ → SentTo
  segment_sent : ℕ → Tcp → SentTo

-- The address and the port of a destination, or those of the socket.
unfoldable pub destination : Socket → Option (ℕ × ℕ) → Option (ℕ × ℕ)
destination s dest = elim dest [
  | some (s_addr, sin_port) ↦ some (s_addr, htons sin_port)
  | none ↦ if s.remote_addr == 0 then none else some (s.remote_addr, s.remote_port)
]

unfoldable pub socket_sendto : Tcp → Socket → List ℕ → Option (ℕ × ℕ) → SentTo
socket_sendto st s message dest =
    if s.type == sock_dgram
    then elim (destination s dest) [
      | none ↦ refused
      | some (address, port) ↦ datagram (length message) address port s.local_port message
    ]
    else if s.type == sock_stream
    then elim (pcb_of st s) [
      | none ↦ refused
      | some (k, p) ↦
          if is_established p.state
          then (let (segment, p1) =
                tcp_send_segment p 24 (take (length message % 2 ^ 16) message) in
              segment_sent (length message)
                (record (set_pcb st k p1) { sent = st.sent ++ (segment ∷ []) }))
          else refused
    ]
    else refused

-- A stream's socket without a control block that listens: the first free place of the table has a block
-- that listens at the socket's port, for the socket.
pub socket_listen-new :
    (st : Tcp) (i : ℕ) (s : Socket) (k : ℕ) (pcbs : List (Option Pcb))
    → s.type ≡ sock_stream
    → s.tcp_pcb ≡ none
    → tcp_new_pcb st.tcp_pcbs ≡ some (k, pcbs)
    → k < length pcbs
    → (out : Bool × Tcp) × (socket_listen st i s ≡ some out)
      × (get_elem? out.1.tcp_pcbs k
          ≡ some (
              some (record new_pcb { local_port = s.local_port; state = listen; socket = some i })))
unfolding socket_listen own_pcb set_pcb set_socket
socket_listen-new st i s k pcbs stream none_yet new lt =
    let is : s.type == sock_stream ≡ true = ground arith in
    rw (is, none_yet, new)
      (
        _,
        refl,
        get_elem?-set_self (set pcbs k _) k _
            (omega (arith, length-set pcbs k (some (record new_pcb { socket = some i })))),
      )
