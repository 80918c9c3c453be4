-- ===== src/Socket.antt =====
-- kernel/net/socket.c: the table of sockets, and the ring of bytes in which each keeps what it received.
-- A pointer to a task is its place in the list of tasks, a null pointer `none`; the memory of a buffer
-- that `kmalloc` gave is an argument, and sending and the protocol's own state are in tcp.c and net.c.
pub mod Ring
pub mod Wake
mod Datagrams
pub mod Stream
mod Table
mod Tests
use peker_os.Common.{
  ℕ, zero, suc, ◌+◌, ◌-◌, ◌*◌, ◌/◌, ◌%◌, ◌^◌, Bool, true, false, not, ◌&&◌, ◌==◌, ltb, leb,
  if◌then◌else◌, Option, none, some, List, [], ◌∷◌, ◌++◌, length, get_elem?, set, take,
}
use peker_os.Net.{htons}
use peker_os.Task.{Task, ready, sleep}

abbrev pub max_sockets : ℕ
max_sockets = 32

abbrev pub sock_stream : ℕ
sock_stream = 1

abbrev pub sock_dgram : ℕ
sock_dgram = 2

-- `socket_t`; the ring's memory is a function of the place in it.
pub record Socket : Type 0 where
  pub domain : ℕ
  pub type : ℕ
  pub protocol : ℕ
  pub local_port : ℕ
  pub local_addr : ℕ
  pub remote_port : ℕ
  pub remote_addr : ℕ
  pub buffer : ℕ → ℕ
  pub buffer_head : ℕ
  pub buffer_tail : ℕ
  pub buffer_len : ℕ
  pub waiting_task : Option ℕ
  pub tcp_pcb : Option ℕ
  pub in_use : Bool

-- `socket_packet_t` and the data that follows it.
pub record Packet : Type 0 where
  pub src_ip : ℕ
  pub src_port : ℕ
  pub payload : List ℕ

-- A `task_t`'s state is written through the pointer.
abbrev pub set_state : List Task → Option ℕ → Bool → List Task
set_state ts none awake = ts
set_state ts (some w) awake = elim (get_elem? ts w) [
  | none ↦ ts
  | some t ↦ set ts w (record t { state = if awake then ready else sleep })
]

-- A byte written at the head of the ring.
pub put_byte : Socket → ℕ → Socket
put_byte s b = record s {
  buffer = λ i. if i == s.buffer_head then b else s.buffer i;
  buffer_head = (s.buffer_head + 1) % 4096;
}

pub put_bytes : Socket → List ℕ → Socket
put_bytes s [] = s
put_bytes s (b ∷ bs) = put_bytes (put_byte s b) bs

-- Bytes read from the tail of the ring.
pub take_bytes : Socket → ℕ → List ℕ × Socket
take_bytes s zero = ([], s)
take_bytes s (suc n) =
    let (bs, s') = take_bytes (record s { buffer_tail = (s.buffer_tail + 1) % 4096 }) n in
    (s.buffer s.buffer_tail ∷ bs, s')

-- The eight bytes of a `socket_packet_t`, the low byte of a number first.
abbrev pub encode_header : Packet → List ℕ
encode_header p =
    p.src_ip % 256
    ∷ p.src_ip / 256 % 256
    ∷ p.src_ip / 65536 % 256
    ∷ p.src_ip / 16777216 % 256
    ∷ p.src_port % 256
    ∷ p.src_port / 256 % 256
    ∷ length p.payload % 256
    ∷ length p.payload / 256 % 256
    ∷ []

-- The address, the port and the data's length that the eight bytes stand for.
abbrev pub decode_header : List ℕ → ℕ × ℕ × ℕ
decode_header (a ∷ b ∷ c ∷ d ∷ e ∷ f ∷ g ∷ h ∷ []) =
    (a + 256 * b + 65536 * c + 16777216 * d, e + 256 * f, g + 256 * h)
decode_header _ = (0, 0, 0)

-- The header and the data go into the ring, and nobody waits any more.
pub store_packet : Socket → Packet → Socket
store_packet s p = record (put_bytes (put_bytes s (encode_header p)) p.payload) {
  buffer_len = s.buffer_len + (8 + length p.payload);
  waiting_task = none;
}

-- What `socket_dispatch_udp` does at the socket that it found: the socket, and the task to wake.
pub deliver : Socket → Packet → Socket × Option ℕ
deliver s p =
    if leb (s.buffer_len + 8 + length p.payload) 4096
    then (store_packet s p, s.waiting_task)
    else (s, none)

abbrev pub listens : ℕ → Socket → Bool
listens dest_port s = s.in_use && (s.local_port == dest_port)

-- The loop of `socket_dispatch_udp`: the first socket in use at the port.
pub dispatch_loop : List Socket → ℕ → Packet → List Socket × Option ℕ
dispatch_loop [] dest_port p = ([], none)
dispatch_loop (s ∷ ss) dest_port p =
    let rest = dispatch_loop ss dest_port p in
    if listens dest_port s then ((deliver s p).0 ∷ ss, (deliver s p).1) else (s ∷ rest.0, rest.1)

pub socket_dispatch_udp : List Socket → List Task → ℕ → Packet → List Socket × List Task
socket_dispatch_udp ss ts dest_port p =
    let (ss', woken) = dispatch_loop ss dest_port p in (ss', set_state ts woken true)

-- The fields of `struct sockaddr_in` that are written, of its 16 bytes.
pub record SockaddrIn : Type 0 where
  pub sin_family : ℕ
  pub sin_port : ℕ
  pub s_addr : ℕ

abbrev pub af_inet : ℕ
af_inet = 2

-- `socket_recvfrom` waits, having written who waits and that the task sleeps, or returns the bytes, with
-- what is written to `address`, if it is; `*address_len` is 16 then.
pub data Received : Type 0 where
  waits : Socket → List Task → Received
  returns : Socket → List ℕ → Option SockaddrIn → Received

-- The address of a datagram, where the caller has room for it: `room` is `*address_len`, `none` if one of
-- the two pointers is null.
pub address_for : Option ℕ → ℕ → ℕ → Option SockaddrIn
address_for none src_ip src_port = none
address_for (some address_len) src_ip src_port =
    if leb 16 address_len
    then some (record { sin_family = af_inet; sin_port = htons src_port; s_addr = src_ip })
    else none

-- The data behind the header of a datagram, as much of it as the buffer takes.
pub recv_payload : Socket → ℕ → Option ℕ → ℕ × ℕ × ℕ → Received
recv_payload s len room (src_ip, src_port, data_len) =
    let (bytes, s') = take_bytes s data_len in
    returns (record s' { buffer_len = (s.buffer_len + 2 ^ 32 - (8 + data_len)) % 2 ^ 32 })
      (take (if ltb len data_len then len else data_len) bytes) (address_for room src_ip src_port)

-- The branch of a datagram socket.
pub recv_dgram : Socket → ℕ → Option ℕ → Received
recv_dgram s len room =
    let (header, s') = take_bytes s 8 in recv_payload s' len room (decode_header header)

-- The branch of a stream.
pub recv_stream : Socket → ℕ → Received
recv_stream s len =
    let to_read = if ltb len s.buffer_len then len else s.buffer_len in
    let (bytes, s') = take_bytes s to_read in
    returns (record s' { buffer_len = s.buffer_len - to_read }) bytes none

-- One turn of the function: the task waits, and sleeps, if the ring is empty.
pub socket_recvfrom : Socket → List Task → ℕ → ℕ → Option ℕ → Received
socket_recvfrom s tasks current_task len room =
    if s.buffer_len == 0
    then waits (record s { waiting_task = some current_task })
        (set_state tasks (some current_task) false)
    else if s.type == sock_dgram
    then recv_dgram s len room
    else recv_stream s len

-- The first socket that is not in use.
pub free_slot : List Socket → ℕ
free_slot [] = 0
free_slot (s ∷ ss) = let rest = free_slot ss in if s.in_use then suc rest else 0

-- `socket_create`, with the new buffer's memory: the socket's place in the table, of 32, or `none`.
pub socket_create : List Socket → (ℕ → ℕ) → ℕ → ℕ → ℕ → Option (ℕ × List Socket)
socket_create ss memory domain type protocol = elim (get_elem? ss (free_slot ss)) [
  | none ↦ none
  | some s ↦ some (
    free_slot ss,
    set ss (free_slot ss) (record s {
      domain = domain;
      type = type;
      protocol = protocol;
      in_use = true;
      local_port = 0;
      buffer = memory;
      buffer_head = 0;
      buffer_tail = 0;
      buffer_len = 0;
      waiting_task = none;
    }),
  )
]

-- `socket_close`: the table, and the protocol's block that `tcp_close` is called at.
pub socket_close : List Socket → ℕ → List Socket × Option ℕ
socket_close ss i = elim (get_elem? ss i) [
  | none ↦ (ss, none)
  | some s ↦
      (set ss i (record s { in_use = false }), if s.type == sock_stream then s.tcp_pcb else none)
]
