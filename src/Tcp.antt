-- ===== src/Tcp.antt =====
-- kernel/net/tcp.c: the protocol control blocks of TCP, and the state machine that a segment drives.
-- A control block is a place of the table of 16, its socket a place of the table of sockets, and a
-- segment is the memory from its header on. What is sent is the list of the segments' bytes; the
-- headers of IPv4 in front of them, `kmalloc`, and the messages are left out.
pub mod Input
pub mod Search
pub mod Dispatch
mod Segment
mod Edges
mod Tables
mod Sessions
mod Opening
mod Stream
mod Closing
pub mod Calls
mod Tests
use peker_os.Common.{
  ℕ, zero, suc, ◌+◌, ◌-◌, ◌*◌, ◌/◌, ◌%◌, ◌^◌, Bool, true, false, not, ◌&&◌, ◌||◌, ◌==◌, ltb, leb,
  if◌then◌else◌, Option, none, some, List, [], ◌∷◌, ◌++◌, length, get_elem?, set, take,
}
use peker_os.Common.Bytes.{bit}
use peker_os.Net.{htons, htonl, load16, load32, store16, store32, sum_words, finish_checksum}
use peker_os.Task.{Task}
use peker_os.Socket.{Socket, set_state, put_bytes}

pub data TcpState : Type 0 where
  closed listen syn_sent syn_received established fin_wait_1 fin_wait_2 close_wait closing last_ack
        time_wait :
      TcpState

-- `tcp_pcb_t`.
pub record Pcb : Type 0 where
  pub local_ip : ℕ
  pub remote_ip : ℕ
  pub local_port : ℕ
  pub remote_port : ℕ
  pub state : TcpState
  pub snd_nxt : ℕ
  pub rcv_nxt : ℕ
  pub window_size : ℕ
  pub socket : Option ℕ

-- The bits of `flags`.
abbrev pub tcp_fin : ℕ
tcp_fin = 1

abbrev pub tcp_syn : ℕ
tcp_syn = 2

abbrev pub tcp_ack : ℕ
tcp_ack = 16

abbrev pub has_fin : ℕ → Bool
has_fin flags = bit flags 0

abbrev pub has_syn : ℕ → Bool
has_syn flags = bit flags 1

abbrev pub has_ack : ℕ → Bool
has_ack flags = bit flags 4

-- The block that `tcp_new_pcb` makes.
abbrev pub new_pcb : Pcb
new_pcb = record {
  local_ip = 0;
  remote_ip = 0;
  local_port = 0;
  remote_port = 0;
  state = closed;
  snd_nxt = 0;
  rcv_nxt = 0;
  window_size = 4096;
  socket = none;
}

-- `tcp_new_pcb`: the first null pointer of the table becomes the new block.
pub tcp_new_pcb : List (Option Pcb) → Option (ℕ × List (Option Pcb))
tcp_new_pcb [] = none
tcp_new_pcb (none ∷ ps) = some (0, some new_pcb ∷ ps)
tcp_new_pcb (some p ∷ ps) = elim (tcp_new_pcb ps) [
  | none ↦ none
  | some (i, ps') ↦ some (suc i, some p ∷ ps')
]

-- The addresses, the protocol and the length, and then the segment.
pub tcp_checksum : ℕ → ℕ → ℕ → List ℕ → ℕ
tcp_checksum src_ip dest_ip protocol bytes = finish_checksum (
    sum_words 0 (
      store32 src_ip
      ++ store32 dest_ip
      ++ store16 (htons protocol)
      ++ store16 (htons (length bytes))
      ++ bytes))

-- The segment's header and its data, with this checksum.
pub segment_bytes : Pcb → ℕ → List ℕ → ℕ → List ℕ
segment_bytes p flags bytes checksum =
    store16 (htons p.local_port)
    ++ store16 (htons p.remote_port)
    ++ store32 (htonl p.snd_nxt)
    ++ store32 (htonl p.rcv_nxt)
    ++ (80 ∷ flags ∷ [])
    ++ store16 (htons p.window_size)
    ++ store16 checksum
    ++ (0 ∷ 0 ∷ [])
    ++ bytes

-- `tcp_send_segment` of data of less than 2 ^ 16 bytes: the bytes that are sent, and the block after.
-- The length of the whole segment is a word of 16 bits, and for data of 65516 bytes or more wraps round:
-- the buffer, the checksum and what is sent are cut to it, and what is written behind the buffer is not
-- modelled.
pub tcp_send_segment : Pcb → ℕ → List ℕ → List ℕ × Pcb
tcp_send_segment p flags bytes = (
  take ((20 + length bytes) % 2 ^ 16) (
      segment_bytes p flags bytes (
        tcp_checksum p.local_ip p.remote_ip 6
          (take ((20 + length bytes) % 2 ^ 16) (segment_bytes p flags bytes 0)))),
  record p {
    snd_nxt =
        (p.snd_nxt + (if has_syn flags || has_fin flags then 1 else 0) + length bytes) % 2 ^ 32;
  },
)

-- The port given, and the next one.
pub tcp_get_free_port : ℕ → ℕ × ℕ
tcp_get_free_port next_port =
    let next = (next_port + 1) % 2 ^ 16 in (next_port, if ltb 60000 next then 10000 else next)

-- What the arrival of a segment at a block does: the block, `none` if it is freed, its socket, the task
-- that the socket wakes, and the segments that are sent.
pub record Handled : Type 0 where
  pub pcb : Option Pcb
  pub sock : Option Socket
  pub woken : Option ℕ
  pub sent : List (List ℕ)

abbrev pub unchanged : Pcb → Option Socket → Handled
unchanged p sock = record { pcb = some p; sock = sock; woken = none; sent = [] }

-- A segment without data is sent, and the block is in the state given then.
abbrev pub replies : Pcb → ℕ → TcpState → Option Socket → Handled
replies p flags state sock =
    let (bytes, p') = tcp_send_segment p flags [] in
    record {
      pcb = some (record p' { state = state });
      sock = sock;
      woken = none;
      sent = bytes ∷ [];
    }

-- The task that waits at the socket is woken.
abbrev pub wakes : Handled → Handled
wakes h = elim h.sock [
  | none ↦ h
  | some s ↦ record h { sock = some (record s { waiting_task = none }); woken = s.waiting_task }
]

-- `TCP_LISTEN`.
pub on_listen : Pcb → Option Socket → ℕ → (ℕ → ℕ) → Handled
on_listen p sock src_ip seg =
    if has_syn (seg 13)
    then replies
        (record p {
          remote_port = htons (load16 seg 0);
          remote_ip = src_ip;
          rcv_nxt = (htonl (load32 seg 4) + 1) % 2 ^ 32;
        })
        (tcp_syn + tcp_ack) syn_received sock
    else unchanged p sock

-- `TCP_SYN_SENT`.
pub on_syn_sent : Pcb → Option Socket → (ℕ → ℕ) → Handled
on_syn_sent p sock seg =
    if has_syn (seg 13) && has_ack (seg 13)
    then wakes (
        replies (record p { rcv_nxt = (htonl (load32 seg 4) + 1) % 2 ^ 32 }) tcp_ack established
          sock)
    else unchanged p sock

-- `TCP_SYN_RECEIVED`.
pub on_syn_received : Pcb → Option Socket → (ℕ → ℕ) → Handled
on_syn_received p sock seg =
    if has_ack (seg 13) then unchanged (record p { state = established }) sock else unchanged p sock

-- The bytes of memory behind a place.
pub bytes_at : (ℕ → ℕ) → ℕ → ℕ → List ℕ
bytes_at m i zero = []
bytes_at m i (suc n) = m i ∷ bytes_at m (i + 1) n

-- The data of a segment goes into the socket's ring, if it fits, and is acknowledged.
pub on_data : Pcb → Option Socket → (ℕ → ℕ) → List ℕ → Handled
on_data p none seg bytes = unchanged p none
on_data p (some s) seg bytes =
    if leb (s.buffer_len + length bytes) 4096
    then wakes (
        replies (record p { rcv_nxt = (htonl (load32 seg 4) + length bytes) % 2 ^ 32 }) tcp_ack
          p.state (some (record (put_bytes s bytes) { buffer_len = s.buffer_len + length bytes })))
    else unchanged p (some s)

-- `TCP_ESTABLISHED`; the length of the header is the high half of its byte 12, in words.
pub on_established : Pcb → Option Socket → (ℕ → ℕ) → ℕ → Handled
on_established p sock seg len =
    if has_fin (seg 13)
    then wakes (
        replies (record p { rcv_nxt = (htonl (load32 seg 4) + 1) % 2 ^ 32 }) tcp_ack close_wait
          sock)
    else if ltb (seg 12 / 16 * 4) len
    then on_data p sock seg (bytes_at seg (seg 12 / 16 * 4) (len - seg 12 / 16 * 4))
    else unchanged p sock

-- `TCP_FIN_WAIT_1`.
pub on_fin_wait_1 : Pcb → Option Socket → (ℕ → ℕ) → Handled
on_fin_wait_1 p sock seg =
    if has_fin (seg 13)
    then replies (record p { rcv_nxt = (htonl (load32 seg 4) + 1) % 2 ^ 32 }) tcp_ack
        (if has_ack (seg 13) then time_wait else closing) sock
    else if has_ack (seg 13)
    then unchanged (record p { state = fin_wait_2 }) sock
    else unchanged p sock

-- `TCP_FIN_WAIT_2`: the block is freed when the acknowledgement is sent.
pub on_fin_wait_2 : Pcb → Option Socket → (ℕ → ℕ) → Handled
on_fin_wait_2 p sock seg =
    if has_fin (seg 13)
    then record (replies (record p { rcv_nxt = (htonl (load32 seg 4) + 1) % 2 ^ 32 }) tcp_ack closed
        sock) { pcb = none }
    else unchanged p sock

-- `TCP_LAST_ACK`.
pub on_last_ack : Pcb → Option Socket → (ℕ → ℕ) → Handled
on_last_ack p sock seg =
    if has_ack (seg 13)
    then record { pcb = none; sock = sock; woken = none; sent = [] }
    else unchanged p sock

-- The `switch` of `tcp_input`, by the block's state.
pub on_state : TcpState → Pcb → Option Socket → ℕ → (ℕ → ℕ) → ℕ → Handled
on_state listen p sock src_ip seg len = on_listen p sock src_ip seg
on_state syn_sent p sock src_ip seg len = on_syn_sent p sock seg
on_state syn_received p sock src_ip seg len = on_syn_received p sock seg
on_state established p sock src_ip seg len = on_established p sock seg len
on_state fin_wait_1 p sock src_ip seg len = on_fin_wait_1 p sock seg
on_state fin_wait_2 p sock src_ip seg len = on_fin_wait_2 p sock seg
on_state last_ack p sock src_ip seg len = on_last_ack p sock seg
on_state _ p sock src_ip seg len = unchanged p sock
