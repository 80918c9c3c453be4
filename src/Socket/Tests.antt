-- ===== src/Socket/Tests.antt =====
-- Runs of kernel/net/socket.c at concrete sockets.
use peker_os.Common.{
  ℕ, zero, suc, ◌<◌, ◌≡◌, refl, sym, ap, true, false, arith, Option, none, some, List, [], ◌∷◌,
  take, drop, get_elem?,
}
use peker_os.Socket.{
  Socket, Packet, put_byte, put_bytes, take_bytes, store_packet, deliver, Received, waits, returns,
  address_for, recv_payload, recv_dgram, recv_stream, socket_recvfrom, socket_dispatch_udp,
  socket_create, socket_close, listens,
}
use peker_os.Socket.Ring.{contents, Ahead}
use peker_os.Socket.Datagrams.{Holds, Sized, Serves, socket_recvfrom-Serves}
use peker_os.Socket.Stream.{recv_stream-takes}
use peker_os.Socket.Table.{
  Arrives, socket_dispatch_udp-Arrives, Created, socket_create-Created, socket_create-stale,
}

-- A datagram socket at port 53 whose ring begins two places in front of the memory's end.
abbrev dns : Socket
dns = record {
  domain = 2;
  type = 2;
  protocol = 0;
  local_port = 53;
  local_addr = 0;
  remote_port = 0;
  remote_addr = 0;
  buffer = λ i. 0;
  buffer_head = 4094;
  buffer_tail = 4094;
  buffer_len = 0;
  waiting_task = some 1;
  tcp_pcb = none;
  in_use = true;
}

abbrev query : Packet
query = record { src_ip = 33685514; src_port = 4242; payload = 7 ∷ 8 ∷ 9 ∷ [] }

query-Sized : Sized query
query-Sized = record { ip = omega arith; port = omega arith; len = omega arith }

dns-Holds : Holds dns []
dns-Holds = record {
  ahead = record { tail_in = omega arith; head_at = refl; fits = omega arith };
  sized = tt;
  stored = refl;
}

answer : Received → List ℕ
answer (waits s ts) = []
answer (returns s bs from) = bs

-- The datagram goes round the end of the memory, and is read with two of its three bytes.
read_back : answer (socket_recvfrom (deliver dns query).0 [] 0 2 none) ≡ 7 ∷ 8 ∷ []
unfolding answer socket_recvfrom deliver store_packet put_bytes put_byte recv_dgram recv_payload
    address_for take_bytes
read_back = refl

-- The socket with the datagram in it, byte by byte.
abbrev loaded : Socket
loaded = store_packet dns query

loaded-Holds : Holds loaded (query ∷ [])
unfolding store_packet put_bytes put_byte
loaded-Holds = record {
  ahead = record { tail_in = omega arith; head_at = refl; fits = omega arith };
  sized = (query-Sized, tt);
  stored = refl;
}

socket_recvfrom-Serves_example : Serves loaded (query ∷ []) [] 0 2 (some 16)
unfolding store_packet put_bytes put_byte
socket_recvfrom-Serves_example =
    socket_recvfrom-Serves loaded (query ∷ []) [] 0 2 (some 16) loaded-Holds refl

recv_stream-takes_example :
    (s' : Socket) × (recv_stream loaded 4 ≡ returns s' (take 4 (contents loaded)) none)
    × Ahead s' s'.buffer_len
    × (contents s' ≡ drop 4 (contents loaded))
recv_stream-takes_example = recv_stream-takes loaded 4 loaded-Holds.ahead

abbrev idle : Socket
idle = record dns { in_use = false; local_port = 53; waiting_task = none; tcp_pcb = some 6 }

socket_dispatch_udp-Arrives_example :
    Arrives (idle ∷ dns ∷ []) [] 1 dns [] query (socket_dispatch_udp (idle ∷ dns ∷ []) [] 53 query)
socket_dispatch_udp-Arrives_example =
    socket_dispatch_udp-Arrives (idle ∷ dns ∷ []) [] 53 query 1 dns [] refl refl only dns-Holds
      query-Sized
  where
    only :
        (j : ℕ) (s : Socket) → j < 1 → get_elem? (idle ∷ dns ∷ []) j ≡ some s → listens 53 s ≡ false
    only zero s lt at =
        ap (λ (o : Option Socket). elim o [ none ↦ false | some y ↦ listens 53 y ]) (sym at)
    only (suc j) s lt at = absurd (omega arith)

socket_create-Created_example :
    Created (dns ∷ idle ∷ []) 1 (socket_create (dns ∷ idle ∷ []) (λ i. 0) 2 1 0)
socket_create-Created_example = socket_create-Created (dns ∷ idle ∷ []) (λ i. 0) 2 1 0

abbrev web : Socket
web = record dns { type = 1; tcp_pcb = some 6 }

socket_create-stale_example :
    (t : Socket) × (ss' : List Socket) × (socket_create (socket_close (web ∷ []) 0).0 (λ i. 0) 2 1 0
      ≡ some (0, ss'))
    × (get_elem? ss' 0 ≡ some t)
    × (t.in_use ≡ true)
    × (t.tcp_pcb ≡ some 6)
socket_create-stale_example =
    socket_create-stale (web ∷ []) (λ i. 0) 2 1 0 0 web refl
      (λ j s lt at. absurd (omega (arith, lt)))
