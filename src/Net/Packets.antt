-- ===== src/Net/Packets.antt =====
-- kernel/net/net.c: the packets that are sent, and what a packet that arrives is. A packet is its bytes,
-- and one that arrives is in memory from the place 0 on. Buffers from kmalloc are taken to be there.
use peker_os.Common.{
  ℕ, ◌+◌, ◌-◌, ◌*◌, ◌%◌, Bool, true, false, ◌&&◌, ◌||◌, ◌==◌, ltb, if◌then◌else◌, Option, none,
  some, List, [], ◌∷◌, ◌++◌, length,
}
use peker_os.Common.Bytes.{Bytes}
use peker_os.Common.Copy.{copy_to, copy_from}
use peker_os.Net.{htons, load16, load32, store16, calculate_checksum}

pub record Mac : Type 0 where
  pub m0 : ℕ
  pub m1 : ℕ
  pub m2 : ℕ
  pub m3 : ℕ
  pub m4 : ℕ
  pub m5 : ℕ

pub record Ip : Type 0 where
  pub i0 : ℕ
  pub i1 : ℕ
  pub i2 : ℕ
  pub i3 : ℕ

abbrev pub mac_bytes : Mac → List ℕ
mac_bytes a = a.m0 ∷ a.m1 ∷ a.m2 ∷ a.m3 ∷ a.m4 ∷ a.m5 ∷ []

abbrev pub ip_bytes : Ip → List ℕ
ip_bytes a = a.i0 ∷ a.i1 ∷ a.i2 ∷ a.i3 ∷ []

-- `struct udp_socket`, with a callback as a number, `none` for a null pointer.
pub record UdpSocket : Type 0 where
  pub local_port : ℕ
  pub callback : Option ℕ
  pub in_use : Bool

pub record Network : Type 0 where
  pub my_mac : Mac
  pub my_ip : Ip
  pub gateway_mac : Mac
  pub ipv4_id_counter : ℕ
  pub udp_sockets : List UdpSocket

-- The first socket that is not in use is bound.
pub bind_loop : List UdpSocket → ℕ → Option ℕ → Option (List UdpSocket)
bind_loop [] port callback = none
bind_loop (s ∷ ss) port callback =
    let rest = bind_loop ss port callback in
    if s.in_use
    then elim rest [ none ↦ none | some more ↦ some (s ∷ more) ]
    else some (record { local_port = port; callback = callback; in_use = true } ∷ ss)

-- Whether there was a free socket, and the state.
pub udp_bind : Network → ℕ → Option ℕ → Bool × Network
udp_bind n port callback = elim (bind_loop n.udp_sockets port callback) [
  | none ↦ (false, n)
  | some sockets ↦ (true, record n { udp_sockets = sockets })
]

unfoldable pub eth_header : Mac → Mac → ℕ → List ℕ
eth_header dest src type = mac_bytes dest ++ mac_bytes src ++ store16 (htons type)

-- The header of 20 bytes, with the bytes of a checksum.
unfoldable pub ipv4_header : Network → Ip → ℕ → ℕ → List ℕ → List ℕ
ipv4_header n dest_ip protocol payload_len checksum =
    (69 ∷ 0 ∷ [])
    ++ store16 (htons ((20 + payload_len) % 65536))
    ++ store16 (htons n.ipv4_id_counter)
    ++ (0 ∷ 0 ∷ 64 ∷ protocol ∷ [])
    ++ checksum
    ++ ip_bytes n.my_ip
    ++ ip_bytes dest_ip

-- The packet that is sent, and the state.
unfoldable pub net_send_ipv4 : Network → Ip → ℕ → List ℕ → List ℕ × Network
net_send_ipv4 n dest_ip protocol payload =
    let checksum =
      store16 (calculate_checksum (ipv4_header n dest_ip protocol (length payload) (0 ∷ 0 ∷ []))) in
    (
      eth_header n.gateway_mac n.my_mac 2048
          ++ ipv4_header n dest_ip protocol (length payload) checksum
          ++ payload,
      record n { ipv4_id_counter = (n.ipv4_id_counter + 1) % 65536 },
    )

unfoldable pub udp_header : ℕ → ℕ → ℕ → List ℕ
udp_header dest_port src_port udp_len =
    store16 (htons src_port)
    ++ store16 (htons dest_port)
    ++ store16 (htons (udp_len % 65536))
    ++ (0 ∷ 0 ∷ [])

unfoldable pub net_send_udp : Network → Ip → ℕ → ℕ → List ℕ → List ℕ × Network
net_send_udp n dest_ip dest_port src_port payload =
    net_send_ipv4 n dest_ip 17 (udp_header dest_port src_port (8 + length payload) ++ payload)

abbrev pub broadcast_mac : Mac
broadcast_mac = record { m0 = 255; m1 = 255; m2 = 255; m3 = 255; m4 = 255; m5 = 255 }

abbrev pub no_mac : Mac
no_mac = record { m0 = 0; m1 = 0; m2 = 0; m3 = 0; m4 = 0; m5 = 0 }

unfoldable pub net_send_arp_request : Network → Ip → List ℕ
net_send_arp_request n target_ip =
    eth_header broadcast_mac n.my_mac 2054
    ++ store16 (htons 1)
    ++ store16 (htons 2048)
    ++ (6 ∷ 4 ∷ [])
    ++ store16 (htons 1)
    ++ mac_bytes n.my_mac
    ++ ip_bytes n.my_ip
    ++ mac_bytes no_mac
    ++ ip_bytes target_ip

-- What a packet asks of the rest of the kernel: a packet is sent, or the data of UDP go to the sockets,
-- the callbacks called before, or a segment at a place goes to TCP.
pub data Handled : Type 0 where
  nothing : Handled
  sends : List ℕ → Handled
  to_udp : List ℕ → ℕ → ℕ → ℕ → List ℕ → Handled
  to_tcp : ℕ → ℕ → Handled

unfoldable pub mac_at : Bytes → ℕ → Mac
mac_at m a = record {
  m0 = m a;
  m1 = m (a + 1);
  m2 = m (a + 2);
  m3 = m (a + 3);
  m4 = m (a + 4);
  m5 = m (a + 5);
}

unfoldable pub is_ip : Bytes → ℕ → Ip → Bool
is_ip m a ip =
    (m a == ip.i0) && (m (a + 1) == ip.i1) && (m (a + 2) == ip.i2) && (m (a + 3) == ip.i3)

-- The answer is made in the place of the request.
unfoldable pub arp_reply : Network → Bytes → Bytes
arp_reply n m0 =
    let m1 = copy_to m0 0 (copy_from m0 6 6) in
    let m2 = copy_to m1 6 (mac_bytes n.my_mac) in
    let m3 = copy_to m2 20 (store16 (htons 2)) in
    let m4 = copy_to m3 32 (copy_from m3 22 6) in
    let m5 = copy_to m4 38 (copy_from m4 28 4) in
    copy_to (copy_to m5 22 (mac_bytes n.my_mac)) 28 (ip_bytes n.my_ip)

unfoldable pub net_handle_arp : Network → Bytes → Handled × Network
net_handle_arp n m =
    if htons (load16 m 20) == 1
    then ((if is_ip m 38 n.my_ip then sends (copy_from (arp_reply n m) 0 42) else nothing), n)
    else if htons (load16 m 20) == 2
    then (nothing, record n { gateway_mac = mac_at m 22 })
    else (nothing, n)

-- The echo is made in the place of the request; `icmp` is the place of its header.
unfoldable pub icmp_reply : Network → Bytes → ℕ → ℕ → Bytes
icmp_reply n m0 icmp icmp_len =
    let m1 = copy_to (copy_to m0 0 (copy_from m0 6 6)) 6 (mac_bytes n.my_mac) in
    let m2 = copy_to (copy_to m1 30 (copy_from m1 26 4)) 26 (copy_from m1 30 4) in
    let m3 = copy_to m2 24 (0 ∷ 0 ∷ []) in
    let m4 = copy_to m3 24 (store16 (calculate_checksum (copy_from m3 14 (m3 14 % 16 * 4)))) in
    let m5 = copy_to (copy_to m4 icmp (0 ∷ [])) (icmp + 2) (0 ∷ 0 ∷ []) in
    copy_to m5 (icmp + 2) (store16 (calculate_checksum (copy_from m5 icmp icmp_len)))

unfoldable pub net_handle_icmp : Network → Bytes → ℕ → ℕ → Handled
net_handle_icmp n m icmp icmp_len =
    if m icmp == 8
    then sends (copy_from (icmp_reply n m icmp icmp_len) 0 (14 + htons (load16 m 16)))
    else nothing

-- The callbacks of the sockets at a port.
unfoldable pub callbacks_at : List UdpSocket → ℕ → List ℕ
callbacks_at [] port = []
callbacks_at (s ∷ ss) port =
    let rest = callbacks_at ss port in
    if s.in_use && (s.local_port == port)
    then elim s.callback [ none ↦ rest | some callback ↦ callback ∷ rest ]
    else rest

-- The arguments of `socket_dispatch_udp`, with the address in four bytes as a number.
unfoldable pub net_handle_udp : Network → Bytes → ℕ → Handled
net_handle_udp n m udp =
    let dest_port = htons (load16 m (udp + 2)) in
    to_udp (callbacks_at n.udp_sockets dest_port) dest_port (htons (load16 m udp)) (load32 m 26)
      (copy_from m (udp + 8) ((htons (load16 m (udp + 4)) + 65536 - 8) % 65536))

abbrev pub broadcast_ip : Ip
broadcast_ip = record { i0 = 255; i1 = 255; i2 = 255; i3 = 255 }

unfoldable pub net_handle_ipv4 : Network → Bytes → Handled × Network
net_handle_ipv4 n m =
    let n1 = record n { gateway_mac = mac_at m 6 } in
    let header_len = m 14 % 16 * 4 in
    let total_len = htons (load16 m 16) in
    (
      (if is_ip m 30 n.my_ip || is_ip m 30 broadcast_ip
          then (if m 23 == 1
              then net_handle_icmp n1 m (14 + header_len) (total_len - header_len)
              else if m 23 == 17
              then net_handle_udp n1 m (14 + header_len)
              else if m 23 == 6
              then to_tcp (14 + header_len) ((total_len + 65536 - header_len) % 65536)
              else nothing)
          else nothing),
      n1,
    )

unfoldable pub net_handle_packet : Network → Bytes → ℕ → Handled × Network
net_handle_packet n m length =
    if ltb length 14
    then (nothing, n)
    else if htons (load16 m 12) == 2054
    then net_handle_arp n m
    else if htons (load16 m 12) == 2048
    then net_handle_ipv4 n m
    else (nothing, n)

unfoldable pub release_sockets : List UdpSocket → List UdpSocket
release_sockets [] = []
release_sockets (s ∷ ss) = record s { in_use = false } ∷ release_sockets ss

unfoldable pub init_net : Network → Mac → Network
init_net n mac_addr = record n { my_mac = mac_addr; udp_sockets = release_sockets n.udp_sockets }
