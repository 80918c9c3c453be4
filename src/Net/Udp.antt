-- ===== src/Net/Udp.antt =====
-- A datagram from `net_send_udp` to `net_handle_packet` of kernel/net/net.c.
use peker_os.Common.{
  ℕ, ◌+◌, ◌-◌, ◌*◌, ◌/◌, ◌%◌, ◌^◌, ◌≤◌, ◌<◌, ◌≡◌, refl, ap, ◌∙◌, true, false, arith, ltb, List,
  length, take,
}
use peker_os.Common.Bytes.{Bytes}
use peker_os.Common.Copy.{copy_from, memory, copy_from-memory}
use peker_os.Net.{htons, load16, load32}
use peker_os.Net.Order.{stored16}
use peker_os.Net.Packets.{
  Network, Ip, Mac, eth_header, ipv4_header, udp_header, net_send_ipv4, net_send_udp, to_udp,
  callbacks_at, mac_at, is_ip, net_handle_udp, net_handle_ipv4, net_handle_packet,
}

-- An address in memory as a number.
abbrev pub ip_word : Ip → ℕ
ip_word a = a.i0 + 256 * a.i1 + 65536 * a.i2 + 16777216 * a.i3

-- What a packet in memory says.
record SaysUdp (n : Network) (m : Bytes) (src_mac : Mac) (src_ip : Ip) (dest_port src_port : ℕ)
    (payload : List ℕ) : Type 0 where
  type : htons (load16 m 12) ≡ 2048
  sender : mac_at m 6 ≡ src_mac
  header : m 14 % 16 * 4 ≡ 20
  protocol : m 23 ≡ 17
  for_us : is_ip m 30 n.my_ip ≡ true
  address : load32 m 26 ≡ ip_word src_ip
  dest : htons (load16 m 36) ≡ dest_port
  src : htons (load16 m 34) ≡ src_port
  size : htons (load16 m 38) ≡ 8 + length payload
  bytes : copy_from m 42 (length payload) ≡ payload

module _ (n : Network) (m : Bytes) (src_mac : Mac) (src_ip : Ip) (dest_port src_port : ℕ)
    (payload : List ℕ) (s : SaysUdp n m src_mac src_ip dest_port src_port payload)
    (small : length payload ≤ 65507) where
  handled_udp :
      net_handle_udp (record n { gateway_mac = mac_at m 6 }) m 34
      ≡ to_udp (callbacks_at n.udp_sockets dest_port) dest_port src_port (ip_word src_ip) payload
  unfolding net_handle_udp
  handled_udp =
      let data_len : (8 + length payload + 65536 - 8) % 65536 ≡ length payload = omega arith in
      rw (s.dest, s.src, s.size, data_len, s.bytes, s.address) refl

  handled_packet :
      (len : ℕ)
      → 14 ≤ len
      → net_handle_packet n m len ≡ (
        to_udp (callbacks_at n.udp_sockets dest_port) dest_port src_port (ip_word src_ip) payload,
        record n { gateway_mac = src_mac },
      )
  unfolding net_handle_packet net_handle_ipv4
  handled_packet len long =
      let enough : ltb len 14 ≡ false = ground arith in
      rw (enough, s.type, s.header, s.protocol, s.for_us)
        (ap (λ h. (h, record n { gateway_mac = mac_at m 6 })) handled_udp
          ∙ ap
              (λ a. (
                to_udp (callbacks_at n.udp_sockets dest_port) dest_port src_port (ip_word src_ip)
                    payload,
                record n { gateway_mac = a },
              ))
              s.sender)

stored_length :
    (n : ℕ)
    → n ≤ 65507
    → htons (htons ((8 + n) % 65536) % 256 + 256 * (htons ((8 + n) % 65536) / 256 % 256)) ≡ 8 + n
stored_length n small = stored16 ((8 + n) % 65536) (omega arith) ∙ omega arith

module _ (sender receiver : Network) (dest_port src_port : ℕ) (payload : List ℕ)
    (dest_small : dest_port < 2 ^ 16) (src_small : src_port < 2 ^ 16)
    (small : length payload ≤ 65507) where
  packet : List ℕ
  packet = (net_send_udp sender receiver.my_ip dest_port src_port payload).0

  packet-SaysUdp :
      SaysUdp receiver (memory packet) sender.my_mac sender.my_ip dest_port src_port payload
  unfolding packet net_send_udp net_send_ipv4 udp_header eth_header ipv4_header mac_at is_ip htons
  packet-SaysUdp = record {
    type = refl;
    sender = refl;
    header = refl;
    protocol = refl;
    for_us = ground arith;
    address = refl;
    dest = unfold htons in stored16 dest_port dest_small;
    src = unfold htons in stored16 src_port src_small;
    size = unfold htons in stored_length (length payload) small;
    bytes = copy_from-memory (take 42 packet) payload 42 refl;
  }

  long_enough : 14 ≤ length packet
  unfolding packet net_send_udp net_send_ipv4 udp_header eth_header ipv4_header
  long_enough = omega arith

  -- A datagram that `net_send_udp` makes for the receiver's address, of at most 65507 bytes, is what
  -- `net_handle_packet` gives there: the data, with the ports and the sender's address; and the address
  -- of the sender's card is kept as the gateway's.
  pub net_handle_packet-net_send_udp :
      net_handle_packet receiver
        (memory (net_send_udp sender receiver.my_ip dest_port src_port payload).0)
        (length (net_send_udp sender receiver.my_ip dest_port src_port payload).0)
      ≡ (
        to_udp
            (callbacks_at receiver.udp_sockets dest_port)
            dest_port
            src_port
            (ip_word sender.my_ip)
            payload,
        record receiver { gateway_mac = sender.my_mac },
      )
  unfolding packet
  net_handle_packet-net_send_udp =
      handled_packet receiver
        (memory (net_send_udp sender receiver.my_ip dest_port src_port payload).0) sender.my_mac
        sender.my_ip dest_port src_port payload (unfold packet in packet-SaysUdp) small
        (length (net_send_udp sender receiver.my_ip dest_port src_port payload).0)
        (unfold packet in long_enough)
