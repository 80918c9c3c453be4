-- ===== src/Net/Tests.antt =====
-- Runs of kernel/net/net.c at concrete bytes.
use peker_os.Common.{length, true, some, ℕ, ◌≡◌, refl, arith, List, [], ◌∷◌, ◌++◌}
use peker_os.Net.{calculate_checksum, store16}
use peker_os.Common.Copy.{memory}
use peker_os.Net.Packets.{Network, to_udp, net_send_udp, net_handle_packet, callbacks_at}
use peker_os.Net.Udp.{ip_word, net_handle_packet-net_send_udp}
use peker_os.Net.Checksum.{calculate_checksum-verifies}

-- A header of IPv4 up to its checksum, and behind it.
abbrev front : List ℕ
front = 69 ∷ 0 ∷ 0 ∷ 40 ∷ 0 ∷ 1 ∷ 0 ∷ 0 ∷ 64 ∷ 6 ∷ []

abbrev back : List ℕ
back = 10 ∷ 0 ∷ 2 ∷ 15 ∷ 10 ∷ 0 ∷ 2 ∷ 2 ∷ []

calculate_checksum-verifies_example :
    calculate_checksum (front ++ (store16 (calculate_checksum (front ++ (0 ∷ 0 ∷ back))) ++ back))
    ≡ 0
calculate_checksum-verifies_example =
    calculate_checksum-verifies 5 front back refl
      (
        omega arith,
        (
          omega arith,
          (
            omega arith,
            (
              omega arith,
              (
                omega arith,
                (omega arith, (omega arith, (omega arith, (omega arith, (omega arith, tt))))),
              ),
            ),
          ),
        ),
      )
      (
        omega arith,
        (
          omega arith,
          (
            omega arith,
            (omega arith, (omega arith, (omega arith, (omega arith, (omega arith, tt))))),
          ),
        ),
      )
      (omega arith)

abbrev here : Network
here = record {
  my_mac = record { m0 = 82; m1 = 84; m2 = 0; m3 = 18; m4 = 52; m5 = 86 };
  my_ip = record { i0 = 10; i1 = 0; i2 = 2; i3 = 15 };
  gateway_mac = record { m0 = 255; m1 = 255; m2 = 255; m3 = 255; m4 = 255; m5 = 255 };
  ipv4_id_counter = 7;
  udp_sockets = [];
}

abbrev there : Network
there = record here {
  my_ip = record { i0 = 10; i1 = 0; i2 = 2; i3 = 2 };
  udp_sockets = record { local_port = 53; callback = some 1; in_use = true } ∷ [];
}

net_handle_packet-net_send_udp_example :
    net_handle_packet there
      (memory (net_send_udp here there.my_ip 53 1000 (104 ∷ 105 ∷ [])).0)
      (length (net_send_udp here there.my_ip 53 1000 (104 ∷ 105 ∷ [])).0)
    ≡ (
      to_udp (callbacks_at there.udp_sockets 53) 53 1000 (ip_word here.my_ip) (104 ∷ 105 ∷ []),
      record there { gateway_mac = here.my_mac },
    )
net_handle_packet-net_send_udp_example =
    net_handle_packet-net_send_udp here there 53 1000 (104 ∷ 105 ∷ []) (omega arith) (omega arith)
      (omega arith)
