-- ===== src/Tcp/Segment.antt =====
-- The segments of kernel/net/tcp.c: what `tcp_input` reads of the bytes that `tcp_send_segment` sends.
use peker_os.Common.{
  ℕ, ◌+◌, ◌*◌, ◌/◌, ◌%◌, ◌^◌, ◌≤◌, ◌<◌, ◌≡◌, refl, sym, ap, ◌∙◌, arith, List, [], ◌∷◌, ◌++◌, length,
  take, length-append,
}
use mathlib.Core.Path.{subst}
use mathlib.Core.List.{append_assoc}
use peker_os.Common.Runs.{take-all}
use peker_os.Common.Copy.{memory, memory-here}
use peker_os.Net.{htons, htonl, load16, load32}
use peker_os.Net.Order.{stored16, stored32}
use peker_os.Tcp.{Pcb, segment_bytes, tcp_send_segment, bytes_at}

-- The fields of a block are numbers of their width.
pub record SizedPcb (p : Pcb) : Type 0 where
  pub local_port : p.local_port < 2 ^ 16
  pub remote_port : p.remote_port < 2 ^ 16
  pub snd_nxt : p.snd_nxt < 2 ^ 32
  pub rcv_nxt : p.rcv_nxt < 2 ^ 32

-- What the receiver reads of a segment.
pub record Reads (p : Pcb) (flags : ℕ) (data_bytes : List ℕ) (seg : ℕ → ℕ) : Type 0 where
  pub src_port : htons (load16 seg 0) ≡ p.local_port
  pub dest_port : htons (load16 seg 2) ≡ p.remote_port
  pub seq : htonl (load32 seg 4) ≡ p.snd_nxt
  pub offset : seg 12 / 16 * 4 ≡ 20
  pub has_flags : seg 13 ≡ flags
  pub bytes : bytes_at seg 20 (length data_bytes) ≡ data_bytes

bytes_at-memory :
    (front bs : List ℕ) (i : ℕ)
    → i ≡ length front
    → bytes_at (memory (front ++ bs)) i (length bs) ≡ bs
unfolding bytes_at
bytes_at-memory front [] i e = refl
bytes_at-memory front (b ∷ bs) i e =
    let here : memory (front ++ (b ∷ bs)) i ≡ b =
      ap (memory (front ++ (b ∷ bs))) e ∙ memory-here front b bs in
    let there : bytes_at (memory (front ++ (b ∷ bs))) (i + 1) (length bs) ≡ bs =
      ap (λ m. bytes_at (memory m) (i + 1) (length bs)) (sym (append_assoc front (b ∷ []) bs))
      ∙ bytes_at-memory (front ++ (b ∷ [])) bs (i + 1)
          (omega (arith, e, length-append front (b ∷ []))) in
    ground (arith, here, there)

length-segment_bytes :
    (p : Pcb) (flags : ℕ) (data_bytes : List ℕ) (checksum : ℕ)
    → length (segment_bytes p flags data_bytes checksum) ≡ 20 + length data_bytes
unfolding segment_bytes
length-segment_bytes p flags data_bytes checksum = omega arith

segment_bytes-Reads :
    (p : Pcb) (flags : ℕ) (data_bytes : List ℕ) (checksum : ℕ)
    → SizedPcb p
    → Reads p flags data_bytes (memory (segment_bytes p flags data_bytes checksum))
unfolding segment_bytes
segment_bytes-Reads p flags data_bytes checksum z = record {
  src_port = stored16 p.local_port z.local_port;
  dest_port = stored16 p.remote_port z.remote_port;
  seq = stored32 p.snd_nxt z.snd_nxt;
  offset = refl;
  has_flags = refl;
  bytes = bytes_at-memory (take 20 (segment_bytes p flags data_bytes checksum)) data_bytes 20 refl;
}

-- A length of 16 bits is the whole segment's.
take-segment_bytes :
    (p : Pcb) (flags : ℕ) (data_bytes : List ℕ) (checksum : ℕ)
    → length data_bytes ≤ 65515
    → take ((20 + length data_bytes) % 2 ^ 16) (segment_bytes p flags data_bytes checksum)
      ≡ segment_bytes p flags data_bytes checksum
take-segment_bytes p flags data_bytes checksum le =
    take-all ((20 + length data_bytes) % 2 ^ 16) (segment_bytes p flags data_bytes checksum)
      (omega (arith, le, length-segment_bytes p flags data_bytes checksum))

pub length-tcp_send_segment :
    (p : Pcb) (flags : ℕ) (data_bytes : List ℕ)
    → length data_bytes ≤ 65515
    → length (tcp_send_segment p flags data_bytes).0 ≡ 20 + length data_bytes
unfolding tcp_send_segment
length-tcp_send_segment p flags data_bytes le =
    ap length (take-segment_bytes p flags data_bytes _ le)
    ∙ length-segment_bytes p flags data_bytes _

-- Of a segment with at most 65515 bytes of data, from a block whose fields are numbers of their width,
-- the receiver reads the ports, the sequence number, the flags and the data that the sender gave.
pub tcp_send_segment-Reads :
    (p : Pcb) (flags : ℕ) (data_bytes : List ℕ)
    → SizedPcb p
    → length data_bytes ≤ 65515
    → Reads p flags data_bytes (memory (tcp_send_segment p flags data_bytes).0)
unfolding tcp_send_segment
tcp_send_segment-Reads p flags data_bytes z le =
    subst (λ bs. Reads p flags data_bytes (memory bs))
      (sym (take-segment_bytes p flags data_bytes _ le))
      (segment_bytes-Reads p flags data_bytes _ z)
