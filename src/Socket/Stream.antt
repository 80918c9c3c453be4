-- ===== src/Socket/Stream.antt =====
-- The ring of a stream socket of kernel/net/socket.c as a queue of bytes.
use peker_os.Common.{
  ℕ, ◌+◌, ◌-◌, ◌%◌, ◌≡◌, sym, ap, ◌∙◌, arith, ltb, if◌then◌else◌, none, List, length, take, drop,
}
use peker_os.Common.Runs.{take-drop, length-take}
use peker_os.Socket.{Socket, returns, recv_stream}
use peker_os.Socket.Ring.{slice, contents, Ahead, take_bytes-slice, slice-append, length-slice}

-- Of a socket whose ring is in order, the branch of a stream returns the oldest bytes, as many as
-- are asked for and are there, and leaves the others.
pub recv_stream-takes :
    (s : Socket) (len : ℕ)
    → Ahead s s.buffer_len
    → (s' : Socket) × (recv_stream s len ≡ returns s' (take len (contents s)) none)
      × Ahead s' s'.buffer_len
      × (contents s' ≡ drop len (contents s))
unfolding recv_stream
recv_stream-takes s len a =
    let n : ℕ = if ltb len s.buffer_len then len else s.buffer_len in
    let (front, rest, le) =
      slice-append s.buffer s.buffer_tail s.buffer_len (take len (contents s))
        (drop len (contents s)) a.tail_in (take-drop len (contents s)) in
    let size : length (take len (contents s)) ≡ n =
      length-take len (contents s)
      ∙ ap (λ m. if ltb len m then len else m) (length-slice s.buffer s.buffer_tail s.buffer_len) in
    let s' : Socket = record s {
      buffer_tail = (s.buffer_tail + n) % 4096;
      buffer_len = s.buffer_len - n;
    } in
    let e = take_bytes-slice s n a.tail_in in
    (
      s',
      ap (λ (x : List ℕ × Socket). returns (record x.1 { buffer_len = s.buffer_len - n }) x.0 none)
            e
          ∙ ap (λ bs. returns s' bs none) (ap (slice s.buffer s.buffer_tail) (sym size) ∙ front),
      record {
        tail_in = omega arith;
        head_at = omega (arith, a.head_at, size, le);
        fits = omega (arith, a.fits);
      },
      ap (λ m. slice s.buffer ((s.buffer_tail + m) % 4096) (s.buffer_len - m)) (sym size) ∙ rest,
    )
