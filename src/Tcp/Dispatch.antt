-- ===== src/Tcp/Dispatch.antt =====
-- What `tcp_input` of kernel/net/tcp.c does to the tables: the block that a segment is for, its socket, and
-- the task that waits there.
use peker_os.Common.{
  ℕ, ◌≡◌, refl, ap, ◌≢◌, true, Option, none, some, List, ◌++◌, length, get_elem?, set,
  get_elem?-set_ne, get_elem?-set_self, get_elem?-lt,
}
use peker_os.Net.{htons, load16}
use peker_os.Task.{Task, ready}
use peker_os.Socket.{Socket}
use peker_os.Socket.Wake.{set_state_self, set_state_other}
use peker_os.Tcp.{Pcb, Handled, on_state}
use peker_os.Tcp.Edges.{Edge, state_of, on_state-Edge}
use peker_os.Tcp.Input.{Tcp, find_pcb, socket_of, put_socket, write_back, tcp_input}
use peker_os.Tcp.Search.{IsFor, NoneFor, Found, found, missing, find_pcb-Found, find_pcb-first}

-- The state after the block at `i` has become what `h` says, `none` if it is freed: its socket is
-- the one of `h`, the task that `h` wakes is ready, what `h` sends is sent, and nothing else is different.
pub record Handles (t : Tcp) (i : ℕ) (p : Pcb) (h : Handled) (out : Tcp) : Type 0 where
  pub block : get_elem? out.tcp_pcbs i ≡ some h.pcb
  pub other_blocks : (j : ℕ) → i ≢ j → get_elem? out.tcp_pcbs j ≡ get_elem? t.tcp_pcbs j
  pub socket :
      (k : ℕ) (s s' : Socket)
      → p.socket ≡ some k
      → get_elem? t.sockets k ≡ some s
      → h.sock ≡ some s'
      → get_elem? out.sockets k ≡ some s'
  pub other_sockets : (k : ℕ) → p.socket ≢ some k → get_elem? out.sockets k ≡ get_elem? t.sockets k
  pub task :
      (w : ℕ) (x : Task)
      → h.woken ≡ some w
      → get_elem? t.tasks w ≡ some x
      → get_elem? out.tasks w ≡ some (record x { state = ready })
  pub other_tasks : (w : ℕ) → h.woken ≢ some w → get_elem? out.tasks w ≡ get_elem? t.tasks w
  pub sent : out.sent ≡ h.sent ++ t.sent

put_socket_self :
    (ss : List Socket) (p : Pcb) (o : Option Socket) (k : ℕ) (s s' : Socket)
    → p.socket ≡ some k
    → get_elem? ss k ≡ some s
    → o ≡ some s'
    → get_elem? (put_socket ss p o) k ≡ some s'
put_socket_self ss p o k s s' e at eo =
    rw (eo, e) (get_elem?-set_self ss k s' (get_elem?-lt ss k at))

put_socket_other :
    (ss : List Socket) (p : Pcb) (o : Option Socket) (k : ℕ)
    → p.socket ≢ some k
    → get_elem? (put_socket ss p o) k ≡ get_elem? ss k
put_socket_other ss p none k ne = refl
put_socket_other ss p (some s) k ne = go p.socket ne
  where
    go :
        (o : Option ℕ)
        → o ≢ some k
        → get_elem? (elim o [ none ↦ ss | some i ↦ set ss i s ]) k ≡ get_elem? ss k
    go none ne = refl
    go (some i) ne = get_elem?-set_ne ss s (λ e. ne (ap some e))

write_back-Handles :
    (t : Tcp) (i : ℕ) (p : Pcb) (h : Handled)
    → get_elem? t.tcp_pcbs i ≡ some (some p)
    → Handles t i p h (write_back t i p h)
unfolding write_back
write_back-Handles t i p h at = record {
  block = get_elem?-set_self t.tcp_pcbs i h.pcb (get_elem?-lt t.tcp_pcbs i at);
  other_blocks = λ j ne. get_elem?-set_ne t.tcp_pcbs h.pcb ne;
  socket = λ k s s' e at_k eo. put_socket_self t.sockets p h.sock k s s' e at_k eo;
  other_sockets = λ k ne. put_socket_other t.sockets p h.sock k ne;
  task = λ w x e at_w. set_state_self t.tasks h.woken true w x e at_w;
  other_tasks = λ w ne. set_state_other t.tasks h.woken true w ne;
  sent = refl;
}

-- A segment that is for the block at `i`, and for none in front of it, is handled there.
pub tcp_input-Handles :
    (t : Tcp) (src_ip : ℕ) (seg : ℕ → ℕ) (len i : ℕ) (p : Pcb)
    → get_elem? t.tcp_pcbs i ≡ some (some p)
    → IsFor src_ip (htons (load16 seg 0)) (htons (load16 seg 2)) p
    → NoneFor src_ip (htons (load16 seg 0)) (htons (load16 seg 2)) t.tcp_pcbs i
    → Handles t i p
        (on_state p.state p (socket_of t.sockets p) src_ip seg len)
        (tcp_input t src_ip seg len)
unfolding tcp_input
tcp_input-Handles t src_ip seg len i p at is before =
    rw
      (
        find_pcb-first t.tcp_pcbs src_ip (htons (load16 seg 0)) (htons (load16 seg 2)) i p at is
            before,
        tcp_input,
      )
      (write_back-Handles t i p (on_state p.state p (socket_of t.sockets p) src_ip seg len) at)

-- What a segment does to the tables.
pub data Dispatched (t : Tcp) (src_ip : ℕ) (seg : ℕ → ℕ) (len : ℕ) (out : Tcp) : Type 0 where
  handled :
      (i : ℕ) (p : Pcb) (h : Handled)
      → get_elem? t.tcp_pcbs i ≡ some (some p)
      → IsFor src_ip (htons (load16 seg 0)) (htons (load16 seg 2)) p
      → NoneFor src_ip (htons (load16 seg 0)) (htons (load16 seg 2)) t.tcp_pcbs i
      → h ≡ on_state p.state p (socket_of t.sockets p) src_ip seg len
      → Edge (seg 13) p.state (state_of h.pcb)
      → Handles t i p h out
      → Dispatched t src_ip seg len out
  ignored :
      NoneFor src_ip (htons (load16 seg 0)) (htons (load16 seg 2)) t.tcp_pcbs (length t.tcp_pcbs)
      → out ≡ t
      → Dispatched t src_ip seg len out

-- A segment goes to the first block that listens at its port, or that has its port and is connected to
-- its sender. That block becomes what the handler of its state makes of it, by an edge of the state
-- machine, its socket what the handler makes of that, the task that the handler wakes is ready, and the
-- handler's answers are sent; no other block, socket or task changes. Without such a block nothing does.
pub tcp_input-Dispatched :
    (t : Tcp) (src_ip : ℕ) (seg : ℕ → ℕ) (len : ℕ)
    → Dispatched t src_ip seg len (tcp_input t src_ip seg len)
unfolding tcp_input
tcp_input-Dispatched t src_ip seg len =
    go (find_pcb t.tcp_pcbs src_ip (htons (load16 seg 0)) (htons (load16 seg 2)))
      (find_pcb-Found t.tcp_pcbs src_ip (htons (load16 seg 0)) (htons (load16 seg 2)))
  where
    go :
        (r : Option (ℕ × Pcb))
        → Found src_ip (htons (load16 seg 0)) (htons (load16 seg 2)) t.tcp_pcbs r
        → Dispatched t src_ip seg len (elim r [
          | none ↦ t
          | some (i, p) ↦
              write_back t i p (on_state p.state p (socket_of t.sockets p) src_ip seg len)
        ])
    go none (missing all) = ignored all refl
    go (some (i, p)) (found j q at is before) =
        let h : Handled = on_state q.state q (socket_of t.sockets q) src_ip seg len in
        handled j q h at is before refl
          (on_state-Edge q.state q (socket_of t.sockets q) src_ip len seg refl)
          (write_back-Handles t j q h at)
