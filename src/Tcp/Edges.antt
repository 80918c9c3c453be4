-- ===== src/Tcp/Edges.antt =====
-- The state machine of kernel/net/tcp.c: the edges that `tcp_input` takes.
use peker_os.Common.{
  ℕ, ◌+◌, ◌-◌, ◌*◌, ◌/◌, ◌%◌, ◌^◌, ◌≡◌, refl, sym, ap, ◌∙◌, true, false, arith, inl, inr, ltb, leb,
  Bool-cases, Option, none, some, List, length,
}
use mathlib.Core.Path.{subst}
use peker_os.Net.{htonl, load32}
use peker_os.Socket.{Socket}
use peker_os.Tcp.{
  TcpState, Pcb, Handled, closed, listen, syn_sent, syn_received, established, close_wait, closing,
  fin_wait_1, fin_wait_2, last_ack, time_wait, has_fin, has_syn, has_ack, replies, wakes, on_state,
  on_listen, on_syn_sent, on_syn_received, on_established, on_data, on_fin_wait_2, on_fin_wait_1,
  on_last_ack, bytes_at,
}

-- The edges of the machine, by the flags of the segment; `none` is the state of a block that is freed.
pub data Edge (flags : ℕ) : TcpState → Option TcpState → Type 0 where
  opens : has_syn flags ≡ true → Edge flags listen (some syn_received)
  answered : has_syn flags ≡ true → has_ack flags ≡ true → Edge flags syn_sent (some established)
  confirmed : has_ack flags ≡ true → Edge flags syn_received (some established)
  ends : has_fin flags ≡ true → Edge flags established (some close_wait)
  fin_acked : has_ack flags ≡ true → has_fin flags ≡ false → Edge flags fin_wait_1 (some fin_wait_2)
  both_end : has_fin flags ≡ true → has_ack flags ≡ false → Edge flags fin_wait_1 (some closing)
  both_end_acked :
      has_fin flags ≡ true → has_ack flags ≡ true → Edge flags fin_wait_1 (some time_wait)
  other_ends : has_fin flags ≡ true → Edge flags fin_wait_2 none
  last_acked : has_ack flags ≡ true → Edge flags last_ack none
  stays : (s : TcpState) → Edge flags s (some s)

abbrev pub state_of : Option Pcb → Option TcpState
state_of none = none
state_of (some p) = some p.state

wakes-pcb : (h : Handled) → (wakes h).pcb ≡ h.pcb
wakes-pcb h = go h.sock refl
  where
    go : (o : Option Socket) → h.sock ≡ o → (wakes h).pcb ≡ h.pcb
    go none e = ground (arith, e)
    go (some x) e = ground (arith, e)

rest : {flags : ℕ} {st st' : TcpState} → st' ≡ st → Edge flags st (some st')
rest {flags} {st} e = subst (λ x. Edge flags st (some x)) (sym e) (stays st)

woken :
    {flags : ℕ} {st : TcpState} (h : Handled)
    → Edge flags st (state_of h.pcb)
    → Edge flags st (state_of (wakes h).pcb)
woken {flags} {st} h = subst (λ o. Edge flags st (state_of o)) (sym (wakes-pcb h))

data-Edge :
    (p : Pcb) (sock : Option Socket) (seg : ℕ → ℕ) (bytes : List ℕ)
    → state_of (on_data p sock seg bytes).pcb ≡ some p.state
unfolding on_data
data-Edge p none seg bytes = refl
data-Edge p (some s) seg bytes = elim (Bool-cases (leb (s.buffer_len + length bytes) 4096)) [
  | inl fits ↦ rw (fits, on_data) refl
  | inr full ↦ rw (full, on_data) refl
]

-- What a segment does to the state of a block is an edge of the machine.
pub on_state-Edge :
    (st : TcpState) (p : Pcb) (sock : Option Socket) (src_ip len : ℕ) (seg : ℕ → ℕ)
    → p.state ≡ st
    → Edge (seg 13) st (state_of (on_state st p sock src_ip seg len).pcb)
unfolding on_state on_listen on_syn_sent on_syn_received on_established on_fin_wait_1 on_fin_wait_2
    on_last_ack
on_state-Edge closed p sock src_ip len seg e = rest e
on_state-Edge close_wait p sock src_ip len seg e = rest e
on_state-Edge closing p sock src_ip len seg e = rest e
on_state-Edge time_wait p sock src_ip len seg e = rest e
on_state-Edge listen p sock src_ip len seg e = elim (Bool-cases (has_syn (seg 13))) [
  | inl syn ↦ rw (syn, on_listen) (opens syn)
  | inr unset ↦ rw (unset, on_listen) (rest e)
]
on_state-Edge syn_sent p sock src_ip len seg e = elim (Bool-cases (has_syn (seg 13))) [
  | inl syn ↦ elim (Bool-cases (has_ack (seg 13))) [
    | inl ack ↦
        rw (syn, on_syn_sent)
          (rw (ack, on_syn_sent)
            (woken
              (replies (record p { rcv_nxt = (htonl (load32 seg 4) + 1) % 2 ^ 32 }) 16 established
                sock)
              (answered syn ack)))
    | inr unset ↦ rw (syn, on_syn_sent) (rw (unset, on_syn_sent) (rest e))
  ]
  | inr unset ↦ rw (unset, on_syn_sent) (rest e)
]
on_state-Edge syn_received p sock src_ip len seg e = elim (Bool-cases (has_ack (seg 13))) [
  | inl ack ↦ rw (ack, on_syn_received) (confirmed ack)
  | inr unset ↦ rw (unset, on_syn_received) (rest e)
]
on_state-Edge established p sock src_ip len seg e = elim (Bool-cases (has_fin (seg 13))) [
  | inl fin ↦
      rw (fin, on_established)
        (woken
          (replies (record p { rcv_nxt = (htonl (load32 seg 4) + 1) % 2 ^ 32 }) 16 close_wait sock)
          (ends fin))
  | inr unset ↦ elim (Bool-cases (ltb (seg 12 / 16 * 4) len)) [
    | inl more ↦
        rw (unset, on_established)
          (rw (more, on_established)
            (subst (λ o. Edge (seg 13) established o)
              (sym (
                data-Edge p sock seg (bytes_at seg (seg 12 / 16 * 4) (len - seg 12 / 16 * 4))
                ∙ ap some e))
              (stays established)))
    | inr less ↦ rw (unset, on_established) (rw (less, on_established) (rest e))
  ]
]
on_state-Edge fin_wait_1 p sock src_ip len seg e = elim (Bool-cases (has_fin (seg 13))) [
  | inl fin ↦ elim (Bool-cases (has_ack (seg 13))) [
    | inl ack ↦ rw (fin, on_fin_wait_1) (rw (ack, on_fin_wait_1) (both_end_acked fin ack))
    | inr unset ↦ rw (fin, on_fin_wait_1) (rw (unset, on_fin_wait_1) (both_end fin unset))
  ]
  | inr more ↦ elim (Bool-cases (has_ack (seg 13))) [
    | inl ack ↦ rw (more, on_fin_wait_1) (rw (ack, on_fin_wait_1) (fin_acked ack more))
    | inr unset ↦ rw (more, on_fin_wait_1) (rw (unset, on_fin_wait_1) (rest e))
  ]
]
on_state-Edge fin_wait_2 p sock src_ip len seg e = elim (Bool-cases (has_fin (seg 13))) [
  | inl fin ↦ rw (fin, on_fin_wait_2) (other_ends fin)
  | inr unset ↦ rw (unset, on_fin_wait_2) (rest e)
]
on_state-Edge last_ack p sock src_ip len seg e = elim (Bool-cases (has_ack (seg 13))) [
  | inl ack ↦ rw (ack, on_last_ack) (last_acked ack)
  | inr unset ↦ rw (unset, on_last_ack) (rest e)
]
