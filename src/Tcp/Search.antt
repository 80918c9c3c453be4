-- ===== src/Tcp/Search.antt =====
-- The search of `tcp_input` of kernel/net/tcp.c for the block that a segment is for.
use peker_os.Common.{
  ℕ, zero, suc, ◌<◌, ◌≡◌, refl, sym, ap, ◌∙◌, true, false, arith, inl, inr, Bool-cases, Option,
  none, some, List, [], ◌∷◌, length, get_elem?, get_elem?-lt,
}
use native.Mathlib.Decide.{dec_lt}
use mathlib.Core.Option.{some-injective}
use peker_os.Tcp.{
  TcpState, Pcb, listen, closed, syn_sent, syn_received, established, fin_wait_1, fin_wait_2,
  close_wait, closing, last_ack, time_wait,
}
use peker_os.Tcp.Input.{is_listen, is_for, find_pcb}

-- A segment from an address and a port, for a port, is for a block that listens at that port, or that
-- has that port and is connected to the sender.
pub data IsFor (src_ip src_port dest_port : ℕ) (p : Pcb) : Type 0 where
  listens : p.state ≡ listen → p.local_port ≡ dest_port → IsFor src_ip src_port dest_port p
  talks :
      p.local_port ≡ dest_port
      → p.remote_port ≡ src_port
      → p.remote_ip ≡ src_ip
      → IsFor src_ip src_port dest_port p

-- No block in front of the place `n` is one that the segment is for.
abbrev pub NoneFor : ℕ → ℕ → ℕ → List (Option Pcb) → ℕ → Type 0
NoneFor src_ip src_port dest_port ps n =
    (j : ℕ) (p : Pcb) → j < n → get_elem? ps j ≡ some (some p) → ¬ IsFor src_ip src_port dest_port p

is_listen-eq : (s : TcpState) → is_listen s ≡ true → s ≡ listen
is_listen-eq listen e = refl
is_listen-eq closed e = ground arith
is_listen-eq syn_sent e = ground arith
is_listen-eq syn_received e = ground arith
is_listen-eq established e = ground arith
is_listen-eq fin_wait_1 e = ground arith
is_listen-eq fin_wait_2 e = ground arith
is_listen-eq close_wait e = ground arith
is_listen-eq closing e = ground arith
is_listen-eq last_ack e = ground arith
is_listen-eq time_wait e = ground arith

is_for-IsFor :
    (src_ip src_port dest_port : ℕ) (p : Pcb)
    → is_for src_ip src_port dest_port (some p) ≡ true
    → IsFor src_ip src_port dest_port p
is_for-IsFor src_ip src_port dest_port p e = elim (Bool-cases (is_listen p.state)) [
  | inl at ↦ listens (is_listen-eq p.state at) (ground (arith, e))
  | inr not_at ↦ talks (ground (arith, e)) (ground (arith, e, not_at)) (ground (arith, e, not_at))
]

IsFor-is_for :
    {src_ip src_port dest_port : ℕ} {p : Pcb}
    → IsFor src_ip src_port dest_port p
    → is_for src_ip src_port dest_port (some p) ≡ true
IsFor-is_for {p} (listens state port) =
    let at : is_listen p.state ≡ true = ap is_listen state in ground (arith, at, port)
IsFor-is_for (talks port remote ip) = ground (arith, port, remote, ip)

-- No block in front of the place `n` passes the test of `tcp_input`.
abbrev pub NoneIs : ℕ → ℕ → ℕ → List (Option Pcb) → ℕ → Type 0
NoneIs src_ip src_port dest_port ps n =
    (j : ℕ) (o : Option Pcb)
    → j < n
    → get_elem? ps j ≡ some o
    → is_for src_ip src_port dest_port o ≡ false

NoneIs-cons :
    (src_ip src_port dest_port : ℕ) (o : Option Pcb) (ps : List (Option Pcb)) (n : ℕ)
    → is_for src_ip src_port dest_port o ≡ false
    → NoneIs src_ip src_port dest_port ps n
    → NoneIs src_ip src_port dest_port (o ∷ ps) (suc n)
NoneIs-cons src_ip src_port dest_port o ps n other all zero x lt at =
    let same : x ≡ o =
      ap (λ (y : Option (Option Pcb)). elim y [ none ↦ x | some z ↦ z ]) (sym at) in
    ap (is_for src_ip src_port dest_port) same ∙ other
NoneIs-cons src_ip src_port dest_port o ps n other all (suc j) x lt at = all j x (omega arith) at

-- What the search of `tcp_input` finds, by its test.
pub data FoundBy (src_ip src_port dest_port : ℕ) (ps : List (Option Pcb))
    : Option (ℕ × Pcb) → Type 0 where
  found_by :
      (i : ℕ) (p : Pcb)
      → get_elem? ps i ≡ some (some p)
      → is_for src_ip src_port dest_port (some p) ≡ true
      → NoneIs src_ip src_port dest_port ps i
      → FoundBy src_ip src_port dest_port ps (some (i, p))
  missed :
      NoneIs src_ip src_port dest_port ps (length ps) → FoundBy src_ip src_port dest_port ps none

FoundBy-cons :
    {src_ip src_port dest_port : ℕ} (o : Option Pcb) (ps : List (Option Pcb)) {r : Option (ℕ × Pcb)}
    → is_for src_ip src_port dest_port o ≡ false
    → FoundBy src_ip src_port dest_port ps r
    → FoundBy src_ip src_port dest_port
        (o ∷ ps)
        (elim r [ none ↦ none | some (i, q) ↦ some (suc i, q) ])
FoundBy-cons o ps other (found_by i p at is before) =
    found_by (suc i) p at is (NoneIs-cons _ _ _ o ps i other before)
FoundBy-cons o ps other (missed all) = missed (NoneIs-cons _ _ _ o ps (length ps) other all)

find_pcb-FoundBy :
    (ps : List (Option Pcb)) (src_ip src_port dest_port : ℕ)
    → FoundBy src_ip src_port dest_port ps (find_pcb ps src_ip src_port dest_port)
unfolding find_pcb
find_pcb-FoundBy [] src_ip src_port dest_port = missed (λ j o lt at. absurd (omega arith))
find_pcb-FoundBy (none ∷ ps) src_ip src_port dest_port =
    FoundBy-cons none ps refl (find_pcb-FoundBy ps src_ip src_port dest_port)
find_pcb-FoundBy (some p ∷ ps) src_ip src_port dest_port =
    elim (Bool-cases (is_for src_ip src_port dest_port (some p))) [
      | inl is ↦ simp (is, find_pcb) (found_by 0 p refl is (λ j o lt at. absurd (omega arith)))
      | inr other ↦
          simp (other, find_pcb)
            (FoundBy-cons (some p) ps other (find_pcb-FoundBy ps src_ip src_port dest_port))
    ]

-- What the search of `tcp_input` finds: the first block that the segment is for, or none is.
pub data Found (src_ip src_port dest_port : ℕ) (ps : List (Option Pcb))
    : Option (ℕ × Pcb) → Type 0 where
  found :
      (i : ℕ) (p : Pcb)
      → get_elem? ps i ≡ some (some p)
      → IsFor src_ip src_port dest_port p
      → NoneFor src_ip src_port dest_port ps i
      → Found src_ip src_port dest_port ps (some (i, p))
  missing :
      NoneFor src_ip src_port dest_port ps (length ps) → Found src_ip src_port dest_port ps none

NoneIs-NoneFor :
    (src_ip src_port dest_port : ℕ) (ps : List (Option Pcb)) (n : ℕ)
    → NoneIs src_ip src_port dest_port ps n
    → NoneFor src_ip src_port dest_port ps n
NoneIs-NoneFor src_ip src_port dest_port ps n all j p lt at is =
    let yes_it_is = IsFor-is_for is in
    let no_it_is = all j (some p) lt at in absurd (ground (arith, yes_it_is, no_it_is))

FoundBy-Found :
    {src_ip src_port dest_port : ℕ} {ps : List (Option Pcb)} {r : Option (ℕ × Pcb)}
    → FoundBy src_ip src_port dest_port ps r
    → Found src_ip src_port dest_port ps r
FoundBy-Found {src_ip} {src_port} {dest_port} {ps} (found_by i p at is before) =
    found i p at (is_for-IsFor src_ip src_port dest_port p is)
      (NoneIs-NoneFor src_ip src_port dest_port ps i before)
FoundBy-Found {src_ip} {src_port} {dest_port} {ps} (missed all) =
    missing (NoneIs-NoneFor src_ip src_port dest_port ps (length ps) all)

pub find_pcb-Found :
    (ps : List (Option Pcb)) (src_ip src_port dest_port : ℕ)
    → Found src_ip src_port dest_port ps (find_pcb ps src_ip src_port dest_port)
find_pcb-Found ps src_ip src_port dest_port =
    FoundBy-Found (find_pcb-FoundBy ps src_ip src_port dest_port)

same_pcb :
    (ps : List (Option Pcb)) (i : ℕ) (p q : Pcb)
    → get_elem? ps i ≡ some (some p)
    → get_elem? ps i ≡ some (some q)
    → p ≡ q
same_pcb ps i p q e e' = some-injective p q (some-injective (some p) (some q) (sym e ∙ e'))

-- The block that is known to be the first one is the one found.
pub find_pcb-first :
    (ps : List (Option Pcb)) (src_ip src_port dest_port i : ℕ) (p : Pcb)
    → get_elem? ps i ≡ some (some p)
    → IsFor src_ip src_port dest_port p
    → NoneFor src_ip src_port dest_port ps i
    → find_pcb ps src_ip src_port dest_port ≡ some (i, p)
find_pcb-first ps src_ip src_port dest_port i p at is before =
    go (find_pcb ps src_ip src_port dest_port) (find_pcb-Found ps src_ip src_port dest_port)
  where
    go : (r : Option (ℕ × Pcb)) → Found src_ip src_port dest_port ps r → r ≡ some (i, p)
    go none (missing all) = absurd (all i p (get_elem?-lt ps i at) at is)
    go (some r) (found j q at' is' before') = elim (dec_lt i j) [
      | yes less ↦ absurd (before' i p less at is)
      | no from ↦ elim (dec_lt j i) [
        | yes less ↦ absurd (before j q less at' is')
        | no above ↦
            let e : j ≡ i = omega arith in
            let e' : q ≡ p = same_pcb ps i q p (ap (get_elem? ps) (sym e) ∙ at') at in
            ap some (ap (λ k. (k, q)) e ∙ ap (λ x. (i, x)) e')
      ]
    ]
