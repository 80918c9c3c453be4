-- ===== src/Tcp/Tables.antt =====
-- The table of control blocks and the local ports of kernel/net/tcp.c.
use peker_os.Common.{
  ℕ, zero, suc, ◌≤◌, ◌<◌, ◌≡◌, refl, arith, Option, none, some, List, [], ◌∷◌, length, get_elem?,
  set,
}
use peker_os.Tcp.{Pcb, new_pcb, tcp_new_pcb, tcp_get_free_port}

-- Every place of the table in front of `n` has a block.
abbrev pub AllTaken : List (Option Pcb) → ℕ → Type 0
AllTaken ps n = (j : ℕ) → j < n → (p : Pcb) × (get_elem? ps j ≡ some (some p))

-- What `tcp_new_pcb` does to the table: the first free place has the new block, or no place is free.
pub data NewPcb (ps : List (Option Pcb)) : Option (ℕ × List (Option Pcb)) → Type 0 where
  made :
      (i : ℕ)
      → get_elem? ps i ≡ some none
      → AllTaken ps i
      → NewPcb ps (some (i, set ps i (some new_pcb)))
  full : AllTaken ps (length ps) → NewPcb ps none

AllTaken-cons :
    (p : Pcb) (ps : List (Option Pcb)) (n : ℕ) → AllTaken ps n → AllTaken (some p ∷ ps) (suc n)
AllTaken-cons p ps n all zero lt = (p, refl)
AllTaken-cons p ps n all (suc j) lt = all j (omega arith)

NewPcb-cons :
    (p : Pcb) (ps : List (Option Pcb)) {r : Option (ℕ × List (Option Pcb))}
    → NewPcb ps r
    → NewPcb (some p ∷ ps) (elim r [ none ↦ none | some (i, ps') ↦ some (suc i, some p ∷ ps') ])
NewPcb-cons p ps (made i at all) = made (suc i) at (AllTaken-cons p ps i all)
NewPcb-cons p ps (full all) = full (AllTaken-cons p ps (length ps) all)

-- `tcp_new_pcb` puts a new block into the first free place of the table and changes no other, and it
-- fails only if no place is free.
pub tcp_new_pcb-NewPcb : (ps : List (Option Pcb)) → NewPcb ps (tcp_new_pcb ps)
unfolding tcp_new_pcb
tcp_new_pcb-NewPcb [] = full (λ j lt. absurd (omega arith))
tcp_new_pcb-NewPcb (none ∷ ps) = made 0 refl (λ j lt. absurd (omega arith))
tcp_new_pcb-NewPcb (some p ∷ ps) = NewPcb-cons p ps (tcp_new_pcb-NewPcb ps)

-- The `n`-th port that is given.
abbrev pub port_after : ℕ → ℕ → ℕ
port_after zero next_port = (tcp_get_free_port next_port).0
port_after (suc n) next_port = port_after n (tcp_get_free_port next_port).1

-- However often it is called, `tcp_get_free_port` gives a port from 10000 to 60000.
pub tcp_get_free_port-range :
    (n next_port : ℕ)
    → 10000 ≤ next_port
    → next_port ≤ 60000
    → (10000 ≤ port_after n next_port) × (port_after n next_port ≤ 60000)
unfolding tcp_get_free_port
tcp_get_free_port-range zero next_port lo hi = (lo, hi)
tcp_get_free_port-range (suc n) next_port lo hi =
    let next : ℕ = (tcp_get_free_port next_port).1 in
    let inside : (10000 ≤ next) × (next ≤ 60000) = ground arith in
    tcp_get_free_port-range n next inside.0 inside.1
