-- ===== src/Socket/Table.antt =====
-- The table of sockets of kernel/net/socket.c: which socket a datagram goes to, and which place of the
-- table a new socket takes.
use peker_os.Common.{
  ℕ, zero, suc, ◌+◌, ◌<◌, ◌≡◌, refl, sym, ap, ◌∙◌, ◌⊎◌, Bool, true, false, not, arith, inl, inr,
  Bool-cases, Option, none, some, List, [], ◌∷◌, ◌++◌, length, get_elem?, set, get_elem?-set_ne,
  get_elem?-set_self, get_elem?-lt,
}
use peker_os.Task.{Task}
use peker_os.Socket.{
  Socket, Packet, set_state, deliver, listens, dispatch_loop, socket_dispatch_udp, free_slot,
  socket_create, socket_close,
}
use peker_os.Socket.Datagrams.{Holds, Sized, deliver-Holds}

-- No socket of the list in front of the place `i` has the property.
abbrev pub NoneBefore : (Socket → Bool) → List Socket → ℕ → Type 0
NoneBefore f ss i = (j : ℕ) (s : Socket) → j < i → get_elem? ss j ≡ some s → f s ≡ false

dispatch_loop-first :
    (ss : List Socket) (port : ℕ) (p : Packet) (i : ℕ) (s : Socket)
    → get_elem? ss i ≡ some s
    → listens port s ≡ true
    → NoneBefore (listens port) ss i
    → dispatch_loop ss port p ≡ (set ss i (deliver s p).0, (deliver s p).1)
unfolding dispatch_loop
dispatch_loop-first [] port p i s at here before = absurd (ground arith)
dispatch_loop-first (x ∷ ss) port p zero s at here before =
    let same : x ≡ s = ap (λ (o : Option Socket). elim o [ none ↦ x | some y ↦ y ]) at in
    rw same (rw here refl)
dispatch_loop-first (x ∷ ss) port p (suc i) s at here before =
    let other : listens port x ≡ false = before 0 x (omega arith) refl in
    let e =
      dispatch_loop-first ss port p i s at here (λ j t lt e. before (suc j) t (omega arith) e) in
    rw other (ap (λ (r : List Socket × Option ℕ). (x ∷ r.0, r.1)) e)

dispatch_loop-none :
    (ss : List Socket) (port : ℕ) (p : Packet)
    → NoneBefore (listens port) ss (length ss)
    → dispatch_loop ss port p ≡ (ss, none)
unfolding dispatch_loop
dispatch_loop-none [] port p all = refl
dispatch_loop-none (x ∷ ss) port p all =
    let other : listens port x ≡ false = all 0 x (omega arith) refl in
    let e = dispatch_loop-none ss port p (λ j t lt e. all (suc j) t (omega arith) e) in
    rw other (ap (λ (r : List Socket × Option ℕ). (x ∷ r.0, r.1)) e)

-- What the arrival of a datagram does to the sockets and to the tasks: it is the last of the queue of
-- the socket at the place `i`, and the task that waits there is ready to run; or it does not fit, and
-- nothing changes.
pub data Arrives (ss : List Socket) (ts : List Task) (i : ℕ) (s : Socket) (q : List Packet)
    (p : Packet) (out : List Socket × List Task) : Type 0 where
  queued :
      (s' : Socket)
      → Holds s' (q ++ (p ∷ []))
      → s'.waiting_task ≡ none
      → out ≡ (set ss i s', set_state ts s.waiting_task true)
      → Arrives ss ts i s q p out
  dropped : 4096 < s.buffer_len + 8 + length p.payload → out ≡ (ss, ts) → Arrives ss ts i s q p out

set-same : (ss : List Socket) (i : ℕ) (s : Socket) → get_elem? ss i ≡ some s → set ss i s ≡ ss
set-same [] i s at = refl
set-same (x ∷ ss) zero s at =
    ap (λ (o : Option Socket). elim o [ none ↦ s ∷ ss | some y ↦ y ∷ ss ]) (sym at)
set-same (x ∷ ss) (suc i) s at = ap (λ r. x ∷ r) (set-same ss i s at)

-- A datagram for a port goes to the first socket in use that is bound to it, and no other socket
-- changes: there it is queued, and wakes the task that waits, if it fits, and is dropped otherwise.
pub socket_dispatch_udp-Arrives :
    (ss : List Socket) (ts : List Task) (port : ℕ) (p : Packet) (i : ℕ) (s : Socket)
    (q : List Packet)
    → get_elem? ss i ≡ some s
    → listens port s ≡ true
    → NoneBefore (listens port) ss i
    → Holds s q
    → Sized p
    → Arrives ss ts i s q p (socket_dispatch_udp ss ts port p)
unfolding socket_dispatch_udp
socket_dispatch_udp-Arrives ss ts port p i s q at here before h z =
    let e = dispatch_loop-first ss port p i s at here before in
    elim (deliver-Holds s q p h z) [
      | inl (room, h', quiet, woken) ↦ queued (deliver s p).0 h' quiet (
          ap (λ (r : List Socket × Option ℕ). (r.0, set_state ts r.1 true)) e
          ∙ ap (λ w. (set ss i (deliver s p).0, set_state ts w true)) woken)
      | inr (full, same) ↦ dropped full (
          ap (λ (r : List Socket × Option ℕ). (r.0, set_state ts r.1 true)) e
          ∙ ap (λ (r : Socket × Option ℕ). (set ss i r.0, set_state ts r.1 true)) same
          ∙ ap (λ r. (r, ts)) (set-same ss i s at))
    ]

-- A datagram for a port that no socket in use is bound to changes nothing.
pub socket_dispatch_udp-unbound :
    (ss : List Socket) (ts : List Task) (port : ℕ) (p : Packet)
    → NoneBefore (listens port) ss (length ss)
    → socket_dispatch_udp ss ts port p ≡ (ss, ts)
unfolding socket_dispatch_udp
socket_dispatch_udp-unbound ss ts port p all =
    ap (λ (r : List Socket × Option ℕ). (r.0, set_state ts r.1 true))
      (dispatch_loop-none ss port p all)

NoneBefore-cons :
    (x : Socket) (ss : List Socket) (n : ℕ)
    → x.in_use ≡ true
    → NoneBefore (λ t. not t.in_use) ss n
    → NoneBefore (λ t. not t.in_use) (x ∷ ss) (suc n)
NoneBefore-cons x ss n used all zero s lt at =
    let same : x ≡ s = ap (λ (o : Option Socket). elim o [ none ↦ x | some y ↦ y ]) at in
    ap (λ (t : Socket). not t.in_use) (sym same) ∙ ap not used
NoneBefore-cons x ss n used all (suc j) s lt at = all j s (omega arith) at

-- The place that is looked for is that of the first socket not in use, if there is one.
free_slot-cases :
    (ss : List Socket)
    → ((s : Socket) × (get_elem? ss (free_slot ss) ≡ some s)
        × (s.in_use ≡ false)
        × NoneBefore (λ t. not t.in_use) ss (free_slot ss))
      ⊎ ((get_elem? ss (free_slot ss) ≡ none) × NoneBefore (λ t. not t.in_use) ss (length ss))
unfolding free_slot
free_slot-cases [] = inr (refl, λ j s lt at. absurd (omega arith))
free_slot-cases (x ∷ ss) = elim (Bool-cases x.in_use) [
  | inr free ↦ simp free (inl (x, refl, free, λ j s lt at. absurd (omega arith)))
  | inl used ↦ elim (free_slot-cases ss) [
    | inl (s, at, f, before) ↦
        simp used (inl (s, at, f, NoneBefore-cons x ss (free_slot ss) used before))
    | inr (at, all) ↦ simp used (inr (at, NoneBefore-cons x ss (length ss) used all))
  ]
]

-- What `socket_create` does to the table: the first place not in use is taken by a socket that is in
-- use and holds nothing, and no other place changes; or all places are in use, and there is no socket.
pub data Created (ss : List Socket) (type : ℕ) : Option (ℕ × List Socket) → Type 0 where
  made :
      (i : ℕ) (s t : Socket)
      → get_elem? ss i ≡ some s
      → s.in_use ≡ false
      → NoneBefore (λ u. not u.in_use) ss i
      → t.in_use ≡ true
      → t.type ≡ type
      → Holds t []
      → Created ss type (some (i, set ss i t))
  full : NoneBefore (λ u. not u.in_use) ss (length ss) → Created ss type none

-- `socket_create` takes the first place of the table that is not in use, for a socket of the type asked
-- for with an empty queue, and changes no other; it fails only if all places are in use.
pub socket_create-Created :
    (ss : List Socket) (memory : ℕ → ℕ) (domain type protocol : ℕ)
    → Created ss type (socket_create ss memory domain type protocol)
unfolding socket_create
socket_create-Created ss memory domain type protocol = elim (free_slot-cases ss) [
  | inl (s, at, free, before) ↦
      rw (at, socket_create)
        (made (free_slot ss) s
          (record s {
            domain = domain;
            type = type;
            protocol = protocol;
            in_use = true;
            local_port = 0;
            buffer = memory;
            buffer_head = 0;
            buffer_tail = 0;
            buffer_len = 0;
            waiting_task = none;
          })
          at free before refl refl
          (record {
            ahead = record { tail_in = omega arith; head_at = refl; fits = omega arith };
            sized = tt;
            stored = refl;
          }))
  | inr (at, all) ↦ rw (at, socket_create) (full all)
]

free_slot-at :
    (ss : List Socket) (i : ℕ) (s : Socket)
    → get_elem? ss i ≡ some s
    → s.in_use ≡ false
    → NoneBefore (λ t. not t.in_use) ss i
    → free_slot ss ≡ i
unfolding free_slot
free_slot-at [] i s at free before = absurd (ground arith)
free_slot-at (x ∷ ss) zero s at free before =
    let same : s ≡ x = ap (λ (o : Option Socket). elim o [ none ↦ s | some y ↦ y ]) (sym at) in
    let f : x.in_use ≡ false = ap (λ (t : Socket). t.in_use) (sym same) ∙ free in rw f refl
free_slot-at (x ∷ ss) (suc i) s at free before =
    let n : not x.in_use ≡ false = before 0 x (omega arith) refl in
    let used : x.in_use ≡ true = ground (arith, n) in
    rw used (ap suc (free_slot-at ss i s at free (λ j t lt e. before (suc j) t (omega arith) e)))

-- The first place not in use after a socket is closed in a table that is in use up to there: a socket
-- created then takes the place, and still has the protocol's block of the socket that was closed.
pub socket_create-stale :
    (ss : List Socket) (memory : ℕ → ℕ) (domain type protocol i : ℕ) (s : Socket)
    → get_elem? ss i ≡ some s
    → NoneBefore (λ t. not t.in_use) ss i
    → (t : Socket) × (ss' : List Socket) × (socket_create
          (socket_close ss i).0
          memory
          domain
          type
          protocol
        ≡ some (i, ss'))
      × (get_elem? ss' i ≡ some t)
      × (t.in_use ≡ true)
      × (t.tcp_pcb ≡ s.tcp_pcb)
unfolding socket_create socket_close
socket_create-stale ss memory domain type protocol i s at before =
    let closed : Socket = record s { in_use = false } in
    let us : List Socket = set ss i closed in
    let here : get_elem? us i ≡ some closed =
      get_elem?-set_self ss i closed (get_elem?-lt ss i at) in
    let slot : free_slot us ≡ i = free_slot-at us i closed here refl (λ j t lt e.
      before j t lt
        (sym (get_elem?-set_ne ss {i = i} {j = j} closed (λ q. omega (arith, q))) ∙ e)) in
    let t : Socket = record closed {
      domain = domain;
      type = type;
      protocol = protocol;
      in_use = true;
      local_port = 0;
      buffer = memory;
      buffer_head = 0;
      buffer_tail = 0;
      buffer_len = 0;
      waiting_task = none;
    } in
    (
      t,
      set us i t,
      rw (at, socket_close)
          (rw (ap (get_elem? us) slot ∙ here, socket_create) (ap (λ k. some (k, set us k t)) slot)),
      get_elem?-set_self us i t (get_elem?-lt us i here),
      refl,
      refl,
    )
