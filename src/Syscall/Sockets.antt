-- ===== src/Syscall/Sockets.antt =====
-- The calls on sockets of kernel/proc/syscall.c, with kernel/net/socket.c below them. A node of a socket
-- has the place of its socket in the table; a structure in memory is its fields.
use peker_os.Common.{ℕ, ◌≡◌, refl, ◌==◌, if◌then◌else◌, Option, none, some, List, get_elem?}
use peker_os.Socket.{Socket, Received, socket_create, socket_recvfrom}
use peker_os.Tcp.Input.{Tcp}
use peker_os.Tcp.Calls.{
  socket_bind, socket_listen, connect_start, socket_accept, accepts, crashes, sleeps, refuses,
  socket_sendto, SentTo, refused,
}
use peker_os.Syscall.{Vfs, Files, node_at, socket_at, enter_socket}

-- What a call comes to: the value in `eax`, `none` for -1, or the task waits in it, or the code follows a
-- null pointer.
pub data Outcome (A : Type 0) : Type 0 where
  gives : Option ℕ → A → Outcome A
  sleeping : A → Outcome A
  null_pointer : Outcome A

module _ {W N : Type 0} (v : Vfs W N) (place : N → ℕ) (st : Tcp) (t : Files N) where
  -- The socket at a number, with its place in the table.
  unfoldable pub at_socket : Option N → Option (ℕ × Socket)
  at_socket found = elim found [
    | none ↦ none
    | some node ↦ elim (get_elem? st.sockets (place node)) [
      | none ↦ none
      | some s ↦ some (place node, s)
    ]
  ]

  -- A socket that is made, with the memory of its ring, and the number that it gets.
  unfoldable pub sys_socket : (ℕ → N) → (ℕ → ℕ) → ℕ → ℕ → ℕ → Option ℕ × (Tcp × Files N)
  sys_socket new_node memory domain type protocol =
      elim (socket_create st.sockets memory domain type protocol) [
        | none ↦ (none, (st, t))
        | some (i, sockets) ↦
            let (fd, t1) = enter_socket v t (some (new_node i)) in
            (fd, (record st { sockets = sockets }, t1))
      ]

  unfoldable pub sys_bind : ℕ → ℕ → ℕ → Option ℕ × Tcp
  sys_bind fd sin_port s_addr = elim (at_socket (socket_at v t fd)) [
    | none ↦ (none, st)
    | some (i, s) ↦ (some 0, socket_bind st i s sin_port s_addr)
  ]

  unfoldable pub sys_listen : ℕ → Outcome Tcp
  sys_listen fd = elim (at_socket (socket_at v t fd)) [
    | none ↦ gives none st
    | some (i, s) ↦ elim (socket_listen st i s) [
      | none ↦ null_pointer
      | some (listens, st1) ↦ gives (if listens then some 0 else none) st1
    ]
  ]

  -- Up to the call of the scheduler in `socket_connect`; a datagram's socket does not wait.
  unfoldable pub sys_connect : ℕ → ℕ → ℕ → ℕ → ℕ → ℕ → Outcome Tcp
  sys_connect fd sin_port s_addr free_port my_ip current = elim (at_socket (socket_at v t fd)) [
    | none ↦ gives none st
    | some (i, s) ↦ elim (connect_start st i s sin_port s_addr free_port my_ip current) [
      | none ↦ null_pointer
      | some st1 ↦ if s.type == 1 then sleeping st1 else gives (some 0) st1
    ]
  ]

  -- A turn of the call: the node of the socket itself gets a second number.
  unfoldable pub sys_accept : ℕ → ℕ → Outcome (Tcp × Files N)
  sys_accept fd current = elim (at_socket (socket_at v t fd)) [
    | none ↦ gives none (st, t)
    | some (i, s) ↦ elim (socket_accept st i s current) [
      | accepts ↦ (let (fd1, t1) = enter_socket v t (socket_at v t fd) in gives fd1 (st, t1))
      | crashes ↦ null_pointer
      | sleeps st1 ↦ sleeping (st1, t)
      | refuses ↦ gives none (st, t)
    ]
  ]

  unfoldable pub sys_sendto : ℕ → List ℕ → Option (ℕ × ℕ) → SentTo
  sys_sendto fd message dest = elim (at_socket (socket_at v t fd)) [
    | none ↦ refused
    | some (i, s) ↦ socket_sendto st s message dest
  ]

  -- Here the code does not look whether the node is that of a socket.
  unfoldable pub sys_recvfrom : ℕ → ℕ → Option ℕ → ℕ → Option Received
  sys_recvfrom fd len room current = elim (at_socket (node_at t fd)) [
    | none ↦ none
    | some (i, s) ↦ some (socket_recvfrom s st.tasks current len room)
  ]

  -- At a number that has no socket the calls that look at it fail, and nothing changes.
  pub no_socket-refused :
      (fd a b c d e : ℕ) (message : List ℕ)
      → socket_at v t fd ≡ none
      → (sys_bind fd a b ≡ (none, st))
        × (sys_listen fd ≡ gives none st)
        × (sys_connect fd a b c d e ≡ gives none st)
        × (sys_accept fd e ≡ gives none (st, t))
        × (sys_sendto fd message none ≡ refused)
  unfolding sys_bind sys_listen sys_connect sys_accept sys_sendto at_socket
  no_socket-refused fd a b c d e message no_one = (
    rw (no_one, sys_bind, at_socket) refl,
    rw (no_one, sys_listen, at_socket) refl,
    rw (no_one, sys_connect, at_socket) refl,
    rw (no_one, sys_accept, at_socket) refl,
    rw (no_one, sys_sendto, at_socket) refl,
  )
