-- ===== src/Syscall.antt =====
-- kernel/proc/syscall.c: the open files of a task, and the end of its heap. The file system is a record of
-- operations, as kernel/fs/vfs.c gives them; an error of -1 in `eax` is `none`.
pub mod Open
pub mod Read
pub mod OnPafs
pub mod Heap
pub mod Sockets
mod Tests
use peker_os.Common.{
  ℕ, zero, suc, ◌+◌, ◌-◌, ◌*◌, ◌/◌, ◌%◌, ◌^◌, ◌≤◌, ◌<◌, min, ◌≡◌, refl, sym, ap, ◌∙◌, ◌≢◌, ◌⊎◌,
  Bool, true, false, not, ◌&&◌, ◌||◌, arith, inl, inr, ◌==◌, ltb, leb, ltb→lt, lt→ltb, Bool-cases,
  if◌then◌else◌, Option, none, some, List, [], ◌∷◌, ◌++◌, length, take, drop, get_elem?, set,
  length-append, length-set, get_elem?-set_ne, get_elem?-set_self, get_elem?-lt, ◌↔◌,
}

-- What a call asks of the file system, in a state `W`, with nodes `N`.
pub record Vfs (W N : Type 0) : Type 0 where
  pub is_socket : N → Bool
  pub get_node : W → List ℕ → Option N
  pub create : W → List ℕ → W
  pub read : W → N → ℕ → ℕ → List ℕ × W
  pub write : W → N → ℕ → List ℕ → ℕ × W
  pub close : W → N → W

-- The fields of `struct task` that the calls on files use, with 16 places.
pub record Files (N : Type 0) : Type 0 where
  pub fd_table : List (Option N)
  pub fd_offset : List ℕ

module _ {N : Type 0} where
  -- The node at a number, if it is one of the 16 and in use; a negative number, as a word, is above them.
  unfoldable pub node_at : Files N → ℕ → Option N
  node_at t fd =
      if leb 16 fd
      then none
      else elim (get_elem? t.fd_table fd) [ none ↦ none | some entry ↦ entry ]

  unfoldable pub offset_at : Files N → ℕ → ℕ
  offset_at t fd = elim (get_elem? t.fd_offset fd) [ none ↦ 0 | some offset ↦ offset ]

  -- The rounds left and the index: the first place that is not in use.
  unfoldable pub free_fd : List (Option N) → ℕ → Option ℕ
  free_fd [] i = none
  free_fd (none ∷ more) i = some i
  free_fd (some node ∷ more) i = free_fd more (i + 1)

  unfoldable pub put_fd : Files N → ℕ → N → Files N
  put_fd t i node = record t { fd_table = set t.fd_table i (some node) }

module _ {W N : Type 0} (v : Vfs W N) where
  -- The node of a path; one that is not there is made if the flags ask for it.
  unfoldable pub node_for : W → List ℕ → ℕ → Option N × W
  node_for w path flags = elim (v.get_node w path) [
    | some node ↦ (some node, w)
    | none ↦
        if flags % 2 == 1 then (v.get_node (v.create w path) path, v.create w path) else (none, w)
  ]

  unfoldable pub sys_open : W → Files N → List ℕ → ℕ → Option ℕ × (W × Files N)
  sys_open w t path flags =
      let (found, w1) = node_for w path flags in
      elim found [
        | none ↦ (none, (w1, t))
        | some node ↦ elim (free_fd t.fd_table 0) [
          | none ↦ (none, (v.close w1 node, t))
          | some i ↦ (some i, (w1, record (put_fd t i node) { fd_offset = set t.fd_offset i 0 }))
        ]
      ]

  -- The offset moves on by what was read or written, unless the node is a socket.
  unfoldable pub advance : Files N → ℕ → N → ℕ → Files N
  advance t fd node n =
      if not (v.is_socket node) && ltb 0 n
      then record t { fd_offset = set t.fd_offset fd ((offset_at t fd + n) % 2 ^ 32) }
      else t

  unfoldable pub sys_read : W → Files N → ℕ → ℕ → Option (List ℕ) × (W × Files N)
  sys_read w t fd size = elim (node_at t fd) [
    | none ↦ (none, (w, t))
    | some node ↦
        let (bytes, w1) = v.read w node (offset_at t fd) size in
        (some bytes, (w1, advance t fd node (length bytes)))
  ]

  -- What goes to the screen, the number written, and the state.
  unfoldable pub sys_write_fd : W → Files N → ℕ → List ℕ → List ℕ × (Option ℕ × (W × Files N))
  sys_write_fd w t fd bytes =
      if (fd == 1) || (fd == 2)
      then (bytes, (some (length bytes), (w, t)))
      else elim (node_at t fd) [
        | none ↦ ([], (none, (w, t)))
        | some node ↦
            let (n, w1) = v.write w node (offset_at t fd) bytes in
            ([], (some n, (w1, advance t fd node n)))
      ]

  unfoldable pub sys_close : W → Files N → ℕ → Bool × (W × Files N)
  sys_close w t fd = elim (node_at t fd) [
    | none ↦ (false, (w, t))
    | some node ↦ (
      true,
      (
        v.close w node,
        record t { fd_table = set t.fd_table fd none; fd_offset = set t.fd_offset fd 0 },
      ),
    )
  ]

  -- The node of a socket that `socket_create` or `socket_accept` made gets a number; its offset stays.
  unfoldable pub enter_socket : Files N → Option N → Option ℕ × Files N
  enter_socket t made = elim made [
    | none ↦ (none, t)
    | some node ↦ elim (free_fd t.fd_table 0) [
      | none ↦ (none, t)
      | some i ↦ (some i, put_fd t i node)
    ]
  ]

  -- The check in front of the calls on sockets.
  unfoldable pub socket_at : Files N → ℕ → Option N
  socket_at t fd = elim (node_at t fd) [
    | none ↦ none
    | some node ↦ if v.is_socket node then some node else none
  ]
