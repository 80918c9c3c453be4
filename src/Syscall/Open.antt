-- ===== src/Syscall/Open.antt =====
-- `sys_open` and `sys_close` of kernel/proc/syscall.c: which number a file gets, and that no other changes.
use peker_os.Common.{
  ℕ, zero, suc, ◌+◌, ◌<◌, ◌≡◌, refl, sym, ap, ◌∙◌, ◌≢◌, false, arith, leb, Option, none, some, List,
  [], ◌∷◌, length, ◌%◌, ◌==◌, inl, inr, Bool-cases, if◌then◌else◌, get_elem?, set, get_elem?-set_ne,
  get_elem?-set_self, get_elem?-lt,
}
use mathlib.Core.Option.{some-injective, none-ne-some}
use peker_os.Syscall.{Vfs, Files, node_at, offset_at, free_fd, put_fd, node_for, sys_open}

-- The first place from the index `i` on that is not in use.
data FreeFd {N : Type 0} (xs : List (Option N)) (i : ℕ) : Option ℕ → Type 0 where
  free_at :
      (k n : ℕ)
      → n ≡ i + k
      → get_elem? xs k ≡ some none
      → ((j : ℕ) → j < k → get_elem? xs j ≢ some none)
      → FreeFd xs i (some n)
  all_used : ((j : ℕ) → get_elem? xs j ≢ some none) → FreeFd xs i none

FreeFd-shift :
    {N : Type 0} {node : N} {more : List (Option N)} {i : ℕ} {o : Option ℕ}
    → FreeFd more (i + 1) o
    → FreeFd (some node ∷ more) i o
FreeFd-shift {node = node} {more = more} {i = i} (free_at k n at here before) =
    free_at (suc k) n (omega arith) here used
  where
    used : (j : ℕ) → j < suc k → get_elem? (some node ∷ more) j ≢ some none
    used zero lt e = none-ne-some node (sym (some-injective (some node) none e))
    used (suc j) lt e = before j (omega arith) e
FreeFd-shift {node = node} {more = more} (all_used used) = all_used later
  where
    later : (j : ℕ) → get_elem? (some node ∷ more) j ≢ some none
    later zero e = none-ne-some node (sym (some-injective (some node) none e))
    later (suc j) e = used j e

free_fd-FreeFd : {N : Type 0} (xs : List (Option N)) (i : ℕ) → FreeFd xs i (free_fd xs i)
unfolding free_fd
free_fd-FreeFd [] i = all_used (λ j e. none-ne-some none e)
free_fd-FreeFd (none ∷ more) i = free_at 0 i (omega arith) refl (λ j lt. absurd (omega arith))
free_fd-FreeFd (some node ∷ more) i = FreeFd-shift (free_fd-FreeFd more (i + 1))

module _ {W N : Type 0} (v : Vfs W N) (w : W) (t : Files N) (path : List ℕ) (flags : ℕ) where
  -- Which node is opened, and the file system's state then: the node of the path; if there is none and
  -- `O_CREAT` is among the flags, what the path leads to once its file is created; and else none.
  pub data Node : Option N × W → Type 0 where
    there : (node : N) → v.get_node w path ≡ some node → Node (some node, w)
    made :
        (found : Option N)
        → v.get_node w path ≡ none
        → flags % 2 ≡ 1
        → v.get_node (v.create w path) path ≡ found
        → Node (found, v.create w path)
    missing : v.get_node w path ≡ none → flags % 2 ≡ 0 → Node (none, w)

  node_for-Node : Node (node_for v w path flags)
  unfolding node_for
  node_for-Node = go (v.get_node w path) refl
    where
      go :
          (o : Option N)
          → v.get_node w path ≡ o
          → Node (elim o [
            | some node ↦ (some node, w)
            | none ↦
                if flags % 2 == 1
                then (v.get_node (v.create w path) path, v.create w path)
                else (none, w)
          ])
      go (some node) e = there node e
      go none e = elim (Bool-cases (flags % 2 == 1)) [
        | inl creates ↦ rw creates (made (v.get_node (v.create w path) path) e (ground arith) refl)
        | inr plain ↦ rw plain (missing e (ground (arith, plain)))
      ]

  -- What `sys_open` gives: an error, with the table as it was, if there is no node or all places are in
  -- use, and otherwise the first place that is not.
  pub data Opens : Option ℕ × (W × Files N) → Type 0 where
    no_file : (w1 : W) → Node (none, w1) → Opens (none, (w1, t))
    no_place :
        (node : N) (w1 : W)
        → Node (some node, w1)
        → ((i : ℕ) → get_elem? t.fd_table i ≢ some none)
        → Opens (none, (v.close w1 node, t))
    opens :
        (node : N) (w1 : W) (i : ℕ) (t1 : Files N)
        → Node (some node, w1)
        → get_elem? t.fd_table i ≡ some none
        → ((j : ℕ) → j < i → get_elem? t.fd_table j ≢ some none)
        → node_at t1 i ≡ some node
        → offset_at t1 i ≡ 0
        → ((j : ℕ) → j ≢ i → (node_at t1 j ≡ node_at t j) × (offset_at t1 j ≡ offset_at t j))
        → Opens (some i, (w1, t1))

  module _ (length_table : length t.fd_table ≡ 16) (length_offsets : length t.fd_offset ≡ 16) where
    opened : ℕ → N → Files N
    opened i node = record (put_fd t i node) { fd_offset = set t.fd_offset i 0 }

    opened-node : (i : ℕ) (node : N) → i < 16 → node_at (opened i node) i ≡ some node
    unfolding opened node_at put_fd
    opened-node i node lt =
        let inside : leb 16 i ≡ false = ground arith in
        rw (inside, get_elem?-set_self t.fd_table i (some node) (omega (arith, length_table))) refl

    opened-offset : (i : ℕ) (node : N) → i < 16 → offset_at (opened i node) i ≡ 0
    unfolding opened offset_at put_fd
    opened-offset i node lt =
        rw (get_elem?-set_self t.fd_offset i 0 (omega (arith, length_offsets)), offset_at) refl

    opened-other :
        (i : ℕ) (node : N) (j : ℕ)
        → j ≢ i
        → (node_at (opened i node) j ≡ node_at t j) × (offset_at (opened i node) j ≡ offset_at t j)
    unfolding opened node_at offset_at put_fd
    opened-other i node j ne = (
      rw (get_elem?-set_ne t.fd_table {i = i} {j = j} (some node) (λ e. ne (sym e))) refl,
      rw (get_elem?-set_ne t.fd_offset {i = i} {j = j} 0 (λ e. ne (sym e)), offset_at) refl,
    )

    -- In tables of 16 places `sys_open` opens the node of the path, or, if there is none and `O_CREAT` is
    -- given, what the path leads to after the creation of its file. It fails if that gives no node, and
    -- then creates nothing unless `O_CREAT` is given; it fails and closes the node if no place is free;
    -- else the first free place gets the node, with offset 0, and no other place changes.
    pub sys_open-Opens : Opens (sys_open v w t path flags)
    unfolding sys_open opened
    sys_open-Opens = go (node_for v w path flags) node_for-Node
      where
        place :
            (node : N) (w1 : W)
            → Node (some node, w1)
            → (o : Option ℕ) → FreeFd t.fd_table 0 o
            → Opens (elim o [
              | none ↦ (none, (v.close w1 node, t))
              | some i ↦
                  (some i, (w1, record (put_fd t i node) { fd_offset = set t.fd_offset i 0 }))
            ])
        place node w1 e none (all_used used) = no_place node w1 e used
        place node w1 e (some i) (free_at k n at here before) =
            let free : get_elem? t.fd_table i ≡ some none =
              ap (get_elem? t.fd_table) {x = i} {y = k} (omega arith) ∙ here in
            let lt : i < 16 = omega (arith, length_table, get_elem?-lt t.fd_table i free) in
            opens node w1 i (opened i node) e free (λ j less. before j (omega arith))
              (opened-node i node lt) (opened-offset i node lt) (opened-other i node)

        go :
            (r : Option N × W)
            → Node r
            → Opens (elim r.0 [
              | none ↦ (none, (r.1, t))
              | some node ↦ elim (free_fd t.fd_table 0) [
                | none ↦ (none, (v.close r.1 node, t))
                | some i ↦
                    (some i, (r.1, record (put_fd t i node) { fd_offset = set t.fd_offset i 0 }))
              ]
            ])
        go (none, w1) e = no_file w1 e
        go (some node, w1) e = place node w1 e (free_fd t.fd_table 0) (free_fd-FreeFd t.fd_table 0)
