-- ===== src/Syscall/Read.antt =====
-- `sys_read` of kernel/proc/syscall.c, of a file that is read piece by piece.
use peker_os.Common.{
  ℕ, zero, suc, ◌+◌, ◌%◌, ◌^◌, ◌≤◌, ◌<◌, ◌≡◌, refl, sym, ap, ◌∙◌, true, false, not, ◌&&◌, arith,
  inl, inr, ltb, Bool-cases, Option, none, some, List, [], ◌∷◌, ◌++◌, length, take, drop, set,
  length-set, get_elem?-set_self,
}
use mathlib.Core.List.{append-nil}
use native.Mathlib.Decide.{dec_lt}
use peker_os.Common.Runs.{length-take, take-all, take-take-drop, drop-all, drop-drop}
use peker_os.Syscall.{Vfs, Files, node_at, offset_at, advance, sys_read}

unfoldable pub total : List ℕ → ℕ
total [] = 0
total (n ∷ ns) = n + total ns

module _ {W N : Type 0} (v : Vfs W N) where
  -- Calls of `sys_read`, one for each size: all that they put into the buffers.
  pub read_pieces : W → Files N → ℕ → List ℕ → List ℕ
  read_pieces w t fd [] = []
  read_pieces w t fd (size ∷ sizes) =
      let rest = read_pieces (sys_read v w t fd size).1.0 (sys_read v w t fd size).1.1 fd sizes in
      elim (sys_read v w t fd size).0 [ none ↦ [] | some bytes ↦ bytes ++ rest ]

-- A piece, and what is behind it.
take_pieces :
    (m n : ℕ) (xs : List ℕ) → take m xs ++ take n (drop (length (take m xs)) xs) ≡ take (m + n) xs
take_pieces m n xs = elim (dec_lt (length xs) m) [
  | no enough ↦
      ap (λ k. take m xs ++ take n (drop k xs)) {x = length (take m xs)} {y = m}
        (ground (arith, length-take m xs))
      ∙ take-take-drop m n xs (omega arith)
  | yes short ↦
      let all : take m xs ≡ xs = take-all m xs (omega arith) in
      ap (λ ys. ys ++ take n (drop (length ys) xs)) all
      ∙ ap (λ ys. xs ++ take n ys) (drop-all (length xs) xs (omega arith))
      ∙ ap (λ ys. xs ++ ys) (take-all n [] (omega arith))
      ∙ append-nil xs
      ∙ sym (take-all (m + n) xs (omega arith))
]

no_wrap : (n : ℕ) → n < 2 ^ 32 → n % 2 ^ 32 ≡ n
no_wrap n small = omega arith

offset_at-set :
    {N : Type 0} (t : Files N) (fd n : ℕ)
    → fd < length t.fd_offset
    → offset_at (record t { fd_offset = set t.fd_offset fd n }) fd ≡ n
unfolding offset_at
offset_at-set t fd n there = rw (get_elem?-set_self t.fd_offset fd n there, offset_at) refl

module _ {W N : Type 0} (v : Vfs W N) (fd : ℕ) (sizes : List ℕ) where
  pieces_after : Option (List ℕ) × (W × Files N) → List ℕ
  pieces_after r = elim r.0 [ none ↦ [] | some bytes ↦ bytes ++ read_pieces v r.1.0 r.1.1 fd sizes ]

  read_pieces-after :
      (w : W) (t : Files N) (size : ℕ)
      → read_pieces v w t fd (size ∷ sizes) ≡ pieces_after (sys_read v w t fd size)
  unfolding read_pieces pieces_after
  read_pieces-after w t size = refl

module _ {W N : Type 0} (v : Vfs W N) (w : W) (node : N) (xs : List ℕ)
    (file : v.is_socket node ≡ false)
    (reads : (off size : ℕ)
      → off + size < 2 ^ 32
      → v.read w node off size ≡ (take size (drop off xs), w)) where
  -- The offset moves on by what was read.
  offset-advance :
      (t : Files N) (fd n : ℕ)
      → fd < length t.fd_offset
      → offset_at t fd + n < 2 ^ 32
      → offset_at (advance v t fd node n) fd ≡ offset_at t fd + n
  unfolding advance
  offset-advance t fd zero there small =
      let stays : not (v.is_socket node) && ltb 0 0 ≡ false = ground arith in
      rw (stays) (omega arith)
  offset-advance t fd (suc n) there small =
      let moves : not (v.is_socket node) && ltb 0 (suc n) ≡ true = ground (arith, file) in
      rw (moves) (
        offset_at-set t fd ((offset_at t fd + suc n) % 2 ^ 32) there
        ∙ no_wrap (offset_at t fd + suc n) small)

  node-advance : (t : Files N) (fd n : ℕ) → node_at (advance v t fd node n) fd ≡ node_at t fd
  unfolding advance node_at
  node-advance t fd n = ground (arith, file)

  read-sys :
      (t : Files N) (fd size : ℕ)
      → node_at t fd ≡ some node
      → offset_at t fd + size < 2 ^ 32
      → sys_read v w t fd size ≡ (
        some (take size (drop (offset_at t fd) xs)),
        (w, advance v t fd node (length (take size (drop (offset_at t fd) xs)))),
      )
  unfolding sys_read
  read-sys t fd size here small = rw (here, sys_read, reads (offset_at t fd) size small) refl

  length-advance :
      (t : Files N) (fd n : ℕ) → length (advance v t fd node n).fd_offset ≡ length t.fd_offset
  unfolding advance
  length-advance t fd n = elim (Bool-cases (not (v.is_socket node) && ltb 0 n)) [
    | inl moves ↦ rw (moves) (length-set t.fd_offset fd ((offset_at t fd + n) % 2 ^ 32))
    | inr stays ↦ rw (stays) refl
  ]

  -- `sys_read` of a file again and again gives the next pieces: together they are what one read from the
  -- first offset gives, as long as the offsets are words.
  pub sys_read-pieces :
      (t : Files N) (fd : ℕ) (sizes : List ℕ)
      → node_at t fd ≡ some node
      → fd < length t.fd_offset
      → offset_at t fd + total sizes < 2 ^ 32
      → read_pieces v w t fd sizes ≡ take (total sizes) (drop (offset_at t fd) xs)
  unfolding total pieces_after
  sys_read-pieces t fd [] here there small = unfold read_pieces in refl
  sys_read-pieces t fd (size ∷ sizes) here there small =
      let ys : List ℕ = drop (offset_at t fd) xs in
      let piece : List ℕ = take size ys in
      let next : Files N = advance v t fd node (length piece) in
      let len : length piece ≤ size = ground (arith, length-take size ys) in
      let moved : offset_at next fd ≡ offset_at t fd + length piece =
        offset-advance t fd (length piece) there (omega (arith, len)) in
      let rest : read_pieces v w next fd sizes ≡ take (total sizes) (drop (offset_at next fd) xs) =
        sys_read-pieces next fd sizes (node-advance t fd (length piece) ∙ here)
          (omega (arith, length-advance t fd (length piece))) (omega (arith, moved, len)) in
      read_pieces-after v fd sizes w t size
      ∙ ap (pieces_after v fd sizes) (read-sys t fd size here (omega arith))
      ∙ ap (λ zs. piece ++ zs) rest
      ∙ ap (λ o. piece ++ take (total sizes) (drop o xs)) moved
      ∙ ap (λ zs. piece ++ take (total sizes) zs)
          (sym (drop-drop (offset_at t fd) (length piece) xs))
      ∙ take_pieces size (total sizes) ys
