-- ===== src/Pafs/VfsRead.antt =====
-- `pafs_vfs_read` of kernel/fs/pafs.c, next to `pafs_read`.
use peker_os.Common.{
  ℕ, ◌+◌, ◌-◌, ◌*◌, ◌%◌, ◌^◌, ◌≤◌, ◌<◌, ◌≡◌, refl, sym, ap, ◌∙◌, ◌≢◌, true, false, not, ◌||◌, arith,
  inl, inr, ◌==◌, ltb, leb, Bool-cases, if◌then◌else◌, none, some, List, [], length, take, drop,
}
use peker_os.Common.Runs.{take-all, length-drop, drop-all}
use peker_os.Pafs.{
  Pafs, type_file, inode_type, inode_size, inode_block, root_inode, pafs_find_entry,
}
use peker_os.Pafs.Files.{read_loop, pafs_read, pafs_vfs_read}
use peker_os.Pafs.Read.{read_of, read_of-all, pafs_read-found}
use peker_os.Pafs.VfsLoop.{length-read_loop, vfs_read_loop-cut}

-- As much as is asked for, or all that is left.
take_rest :
    (s off size : ℕ) (xs : List ℕ)
    → length xs ≤ s
    → off ≤ s
    → take (if ltb s (off + size) then s - off else size) (drop off xs) ≡ take size (drop off xs)
take_rest s off size xs len le = elim (Bool-cases (ltb s (off + size))) [
  | inr not_beyond ↦ rw (not_beyond) refl
  | inl beyond ↦ rw (beyond) (
      take-all (s - off) (drop off xs) (omega (arith, length-drop off xs))
      ∙ sym (take-all size (drop off xs) (ground (arith, length-drop off xs))))
]

module _ (p : Pafs) (ino offset size : ℕ) (is_file : inode_type p ino ≡ type_file)
    (holes : (j : ℕ) → 512 * j < inode_size p ino → inode_block p ino j ≢ 0)
    (small : offset + size < 2 ^ 32) where
  pub pafs_vfs_read-cut :
      pafs_vfs_read p ino offset size
      ≡ take size (drop offset (read_loop p ino 14 0 (inode_size p ino)))
  unfolding pafs_vfs_read
  pafs_vfs_read-cut =
      let whole : List ℕ = read_loop p ino 14 0 (inode_size p ino) in
      let len : length whole ≤ inode_size p ino = length-read_loop p ino 14 0 (inode_size p ino) in
      let no_wrap : (offset + size) % 2 ^ 32 ≡ offset + size = omega arith in
      elim (Bool-cases (leb (inode_size p ino) offset)) [
        | inl behind ↦
            let stops : not (inode_type p ino == type_file) || leb (inode_size p ino) offset
                ≡ true =
              ground arith in
            rw (stops) (
              sym (
                ap (take size) (drop-all offset whole (ground (arith, len)))
                ∙ take-all size [] (omega arith)))
        | inr inside ↦
            let goes : not (inode_type p ino == type_file) || leb (inode_size p ino) offset
                ≡ false =
              ground (arith, is_file) in
            let n : ℕ =
              if ltb (inode_size p ino) (offset + size) then inode_size p ino - offset else size in
            rw (goes, no_wrap)
              (vfs_read_loop-cut p ino (inode_size p ino) holes offset n (ground arith)
                ∙ take_rest (inode_size p ino) offset size whole len (ground arith))
      ]

  -- `pafs_vfs_read` of a file of the root without holes gives, from any offset for which the end of the
  -- read is a word, what `pafs_read` of its name with a large enough buffer gives there.
  pub pafs_vfs_read-pafs_read :
      (name bytes : List ℕ) (max_len : ℕ)
      → pafs_find_entry p (root_inode p) name ≡ some ino
      → inode_size p ino ≤ max_len
      → pafs_read p name max_len ≡ some bytes
      → pafs_vfs_read p ino offset size ≡ take size (drop offset bytes)
  pafs_vfs_read-pafs_read name bytes max_len found room all =
      let whole : read_of p ino max_len ≡ some (read_loop p ino 14 0 (inode_size p ino)) =
        read_of-all p ino max_len is_file room in
      pafs_vfs_read-cut
      ∙ ap (λ o. elim o [ none ↦ [] | some xs ↦ take size (drop offset xs) ])
          ((sym whole ∙ sym (pafs_read-found p name ino max_len found) ∙ all))
