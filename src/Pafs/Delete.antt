-- ===== src/Pafs/Delete.antt =====
-- `pafs_delete` of kernel/fs/pafs.c.
use peker_os.Common.{
  ℕ, ◌≡◌, refl, sym, ap, ◌∙◌, ◌≢◌, ◌⊎◌, Bool, true, false, not, ◌&&◌, ◌||◌, arith, inl, inr, ◌==◌,
  Bool-cases, if◌then◌else◌, Option, none, some, List,
}
use mathlib.Core.Path.{subst}
use peker_os.Pafs.{
  Pafs, type_dir, inode_type, inode_size, pafs_save_inode, pafs_save_bitmap, pafs_save_superblock,
  find_place, pafs_find_entry, pafs_is_dir_empty, remove_at, pafs_remove_entry,
}
use peker_os.Pafs.Blocks.{IsFs}
use peker_os.Pafs.Same.{else_found, entry_of, find_place-same}
use peker_os.Pafs.Files.{Deleted, missing, not_empty, removed, delete_inode, pafs_delete}
use peker_os.Pafs.Frees.{Frees, freed_state, freed-SameDir, deleted_state, deleted-Frees}

-- What `pafs_delete` gives: an error, with nothing changed, if the name is not there or is that of a
-- directory that is not empty, and only then.
pub data Deletes (p : Pafs) (parent : ℕ) (name : List ℕ) : Deleted × Pafs → Type 0 where
  no_name : pafs_find_entry p parent name ≡ none → Deletes p parent name (missing, p)
  has_entries :
      (ino : ℕ)
      → pafs_find_entry p parent name ≡ some ino
      → inode_type p ino ≡ type_dir
      → inode_size p ino ≢ 0
      → Deletes p parent name (not_empty, p)
  deletes :
      (ino : ℕ) (q : Pafs)
      → pafs_find_entry p parent name ≡ some ino
      → ((inode_type p ino ≢ type_dir) ⊎ (inode_size p ino ≡ 0))
      → Frees p ino q
      → Deletes p parent name (removed, q)

-- The search that `pafs_find_entry` makes.
entry_found :
    (p : Pafs) (dir ino : ℕ) (name : List ℕ)
    → pafs_find_entry p dir name ≡ some ino
    → entry_of p dir (find_place p dir name 14 0) ≡ some ino
unfolding pafs_find_entry entry_of
entry_found p dir ino name found =
    (else_found (not (inode_type p dir == type_dir) || (inode_size p dir == 0))
      (entry_of p dir (find_place p dir name 14 0)) ino found).1

pub remove_found :
    (p : Pafs) (dir : ℕ) (name : List ℕ) (i j : ℕ)
    → find_place p dir name 14 0 ≡ some (i, j)
    → pafs_remove_entry p dir name ≡ (true, remove_at p dir i j)
unfolding pafs_remove_entry
remove_found p dir name i j place = rw (place, pafs_remove_entry) refl

module _ (p : Pafs) (parent : ℕ) (name : List ℕ) (f : IsFs p) where
  -- What is saved after the entry was removed.
  saved_after : ℕ → Bool × Pafs → Deleted × Pafs
  saved_after ino r = (
    if r.0 then removed else missing,
    pafs_save_inode (pafs_save_bitmap (pafs_save_superblock r.1)) ino,
  )

  delete_inode-saved :
      (ino : ℕ) (ne : ino ≢ parent)
      → delete_inode p parent name ino
        ≡ saved_after ino (pafs_remove_entry (freed_state p parent ino f ne) parent name)
  unfolding delete_inode saved_after freed_state
  delete_inode-saved ino ne = refl

  -- The entry is found again, since the blocks of the directory are as they were.
  delete_inode-Deletes :
      (ino : ℕ)
      → ino ≢ parent
      → pafs_find_entry p parent name ≡ some ino
      → ((inode_type p ino ≢ type_dir) ⊎ (inode_size p ino ≡ 0))
      → Deletes p parent name (delete_inode p parent name ino)
  unfolding deleted_state entry_of saved_after
  delete_inode-Deletes ino ne found fit = go (find_place q parent name 14 0) refl (
      find_place-same (freed-SameDir p parent ino f ne) name 14 0 refl
      ∙ entry_found p parent ino name found)
    where
      q : Pafs
      q = freed_state p parent ino f ne

      go :
          (o : Option (ℕ × ℕ))
          → find_place q parent name 14 0 ≡ o
          → entry_of q parent o ≡ some ino
          → Deletes p parent name (delete_inode p parent name ino)
      go none place e = absurd (ground (arith, e))
      go (some (i, j)) place e =
          subst (Deletes p parent name)
            (sym (
              delete_inode-saved ino ne
              ∙ ap (saved_after ino) (remove_found q parent name i j place)))
            (deletes ino (deleted_state p parent ino f ne i j) found fit
              (deleted-Frees p parent ino f ne i j))

  not_full :
      (ino : ℕ)
      → (inode_type p ino == type_dir)
          && not ((inode_type p ino == type_dir) && (inode_size p ino == 0))
        ≡ false
      → (inode_type p ino ≢ type_dir) ⊎ (inode_size p ino ≡ 0)
  not_full ino fit = elim (Bool-cases (inode_type p ino == type_dir)) [
    | inl dir ↦ inr (ground (arith, dir, fit))
    | inr other ↦ inl (ground (arith, other))
  ]

  -- `pafs_delete`, on a well-formed disk, of a name that is not that of the directory itself gives an error,
  -- with nothing changed, if the name is not there or is that of a directory that is not empty, and
  -- otherwise frees the inode and its blocks and no other, and the disk is well formed.
  pub pafs_delete-Deletes :
      ((ino : ℕ) → pafs_find_entry p parent name ≡ some ino → ino ≢ parent)
      → Deletes p parent name (pafs_delete p parent name)
  unfolding pafs_delete pafs_is_dir_empty
  pafs_delete-Deletes apart = go (pafs_find_entry p parent name) refl
    where
      go :
          (o : Option ℕ)
          → pafs_find_entry p parent name ≡ o
          → Deletes p parent name (elim o [
            | none ↦ (missing, p)
            | some ino ↦
                if (inode_type p ino == type_dir) && not (pafs_is_dir_empty p ino)
                then (not_empty, p)
                else delete_inode p parent name ino
          ])
      go none found = no_name found
      go (some ino) found =
          elim (Bool-cases ((inode_type p ino == type_dir) && not (pafs_is_dir_empty p ino))) [
            | inl full ↦ rw (full) (has_entries ino found (ground arith) (ground arith))
            | inr fit ↦
                rw (fit) (delete_inode-Deletes ino (apart ino found) found (not_full ino fit))
          ]
