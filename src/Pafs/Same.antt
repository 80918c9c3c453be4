-- ===== src/Pafs/Same.antt =====
-- The directories of kernel/fs/pafs.c: a search for a name reads the directory's blocks alone.
use peker_os.Common.{
  Bool, true, false, ℕ, zero, suc, ◌+◌, ◌<◌, ◌≡◌, refl, ap, ◌∙◌, ◌≢◌, true, false, not, ◌||◌, arith,
  inl, inr, ◌==◌, Bool-cases, if◌then◌else◌, Option, none, some, List,
}
use peker_os.Pafs.{
  Pafs, type_dir, inode_type, inode_size, inode_block, entry_inode, scan_name, find_place,
  pafs_find_entry,
}

pub else_found {ℓ} :
    {A : Type ℓ} (c : Bool) (o : Option A) (x : A)
    → (if c then none else o) ≡ some x
    → (c ≡ false) × (o ≡ some x)
else_found true o x e = absurd (ground (arith, e))
else_found false o x e = (refl, e)

-- A directory that reads the same in two states.
pub record SameDir (p q : Pafs) (dir : ℕ) : Type 0 where
  pub types : inode_type q dir ≡ inode_type p dir
  pub sizes : inode_size q dir ≡ inode_size p dir
  pub blocks : (i : ℕ) → i < 14 → inode_block q dir i ≡ inode_block p dir i
  pub sectors :
      (i : ℕ)
      → i < 14
      → inode_block p dir i ≢ 0
      → q.disk (inode_block p dir i) ≡ p.disk (inode_block p dir i)

unfoldable pub entry_of : Pafs → ℕ → Option (ℕ × ℕ) → Option ℕ
entry_of p dir o = elim o [
  | none ↦ none
  | some (i, j) ↦ some (entry_inode (p.disk (inode_block p dir i)) j)
]

module _ {p q : Pafs} {dir : ℕ} (s : SameDir p q dir) (name : List ℕ) where
  sector_same :
      (i : ℕ)
      → i < 14
      → inode_block p dir i ≢ 0
      → q.disk (inode_block q dir i) ≡ p.disk (inode_block p dir i)
  sector_same i hi ne = ap q.disk (s.blocks i hi) ∙ s.sectors i hi ne

  found-same :
      (n i : ℕ)
      → i < 14
      → inode_block p dir i ≢ 0
      → entry_of q dir (find_place q dir name n (i + 1))
        ≡ entry_of p dir (find_place p dir name n (i + 1))
      → (o : Option ℕ)
      → entry_of q dir (elim o [ none ↦ find_place q dir name n (i + 1) | some j ↦ some (i, j) ])
        ≡ entry_of p dir (elim o [ none ↦ find_place p dir name n (i + 1) | some j ↦ some (i, j) ])
  unfolding entry_of
  found-same n i hi ne later none = later
  found-same n i hi ne later (some j) = ap (λ d. some (entry_inode d j)) (sector_same i hi ne)

  pub find_place-same :
      (n i : ℕ)
      → i + n ≡ 14
      → entry_of q dir (find_place q dir name n i) ≡ entry_of p dir (find_place p dir name n i)
  unfolding find_place entry_of
  find_place-same zero i len = refl
  find_place-same (suc n) i len = elim (Bool-cases (inode_block p dir i == 0)) [
    | inl end ↦
        let end' : inode_block q dir i == 0 ≡ true =
          ap (λ b. b == 0) (s.blocks i (omega arith)) ∙ end in
        rw (end, end') refl
    | inr more ↦
        let ne : inode_block p dir i ≢ 0 = ground arith in
        let more' : inode_block q dir i == 0 ≡ false =
          ap (λ b. b == 0) (s.blocks i (omega arith)) ∙ more in
        rw (more, more', sector_same i (omega arith) ne)
          (unfold entry_of in
            found-same n i (omega arith) ne (find_place-same n (i + 1) (omega arith))
              (scan_name (p.disk (inode_block p dir i)) name 16 0))
  ]

  pub pafs_find_entry-same : pafs_find_entry q dir name ≡ pafs_find_entry p dir name
  unfolding pafs_find_entry entry_of
  pafs_find_entry-same =
      rw (s.types, s.sizes)
        (ap (λ o. if not (inode_type p dir == type_dir) || (inode_size p dir == 0) then none else o)
          (unfold entry_of in find_place-same 14 0 refl))

-- A directory that has an entry is one.
pub find_entry-dir :
    (p : Pafs) (dir ino : ℕ) (name : List ℕ)
    → pafs_find_entry p dir name ≡ some ino
    → inode_type p dir ≡ type_dir
unfolding pafs_find_entry
find_entry-dir p dir ino name found = elim (Bool-cases (inode_type p dir == type_dir)) [
  | inl is ↦ ground arith
  | inr not_one ↦ absurd (ground (arith, found))
]

pub find_entry-no_dir :
    (p : Pafs) (dir : ℕ) (name : List ℕ)
    → inode_type p dir == type_dir ≡ false
    → pafs_find_entry p dir name ≡ none
unfolding pafs_find_entry
find_entry-no_dir p dir name no_dir = rw (no_dir) refl
