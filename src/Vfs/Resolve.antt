-- ===== src/Vfs/Resolve.antt =====
-- Where a path leads, of kernel/fs/vfs.c on the file system of kernel/fs/pafs.c: the names in the path, and
-- the directories that they are looked up in.
use peker_os.Common.{
  same_text, ℕ, suc, ◌<◌, ◌≡◌, refl, sym, ap, ◌∙◌, ◌≢◌, ◌⊎◌, true, false, arith, inl, inr, ◌==◌,
  Bool-cases, Option, none, some, List, [], ◌∷◌, ◌++◌, length,
}
use mathlib.Core.Path.{subst}
use mathlib.Core.List.{append-nil, append_assoc}
use peker_os.Pafs.{Pafs, type_dir, inode_type, root_inode, pafs_find_entry}
use peker_os.Vfs.{Node, path_names, is_skipped, vfs_get_node_by_path}
use peker_os.Vfs.Path.{PafsNode, pafs_driver, pafs_get_vfs_root, inode_at, Leads, path-inode_at}

-- A stroke in front of each of the names.
abbrev pub absolute : List (List ℕ) → List ℕ
absolute [] = []
absolute (name ∷ names) = 47 ∷ (name ++ absolute names)

-- Neither a stroke nor the end of the text is in a name.
abbrev pub IsPlain : List ℕ → Type 0
IsPlain [] = Unit
IsPlain (c ∷ cs) = (c ≢ 47) × (c ≢ 0) × IsPlain cs

-- The names can stand in a path: they are plain, and the code's array of 128 characters holds each.
abbrev pub ArePlain : List (List ℕ) → Type 0
ArePlain [] = Unit
ArePlain (name ∷ names) = IsPlain name × (length name < 128) × ArePlain names

-- Where names lead from a directory: the empty name and `.` stay, and another is that of an entry.
pub data Resolves (p : Pafs) : ℕ → List (List ℕ) → Option ℕ → Type 0 where
  arrives : (ino : ℕ) → Resolves p ino [] (some ino)
  stays_empty :
      (ino : ℕ) (names : List (List ℕ)) (out : Option ℕ)
      → Resolves p ino names out
      → Resolves p ino ([] ∷ names) out
  stays_dot :
      (ino : ℕ) (names : List (List ℕ)) (out : Option ℕ)
      → Resolves p ino names out
      → Resolves p ino ((46 ∷ []) ∷ names) out
  lost :
      (ino : ℕ) (name : List ℕ) (names : List (List ℕ))
      → name ≢ []
      → name ≢ 46 ∷ []
      → pafs_find_entry p ino name ≡ none
      → Resolves p ino (name ∷ names) none
  enters :
      (ino : ℕ) (name : List ℕ) (names : List (List ℕ)) (next : ℕ) (out : Option ℕ)
      → name ≢ []
      → name ≢ 46 ∷ []
      → pafs_find_entry p ino name ≡ some next
      → Resolves p next names out
      → Resolves p ino (name ∷ names) out

-- A name is read up to the next stroke.
path_names-plain :
    (front name : List ℕ) (names : List (List ℕ))
    → IsPlain name
    → ArePlain names
    → path_names front (name ++ absolute names) ≡ (front ++ name) ∷ names
unfolding path_names
path_names-plain front [] [] plain all = ap (λ xs. xs ∷ []) (sym (append-nil front))
path_names-plain front [] (next ∷ more) plain (one, short, all) =
    ap (λ xs. front ∷ xs) (path_names-plain [] next more one all)
    ∙ ap (λ xs. xs ∷ next ∷ more) (sym (append-nil front))
path_names-plain front (c ∷ cs) names (ne, live, plain) all =
    let other : (c == 47) ≡ false = ground (arith, ne) in
    rw other (
      path_names-plain (front ++ (c ∷ [])) cs names plain all
      ∙ ap (λ xs. xs ∷ names) (append_assoc front (c ∷ []) cs))

-- A name that is not passed over is not empty, and is not `.`.
real-name : (name : List ℕ) → is_skipped name ≡ false → (name ≢ []) × (name ≢ 46 ∷ [])
unfolding is_skipped same_text
real-name name real = (
  (λ e. let skipped = ap is_skipped e in absurd (ground (arith, real, skipped))),
  λ e. let skipped = ap is_skipped e in absurd (ground (arith, real, skipped)),
)

-- One more name in front.
Resolves-name :
    (p : Pafs) (ino : ℕ) (name : List ℕ) (names : List (List ℕ))
    → is_skipped name ≡ false
    → ((next : ℕ) → Resolves p next names (inode_at p next names))
    → Resolves p ino
        (name ∷ names)
        (elim (pafs_find_entry p ino name) [ none ↦ none | some next ↦ inode_at p next names ])
Resolves-name p ino name names real later = go (pafs_find_entry p ino name) refl
  where
    go :
        (o : Option ℕ)
        → pafs_find_entry p ino name ≡ o
        → Resolves p ino (name ∷ names) (elim o [ none ↦ none | some next ↦ inode_at p next names ])
    go none e = lost ino name names (real-name name real).0 (real-name name real).1 e
    go (some next) e =
        enters ino name names next (inode_at p next names) (real-name name real).0
          (real-name name real).1 e (later next)

skipped-name : (name : List ℕ) → is_skipped name ≡ true → (name ≡ []) ⊎ (name ≡ 46 ∷ [])
unfolding is_skipped same_text
skipped-name [] e = inl refl
skipped-name (c ∷ []) e = inr (ap (λ (x : ℕ). x ∷ []) {x = c} {y = 46} (ground (arith, e)))
skipped-name (c ∷ d ∷ cs) e = absurd (ground (arith, e))

-- A name that is passed over.
Resolves-skipped :
    (p : Pafs) (ino : ℕ) (name : List ℕ) (names : List (List ℕ)) (out : Option ℕ)
    → is_skipped name ≡ true
    → Resolves p ino names out
    → Resolves p ino (name ∷ names) out
Resolves-skipped p ino name names out e r = elim (skipped-name name e) [
  | inl empty ↦
      subst (λ x. Resolves p ino (x ∷ names) out) (sym empty) (stays_empty ino names out r)
  | inr dot ↦ subst (λ x. Resolves p ino (x ∷ names) out) (sym dot) (stays_dot ino names out r)
]

inode_at-Resolves :
    (p : Pafs) (ino : ℕ) (names : List (List ℕ)) → Resolves p ino names (inode_at p ino names)
unfolding inode_at
inode_at-Resolves p ino [] = arrives ino
inode_at-Resolves p ino (name ∷ names) = elim (Bool-cases (is_skipped name)) [
  | inl skip ↦ rw skip (Resolves-skipped p ino name names _ skip (inode_at-Resolves p ino names))
  | inr real ↦
      rw real (Resolves-name p ino name names real (λ next. inode_at-Resolves p next names))
]

-- Plain names of at most 127 characters with a stroke in front of each make a path. With the root of PAFS,
-- a directory, as the root and nothing mounted, the walk along it comes to the inode that the names lead
-- to: each is that of an entry of the directory before, but the empty name and `.` stay where they are;
-- and to no node if one is not there.
pub vfs_get_node_by_path-Leads :
    (p : Pafs) (n : ℕ) (base : Option (Node PafsNode)) (name : List ℕ) (names : List (List ℕ))
    → inode_type p (root_inode p) ≡ type_dir
    → ArePlain (name ∷ names)
    → (out : Option ℕ) × Resolves p (root_inode p) (name ∷ names) out
      × Leads p
          (vfs_get_node_by_path
            (pafs_driver p)
            (record { vfs_root = pafs_get_vfs_root p; mount_table = [] })
            (suc n)
            base
            (absolute (name ∷ names)))
          out
vfs_get_node_by_path-Leads p n base name names is_dir (plain, short, all) = (
  inode_at p (root_inode p) (name ∷ names),
  inode_at-Resolves p (root_inode p) (name ∷ names),
  subst
      (λ xs.
        Leads p
          (vfs_get_node_by_path (pafs_driver p)
            (record { vfs_root = pafs_get_vfs_root p; mount_table = [] }) (suc n) base
            (absolute (name ∷ names)))
          (inode_at p (root_inode p) xs))
      (path_names-plain [] name names plain all)
      (path-inode_at p n base (name ++ absolute names) is_dir),
)
