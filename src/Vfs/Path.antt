-- ===== src/Vfs/Path.antt =====
-- Paths of kernel/fs/vfs.c on the file system of kernel/fs/pafs.c.
use peker_os.Common.{
  same_text, ℕ, suc, ◌≡◌, refl, sym, ap, ◌∙◌, ◌≢◌, Bool, true, false, arith, inl, inr, ◌==◌,
  Bool-cases, if◌then◌else◌, Option, none, some, List, [], ◌∷◌,
}
use peker_os.Pafs.{Pafs, type_dir, inode_type, inode_size, root_inode, pafs_find_entry}
use mathlib.Core.Path.{subst}
use peker_os.Pafs.Same.{find_entry-no_dir}
use peker_os.Pafs.Files.{pafs_vfs_read, pafs_vfs_finddir}
use peker_os.Vfs.{
  Node, plain, node_flags, node_info, Driver, Mounts, vfs_finddir, find_child, mount_at, vfs_read,
  has_flag, path_names, is_skipped, Walked, arrived, no_node, endless, start, follow, walk,
  vfs_get_node_by_path, c_text, vfs_symlink,
}

-- What a node of the file system holds: the root's node has no `read`.
pub data PafsNode : Type 0 where
  root_node entry_node : ℕ → PafsNode

unfoldable pub inode_of : PafsNode → ℕ
inode_of (root_node ino) = ino
inode_of (entry_node ino) = ino

-- The functions that `pafs_get_vfs_root` and `pafs_vfs_finddir` put into a node.
unfoldable pub pafs_read_of : Pafs → PafsNode → Option (ℕ → ℕ → List ℕ)
pafs_read_of p (root_node ino) = none
pafs_read_of p (entry_node ino) = some (pafs_vfs_read p ino)

pub pafs_node : ℕ × ℕ × Bool → Node PafsNode
pafs_node (ino, len, is_dir) = plain (if is_dir then 2 else 1) (entry_node ino)

unfoldable pub pafs_driver : Pafs → Driver PafsNode
pafs_driver p = record {
  read = pafs_read_of p;
  finddir = λ node. some (λ name. elim (pafs_vfs_finddir p (inode_of node) name) [
    | none ↦ none
    | some found ↦ some (pafs_node found)
  ]);
}

unfoldable pub pafs_get_vfs_root : Pafs → Node PafsNode
pafs_get_vfs_root p = plain 2 (root_node (root_inode p))

-- Which inode the names lead to, each found in the directory of the one before.
unfoldable pub inode_at : Pafs → ℕ → List (List ℕ) → Option ℕ
inode_at p ino [] = some ino
inode_at p ino (name ∷ names) =
    let stay = inode_at p ino names in
    if is_skipped name
    then stay
    else elim (pafs_find_entry p ino name) [ none ↦ none | some next ↦ inode_at p next names ]

-- The outcome of a walk names the inode, or there is none.
pub data Leads (p : Pafs) : Walked PafsNode → Option ℕ → Type 0 where
  to_node : (node : Node PafsNode) → Leads p (arrived node) (some (inode_of (node_info node)))
  nowhere : Leads p no_node none

module _ (p : Pafs) (root : Node PafsNode) where
  mounts : Mounts PafsNode
  mounts = record { vfs_root = root; mount_table = [] }

  flags_of : ℕ → ℕ
  flags_of ino = if inode_type p ino == type_dir then 2 else 1

  -- The node that is found does not depend on whether its name is that of a mount: nothing is mounted.
  child_of : Bool → Node PafsNode → Option (Node PafsNode)
  child_of is_mnt node = if is_mnt then some node else some node

  child_of-same : (is_mnt : Bool) (node : Node PafsNode) → child_of is_mnt node ≡ some node
  unfolding child_of
  child_of-same true node = refl
  child_of-same false node = refl

  found_node : Option ℕ → Option (Node PafsNode)
  found_node o = elim o [ none ↦ none | some next ↦ some (plain (flags_of next) (entry_node next)) ]

  target_of : Option ℕ → Option (ℕ × ℕ × Bool)
  target_of o = elim o [
    | none ↦ none
    | some target ↦ some (target, inode_size p target, inode_type p target == type_dir)
  ]

  node_of : Option (ℕ × ℕ × Bool) → Option (Node PafsNode)
  node_of o = elim o [ none ↦ none | some found ↦ some (pafs_node found) ]

  named_of : Bool → Option (Node PafsNode) → Option (Node PafsNode)
  named_of is_mnt o = elim o [ none ↦ none | some res ↦ child_of is_mnt res ]

  child-found :
      (is_mnt : Bool) (o : Option ℕ) → named_of is_mnt (node_of (target_of o)) ≡ found_node o
  unfolding found_node target_of node_of named_of pafs_node flags_of
  child-found is_mnt none = refl
  child-found is_mnt (some next) =
      child_of-same is_mnt
        (plain (if inode_type p next == type_dir then 2 else 1) (entry_node next))

  finddir-entry :
      (node : PafsNode) (name : List ℕ)
      → vfs_finddir (pafs_driver p) mounts (plain (flags_of (inode_of node)) node) name
        ≡ found_node (pafs_find_entry p (inode_of node) name)
  unfolding vfs_finddir find_child pafs_driver pafs_vfs_finddir mounts mount_at flags_of has_flag
      child_of target_of node_of named_of
  finddir-entry node name = elim (Bool-cases (inode_type p (inode_of node) == type_dir)) [
    | inl is_dir ↦ rw (is_dir) (
        unfold child_of target_of node_of named_of in
        child-found (same_text name (109 ∷ 110 ∷ 116 ∷ []))
          (pafs_find_entry p (inode_of node) name))
    | inr no_dir ↦ rw (no_dir) (
        sym (
          ap found_node (find_entry-no_dir p (inode_of node) name no_dir)
          ∙ (unfold found_node in refl)))
  ]

  -- Neither a file nor a directory is a link.
  follow-flags :
      (resolve : Option (Node PafsNode) → List ℕ → Walked PafsNode) (ino : ℕ) (info : PafsNode)
      → follow (pafs_driver p) mounts resolve 8 (plain (flags_of ino) info)
        ≡ arrived (plain (flags_of ino) info)
  unfolding follow flags_of has_flag node_flags
  follow-flags resolve ino info = elim (Bool-cases (inode_type p ino == type_dir)) [
    | inl is_dir ↦ rw (is_dir) refl
    | inr no_dir ↦ rw (no_dir) refl
  ]

  walk-Leads :
      (resolve : Option (Node PafsNode) → List ℕ → Walked PafsNode) (names : List (List ℕ))
      (node : PafsNode)
      → Leads p
          (walk (pafs_driver p) mounts resolve (plain (flags_of (inode_of node)) node) names)
          (inode_at p (inode_of node) names)
  unfolding walk inode_at node_info found_node inode_of
  walk-Leads resolve [] node = to_node (plain (flags_of (inode_of node)) node)
  walk-Leads resolve (name ∷ names) node = elim (Bool-cases (is_skipped name)) [
    | inl skip ↦ rw (skip) (walk-Leads resolve names node)
    | inr real ↦
        rw (real, finddir-entry node name)
          (go (λ next. walk-Leads resolve names (entry_node next))
            (pafs_find_entry p (inode_of node) name))
  ]
    where
      go :
          ((next : ℕ)
            → Leads p
                (walk
                  (pafs_driver p)
                  mounts
                  resolve
                  (plain (flags_of next) (entry_node next))
                  names)
                (inode_at p next names))
          → (o : Option ℕ)
          → Leads p
              (elim (found_node o) [
                | none ↦ no_node
                | some next ↦ elim (follow (pafs_driver p) mounts resolve 8 next) [
                  | arrived target ↦ walk (pafs_driver p) mounts resolve target names
                  | no_node ↦ no_node
                  | endless ↦ endless
                ]
              ])
              (elim o [ none ↦ none | some next ↦ inode_at p next names ])
      go rest none = nowhere
      go rest (some next) = rw (follow-flags resolve next (entry_node next)) (rest next)

-- With the file system's root as the root, with nothing mounted, the walk along a path from the root is
-- that along its names.
pub path-inode_at :
    (p : Pafs) (n : ℕ) (base : Option (Node PafsNode)) (path : List ℕ)
    → inode_type p (root_inode p) ≡ type_dir
    → Leads p
        (vfs_get_node_by_path
          (pafs_driver p)
          (record { vfs_root = pafs_get_vfs_root p; mount_table = [] })
          (suc n)
          base
          (47 ∷ path))
        (inode_at p (root_inode p) (path_names [] path))
unfolding vfs_get_node_by_path start mounts pafs_get_vfs_root inode_of flags_of
path-inode_at p n base path is_dir =
    let directory : inode_type p (root_inode p) == type_dir ≡ true = ground arith in
    subst
      (λ flags.
        Leads p
          (walk (pafs_driver p) (mounts p (pafs_get_vfs_root p))
            (vfs_get_node_by_path (pafs_driver p) (mounts p (pafs_get_vfs_root p)) n)
            (plain flags (root_node (root_inode p))) (path_names [] path))
          (inode_at p (root_inode p) (path_names [] path)))
      {x = flags_of p (pafs_get_vfs_root p) (root_inode p)} {y = 2} (rw (directory) refl)
      (walk-Leads p (pafs_get_vfs_root p)
        (vfs_get_node_by_path (pafs_driver p) (mounts p (pafs_get_vfs_root p)) n)
        (path_names [] path) (root_node (root_inode p)))

-- A link whose text does not start with a stroke leads nowhere, whatever is in the directories.
pub follow-relative :
    {I : Type 0} (d : Driver I) (m : Mounts I) (n k c : ℕ) (cs : List ℕ) (node : Node I)
    → has_flag (node_flags node) vfs_symlink ≡ true
    → c_text (vfs_read d node 0 128) ≡ c ∷ cs
    → c ≢ 47
    → follow d m (vfs_get_node_by_path d m (suc n)) (suc k) node ≡ no_node
unfolding follow vfs_get_node_by_path start
follow-relative d m n k c cs node link text relative =
    let other : c == 47 ≡ false = ground arith in rw (link, text, other) refl
