-- ===== src/Vfs.antt =====
-- kernel/fs/vfs.c and include/vfs.h: nodes, mounts and the way from a path to a node. What a file system
-- keeps in a node besides its flags is a type `I`, and the functions in a node are a `Driver`.
pub mod Path
pub mod Resolve
mod Tests
use peker_os.Common.{
  same_text, ℕ, zero, suc, ◌+◌, ◌-◌, ◌*◌, ◌/◌, ◌%◌, ◌^◌, ◌≤◌, ◌<◌, min, ◌≡◌, refl, sym, ap, ◌∙◌,
  ◌≢◌, ◌⊎◌, Bool, true, false, not, ◌&&◌, ◌||◌, arith, inl, inr, ◌==◌, ltb, leb, ltb→lt, lt→ltb,
  Bool-cases, if◌then◌else◌, Option, none, some, List, [], ◌∷◌, ◌++◌, length, take, drop, get_elem?,
  set, length-append, length-set, get_elem?-set_ne, get_elem?-set_self, get_elem?-lt, ◌↔◌,
}

-- The bits of a node's flags.
abbrev pub vfs_directory : ℕ
vfs_directory = 2

abbrev pub vfs_mountpoint : ℕ
vfs_mountpoint = 4

abbrev pub vfs_symlink : ℕ
vfs_symlink = 16

-- `flags & bit`, of a bit of the flags.
unfoldable pub has_flag : ℕ → ℕ → Bool
has_flag flags flag = flags / flag % 2 == 1

-- A node: its flags, what is in it, and, of the second kind, the node that its `ptr` points to.
pub data Node (I : Type 0) : Type 0 where
  plain : ℕ → I → Node I
  mounted : ℕ → I → Node I → Node I

unfoldable pub node_flags : {I : Type 0} → Node I → ℕ
node_flags (plain flags info) = flags
node_flags (mounted flags info root) = flags

unfoldable pub node_info : {I : Type 0} → Node I → I
node_info (plain flags info) = info
node_info (mounted flags info root) = info

-- The functions in a node; a null pointer is `none`.
pub record Driver (I : Type 0) : Type 0 where
  pub read : I → Option (ℕ → ℕ → List ℕ)
  pub finddir : I → Option (List ℕ → Option (Node I))

-- The root, and the mounts in the order of the table.
pub record Mounts (I : Type 0) : Type 0 where
  pub vfs_root : Node I
  pub mount_table : List (List ℕ × Node I)

module _ {I : Type 0} where
  unfoldable pub vfs_mount : Mounts I → List ℕ → Node I → Mounts I
  vfs_mount m path root =
      if leb 16 (length m.mount_table)
      then m
      else record m { mount_table = m.mount_table ++ ((path, root) ∷ []) }

  unfoldable pub mount_at : List (List ℕ × Node I) → List ℕ → Option (Node I)
  mount_at [] path = none
  mount_at ((p, root) ∷ more) path =
      let later = mount_at more path in if same_text p path then some root else later

  unfoldable pub mount_on : Node I → Node I → Node I
  mount_on node root =
      mounted
        (if has_flag (node_flags node) vfs_mountpoint
          then node_flags node
          else node_flags node + vfs_mountpoint)
        (node_info node) root

  -- `finddir` of a directory; the node of the name `mnt` becomes a mount point if `/mnt` is mounted.
  unfoldable pub find_child : Driver I → Mounts I → ℕ → I → List ℕ → Option (Node I)
  find_child d m flags info name =
      if has_flag flags vfs_directory
      then elim (d.finddir info) [
        | none ↦ none
        | some find ↦ elim (find name) [
          | none ↦ none
          | some node ↦
              if same_text name (109 ∷ 110 ∷ 116 ∷ [])
              then elim (mount_at m.mount_table (47 ∷ 109 ∷ 110 ∷ 116 ∷ [])) [
                | none ↦ some node
                | some root ↦ some (mount_on node root)
              ]
              else some node
        ]
      ]
      else none

  unfoldable pub vfs_finddir : Driver I → Mounts I → Node I → List ℕ → Option (Node I)
  vfs_finddir d m (plain flags info) name = find_child d m flags info name
  vfs_finddir d m (mounted flags info root) name =
      let there = vfs_finddir d m root name in
      if has_flag flags vfs_mountpoint then there else find_child d m flags info name

  unfoldable pub vfs_read : Driver I → Node I → ℕ → ℕ → List ℕ
  vfs_read d node offset size = elim (d.read (node_info node)) [
    | none ↦ []
    | some read ↦ read offset size
  ]

-- The names of a path between the strokes; `name` holds what was read of the next.
unfoldable pub path_names : List ℕ → List ℕ → List (List ℕ)
path_names name [] = name ∷ []
path_names name (c ∷ cs) =
    if c == 47 then name ∷ path_names [] cs else path_names (name ++ (c ∷ [])) cs

-- The empty name and `.` stay where they are.
unfoldable pub is_skipped : List ℕ → Bool
is_skipped name = same_text name [] || same_text name (46 ∷ [])

-- What the way along a path comes to; a chain of links without an end is `endless`.
pub data Walked (I : Type 0) : Type 0 where
  arrived : Node I → Walked I
  no_node endless : Walked I

-- The text up to a 0.
unfoldable pub c_text : List ℕ → List ℕ
c_text [] = []
c_text (c ∷ cs) = if c == 0 then [] else c ∷ c_text cs

module _ {I : Type 0} (d : Driver I) (m : Mounts I) where
  -- A path that starts with a stroke goes from the root, and another from the base if there is one.
  unfoldable pub start : Option (Node I) → List ℕ → Option (Node I × List ℕ)
  start base [] = elim base [ none ↦ none | some node ↦ some (node, []) ]
  start base (c ∷ cs) =
      if c == 47
      then some (m.vfs_root, cs)
      else elim base [ none ↦ none | some node ↦ some (node, c ∷ cs) ]

  -- The links, at most so many, that a node leads on by; `resolve` goes along the path in a link.
  unfoldable pub follow : (Option (Node I) → List ℕ → Walked I) → ℕ → Node I → Walked I
  follow resolve zero node = arrived node
  follow resolve (suc n) node =
      if has_flag (node_flags node) vfs_symlink
      then elim (resolve none (c_text (vfs_read d node 0 128))) [
        | arrived target ↦ follow resolve n target
        | no_node ↦ no_node
        | endless ↦ endless
      ]
      else arrived node

  unfoldable pub walk : (Option (Node I) → List ℕ → Walked I) → Node I → List (List ℕ) → Walked I
  walk resolve node [] = arrived node
  walk resolve node (name ∷ names) =
      let stay = walk resolve node names in
      if is_skipped name then stay else elim (vfs_finddir d m node name) [
        | none ↦ no_node
        | some next ↦ elim (follow resolve 8 next) [
          | arrived target ↦ walk resolve target names
          | no_node ↦ no_node
          | endless ↦ endless
        ]
      ]

  -- The first number is how many links inside links are followed.
  unfoldable pub vfs_get_node_by_path : ℕ → Option (Node I) → List ℕ → Walked I
  vfs_get_node_by_path zero base path = endless
  vfs_get_node_by_path (suc n) base path = elim (start base path) [
    | none ↦ no_node
    | some (node, rest) ↦ walk (vfs_get_node_by_path n) node (path_names [] rest)
  ]
