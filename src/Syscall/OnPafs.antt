-- ===== src/Syscall/OnPafs.antt =====
-- The calls of kernel/proc/syscall.c with kernel/fs/vfs.c and kernel/fs/pafs.c below them.
use peker_os.Common.{
  ℕ, ◌+◌, ◌*◌, ◌^◌, ◌≤◌, ◌<◌, ◌≡◌, refl, ap, ◌≢◌, false, ◌==◌, Option, none, some, List, [], length,
  take, drop,
}
use peker_os.Pafs.{
  Pafs, type_file, inode_type, inode_size, inode_block, root_inode, pafs_find_entry,
}
use peker_os.Pafs.Files.{pafs_read, pafs_write, pafs_vfs_write}
use peker_os.Pafs.VfsRead.{pafs_vfs_read-pafs_read}
use peker_os.Vfs.{
  Node, plain, node_flags, node_info, arrived, no_node, endless, vfs_read, vfs_get_node_by_path,
}
use peker_os.Vfs.Path.{
  PafsNode, root_node, entry_node, pafs_driver, pafs_read_of, pafs_get_vfs_root,
}
use peker_os.Syscall.{Vfs, Files, node_at, offset_at}
use peker_os.Syscall.Read.{total, read_pieces, sys_read-pieces}

-- The node that a path leads to. There are no links in this file system.
pafs_get_node : Pafs → List ℕ → Option (Node PafsNode)
pafs_get_node p path =
    elim (vfs_get_node_by_path (pafs_driver p)
      (record { vfs_root = pafs_get_vfs_root p; mount_table = [] }) 1 (some (pafs_get_vfs_root p))
      path) [ arrived node ↦ some node | no_node ↦ none | endless ↦ none ]

-- `vfs_write` of a node: the root's has no `write`.
pafs_write_of : Pafs → PafsNode → ℕ → List ℕ → ℕ × Pafs
pafs_write_of p (root_node ino) offset bytes = (0, p)
pafs_write_of p (entry_node ino) offset bytes = pafs_vfs_write p ino offset bytes

pub pafs_files : Vfs Pafs (Node PafsNode)
pafs_files = record {
  is_socket = λ node. node_flags node == 8;
  get_node = pafs_get_node;
  create = λ p path. (pafs_write p path []).1;
  read = λ p node offset size. (vfs_read (pafs_driver p) node offset size, p);
  write = λ p node offset bytes. pafs_write_of p (node_info node) offset bytes;
  close = λ p node. p;
}

module _ (p : Pafs) (name bytes : List ℕ) (ino max_len : ℕ) (is_file : inode_type p ino ≡ type_file)
    (holes : (j : ℕ) → 512 * j < inode_size p ino → inode_block p ino j ≢ 0)
    (found : pafs_find_entry p (root_inode p) name ≡ some ino) (room : inode_size p ino ≤ max_len)
    (all : pafs_read p name max_len ≡ some bytes) where
  file_node : Node PafsNode
  file_node = plain 1 (entry_node ino)

  reads_file :
      (off size : ℕ)
      → off + size < 2 ^ 32
      → (pafs_files).read p file_node off size ≡ (take size (drop off bytes), p)
  unfolding pafs_files file_node vfs_read pafs_driver node_info pafs_read_of
  reads_file off size small =
      ap (λ xs. (xs, p))
        (pafs_vfs_read-pafs_read p ino off size is_file holes small name bytes max_len found room
          all)

  not_socket : (pafs_files).is_socket file_node ≡ false
  unfolding pafs_files file_node node_flags
  not_socket = refl

  -- `sys_read` again and again at a number whose node is that of a file in the root without holes: together
  -- the pieces are what `pafs_read` gives of the file from the offset on, as long as the offsets are words.
  pub sys_read-pafs_read :
      (t : Files (Node PafsNode)) (fd : ℕ) (sizes : List ℕ)
      → node_at t fd ≡ some (plain 1 (entry_node ino))
      → fd < length t.fd_offset
      → offset_at t fd + total sizes < 2 ^ 32
      → read_pieces pafs_files p t fd sizes ≡ take (total sizes) (drop (offset_at t fd) bytes)
  unfolding file_node
  sys_read-pafs_read t fd sizes here there small =
      sys_read-pieces pafs_files p file_node bytes not_socket reads_file t fd sizes here there small
