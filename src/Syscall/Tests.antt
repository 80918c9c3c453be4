-- ===== src/Syscall/Tests.antt =====
-- Runs of kernel/proc/syscall.c on a small file system.
use peker_os.Common.{ℕ, ◌≡◌, refl, arith, Option, none, some, List, [], ◌∷◌, take, drop}
use peker_os.Pafs.Sample.{small_fs, a_found, a_type, a_size, a_holes, a_read}
use peker_os.Vfs.{Node, plain}
use peker_os.Vfs.Path.{PafsNode, entry_node}
use peker_os.Syscall.{Files, sys_open, node_at, offset_at}
use peker_os.Syscall.Open.{Opens, sys_open-Opens}
use peker_os.Syscall.Read.{total, read_pieces}
use peker_os.Syscall.OnPafs.{pafs_files, sys_read-pafs_read}

abbrev places : List (Option (Node PafsNode))
places =
    none
    ∷ some (plain 1 (entry_node 1))
    ∷ none
    ∷ none
    ∷ none
    ∷ none
    ∷ none
    ∷ none
    ∷ none
    ∷ none
    ∷ none
    ∷ none
    ∷ none
    ∷ none
    ∷ none
    ∷ none
    ∷ []

abbrev offsets : List ℕ
offsets = 0 ∷ 1 ∷ 0 ∷ 0 ∷ 0 ∷ 0 ∷ 0 ∷ 0 ∷ 0 ∷ 0 ∷ 0 ∷ 0 ∷ 0 ∷ 0 ∷ 0 ∷ 0 ∷ []

abbrev open_files : Files (Node PafsNode)
open_files = record { fd_table = places; fd_offset = offsets }

file_there : node_at open_files 1 ≡ some (plain 1 (entry_node 1))
unfolding node_at
file_there = refl

offset_there : offset_at open_files 1 ≡ 1
unfolding offset_at
offset_there = refl

sys_read-pafs_read_example :
    read_pieces pafs_files small_fs open_files 1 (1 ∷ 4 ∷ [])
    ≡ take (total (1 ∷ 4 ∷ [])) (drop (offset_at open_files 1) (7 ∷ 8 ∷ 9 ∷ []))
unfolding offset_at total
sys_read-pafs_read_example =
    sys_read-pafs_read small_fs (97 ∷ []) (7 ∷ 8 ∷ 9 ∷ []) 1 10 a_type a_holes a_found
      (omega (arith, a_size)) a_read open_files 1 (1 ∷ 4 ∷ []) file_there (omega arith)
      (omega arith)

sys_open-Opens_example :
    Opens pafs_files small_fs open_files
      (47 ∷ 97 ∷ [])
      1
      (sys_open pafs_files small_fs open_files (47 ∷ 97 ∷ []) 1)
sys_open-Opens_example = sys_open-Opens pafs_files small_fs open_files (47 ∷ 97 ∷ []) 1 refl refl
