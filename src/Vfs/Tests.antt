-- ===== src/Vfs/Tests.antt =====
-- Runs of kernel/fs/vfs.c on a small file system.
use peker_os.Common.{ℕ, ◌≢◌, Option, none, [], ◌∷◌, arith}
use peker_os.Pafs.{root_inode}
use peker_os.Pafs.Sample.{small_fs, root_dir}
use peker_os.Vfs.{vfs_get_node_by_path}
use peker_os.Vfs.Path.{pafs_driver, pafs_get_vfs_root, Leads}
use peker_os.Vfs.Resolve.{Resolves, vfs_get_node_by_path-Leads}

-- The path `/./a`.
vfs_get_node_by_path-Leads_example :
    (out : Option ℕ) × Resolves small_fs (root_inode small_fs) ((46 ∷ []) ∷ (97 ∷ []) ∷ []) out
    × Leads small_fs
        (vfs_get_node_by_path
          (pafs_driver small_fs)
          (record { vfs_root = pafs_get_vfs_root small_fs; mount_table = [] })
          1
          none
          (47 ∷ 46 ∷ 47 ∷ 97 ∷ []))
        out
vfs_get_node_by_path-Leads_example =
    vfs_get_node_by_path-Leads small_fs 0 none (46 ∷ []) ((97 ∷ []) ∷ []) root_dir
      ((dot_ne, dot_live, tt), omega arith, ((a_ne, a_live, tt), omega arith, tt))
  where
    dot_ne : ◌≢◌ {A = ℕ} 46 47
    dot_ne = omega arith

    dot_live : ◌≢◌ {A = ℕ} 46 0
    dot_live = omega arith

    a_ne : ◌≢◌ {A = ℕ} 97 47
    a_ne = omega arith

    a_live : ◌≢◌ {A = ℕ} 97 0
    a_live = omega arith
