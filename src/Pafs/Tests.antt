-- ===== src/Pafs/Tests.antt =====
-- Runs of kernel/fs/pafs.c on a small file system.
use peker_os.Common.{ℕ, ◌+◌, ◌-◌, ◌*◌, ◌/◌, ◌%◌, ◌<◌, ◌≡◌, refl, arith, [], ◌∷◌}
use peker_os.Pafs.{Pafs, zeros, inode_size, inode_block, pafs_find_entry, pafs_remove_entry}
use peker_os.Pafs.Files.{pafs_write, pafs_vfs_read, pafs_delete}
use peker_os.Pafs.RoundTrip.{Written, pafs_write-Written}
use peker_os.Pafs.VfsRead.{pafs_vfs_read-pafs_read}
use peker_os.Pafs.Delete.{Deletes, pafs_delete-Deletes}
use peker_os.Common.Words.{get32}
use peker_os.Pafs.Blocks.{IsFs}
use peker_os.Pafs.Format.{pafs_format, pafs_format-IsFs}
use peker_os.Pafs.Swap.{pafs_remove_entry-keeps}
use peker_os.Pafs.Sample.{
  small_fs, small_fs-IsFs, a_found, a_place, a_apart, a_type, a_size, a_read, root_type, root_size,
  a_holes,
}

-- Memory of zeros.
abbrev blank : Pafs
blank = record { sb = zeros; inodes = zeros; block_bitmap = zeros; disk = λ l. zeros }

no_blocks : (g j : ℕ) → inode_block blank g j ≡ 0
unfolding get32
no_blocks g j = refl

pafs_format-IsFs_example : IsFs (pafs_format blank)
pafs_format-IsFs_example = pafs_format-IsFs blank (λ i. omega arith) (λ g j hj at. no_blocks g j)

pafs_write-Written_example :
    Written small_fs (97 ∷ []) (1 ∷ 2 ∷ []) 1 (pafs_write small_fs (97 ∷ []) (1 ∷ 2 ∷ []))
pafs_write-Written_example =
    pafs_write-Written small_fs (97 ∷ []) (1 ∷ 2 ∷ []) 1 small_fs-IsFs a_found (omega arith) a_type
      (omega arith)

pafs_delete-Deletes_example : Deletes small_fs 0 (97 ∷ []) (pafs_delete small_fs 0 (97 ∷ []))
pafs_delete-Deletes_example = pafs_delete-Deletes small_fs 0 (97 ∷ []) small_fs-IsFs a_apart

pafs_vfs_read-pafs_read_example : pafs_vfs_read small_fs 1 1 5 ≡ (8 ∷ 9 ∷ [])
pafs_vfs_read-pafs_read_example =
    pafs_vfs_read-pafs_read small_fs 1 1 5 a_type a_holes (omega arith) (97 ∷ []) (7 ∷ 8 ∷ 9 ∷ [])
      10 a_found (omega (arith, a_size)) a_read

pafs_remove_entry-keeps_example :
    (pafs_find_entry (pafs_remove_entry small_fs 0 (97 ∷ [])).1 0 (97 ∷ [])
      ≡ pafs_find_entry small_fs 0 (97 ∷ []))
    × ((x : ℕ)
        → x < 32
        → (pafs_remove_entry small_fs 0 (97 ∷ [])).1.disk
            (inode_block small_fs 0 0)
            (32 * ((inode_size small_fs 0 / 32 - 1) % 16) + x)
          ≡ 0)
pafs_remove_entry-keeps_example =
    pafs_remove_entry-keeps small_fs 0 0 0 (omega (arith, root_size)) (omega (arith, root_size))
      (omega arith) (97 ∷ []) (omega arith) small_fs-IsFs root_type (omega (arith, root_size))
      a_place
