-- ===== src/Fat/Grow/Empty.antt =====
-- `fat_chain_add` of src/fs/fat/src/misc.c for a file without clusters, and `fat_add_cluster` of
-- src/fs/fat/src/vfs_file.c where no cluster can be had.
use userfs.Prelude.{ℕ, ◌≡◌, refl, Bool, Outcome, err, Errno, some, ap}
use userfs.Fat.Table.{FatTable}
use userfs.Fat.Alloc.{Fs, fat_alloc_clusters}
use userfs.Fat.Words.{Blocks}
use userfs.Fat.Grow.{Node, first_cluster, fat_chain_add, cluster_taken, fat_add_cluster}

module _ (T : FatTable) (memory : Bool) (limit cluster_bits : ℕ) (wrote : Outcome (Unit {0}))
    (synced : Blocks → Blocks) where
  pub fat_chain_add-empty :
      (node : Node) (fs : Fs T) (blocks : Blocks) (c nr_cluster : ℕ)
      → node.i_start ≡ 0
      → fat_chain_add T memory limit cluster_bits wrote synced node fs blocks c nr_cluster
        ≡ first_cluster T memory limit cluster_bits wrote synced node fs blocks c nr_cluster
  unfolding fat_chain_add
  fat_chain_add-empty node fs blocks c nr_cluster empty = rw empty refl

  -- Where no cluster can be had, nothing is added.
  pub fat_add_cluster-no_cluster :
      (node : Node) (fs fs' : Fs T) (blocks : Blocks) (size : ℕ) (e : Errno)
      → fat_alloc_clusters T fs 1 ≡ some (err e, fs')
      → fat_add_cluster T memory limit cluster_bits wrote synced node fs blocks size
        ≡ some (err e, node, fs', blocks)
  unfolding fat_add_cluster cluster_taken
  fat_add_cluster-no_cluster node fs fs' blocks size e none_free =
      ap (cluster_taken T memory limit cluster_bits wrote synced node blocks size) none_free
