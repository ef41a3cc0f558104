-- ===== src/Fat/Grow.antt =====
-- A file's chain grows: `fat_chain_add` of src/fs/fat/src/misc.c and `fat_add_cluster` of
-- src/fs/fat/src/vfs_file.c.
pub mod Linked
pub mod Walk
pub mod Correct
pub mod Empty
pub mod Tests
use userfs.Prelude.{
  ℕ, ◌+◌, ◌-◌, ◌*◌, ◌%◌, ◌^◌, Bool, Option, none, some, Outcome, ok, err, Errno, ◌==◌,
  if◌then◌else◌,
}
use userfs.Fat.Table.{FatTable, fat_ent_eof}
use userfs.Fat.Alloc.{Fs, fat_alloc_clusters, fat_free_clusters}
use userfs.Fat.ClusterCache.{Cache}
use userfs.Fat.Words.{Blocks}
use userfs.Fat.GetCluster.{Found, fat_get_cluster}

-- The fields of an inode that a chain's growth changes.
pub record Node : Type 0 where
  pub i_start : ℕ
  pub i_logstart : ℕ
  pub i_blocks : ℕ
  pub mmu_private : ℕ
  pub runs : Cache

-- `memory` says whether `fat_cache_alloc` succeeds, `limit` is `s_maxbytes >> cluster_bits`. `wrote` is
-- the result of `fat_ent_write`, which comes from the device. `synced` is what `fat_sync_inode`, whose
-- result is not looked at, makes of the blocks: it writes a time and a size to the directory entry of the
-- inode, and nothing to the table.
module _ (T : FatTable) (memory : Bool) (limit cluster_bits : ℕ) (wrote : Outcome (Unit {0}))
    (synced : Blocks → Blocks) where
  open T use {Image, read, put}

  -- What a call leaves: the inode, the volume and the blocks of directories and files.
  abbrev pub Chained : Type 0 → Type 0
  Chained R = Option (Outcome R × Node × Fs T × Blocks)

  -- The end of `fat_chain_add`.
  unfoldable pub count_blocks : Node → ℕ → Node
  count_blocks node nr_cluster = record node {
    i_blocks = (node.i_blocks + nr_cluster * 2 ^ (cluster_bits - 9)) % 2 ^ 32;
  }

  pub chain_written : Node → Fs T → Blocks → Outcome (Unit {0}) → ℕ → Chained (Unit {0})
  chain_written node fs blocks (err e) nr_cluster = some (err e, node, fs, blocks)
  chain_written node fs blocks (ok u) nr_cluster =
      some (ok tt, count_blocks node nr_cluster, fs, blocks)

  -- The entry of the last cluster is read, and gets the number of the new one.
  pub link_last : Node → Fs T → Blocks → ℕ → Outcome ℕ → ℕ → ℕ → Chained (Unit {0})
  link_last node fs blocks last (err e) new_dclus nr_cluster = some (err e, node, fs, blocks)
  link_last node fs blocks last (ok v) new_dclus nr_cluster =
      chain_written node (record fs { image = put fs.image last new_dclus }) blocks wrote nr_cluster

  -- The branch for a file without clusters.
  unfoldable pub first_cluster : Node → Fs T → Blocks → ℕ → ℕ → Chained (Unit {0})
  first_cluster node fs blocks new_dclus nr_cluster = some (
    ok tt,
    count_blocks (record node { i_start = new_dclus; i_logstart = new_dclus }) nr_cluster,
    fs,
    synced blocks,
  )

  pub chain_found : Node → Fs T → Blocks → ℕ → ℕ → Option (Found × Cache) → Chained (Unit {0})
  chain_found node fs blocks new_dclus nr_cluster none = none
  chain_found node fs blocks new_dclus nr_cluster (some (f, c)) = elim f.nr [
    | err e ↦ some (err e, record node { runs = c }, fs, blocks)
    | ok nr ↦
        if f.dclus == 0
        then first_cluster (record node { runs = c }) fs blocks new_dclus nr_cluster
        else link_last (record node { runs = c }) fs blocks f.dclus (read fs.image f.dclus)
            new_dclus nr_cluster
  ]

  -- `fat_chain_add`
  pub fat_chain_add : Node → Fs T → Blocks → ℕ → ℕ → Chained (Unit {0})
  fat_chain_add node fs blocks new_dclus nr_cluster =
      if node.i_start == 0
      then first_cluster node fs blocks new_dclus nr_cluster
      else chain_found node fs blocks new_dclus nr_cluster
          (fat_get_cluster T fs.image memory limit node.i_start fat_ent_eof node.runs)

  -- `fat_add_cluster`; `cluster_size` is that of the volume.
  pub undone : Node → Blocks → Errno → Option (Outcome (Unit {0}) × Fs T) → Chained ℕ
  undone node blocks e none = none
  undone node blocks e (some (r, fs)) = some (err e, node, fs, blocks)

  pub cluster_added : ℕ → ℕ → Chained (Unit {0}) → Chained ℕ
  cluster_added size cluster none = none
  cluster_added size cluster (some (ok u, node, fs, blocks)) =
      some (ok cluster, record node { mmu_private = node.mmu_private + size }, fs, blocks)
  cluster_added size cluster (some (err e, node, fs, blocks)) =
      undone node blocks e (fat_free_clusters T fs cluster)

  pub cluster_taken : Node → Blocks → ℕ → Option (Outcome ℕ × Fs T) → Chained ℕ
  cluster_taken node blocks size none = none
  cluster_taken node blocks size (some (err e, fs)) = some (err e, node, fs, blocks)
  cluster_taken node blocks size (some (ok cluster, fs)) =
      cluster_added size cluster (fat_chain_add node fs blocks cluster 1)

  pub fat_add_cluster : Node → Fs T → Blocks → ℕ → Chained ℕ
  fat_add_cluster node fs blocks size = cluster_taken node blocks size (fat_alloc_clusters T fs 1)
