-- ===== src/Fat/Bmap.antt =====
-- `fat_bmap` of src/fs/fat/src/cache.c: the block of the device that holds a sector of a file. Sector
-- numbers are taken below 2^31 clusters, so that the cast to `int` keeps them.
pub mod Sectors
use userfs.Prelude.{
  ℕ, ◌+◌, ◌-◌, ◌*◌, ◌/◌, ◌^◌, ◌≡◌, Bool, false, Option, none, some, Outcome, ok, err, eio, All, ltb,
  leb, ◌==◌, not, ◌&&◌, if◌then◌else◌, bit_and, ap,
}
use userfs.Fat.Table.{FatTable}
use userfs.Fat.ClusterCache.{Cache}
use userfs.Fat.GetCluster.{Found, fat_get_cluster}
use userfs.Fat.GetCluster.Reference.{plain_get_cluster}
use userfs.Fat.GetCluster.Sound.{IsRun}
use userfs.Fat.GetCluster.Equivalence.{get_cluster-plain}
use userfs.Fat.Mount.{SbInfo}

-- `*phys` and `*mapped_blocks`.
pub record Mapping : Type 0 where
  pub phys : ℕ
  pub mapped_blocks : ℕ

abbrev pub unmapped : Mapping
unmapped = record { phys = 0; mapped_blocks = 0 }

-- The fixed root directory of FAT12 and FAT16.
unfoldable pub root_mapping : SbInfo → ℕ → Mapping
root_mapping sb sector =
    if ltb sector (sb.dir_entries / 2 ^ sb.dir_per_block_bits)
    then record { phys = sector + sb.dir_start; mapped_blocks = 1 }
    else unmapped

-- `fat_clus_to_blknr`
abbrev pub fat_clus_to_blknr : SbInfo → ℕ → ℕ
fat_clus_to_blknr sb cluster = (cluster - 2) * sb.sec_per_clus + sb.data_start

-- The end of `fat_bmap`, for the cluster that `fat_bmap_cluster` found.
unfoldable pub cluster_mapping : SbInfo → ℕ → ℕ → Mapping
cluster_mapping sb offset cluster = if cluster == 0 then unmapped else record {
  phys = fat_clus_to_blknr sb cluster + offset;
  mapped_blocks = sb.sec_per_clus - offset;
}

-- `fat_bmap_cluster` after `fat_get_cluster`: past the end of the chain there is no cluster.
unfoldable pub bmap_cluster : ℕ → Outcome ℕ → ℕ → Outcome ℕ
bmap_cluster max_fat (err e) dclus = err e
bmap_cluster max_fat (ok ret) dclus = if leb max_fat ret then ok 0 else ok dclus

unfoldable pub mapped : SbInfo → ℕ → Outcome ℕ → Outcome Mapping
mapped sb offset (err e) = err e
mapped sb offset (ok cluster) = ok (cluster_mapping sb offset cluster)

module _ (T : FatTable) (t : T.Image) (memory : Bool) (limit : ℕ) (sb : SbInfo) where
  -- The mapping of a sector from where the walk to its cluster ended.
  unfoldable pub found_mapping : ℕ → Found → Outcome Mapping
  found_mapping offset f = mapped sb offset (bmap_cluster T.max_fat f.nr f.dclus)

  pub with_cache : ℕ → Option (Found × Cache) → Option (Outcome Mapping × Cache)
  with_cache offset none = none
  with_cache offset (some (f, c)) = some (found_mapping offset f, c)

  -- `fat_bmap`; `is_root` says that the inode is the root directory, `i_start` is its first cluster.
  unfoldable pub fat_bmap : Bool → ℕ → ℕ → Cache → Option (Outcome Mapping × Cache)
  fat_bmap is_root i_start sector c =
      if not (sb.fat_bits == 32) && is_root
      then some (ok (root_mapping sb sector), c)
      else if i_start == 0
      then some (ok unmapped, c)
      else with_cache (bit_and sector (sb.sec_per_clus - 1))
          (fat_get_cluster T t memory limit i_start (sector / 2 ^ (sb.cluster_bits - 9)) c)

  -- `fat_bmap` with no cluster cached.
  abbrev pub plain_mapping : ℕ → Option Found → Outcome Mapping
  plain_mapping sector none = err eio
  plain_mapping sector (some f) = found_mapping (bit_and sector (sb.sec_per_clus - 1)) f

  unfoldable pub plain_bmap : Bool → ℕ → ℕ → Outcome Mapping
  plain_bmap is_root i_start sector =
      if not (sb.fat_bits == 32) && is_root
      then ok (root_mapping sb sector)
      else if i_start == 0
      then ok unmapped
      else plain_mapping sector
          (plain_get_cluster T t limit i_start (sector / 2 ^ (sb.cluster_bits - 9)))

  -- For an inode other than the fixed root directory that has a first cluster, and a cache whose runs
  -- lie on its chain, `fat_bmap` returns; its answer is the one computed from the walk without a
  -- cache, and the runs that it leaves lie on the chain again.
  pub fat_bmap-plain :
      (is_root : Bool) (i_start sector : ℕ) (c : Cache)
      → (not (sb.fat_bits == 32) && is_root) ≡ false
      → (i_start == 0) ≡ false
      → All (IsRun T t memory limit i_start) c.runs
      → (f : Found) × (c' : Cache) × (plain_get_cluster T t limit i_start
            (sector / 2 ^ (sb.cluster_bits - 9))
          ≡ some f)
        × (fat_bmap is_root i_start sector c
            ≡ some (found_mapping (bit_and sector (sb.sec_per_clus - 1)) f, c'))
        × All (IsRun T t memory limit i_start) c'.runs
  unfolding fat_bmap with_cache
  fat_bmap-plain is_root i_start sector c other start kept =
      let (f, c', walked, plain, after) =
        get_cluster-plain T t memory limit i_start (sector / 2 ^ (sb.cluster_bits - 9)) c kept in
      (
        f,
        c',
        plain,
        rw (other, start) (ap (with_cache (bit_and sector (sb.sec_per_clus - 1))) walked),
        after,
      )
