-- ===== src/Fat/GetCluster.antt =====
-- `fat_get_cluster` of src/fs/fat/src/cache.c: the walk along a file's chain, with the run cache.
pub mod Reference
pub mod Sound
pub mod Equivalence
use userfs.Prelude.{
  ℕ, zero, suc, ◌+◌, ◌-◌, Bool, Option, none, some, Outcome, ok, err, eio, ltb, leb, ◌==◌,
  if◌then◌else◌,
}
use userfs.Fat.Table.{FatTable, fat_ent_free}
use userfs.Fat.Alloc.{fat_valid_entry}
use userfs.Fat.ClusterCache.{
  Run, CacheId, Cache, fat_cache_valid, fat_cache_lookup, fat_cache_add, cache_step,
}

-- The result `nr` with what `*fclus` and `*dclus` hold at the return.
pub record Found : Type 0 where
  pub nr : Outcome ℕ
  pub fclus : ℕ
  pub dclus : ℕ

-- `cache_init(&cid, -1, -1)`
abbrev pub no_run : CacheId
no_run = record { id = fat_cache_valid; nr_contig = 0; start = none }

-- The table `t` does not change during a walk. `memory` says whether `fat_cache_alloc` succeeds.
module _ (T : FatTable) (t : T.Image) (memory : Bool) (limit : ℕ) where
  open T use {max_fat, read}

  -- What a round does with the value of `fat_ent_read` at `dclus`; `go` are the later rounds.
  pub walk_visit :
      Cache
      → CacheId
      → ℕ
      → ℕ
      → Outcome ℕ
      → (CacheId → ℕ → ℕ → Option (Found × Cache))
      → Option (Found × Cache)
  walk_visit c cid fclus dclus (err e) go =
      some (record { nr = err e; fclus = fclus; dclus = dclus }, c)
  walk_visit c cid fclus dclus (ok nr) go =
      if nr == fat_ent_free
      then some (record { nr = err eio; fclus = fclus; dclus = dclus }, c)
      else if leb max_fat nr
      then some (record { nr = ok nr; fclus = fclus; dclus = dclus }, fat_cache_add memory c cid)
      else go (cache_step cid (fclus + 1) nr) (fclus + 1) nr

  -- `while (*fclus < cluster)` and the return after it; `none` when the fuel runs out.
  pub walk : ℕ → ℕ → Cache → CacheId → ℕ → ℕ → Option (Found × Cache)
  walk zero cluster c cid fclus dclus = none
  walk (suc fuel) cluster c cid fclus dclus =
      if ltb fclus cluster
      then (if ltb limit fclus
          then some (record { nr = err eio; fclus = fclus; dclus = dclus }, c)
          else walk_visit c cid fclus dclus (read t dclus) (walk fuel cluster c))
      else some (record { nr = ok 0; fclus = fclus; dclus = dclus }, fat_cache_add memory c cid)

  -- The walk from where the lookup leads.
  pub walk_from : ℕ → ℕ → Option (CacheId × ℕ × ℕ) × Cache → Option (Found × Cache)
  walk_from cluster i_start (none, c) = walk (limit + 2) cluster c no_run 0 i_start
  walk_from cluster i_start (some (cid, f, d), c) = walk (limit + 2 - f) cluster c cid f d

  -- `fat_get_cluster` for a file that starts at `i_start`; `limit` is `s_maxbytes >> cluster_bits`.
  pub fat_get_cluster : ℕ → ℕ → Cache → Option (Found × Cache)
  fat_get_cluster i_start cluster c =
      if i_start == 0
      then some (record { nr = err eio; fclus = 0; dclus = 0 }, c)
      else if fat_valid_entry T i_start
      then (if cluster == 0
          then some (record { nr = ok 0; fclus = 0; dclus = i_start }, c)
          else walk_from cluster i_start (fat_cache_lookup c cluster))
      else some (record { nr = err eio; fclus = 0; dclus = i_start }, c)
