-- ===== src/Fat/ClusterCache.antt =====
-- The cache of cluster runs that each inode keeps, src/fs/fat/src/cache.c. The intrusive list
-- `cache_lru` is a list, most recently used first; `cache_lru_lock` is held over every access.
pub mod Kept
use userfs.Prelude.{
  ℕ, ◌+◌, ◌-◌, ◌%◌, ◌^◌, Bool, Option, none, some, List, [], ◌∷◌, length, ltb, leb, ◌==◌, not, ◌&&◌,
  if◌then◌else◌,
}

-- `struct fat_cache`: the clusters `fcluster .. fcluster + nr_contig` of the file lie in a row, from
-- `dcluster` on.
pub record Run : Type 0 where
  pub nr_contig : ℕ
  pub fcluster : ℕ
  pub dcluster : ℕ

-- `struct fat_cache_id`; `start` is `(fcluster, dcluster)`, and `none` where both are -1.
pub record CacheId : Type 0 where
  pub id : ℕ
  pub nr_contig : ℕ
  pub start : Option (ℕ × ℕ)

-- The fields of `msdos_inode_info` that the cache uses.
pub record Cache : Type 0 where
  pub runs : List Run
  pub nr_caches : ℕ
  pub cache_valid_id : ℕ

-- FAT_MAX_CACHE and FAT_CACHE_VALID
abbrev pub fat_max_cache : ℕ
fat_max_cache = 8

abbrev pub fat_cache_valid : ℕ
fat_cache_valid = 0

-- What the loop of `fat_cache_lookup` keeps: the run `hit` with `offset`, and the runs of the list
-- before it and after it.
pub record Hit : Type 0 where
  pub run : Run
  pub offset : ℕ
  pub before : List Run
  pub after : List Run

-- `hit->fcluster`; it is 0 for `nohit`.
abbrev pub hit_fcluster : Option Hit → ℕ
hit_fcluster none = 0
hit_fcluster (some h) = h.run.fcluster

-- `list_for_each_entry` of `fat_cache_lookup`; `seen` are the runs before, last one first.
pub lookup_from : ℕ → List Run → List Run → Option Hit → Option Hit
lookup_from fclus seen [] hit = hit
lookup_from fclus seen (p ∷ ps) hit =
    let miss = lookup_from fclus (p ∷ seen) ps hit in
    let short =
      lookup_from fclus (p ∷ seen) ps
        (some (record { run = p; offset = p.nr_contig; before = seen; after = ps })) in
    if leb p.fcluster fclus && ltb (hit_fcluster hit) p.fcluster
    then (if ltb (p.fcluster + p.nr_contig) fclus
        then short
        else some (record { run = p; offset = fclus - p.fcluster; before = seen; after = ps }))
    else miss

-- The list without the run found, `before` being in reverse.
pub rejoin : List Run → List Run → List Run
rejoin [] after = after
rejoin (p ∷ seen) after = rejoin seen (p ∷ after)

-- The end of `fat_cache_lookup`: the id, the cluster of the file and that of the disk where the walk
-- starts, or nothing for the result -1; `fat_cache_update_lru` moves the run found to the front.
pub lookup_answer : Cache → Option Hit → Option (CacheId × ℕ × ℕ) × Cache
lookup_answer c none = (none, c)
lookup_answer c (some h) = (
  some (
    record {
      id = c.cache_valid_id;
      nr_contig = h.run.nr_contig;
      start = some (h.run.fcluster, h.run.dcluster);
    },
    h.run.fcluster + h.offset,
    h.run.dcluster + h.offset,
  ),
  record c { runs = h.run ∷ rejoin h.before h.after },
)

-- `fat_cache_lookup`
pub fat_cache_lookup : Cache → ℕ → Option (CacheId × ℕ × ℕ) × Cache
fat_cache_lookup c fclus = lookup_answer c (lookup_from fclus [] c.runs none)

-- `fat_cache_merge`, with the move to the front that follows it: the first run with that `fcluster`
-- grows to the new length, and comes first.
pub merge_from : List Run → List Run → ℕ → ℕ → Option (List Run)
merge_from seen [] nr fcluster = none
merge_from seen (p ∷ ps) nr fcluster =
    let rest = merge_from (p ∷ seen) ps nr fcluster in
    if p.fcluster == fcluster
    then some ((if ltb p.nr_contig nr then record p { nr_contig = nr } else p) ∷ rejoin seen ps)
    else rest

-- The list without its last run, `cache_lru.prev`.
pub drop_last : List Run → List Run
drop_last [] = []
drop_last (p ∷ []) = []
drop_last (p ∷ q ∷ ps) = p ∷ drop_last (q ∷ ps)

-- The part of `fat_cache_add` after `fat_cache_merge` has found nothing. `memory` says whether
-- `fat_cache_alloc` gets its memory. The second merge finds what the first one did.
pub insert_run : Bool → Cache → Run → Cache
insert_run memory c new =
    if ltb c.nr_caches fat_max_cache
    then (if memory then record c { runs = new ∷ c.runs; nr_caches = c.nr_caches + 1 } else c)
    else record c { runs = new ∷ drop_last c.runs }

-- `fat_cache_add` after its first `fat_cache_merge`.
pub add_merged : Bool → Cache → Run → Option (List Run) → Cache
add_merged memory c new none = insert_run memory c new
add_merged memory c new (some runs) = record c { runs = runs }

-- `fat_cache_add` with an id whose `fcluster` is not -1.
pub add_run : Bool → Cache → ℕ → Run → Cache
add_run memory c id new =
    if not (id == fat_cache_valid) && not (id == c.cache_valid_id)
    then c
    else add_merged memory c new (merge_from [] c.runs new.nr_contig new.fcluster)

-- `fat_cache_add`
unfoldable pub fat_cache_add : Bool → Cache → CacheId → Cache
fat_cache_add memory c new = elim new.start [
  | none ↦ c
  | some (f, d) ↦
      add_run memory c new.id (record { nr_contig = new.nr_contig; fcluster = f; dcluster = d })
]

-- `fat_cache_inval_inode`
pub fat_cache_inval_inode : Cache → Cache
fat_cache_inval_inode c =
    let next = (c.cache_valid_id + 1) % 2 ^ 32 in
    record {
      runs = [];
      nr_caches = c.nr_caches - length c.runs;
      cache_valid_id = if next == fat_cache_valid then next + 1 else next;
    }

-- The test of `cache_contiguous`: at `dcluster` -1 the sum of `dcluster` and the new `nr_contig` is
-- the old `nr_contig`.
unfoldable pub contiguous : CacheId → ℕ → Bool
contiguous cid dclus = elim cid.start [
  | none ↦ cid.nr_contig == dclus
  | some (f, d) ↦ d + (cid.nr_contig + 1) == dclus
]

-- `cache_contiguous`, followed by `cache_init` where it fails: the id after one more step of the
-- walk, to cluster `fclus` of the file and `dclus` of the disk.
unfoldable pub cache_step : CacheId → ℕ → ℕ → CacheId
cache_step cid fclus dclus =
    if contiguous cid dclus
    then record cid { nr_contig = cid.nr_contig + 1 }
    else record { id = fat_cache_valid; nr_contig = 0; start = some (fclus, dclus) }
