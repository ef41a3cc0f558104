-- ===== src/Fat/Tests.antt =====
-- A small FAT16 table and runs of the FAT code on it. The table has entries 2 to 5: the chain
-- 2, 3, 4, and 5 free.
use userfs.Prelude.{
  ℕ, zero, suc, ◌+◌, ◌*◌, ◌%◌, ◌/◌, ◌^◌, ◌≤◌, ◌<◌, ◌≡◌, ◌≢◌, ◌↔◌, ◌⊎◌, inl, inr, refl, arith, true,
  some, ok, err, enospc, List, [], ◌∷◌, ◌==◌, if◌then◌else◌, Bool-cases,
}
use userfs.Fat.Table.{FatTable}
use userfs.Fat.Words.{Blocks, Volume, ent_get, load, block_get, block_read, fat_ent_read, ent_put}
use userfs.Fat.Words.Place.{IsVolume}
use userfs.Fat.Words.Fill.{IsBlock, IsReady, word_table, ent_put_lem}
use userfs.Fat.Widths.{fat16_ops}
use userfs.Fat.Alloc.{Fs, fat_alloc_clusters, fat_free_clusters, take_cluster}
use userfs.Fat.Alloc.Scan.{IsFree, IsEntry}
use userfs.Fat.Alloc.Correct.{alloc_finds, take_cluster_lem}
use userfs.Fat.Alloc.Free.{free_total}
use userfs.Fat.Alloc.FreeChain.{Freed, free-Chain}
use userfs.Fat.Chain.{Chain}
use userfs.Fat.Count.{zeros}
use userfs.Fat.ClusterCache.{Cache}
use userfs.Fat.GetCluster.{fat_get_cluster}
use userfs.Fat.GetCluster.Reference.{at, after, next, plain_get_cluster}
use userfs.Fat.GetCluster.Equivalence.{Same, get_cluster-plain}
use userfs.Fat.Entry.{Pair12, fat12_ent_get, fat12_ent_put, fat16_ent_get}
use userfs.Fat.Entry.Laws.{IsPair}
use userfs.Fat.Entry.Twelve.{
  format_value, fat12_ent_get-format, fat12_neighbour, even_pair, odd_pair,
}

abbrev pair : Pair12
pair = record { low = 0xab; high = 0xcd }

pair-IsPair : IsPair pair
pair-IsPair = omega arith

fat12_ent_get-format_example :
    (fat12_ent_get 3 pair ≡ format_value 3 pair) ↔ ((3 % 2 ≡ 0) ⊎ (0xab % 16 ≡ 0xab / 16))
fat12_ent_get-format_example = fat12_ent_get-format 3 pair pair-IsPair

fat12_neighbour_example :
    (fat12_ent_get 2 (even_pair 3 (fat12_ent_put 3 (odd_pair 3 0 0) 0xfff).low 0)
      ≡ fat12_ent_get 2 (even_pair 3 0 0))
    ↔ (0xfff % 16 ≡ 0 % 16)
fat12_neighbour_example =
    fat12_neighbour 2 3 0 0 0xfff refl (omega arith) (omega arith) (omega arith)

abbrev volume : Volume
volume = record { fat_start = 1; blocksize = 4; blocksize_bits = 2; max_cluster = 6 }

pub volume-IsVolume : IsVolume volume fat16_ops
volume-IsVolume = record {
  per_block_bits = 1;
  bits_split = refl;
  block_power = refl;
  some_cluster = omega arith;
  int_cluster = omega arith;
  fits_width = omega arith;
}

abbrev pub table : FatTable
table = word_table volume fat16_ops volume-IsVolume

abbrev pub image : Blocks
image b = if b == 2 then some (3 ∷ 0 ∷ 4 ∷ 0 ∷ []) else some (0xff ∷ 0xff ∷ 0 ∷ 0 ∷ [])

image-IsBlock : (b : ℕ) → IsBlock volume fat16_ops (image b)
image-IsBlock b = elim (Bool-cases (b == 2)) [
  | inl e ↦ rw e (refl, (omega arith, (omega arith, (omega arith, (omega arith, tt)))))
  | inr e ↦ rw e (refl, (omega arith, (omega arith, (omega arith, (omega arith, tt)))))
]

pub image-IsReady : IsReady volume fat16_ops image
image-IsReady e h = image-IsBlock (1 + e * 2 ^ 1 / 2 ^ 2)

abbrev fs : Fs table
fs = record { image = image; prev_free = 2; free_clusters = 1 }

alloc_finds_example :
    ((c : ℕ) × IsFree table image c
      × (fat_alloc_clusters table fs 1 ≡ some (ok c, take_cluster table fs c)))
    ⊎ (((j : ℕ) → ¬ IsFree table image j) × (fat_alloc_clusters table fs 1 ≡ some (err enospc, fs)))
alloc_finds_example = alloc_finds table fs image-IsReady (omega arith) (omega arith)

five-IsFree : IsFree table image 5
unfolding ent_get block_get load fat16_ent_get
five-IsFree = (omega arith, omega arith, refl)

take_cluster_example :
    let after = take_cluster table fs 5 in
    IsReady volume fat16_ops after.image
    × (table.max_fat ≤ table.get after.image 5)
    × ((j : ℕ) → IsEntry table j → 5 ≢ j → table.get after.image j ≡ table.get image j)
    × (zeros (table.get image) 4 ≡ zeros (table.get after.image) 4 + 1)
take_cluster_example = take_cluster_lem table fs 5 image-IsReady five-IsFree

free_total_example :
    (fs' : Fs table) × (fat_free_clusters table fs 2 ≡ some (ok tt, fs'))
    × IsReady volume fat16_ops fs'.image
free_total_example = free_total table fs 2 image-IsReady

abbrev pub chain : List ℕ
chain = 2 ∷ 3 ∷ 4 ∷ []

pub image-Chain : Chain table image 2 chain
unfolding ent_get block_get load fat16_ent_get
image-Chain = (
  refl,
  (omega arith, omega arith),
  (apart 2 3 (omega arith), (apart 2 4 (omega arith), tt)),
  (
    refl,
    (omega arith, omega arith),
    (apart 3 4 (omega arith), tt),
    (refl, (omega arith, omega arith), tt, inr (omega arith)),
  ),
)
  where
    apart : (i j : ℕ) → i < j → i ≢ j
    apart i j h p = omega arith

free-Chain_example :
    (fs' : Fs table) × (fat_free_clusters table fs 2 ≡ some (ok tt, fs')) × Freed table fs chain fs'
free-Chain_example = free-Chain table fs 2 chain (omega arith) image-IsReady image-Chain

abbrev cache : Cache
cache = record {
  runs = record { nr_contig = 1; fcluster = 1; dcluster = 3 } ∷ [];
  nr_caches = 1;
  cache_valid_id = 1;
}

run-at : (j : ℕ) → j ≤ 1 → at table image 8 2 (1 + j) ≡ some (3 + j)
unfolding at after next fat_ent_read block_read ent_get block_get load fat16_ent_get
run-at zero h = refl
run-at (suc zero) h = refl
run-at (suc (suc j)) h = absurd (omega arith)

get_cluster-plain_example :
    Same table image true 8 2 3
      (fat_get_cluster table image true 8 2 3 cache)
      (plain_get_cluster table image 8 2 3)
get_cluster-plain_example =
    get_cluster-plain table image true 8 2 3 cache ((omega arith, omega arith, run-at), tt)

ent_put_example :
    (fat_ent_read volume fat16_ops (ent_put volume fat16_ops image 5 0xffff) 5
      ≡ ok (0xffff % 2 ^ 16))
    × ((j : ℕ)
        → 2 ≤ j
        → j < 6
        → 5 ≢ j
        → fat_ent_read volume fat16_ops (ent_put volume fat16_ops image 5 0xffff) j
          ≡ fat_ent_read volume fat16_ops image j)
ent_put_example =
    ent_put_lem volume fat16_ops volume-IsVolume image 5 0xffff image-IsReady (omega arith)
      (omega arith)
