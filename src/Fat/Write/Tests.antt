-- ===== src/Fat/Write/Tests.antt =====
-- The file with the chain 2, 3, 4 of the small table, in blocks of 64 bytes: 100 bytes are written over
-- three of its six blocks.
use native.Mathlib.Nat.{mod-add-div}
use userfs.Prelude.{
  [], ◌∷◌, ℕ, zero, suc, ◌+◌, ◌/◌, ◌≤◌, ◌<◌, ◌≡◌, refl, arith, true, false, Option, none, some, ok,
  List, length, replicate, lt_cases, inl, inr, sym, ◌∙◌,
}
use userfs.Fat.Tests.{table, image, image-IsReady}
use userfs.Fat.Grow.Tests.{node, rest, volume_state, image-Linked}
use userfs.Fat.Mount.{SbInfo}
use userfs.Fat.Dir.Tests.{small_sb}
use userfs.Fat.Dir.{phys_of}
use userfs.Fat.Dir.Blocks.{chain_end}
use userfs.Fat.Bmap.{plain_bmap, found_mapping, mapped, bmap_cluster, cluster_mapping}
use userfs.Fat.GetCluster.Reference.{plain_get_cluster, plain_walk, plain_visit, next, plain_end}
use userfs.Fat.Words.{fat_ent_read, block_read, block_get, load, ent_get}
use userfs.Fat.Entry.{fat16_ent_get}
use userfs.Fat.Read.{fat_file_read}
use userfs.Fat.Read.Tests.{block_of, full}
use userfs.Fat.Write.{FileState, fat_file_write}
use userfs.Fat.Write.Held.{Layout, map, IsHeld}
use userfs.Fat.Table.{FatTable}
use userfs.Fat.Words.{Volume, Blocks}
use userfs.Fat.Words.Place.{IsVolume}
use userfs.Fat.Words.Fill.{IsReady, word_table}
use userfs.Fat.Widths.{fat32_ops}
use userfs.Fat.Entry.{fat32_ent_get}
use userfs.Fat.Alloc.Scan.{IsFree}
use userfs.Fat.Grow.Linked.{Linked}
use userfs.Fat.Write.Stuck.{fat_file_write-stuck}
use userfs.Fat.Write.Mapped.{IsDone, readable, fat_file_write_lem}

abbrev layout : Layout table
layout = record {
  sb = small_sb;
  memory = true;
  limit = 10;
  wrote = ok tt;
  synced = λ t. t;
  is_root = false;
  t = image;
  i_start = 2;
  other = refl;
  start = refl;
  size = refl;
}

abbrev file : FileState table
file = record { node = node; fs = volume_state; i_size = 100; blocks = block_of }

abbrev hundred : List ℕ
hundred = replicate 100 7

map_low : (i : ℕ) → i < 6 → map table layout i ≡ some (4 + i)
unfolding plain_bmap found_mapping mapped bmap_cluster cluster_mapping plain_get_cluster plain_walk
    plain_visit next plain_end fat_ent_read block_read block_get load ent_get fat16_ent_get phys_of
map_low zero h = refl
map_low (suc zero) h = refl
map_low (suc (suc zero)) h = refl
map_low (suc (suc (suc zero))) h = refl
map_low (suc (suc (suc (suc zero)))) h = refl
map_low (suc (suc (suc (suc (suc zero))))) h = refl
map_low (suc (suc (suc (suc (suc (suc i)))))) h = absurd (omega arith)

map_high : (i : ℕ) → 6 ≤ i → map table layout i ≡ none
unfolding plain_bmap
map_high i h =
    chain_end small_sb block_of refl (omega arith) table image true 10 2 rest image-IsReady
      image-Linked (omega arith) i h

apart : (i j p : ℕ) → map table layout i ≡ some p → map table layout j ≡ some p → i ≡ j
apart i j p e f = elim (lt_cases i 6) [
  | inr hi ↦ absurd (nothing (sym (map_high i hi) ∙ e))
  | inl lo ↦ elim (lt_cases j 6) [
    | inr hi ↦ absurd (nothing (sym (map_high j hi) ∙ f))
    | inl lo' ↦ place (sym (map_low i lo) ∙ e ∙ sym f ∙ map_low j lo')
  ]
]
  where
    nothing : {p : ℕ} → ◌≡◌ {A = Option ℕ} none (some p) → ⊥
    nothing q = cc

    place : ◌≡◌ {A = Option ℕ} (some (4 + i)) (some (4 + j)) → i ≡ j
    place q = let r : 4 + i ≡ 4 + j = cc in omega arith

file-IsHeld : IsHeld table layout block_of 50 (length hundred)
file-IsHeld = record {
  whole = full;
  there = λ k lo hi. (
    4 + k / 64,
    replicate 64 (4 + k / 64),
    map_low (k / 64) (omega (arith, mod-add-div k 64)),
    refl,
  );
}

fat_file_write_example :
    (st' : FileState table) × (fat_file_write table small_sb true 10
        (ok tt)
        (λ t. t)
        false
        101
        50
        hundred
        file
      ≡ some (100, st'))
    × (done : IsDone table layout file 50 hundred st') × (fat_file_read
          (readable table layout apart st'.blocks done.whole)
          st'.i_size
          100
          50
        ≡ some hundred)
fat_file_write_example =
    fat_file_write_lem table layout apart 101 50 hundred file (omega arith)
      (record { table = refl; first = refl; runs = tt }) file-IsHeld

-- A FAT32 table with the chain 2, 3 and no free entry.
abbrev volume32 : Volume
volume32 = record { fat_start = 1; blocksize = 8; blocksize_bits = 3; max_cluster = 4 }

volume32-IsVolume : IsVolume volume32 fat32_ops
volume32-IsVolume = record {
  per_block_bits = 1;
  bits_split = refl;
  block_power = refl;
  some_cluster = omega arith;
  int_cluster = omega arith;
  fits_width = omega arith;
}

abbrev table32 : FatTable
table32 = word_table volume32 fat32_ops volume32-IsVolume

abbrev full_image : Blocks
full_image b = some (3 ∷ 0 ∷ 0 ∷ 0 ∷ 0xff ∷ 0xff ∷ 0xff ∷ 0x0f ∷ [])

full_image-IsReady : IsReady volume32 fat32_ops full_image
full_image-IsReady e h = (
  refl,
  (
    omega arith,
    (
      omega arith,
      (omega arith, (omega arith, (omega arith, (omega arith, (omega arith, (omega arith, tt)))))),
    ),
  ),
)

full_image-Linked : Linked table32 full_image 2 (3 ∷ [])
unfolding ent_get block_get load fat32_ent_get
full_image-Linked = (
  (omega arith, omega arith),
  ((λ p. omega arith), tt),
  refl,
  ((omega arith, omega arith), omega arith),
)

none-IsFree : (j : ℕ) → ¬ IsFree table32 full_image j
unfolding ent_get block_get load fat32_ent_get
none-IsFree zero (lo, hi, free) = omega arith
none-IsFree (suc zero) (lo, hi, free) = omega arith
none-IsFree (suc (suc zero)) (lo, hi, free) = omega (arith, free)
none-IsFree (suc (suc (suc zero))) (lo, hi, free) = omega (arith, free)
none-IsFree (suc (suc (suc (suc j)))) (lo, hi, free) = omega arith

-- Sectors of 512 bytes, two to a cluster.
abbrev wide_sb : SbInfo
wide_sb = record small_sb {
  s_blocksize = 512;
  s_blocksize_bits = 9;
  cluster_size = 1024;
  fat_bits = 32;
  dir_per_block = 16;
  dir_per_block_bits = 4;
}

abbrev full_layout : Layout table32
full_layout = record {
  sb = wide_sb;
  memory = true;
  limit = 10;
  wrote = ok tt;
  synced = λ t. t;
  is_root = false;
  t = full_image;
  i_start = 2;
  other = refl;
  start = refl;
  size = refl;
}

fat_file_write-stuck_example :
    fat_file_write table32 wide_sb true 10
      (ok tt)
      (λ t. t)
      false
      1000
      2048
      (7 ∷ [])
      (record {
        node = node;
        fs = record { image = full_image; prev_free = 2; free_clusters = 0 };
        i_size = 2048;
        blocks = block_of;
      })
    ≡ none
unfolding ent_get block_get load fat32_ent_get
fat_file_write-stuck_example =
    fat_file_write-stuck table32 full_layout (3 ∷ []) full_image-IsReady full_image-Linked
      (omega arith) refl none-IsFree refl 2048 (omega arith) 1000 7 []
      (record {
        node = node;
        fs = record { image = full_image; prev_free = 2; free_clusters = 0 };
        i_size = 2048;
        blocks = block_of;
      })
      (record { table = refl; first = refl; runs = tt }) (omega arith) (omega arith)
