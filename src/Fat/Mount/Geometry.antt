-- ===== src/Fat/Mount/Geometry.antt =====
-- The geometry that `fat_set_sb_info` of src/fs/fat/src/fat_fs.c computes is one on which the entries of
-- the table lie whole in blocks.
use userfs.Prelude.{
  ℕ, ◌+◌, ◌-◌, ◌*◌, ◌%◌, ◌^◌, ◌≤◌, ◌<◌, ◌≡◌, ◌⊎◌, inl, inr, refl, arith, false, some, ok, ◌==◌, ◌∙◌,
  ap, sym, ltb, ◌||◌, ne→==, Bool-cases, ◌≢◌, if◌then◌else◌, Option, none, lt_cases, lt→ltb, le→ltb,
}
use native.Mathlib.Nat.{div-eq-sub-div}
use userfs.Fat.Words.{Width}
use userfs.Fat.Words.Place.{IsVolume}
use userfs.Fat.Widths.{max_fat16, max_fat32, fat16_ops, fat32_ops, fat_ent_access_init}
use userfs.Fat.Mount.{
  default_fsinfo, Bpb, SbInfo, bits_from, sb_of, short_bits, short_data_start, total_clusters,
  fat_set_sb_info, fat_set_sb_info_short, fat_set_sb_info_long, volume_of,
}

-- The sector sizes of the FAT format.
abbrev pub IsSectorSize : ℕ → Type 0
IsSectorSize n = (n ≡ 512) ⊎ ((n ≡ 1024) ⊎ ((n ≡ 2048) ⊎ (n ≡ 4096)))

size_bits : (n : ℕ) → IsSectorSize n → (k : ℕ) × (bits_from 32 9 n ≡ 9 + k) × (n ≡ 2 ^ (9 + k))
unfolding bits_from
size_bits n (inl e) = (0, rw e refl, e)
size_bits n (inr (inl e)) = (1, rw e refl, e)
size_bits n (inr (inr (inl e))) = (2, rw e refl, e)
size_bits n (inr (inr (inr e))) = (3, rw e refl, e)

-- Each branch of `fat_set_sb_info` gives such a geometry.
sb_of-IsVolume :
    (b : Bpb) (w : Width) (length entries data_start root info bits vol : ℕ)
    → IsSectorSize b.sector_size
    → w.shift ≤ 9
    → 0 < total_clusters b.total_sect data_start b.sec_per_clus
    → (sb_of b length entries data_start root info bits vol).max_cluster ≤ w.max_fat
    → w.max_fat < 2 ^ 31
    → IsVolume (volume_of (sb_of b length entries data_start root info bits vol)) w
unfolding sb_of
sb_of-IsVolume b w length entries data_start root info bits vol size narrow some_clus fits small =
    let (k, e, p) = size_bits b.sector_size size in
    record {
      per_block_bits = 9 + k - w.shift;
      bits_split = e ∙ omega arith;
      block_power = p ∙ ap (λ n. 2 ^ n) (sym e);
      some_cluster = omega arith;
      int_cluster = omega arith;
      fits_width = fits;
    }

some_clusters :
    (total data_start sec_per_clus : ℕ)
    → 0 < sec_per_clus
    → data_start + sec_per_clus ≤ total
    → total < 2 ^ 32
    → 0 < total_clusters total data_start sec_per_clus
some_clusters total data_start sec_per_clus pos room small = omega (
  arith,
  div-eq-sub-div {m = sec_per_clus} {n = (total + 2 ^ 64 - data_start) % 2 ^ 64} pos (omega arith),
)

in_range : (n : ℕ) → IsSectorSize n → (ltb n 512 || ltb 4096 n) ≡ false
in_range n (inl e) = rw e refl
in_range n (inr (inl e)) = rw e refl
in_range n (inr (inr (inl e))) = rw e refl
in_range n (inr (inr (inr e))) = rw e refl

-- The first sector of cluster 2, and the number of clusters, of a boot sector.
abbrev pub data_start_of : Bpb → ℕ
data_start_of b =
    if b.fat_length == 0 then b.reserved + b.fats * b.fat32_length else short_data_start b

abbrev pub clusters_of : Bpb → ℕ
clusters_of b = total_clusters b.total_sect (data_start_of b) b.sec_per_clus

-- The entries lie whole in blocks, for a table that is read in words; other tables are those of FAT12.
abbrev pub IsServed : SbInfo → Option Width → Type 0
IsServed sb none = sb.fat_bits ≡ 12
IsServed sb (some w) = IsVolume (volume_of sb) w

-- The width by the number of clusters.
short_width :
    (n : ℕ)
    → n ≢ 65523
    → n ≢ 65524
    → n + 2 ≤ max_fat32
    → (short_bits n ≡ 12) ⊎ (((short_bits n ≡ 16) × (n + 2 ≤ max_fat16)) ⊎ (short_bits n ≡ 32))
unfolding short_bits
short_width n a b c = elim (lt_cases n 4085) [
  | inl few ↦ inl (rw (lt→ltb n 4085 few) refl)
  | inr many ↦ elim (lt_cases n 65525) [
    | inl some_more ↦
        inr (inl (rw (le→ltb n 4085 many, lt→ltb n 65525 some_more) refl, fits some_more))
    | inr most ↦ inr (inr (rw (le→ltb n 4085 many, le→ltb n 65525 most) refl))
  ]
]
  where
    fits : n < 65525 → n + 2 ≤ max_fat16
    fits h = omega arith

module _ (b : Bpb) (size : IsSectorSize b.sector_size) (pos : 0 < b.sec_per_clus)
    (total : b.total_sect < 2 ^ 32) where
  -- The geometry of a branch, for the width by its `bits`.
  long-IsServed :
      (length entries data_start root info vol : ℕ)
      → data_start + b.sec_per_clus ≤ b.total_sect
      → total_clusters b.total_sect data_start b.sec_per_clus + 2 ≤ max_fat32
      → IsServed (sb_of b length entries data_start root info 32 vol) (fat_ent_access_init 32)
  unfolding fat_ent_access_init sb_of
  long-IsServed length entries data_start root info vol room fits =
      sb_of-IsVolume b fat32_ops length entries data_start root info 32 vol size (omega arith)
        (some_clusters b.total_sect data_start b.sec_per_clus pos room total) fits (omega arith)

  short-IsServed :
      (length entries data_start root info bits vol : ℕ)
      → data_start + b.sec_per_clus ≤ b.total_sect
      → total_clusters b.total_sect data_start b.sec_per_clus + 2 ≤ max_fat32
      → (bits ≡ 12)
        ⊎ (((bits ≡ 16) × (total_clusters b.total_sect data_start b.sec_per_clus + 2 ≤ max_fat16))
            ⊎ (bits ≡ 32))
      → IsServed (sb_of b length entries data_start root info bits vol) (fat_ent_access_init bits)
  unfolding fat_ent_access_init sb_of
  short-IsServed length entries data_start root info bits vol room fits (inl e) = rw e refl
  short-IsServed length entries data_start root info bits vol room fits (inr (inl (e, narrow))) =
      rw e (
        sb_of-IsVolume b fat16_ops length entries data_start root info 16 vol size (omega arith)
          (some_clusters b.total_sect data_start b.sec_per_clus pos room total) narrow
          (omega arith))
  short-IsServed length entries data_start root info bits vol room fits (inr (inr e)) =
      rw e (long-IsServed length entries data_start root info vol room fits)

  -- On a boot sector with a sector size of the format, 512 to 4096, clusters of at least one sector and
  -- room for one after the tables, `fat_set_sb_info` returns a geometry. With the width that
  -- `fat_ent_access_init` takes for it, the table is one of FAT12, or its entries lie whole in blocks
  -- and the cluster numbers stay below the end marks. It leaves out two numbers of clusters, 65523 and
  -- 65524, which the code takes for FAT16, and those past the numbers of FAT32.
  pub fat_set_sb_info-IsVolume :
      data_start_of b + b.sec_per_clus ≤ b.total_sect
      → clusters_of b ≢ 65523
      → clusters_of b ≢ 65524
      → clusters_of b + 2 ≤ max_fat32
      → (sb : SbInfo) × (fat_set_sb_info b ≡ some (ok sb))
        × IsServed sb (fat_ent_access_init sb.fat_bits)
  unfolding fat_set_sb_info fat_set_sb_info_long fat_set_sb_info_short sb_of
  fat_set_sb_info-IsVolume room n1 n2 fits = elim (Bool-cases (b.fat_length == 0)) [
    | inl e ↦ (
      fat_set_sb_info_long b,
      rw (in_range b.sector_size size, ne→== b.sec_per_clus 0 (λ p. omega arith), e) refl,
      long-IsServed b.fat32_length 0 (b.reserved + b.fats * b.fat32_length) b.root_cluster
          b.info_sector b.fat32_vol_id (rw e at room) (rw e at fits),
    )
    | inr e ↦ (
      fat_set_sb_info_short b,
      rw (in_range b.sector_size size, ne→== b.sec_per_clus 0 (λ p. omega arith), e) refl,
      short-IsServed b.fat_length b.dir_entries (short_data_start b) 0 default_fsinfo
          (short_bits (total_clusters b.total_sect (short_data_start b) b.sec_per_clus))
          b.fat16_vol_id (rw e at room) (rw e at fits)
          (short_width (total_clusters b.total_sect (short_data_start b) b.sec_per_clus)
            (rw e at n1) (rw e at n2) (rw e at fits)),
    )
  ]
