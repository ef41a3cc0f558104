-- ===== src/Fat/Mount.antt =====
-- Mounting: `fat_read_bpb`, `fat_set_sb_info` and the FSINFO and free count parts of `fat_fill_super`
-- of src/fs/fat/src/fat_fs.c. The names, the options, the root inode and the mutexes are left out.
pub mod Geometry
pub mod FreeCount
pub mod Tests
use userfs.Prelude.{
  ℕ, zero, suc, ◌+◌, ◌-◌, ◌*◌, ◌/◌, ◌%◌, ◌^◌, Bool, true, false, Option, none, some, Outcome, ok,
  err, einval, eio, enoent, List, get_or, ltb, leb, ◌==◌, not, ◌&&◌, ◌||◌, if◌then◌else◌,
}
use userfs.Fat.Table.{FatTable, fat_start_ent, fat_ent_free}
use userfs.Fat.Words.{Volume, load}

-- `struct fat_bios_param_block`
pub record Bpb : Type 0 where
  pub sector_size : ℕ
  pub sec_per_clus : ℕ
  pub reserved : ℕ
  pub fats : ℕ
  pub dir_entries : ℕ
  pub sectors : ℕ
  pub fat_length : ℕ
  pub total_sect : ℕ
  pub fat16_state : ℕ
  pub fat16_vol_id : ℕ
  pub fat32_length : ℕ
  pub root_cluster : ℕ
  pub info_sector : ℕ
  pub fat32_state : ℕ
  pub fat32_vol_id : ℕ

-- A field of `struct fat_boot_sector`, little-endian in `n` bytes.
abbrev pub field : ℕ → ℕ → List ℕ → ℕ
field n i bytes = load n bytes i

-- The first byte of `ignored`: a jump.
pub is_jump : ℕ → Bool
is_jump b = b == 0xeb || b == 0xe9 || b == 0xe8

-- `total_sect`, or `sectors` where that is 0.
pub or_sectors : ℕ → ℕ → ℕ
or_sectors total sectors = if total == 0 then sectors else total

-- The part of `fat_read_bpb` after the sector is read.
pub parse_bpb : List ℕ → Bpb
parse_bpb bs =
    let length16 = field 2 22 bs in
    let total = or_sectors (field 4 32 bs) (field 2 19 bs) in
    let is32 = length16 == 0 && ltb 0 total in
    record {
      sector_size = field 2 11 bs;
      sec_per_clus = field 1 13 bs;
      reserved = field 2 14 bs;
      fats = field 1 16 bs;
      dir_entries = field 2 17 bs;
      sectors = field 2 19 bs;
      fat_length = length16;
      total_sect = total;
      fat16_state = if is32 then 0 else field 1 37 bs;
      fat16_vol_id = if is32 then 0 else field 4 39 bs;
      fat32_length = if is32 then field 4 36 bs else 0;
      root_cluster = if is32 then field 4 44 bs else 0;
      info_sector = if is32 then field 2 48 bs else 0;
      fat32_state = if is32 then field 1 65 bs else 0;
      fat32_vol_id = if is32 then field 4 67 bs else 0;
    }

-- `fat_read_bpb`, on what `ufs_bread` gives for block 0.
pub read_sector : List ℕ → Outcome Bpb
read_sector bs = if is_jump (get_or bs 0 0) then ok (parse_bpb bs) else err enoent

pub fat_read_bpb : Option (List ℕ) → Outcome Bpb
fat_read_bpb none = err eio
fat_read_bpb (some bs) = read_sector bs

-- The fields of `msdos_sb_info` and of the super block that `fat_set_sb_info` sets.
pub record SbInfo : Type 0 where
  pub s_blocksize : ℕ
  pub s_blocksize_bits : ℕ
  pub sec_per_clus : ℕ
  pub cluster_size : ℕ
  pub cluster_bits : ℕ
  pub fats : ℕ
  pub fat_start : ℕ
  pub fat_length : ℕ
  pub dir_entries : ℕ
  pub dir_start : ℕ
  pub data_start : ℕ
  pub max_cluster : ℕ
  pub root_cluster : ℕ
  pub fsinfo_sector : ℕ
  pub fat_bits : ℕ
  pub vol_id : ℕ
  pub dir_per_block : ℕ
  pub dir_per_block_bits : ℕ
  pub prev_free : ℕ
  pub free_clusters : ℕ
  pub free_clus_valid : Bool

-- `while ((1UL << bits) < size) bits++;` The sizes are below 2^32, so 32 rounds are enough.
pub bits_from : ℕ → ℕ → ℕ → ℕ
bits_from zero bits size = bits
bits_from (suc fuel) bits size =
    let rest = bits_from fuel (bits + 1) size in if ltb (2 ^ bits) size then rest else bits

-- `fat_bits` of a volume whose FAT has 16-bit length.
pub short_bits : ℕ → ℕ
short_bits total_clusters =
    if ltb total_clusters 4085 then 12 else if ltb total_clusters 65525 then 16 else 32

-- `root_dir_sectors`, with 32 bytes in a directory entry.
abbrev pub root_dir_sectors : ℕ → ℕ → ℕ
root_dir_sectors entries size = (entries * 32 + size - 1) / size

-- `(total_sectors - sbi->data_start) / sbi->sec_per_clus` in `unsigned long`.
abbrev pub total_clusters : ℕ → ℕ → ℕ → ℕ
total_clusters total data_start sec_per_clus = (total + 2 ^ 64 - data_start) % 2 ^ 64 / sec_per_clus

-- The fields that both branches set, with those that differ as arguments.
pub sb_of : Bpb → ℕ → ℕ → ℕ → ℕ → ℕ → ℕ → ℕ → SbInfo
sb_of b length entries data_start root info bits vol = record {
  s_blocksize = b.sector_size;
  s_blocksize_bits = bits_from 32 9 b.sector_size;
  sec_per_clus = b.sec_per_clus;
  cluster_size = b.sec_per_clus * b.sector_size;
  cluster_bits = bits_from 32 0 (b.sec_per_clus * b.sector_size);
  fats = b.fats;
  fat_start = b.reserved;
  fat_length = length;
  dir_entries = entries;
  dir_start = b.reserved + b.fats * length;
  data_start = data_start;
  max_cluster = total_clusters b.total_sect data_start b.sec_per_clus + fat_start_ent;
  root_cluster = root;
  fsinfo_sector = info;
  fat_bits = bits;
  vol_id = vol;
  dir_per_block = b.sector_size / 32;
  dir_per_block_bits = bits_from 32 0 (b.sector_size / 32);
  prev_free = fat_start_ent;
  free_clusters = 2 ^ 32 - 1;
  free_clus_valid = false;
}

-- The first cluster's sector on a volume with a root directory of fixed size.
abbrev pub short_data_start : Bpb → ℕ
short_data_start b =
    b.reserved + b.fats * b.fat_length + root_dir_sectors b.dir_entries b.sector_size

-- `sbi->fsinfo_sector = 1` of `fat_fill_super`, which the branch for short tables leaves.
abbrev pub default_fsinfo : ℕ
default_fsinfo = 1

pub fat_set_sb_info_short : Bpb → SbInfo
fat_set_sb_info_short b =
    sb_of b b.fat_length b.dir_entries (short_data_start b) 0 default_fsinfo
      (short_bits (total_clusters b.total_sect (short_data_start b) b.sec_per_clus)) b.fat16_vol_id

pub fat_set_sb_info_long : Bpb → SbInfo
fat_set_sb_info_long b =
    sb_of b b.fat32_length 0 (b.reserved + b.fats * b.fat32_length) b.root_cluster b.info_sector 32
      b.fat32_vol_id

-- `fat_set_sb_info`; nothing where `sec_per_clus` is 0, which the code divides by. `fat_fill_super` has
-- cleared the fields by `calloc` and set `fsinfo_sector` to 1.
pub fat_set_sb_info : Bpb → Option (Outcome SbInfo)
fat_set_sb_info b =
    if ltb b.sector_size 512 || ltb 4096 b.sector_size
    then some (err einval)
    else if b.sec_per_clus == 0
    then none
    else if b.fat_length == 0
    then some (ok (fat_set_sb_info_long b))
    else some (ok (fat_set_sb_info_short b))

-- The fields that place the entries of the table.
abbrev pub volume_of : SbInfo → Volume
volume_of sb = record {
  fat_start = sb.fat_start;
  blocksize = sb.s_blocksize;
  blocksize_bits = sb.s_blocksize_bits;
  max_cluster = sb.max_cluster;
}

-- The counters from the FSINFO sector of a FAT32 volume.
unfoldable pub read_fsinfo : SbInfo → List ℕ → SbInfo
read_fsinfo sb info =
    let free_count = load 4 info 488 in
    let next_free = load 4 info 492 in
    record sb {
      free_clusters =
          if ltb 0 free_count && ltb free_count sb.max_cluster
          then free_count
          else sb.free_clusters;
      prev_free = if ltb fat_start_ent next_free then next_free else fat_start_ent;
    }

-- The scan for free clusters: the number of entries from `entry` on, `n` of them, that read as free.
module _ (T : FatTable) (t : T.Image) where
  pub count_one : Outcome ℕ → ℕ
  count_one (ok v) = if v == fat_ent_free then 1 else 0
  count_one (err e) = 0

  pub count_from : ℕ → ℕ → ℕ
  count_from zero entry = 0
  count_from (suc n) entry = count_one (T.read t entry) + count_from n (entry + 1)

  pub count_free : SbInfo → SbInfo
  count_free sb =
      let free_count = count_from (sb.max_cluster - fat_start_ent) fat_start_ent in
      if sb.free_clusters == 2 ^ 32 - 1
      then record sb {
        free_clusters = free_count % 2 ^ 32;
        free_clus_valid = if ltb 0 free_count then true else sb.free_clus_valid;
      }
      else sb
