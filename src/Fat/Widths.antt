-- ===== src/Fat/Widths.antt =====
-- The FAT16 and FAT32 tables of operations, `fat16_ops` and `fat32_ops` of
-- src/fs/fat/src/fatent.c, with the end marks of src/fs/fat/src/ondisk.h.
use userfs.Prelude.{ℕ, ◌%◌, ◌^◌, ◌<◌, ◌≡◌, refl, arith, Option, some, none, ◌==◌, if◌then◌else◌}
use userfs.Fat.Entry.{fat16_ent_get, fat16_ent_put, fat32_ent_get, fat32_ent_put}
use userfs.Fat.Entry.Laws.{fat16_round_trip, fat32_round_trip}
use userfs.Fat.Words.{Width}

-- MAX_FAT16 and MAX_FAT32
abbrev pub max_fat16 : ℕ
max_fat16 = 0xfff4

abbrev pub max_fat32 : ℕ
max_fat32 = 0x0fff_fff6

pub small16 : (v : ℕ) → v < max_fat16 → v % 2 ^ 16 ≡ v
small16 v h = omega arith

pub small32 : (v : ℕ) → v < max_fat32 → v % 2 ^ 28 ≡ v
small32 v h = omega arith

abbrev pub fat16_ops : Width
fat16_ops = record {
  shift = 1;
  max_fat = max_fat16;
  ent_get = fat16_ent_get;
  ent_put = fat16_ent_put;
  stored = λ v. v % 2 ^ 16;
  ent_put-lt = λ w new h. (fat16_round_trip w new).1;
  ent_get-put = λ w new h. (fat16_round_trip w new).0;
  stored_free = refl;
  stored_eof = omega arith;
  stored_small = small16;
}

abbrev pub fat32_ops : Width
fat32_ops = record {
  shift = 2;
  max_fat = max_fat32;
  ent_get = fat32_ent_get;
  ent_put = fat32_ent_put;
  stored = λ v. v % 2 ^ 28;
  ent_put-lt = λ w new h. (fat32_round_trip w new h).2;
  ent_get-put = λ w new h. (fat32_round_trip w new h).0;
  stored_free = refl;
  stored_eof = omega arith;
  stored_small = small32;
}

-- `fat_ent_access_init`: the operations by `fat_bits`; those of FAT12 are not on words.
unfoldable pub fat_ent_access_init : ℕ → Option Width
fat_ent_access_init fat_bits =
    if fat_bits == 32 then some fat32_ops else if fat_bits == 16 then some fat16_ops else none
