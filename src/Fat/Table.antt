-- ===== src/Fat/Table.antt =====
-- The file allocation table as its clients in src/fs/fat/src/fatent.c and cache.c see it: reading an
-- entry after the range check of `fat_ent_read`, and storing one through `ent_put`. Fat/Words fills
-- this interface for FAT16 and FAT32 from the bytes of the table's blocks.
use userfs.Prelude.{ℕ, ◌^◌, ◌≤◌, ◌<◌, ◌≡◌, ◌≢◌, Outcome, ok, err, eio}

-- FAT_START_ENT, FAT_ENT_FREE and FAT_ENT_EOF of src/fs/fat/src/ondisk.h
abbrev pub fat_start_ent : ℕ
fat_start_ent = 2

abbrev pub fat_ent_free : ℕ
fat_ent_free = 0

abbrev pub fat_ent_eof : ℕ
fat_ent_eof = 0x0fff_ffff

pub record FatTable : Type 1 where
  -- what the blocks of the table hold, and when all of them can be read
  pub Image : Type 0
  pub IsReady : Image → Type 0
  -- `sbi->max_cluster`, and `max_fat` of the table's width
  pub max_cluster : ℕ
  pub max_fat : ℕ
  -- the value of an entry, `fat_ent_read`, `ent_put`, and what `ent_put` keeps of a value
  pub get : Image → ℕ → ℕ
  pub read : Image → ℕ → Outcome ℕ
  pub put : Image → ℕ → ℕ → Image
  pub stored : ℕ → ℕ
  pub read_valid :
      (t : Image) (e : ℕ) → IsReady t → 2 ≤ e → e < max_cluster → read t e ≡ ok (get t e)
  pub read_low : (t : Image) (e : ℕ) → e < 2 → read t e ≡ err eio
  pub read_high : (t : Image) (e : ℕ) → max_cluster ≤ e → read t e ≡ err eio
  pub put-IsReady :
      (t : Image) (e v : ℕ) → IsReady t → 2 ≤ e → e < max_cluster → IsReady (put t e v)
  pub get-put_self :
      (t : Image) (e v : ℕ) → IsReady t → 2 ≤ e → e < max_cluster → get (put t e v) e ≡ stored v
  pub get-put_ne :
      (t : Image) (e j v : ℕ)
      → IsReady t
      → 2 ≤ e
      → e < max_cluster
      → 2 ≤ j
      → j < max_cluster
      → e ≢ j
      → get (put t e v) j ≡ get t j
  pub stored_free : stored fat_ent_free ≡ fat_ent_free
  pub stored_eof : max_fat ≤ stored fat_ent_eof
  pub stored_small : (v : ℕ) → v < max_fat → stored v ≡ v
  pub max_cluster_pos : 2 < max_cluster
  pub max_cluster-int : max_cluster < 2 ^ 31
  pub max_cluster-max_fat : max_cluster ≤ max_fat
