-- ===== src/Fat/Alloc.antt =====
-- Cluster allocation and release: `fat_alloc_clusters` and `fat_free_clusters` of
-- src/fs/fat/src/fatent.c. `fat_lock` is held over each of them, so a call is one step. The
-- copies of the table that `fat_mirror_bhs` writes are left out: no function here reads them.
pub mod Scan
pub mod Correct
pub mod Free
pub mod FreeChain
use userfs.Prelude.{
  ℕ, zero, suc, ◌+◌, ◌-◌, ◌%◌, ◌^◌, Bool, false, Option, none, some, Outcome, ok, err, enospc, ltb,
  leb, ◌==◌, ◌&&◌, if◌then◌else◌,
}
use userfs.Fat.Table.{FatTable, fat_start_ent, fat_ent_free, fat_ent_eof}

-- `m <= i`, where `i` is the bit pattern of an `int`: from 2^31 on it is negative.
abbrev pub int_leb : ℕ → ℕ → Bool
int_leb m i = if ltb i (2 ^ 31) then leb m i else false

module _ (T : FatTable) where
  open T use {Image, max_cluster, read, put}

  -- The table and the counters of `msdos_sb_info` that allocation changes, both `unsigned int`.
  pub record Fs : Type 0 where
    pub image : Image
    pub prev_free : ℕ
    pub free_clusters : ℕ

  -- `fat_valid_entry`
  abbrev pub fat_valid_entry : ℕ → Bool
  fat_valid_entry e = leb fat_start_ent e && ltb e max_cluster

  -- The branch that has found the free entry `i`.
  unfoldable pub take_cluster : Fs → ℕ → Fs
  take_cluster fs i = record fs {
    image = put fs.image i fat_ent_eof;
    prev_free = i;
    free_clusters = (fs.free_clusters + 2 ^ 32 - 1) % 2 ^ 32;
  }

  -- What a round does with the value of `fat_ent_read` at `i`; `rest` are the later rounds.
  pub alloc_visit : Fs → ℕ → ℕ → Outcome ℕ → Option (Outcome ℕ × Fs) → Option (Outcome ℕ × Fs)
  alloc_visit fs i count (err e) rest = some (err e, fs)
  alloc_visit fs i count (ok v) rest =
      if v == fat_ent_free
      then some (ok i, take_cluster fs i)
      else if ltb (max_cluster - fat_start_ent) (count + 1)
      then some (err enospc, fs)
      else rest

  -- `if (i >= (int)sbi->max_cluster) i = FAT_START_ENT;`
  abbrev pub wrap : ℕ → ℕ
  wrap i = if int_leb max_cluster i then fat_start_ent else i

  -- The `while (1)` of `fat_alloc_clusters`; `none` when the fuel runs out.
  pub alloc_scan : ℕ → Fs → ℕ → ℕ → Option (Outcome ℕ × Fs)
  alloc_scan zero fs i count = none
  alloc_scan (suc fuel) fs i count =
      let rest = alloc_scan fuel fs (wrap i + 1) (count + 1) in
      alloc_visit fs (wrap i) count (read fs.image (wrap i)) rest

  -- `fat_alloc_clusters`
  pub fat_alloc_clusters : Fs → ℕ → Option (Outcome ℕ × Fs)
  fat_alloc_clusters fs nr_cluster =
      if nr_cluster == 1
      then alloc_scan (suc max_cluster) fs ((fs.prev_free + 1) % 2 ^ 32) 0
      else some (err enospc, fs)

  -- One round of `fat_free_clusters`
  pub release_cluster : Fs → ℕ → Fs
  release_cluster fs i = record fs {
    image = put fs.image i fat_ent_free;
    free_clusters = (fs.free_clusters + 1) % 2 ^ 32;
  }

  -- What a round does with the value of `fat_ent_read` at `cluster`; `go` are the later rounds.
  pub free_visit :
      Fs
      → ℕ
      → Outcome ℕ
      → (Fs → ℕ → Option (Outcome (Unit {0}) × Fs))
      → Option (Outcome (Unit {0}) × Fs)
  free_visit fs cluster (err e) go = some (err e, fs)
  free_visit fs cluster (ok next) go = go (release_cluster fs cluster) next

  -- The `while` of `fat_free_clusters`; `none` when the fuel runs out.
  pub free_scan : ℕ → Fs → ℕ → Option (Outcome (Unit {0}) × Fs)
  free_scan zero fs cluster = none
  free_scan (suc fuel) fs cluster =
      if fat_valid_entry cluster
      then free_visit fs cluster (read fs.image cluster) (free_scan fuel)
      else some (ok tt, fs)

  -- `fat_free_clusters`
  pub fat_free_clusters : Fs → ℕ → Option (Outcome (Unit {0}) × Fs)
  fat_free_clusters fs cluster = free_scan (suc max_cluster) fs cluster
