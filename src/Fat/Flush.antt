-- ===== src/Fat/Flush.antt =====
-- The FSINFO sector of FAT32 volumes: `fat_clusters_flush` of src/fs/fat/src/misc.c, against its reading at
-- mount in src/fs/fat/src/fat_fs.c.
pub mod Tests
use userfs.Prelude.{
  ℕ, ◌+◌, ◌-◌, ◌^◌, ◌⊎◌, ◌≤◌, ◌<◌, ◌≡◌, ◌≢◌, refl, arith, Bool, true, false, Option, none, some,
  Outcome, ok, err, eio, List, length, ◌==◌, ◌&&◌, not, if◌then◌else◌, inl, ap, ◌∙◌, ne→==, lt→ltb,
  eq_cases, inr, ltb, lt_cases, le→ltb, ==_self,
}
use userfs.Fat.Words.{Blocks, put_block, load, store}
use userfs.Fat.Words.Bytes.{load-store, load_same, get_or-store, length-store}
use userfs.Fat.Mount.{SbInfo, read_fsinfo}
use userfs.Fat.Table.{fat_start_ent}

abbrev pub fat_fsinfo_sig1 : ℕ
fat_fsinfo_sig1 = 0x41615252

abbrev pub fat_fsinfo_sig2 : ℕ
fat_fsinfo_sig2 = 0x61417272

-- `IS_FSINFO`
abbrev pub is_fsinfo : List ℕ → Bool
is_fsinfo bytes = load 4 bytes 0 == fat_fsinfo_sig1 && load 4 bytes 484 == fat_fsinfo_sig2

-- A counter is stored at `i` unless it is `(unsigned int)-1`.
pub store_known : List ℕ → ℕ → ℕ → List ℕ
store_known bytes i n = if n == 2 ^ 32 - 1 then bytes else store 4 bytes i n

pub flush_counters : SbInfo → List ℕ → List ℕ
flush_counters sb bytes = store_known (store_known bytes 488 sb.free_clusters) 492 sb.prev_free

-- `fat_clusters_flush`; what the device answers to the later write is not looked at.
pub flush_sector : SbInfo → Option (List ℕ) → Blocks → Outcome (Unit {0}) × Blocks
flush_sector sb none blocks = (err eio, blocks)
flush_sector sb (some bytes) blocks =
    if is_fsinfo bytes
    then (ok tt, put_block blocks sb.fsinfo_sector (flush_counters sb bytes))
    else (ok tt, blocks)

pub fat_clusters_flush : SbInfo → Blocks → Outcome (Unit {0}) × Blocks
fat_clusters_flush sb blocks =
    if sb.fat_bits == 32 then flush_sector sb (blocks sb.fsinfo_sector) blocks else (ok tt, blocks)

-- The reading of the counters in `fat_fill_super`.
pub counters_from : SbInfo → Option (List ℕ) → SbInfo
counters_from sb none = sb
counters_from sb (some bytes) = read_fsinfo sb bytes

pub read_counters : SbInfo → Blocks → SbInfo
read_counters sb blocks =
    if sb.fat_bits == 32 then counters_from sb (blocks sb.fsinfo_sector) else sb

stored : (bytes : List ℕ) (i n : ℕ) → n < 2 ^ 32 - 1 → store_known bytes i n ≡ store 4 bytes i n
unfolding store_known
stored bytes i n h = rw (ne→== n (2 ^ 32 - 1) (λ p. omega arith)) refl

module _ (sb : SbInfo) (bytes : List ℕ) (room : 496 ≤ length bytes)
    (free_known : sb.free_clusters < 2 ^ 32 - 1) (prev_known : sb.prev_free < 2 ^ 32 - 1) where
  abbrev once : List ℕ
  once = store 4 bytes 488 sb.free_clusters

  both_stored : flush_counters sb bytes ≡ store 4 once 492 sb.prev_free
  unfolding flush_counters
  both_stored =
      ap (λ b. store_known b 492 sb.prev_free) (stored bytes 488 sb.free_clusters free_known)
      ∙ stored once 492 sb.prev_free prev_known

  next_read : load 4 (flush_counters sb bytes) 492 ≡ sb.prev_free
  next_read =
      ap (λ b. load 4 b 492) both_stored
      ∙ load-store 4 once 492 sb.prev_free
          (omega (arith, length-store 4 bytes 488 sb.free_clusters)) (omega arith)

  free_read : load 4 (flush_counters sb bytes) 488 ≡ sb.free_clusters
  free_read =
      ap (λ b. load 4 b 488) both_stored
      ∙ load_same 4 (store 4 once 492 sb.prev_free) once 488
          (λ k lo hi. get_or-store 4 once 492 sb.prev_free k (inl (omega arith)))
      ∙ load-store 4 bytes 488 sb.free_clusters (omega arith) (omega arith)

  read_back :
      (mounted : SbInfo)
      → 0 < sb.free_clusters
      → sb.free_clusters < mounted.max_cluster
      → 2 ≤ sb.prev_free
      → let after = read_fsinfo mounted (flush_counters sb bytes) in
        (after.free_clusters ≡ sb.free_clusters) × (after.prev_free ≡ sb.prev_free)
  unfolding read_fsinfo
  read_back mounted pos fits hint = (
    rw (free_read, lt→ltb 0 sb.free_clusters pos, lt→ltb sb.free_clusters mounted.max_cluster fits)
        refl,
    rw next_read (hinted (lt_cases fat_start_ent sb.prev_free)),
  )
    where
      hinted :
          ◌⊎◌ (fat_start_ent < sb.prev_free) (sb.prev_free ≤ fat_start_ent)
          → (if ltb fat_start_ent sb.prev_free then sb.prev_free else fat_start_ent) ≡ sb.prev_free
      hinted (inl lt) = rw (lt→ltb fat_start_ent sb.prev_free lt) refl
      hinted (inr le) = rw (le→ltb fat_start_ent sb.prev_free le) (omega arith)

  flushed :
      (blocks : Blocks)
      → sb.fat_bits ≡ 32
      → blocks sb.fsinfo_sector ≡ some bytes
      → is_fsinfo bytes ≡ true
      → fat_clusters_flush sb blocks
        ≡ (ok tt, put_block blocks sb.fsinfo_sector (flush_counters sb bytes))
  unfolding fat_clusters_flush flush_sector
  flushed blocks wide there signed = rw (wide, there, signed) refl

  counters_at :
      (mounted : SbInfo) (blocks : Blocks)
      → mounted.fat_bits ≡ 32
      → mounted.fsinfo_sector ≡ sb.fsinfo_sector
      → read_counters mounted (put_block blocks sb.fsinfo_sector (flush_counters sb bytes))
        ≡ read_fsinfo mounted (flush_counters sb bytes)
  unfolding read_counters counters_from put_block
  counters_at mounted blocks wide same = rw (wide, same, ==_self sb.fsinfo_sector) refl

  -- On FAT32, where the FSINFO sector can be read and has its signatures, the flush succeeds, and a mount
  -- of its result reads the number of free clusters and the hint of the volume, where both are known,
  -- the number is above 0 and below that of the clusters, and the hint is an entry number.
  pub read_counters-flush :
      (mounted : SbInfo) (blocks : Blocks)
      → sb.fat_bits ≡ 32
      → blocks sb.fsinfo_sector ≡ some bytes
      → is_fsinfo bytes ≡ true
      → mounted.fat_bits ≡ 32
      → mounted.fsinfo_sector ≡ sb.fsinfo_sector
      → 0 < sb.free_clusters
      → sb.free_clusters < mounted.max_cluster
      → 2 ≤ sb.prev_free
      → let result = fat_clusters_flush sb blocks in
        let after = read_counters mounted result.1 in
        (result.0 ≡ ok tt)
        × (after.free_clusters ≡ sb.free_clusters)
        × (after.prev_free ≡ sb.prev_free)
  read_counters-flush mounted blocks wide there signed wide' same pos fits hint =
      rw (flushed blocks wide there signed, counters_at mounted blocks wide' same)
        (refl, (read_back mounted pos fits hint).0, (read_back mounted pos fits hint).1)
