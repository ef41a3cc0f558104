-- ===== src/Fat/Flush/Tests.antt =====
-- The counters of a volume, written to an FSINFO sector and read at mount.
use userfs.Prelude.{
  ℕ, ◌≡◌, ◌≤◌, refl, arith, length, length-replicate, replicate, List, some, ok, true,
}
use userfs.Fat.Words.{Blocks, load, store}
use userfs.Fat.Words.Bytes.{length-store}
use userfs.Fat.Mount.{SbInfo}
use userfs.Fat.Dir.Tests.{small_sb}
use userfs.Fat.Flush.{
  fat_fsinfo_sig1, fat_fsinfo_sig2, is_fsinfo, fat_clusters_flush, read_counters,
  read_counters-flush,
}

abbrev known : SbInfo
known = record small_sb { fat_bits = 32; free_clusters = 3; prev_free = 4 }

abbrev mounted : SbInfo
mounted = record small_sb { fat_bits = 32 }

abbrev zeros : List ℕ
zeros = replicate 512 0

abbrev with_sig1 : List ℕ
with_sig1 = store 4 zeros 0 fat_fsinfo_sig1

abbrev sector : List ℕ
sector = store 4 with_sig1 484 fat_fsinfo_sig2

abbrev device : Blocks
device _ = some sector

sector_room : 496 ≤ length sector
sector_room = omega (
  arith,
  length-replicate {A = ℕ} 512 0,
  length-store 4 zeros 0 fat_fsinfo_sig1,
  length-store 4 with_sig1 484 fat_fsinfo_sig2,
)

signed : is_fsinfo sector ≡ true
unfolding load store
signed = refl

read_counters-flush_example :
    let result = fat_clusters_flush known device in
    let after = read_counters mounted result.1 in
    (result.0 ≡ ok tt) × (after.free_clusters ≡ 3) × (after.prev_free ≡ 4)
read_counters-flush_example =
    read_counters-flush known sector sector_room (omega arith) (omega arith) mounted device refl
      refl signed refl refl (omega arith) (omega arith) (omega arith)
