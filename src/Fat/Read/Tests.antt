-- ===== src/Fat/Read/Tests.antt =====
-- A file of 100 bytes in the blocks 2 and 3 of 64 bytes.
use Prim.Native.Nat.{min}
use userfs.Prelude.{
  ℕ, ◌+◌, ◌-◌, ◌≡◌, Option, some, Outcome, ok, List, length, replicate, ltb, if◌then◌else◌, ap, ◌∙◌,
  sym, length-replicate,
}
use userfs.Fat.Bmap.{Mapping, unmapped}
use userfs.Fat.Read.{FileBlocks, fat_file_read}
use userfs.Fat.Read.Bytes.{bytes_from, file_byte, fat_file_read_lem}

abbrev two_blocks : ℕ → Outcome Mapping
two_blocks i = if ltb i 2 then ok (record { phys = 2 + i; mapped_blocks = 1 }) else ok unmapped

abbrev pub block_of : ℕ → Option (List ℕ)
block_of p = some (replicate 64 p)

pub full : (p : ℕ) (bytes : List ℕ) → block_of p ≡ some bytes → length bytes ≡ 64
full p bytes e = ap length (sym (same e)) ∙ length-replicate 64 p
  where
    same : block_of p ≡ some bytes → replicate 64 p ≡ bytes
    same q = cc

abbrev small_file : FileBlocks
small_file = record {
  s_blocksize_bits = 6;
  bmap = two_blocks;
  bread = block_of;
  whole_block = full;
}

fat_file_read_example :
    fat_file_read small_file 100 50 60
    ≡ some (bytes_from (file_byte small_file) 60 (min 50 (100 - 60)))
fat_file_read_example = fat_file_read_lem small_file 100 50 60
