-- ===== src/Fat/Read.antt =====
-- Reading a file: `fat_file_read` of src/fs/fat/src/vfs_file.c. A read changes neither the table nor the
-- blocks, so `fat_bmap` of the file and `ufs_bread` are functions here. Offsets and counts are taken
-- below 2^63, so that no sum wraps.
pub mod Bytes
pub mod Tests
use userfs.Prelude.{
  ℕ, zero, suc, ◌+◌, ◌-◌, ◌/◌, ◌^◌, ◌≡◌, Bool, Option, none, some, Outcome, List, [], ◌++◌, take,
  drop, length, ltb, leb, if◌then◌else◌, bit_and,
}
use userfs.Fat.Bmap.{Mapping}
use userfs.Fat.Dir.{phys_of}

-- The blocks of a file, as `fat_bmap` and `ufs_bread` give them; a block has `s_blocksize` bytes.
pub record FileBlocks : Type 0 where
  pub s_blocksize_bits : ℕ
  pub bmap : ℕ → Outcome Mapping
  pub bread : ℕ → Option (List ℕ)
  pub whole_block :
      (p : ℕ) (bytes : List ℕ) → bread p ≡ some bytes → length bytes ≡ 2 ^ s_blocksize_bits

module _ (f : FileBlocks) where
  open f use {s_blocksize_bits, bmap, bread}

  -- `offset & (sb->s_blocksize - 1)`
  abbrev pub block_offset : ℕ → ℕ
  block_offset offset = bit_and offset (2 ^ s_blocksize_bits - 1)

  -- How many bytes a round reads: to the end of the block, or what remains.
  abbrev pub to_read : ℕ → ℕ → ℕ
  to_read offset remaining =
      let room = 2 ^ s_blocksize_bits - block_offset offset in
      if ltb remaining room then remaining else room

  -- A round of the loop, for the block that was read; `go` are the later rounds. The bytes that the
  -- rounds copy to `ptr` are one list.
  pub more : List ℕ → Option (List ℕ) → Option (List ℕ)
  more chunk none = none
  more chunk (some rest) = some (chunk ++ rest)

  pub copy_block : ℕ → ℕ → Option (List ℕ) → (ℕ → ℕ → Option (List ℕ)) → Option (List ℕ)
  copy_block offset remaining none go = some []
  copy_block offset remaining (some bytes) go =
      let n = to_read offset remaining in
      more (take n (drop (block_offset offset) bytes)) (go (offset + n) (remaining - n))

  pub read_phys : ℕ → ℕ → Option ℕ → (ℕ → ℕ → Option (List ℕ)) → Option (List ℕ)
  read_phys offset remaining none go = some []
  read_phys offset remaining (some p) go = copy_block offset remaining (bread p) go

  -- The `while (remaining > 0)` of `fat_file_read`; `none` when the fuel runs out.
  pub read_loop : ℕ → ℕ → ℕ → Option (List ℕ)
  read_loop zero offset remaining = none
  read_loop (suc fuel) offset remaining =
      if ltb 0 remaining
      then read_phys offset remaining (phys_of (bmap (offset / 2 ^ s_blocksize_bits)))
          (read_loop fuel)
      else some []

  -- `fat_file_read` of a file of `i_size` bytes: the bytes that it puts into the buffer, whose number
  -- it returns.
  pub fat_file_read : ℕ → ℕ → ℕ → Option (List ℕ)
  fat_file_read i_size count offset =
      if leb i_size offset
      then some []
      else let n = if ltb i_size (offset + count) then i_size - offset else count in
        read_loop (suc n) offset n
