-- ===== src/Fat/Dir/Remove.antt =====
-- Removing entries: `fat_remove_entries` of src/fs/fat/src/dir.c. The blocks are what `ufs_bread` gives
-- of each; a changed buffer is marked dirty and written, and what the device answers is not looked at.
pub mod Update
pub mod Correct
use userfs.Prelude.{
  ℕ, zero, suc, ◌+◌, ◌*◌, ◌%◌, ◌/◌, ◌^◌, Option, none, some, Outcome, ok, List, set, ◌==◌,
  if◌then◌else◌,
}
use userfs.Fat.DirEntry.{entry_size, deleted_flag}
use userfs.Fat.Words.{Blocks, put_block}
use userfs.Fat.Dir.{DirBlocks, phys_of}
use userfs.Fat.Dir.Scan.{Slot}

-- A directory on other blocks.
abbrev pub on_blocks : DirBlocks → Blocks → DirBlocks
on_blocks d blocks = record d { bread = blocks }

module _ (d : DirBlocks) where
  open d use {s_blocksize_bits, bmap}

  -- A round of the loop, for the block that was read, and for the sector that was mapped.
  pub delete_in : ℕ → ℕ → Option (List ℕ) → Blocks → Blocks
  delete_in pos p none blocks = blocks
  delete_in pos p (some bytes) blocks =
      put_block blocks p (set bytes (pos % 2 ^ s_blocksize_bits) deleted_flag)

  pub delete_at : ℕ → Option ℕ → Blocks → Blocks
  delete_at pos none blocks = blocks
  delete_at pos (some p) blocks = delete_in pos p (blocks p) blocks

  -- The rounds from `i` on, `n` of them.
  pub delete_slots : ℕ → ℕ → ℕ → Blocks → Blocks
  delete_slots slot_off i zero blocks = blocks
  delete_slots slot_off i (suc n) blocks =
      let pos = slot_off + i * entry_size in
      delete_slots slot_off (i + 1) n
        (delete_at pos (phys_of (bmap (pos / 2 ^ s_blocksize_bits))) blocks)

  -- `fat_remove_entries`
  pub fat_remove_entries : Slot → Blocks → Outcome (Unit {0}) × Blocks
  fat_remove_entries sinfo blocks = (ok tt, delete_slots sinfo.slot_off 0 sinfo.nr_slots blocks)
