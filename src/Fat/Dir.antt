-- ===== src/Fat/Dir.antt =====
-- Reading a directory: `fat__get_entry`, `fat_get_entry` and the loops over them, src/fs/fat/src/dir.c.
-- A scan changes no block and no entry of the table, so `fat_bmap` of the directory and `ufs_bread` are
-- functions here, with what the scans need of them as the laws of `DirBlocks`.
pub mod Entries
pub mod Next
pub mod Loops
pub mod Scan
pub mod Search
pub mod Remove
pub mod Add
pub mod Located
pub mod View
pub mod Edit
pub mod SameMap
pub mod Blocks
pub mod Tests
use userfs.Prelude.{
  ℕ, zero, suc, ◌+◌, ◌-◌, ◌*◌, ◌/◌, ◌%◌, ◌^◌, ◌≤◌, ◌<◌, ◌≡◌, Bool, Option, none, some, Outcome, ok,
  err, List, [], ◌∷◌, ltb, ◌==◌, if◌then◌else◌, length,
}
use userfs.Fat.DirEntry.{DirEntry, decode, entry_size}
use userfs.Fat.Bmap.{Mapping}

-- `*phys` where `err || !phys` is false.
unfoldable pub phys_of : Outcome Mapping → Option ℕ
phys_of (err e) = none
phys_of (ok m) = if m.phys == 0 then none else some m.phys

-- The blocks of a directory, as `fat_bmap` and `ufs_bread` give them: the numbers of the super block,
-- and a sector from which on nothing is mapped.
pub record DirBlocks : Type 0 where
  pub s_blocksize_bits : ℕ
  pub dir_per_block : ℕ
  pub bmap : ℕ → Outcome Mapping
  pub bread : ℕ → Option (List ℕ)
  pub sectors : ℕ
  pub entries_fill : dir_per_block * entry_size ≡ 2 ^ s_blocksize_bits
  pub some_entry : 0 < dir_per_block
  pub past_end : (i : ℕ) → sectors ≤ i → phys_of (bmap i) ≡ none

-- What a round of a loop does: it goes on, or returns.
pub data Step (S R : Type 0) : Type 0 where
  go : S → Step S R
  stop : R → Step S R

module _ (d : DirBlocks) where
  open d use {s_blocksize_bits, dir_per_block, bmap, bread, sectors}

  -- `*pos`, and `*bh` with the place of `*de` in it.
  pub record Cursor : Type 0 where
    pub pos : ℕ
    pub held : Option (List ℕ × ℕ)

  abbrev pub start : Cursor
  start = record { pos = 0; held = none }

  -- The end of `fat__get_entry`, when block `iblock` was read.
  pub point_into : ℕ → List ℕ → DirEntry × Cursor
  point_into pos bytes =
      let offset = pos % 2 ^ s_blocksize_bits in
      (
        decode bytes offset,
        record { pos = pos + entry_size; held = some (bytes, offset / entry_size) },
      )

  -- A round of `fat__get_entry` for the position `pos`: `next` is the jump back to its label.
  pub entry_at_block :
      ℕ
      → Option (List ℕ)
      → Option (Option (DirEntry × Cursor))
      → Option (Option (DirEntry × Cursor))
  entry_at_block pos none next = next
  entry_at_block pos (some bytes) next = some (some (point_into pos bytes))

  pub entry_at_phys :
      ℕ → Option ℕ → Option (Option (DirEntry × Cursor)) → Option (Option (DirEntry × Cursor))
  entry_at_phys pos none next = some none
  entry_at_phys pos (some p) next = entry_at_block pos (bread p) next

  -- `fat__get_entry`: `some none` for -1, `none` when the fuel runs out.
  pub fat__get_entry : ℕ → ℕ → Option (Option (DirEntry × Cursor))
  fat__get_entry zero pos = none
  fat__get_entry (suc fuel) pos =
      let iblock = pos / 2 ^ s_blocksize_bits in
      let next = fat__get_entry fuel ((iblock + 1) * 2 ^ s_blocksize_bits) in
      entry_at_phys pos (phys_of (bmap iblock)) next

  -- `fat_get_entry`
  pub get_held : ℕ → Option (List ℕ × ℕ) → Option (Option (DirEntry × Cursor))
  get_held pos none = fat__get_entry (suc sectors) pos
  get_held pos (some (bytes, de)) =
      if ltb de (dir_per_block - 1)
      then some (
          some (
            decode bytes ((de + 1) * entry_size),
            record { pos = pos + entry_size; held = some (bytes, de + 1) },
          ))
      else fat__get_entry (suc sectors) pos

  pub fat_get_entry : Cursor → Option (Option (DirEntry × Cursor))
  fat_get_entry c = get_held c.pos c.held

  -- A loop `while (1)` over `fat_get_entry`: `visit` is its body, on the position after the entry,
  -- `finish` what it returns when there is no entry; `none` when the fuel runs out.
  module _ {S R : Type 0} (visit : S → ℕ → DirEntry → Step S R) (finish : S → R) where
    pub after_visit : Step S R → (S → Option R) → Option R
    after_visit (go s) rest = rest s
    after_visit (stop r) rest = some r

    pub with_entry : S → Option (Option (DirEntry × Cursor)) → (Cursor → S → Option R) → Option R
    with_entry s none rest = none
    with_entry s (some none) rest = some (finish s)
    with_entry s (some (some (de, c))) rest = after_visit (visit s c.pos de) (rest c)

    pub each_entry : ℕ → Cursor → S → Option R
    each_entry zero c s = none
    each_entry (suc fuel) c s = with_entry s (fat_get_entry c) (each_entry fuel)

    -- The loop with fuel for every entry that the sectors can hold.
    pub for_entries : Cursor → S → Option R
    for_entries c s = each_entry (suc (sectors * dir_per_block)) c s

  -- `if (fat_get_entry(...) < 0) return r;`, with the entry and the cursor for what follows.
  pub then_entry :
      {R : Type 0}
      → R
      → Option (Option (DirEntry × Cursor))
      → (DirEntry → Cursor → Option R)
      → Option R
  then_entry r none k = none
  then_entry r (some none) k = some r
  then_entry r (some (some (de, c))) k = k de c
