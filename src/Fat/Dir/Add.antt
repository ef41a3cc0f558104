-- ===== src/Fat/Dir/Add.antt =====
-- Adding entries: `fat_add_entries` of src/fs/fat/src/dir.c, with the growth of a directory that is
-- full. The blocks are what `ufs_bread` gives of each; a changed buffer is marked dirty and written,
-- and what the device answers is not looked at.
pub mod Correct
pub mod Found
pub mod Full
use userfs.Prelude.{
  ℕ, zero, suc, ◌+◌, ◌-◌, ◌*◌, ◌/◌, ◌%◌, ◌^◌, ◌≡◌, ◌<◌, Bool, true, false, Option, none, some,
  Outcome, ok, err, Errno, eio, List, [], ◌∷◌, length, replicate, leb, ◌==◌, if◌then◌else◌,
}
use userfs.Fat.Table.{FatTable}
use userfs.Fat.Alloc.{Fs, fat_alloc_clusters, fat_free_clusters}
use userfs.Fat.Mount.{SbInfo}
use userfs.Fat.Bmap.{Mapping, fat_clus_to_blknr, plain_bmap}
use userfs.Fat.Grow.{Node, fat_chain_add}
use userfs.Fat.Words.{Blocks, put_block}
use userfs.Fat.DirEntry.{DirEntry, decode, encode, write_at, entry_size, is_free}
use userfs.Fat.Dir.{DirBlocks, Step, go, stop, start, for_entries, phys_of}
use userfs.Fat.Dir.Scan.{Slot}
use userfs.Fat.Dir.View.{DirState, view}

-- The free entries in a row that the search has met, and `sinfo->slot_off`.
pub record FreeRun : Type 0 where
  pub free_slots : ℕ
  pub free_pos : ℕ
  pub slot_off : ℕ

-- A free entry, with the position after it.
pub note_slot : FreeRun → ℕ → FreeRun
note_slot s pos =
    let s' =
      if s.free_slots == 0
      then record s { free_pos = pos - entry_size; slot_off = pos - entry_size }
      else s in
    record s' { free_slots = s.free_slots + 1 }

-- A round of the search; `true` stands for the jump to `write_entries`.
pub add_visit : ℕ → FreeRun → ℕ → DirEntry → Step FreeRun (Bool × FreeRun)
add_visit nr_slots s pos de =
    if is_free de
    then (let s' = note_slot s pos in if leb nr_slots s'.free_slots then stop (true, s') else go s')
    else go (record s { free_slots = 0 })

pub find_slots : DirBlocks → ℕ → ℕ → Option (Bool × FreeRun)
find_slots d nr_slots slot_off =
    for_entries d (add_visit nr_slots) (λ s. (false, s)) (start d)
      (record { free_slots = 0; free_pos = 0; slot_off = slot_off })

-- `if (err < 0) return err; if (phys == 0) return -UFS_EIO;` after `fat_bmap`.
pub phys_or_error : Outcome Mapping → Outcome ℕ
phys_or_error (err e) = err e
phys_or_error (ok m) = if m.phys == 0 then err eio else ok m.phys

-- A round of the loop at `write_entries`, for the mapped block and for what was read of it.
pub write_in : ℕ → DirEntry → ℕ → Option (List ℕ) → Blocks → Outcome (Unit {0}) × Blocks
write_in offset slot p none blocks = (err eio, blocks)
write_in offset slot p (some bytes) blocks =
    (ok tt, put_block blocks p (write_at bytes offset (encode slot)))

pub write_slot : ℕ → DirEntry → Outcome ℕ → Blocks → Outcome (Unit {0}) × Blocks
write_slot offset slot (err e) blocks = (err e, blocks)
write_slot offset slot (ok p) blocks = write_in offset slot p (blocks p) blocks

pub then_slots :
    Outcome (Unit {0}) × Blocks
    → (Blocks → Outcome (Unit {0}) × Blocks)
    → Outcome (Unit {0}) × Blocks
then_slots (err e, blocks) rest = (err e, blocks)
then_slots (ok u, blocks) rest = rest blocks

-- What `ufs_bget` finds of a block: no buffer can be had, one that is not up to date, or one that is.
pub data Buffer : Type 0 where
  no_buffer stale current : Buffer

-- A buffer is filled without a read, marked dirty and synced: `ufs_sync_buf` passes over one that is not
-- up to date, and the next `ufs_bread` reads the block of the device over it.
pub fill_block : ℕ → Buffer → List ℕ → Blocks → Blocks
fill_block p no_buffer bytes blocks = blocks
fill_block p stale bytes blocks = blocks
fill_block p current bytes blocks = put_block blocks p bytes

-- `memory`, `limit`, `wrote` and `synced` are those of Fat/Grow, `is_root` says that the directory is
-- the root, and `got` what `ufs_bget` finds of each block.
module _ (T : FatTable) (sb : SbInfo) (memory : Bool) (limit : ℕ) (wrote : Outcome (Unit {0}))
    (synced : Blocks → Blocks) (got : ℕ → Buffer) where
  -- The blocks of a cluster are zeroed, `n` of them from `blknr` on.
  pub zero_blocks : ℕ → ℕ → Blocks → Blocks
  zero_blocks blknr zero blocks = blocks
  zero_blocks blknr (suc n) blocks =
      zero_blocks (blknr + 1) n (fill_block blknr (got blknr) (replicate sb.s_blocksize 0) blocks)

  module _ (is_root : Bool) where
    -- `fat_bmap` of the directory.
    abbrev pub bmap_in : DirState T → ℕ → Outcome Mapping
    bmap_in st = plain_bmap T st.fs.image memory limit sb is_root st.node.i_start

    pub write_slots :
        (ℕ → Outcome Mapping) → ℕ → List DirEntry → Blocks → Outcome (Unit {0}) × Blocks
    write_slots bmap pos [] blocks = (ok tt, blocks)
    write_slots bmap pos (slot ∷ slots) blocks =
        then_slots
          (write_slot (pos % 2 ^ sb.s_blocksize_bits) slot
            (phys_or_error (bmap (pos / 2 ^ sb.s_blocksize_bits))) blocks)
          (write_slots bmap (pos + entry_size) slots)

    -- The entry is read again for `sinfo->de`.
    pub reread_in : Slot → ℕ → Option (List ℕ) → Slot
    reread_in sinfo offset none = sinfo
    reread_in sinfo offset (some bytes) = record sinfo { de = some (decode bytes offset) }

    pub reread : Slot → ℕ → Option ℕ → Blocks → Slot
    reread sinfo offset none blocks = sinfo
    reread sinfo offset (some p) blocks = reread_in sinfo offset (blocks p)

    pub slots_written :
        DirState T
        → Slot
        → ℕ
        → ℕ
        → Outcome (Unit {0}) × Blocks
        → Option (Outcome (Unit {0}) × Slot × DirState T)
    slots_written st sinfo free_pos nr_slots (err e, blocks) =
        some (err e, sinfo, record st { blocks = blocks })
    slots_written st sinfo free_pos nr_slots (ok u, blocks) = some (
      ok tt,
      reread (record sinfo { i_pos = free_pos; nr_slots = nr_slots })
          (sinfo.slot_off % 2 ^ sb.s_blocksize_bits)
          (phys_of (bmap_in st (sinfo.slot_off / 2 ^ sb.s_blocksize_bits))) blocks,
      record st { blocks = blocks },
    )

    -- From the label `write_entries` on.
    pub write_entries :
        DirState T → Slot → ℕ → List DirEntry → Option (Outcome (Unit {0}) × Slot × DirState T)
    write_entries st sinfo free_pos slots =
        slots_written st sinfo free_pos (length slots)
          (write_slots (bmap_in st) free_pos slots st.blocks)

    -- The directory has got a cluster: its blocks are zeroed, and the entries go to its old end.
    pub in_new_cluster :
        DirState T → Slot → ℕ → List DirEntry → Option (Outcome (Unit {0}) × Slot × DirState T)
    in_new_cluster st sinfo cluster slots =
        write_entries
          (record st {
            i_size = st.i_size + sb.cluster_size;
            blocks = zero_blocks (fat_clus_to_blknr sb cluster) sb.sec_per_clus st.blocks;
          })
          (record sinfo { slot_off = st.i_size }) st.i_size slots

    pub given_back :
        DirState T
        → Slot
        → Errno
        → Option (Outcome (Unit {0}) × Fs T)
        → Option (Outcome (Unit {0}) × Slot × DirState T)
    given_back st sinfo e none = none
    given_back st sinfo e (some (r, fs)) = some (err e, sinfo, record st { fs = fs })

    pub cluster_chained :
        DirState T
        → Slot
        → ℕ
        → List DirEntry
        → Option (Outcome (Unit {0}) × Node × Fs T × Blocks)
        → Option (Outcome (Unit {0}) × Slot × DirState T)
    cluster_chained st sinfo cluster slots none = none
    cluster_chained st sinfo cluster slots (some (err e, node, fs, blocks)) =
        given_back (record st { node = node; fs = fs; blocks = blocks }) sinfo e
          (fat_free_clusters T fs cluster)
    cluster_chained st sinfo cluster slots (some (ok u, node, fs, blocks)) =
        in_new_cluster (record st { node = node; fs = fs; blocks = blocks }) sinfo cluster slots

    pub extend_dir :
        DirState T
        → Slot
        → List DirEntry
        → Option (Outcome ℕ × Fs T)
        → Option (Outcome (Unit {0}) × Slot × DirState T)
    extend_dir st sinfo slots none = none
    extend_dir st sinfo slots (some (err e, fs)) = some (err e, sinfo, record st { fs = fs })
    extend_dir st sinfo slots (some (ok cluster, fs)) =
        cluster_chained (record st { fs = fs }) sinfo cluster slots
          (fat_chain_add T memory limit sb.cluster_bits wrote synced st.node fs st.blocks cluster 1)

    pub after_search :
        DirState T
        → Slot
        → List DirEntry
        → Option (Bool × FreeRun)
        → Option (Outcome (Unit {0}) × Slot × DirState T)
    after_search st sinfo slots none = none
    after_search st sinfo slots (some (found, s)) =
        let sinfo' = record sinfo { slot_off = s.slot_off } in
        if found
        then write_entries st sinfo' s.free_pos slots
        else extend_dir st sinfo' slots (fat_alloc_clusters T st.fs 1)

    -- `fat_add_entries`; a block holds a number of entries.
    pub fat_add_entries :
        sb.dir_per_block * entry_size ≡ 2 ^ sb.s_blocksize_bits
        → 0 < sb.dir_per_block
        → DirState T
        → Slot
        → List DirEntry
        → Option (Outcome (Unit {0}) × Slot × DirState T)
    fat_add_entries fill some_entry st sinfo slots = after_search st sinfo slots (
        find_slots (view T sb memory limit is_root fill some_entry st) (length slots)
          sinfo.slot_off)
