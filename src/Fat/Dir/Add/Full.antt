-- ===== src/Fat/Dir/Add/Full.antt =====
-- `fat_add_entries` of src/fs/fat/src/dir.c on a directory without a free entry.
use userfs.Prelude.{
  ℕ, ◌+◌, ◌-◌, ◌*◌, ◌/◌, ◌^◌, ◌≤◌, ◌<◌, ◌≡◌, refl, Bool, true, false, none, some, Outcome, ok, err,
  enospc, eio, [], ◌∷◌, ◌==◌, ◌⊎◌, inl, inr, le→ltb,
}
use userfs.Fat.Table.{FatTable}
use userfs.Fat.Alloc.{take_cluster}
use userfs.Fat.Alloc.Scan.{IsFree}
use userfs.Fat.Alloc.Correct.{alloc_finds, take_cluster_lem}
use userfs.Fat.Words.{Blocks}
use userfs.Fat.Mount.{SbInfo}
use userfs.Fat.Bmap.{root_mapping, plain_bmap}
use userfs.Fat.Grow.{count_blocks, first_cluster}
use userfs.Fat.Grow.Empty.{fat_chain_add-empty}
use userfs.Fat.DirEntry.{DirEntry, is_free, entry_size}
use userfs.Fat.Dir.Entries.{entries}
use userfs.Fat.Dir.Scan.{Slot, first}
use userfs.Fat.Dir.View.{DirState, view}
use userfs.Fat.Dir.Add.{
  Buffer, phys_or_error, write_slot, then_slots, write_slots, slots_written, write_entries,
  in_new_cluster, cluster_chained, extend_dir, after_search, fat_add_entries, zero_blocks,
}
use userfs.Fat.Dir.Add.Correct.{find_slots-full}

module _ (T : FatTable) (sb : SbInfo) (memory : Bool) (limit : ℕ) (wrote : Outcome (Unit {0}))
    (synced : Blocks → Blocks) (got : ℕ → Buffer) where
  -- What a full root directory of FAT12 or FAT16 is left as when the cluster `c` was taken for it.
  abbrev pub leaked : DirState T → ℕ → DirState T
  leaked st c = record {
    node =
        count_blocks T memory limit sb.cluster_bits wrote synced
          (record st.node { i_start = c; i_logstart = c }) 1;
    fs = take_cluster T st.fs c;
    i_size = st.i_size + sb.cluster_size;
    blocks =
        zero_blocks T sb memory limit wrote synced got ((c - 2) * sb.sec_per_clus + sb.data_start)
          sb.sec_per_clus (synced st.blocks);
  }

  past_root :
      (pos : ℕ)
      → sb.dir_entries / 2 ^ sb.dir_per_block_bits ≤ pos / 2 ^ sb.s_blocksize_bits
      → phys_or_error (ok (root_mapping sb (pos / 2 ^ sb.s_blocksize_bits))) ≡ err eio
  unfolding phys_or_error root_mapping
  past_root pos h =
      rw (le→ltb (pos / 2 ^ sb.s_blocksize_bits) (sb.dir_entries / 2 ^ sb.dir_per_block_bits) h)
        refl

  root_written :
      (st : DirState T) (sinfo : Slot) (e : DirEntry) (pos : ℕ)
      → (sb.fat_bits == 32) ≡ false
      → sb.dir_entries / 2 ^ sb.dir_per_block_bits ≤ pos / 2 ^ sb.s_blocksize_bits
      → write_entries T sb memory limit wrote synced got true st sinfo pos (e ∷ [])
        ≡ some (err eio, sinfo, st)
  unfolding write_entries write_slots write_slot then_slots slots_written plain_bmap
  root_written st sinfo e pos narrow past = rw (narrow, past_root pos past) refl

  grown :
      (st : DirState T) (sinfo : Slot) (e : DirEntry) (c : ℕ)
      → (sb.fat_bits == 32) ≡ false
      → st.node.i_start ≡ 0
      → sb.dir_entries / 2 ^ sb.dir_per_block_bits ≤ st.i_size / 2 ^ sb.s_blocksize_bits
      → extend_dir T sb memory limit wrote synced got true st sinfo
          (e ∷ [])
          (some (ok c, take_cluster T st.fs c))
        ≡ some (err eio, record sinfo { slot_off = st.i_size }, leaked st c)
  unfolding extend_dir cluster_chained in_new_cluster first_cluster
  grown st sinfo e c narrow start past =
      rw
        (fat_chain_add-empty T memory limit sb.cluster_bits wrote synced st.node
          (take_cluster T st.fs c) st.blocks c 1 start)
        (root_written (leaked st c) (record sinfo { slot_off = st.i_size }) e st.i_size narrow past)

  -- Where a root directory of FAT12 or FAT16, whose `i_start` is 0 as a mount sets it and whose size is
  -- not below that of its sectors, has no free entry, the new entry is refused: with ENOSPC and nothing
  -- changed when no cluster is free, and otherwise with EIO after a free cluster was taken. This cluster
  -- is the first of the directory from then on, and its entry in the table is an end mark.
  pub full_root-leaked :
      (fill : sb.dir_per_block * entry_size ≡ 2 ^ sb.s_blocksize_bits)
      (some_entry : 0 < sb.dir_per_block) (st : DirState T) (sinfo : Slot) (e : DirEntry)
      → (sb.fat_bits == 32) ≡ false
      → st.node.i_start ≡ 0
      → sb.dir_entries / 2 ^ sb.dir_per_block_bits ≤ st.i_size / 2 ^ sb.s_blocksize_bits
      → first is_free (entries (view T sb memory limit true fill some_entry st)) ≡ none
      → T.IsReady st.fs.image
      → 2 ≤ st.fs.prev_free
      → st.fs.prev_free < T.max_cluster
      → ((c : ℕ) × (s : Slot) × IsFree T st.fs.image c
          × (T.max_fat ≤ T.get (leaked st c).fs.image c)
          × ((leaked st c).node.i_start ≡ c)
          × (fat_add_entries T sb memory limit wrote synced got true fill some_entry st sinfo
                (e ∷ [])
              ≡ some (err eio, s, leaked st c)))
        ⊎ (((j : ℕ) → ¬ IsFree T st.fs.image j)
            × ((s : Slot) × (fat_add_entries T sb memory limit wrote synced got true fill some_entry
                    st sinfo
                    (e ∷ [])
                  ≡ some (err enospc, s, st))))
  unfolding fat_add_entries after_search extend_dir count_blocks
  full_root-leaked fill some_entry st sinfo e narrow start past full ready lo hi =
      elim (alloc_finds T st.fs ready lo hi) [
        | inl (c, free, taken) ↦ inl (
          c,
          record sinfo { slot_off = st.i_size },
          free,
          (take_cluster_lem T st.fs c ready free).1,
          refl,
          rw
              (
                find_slots-full (view T sb memory limit true fill some_entry st) sinfo.slot_off
                    full,
                taken,
              )
              (grown st (record sinfo { slot_off = sinfo.slot_off }) e c narrow start past),
        )
        | inr (none_free, refused) ↦ inr (
          none_free,
          (
            sinfo,
            rw
                (
                  find_slots-full (view T sb memory limit true fill some_entry st) sinfo.slot_off
                      full,
                  refused,
                )
                refl,
          ),
        )
      ]
