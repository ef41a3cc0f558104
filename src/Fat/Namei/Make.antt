-- ===== src/Fat/Namei/Make.antt =====
-- `vfat_create`, `vfat_mkdir` and `vfat_rename2` of src/fs/fat/src/namei.c, with `fat_alloc_new_dir` of
-- src/fs/fat/src/dir.c.
pub mod Create
pub mod Rename
pub mod Tests
use userfs.Prelude.{
  ℕ, ◌+◌, ◌*◌, ◌^◌, ◌≡◌, ◌<◌, Bool, true, false, Option, none, some, Outcome, ok, err, Errno,
  enomem, List, [], ◌∷◌, replicate, bit_or, ◌==◌, if◌then◌else◌,
}
use userfs.Fat.Table.{FatTable}
use userfs.Fat.Alloc.{Fs, fat_alloc_clusters, fat_free_clusters}
use userfs.Fat.Mount.{SbInfo}
use userfs.Fat.Bmap.{fat_clus_to_blknr}
use userfs.Fat.Times.{FatTime}
use userfs.Fat.ShortName.{vfat_build_sfn}
use userfs.Fat.DirEntry.{DirEntry, entry_size, encode, write_at, attr_dir}
use userfs.Fat.Inode.{Inode, MountOptions, file_ops}
use userfs.Fat.Dir.{DirBlocks}
use userfs.Fat.Dir.Scan.{Slot}
use userfs.Fat.Dir.Search.{fat_search_long}
use userfs.Fat.Dir.Remove.{fat_remove_entries, on_blocks}
use userfs.Fat.Dir.View.{DirState, view}
use userfs.Fat.Dir.Add.{Buffer, no_buffer, stale, current, fill_block, fat_add_entries}
use userfs.Fat.Words.{Blocks}
use userfs.Fat.Namei.{
  Names, Env, seen, zeroed, new_entry, dot_entry, dot_name, dotdot_name, attr_arch, dir_of, with_fs,
  fat_attach, new_inode,
}

module _ (T : FatTable) (v : Env T) where
  open v use {sb, is_root, got, upper, now}

  -- A call of `fat_add_entries` has failed: its clusters are freed, and so is the inode.
  pub not_added :
      {R : Type 0}
      → Names T
      → Errno
      → Option (Outcome (Unit {0}) × Fs T)
      → Option (Outcome R × Names T)
  not_added st e none = none
  not_added st e (some (r, fs)) = some (err e, with_fs st fs)

  -- `vfat_create`, from its end: the fields of the inode of a new file.
  pub file_inode : Inode → ℕ → ℕ → Inode
  file_inode inode cluster slot_off = record inode {
    i_mode = bit_or (8 * 2 ^ 12) 420;
    i_size = 0;
    i_pos = slot_off;
    ops = file_ops;
    node = record inode.node { i_start = cluster; i_logstart = cluster; mmu_private = 0 };
  }

  pub file_added :
      Inode
      → ℕ
      → Names T
      → Option (Outcome (Unit {0}) × Slot × DirState T)
      → Option (Outcome Inode × Names T)
  file_added inode cluster st none = none
  file_added inode cluster st (some (err e, s, dir)) =
      not_added (record st { dir = dir }) e (fat_free_clusters T dir.fs cluster)
  file_added inode cluster st (some (ok u, s, dir)) =
      let (inode', st') =
        fat_attach T v (file_inode inode cluster s.slot_off) s.slot_off (record st { dir = dir }) in
      some (ok inode', st')

  -- `fat_add_entries` of one entry to the directory.
  pub add_one : Names T → Slot → DirEntry → Option (Outcome (Unit {0}) × Slot × DirState T)
  add_one st s de =
      fat_add_entries T sb v.memory v.limit v.wrote v.synced got is_root v.fill v.some_entry st.dir
        s (de ∷ [])

  pub first_cluster_taken :
      List ℕ → Inode → Names T → Option (Outcome ℕ × Fs T) → Option (Outcome Inode × Names T)
  first_cluster_taken name inode st none = none
  first_cluster_taken name inode st (some (err e, fs)) = some (err e, with_fs st fs)
  first_cluster_taken name inode st (some (ok cluster, fs)) =
      file_added inode cluster (with_fs st fs) (
        add_one (with_fs st fs) zeroed
          (new_entry (vfat_build_sfn upper name) attr_arch now cluster))

  pub with_inode :
      {R : Type 0}
      → Names T
      → Option (Inode × Names T)
      → (Inode → Names T → Option (Outcome R × Names T))
      → Option (Outcome R × Names T)
  with_inode st none k = some (err enomem, st)
  with_inode st (some (inode, st')) k = k inode st'

  -- `fat_alloc_inode`
  pub alloc_inode : Names T → Option (Inode × Names T)
  alloc_inode st = new_inode T v st

  pub vfat_create : Names T → List ℕ → Option (Outcome Inode × Names T)
  vfat_create st name =
      with_inode st (alloc_inode st)
        (λ inode st'. first_cluster_taken name inode st' (fat_alloc_clusters T st'.dir.fs 1))

  -- The block that `fat_alloc_new_dir` fills.
  abbrev pub first_dir_block : ℕ → ℕ → List ℕ
  first_dir_block cluster parent =
      write_at (write_at (replicate sb.s_blocksize 0) 0 (encode (dot_entry dot_name now cluster)))
        entry_size (encode (dot_entry dotdot_name now parent))

  -- `fat_alloc_new_dir` after the cluster is taken, by what `ufs_bget` finds of its first block.
  pub new_dir_filled : Names T → ℕ → Buffer → Option (Outcome ℕ × Names T)
  new_dir_filled st cluster no_buffer = not_added st enomem (fat_free_clusters T st.dir.fs cluster)
  new_dir_filled st cluster stale = some (ok cluster, st)
  new_dir_filled st cluster current = some (
    ok cluster,
    record st {
      dir = record st.dir {
        blocks =
            fill_block (fat_clus_to_blknr sb cluster) current
              (first_dir_block cluster st.dir.node.i_start) st.dir.blocks;
      };
    },
  )

  pub new_dir_taken : Names T → Option (Outcome ℕ × Fs T) → Option (Outcome ℕ × Names T)
  new_dir_taken st none = none
  new_dir_taken st (some (err e, fs)) = some (err e, with_fs st fs)
  new_dir_taken st (some (ok cluster, fs)) =
      new_dir_filled (with_fs st fs) cluster (got (fat_clus_to_blknr sb cluster))

  pub fat_alloc_new_dir : Names T → Option (Outcome ℕ × Names T)
  fat_alloc_new_dir st = new_dir_taken st (fat_alloc_clusters T st.dir.fs 1)

  -- `vfat_mkdir`
  pub dir_inode : Inode → ℕ → Inode
  dir_inode inode cluster = record inode {
    i_mode = bit_or (4 * 2 ^ 12) 493;
    i_size = sb.cluster_size;
    node = record inode.node { i_start = cluster; i_logstart = cluster };
  }

  pub dir_added :
      Inode
      → ℕ
      → Names T
      → Option (Outcome (Unit {0}) × Slot × DirState T)
      → Option (Outcome Inode × Names T)
  dir_added inode cluster st none = none
  dir_added inode cluster st (some (err e, s, dir)) =
      not_added (record st { dir = dir }) e (fat_free_clusters T dir.fs cluster)
  dir_added inode cluster st (some (ok u, s, dir)) =
      let (inode', st') = fat_attach T v (dir_inode inode cluster) 0 (record st { dir = dir }) in
      some (ok inode', st')

  pub new_dir_made :
      List ℕ → Inode → Option (Outcome ℕ × Names T) → Option (Outcome Inode × Names T)
  new_dir_made name inode none = none
  new_dir_made name inode (some (err e, st)) = some (err e, st)
  new_dir_made name inode (some (ok cluster, st)) =
      dir_added inode cluster st
        (add_one st zeroed (new_entry (vfat_build_sfn upper name) attr_dir now cluster))

  pub vfat_mkdir : Names T → List ℕ → Option (Outcome Inode × Names T)
  vfat_mkdir st name =
      with_inode st (alloc_inode st) (λ inode st'. new_dir_made name inode (fat_alloc_new_dir st'))

  -- `vfat_rename2`: the calls are on the new directory; the old one is `old_dir`, which is the new one
  -- again where `same_dir` holds. The blocks and the table of the volume are those of the new directory.
  module _ (same_dir old_is_root : Bool) (old_dir : DirState T) where
    -- The old directory as the scans read it.
    pub old_seen : Names T → DirBlocks
    old_seen st =
        if same_dir
        then dir_of T v st
        else seen T v old_is_root (record old_dir { fs = st.dir.fs; blocks = st.dir.blocks })

    pub blocks_after : Names T → Outcome (Unit {0}) × Blocks → Outcome (Unit {0}) × Names T
    blocks_after st (r, blocks) = (r, record st { dir = record st.dir { blocks = blocks } })

    -- What follows `fat_add_entries`.
    pub old_removed :
        Names T
        → Slot
        → Option (Outcome (Unit {0}) × Slot × DirState T)
        → Option (Outcome (Unit {0}) × Names T)
    old_removed st old_slot none = none
    old_removed st old_slot (some (err e, s, dir)) = some (err e, record st { dir = dir })
    old_removed st old_slot (some (ok u, s, dir)) =
        let st' = record st { dir = dir } in
        some (blocks_after st' (fat_remove_entries (old_seen st') old_slot st'.dir.blocks))

    -- The copy of the entry under the new name.
    pub renamed_entry : List ℕ → DirEntry → DirEntry
    renamed_entry new_name de = record de {
      name = vfat_build_sfn upper new_name;
      time = now.time;
      date = now.date;
    }

    pub move_entry :
        Names T → Slot → Option DirEntry → List ℕ → Option (Outcome (Unit {0}) × Names T)
    move_entry st old_slot none new_name = none
    move_entry st old_slot (some de) new_name =
        old_removed st old_slot (add_one st zeroed (renamed_entry new_name de))

    -- A target that is there is removed first; its clusters stay taken.
    pub target_removed : Names T → Option (Outcome (Unit {0}) × Slot) → Option (Names T)
    target_removed st none = none
    target_removed st (some (err e, s)) = some st
    target_removed st (some (ok u, s)) =
        some (blocks_after st (fat_remove_entries (dir_of T v st) s st.dir.blocks)).1

    pub then_move : Slot → List ℕ → Option (Names T) → Option (Outcome (Unit {0}) × Names T)
    then_move old_slot new_name none = none
    then_move old_slot new_name (some st) = move_entry st old_slot old_slot.de new_name

    pub old_found :
        Names T
        → List ℕ
        → Option (Outcome (Unit {0}) × Slot)
        → Option (Outcome (Unit {0}) × Names T)
    old_found st new_name none = none
    old_found st new_name (some (err e, s)) = some (err e, st)
    old_found st new_name (some (ok u, s)) =
        then_move s new_name
          (target_removed st (fat_search_long (dir_of T v st) v.lower new_name zeroed))

    pub vfat_rename2 : Names T → List ℕ → List ℕ → Option (Outcome (Unit {0}) × Names T)
    vfat_rename2 st old_name new_name =
        old_found st new_name (fat_search_long (old_seen st) v.lower old_name zeroed)
