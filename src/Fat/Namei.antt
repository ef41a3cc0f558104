-- ===== src/Fat/Namei.antt =====
-- Names in a directory: `vfat_lookup`, `vfat_create`, `vfat_unlink`, `vfat_mkdir`, `vfat_rmdir` and
-- `vfat_rename2` of src/fs/fat/src/namei.c, with `fat_build_inode`, `fat_attach` (vfs_inode.c) and
-- `fat_alloc_new_dir` (dir.c). The hash table of inodes is the list of those attached, newest first.
pub mod Make
pub mod Tests
pub mod NewEntry
pub mod Search
pub mod Unlink
use userfs.Prelude.{
  ℕ, zero, suc, ◌+◌, ◌-◌, ◌*◌, ◌/◌, ◌%◌, ◌^◌, ◌≡◌, ◌<◌, Bool, true, false, Option, none, some,
  Outcome, ok, err, Errno, enomem, enotdir, enotempty, List, [], ◌∷◌, ◌++◌, replicate, bit_or, ◌==◌,
  not, if◌then◌else◌,
}
use userfs.Fat.Table.{FatTable}
use userfs.Fat.Alloc.{Fs, fat_alloc_clusters, fat_free_clusters}
use userfs.Fat.Mount.{SbInfo}
use userfs.Fat.Bmap.{fat_clus_to_blknr}
use userfs.Fat.Times.{FatTime}
use userfs.Fat.Words.{Blocks}
use userfs.Fat.ShortName.{vfat_build_sfn}
use userfs.Fat.DirEntry.{DirEntry, entry_size, encode, write_at, attr_dir, fat_set_start}
use userfs.Fat.Inode.{Inode, MountOptions, fat_alloc_inode, fat_fill_inode, s_isdir}
use userfs.Fat.Dir.{DirBlocks}
use userfs.Fat.Dir.Scan.{Slot, fat_dir_empty}
use userfs.Fat.Dir.Search.{fat_search_long}
use userfs.Fat.Dir.Remove.{fat_remove_entries}
use userfs.Fat.Dir.View.{DirState, view}
use userfs.Fat.Dir.Add.{Buffer, no_buffer, stale, current, fill_block, fat_add_entries}

abbrev pub attr_arch : ℕ
attr_arch = 32

-- `memset(&sinfo, 0, sizeof(sinfo))`
abbrev pub zeroed : Slot
zeroed = record { i_pos = 0; slot_off = 0; nr_slots = 0; de = none }

-- A new entry: `memset`, the short name, the attribute, the times, the first cluster and size 0.
abbrev pub blank_entry : List ℕ → ℕ → DirEntry
blank_entry name attr = record {
  name = name;
  attr = attr;
  lcase = 0;
  ctime_cs = 0;
  ctime = 0;
  cdate = 0;
  adate = 0;
  starthi = 0;
  time = 0;
  date = 0;
  start = 0;
  size = 0;
}

unfoldable pub new_entry : List ℕ → ℕ → FatTime → ℕ → DirEntry
new_entry sfn attr now cluster =
    fat_set_start
      (record (blank_entry sfn attr) {
        time = now.time;
        date = now.date;
        ctime = now.time;
        cdate = now.date;
        adate = now.date;
      })
      cluster

-- "." and ".." as `fat_alloc_new_dir` builds them: no date of access.
pub dot_entry : List ℕ → FatTime → ℕ → DirEntry
dot_entry name now cluster =
    fat_set_start
      (record (blank_entry name attr_dir) {
        time = now.time;
        date = now.date;
        ctime = now.time;
        cdate = now.date;
      })
      cluster

abbrev pub dot_name : List ℕ
dot_name = 46 ∷ replicate 10 32

abbrev pub dotdot_name : List ℕ
dotdot_name = 46 ∷ 46 ∷ replicate 9 32

-- The directory that a call works on, the counter of inode numbers, and the attached inodes.
pub record Names (T : FatTable) : Type 0 where
  pub dir : DirState T
  pub next_ino : ℕ
  pub inodes : List Inode

-- What a call takes from outside: `memory` to `got` and `is_root` are those of Fat/Dir/Add, `lower` and
-- `upper` are what `strncasecmp` and `toupper` of the C library make of a byte, `options` are the mount
-- options, `can_alloc` says whether `calloc` of an inode succeeds, and `now` is the present time as
-- `fat_time_unix2fat` packs it.
pub record Env (T : FatTable) : Type 0 where
  pub sb : SbInfo
  pub memory : Bool
  pub limit : ℕ
  pub wrote : Outcome (Unit {0})
  pub synced : Blocks → Blocks
  pub got : ℕ → Buffer
  pub is_root : Bool
  pub fill : sb.dir_per_block * entry_size ≡ 2 ^ sb.s_blocksize_bits
  pub some_entry : 0 < sb.dir_per_block
  pub lower : ℕ → ℕ
  pub upper : ℕ → ℕ
  pub options : MountOptions
  pub can_alloc : Bool
  pub now : FatTime

abbrev pub with_fs : {T : FatTable} → Names T → Fs T → Names T
with_fs st fs = record st { dir = record st.dir { fs = fs } }

-- A directory as the scans read it.
abbrev pub seen : (T : FatTable) → Env T → Bool → DirState T → DirBlocks
seen T v is_root dir = view T v.sb v.memory v.limit is_root v.fill v.some_entry dir

module _ (T : FatTable) (v : Env T) where
  open v use {sb, is_root, lower, options, can_alloc}

  abbrev pub dir_of : Names T → DirBlocks
  dir_of st = seen T v is_root st.dir

  -- `fat_attach`
  pub fat_attach : Inode → ℕ → Names T → Inode × Names T
  fat_attach inode i_pos st =
      let inode' = record inode { i_pos = i_pos } in
      (inode', record st { inodes = inode' ∷ st.inodes })

  -- `fat_alloc_inode`
  pub new_inode : Names T → Option (Inode × Names T)
  new_inode st =
      let (inode, next) = fat_alloc_inode st.next_ino in
      if can_alloc then some (inode, record st { next_ino = next }) else none

  -- `fat_build_inode`
  pub build_with : DirEntry → ℕ → Option (Inode × Names T) → Option (Inode × Names T)
  build_with de i_pos none = none
  build_with de i_pos (some (inode, st)) =
      some (fat_attach (fat_fill_inode options (sb.fat_bits == 32) inode de) i_pos st)

  pub fat_build_inode : DirEntry → ℕ → Names T → Option (Inode × Names T)
  fat_build_inode de i_pos st = build_with de i_pos (new_inode st)

  -- What follows a search and `fat_build_inode` of what it found. `none` stands for fuel that ran out,
  -- and for the use of `sinfo.de` where it is NULL.
  pub built :
      {R : Type 0}
      → Names T
      → Slot
      → Option (Inode × Names T)
      → (Slot → Inode → Names T → Option (Outcome R × Names T))
      → Option (Outcome R × Names T)
  built st s none k = some (err enomem, st)
  built st s (some (inode, st')) k = k s inode st'

  pub found_entry :
      {R : Type 0}
      → Names T
      → Slot
      → Option DirEntry
      → (Slot → Inode → Names T → Option (Outcome R × Names T))
      → Option (Outcome R × Names T)
  found_entry st s none k = none
  found_entry st s (some de) k = built st s (fat_build_inode de s.i_pos st) k

  pub searched :
      {R : Type 0}
      → Names T
      → Option (Outcome (Unit {0}) × Slot)
      → (Slot → Inode → Names T → Option (Outcome R × Names T))
      → Option (Outcome R × Names T)
  searched st none k = none
  searched st (some (err e, s)) k = some (err e, st)
  searched st (some (ok u, s)) k = found_entry st s s.de k

  pub with_found :
      {R : Type 0}
      → Names T
      → List ℕ
      → (Slot → Inode → Names T → Option (Outcome R × Names T))
      → Option (Outcome R × Names T)
  with_found st name k = searched st (fat_search_long (dir_of st) lower name zeroed) k

  -- `vfat_lookup`
  pub vfat_lookup : Names T → List ℕ → Option (Outcome Inode × Names T)
  vfat_lookup st name = with_found st name (λ s inode st'. some (ok inode, st'))

  -- `inode->i_nlink = 0` of the inode attached last.
  pub unlinked : List Inode → List Inode
  unlinked [] = []
  unlinked (inode ∷ l) = record inode { i_nlink = 0 } ∷ l

  -- The clusters are freed, whose result is not looked at, and the entry is removed.
  pub entry_removed : Names T → Outcome (Unit {0}) × Blocks → Outcome (Unit {0}) × Names T
  entry_removed st (r, blocks) =
      (r, record st { dir = record st.dir { blocks = blocks }; inodes = unlinked st.inodes })

  pub remove_entry : Names T → Slot → Outcome (Unit {0}) × Names T
  remove_entry st s = entry_removed st (fat_remove_entries (dir_of st) s st.dir.blocks)

  pub clusters_freed :
      Names T → Slot → Option (Outcome (Unit {0}) × Fs T) → Option (Outcome (Unit {0}) × Names T)
  clusters_freed st s none = none
  clusters_freed st s (some (r, fs)) = some (remove_entry (with_fs st fs) s)

  pub remove_file : Slot → Inode → Names T → Option (Outcome (Unit {0}) × Names T)
  remove_file s inode st =
      if inode.node.i_start == 0
      then some (remove_entry st s)
      else clusters_freed st s (fat_free_clusters T st.dir.fs inode.node.i_start)

  -- `vfat_unlink`
  pub vfat_unlink : Names T → List ℕ → Option (Outcome (Unit {0}) × Names T)
  vfat_unlink st name = with_found st name remove_file

  -- `vfat_rmdir`
  pub remove_empty : Slot → Inode → Names T → Option Bool → Option (Outcome (Unit {0}) × Names T)
  remove_empty s inode st none = none
  remove_empty s inode st (some is_empty) =
      if is_empty then remove_file s inode st else some (err enotempty, st)

  pub remove_dir : Slot → Inode → Names T → Option (Outcome (Unit {0}) × Names T)
  remove_dir s inode st =
      if s_isdir inode.i_mode
      then remove_empty s inode st (
          fat_dir_empty
            (seen T v false (record st.dir { node = inode.node; i_size = inode.i_size })))
      else some (err enotdir, st)

  pub vfat_rmdir : Names T → List ℕ → Option (Outcome (Unit {0}) × Names T)
  vfat_rmdir st name = with_found st name remove_dir
