-- ===== src/Fat/Dir/Tests.antt =====
-- A root directory of two blocks of 64 bytes, with the file `A.TXT`, a deleted entry and free entries.
use userfs.Prelude.{
  get_elem?, ◌%◌, ◌/◌, ◌+◌, ◌*◌, ◌^◌, ok, length, ℕ, ◌≡◌, refl, arith, Bool, true, false, Option,
  none, some, Outcome, List, [], ◌∷◌, ◌++◌, drop, replicate, ◌==◌, if◌then◌else◌, All,
}
use userfs.Fat.DirEntry.{DirEntry, encode, store_fields, le_bytes, deleted_flag, is_free}
use userfs.Fat.DirEntry.Tests.{file_entry}
use userfs.Fat.Mount.{SbInfo}
use userfs.Fat.Bmap.{fat_bmap, root_mapping}
use userfs.Fat.ClusterCache.{Cache}
use userfs.Fat.GetCluster.Sound.{IsRun}
use userfs.Fat.Tests.{table, image, image-IsReady}
use userfs.Fat.Grow.Tests.{rest, image-Linked}
use userfs.Fat.Dir.{DirBlocks, phys_of}
use userfs.Fat.Dir.Remove.{fat_remove_entries, on_blocks}
use userfs.Fat.Dir.Remove.Update.{replace_at}
use userfs.Fat.Dir.Remove.Correct.{slot_of, fat_remove_entries_lem}
use userfs.Fat.DirEntry.Bytes.{renamed}
use userfs.Fat.Dir.Entries.{entries}
use userfs.Fat.Dir.Blocks.{root_blocks}
use userfs.Fat.Bmap.Sectors.{in_cluster, fat_bmap-Linked}
use userfs.Fat.Dir.Scan.{Slot, Dirent, fat_readdir, visible, feed, first}
use userfs.Fat.Dir.Scan.Correct.{fat_readdir_lem}
use userfs.Fat.Dir.Search.{fat_search_long}
use userfs.Fat.Dir.Search.Correct.{is_match, Answer, fat_search_long_lem}

abbrev pub small_sb : SbInfo
small_sb = record {
  s_blocksize = 64;
  s_blocksize_bits = 6;
  sec_per_clus = 2;
  cluster_size = 128;
  cluster_bits = 10;
  fats = 1;
  fat_start = 1;
  fat_length = 1;
  dir_entries = 4;
  dir_start = 2;
  data_start = 4;
  max_cluster = 6;
  root_cluster = 0;
  fsinfo_sector = 0;
  fat_bits = 16;
  vol_id = 0;
  dir_per_block = 2;
  dir_per_block_bits = 1;
  prev_free = 2;
  free_clusters = 1;
  free_clus_valid = true;
}

abbrev deleted : DirEntry
deleted = record file_entry { name = 0xe5 ∷ drop 1 file_entry.name }

abbrev pub dir_block : ℕ → Option (List ℕ)
dir_block b = if b == 2 then some (encode deleted ++ encode file_entry) else some (replicate 64 0)

abbrev pub small_dir : DirBlocks
small_dir = root_blocks small_sb dir_block refl (omega arith)

-- Upper case is taken to lower case.
abbrev lower : ℕ → ℕ
lower c = if c == 65 then 97 else c

abbrev zero_slot : Slot
zero_slot = record { i_pos = 0; slot_off = 0; nr_slots = 0; de = none }

abbrev a_txt : List ℕ
a_txt = 97 ∷ 46 ∷ 84 ∷ 88 ∷ 84 ∷ []

fat_search_long_example :
    (r : Outcome (Unit {0}) × Slot) × (fat_search_long small_dir lower a_txt zero_slot ≡ some r)
    × Answer small_dir lower a_txt r (first (is_match small_dir lower a_txt) (entries small_dir))
fat_search_long_example = fat_search_long_lem small_dir lower a_txt zero_slot refl

-- The callback that gathers the entries and never stops.
abbrev gather : List Dirent → Dirent → Bool × List Dirent
gather l e = (false, e ∷ l)

fat_readdir_example :
    fat_readdir small_dir gather [] ≡ some (feed gather (visible (entries small_dir)) [])
fat_readdir_example = fat_readdir_lem small_dir gather []

abbrev no_runs : Cache
no_runs = record { runs = []; nr_caches = 0; cache_valid_id = 1 }

fat_bmap-Linked_example :
    (c' : Cache) × (fat_bmap table image true 8 small_sb false 2 5 no_runs
      ≡ some (ok (in_cluster small_sb (get_elem? (2 ∷ rest) (5 / 2)) (5 % 2)), c'))
    × All (IsRun table image true 8 2) c'.runs
fat_bmap-Linked_example =
    fat_bmap-Linked table image true 8 small_sb 2 rest image-IsReady image-Linked (omega arith)
      false 5 1 no_runs refl refl refl tt

abbrev first_block : List ℕ
first_block = encode deleted ++ encode file_entry

first_mapped : phys_of (small_dir.bmap 0) ≡ some 2
unfolding phys_of root_mapping
first_mapped = refl

first_whole : length first_block ≡ 2 ^ 6
unfolding encode store_fields le_bytes
first_whole = refl

one_sector : (i : ℕ) → phys_of (small_dir.bmap i) ≡ some 2 → i ≡ 0
unfolding phys_of root_mapping
one_sector i e = ground arith

fat_remove_entries_example :
    let (r, blocks) = fat_remove_entries small_dir (slot_of small_dir 0 1 file_entry) dir_block in
    (r ≡ ok tt)
    × (entries (on_blocks small_dir blocks)
        ≡ replace_at (0 * 2 ^ 6 + 1 * 32) (renamed deleted_flag) (entries small_dir))
    × ((old : DirEntry) → is_free (renamed deleted_flag old) ≡ true)
fat_remove_entries_example =
    fat_remove_entries_lem small_dir 0 2 1 first_block first_mapped one_sector refl first_whole
      (omega arith) file_entry
