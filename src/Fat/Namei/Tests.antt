-- ===== src/Fat/Namei/Tests.antt =====
-- A root directory of two blocks with the file `A.TXT` on the chain 2, 3, 4, after a deleted entry.
use userfs.Prelude.{
  ℕ, ◌≡◌, ◌⊎◌, inl, inr, refl, arith, true, false, none, some, ok, err, enoent, enospc, List, [],
  ◌∷◌, ◌++◌, drop, replicate, length, length-replicate, ◌==◌, if◌then◌else◌, Bool-cases, ap, ◌∙◌,
  subst,
}
use userfs.Fat.Words.{Blocks, load}
use userfs.Fat.DirEntry.{
  DirEntry, encode, store_fields, le_bytes, decode, bytes_at, load_fields, is_free, has_attr,
  deleted_flag,
}
use userfs.Fat.DirEntry.Bytes.{renamed}
use userfs.Fat.DirEntry.Tests.{file_entry}
use userfs.Fat.Tests.{table, image, image-IsReady, image-Chain}
use userfs.Fat.Grow.Tests.{volume_state}
use userfs.Fat.Grow.{Node}
use userfs.Fat.Bmap.{plain_bmap, root_mapping}
use userfs.Fat.Dir.{phys_of}
use userfs.Fat.Dir.Entries.{entries, sector_entries, mapped_entries, readable, block_entries}
use userfs.Fat.Dir.Scan.{first, count, c_string}
use userfs.Fat.Dir.Search.{is_named, same_case}
use userfs.Fat.ShortName.{fat_parse_short, until_blank, unescape, extension}
use userfs.Fat.Dir.Tests.{small_sb}
use userfs.Fat.Dir.Add.{current}
use userfs.Fat.Dir.Located.{IsDir}
use userfs.Fat.DirEntry.{fat_get_start}
use userfs.Fat.Alloc.{take_cluster}
use userfs.Fat.Alloc.Scan.{IsFree}
use userfs.Fat.Alloc.FreeChain.{Freed}
use userfs.Fat.Inode.{fat_alloc_inode}
use userfs.Fat.Dir.Remove.Update.{replace_at}
use userfs.Fat.Dir.Add.{fat_add_entries}
use userfs.Fat.Dir.Add.Found.{fat_add_entries_lem}
use userfs.Fat.DirEntry.Tests.{file_entry-IsDirEntry}
use userfs.Fat.Namei.{Names, Env, dir_of, blank_entry, zeroed, vfat_unlink, vfat_lookup}
use userfs.Fat.Namei.Search.{matches, built_inode, after_build}
use userfs.Fat.Namei.NewEntry.{IsShortName, name_of}
use userfs.Fat.Namei.Unlink.{fixed, vfat_unlink_lem}
use userfs.Fat.Namei.Make.{vfat_create}
use userfs.Fat.Namei.Make.Create.{made_inode, entry_for, vfat_create_lem}

abbrev pub linked : DirEntry
linked = record file_entry { start = 2 }

abbrev pub blank : DirEntry
blank = blank_entry (replicate 11 0) 0

abbrev pub deleted : DirEntry
deleted = record file_entry { name = 0xe5 ∷ drop 1 file_entry.name }

abbrev device : Blocks
device b = if b == 2 then some (encode deleted ++ encode linked) else some (replicate 64 0)

-- Upper case is taken to lower case.
abbrev pub lower : ℕ → ℕ
lower c = if c == 65 then 97 else c

abbrev pub env : Env table
env = record {
  sb = small_sb;
  memory = true;
  limit = 8;
  wrote = ok tt;
  synced = λ t. t;
  got = λ _. current;
  is_root = true;
  fill = refl;
  some_entry = omega arith;
  lower = lower;
  upper = λ c. c;
  options = record { fs_fmask = 18; fs_dmask = 18; rodir = false };
  can_alloc = true;
  now = record { time = 0; date = 33; time_cs = 0 };
}

abbrev pub root_node : Node
root_node = record {
  i_start = 0;
  i_logstart = 0;
  i_blocks = 0;
  mmu_private = 128;
  runs = record { runs = []; nr_caches = 0; cache_valid_id = 1 };
}

abbrev pub root : Names table
root = record {
  dir = record { node = root_node; fs = volume_state; i_size = 128; blocks = device };
  next_ino = 2;
  inodes = [];
}

abbrev pub a_txt : List ℕ
a_txt = 65 ∷ 46 ∷ 84 ∷ 88 ∷ 84 ∷ []

one_block :
    (i j q : ℕ)
    → phys_of ((dir_of table env root).bmap i) ≡ some q
    → phys_of ((dir_of table env root).bmap j) ≡ some q
    → i ≡ j
unfolding plain_bmap root_mapping phys_of
one_block i j q m n = ground arith

full_block : length (encode deleted ++ encode linked) ≡ 64
unfolding encode store_fields le_bytes
full_block = refl

whole_block : (q : ℕ) (bytes : List ℕ) → device q ≡ some bytes → length bytes ≡ 64
whole_block q bytes e = elim (Bool-cases (q == 2)) [
  | inl y ↦ sized (encode deleted ++ encode linked) full_block (rw y at e)
  | inr n ↦ sized (replicate 64 0) (length-replicate {A = ℕ} 64 0) (rw n at e)
]
  where
    sized : (l : List ℕ) → length l ≡ 64 → some l ≡ some bytes → length bytes ≡ 64
    sized l h p = subst (λ z. length z ≡ 64) (same p) h
      where
        same : some l ≡ some bytes → l ≡ bytes
        same k = cc

root-IsDir : IsDir (dir_of table env root)
root-IsDir = record { alone = one_block; whole = whole_block }

abbrev root_entries : List (ℕ × DirEntry)
root_entries = (0, deleted) ∷ (32, linked) ∷ (64, blank) ∷ (96, blank) ∷ []

entries_lem : entries (dir_of table env root) ≡ root_entries
unfolding plain_bmap root_mapping phys_of encode store_fields le_bytes entries sector_entries
    mapped_entries readable block_entries decode bytes_at load_fields load
entries_lem = refl

a_txt-first : first (matches table env root a_txt) root_entries ≡ some (32, linked)
unfolding is_free has_attr is_named same_case c_string fat_parse_short until_blank unescape
    extension
a_txt-first = refl

a_txt-once : count (matches table env root a_txt) root_entries ≡ 1
unfolding is_free has_attr is_named same_case c_string fat_parse_short until_blank unescape
    extension
a_txt-once = refl

free-first : first is_free root_entries ≡ some (0, deleted)
unfolding is_free
free-first = refl

first-entries : first is_free (entries (dir_of table env root)) ≡ some (0, deleted)
first-entries = ap (first is_free) entries_lem ∙ free-first

first-a_txt :
    first (matches table env root a_txt) (entries (dir_of table env root)) ≡ some (32, linked)
first-a_txt = ap (first (matches table env root a_txt)) entries_lem ∙ a_txt-first

once_a_txt : count (matches table env root a_txt) (entries (dir_of table env root)) ≡ 1
once_a_txt = ap (count (matches table env root a_txt)) entries_lem ∙ a_txt-once

vfat_unlink_example :
    (st' : Names table) × (vfat_unlink table env root a_txt ≡ some (ok tt, st'))
    × Freed table volume_state (2 ∷ 3 ∷ 4 ∷ []) st'.dir.fs
    × (entries (dir_of table env st')
        ≡ replace_at 32 (renamed deleted_flag) (entries (dir_of table env root)))
    × (vfat_lookup table env st' a_txt ≡ some (err enoent, st'))
unfolding fat_get_start
vfat_unlink_example =
    vfat_unlink_lem table env root a_txt 32 linked (2 ∷ 3 ∷ 4 ∷ []) refl root-IsDir image-IsReady
      (omega arith) first-a_txt once_a_txt (omega arith) image-Chain (fixed refl)

-- `B.C`
b_c-IsShortName : IsShortName (λ c. c) 66 [] 67 []
b_c-IsShortName = record {
  base_short = ((refl, refl, refl, refl), tt);
  ext_short = ((refl, refl, refl, refl), tt);
  base_fits = omega arith;
  ext_fits = omega arith;
  non_zero = ((λ p. omega arith), ((λ p. omega arith), ((λ p. omega arith), tt)));
  in_use = λ p. omega arith;
}

b_c-fresh :
    first (matches table env root (name_of 66 [] 67 [])) (entries (dir_of table env root)) ≡ none
unfolding is_free has_attr is_named same_case c_string fat_parse_short until_blank unescape
    extension
b_c-fresh = ap (first (matches table env root (name_of 66 [] 67 []))) entries_lem ∙ refl

vfat_create_example :
    ((c : ℕ) × (st' : Names table) × IsFree table image c
      × (vfat_create table env root (66 ∷ 46 ∷ 67 ∷ [])
          ≡ some (ok (made_inode table env root c 0), st'))
      × (st'.dir.fs ≡ take_cluster table volume_state c)
      × (entries (dir_of table env st')
          ≡ replace_at 0
              (λ _. entry_for table env (66 ∷ 46 ∷ 67 ∷ []) c)
              (entries (dir_of table env root)))
      × (vfat_lookup table env st' (66 ∷ 46 ∷ 67 ∷ [])
          ≡ some (
            ok (built_inode table env st' (entry_for table env (66 ∷ 46 ∷ 67 ∷ []) c) 0),
            after_build table env st' (entry_for table env (66 ∷ 46 ∷ 67 ∷ []) c) 0,
          )))
    ⊎ (((j : ℕ) → ¬ IsFree table image j)
        × (vfat_create table env root (66 ∷ 46 ∷ 67 ∷ [])
            ≡ some (err enospc, record root { next_ino = (fat_alloc_inode 2).1 })))
vfat_create_example =
    vfat_create_lem table env root 66 [] 67 [] 0 deleted refl b_c-IsShortName (omega arith)
      (omega arith) root-IsDir image-IsReady (omega arith) (omega arith) (fixed refl) first-entries
      b_c-fresh

fat_add_entries_example :
    (blocks : Blocks) × (fat_add_entries table small_sb true 8
        (ok tt)
        (λ t. t)
        (λ _. current)
        true
        refl
        (omega arith)
        root.dir
        zeroed
        (file_entry ∷ [])
      ≡ some (
        ok tt,
        record { i_pos = 0; slot_off = 0; nr_slots = 1; de = some file_entry },
        record root.dir { blocks = blocks },
      ))
    × (entries (dir_of table env (record root { dir = record root.dir { blocks = blocks } }))
        ≡ replace_at 0 (λ _. file_entry) (entries (dir_of table env root)))
    × IsDir (dir_of table env (record root { dir = record root.dir { blocks = blocks } }))
fat_add_entries_example =
    fat_add_entries_lem table small_sb true 8 (ok tt) (λ t. t) (λ _. current) true refl
      (omega arith) root.dir zeroed 0 deleted file_entry root-IsDir file_entry-IsDirEntry
      first-entries
