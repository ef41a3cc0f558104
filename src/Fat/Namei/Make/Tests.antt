-- ===== src/Fat/Namei/Make/Tests.antt =====
-- A root directory without free entries, and the file `A.TXT` renamed to its own name.
use userfs.Prelude.{
  ◌≤◌, ℕ, ◌≡◌, ◌⊎◌, refl, arith, true, none, some, ok, err, enoent, enospc, eio, List, [], ◌∷◌,
  ◌++◌, length, ◌==◌, if◌then◌else◌, ap, ◌∙◌,
}
use userfs.Fat.Words.{Blocks, load}
use userfs.Fat.DirEntry.{
  DirEntry, encode, store_fields, le_bytes, decode, bytes_at, load_fields, is_free, has_attr,
  deleted_flag,
}
use userfs.Fat.DirEntry.Bytes.{IsDirEntry, renamed}
use userfs.Fat.DirEntry.Tests.{file_entry}
use userfs.Fat.Tests.{table, image, image-IsReady}
use userfs.Fat.Alloc.Scan.{IsFree}
use userfs.Fat.Bmap.{plain_bmap, root_mapping}
use userfs.Fat.ShortName.{pad, fat_parse_short, until_blank, unescape, extension}
use userfs.Fat.ShortName.RoundTrip.{built}
use userfs.Fat.Dir.{phys_of}
use userfs.Fat.Dir.Entries.{entries, sector_entries, mapped_entries, readable, block_entries}
use userfs.Fat.Dir.Scan.{Slot, first, count, c_string}
use userfs.Fat.Dir.Search.{is_named, same_case}
use userfs.Fat.Dir.Remove.Update.{replace_at}
use userfs.Fat.Dir.Tests.{small_sb}
use userfs.Fat.Dir.Add.{current, fat_add_entries}
use userfs.Fat.Dir.Add.Full.{leaked, full_root-leaked}
use userfs.Fat.Dir.Located.{IsDir}
use userfs.Fat.Namei.{Names, dir_of, zeroed, vfat_lookup}
use userfs.Fat.Namei.Search.{matches}
use userfs.Fat.Namei.Tests.{linked, env, root, a_txt}
use userfs.Fat.Namei.Make.{renamed_entry, vfat_rename2}
use userfs.Fat.Namei.Make.Rename.{vfat_rename2-lost}

abbrev other : DirEntry
other = record file_entry { name = 66 ∷ 32 ∷ 32 ∷ 32 ∷ 32 ∷ 32 ∷ 32 ∷ 32 ∷ 84 ∷ 88 ∷ 84 ∷ [] }

abbrev full_device : Blocks
full_device b =
    if b == 2 then some (encode linked ++ encode other) else some (encode other ++ encode other)

abbrev full_root : Names table
full_root = record root { dir = record root.dir { blocks = full_device } }

abbrev full_entries : List (ℕ × DirEntry)
full_entries = (0, linked) ∷ (32, other) ∷ (64, other) ∷ (96, other) ∷ []

full_entries_lem : entries (dir_of table env full_root) ≡ full_entries
unfolding plain_bmap root_mapping phys_of encode store_fields le_bytes entries sector_entries
    mapped_entries readable block_entries decode bytes_at load_fields load
full_entries_lem = refl

none_free : first is_free full_entries ≡ none
unfolding is_free
none_free = refl

full_root-leaked_example :
    ((c : ℕ) × (s : Slot) × IsFree table image c
      × (table.max_fat
          ≤ table.get
              (leaked table small_sb true 8
                (ok tt)
                (λ b. b)
                (λ _. current)
                full_root.dir
                c).fs.image
              c)
      × ((leaked table small_sb true 8 (ok tt) (λ b. b) (λ _. current) full_root.dir c).node.i_start
          ≡ c)
      × (fat_add_entries table small_sb true 8
            (ok tt)
            (λ t. t)
            (λ _. current)
            true
            refl
            (omega arith)
            full_root.dir
            zeroed
            (file_entry ∷ [])
          ≡ some (
            err eio,
            s,
            leaked table small_sb true 8 (ok tt) (λ t. t) (λ _. current) full_root.dir c,
          )))
    ⊎ (((j : ℕ) → ¬ IsFree table image j)
        × ((s : Slot) × (fat_add_entries table small_sb true 8
                (ok tt)
                (λ t. t)
                (λ _. current)
                true
                refl
                (omega arith)
                full_root.dir
                zeroed
                (file_entry ∷ [])
              ≡ some (err enospc, s, full_root.dir))))
full_root-leaked_example =
    full_root-leaked table small_sb true 8 (ok tt) (λ t. t) (λ _. current) refl (omega arith)
      full_root.dir zeroed file_entry refl refl (omega arith)
      (ap (first is_free) full_entries_lem ∙ none_free) image-IsReady (omega arith) (omega arith)

one_block :
    (i j q : ℕ)
    → phys_of ((dir_of table env full_root).bmap i) ≡ some q
    → phys_of ((dir_of table env full_root).bmap j) ≡ some q
    → i ≡ j
unfolding plain_bmap root_mapping phys_of
one_block i j q m n = ground arith

whole_block : (q : ℕ) (bytes : List ℕ) → full_device q ≡ some bytes → length bytes ≡ 64
unfolding encode store_fields le_bytes
whole_block q bytes e = ground arith

full_root-IsDir : IsDir (dir_of table env full_root)
full_root-IsDir = record { alone = one_block; whole = whole_block }

a_txt-first : first (matches table env full_root a_txt) full_entries ≡ some (0, linked)
unfolding is_free has_attr is_named same_case c_string fat_parse_short until_blank unescape
    extension
a_txt-first = refl

a_txt-once : count (matches table env full_root a_txt) full_entries ≡ 1
unfolding is_free has_attr is_named same_case c_string fat_parse_short until_blank unescape
    extension
a_txt-once = refl

freed_slot :
    first is_free (replace_at 0 (renamed deleted_flag) full_entries)
    ≡ some (0, renamed deleted_flag linked)
unfolding is_free replace_at
freed_slot = refl

renamed-IsDirEntry : IsDirEntry (renamed_entry table env true true full_root.dir a_txt linked)
unfolding pad renamed_entry
renamed-IsDirEntry = (
  ap length (
      built (λ c. c) (65 ∷ []) (84 ∷ 88 ∷ 84 ∷ []) ((refl, refl, refl, refl), tt)
        ((refl, refl, refl, refl), ((refl, refl, refl, refl), ((refl, refl, refl, refl), tt)))
        (omega arith) (omega arith)),
  omega arith,
)

vfat_rename2-lost_example :
    (st' : Names table) × (vfat_rename2 table env true true full_root.dir full_root a_txt a_txt
      ≡ some (ok tt, st'))
    × (vfat_lookup table env st' a_txt ≡ some (err enoent, st'))
vfat_rename2-lost_example =
    vfat_rename2-lost table env true full_root.dir full_root a_txt 0 linked full_root-IsDir
      (ap (first (matches table env full_root a_txt)) full_entries_lem ∙ a_txt-first)
      (ap (count (matches table env full_root a_txt)) full_entries_lem ∙ a_txt-once)
      (ap (λ l. first is_free (replace_at 0 (renamed deleted_flag) l)) full_entries_lem
        ∙ freed_slot)
      renamed-IsDirEntry
