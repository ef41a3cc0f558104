-- ===== src/Fat/Dir/Search.antt =====
-- The search of a name in a directory: `fat_search_long` of src/fs/fat/src/dir.c. `lower` is what
-- `strncasecmp` of the C library compares of a byte.
pub mod Names
pub mod Correct
use userfs.Prelude.{
  ℕ, zero, suc, ◌-◌, Bool, true, false, Option, none, some, Outcome, ok, err, enoent, List, length,
  drop, get_or, ◌==◌, ◌&&◌, if◌then◌else◌,
}
use userfs.Fat.DirEntry.{DirEntry, entry_size, attr_volume, attr_ext, has_attr, is_free}
use userfs.Fat.ShortName.{fat_parse_short}
use userfs.Fat.Dir.{DirBlocks, Step, go, stop, start, for_entries}
use userfs.Fat.Dir.Scan.{Slot, c_string}

-- `strncasecmp(a, b, n) == 0`, where a list ends there is the zero byte.
unfoldable pub same_case : (ℕ → ℕ) → ℕ → List ℕ → List ℕ → Bool
same_case lower zero a b = true
same_case lower (suc n) a b =
    let rest = same_case lower n (drop 1 a) (drop 1 b) in
    if lower (get_or a 0 0) == lower (get_or b 0 0)
    then (if get_or a 0 0 == 0 then true else rest)
    else false

-- `sname`
abbrev pub short_name : DirEntry → List ℕ
short_name de = c_string (fat_parse_short de.name)

-- The comparison of the parsed name with `name`.
unfoldable pub is_named : (ℕ → ℕ) → List ℕ → DirEntry → Bool
is_named lower name de =
    same_case lower (length name) (short_name de) name && (length (short_name de) == length name)

-- A free entry is noted while no entry is found.
pub note_free : Slot → ℕ → DirEntry → Slot
note_free s pos de =
    if s.i_pos == 0 then record s { slot_off = pos - entry_size; de = some de; nr_slots = 1 } else s

module _ (d : DirBlocks) (lower : ℕ → ℕ) where
  pub search_visit : List ℕ → Slot → ℕ → DirEntry → Step Slot (Outcome (Unit {0}) × Slot)
  search_visit name s pos de =
      if is_free de
      then go (note_free s pos de)
      else if de.attr == attr_volume
      then go s
      else if de.attr == attr_ext
      then go s
      else if has_attr de attr_volume
      then go s
      else if is_named lower name de
      then stop (
        ok tt,
        record s {
          i_pos = pos - entry_size;
          slot_off = pos - entry_size;
          nr_slots = 1;
          de = some de;
        },
      )
      else go s

  -- `fat_search_long` with a `sinfo`
  pub fat_search_long : List ℕ → Slot → Option (Outcome (Unit {0}) × Slot)
  fat_search_long name s = for_entries d (search_visit name) (λ s. (err enoent, s)) (start d) s
