-- ===== src/Fat/Dir/Scan.antt =====
-- The scans of a directory in src/fs/fat/src/dir.c: `fat_scan_logstart`, `fat_get_dotdot_entry`,
-- `fat_dir_empty`, `fat_subdirs` and `fat_readdir`. What `fat_get_entry` holds is released at the end;
-- `Slot` has `sinfo` without its buffer.
pub mod Correct
use userfs.Prelude.{
  ℕ, zero, suc, ◌+◌, ◌-◌, ◌≡◌, refl, Bool, true, false, Option, none, some, Outcome, ok, err,
  enoent, eio, List, [], ◌∷◌, map, drop, ◌==◌, ◌&&◌, ◌||◌, not, if◌then◌else◌, get_or, arith, ap,
  ◌∙◌,
}
use userfs.Fat.DirEntry.{
  DirEntry, entry_size, attr_volume, attr_dir, attr_ext, has_attr, is_free, fat_get_start,
}
use userfs.Fat.ShortName.{fat_parse_short}
use userfs.Fat.Dir.{
  DirBlocks, Cursor, Step, go, stop, start, fat_get_entry, for_entries, then_entry,
}

-- `struct fat_slot_info`
pub record Slot : Type 0 where
  pub i_pos : ℕ
  pub slot_off : ℕ
  pub nr_slots : ℕ
  pub de : Option DirEntry

-- The bytes of a C string: those before the first zero.
unfoldable pub c_string : List ℕ → List ℕ
c_string [] = []
c_string (c ∷ l) = if c == 0 then [] else c ∷ c_string l

pub data FileType : Type 0 where
  ufs_dt_dir ufs_dt_reg : FileType

-- `struct ufs_dirent`, without the fields that stay 0.
pub record Dirent : Type 0 where
  pub d_name : List ℕ
  pub d_type : FileType

-- The entry that `fat_readdir` hands to the callback.
pub dirent_of : DirEntry → Dirent
dirent_of de = record {
  d_name = c_string (fat_parse_short de.name);
  d_type = if has_attr de attr_dir then ufs_dt_dir else ufs_dt_reg;
}

-- A free entry, a volume label without further bits (attribute 8), or a part of a long name (15).
pub is_skipped : DirEntry → Bool
is_skipped de = is_free de || (de.attr == attr_volume || de.attr == attr_ext)

module _ (d : DirBlocks) where
  -- `fat_scan_logstart`
  pub logstart_visit : Bool → ℕ → Slot → ℕ → DirEntry → Step Slot (Outcome (Unit {0}) × Slot)
  logstart_visit is_fat32 i_logstart s pos de =
      if is_skipped de
      then go s
      else if fat_get_start is_fat32 de == i_logstart
      then stop (ok tt, record s { i_pos = pos - entry_size; de = some de })
      else go s

  pub fat_scan_logstart : Bool → ℕ → Slot → Option (Outcome (Unit {0}) × Slot)
  fat_scan_logstart is_fat32 i_logstart s =
      for_entries d (logstart_visit is_fat32 i_logstart) (λ s. (err enoent, s)) (start d) s

  -- `fat_get_dotdot_entry`
  pub fat_get_dotdot_entry : Option (Outcome DirEntry)
  fat_get_dotdot_entry =
      then_entry d (err eio) (fat_get_entry d (start d))
        (λ _ c. then_entry d (err eio) (fat_get_entry d c) (λ de _. some (ok de)))

  -- `fat_dir_empty`
  pub empty_visit : Unit {0} → ℕ → DirEntry → Step (Unit {0}) Bool
  empty_visit u pos de = if not (is_free de) then stop false else go tt

  pub fat_dir_empty : Option Bool
  fat_dir_empty = then_entry d true (fat_get_entry d (start d)) (λ _ c.
      then_entry d true (fat_get_entry d c) (λ _ c'. for_entries d empty_visit (λ _. true) c' tt))

  -- `fat_subdirs`
  pub subdirs_visit : ℕ → ℕ → DirEntry → Step ℕ ℕ
  subdirs_visit count pos de =
      if not (is_free de) && (has_attr de attr_dir && not (get_or de.name 0 0 == 46))
      then go (count + 1)
      else go count

  pub fat_subdirs : Option ℕ
  fat_subdirs = then_entry d 0 (fat_get_entry d (start d)) (λ _ c.
      then_entry d 0 (fat_get_entry d c) (λ _ c'. for_entries d subdirs_visit (λ n. n) c' 0))

  -- `fat_readdir`; `callback` is that of the context, with whether it asks to stop.
  module _ {C : Type 0} (callback : C → Dirent → Bool × C) where
    pub fed : Bool × C → Step C C
    fed (halt, c) = if halt then stop c else go c

    pub readdir_visit : C → ℕ → DirEntry → Step C C
    readdir_visit c pos de = if is_skipped de then go c else fed (callback c (dirent_of de))

    pub fat_readdir : C → Option C
    fat_readdir c = for_entries d readdir_visit (λ c. c) (start d) c

-- The first entry of a list with a property.
abbrev pub first : (DirEntry → Bool) → List (ℕ × DirEntry) → Option (ℕ × DirEntry)
first test [] = none
first test ((p, e) ∷ l) = if test e then some (p, e) else first test l

abbrev pub all_free : List (ℕ × DirEntry) → Bool
all_free [] = true
all_free ((p, e) ∷ l) = is_free e && all_free l

abbrev pub is_subdir : DirEntry → Bool
is_subdir e = not (is_free e) && (has_attr e attr_dir && not (get_or e.name 0 0 == 46))

abbrev pub count : (DirEntry → Bool) → List (ℕ × DirEntry) → ℕ
count test [] = 0
count test ((p, e) ∷ l) = if test e then suc (count test l) else count test l

abbrev pub visible : List (ℕ × DirEntry) → List Dirent
visible [] = []
visible ((p, e) ∷ l) = if is_skipped e then visible l else dirent_of e ∷ visible l

-- A callback is given one entry after the other until it asks to stop.
module _ {C : Type 0} (callback : C → Dirent → Bool × C) where
  abbrev pub feed_next : Bool × C → (C → C) → C
  feed_next (halt, c) rest = if halt then c else rest c

  abbrev pub feed : List Dirent → C → C
  feed [] c = c
  feed (e ∷ l) c = feed_next (callback c e) (feed l)
