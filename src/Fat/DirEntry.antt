-- ===== src/Fat/DirEntry.antt =====
-- Directory entries: `struct msdos_dir_entry` of src/fs/fat/src/ondisk.h as 32 bytes of a block, and
-- `fat_get_start` and `fat_set_start` of src/fs/fat/src/fat_core.h.
pub mod Agree
pub mod Bytes
pub mod Tests
use userfs.Prelude.{
  ℕ, zero, suc, ◌+◌, ◌*◌, ◌/◌, ◌%◌, ◌^◌, Bool, List, [], ◌∷◌, ◌++◌, get_or, set, ◌==◌, ◌||◌,
  if◌then◌else◌, bit_or, bit_and, not,
}
use userfs.Fat.Words.{load}

-- `struct msdos_dir_entry`; the name is the list of its 11 bytes.
pub record DirEntry : Type 0 where
  pub name : List ℕ
  pub attr : ℕ
  pub lcase : ℕ
  pub ctime_cs : ℕ
  pub ctime : ℕ
  pub cdate : ℕ
  pub adate : ℕ
  pub starthi : ℕ
  pub time : ℕ
  pub date : ℕ
  pub start : ℕ
  pub size : ℕ

-- The widths in bytes of the fields after the name.
abbrev pub widths : List ℕ
widths = 1 ∷ 1 ∷ 1 ∷ 2 ∷ 2 ∷ 2 ∷ 2 ∷ 2 ∷ 2 ∷ 2 ∷ 4 ∷ []

-- `sizeof(struct msdos_dir_entry)`
abbrev pub entry_size : ℕ
entry_size = 32

abbrev pub fields_of : DirEntry → List ℕ
fields_of e =
    e.attr ∷ e.lcase ∷ e.ctime_cs ∷ e.ctime ∷ e.cdate ∷ e.adate ∷ e.starthi ∷ e.time ∷ e.date
    ∷ e.start ∷ e.size ∷ []

abbrev pub entry_of : List ℕ → List ℕ → DirEntry
entry_of name fs = record {
  name = name;
  attr = get_or fs 0 0;
  lcase = get_or fs 1 0;
  ctime_cs = get_or fs 2 0;
  ctime = get_or fs 3 0;
  cdate = get_or fs 4 0;
  adate = get_or fs 5 0;
  starthi = get_or fs 6 0;
  time = get_or fs 7 0;
  date = get_or fs 8 0;
  start = get_or fs 9 0;
  size = get_or fs 10 0;
}

-- `n` bytes from place `i` on, and little-endian fields of given widths.
unfoldable pub bytes_at : ℕ → List ℕ → ℕ → List ℕ
bytes_at zero bytes i = []
bytes_at (suc n) bytes i = get_or bytes i 0 ∷ bytes_at n bytes (i + 1)

unfoldable pub load_fields : List ℕ → List ℕ → ℕ → List ℕ
load_fields [] bytes i = []
load_fields (w ∷ ws) bytes i = load w bytes i ∷ load_fields ws bytes (i + w)

-- The entry that a pointer to byte `i` of a block points to.
unfoldable pub decode : List ℕ → ℕ → DirEntry
decode bytes i = entry_of (bytes_at 11 bytes i) (load_fields widths bytes (i + 11))

-- The bytes of an entry in memory, little-endian as on the disk and without padding: what `memcpy` of a
-- `struct msdos_dir_entry` copies. The code has no function for it.
unfoldable pub le_bytes : ℕ → ℕ → List ℕ
le_bytes zero v = []
le_bytes (suc n) v = v % 256 ∷ le_bytes n (v / 256)

unfoldable pub store_fields : List ℕ → List ℕ → List ℕ
store_fields [] vs = []
store_fields (w ∷ ws) [] = []
store_fields (w ∷ ws) (v ∷ vs) = le_bytes w v ++ store_fields ws vs

unfoldable pub encode : DirEntry → List ℕ
encode e = e.name ++ store_fields widths (fields_of e)

-- `memcpy` of `xs` to place `i` of a block.
unfoldable pub write_at : List ℕ → ℕ → List ℕ → List ℕ
write_at bytes i [] = bytes
write_at bytes i (x ∷ xs) = set (write_at bytes (i + 1) xs) i x

-- The attribute bits, and `IS_FREE`.
abbrev pub attr_volume : ℕ
attr_volume = 8

abbrev pub attr_dir : ℕ
attr_dir = 16

abbrev pub attr_ext : ℕ
attr_ext = 15

abbrev pub deleted_flag : ℕ
deleted_flag = 0xe5

-- `attr & bit`
unfoldable pub has_attr : DirEntry → ℕ → Bool
has_attr de bit = not (bit_and de.attr bit == 0)

unfoldable pub is_free : DirEntry → Bool
is_free de = get_or de.name 0 0 == 0 || get_or de.name 0 0 == deleted_flag

-- `fat_get_start` and `fat_set_start`
unfoldable pub fat_get_start : Bool → DirEntry → ℕ
fat_get_start is_fat32 de = if is_fat32 then bit_or de.start (de.starthi * 2 ^ 16) else de.start

unfoldable pub fat_set_start : DirEntry → ℕ → DirEntry
fat_set_start de cluster = record de {
  start = cluster % 2 ^ 16;
  starthi = cluster / 2 ^ 16 % 2 ^ 16;
}
