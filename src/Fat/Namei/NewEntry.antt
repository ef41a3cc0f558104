-- ===== src/Fat/Namei/NewEntry.antt =====
-- The entry that src/fs/fat/src/namei.c builds for a new name of 8.3 form.
use userfs.Prelude.{
  ℕ, zero, suc, ◌^◌, ◌≤◌, ◌<◌, ◌≡◌, ◌≢◌, refl, arith, true, false, List, [], ◌∷◌, ◌++◌, map, length,
  length-append, All, ap, ◌∙◌, ne→==,
}
use userfs.Fat.Times.{FatTime}
use userfs.Fat.ShortName.{dot, pad, vfat_build_sfn}
use userfs.Fat.ShortName.RoundTrip.{IsShort, built, fat_parse_short-build}
use userfs.Fat.DirEntry.{DirEntry, is_free, has_attr, deleted_flag, fat_set_start}
use userfs.Fat.DirEntry.Bytes.{IsDirEntry}
use userfs.Fat.Dir.{DirBlocks}
use userfs.Fat.Dir.Scan.{c_string}
use userfs.Fat.Dir.Search.{is_named}
use userfs.Fat.Dir.Search.Names.{NonZero, is_named_iff}
use userfs.Fat.Dir.Search.Correct.{is_match}
use userfs.Fat.Namei.{new_entry, attr_arch}

-- A name of 8.3 form whose bytes a short name holds as they are: `head` and `base`, a dot, `x` and
-- `ext`.
abbrev pub name_of : ℕ → List ℕ → ℕ → List ℕ → List ℕ
name_of head base x ext = (head ∷ base) ++ dot ∷ x ∷ ext

pub record IsShortName (upper : ℕ → ℕ) (head : ℕ) (base : List ℕ) (x : ℕ) (ext : List ℕ)
    : Type 0 where
  pub base_short : All (IsShort upper) (head ∷ base)
  pub ext_short : All (IsShort upper) (x ∷ ext)
  pub base_fits : length (head ∷ base) ≤ 8
  pub ext_fits : length (x ∷ ext) ≤ 3
  pub non_zero : All NonZero (name_of head base x ext)
  pub in_use : head ≢ deleted_flag

c_string_same : (l : List ℕ) → All NonZero l → c_string l ≡ l
unfolding c_string
c_string_same [] h = refl
c_string_same (c ∷ l) (nz, h) = rw (ne→== c 0 nz) (ap (λ t. c ∷ t) (c_string_same l h))

length-pad : (n : ℕ) (l : List ℕ) → length (pad n l) ≡ n
unfolding pad
length-pad zero l = refl
length-pad (suc n) [] = ap suc (length-pad n [])
length-pad (suc n) (x ∷ l) = ap suc (length-pad n l)

module _ (upper lower : ℕ → ℕ) (head : ℕ) (base : List ℕ) (x : ℕ) (ext : List ℕ)
    (short : IsShortName upper head base x ext) (attr : ℕ) (now : FatTime) (cluster : ℕ) where
  abbrev name : List ℕ
  name = name_of head base x ext

  abbrev entry : DirEntry
  entry = new_entry (vfat_build_sfn upper name) attr now cluster

  sfn : vfat_build_sfn upper name ≡ pad 8 (head ∷ base) ++ pad 3 (x ∷ ext)
  sfn =
      built upper (head ∷ base) (x ∷ ext) short.base_short short.ext_short short.base_fits
        short.ext_fits

  pub new_entry-IsDirEntry : attr < 256 → now.time < 2 ^ 16 → now.date < 2 ^ 16 → IsDirEntry entry
  unfolding new_entry fat_set_start
  new_entry-IsDirEntry a t d = (
    ap length sfn
        ∙ omega (
          arith,
          length-append (pad 8 (head ∷ base)) (pad 3 (x ∷ ext)),
          length-pad 8 (head ∷ base),
          length-pad 3 (x ∷ ext),
        ),
    omega arith,
  )

  -- The entry has the name.
  named : is_named lower name entry ≡ true
  unfolding new_entry fat_set_start
  named = (is_named_iff lower name entry).1 (
      ap (λ l. map lower (c_string l))
        (fat_parse_short-build upper (head ∷ base) x ext short.base_short short.ext_short
          short.base_fits short.ext_fits)
      ∙ ap (map lower) (c_string_same name short.non_zero))

  used : is_free entry ≡ false
  unfolding is_free new_entry fat_set_start pad
  used = rw (sfn, ne→== head 0 short.non_zero.0, ne→== head deleted_flag short.in_use) refl

  pub new_entry-is_match : (d : DirBlocks) → attr ≡ attr_arch → is_match d lower name entry ≡ true
  unfolding has_attr new_entry fat_set_start
  new_entry-is_match d a = rw (used, named, a) refl
