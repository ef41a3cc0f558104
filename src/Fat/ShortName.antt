-- ===== src/Fat/ShortName.antt =====
-- Short names: `vfat_build_sfn` of src/fs/fat/src/namei.c and `fat_parse_short` of src/fs/fat/src/dir.c.
-- A name is the list of its bytes.
pub mod RoundTrip
pub mod Tests
use userfs.Prelude.{
  ℕ, zero, suc, Bool, Option, none, some, List, [], ◌∷◌, ◌++◌, map, take, drop, get_or, ◌==◌, ◌||◌,
  if◌then◌else◌,
}

abbrev pub blank : ℕ
blank = 32

abbrev pub dot : ℕ
dot = 46

-- The search for the last dot: what stands before it, and what after it.
pub dot_at : ℕ → List ℕ → Option (List ℕ × List ℕ) → Option (List ℕ × List ℕ)
dot_at c p none = if c == dot then some ([], p) else none
dot_at c p (some (before, after)) = some (c ∷ before, after)

pub last_dot : List ℕ → Option (List ℕ × List ℕ)
last_dot [] = none
last_dot (c ∷ p) = dot_at c p (last_dot p)

-- `n` bytes that were set to blanks, the first of them overwritten.
unfoldable pub pad : ℕ → List ℕ → List ℕ
pad zero l = []
pad (suc n) [] = blank ∷ pad n []
pad (suc n) (x ∷ l) = x ∷ pad n l

-- A blank or a dot in the base becomes `_`.
pub no_gap : ℕ → ℕ
no_gap c = if c == blank || c == dot then 95 else c

-- `vfat_build_sfn`; `upper` is `toupper` of the C library.
module _ (upper : ℕ → ℕ) where
  pub build_parts : List ℕ → Option (List ℕ × List ℕ) → List ℕ
  build_parts name none = pad 8 (map (λ c. no_gap (upper c)) (take 8 name)) ++ pad 3 []
  build_parts name (some (base, ext)) =
      pad 8 (map (λ c. no_gap (upper c)) (take 8 base)) ++ pad 3 (map upper (take 3 ext))

  pub vfat_build_sfn : List ℕ → List ℕ
  vfat_build_sfn name = build_parts name (last_dot name)

-- The bytes up to the first blank, at most `n`.
unfoldable pub until_blank : ℕ → List ℕ → List ℕ
until_blank zero l = []
until_blank (suc n) [] = []
until_blank (suc n) (c ∷ l) = if c == blank then [] else c ∷ until_blank n l

-- 0x05 stands for 0xe5.
unfoldable pub unescape : ℕ → ℕ
unescape c = if c == 0x05 then 0xe5 else c

unfoldable pub extension : List ℕ → List ℕ
extension l = if get_or l 0 0 == blank then [] else dot ∷ until_blank 3 l

-- `fat_parse_short`, on the 11 bytes of `de->name`.
unfoldable pub fat_parse_short : List ℕ → List ℕ
fat_parse_short name = map unescape (until_blank 8 name) ++ extension (drop 8 name)
