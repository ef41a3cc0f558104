-- ===== src/Fat/ShortName/RoundTrip.antt =====
-- A short name read back is the name it was built from.
use userfs.Prelude.{
  ℕ, zero, suc, ◌≤◌, ◌≡◌, refl, arith, false, none, some, List, [], ◌∷◌, ◌++◌, map, take, drop,
  length, All, ◌==◌, ◌∙◌, ap, sym, if_false,
}
use userfs.Fat.ShortName.{
  blank, dot, dot_at, last_dot, pad, no_gap, build_parts, vfat_build_sfn, until_blank, unescape,
  extension, fat_parse_short,
}

last_dot-none : (p : List ℕ) → All (λ c. (c == dot) ≡ false) p → last_dot p ≡ none
unfolding last_dot dot_at
last_dot-none [] h = refl
last_dot-none (c ∷ p) (e, h) = rw (last_dot-none p h) (if_false (some ([], p)) none e)

last_dot-append :
    (p ext : List ℕ) → All (λ c. (c == dot) ≡ false) ext → last_dot (p ++ dot ∷ ext) ≡ some (p, ext)
unfolding last_dot dot_at
last_dot-append [] ext h = rw (last_dot-none ext h) refl
last_dot-append (c ∷ p) ext h = rw (last_dot-append p ext h) refl

take_short : (n : ℕ) (l : List ℕ) → length l ≤ n → take n l ≡ l
take_short zero [] h = refl
take_short zero (x ∷ l) h = absurd (omega arith)
take_short (suc n) [] h = refl
take_short (suc n) (x ∷ l) h = ap (λ t. x ∷ t) (take_short n l (omega arith))

until_blank-pad :
    (n : ℕ) (l rest : List ℕ)
    → All (λ c. (c == blank) ≡ false) l
    → length l ≤ n
    → until_blank n (pad n l ++ rest) ≡ l
unfolding until_blank pad
until_blank-pad zero [] rest a h = refl
until_blank-pad zero (x ∷ l) rest a h = absurd (omega arith)
until_blank-pad (suc n) [] rest a h = refl
until_blank-pad (suc n) (x ∷ l) rest (e, a) h =
    rw e (ap (λ t. x ∷ t) (until_blank-pad n l rest a (omega arith)))

drop-pad : (n : ℕ) (l rest : List ℕ) → drop n (pad n l ++ rest) ≡ rest
unfolding pad
drop-pad zero l rest = refl
drop-pad (suc n) [] rest = drop-pad n [] rest
drop-pad (suc n) (x ∷ l) rest = drop-pad n l rest

append_nil : (l : List ℕ) → l ++ [] ≡ l
append_nil [] = refl
append_nil (x ∷ l) = ap (λ t. x ∷ t) (append_nil l)

map_same : (f : ℕ → ℕ) (l : List ℕ) → All (λ c. f c ≡ c) l → map f l ≡ l
map_same f [] h = refl
map_same f (x ∷ l) (e, h) = rw e (ap (λ t. x ∷ t) (map_same f l h))

All-map : {P Q : ℕ → Type 0} (l : List ℕ) → ((c : ℕ) → P c → Q c) → All P l → All Q l
All-map [] f h = tt
All-map (x ∷ l) f (e, h) = (f x e, All-map l f h)

module _ (upper : ℕ → ℕ) where
  -- A byte that a short name holds as it is.
  abbrev pub IsShort : ℕ → Type 0
  IsShort c = (upper c ≡ c) × ((c == blank) ≡ false) × ((c == dot) ≡ false) × ((c == 0x05) ≡ false)

  unblank : (c : ℕ) → IsShort c → (c == blank) ≡ false
  unblank c (u, b, d, k) = b

  undotted : (c : ℕ) → IsShort c → (c == dot) ≡ false
  undotted c (u, b, d, k) = d

  upper_same : (c : ℕ) → IsShort c → upper c ≡ c
  upper_same c (u, b, d, k) = u

  base_same : (c : ℕ) → IsShort c → no_gap (upper c) ≡ c
  unfolding no_gap
  base_same c (u, b, d, k) = ap no_gap u ∙ rw (b, d) refl

  plain_same : (c : ℕ) → IsShort c → unescape c ≡ c
  unfolding unescape
  plain_same c (u, b, d, k) = rw k refl

  pub built :
      (base ext : List ℕ)
      → All IsShort base
      → All IsShort ext
      → length base ≤ 8
      → length ext ≤ 3
      → vfat_build_sfn upper (base ++ dot ∷ ext) ≡ pad 8 base ++ pad 3 ext
  unfolding vfat_build_sfn build_parts
  built base ext hb he lb le =
      rw
        (
          last_dot-append base ext (All-map ext undotted he),
          take_short 8 base lb,
          take_short 3 ext le,
          map_same (λ c. no_gap (upper c)) base (All-map base base_same hb),
          map_same upper ext (All-map ext upper_same he),
        )
        refl

  base_parsed :
      (base rest : List ℕ)
      → All IsShort base
      → length base ≤ 8
      → map unescape (until_blank 8 (pad 8 base ++ rest)) ≡ base
  base_parsed base rest hb lb =
      ap (map unescape) (until_blank-pad 8 base rest (All-map base unblank hb) lb)
      ∙ map_same unescape base (All-map base plain_same hb)

  extension_parsed :
      (x : ℕ) (ext : List ℕ)
      → All IsShort (x ∷ ext)
      → length (x ∷ ext) ≤ 3
      → extension (pad 3 (x ∷ ext)) ≡ dot ∷ x ∷ ext
  unfolding extension pad
  extension_parsed x ext ((u, b, d, k), h) l =
      if_false [] (dot ∷ until_blank 3 (pad 3 (x ∷ ext))) b
      ∙ ap (λ t. dot ∷ t)
          (sym (ap (until_blank 3) (append_nil (pad 3 (x ∷ ext))))
            ∙ until_blank-pad 3 (x ∷ ext) [] (b, All-map ext unblank h) l)

  -- A name of at most 8 bytes, a dot, and an extension of 1 to 3 bytes, all of them bytes that `toupper`
  -- leaves as they are, no blank, no dot and not 0x05, is read back from its short name unchanged.
  pub fat_parse_short-build :
      (base : List ℕ) (x : ℕ) (ext : List ℕ)
      → All IsShort base
      → All IsShort (x ∷ ext)
      → length base ≤ 8
      → length (x ∷ ext) ≤ 3
      → fat_parse_short (vfat_build_sfn upper (base ++ dot ∷ x ∷ ext)) ≡ base ++ dot ∷ x ∷ ext
  unfolding fat_parse_short
  fat_parse_short-build base x ext hb he lb le =
      ap fat_parse_short (built base (x ∷ ext) hb he lb le)
      ∙ ap (λ t. t ++ extension (drop 8 (pad 8 base ++ pad 3 (x ∷ ext))))
          (base_parsed base (pad 3 (x ∷ ext)) hb lb)
      ∙ ap (λ t. base ++ extension t) (drop-pad 8 base (pad 3 (x ∷ ext)))
      ∙ ap (λ t. base ++ t) (extension_parsed x ext he le)
