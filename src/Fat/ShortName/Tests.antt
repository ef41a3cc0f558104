-- ===== src/Fat/ShortName/Tests.antt =====
-- The name `AB.C` and its short name.
use userfs.Prelude.{ℕ, ◌-◌, ◌≡◌, refl, arith, [], ◌∷◌, ◌++◌, leb, ◌&&◌, if◌then◌else◌}
use userfs.Fat.ShortName.{dot, vfat_build_sfn, fat_parse_short}
use userfs.Fat.ShortName.RoundTrip.{fat_parse_short-build}

-- `toupper` in the C locale.
abbrev to_upper : ℕ → ℕ
to_upper c = if leb 97 c && leb c 122 then c - 32 else c

fat_parse_short-build_example :
    fat_parse_short (vfat_build_sfn to_upper ((65 ∷ 66 ∷ []) ++ dot ∷ 67 ∷ []))
    ≡ (65 ∷ 66 ∷ []) ++ dot ∷ 67 ∷ []
fat_parse_short-build_example =
    fat_parse_short-build to_upper (65 ∷ 66 ∷ []) 67 []
      ((refl, refl, refl, refl), ((refl, refl, refl, refl), tt)) ((refl, refl, refl, refl), tt)
      (omega arith) (omega arith)
