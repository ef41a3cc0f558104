-- ===== src/Fat/DirEntry/Tests.antt =====
-- The directory entry of a small file.
use userfs.Prelude.{refl, arith, [], ◌∷◌}
use userfs.Fat.DirEntry.{DirEntry}
use userfs.Fat.DirEntry.Bytes.{IsDirEntry}

-- The file `A.TXT`.
abbrev pub file_entry : DirEntry
file_entry = record {
  name = 65 ∷ 32 ∷ 32 ∷ 32 ∷ 32 ∷ 32 ∷ 32 ∷ 32 ∷ 84 ∷ 88 ∷ 84 ∷ [];
  attr = 32;
  lcase = 0;
  ctime_cs = 0;
  ctime = 0;
  cdate = 0;
  adate = 0;
  starthi = 0;
  time = 0x6000;
  date = 0x2821;
  start = 5;
  size = 700;
}

pub file_entry-IsDirEntry : IsDirEntry file_entry
file_entry-IsDirEntry = (
  refl,
  (
    omega arith,
    (
      omega arith,
      (
        omega arith,
        (
          omega arith,
          (
            omega arith,
            (
              omega arith,
              (omega arith, (omega arith, (omega arith, (omega arith, (omega arith, tt))))),
            ),
          ),
        ),
      ),
    ),
  ),
)
