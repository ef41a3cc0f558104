-- ===== src/File/Tests.antt =====
-- A file of five bytes and reads of it.
use userfs.Prelude.{ℕ, ◌≡◌, refl, none, some, Outcome, ok, List, [], ◌∷◌, take, drop}
use userfs.File.{FileOps, File, advance, ufs_file_read}
use userfs.File.Position.{read_twice}

abbrev bytes : ℕ → ℕ → List ℕ
bytes w i = 1 ∷ 2 ∷ 3 ∷ 4 ∷ 5 ∷ []

abbrev read_bytes : ℕ → ℕ → ℕ → ℕ → Outcome (List ℕ) × ℕ
read_bytes w i count pos = (ok (take count (drop pos (bytes w i))), w)

abbrev ops : FileOps ℕ ℕ
ops = record {
  open_op = none;
  release_op = none;
  read_op = some read_bytes;
  write_op = none;
  fsync_op = none;
  i_size = λ w i. 5;
}

abbrev file : File ops
file = record { f_inode = 1; f_pos = 1; f_flags = 0 }

read_twice_example :
    let file' = advance ops file 2 in
    (ufs_file_read ops 0 file 2 ≡ (ok (2 ∷ 3 ∷ []), file', 0))
    × (ufs_file_read ops 0 file' 4 ≡ (ok (4 ∷ 5 ∷ []), advance ops file' 2, 0))
    × (ufs_file_read ops 0 file 6 ≡ (ok (2 ∷ 3 ∷ 4 ∷ 5 ∷ []), advance ops file' 2, 0))
unfolding advance
read_twice_example = read_twice ops read_bytes bytes refl (λ w i count pos. refl) 0 file 2 4
