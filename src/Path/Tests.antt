-- ===== src/Path/Tests.antt =====
-- A small tree and runs of the path functions on it: inode 1 is the root, 2 the directory `a`, 3 the
-- file `a/b`.
use userfs.Prelude.{
  ℕ, ◌≡◌, refl, false, true, some, ok, err, enoent, [], ◌∷◌, ltb, ◌==◌, ◌+◌, if◌then◌else◌,
}
use userfs.Path.{slash, skip_slashes, Tree, ufs_path_walk}
use userfs.Path.Names.{names, ends_in_slash}
use userfs.Path.Walk.{follow, ufs_path_walk-follow}

abbrev tree : Tree
tree = record {
  Inode = ℕ;
  is_dir = λ i. ltb i 3;
  can_lookup = λ i. true;
  lookup = λ i name. if i == 3 then err enoent else ok (i + 1);
  root = some 1;
}

ufs_path_walk-follow_example :
    (ufs_path_walk tree 2 [] ≡ some (ok 2))
    × (ufs_path_walk tree 2 (slash ∷ 97 ∷ 47 ∷ 98 ∷ [])
        ≡ some (
            follow tree 1
              (names (97 ∷ 47 ∷ 98 ∷ []))
              (ends_in_slash (skip_slashes (97 ∷ 47 ∷ 98 ∷ [])))))
    × ((c : ℕ)
        → (c == slash) ≡ false
        → ufs_path_walk tree 2 (c ∷ 97 ∷ 47 ∷ 98 ∷ [])
          ≡ some (
              follow tree 2
                (names (c ∷ 97 ∷ 47 ∷ 98 ∷ []))
                (ends_in_slash (c ∷ 97 ∷ 47 ∷ 98 ∷ []))))
ufs_path_walk-follow_example = ufs_path_walk-follow tree 2 1 (97 ∷ 47 ∷ 98 ∷ []) refl
