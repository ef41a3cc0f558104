-- ===== src/Path/LastSlash.antt =====
-- `ufs_path_split` of src/vfs/src/dentry.c takes a path apart at its last slash.
use userfs.Prelude.{
  ℕ, ◌<◌, ◌≡◌, refl, false, none, some, ok, List, [], ◌∷◌, ◌++◌, All, length, take, ◌==◌, ap,
  if_false, lt→ltb,
}
use userfs.Path.{
  slash, skip_slashes, split_at, last_slash, split_found, split_stripped, ufs_path_split,
}

-- A byte other than a slash.
abbrev pub IsPlain : ℕ → Type 0
IsPlain c = (c == slash) ≡ false

last_slash-none : (p : List ℕ) → All IsPlain p → last_slash p ≡ none
unfolding last_slash split_at
last_slash-none [] h = refl
last_slash-none (c ∷ p) (e, h) = rw (last_slash-none p h) (if_false (some ([], p)) none e)

pub last_slash-append :
    (p name : List ℕ) → All IsPlain name → last_slash (p ++ slash ∷ name) ≡ some (p, name)
unfolding last_slash split_at
last_slash-append [] name h = rw (last_slash-none name h) refl
last_slash-append (c ∷ p) name h = rw (last_slash-append p name h) refl

take_all : (l : List ℕ) → take (length l) l ≡ l
take_all [] = refl
take_all (x ∷ l) = ap (λ t. x ∷ t) (take_all l)

-- A relative path, a slash and a last name without a slash split into that path and that name, if the
-- buffer has room for the path and a final NUL; so does the path with one slash before it.
pub ufs_path_split-append :
    (parent_size c : ℕ) (p name : List ℕ)
    → IsPlain c
    → All IsPlain name
    → length (c ∷ p) < parent_size
    → (ufs_path_split parent_size ((c ∷ p) ++ slash ∷ name)
        ≡ ok (record { parent = c ∷ p; name = name }))
      × (ufs_path_split parent_size (slash ∷ (c ∷ p) ++ slash ∷ name)
          ≡ ok (record { parent = c ∷ p; name = name }))
unfolding ufs_path_split split_stripped split_found skip_slashes
ufs_path_split-append parent_size c p name e h room = (rw e stripped, rw e stripped)
  where
    stripped :
        ok
          (split_found parent_size ((c ∷ p) ++ slash ∷ name) (last_slash ((c ∷ p) ++ slash ∷ name)))
        ≡ ok (record { parent = c ∷ p; name = name })
    stripped =
        rw (last_slash-append (c ∷ p) name h, lt→ltb _ _ room)
          (ap (λ t. ok (record { parent = t; name = name })) (take_all (c ∷ p)))
