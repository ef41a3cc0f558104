-- ===== src/Registry/Names.antt =====
-- Registering, looking up and unregistering a type of src/vfs/src/register.c.
use userfs.Prelude.{
  ℕ, true, false, none, some, ok, err, eexist, List, [], ◌∷◌, ◌++◌, ◌≡◌, ◌≢◌, ◌⊎◌, refl, ap, inl,
  inr, ==_self, ne→==, if_true, Bool-cases,
}
use userfs.Registry.{
  FsType, same_name, keep, insert, ufs_register_fs, ufs_unregister_fs, ufs_get_fs,
}

same_name_self : (a : List ℕ) → same_name a a ≡ true
unfolding same_name
same_name_self [] = refl
same_name_self (x ∷ xs) = rw (==_self x) (same_name_self xs)

-- What registration does: it refuses a name that is there and changes nothing, or puts the type at the
-- end, where it is looked up by its name.
pub data Registered (fs : FsType) (l : List FsType) : Type 0 where
  taken :
      (p : FsType) → ufs_get_fs fs.name l ≡ some p → insert fs l ≡ (err eexist, l) → Registered fs l
  added :
      ufs_get_fs fs.name l ≡ none
      → insert fs l ≡ (ok tt, l ++ fs ∷ [])
      → ufs_get_fs fs.name (l ++ fs ∷ []) ≡ some fs
      → Registered fs l

Registered-cons :
    (fs p : FsType) (l : List FsType)
    → same_name p.name fs.name ≡ false
    → Registered fs l
    → Registered fs (p ∷ l)
unfolding insert keep ufs_get_fs
Registered-cons fs p l e (taken q here r) = taken q (rw e here) (rw e (ap (keep p) r))
Registered-cons fs p l e (added gone r found) =
    added (rw e gone) (rw e (ap (keep p) r)) (rw e found)

pub insert-Registered : (fs : FsType) (l : List FsType) → Registered fs l
unfolding insert ufs_get_fs
insert-Registered fs [] = added refl refl (if_true (some fs) none (same_name_self fs.name))
insert-Registered fs (p ∷ l) = elim (Bool-cases (same_name p.name fs.name)) [
  | inl e ↦ taken p (rw e refl) (rw e refl)
  | inr e ↦ Registered-cons fs p l e (insert-Registered fs l)
]

-- No type of the list is the given one.
abbrev pub IsNew : FsType → List FsType → Type 0
IsNew fs [] = Unit
IsNew fs (p ∷ l) = (p.address ≢ fs.address) × IsNew fs l

-- Unregistering a type that was put at the end gives the list before it.
unregister-append :
    (fs : FsType) (l : List FsType) → IsNew fs l → ufs_unregister_fs fs (l ++ fs ∷ []) ≡ (ok tt, l)
unfolding ufs_unregister_fs keep
unregister-append fs [] new = rw (==_self fs.address) refl
unregister-append fs (p ∷ l) (ne, new) =
    rw (ne→== p.address fs.address ne) (ap (keep p) (unregister-append fs l new))

-- For a usable type that is not in the list: if its name is taken, `ufs_register_fs` refuses it and
-- changes nothing; if not, the type is added at the end, `ufs_get_fs` finds it by its name, and
-- `ufs_unregister_fs` takes it out again and leaves the list as it was.
pub ufs_register_fs_lem :
    (fs : FsType) (l : List FsType)
    → IsNew fs l
    → ((p : FsType) × (ufs_get_fs fs.name l ≡ some p)
        × (ufs_register_fs true fs l ≡ (err eexist, l)))
      ⊎ ((ufs_get_fs fs.name l ≡ none)
          × (ufs_register_fs true fs l ≡ (ok tt, l ++ fs ∷ []))
          × (ufs_get_fs fs.name (l ++ fs ∷ []) ≡ some fs)
          × (ufs_unregister_fs fs (l ++ fs ∷ []) ≡ (ok tt, l)))
unfolding ufs_register_fs
ufs_register_fs_lem fs l new = elim (insert-Registered fs l) [
  | taken p here r ↦ inl (p, here, r)
  | added gone r found ↦ inr (gone, r, found, unregister-append fs l new)
]
