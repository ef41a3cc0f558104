-- ===== src/Registry.antt =====
-- The registry of file system types, src/vfs/src/register.c. The list `ufs_filesystems`, linked by
-- `next`, is a list; `ufs_fs_lock` is held over each call. A pointer to a type is its number.
pub mod Names
pub mod Tests
use userfs.Prelude.{
  ℕ, Bool, true, false, Option, none, some, Outcome, ok, err, einval, eexist, enoent, List, [], ◌∷◌,
  ◌==◌, ◌&&◌, if◌then◌else◌,
}

-- `struct ufs_filesystem_type`
pub record FsType : Type 0 where
  pub address : ℕ
  pub name : List ℕ

-- `strcmp(a, b) == 0`
pub same_name : List ℕ → List ℕ → Bool
same_name [] [] = true
same_name [] (y ∷ ys) = false
same_name (x ∷ xs) [] = false
same_name (x ∷ xs) (y ∷ ys) = x == y && same_name xs ys

pub keep : FsType → Outcome (Unit {0}) × List FsType → Outcome (Unit {0}) × List FsType
keep p (r, l) = (r, p ∷ l)

-- The loop of `ufs_register_fs` with the insertion at the end.
pub insert : FsType → List FsType → Outcome (Unit {0}) × List FsType
insert fs [] = (ok tt, fs ∷ [])
insert fs (p ∷ l) =
    let rest = insert fs l in if same_name p.name fs.name then (err eexist, p ∷ l) else keep p rest

-- `ufs_register_fs`; `usable` says that the type, its name and its `mount` are not NULL.
pub ufs_register_fs : Bool → FsType → List FsType → Outcome (Unit {0}) × List FsType
ufs_register_fs usable fs l = if usable then insert fs l else (err einval, l)

-- `ufs_unregister_fs` of a type that is not NULL.
pub ufs_unregister_fs : FsType → List FsType → Outcome (Unit {0}) × List FsType
ufs_unregister_fs fs [] = (err enoent, [])
ufs_unregister_fs fs (p ∷ l) =
    let rest = ufs_unregister_fs fs l in if p.address == fs.address then (ok tt, l) else keep p rest

-- `ufs_get_fs`
pub ufs_get_fs : List ℕ → List FsType → Option FsType
ufs_get_fs name [] = none
ufs_get_fs name (p ∷ l) = if same_name p.name name then some p else ufs_get_fs name l
