-- ===== src/Registry/Tests.antt =====
-- A registry with one type, and a second one.
use userfs.Prelude.{true, none, some, ok, err, eexist, [], ◌∷◌, ◌≡◌, ◌≢◌, ◌⊎◌, arith}
use userfs.Registry.{FsType, ufs_register_fs, ufs_unregister_fs, ufs_get_fs}
use userfs.Registry.Names.{IsNew, ufs_register_fs_lem}

abbrev vfat : FsType
vfat = record { address = 1; name = 118 ∷ 102 ∷ [] }

abbrev msdos : FsType
msdos = record { address = 2; name = 109 ∷ 115 ∷ [] }

msdos-IsNew : IsNew msdos (vfat ∷ [])
msdos-IsNew = (apart, tt)
  where
    apart : vfat.address ≢ msdos.address
    apart p = omega arith

ufs_register_fs_example :
    ((p : FsType) × (ufs_get_fs msdos.name (vfat ∷ []) ≡ some p)
      × (ufs_register_fs true msdos (vfat ∷ []) ≡ (err eexist, vfat ∷ [])))
    ⊎ ((ufs_get_fs msdos.name (vfat ∷ []) ≡ none)
        × (ufs_register_fs true msdos (vfat ∷ []) ≡ (ok tt, vfat ∷ msdos ∷ []))
        × (ufs_get_fs msdos.name (vfat ∷ msdos ∷ []) ≡ some msdos)
        × (ufs_unregister_fs msdos (vfat ∷ msdos ∷ []) ≡ (ok tt, vfat ∷ [])))
ufs_register_fs_example = ufs_register_fs_lem msdos (vfat ∷ []) msdos-IsNew
