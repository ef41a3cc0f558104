-- ===== src/Api/Root.antt =====
-- Calls of src/vfs/src/api.c on a path without a last name.
use userfs.Prelude.{
  ℕ, ◌≡◌, Bool, true, some, ok, err, eexist, ebusy, List, [], ap, ◌∙◌, refl, ◌++◌, ◌∷◌, ◌==◌, ◌⊎◌,
  inl, inr, Bool-cases,
}
use userfs.Path.{
  slash, skip_slashes, split_stripped, split_found, Split, ufs_path_split, ufs_path_parent,
  parent_split, parent_of, with_name, root_result,
}
use userfs.Path.LastSlash.{last_slash-append}
use userfs.Api.{
  FsOps, tree_of, then_found, with_parent, ufs_create, create_in, ufs_mkdir, mkdir_in, ufs_rmdir,
  rmdir_in, ufs_unlink, unlink_in,
}

-- A path that ends in a slash is empty after its leading slashes, or still ends in one.
skipped :
    (p : List ℕ)
    → (skip_slashes (p ++ slash ∷ []) ≡ [])
      ⊎ ((q : List ℕ) × (skip_slashes (p ++ slash ∷ []) ≡ q ++ slash ∷ []))
unfolding skip_slashes
skipped [] = inl refl
skipped (c ∷ p) = elim (Bool-cases (c == slash)) [
  | inl e ↦ rw e (skipped p)
  | inr e ↦ rw e (inr (c ∷ p, refl))
]

split-bare : (q : List ℕ) → (split_stripped 1024 (q ++ slash ∷ [])).name ≡ []
unfolding split_stripped split_found
split-bare [] = rw (last_slash-append [] [] tt) refl
split-bare (c ∷ q) = rw (last_slash-append (c ∷ q) [] tt) refl

-- Its last name is empty.
skipped-bare : (p : List ℕ) → (split_stripped 1024 (skip_slashes (p ++ slash ∷ []))).name ≡ []
unfolding split_stripped
skipped-bare p = elim (skipped p) [
  | inl e ↦ ap (λ l. (split_stripped 1024 l).name) e ∙ nothing
  | inr (q, e) ↦ ap (λ l. (split_stripped 1024 l).name) e ∙ split-bare q
]
  where
    nothing : (split_stripped 1024 []).name ≡ []
    nothing = refl

split-slash :
    (p : List ℕ) → (s : Split) × (ufs_path_split 1024 (p ++ slash ∷ []) ≡ ok s) × (s.name ≡ [])
unfolding ufs_path_split
split-slash [] = (split_stripped 1024 (skip_slashes (slash ∷ [])), refl, skipped-bare [])
split-slash (c ∷ p) =
    (split_stripped 1024 (skip_slashes (c ∷ p ++ slash ∷ [])), refl, skipped-bare (c ∷ p))

module _ {W I : Type 0} (fs : FsOps W I) (w : W) (r : I) (root : fs.root w ≡ some r) where
  -- A path with an empty last name has the root as its parent.
  root_parent :
      (path : List ℕ) (s : Split)
      → ufs_path_split 1024 path ≡ ok s
      → s.name ≡ []
      → ufs_path_parent (tree_of fs w) path ≡ some (ok (r, []))
  unfolding ufs_path_parent parent_split parent_of with_name root_result
  root_parent path s split bare =
      ap (parent_split (tree_of fs w)) split
      ∙ ap (parent_of (tree_of fs w) s.parent) bare
      ∙ ap (λ o. with_name (tree_of fs w) [] (root_result (tree_of fs w) o)) root

  -- A path that ends in a slash, whatever stands before it, names the root: nothing is made or removed
  -- there. Creation and `ufs_mkdir` fail with EEXIST, `ufs_rmdir` and `ufs_unlink` with EBUSY, and no
  -- operation of the file system is called. It assumes that there is a root inode.
  pub no_last_name :
      (p : List ℕ) (memory : Bool) (mode : ℕ)
      → (ufs_create fs memory true w (p ++ slash ∷ []) mode ≡ some (err eexist, w))
        × (ufs_mkdir fs true w (p ++ slash ∷ []) mode ≡ some (err eexist, w))
        × (ufs_rmdir fs true w (p ++ slash ∷ []) ≡ some (err ebusy, w))
        × (ufs_unlink fs true w (p ++ slash ∷ []) ≡ some (err ebusy, w))
  unfolding ufs_create create_in ufs_mkdir mkdir_in ufs_rmdir rmdir_in ufs_unlink unlink_in
      with_parent then_found
  no_last_name p memory mode =
      let (s, split, bare) = split-slash p in
      let parent = root_parent (p ++ slash ∷ []) s split bare in
      (
        ap (λ o. then_found fs w o (create_in fs memory mode w)) parent,
        ap (λ o. then_found fs w o (mkdir_in fs mode w)) parent,
        ap (λ o. then_found fs w o (rmdir_in fs w)) parent,
        ap (λ o. then_found fs w o (unlink_in fs w)) parent,
      )
