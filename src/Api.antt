-- ===== src/Api.antt =====
-- The calls of the library on paths, src/vfs/src/api.c, over the path walk and the open files. The
-- file system is a parameter; its lookups are taken not to change what later calls see.
pub mod Root
pub mod Listing
pub mod Tests
use userfs.Prelude.{
  ℕ, zero, suc, ◌+◌, ◌*◌, Bool, true, false, Option, none, some, Outcome, ok, err, einval, eexist,
  ebusy, enosys, enotdir, List, [], ◌∷◌, ◌++◌, length, leb, ◌==◌, ◌||◌, ◌&&◌, if◌then◌else◌,
}
use userfs.Path.{dot, is_dot, Tree, ufs_path_resolve, ufs_path_parent}
use userfs.File.{FileOps, File, ufs_file_open, ufs_file_close}
use userfs.Fat.Dir.Scan.{Dirent}
use userfs.Fat.Inode.{Stat, Statfs}

-- `collect_dirent` of `ufs_listdir`: `*data->names`, whose length is `*data->count`, and the capacity.
pub record Collected : Type 0 where
  pub names : List (List ℕ)
  pub capacity : ℕ

abbrev pub none_yet : Collected
none_yet = record { names = []; capacity = 0 }

-- `strcmp(de->d_name, "..") == 0`
pub is_dot_dot : List ℕ → Bool
is_dot_dot [] = false
is_dot_dot (c ∷ []) = false
is_dot_dot (c ∷ e ∷ []) = c == dot && e == dot
is_dot_dot (c ∷ e ∷ f ∷ l) = false

-- `data->capacity ? data->capacity * 2 : 16`
abbrev pub next_capacity : ℕ → ℕ
next_capacity capacity = if capacity == 0 then 16 else capacity * 2

-- `grows` says whether `realloc` to a capacity succeeds, `copies` whether `strdup` of a name does. The
-- flag of the result is a return value other than 0.
module _ (grows : ℕ → Bool) (copies : List ℕ → Bool) where
  pub store_name : Collected → List ℕ → Bool × Collected
  store_name cb_data name =
      if copies name
      then (false, record cb_data { names = cb_data.names ++ name ∷ [] })
      else (true, cb_data)

  pub grow_names : Collected → List ℕ → Bool × Collected
  grow_names cb_data name =
      if grows (next_capacity cb_data.capacity)
      then store_name (record cb_data { capacity = next_capacity cb_data.capacity }) name
      else (true, record cb_data { capacity = next_capacity cb_data.capacity })

  pub collect_dirent : Collected → Dirent → Bool × Collected
  collect_dirent cb_data de =
      if is_dot de.d_name || is_dot_dot de.d_name
      then (false, cb_data)
      else if leb cb_data.capacity (length cb_data.names)
      then grow_names cb_data de.d_name
      else store_name cb_data de.d_name

-- The operations of a file system on its inodes `I` and its state `W`; an operation that an inode does
-- not have is `none`.
pub record FsOps (W I : Type 0) : Type 1 where
  pub is_dir : W → I → Bool
  pub can_lookup : W → I → Bool
  pub lookup : W → I → List ℕ → Outcome I
  pub root : W → Option I
  pub create : W → I → Option (List ℕ → ℕ → Outcome I × W)
  pub mkdir : W → I → Option (List ℕ → ℕ → Outcome (Unit {0}) × W)
  pub rmdir : W → I → Option (List ℕ → Outcome (Unit {0}) × W)
  pub unlink : W → I → Option (List ℕ → Outcome (Unit {0}) × W)
  pub rename : W → I → Option (List ℕ → I → List ℕ → Outcome (Unit {0}) × W)
  pub getattr : W → I → Option (Outcome Stat)
  pub iterate :
      W
      → I
      → Option
          ((Collected → Dirent → Bool × Collected) → Collected → Outcome (Unit {0}) × Collected)
  pub statfs : W → Option (Outcome Statfs)
  -- The fields of an inode and of the super block that `ufs_stat` and `ufs_statfs` give by default.
  pub inode_stat : W → I → Stat
  pub default_statfs : W → Statfs
  pub files : FileOps W I

module _ {W I : Type 0} (fs : FsOps W I) where
  abbrev pub tree_of : W → Tree
  tree_of w = record {
    Inode = I;
    is_dir = fs.is_dir w;
    can_lookup = fs.can_lookup w;
    lookup = fs.lookup w;
    root = fs.root w;
  }

  -- `if (err < 0) return err;` after a walk of a path.
  pub then_found :
      {V A : Type 0} → W → Option (Outcome V) → (V → Outcome A × W) → Option (Outcome A × W)
  then_found w none k = none
  then_found w (some (err e)) k = some (err e, w)
  then_found w (some (ok v)) k = some (k v)

  -- `args` says that the pointers a call is given are not NULL.
  pub with_inode : {A : Type 0} → Bool → W → List ℕ → (I → Outcome A × W) → Option (Outcome A × W)
  with_inode args w path k =
      if args then then_found w (ufs_path_resolve (tree_of w) path) k else some (err einval, w)

  pub with_parent :
      {A : Type 0} → Bool → W → List ℕ → (I × List ℕ → Outcome A × W) → Option (Outcome A × W)
  with_parent args w path k =
      if args then then_found w (ufs_path_parent (tree_of w) path) k else some (err einval, w)

  -- `ufs_open`; `memory` says whether `calloc` of the handle succeeds.
  pub ufs_open : Bool → Bool → W → List ℕ → Option (Outcome (File fs.files) × W)
  ufs_open memory args w path = with_inode args w path (λ i. ufs_file_open fs.files memory w i 0)

  -- `ufs_create`
  pub open_created : Bool → Outcome I × W → Outcome (File fs.files) × W
  open_created memory (err e, w) = (err e, w)
  open_created memory (ok i, w) = ufs_file_open fs.files memory w i 1

  pub create_in : Bool → ℕ → W → I × List ℕ → Outcome (File fs.files) × W
  create_in memory mode w (parent, []) = (err eexist, w)
  create_in memory mode w (parent, c ∷ name) = elim (fs.create w parent) [
    | none ↦ (err enosys, w)
    | some f ↦ open_created memory (f (c ∷ name) mode)
  ]

  pub ufs_create : Bool → Bool → W → List ℕ → ℕ → Option (Outcome (File fs.files) × W)
  ufs_create memory args w path mode = with_parent args w path (create_in memory mode w)

  -- `ufs_mkdir`
  pub mkdir_in : ℕ → W → I × List ℕ → Outcome (Unit {0}) × W
  mkdir_in mode w (parent, []) = (err eexist, w)
  mkdir_in mode w (parent, c ∷ name) = elim (fs.mkdir w parent) [
    | none ↦ (err enosys, w)
    | some f ↦ f (c ∷ name) mode
  ]

  pub ufs_mkdir : Bool → W → List ℕ → ℕ → Option (Outcome (Unit {0}) × W)
  ufs_mkdir args w path mode = with_parent args w path (mkdir_in mode w)

  -- `ufs_rmdir`
  pub rmdir_in : W → I × List ℕ → Outcome (Unit {0}) × W
  rmdir_in w (parent, []) = (err ebusy, w)
  rmdir_in w (parent, c ∷ name) = elim (fs.rmdir w parent) [
    | none ↦ (err enosys, w)
    | some f ↦ f (c ∷ name)
  ]

  pub ufs_rmdir : Bool → W → List ℕ → Option (Outcome (Unit {0}) × W)
  ufs_rmdir args w path = with_parent args w path (rmdir_in w)

  -- `ufs_unlink`
  pub unlink_in : W → I × List ℕ → Outcome (Unit {0}) × W
  unlink_in w (parent, []) = (err ebusy, w)
  unlink_in w (parent, c ∷ name) = elim (fs.unlink w parent) [
    | none ↦ (err enosys, w)
    | some f ↦ f (c ∷ name)
  ]

  pub ufs_unlink : Bool → W → List ℕ → Option (Outcome (Unit {0}) × W)
  ufs_unlink args w path = with_parent args w path (unlink_in w)

  -- `ufs_rename`
  pub rename_in : W → I × List ℕ → I × List ℕ → Outcome (Unit {0}) × W
  rename_in w (old_parent, old_name) (new_parent, new_name) = elim (fs.rename w old_parent) [
    | none ↦ (err enosys, w)
    | some f ↦ f old_name new_parent new_name
  ]

  pub then_parents :
      W
      → Option (Outcome (I × List ℕ))
      → Option (Outcome (I × List ℕ))
      → Option (Outcome (Unit {0}) × W)
  then_parents w none new = none
  then_parents w (some (err e)) new = some (err e, w)
  then_parents w (some (ok old)) new = then_found w new (rename_in w old)

  pub ufs_rename : Bool → W → List ℕ → List ℕ → Option (Outcome (Unit {0}) × W)
  ufs_rename args w oldpath newpath =
      if args
      then then_parents w (ufs_path_parent (tree_of w) oldpath)
          (ufs_path_parent (tree_of w) newpath)
      else some (err einval, w)

  -- `ufs_stat` and `ufs_statfs`
  pub stat_of : W → I → Outcome Stat × W
  stat_of w i = elim (fs.getattr w i) [ none ↦ (ok (fs.inode_stat w i), w) | some r ↦ (r, w) ]

  pub ufs_stat : Bool → W → List ℕ → Option (Outcome Stat × W)
  ufs_stat args w path = with_inode args w path (stat_of w)

  pub ufs_statfs : Bool → W → Outcome Statfs
  ufs_statfs args w =
      if args
      then elim (fs.statfs w) [ none ↦ ok (fs.default_statfs w) | some r ↦ r ]
      else err einval

  -- `ufs_listdir`: the result and the names, which stay with the caller on an error too.
  pub listing : Outcome (Unit {0}) → Collected → Outcome (Unit {0}) × List (List ℕ)
  listing r cb_data = (r, cb_data.names)

  pub iterate_with :
      (ℕ → Bool)
      → (List ℕ → Bool)
      → Option
          ((Collected → Dirent → Bool × Collected) → Collected → Outcome (Unit {0}) × Collected)
      → Outcome (Unit {0}) × List (List ℕ)
  iterate_with grows copies none = (err enosys, [])
  iterate_with grows copies (some it) =
      let (r, cb_data) = it (collect_dirent grows copies) none_yet in listing r cb_data

  pub list_opened :
      (ℕ → Bool)
      → (List ℕ → Bool)
      → I
      → Outcome (File fs.files) × W
      → Outcome (Outcome (Unit {0}) × List (List ℕ)) × W
  list_opened grows copies i (err e, w) = (err e, w)
  list_opened grows copies i (ok file, w) =
      let (closed, w') = ufs_file_close fs.files w file in
      (ok (iterate_with grows copies (fs.iterate w i)), w')

  pub list_inode :
      (ℕ → Bool) → (List ℕ → Bool) → Bool → W → I → Outcome (Outcome (Unit {0}) × List (List ℕ)) × W
  list_inode grows copies memory w i =
      if fs.is_dir w i
      then list_opened grows copies i (ufs_file_open fs.files memory w i 0)
      else (err enotdir, w)

  pub ufs_listdir :
      (ℕ → Bool)
      → (List ℕ → Bool)
      → Bool
      → Bool
      → W
      → List ℕ
      → Option (Outcome (Outcome (Unit {0}) × List (List ℕ)) × W)
  ufs_listdir grows copies memory args w path =
      with_inode args w path (list_inode grows copies memory w)
