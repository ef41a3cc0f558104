-- ===== src/Path.antt =====
-- Paths: `ufs_path_split` of src/vfs/src/dentry.c, `ufs_path_walk`, `ufs_path_resolve` and
-- `ufs_path_parent` of src/vfs/src/path.c. A string is the list of its bytes without the final NUL.
pub mod Names
pub mod Walk
pub mod LastSlash
pub mod Tests
use userfs.Prelude.{
  ℕ, zero, suc, ◌-◌, Bool, true, false, Option, none, some, Outcome, ok, err, einval, enoent,
  enotdir, enosys, enametoolong, List, [], ◌∷◌, length, take, ltb, leb, ◌==◌, ◌&&◌, if◌then◌else◌,
}

abbrev pub slash : ℕ
slash = 47

abbrev pub dot : ℕ
dot = 46

-- `while (*p == '/') p++;`
unfoldable pub skip_slashes : List ℕ → List ℕ
skip_slashes [] = []
skip_slashes (c ∷ p) = if c == slash then skip_slashes p else c ∷ p

-- `strrchr(path, '/')`: what stands before the last slash, and what after it.
unfoldable pub split_at : ℕ → List ℕ → Option (List ℕ × List ℕ) → Option (List ℕ × List ℕ)
split_at c p none = if c == slash then some ([], p) else none
split_at c p (some (before, after)) = some (c ∷ before, after)

unfoldable pub last_slash : List ℕ → Option (List ℕ × List ℕ)
last_slash [] = none
last_slash (c ∷ p) = split_at c p (last_slash p)

-- What `ufs_path_split` leaves in `parent` and `*name`. The caller has cleared `parent`.
pub record Split : Type 0 where
  pub parent : List ℕ
  pub name : List ℕ

-- `copy_len`
abbrev pub copy_len : ℕ → ℕ → ℕ
copy_len len parent_size = if ltb len parent_size then len else parent_size - 1

unfoldable pub split_found : ℕ → List ℕ → Option (List ℕ × List ℕ) → Split
split_found parent_size path none = record { parent = []; name = path }
split_found parent_size path (some (before, after)) = record {
  parent = take (copy_len (length before) parent_size) before;
  name = after;
}

unfoldable pub split_stripped : ℕ → List ℕ → Split
split_stripped parent_size [] = record { parent = []; name = [] }
split_stripped parent_size (c ∷ p) = split_found parent_size (c ∷ p) (last_slash (c ∷ p))

unfoldable pub ufs_path_split : ℕ → List ℕ → Outcome Split
ufs_path_split parent_size [] = err einval
ufs_path_split parent_size (c ∷ p) = ok (split_stripped parent_size (skip_slashes (c ∷ p)))

-- `while (*end && *end != '/') end++;`: the component, and the rest of the path.
pub onto : ℕ → List ℕ × List ℕ → List ℕ × List ℕ
onto c (comp, rest) = (c ∷ comp, rest)

pub component : List ℕ → List ℕ × List ℕ
component [] = ([], [])
component (c ∷ p) = if c == slash then ([], c ∷ p) else onto c (component p)

-- `strcmp(component, ".") == 0`
pub is_dot : List ℕ → Bool
is_dot [] = false
is_dot (c ∷ []) = c == dot
is_dot (c ∷ d ∷ p) = false

-- The file system: its inodes, `S_ISDIR`, whether `i_op` has a `lookup`, and that `lookup`. `root`
-- is what `ufs_iget(sb, 1)` returns.
pub record Tree : Type 1 where
  pub Inode : Type 0
  pub is_dir : Inode → Bool
  pub can_lookup : Inode → Bool
  pub lookup : Inode → List ℕ → Outcome Inode
  pub root : Option Inode

module _ (S : Tree) where
  open S use {Inode, is_dir, can_lookup, lookup, root}

  -- The body of the loop from the check of the component on; `go` are the later rounds.
  pub look_up : Inode → List ℕ → (Inode → Option (Outcome Inode)) → Option (Outcome Inode)
  look_up cur name go =
      if is_dir cur
      then (if can_lookup cur
          then elim (lookup cur name) [ ok next ↦ go next | err e ↦ some (err e) ]
          else some (err enosys))
      else some (err enotdir)

  pub enter : Inode → List ℕ → (Inode → Option (Outcome Inode)) → Option (Outcome Inode)
  enter cur name go =
      if leb 256 (length name)
      then some (err enametoolong)
      else if is_dot name
      then go cur
      else look_up cur name go

  -- The end of a path with a trailing slash.
  unfoldable pub must_be_dir : Inode → Outcome Inode
  must_be_dir cur = if is_dir cur then ok cur else err enotdir

  -- One round, after the slashes are skipped.
  unfoldable pub round :
      Inode → List ℕ → (Inode → List ℕ → Option (Outcome Inode)) → Option (Outcome Inode)
  round cur [] go = some (must_be_dir cur)
  round cur (c ∷ p) go =
      let (name, rest) = component (c ∷ p) in enter cur name (λ next. go next rest)

  -- `while (*p)`; `none` when the fuel runs out.
  unfoldable pub walk : ℕ → Inode → List ℕ → Option (Outcome Inode)
  walk zero cur p = none
  walk (suc fuel) cur [] = some (ok cur)
  walk (suc fuel) cur (c ∷ p) = round cur (skip_slashes (c ∷ p)) (walk fuel)

  unfoldable pub walk_root : List ℕ → Option Inode → Option (Outcome Inode)
  walk_root p none = some (err enoent)
  walk_root p (some r) = walk (suc (length p)) r (skip_slashes p)

  -- `ufs_path_walk`
  unfoldable pub ufs_path_walk : Inode → List ℕ → Option (Outcome Inode)
  ufs_path_walk dir [] = some (ok dir)
  ufs_path_walk dir (c ∷ p) =
      if c == slash then walk_root (c ∷ p) root else walk (suc (length (c ∷ p))) dir (c ∷ p)

  -- `ufs_path_resolve`
  unfoldable pub resolve_from : List ℕ → Option Inode → Option (Outcome Inode)
  resolve_from path none = some (err enoent)
  resolve_from path (some r) = ufs_path_walk r path

  unfoldable pub ufs_path_resolve : List ℕ → Option (Outcome Inode)
  ufs_path_resolve path = resolve_from path root

  -- `ufs_path_parent`: the parent and `*name`. `parent_path[0] ? parent_path : "/"`
  pub or_root : List ℕ → List ℕ
  or_root [] = slash ∷ []
  or_root (c ∷ p) = c ∷ p

  unfoldable pub with_name : List ℕ → Option (Outcome Inode) → Option (Outcome (Inode × List ℕ))
  with_name name none = none
  with_name name (some (err e)) = some (err e)
  with_name name (some (ok i)) = some (ok (i, name))

  unfoldable pub root_result : Option Inode → Option (Outcome Inode)
  root_result none = some (err enoent)
  root_result (some r) = some (ok r)

  unfoldable pub parent_of : List ℕ → List ℕ → Option (Outcome (Inode × List ℕ))
  parent_of parent [] = with_name [] (root_result root)
  parent_of parent (c ∷ name) = with_name (c ∷ name) (ufs_path_resolve (or_root parent))

  unfoldable pub parent_split : Outcome Split → Option (Outcome (Inode × List ℕ))
  parent_split (err e) = some (err e)
  parent_split (ok s) = parent_of s.parent s.name

  unfoldable pub ufs_path_parent : List ℕ → Option (Outcome (Inode × List ℕ))
  ufs_path_parent path = parent_split (ufs_path_split 1024 path)
