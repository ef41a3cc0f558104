-- ===== src/Api/Tests.antt =====
-- A file system with a root directory that holds one file, and calls on it.
use userfs.Prelude.{
  ℕ, ◌≡◌, refl, Bool, true, none, some, Outcome, ok, err, eexist, ebusy, enoent, List, [], ◌∷◌,
  ◌==◌,
}
use userfs.Path.{
  slash, ufs_path_resolve, resolve_from, ufs_path_walk, walk_root, walk, skip_slashes,
}
use userfs.File.{FileOps, File, ufs_file_open, open_with}
use userfs.Fat.Dir.Scan.{Dirent, ufs_dt_reg, ufs_dt_dir, feed}
use userfs.Fat.Inode.{Stat, Statfs}
use userfs.Api.{FsOps, Collected, ufs_listdir, ufs_create, ufs_mkdir, ufs_rmdir, ufs_unlink}
use userfs.Api.Root.{no_last_name}
use userfs.Api.Listing.{always, proper_names, ufs_listdir_lem}

abbrev plain_files : FileOps (Unit {0}) ℕ
plain_files = record {
  open_op = none;
  release_op = none;
  read_op = none;
  write_op = none;
  fsync_op = none;
  i_size = λ w i. 0;
}

abbrev dir_entries : List Dirent
dir_entries =
    record { d_name = 46 ∷ []; d_type = ufs_dt_dir }
    ∷ record { d_name = 46 ∷ 46 ∷ []; d_type = ufs_dt_dir }
    ∷ record { d_name = 97 ∷ []; d_type = ufs_dt_reg }
    ∷ []

abbrev walk_entries :
    (Collected → Dirent → Bool × Collected) → Collected → Outcome (Unit {0}) × Collected
walk_entries callback c = (ok tt, feed callback dir_entries c)

abbrev no_stat : Stat
no_stat = record {
  st_ino = 1;
  st_mode = 0;
  st_nlink = 1;
  st_size = 0;
  st_blksize = 512;
  st_blocks = 0;
}

abbrev no_statfs : Statfs
no_statfs = record {
  f_blocks = 0;
  f_bfree = 0;
  f_bavail = 0;
  f_files = 0;
  f_ffree = 0;
  f_bsize = 512;
  f_namelen = 0;
}

abbrev tiny : FsOps (Unit {0}) ℕ
tiny = record {
  is_dir = λ w i. i == 1;
  can_lookup = λ w i. true;
  lookup = λ w i name. err enoent;
  root = λ w. some 1;
  create = λ w i. none;
  mkdir = λ w i. none;
  rmdir = λ w i. none;
  unlink = λ w i. none;
  rename = λ w i. none;
  getattr = λ w i. none;
  iterate = λ w i. some walk_entries;
  statfs = λ w. none;
  inode_stat = λ w i. no_stat;
  default_statfs = λ w. no_statfs;
  files = plain_files;
}

abbrev handle : File plain_files
handle = record { f_inode = 1; f_pos = 0; f_flags = 0 }

ufs_listdir_example :
    (w' : Unit {0}) × (ufs_listdir tiny always always true true tt (slash ∷ [])
      ≡ some (ok (ok tt, proper_names dir_entries), w'))
unfolding ufs_path_resolve resolve_from ufs_path_walk walk_root walk skip_slashes ufs_file_open
    open_with
ufs_listdir_example =
    ufs_listdir_lem tiny tt (slash ∷ []) 1 handle walk_entries dir_entries refl refl refl refl refl

-- `a/`
abbrev with_slash : List ℕ
with_slash = 97 ∷ slash ∷ []

no_last_name_example :
    (ufs_create tiny true true tt with_slash 0 ≡ some (err eexist, tt))
    × (ufs_mkdir tiny true tt with_slash 0 ≡ some (err eexist, tt))
    × (ufs_rmdir tiny true tt with_slash ≡ some (err ebusy, tt))
    × (ufs_unlink tiny true tt with_slash ≡ some (err ebusy, tt))
no_last_name_example = no_last_name tiny tt 1 refl (97 ∷ []) true 0

abbrev one_name : Collected
one_name = record { names = (97 ∷ []) ∷ []; capacity = 1 }
