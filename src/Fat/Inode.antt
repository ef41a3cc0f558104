-- ===== src/Fat/Inode.antt =====
-- Inodes of the FAT driver: `fat_fill_inode`, `fat_build_inode` and `fat_statfs` of
-- src/fs/fat/src/vfs_inode.c, `fat_make_mode` and `fat_make_attrs` of fat_core.h, and `fat_free`,
-- `fat_truncate_blocks`, `fat_setattr` and `fat_getattr` of vfs_file.c.
pub mod Fill
pub mod Truncate
pub mod Tests
use userfs.Prelude.{
  ℕ, ◌+◌, ◌-◌, ◌*◌, ◌/◌, ◌^◌, ◌%◌, Bool, true, false, Option, none, some, Outcome, ok, err, List,
  [], ltb, ◌==◌, not, ◌&&◌, if◌then◌else◌, bit_and, bit_or,
}
use userfs.Fat.Table.{FatTable}
use userfs.Fat.Alloc.{Fs, fat_free_clusters}
use userfs.Fat.Mount.{SbInfo}
use userfs.Fat.Grow.{Node}
use userfs.Fat.DirEntry.{DirEntry, has_attr, fat_get_start}

-- The operations of an inode: `sbi->dir_ops` with `fat_dir_operations`, or `fat_file_operations` alone.
pub data Operations : Type 0 where
  dir_ops file_ops : Operations

-- The fields of `struct ufs_inode` and `struct msdos_inode_info` that the driver sets.
pub record Inode : Type 0 where
  pub i_ino : ℕ
  pub i_mode : ℕ
  pub i_size : ℕ
  pub i_nlink : ℕ
  pub i_attrs : ℕ
  pub i_pos : ℕ
  pub ops : Operations
  pub node : Node

-- The mount options that a mode depends on.
pub record MountOptions : Type 0 where
  pub fs_fmask : ℕ
  pub fs_dmask : ℕ
  pub rodir : Bool

abbrev pub attr_ro : ℕ
attr_ro = 1

abbrev pub attr_dir_bit : ℕ
attr_dir_bit = 16

abbrev pub attr_unused : ℕ
attr_unused = 46

abbrev pub s_iwugo : ℕ
s_iwugo = 146

abbrev pub s_irwxugo : ℕ
s_irwxugo = 511

-- `S_ISDIR`
abbrev pub s_isdir : ℕ → Bool
s_isdir mode = bit_and mode (15 * 2 ^ 12) == 4 * 2 ^ 12

-- `m & ~mask`
abbrev pub and_not : ℕ → ℕ → ℕ
and_not m mask = m - bit_and m mask

-- `attrs & bit`
abbrev pub attrs_have : ℕ → ℕ → Bool
attrs_have attrs bit = not (bit_and attrs bit == 0)

-- The first `if` of `fat_make_mode`: a read-only file, or directory where directories may be so.
pub write_mode : MountOptions → ℕ → ℕ → ℕ
write_mode o attrs mode =
    if attrs_have attrs attr_ro && not (attrs_have attrs attr_dir_bit && not o.rodir)
    then and_not mode s_iwugo
    else mode

-- `fat_make_mode`
pub fat_make_mode : MountOptions → ℕ → ℕ → ℕ
fat_make_mode o attrs mode =
    if attrs_have attrs attr_dir_bit
    then bit_or (and_not (write_mode o attrs mode) o.fs_dmask) (4 * 2 ^ 12)
    else bit_or (and_not (write_mode o attrs mode) o.fs_fmask) (8 * 2 ^ 12)

-- `fat_make_attrs`
pub fat_make_attrs : Inode → ℕ
fat_make_attrs inode =
    if s_isdir inode.i_mode then bit_or inode.i_attrs attr_dir_bit else inode.i_attrs

-- `fat_alloc_inode` where `calloc` succeeds: `next_ino` is the static counter.
pub fat_alloc_inode : ℕ → Inode × ℕ
fat_alloc_inode next_ino = (
  record {
    i_ino = next_ino;
    i_mode = 0;
    i_size = 0;
    i_nlink = 0;
    i_attrs = 0;
    i_pos = 0;
    ops = file_ops;
    node = record {
      i_start = 0;
      i_logstart = 0;
      i_blocks = 0;
      mmu_private = 0;
      runs = record { runs = []; nr_caches = 0; cache_valid_id = 1 };
    };
  },
  (next_ino + 1) % 2 ^ 32,
)

-- `fat_fill_inode`
unfoldable pub fat_fill_inode : MountOptions → Bool → Inode → DirEntry → Inode
fat_fill_inode o is_fat32 inode de =
    let cluster = fat_get_start is_fat32 de in
    let mode = fat_make_mode o de.attr s_irwxugo in
    record inode {
      i_mode = mode;
      i_size = de.size;
      i_nlink = 1;
      i_attrs = bit_and de.attr attr_unused;
      ops = if s_isdir mode then dir_ops else file_ops;
      node = record inode.node {
        i_start = cluster;
        i_logstart = cluster;
        mmu_private = de.size;
        i_blocks = 0;
      };
    }

-- `struct ufs_stat`, and `fat_getattr`
pub record Stat : Type 0 where
  pub st_ino : ℕ
  pub st_mode : ℕ
  pub st_nlink : ℕ
  pub st_size : ℕ
  pub st_blksize : ℕ
  pub st_blocks : ℕ

pub fat_getattr : ℕ → Inode → Stat
fat_getattr s_blocksize inode = record {
  st_ino = inode.i_ino;
  st_mode = inode.i_mode;
  st_nlink = inode.i_nlink;
  st_size = inode.i_size;
  st_blksize = s_blocksize;
  st_blocks = inode.node.i_blocks;
}

-- `struct ufs_statfs`, and `fat_statfs`
pub record Statfs : Type 0 where
  pub f_blocks : ℕ
  pub f_bfree : ℕ
  pub f_bavail : ℕ
  pub f_files : ℕ
  pub f_ffree : ℕ
  pub f_bsize : ℕ
  pub f_namelen : ℕ

pub fat_statfs : SbInfo → ℕ → ℕ → Statfs
fat_statfs sb total_sectors sector_size = record {
  f_blocks = total_sectors * sector_size / sb.cluster_size;
  f_bfree = sb.free_clusters;
  f_bavail = sb.free_clusters;
  f_files = sb.max_cluster;
  f_ffree = sb.free_clusters;
  f_bsize = sb.s_blocksize;
  f_namelen = 256;
}

module _ (T : FatTable) where
  -- `fat_free` after `fat_free_clusters`
  pub emptied : Inode → Inode
  emptied inode = record inode {
    i_size = 0;
    node = record inode.node { i_start = 0; i_logstart = 0; mmu_private = 0; i_blocks = 0 };
  }

  pub freed_file :
      Inode → Option (Outcome (Unit {0}) × Fs T) → Option (Outcome (Unit {0}) × Inode × Fs T)
  freed_file inode none = none
  freed_file inode (some (err e, fs)) = some (err e, inode, fs)
  freed_file inode (some (ok u, fs)) = some (ok tt, emptied inode, fs)

  -- `fat_free`
  pub fat_free : Inode → Bool → Fs T → Option (Outcome (Unit {0}) × Inode × Fs T)
  fat_free inode skip_start fs =
      if inode.node.i_start == 0
      then some (ok tt, inode, fs)
      else if skip_start
      then some (ok tt, inode, fs)
      else freed_file inode (fat_free_clusters T fs inode.node.i_start)

  -- `fat_truncate_blocks`, which drops the result of `fat_free`
  pub drop_result : Option (Outcome (Unit {0}) × Inode × Fs T) → Option (Inode × Fs T)
  drop_result none = none
  drop_result (some (r, inode, fs)) = some (inode, fs)

  pub fat_truncate_blocks : Inode → ℕ → Fs T → Option (Inode × Fs T)
  fat_truncate_blocks inode offset fs =
      if offset == 0 then drop_result (fat_free inode false fs) else some (inode, fs)

  -- `fat_setattr`; the size is there where `ia_valid` has `UFS_ATTR_SIZE`.
  pub with_size : ℕ → Option (Inode × Fs T) → Option (Inode × Fs T)
  with_size size none = none
  with_size size (some (inode, fs)) = some (record inode { i_size = size }, fs)

  pub fat_setattr : Inode → Option ℕ → Fs T → Option (Inode × Fs T)
  fat_setattr inode none fs = some (inode, fs)
  fat_setattr inode (some ia_size) fs =
      with_size ia_size (
        if ltb ia_size inode.i_size then fat_truncate_blocks inode ia_size fs else some (inode, fs))
