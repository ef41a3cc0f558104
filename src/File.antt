-- ===== src/File.antt =====
-- Open files, src/vfs/src/file.c. The operations of the file system under a file are a parameter; a
-- missing one is `none`. A position is a natural number, which `ufs_file_seek` keeps it.
pub mod Position
pub mod Tests
use userfs.Prelude.{
  ℕ, ◌+◌, ◌-◌, Bool, true, false, Option, none, some, Outcome, ok, err, enomem, enosys, einval,
  List, length, ltb, leb, if◌then◌else◌,
}

-- `struct ufs_file_operations` on the state `W` of the file system and the inodes `I`: a read gives
-- the bytes it copies, a write the number of bytes it takes.
pub record FileOps (W I : Type 0) : Type 0 where
  pub open_op : Option (W → I → ℕ → Outcome (Unit {0}) × W)
  pub release_op : Option (W → I → Outcome (Unit {0}) × W)
  pub read_op : Option (W → I → ℕ → ℕ → Outcome (List ℕ) × W)
  pub write_op : Option (W → I → List ℕ → ℕ → Outcome ℕ × W)
  pub fsync_op : Option (W → I → Outcome (Unit {0}) × W)
  -- `i_size`
  pub i_size : W → I → ℕ

-- `loff_t offset` with its sign, and `whence`.
pub data Offset : Type 0 where
  forward : ℕ → Offset
  backward : ℕ → Offset

pub data Whence : Type 0 where
  seek_set : Whence
  seek_cur : Whence
  seek_end : Whence
  other : Whence

module _ {W I : Type 0} (ops : FileOps W I) where
  -- `struct ufs_file`, with its `f_op` fixed.
  pub record File : Type 0 where
    pub f_inode : I
    pub f_pos : ℕ
    pub f_flags : ℕ

  pub opened : File → Outcome (Unit {0}) × W → Outcome File × W
  opened file (ok u, w) = (ok file, w)
  opened file (err e, w) = (err e, w)

  unfoldable pub open_with :
      Option (W → I → ℕ → Outcome (Unit {0}) × W) → W → I → ℕ → File → Outcome File × W
  open_with none w i flags file = (ok file, w)
  open_with (some f) w i flags file = opened file (f w i flags)

  -- `ufs_file_open`; `memory` says whether `calloc` succeeds.
  unfoldable pub ufs_file_open : Bool → W → I → ℕ → Outcome File × W
  ufs_file_open memory w i flags =
      if memory
      then open_with ops.open_op w i flags (record { f_inode = i; f_pos = 0; f_flags = flags })
      else (err enomem, w)

  -- `ufs_file_close`: the handle is gone whatever `release` says.
  pub close_with : Option (W → I → Outcome (Unit {0}) × W) → W → I → Outcome (Unit {0}) × W
  close_with none w i = (ok tt, w)
  close_with (some f) w i = f w i

  pub ufs_file_close : W → File → Outcome (Unit {0}) × W
  ufs_file_close w file = close_with ops.release_op w file.f_inode

  -- `if (ret > 0) file->f_pos += ret;`
  pub advance : File → ℕ → File
  advance file n = record file { f_pos = file.f_pos + n }

  pub after_read : File → Outcome (List ℕ) × W → Outcome (List ℕ) × File × W
  after_read file (ok bytes, w) = (ok bytes, advance file (length bytes), w)
  after_read file (err e, w) = (err e, file, w)

  pub read_with :
      Option (W → I → ℕ → ℕ → Outcome (List ℕ) × W) → W → File → ℕ → Outcome (List ℕ) × File × W
  read_with none w file count = (err enosys, file, w)
  read_with (some f) w file count = after_read file (f w file.f_inode count file.f_pos)

  -- `ufs_file_read`
  pub ufs_file_read : W → File → ℕ → Outcome (List ℕ) × File × W
  ufs_file_read w file count = read_with ops.read_op w file count

  pub after_write : File → Outcome ℕ × W → Outcome ℕ × File × W
  after_write file (ok n, w) = (ok n, advance file n, w)
  after_write file (err e, w) = (err e, file, w)

  pub write_with :
      Option (W → I → List ℕ → ℕ → Outcome ℕ × W) → W → File → List ℕ → Outcome ℕ × File × W
  write_with none w file bytes = (err enosys, file, w)
  write_with (some f) w file bytes = after_write file (f w file.f_inode bytes file.f_pos)

  -- `ufs_file_write`
  pub ufs_file_write : W → File → List ℕ → Outcome ℕ × File × W
  ufs_file_write w file bytes = write_with ops.write_op w file bytes

  -- `new_pos`, nothing where it is negative. The sums of `loff_t` are taken not to overflow.
  pub new_pos : ℕ → Offset → Option ℕ
  new_pos base (forward n) = some (base + n)
  new_pos base (backward n) = if leb n base then some (base - n) else none

  pub seek_base : W → File → Whence → Option ℕ
  seek_base w file seek_set = some 0
  seek_base w file seek_cur = some file.f_pos
  seek_base w file seek_end = some (ops.i_size w file.f_inode)
  seek_base w file other = none

  pub move_to : File → Option ℕ → Outcome ℕ × File
  move_to file none = (err einval, file)
  move_to file (some pos) = (ok pos, record file { f_pos = pos })

  pub seek_from : File → Offset → Option ℕ → Outcome ℕ × File
  seek_from file offset none = (err einval, file)
  seek_from file offset (some base) = move_to file (new_pos base offset)

  -- `ufs_file_seek`
  pub ufs_file_seek : W → File → Offset → Whence → Outcome ℕ × File
  ufs_file_seek w file offset whence = seek_from file offset (seek_base w file whence)

  -- `ufs_file_fsync`
  pub fsync_with : Option (W → I → Outcome (Unit {0}) × W) → W → I → Outcome (Unit {0}) × W
  fsync_with none w i = (ok tt, w)
  fsync_with (some f) w i = f w i

  pub ufs_file_fsync : W → File → Outcome (Unit {0}) × W
  ufs_file_fsync w file = fsync_with ops.fsync_op w file.f_inode
