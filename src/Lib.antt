-- ===== src/Lib.antt =====
-- userfs, a user-space FAT driver: a buffer cache over a block device (src/vfs), the FAT driver that
-- reads and writes the table and the directories through it (src/fs/fat), and the calls of the
-- library on paths and open files (src/vfs). This library models the parts below and proves what makes
-- them correct. It says `src/...` for the paths of the repository.
--
-- Block/Cache: the buffer cache of src/vfs/src/block_io.c. A buffer is known by its block number, so
-- the hash chains and the LRU list, linked by pointers in the code, are lists of numbers and of
-- buffers. The state is `BCache`; `ufs_bget`, `ufs_bread`, `ufs_brelse`, `ufs_sync_buf`,
-- `ufs_bcache_flush` have the names of the code, and a caller's change of a buffer that it marks dirty
-- is `dirty_buf`. `Device` is what the system calls do. A mutex is held over each call but for the
-- read of the device in `ufs_bread`, so the calls of one thread are steps. The child modules are named
-- for what they prove; `View` has the abstract view of a cache, the bytes a reader sees of each block,
-- and soundness. A buffer is one sector: the model is of a device whose `sector_size` stays, as it does after
-- the boot sector is read, so `b_size` is left out.
--
-- Fat/Entry, Fat/Words, Fat/Widths: entries of the table in src/fs/fat/src/fatent.c, for FAT12 in a pair
-- of bytes, for FAT16 and FAT32 in the bytes of blocks. They fill the interface Fat/Table, which the
-- allocator and the walk use: reading an entry, storing one, and the laws between them.
--
-- Fat/Alloc: `fat_alloc_clusters` and `fat_free_clusters` of src/fs/fat/src/fatent.c. The search runs on
-- fuel `max_cluster + 1`, one more than the entries it counts before it gives up. The free loop runs on
-- `max_cluster + 1`: each round turns a used entry into a free one or stops at the next round.
--
-- Fat/ClusterCache, Fat/GetCluster: the cache of runs and `fat_get_cluster` of src/fs/fat/src/cache.c. The
-- walk runs on fuel `limit + 2`, where `limit` is `s_maxbytes >> cluster_bits`, at which the code gives up.
-- `Reference` is the walk with nothing cached.
--
-- Fat/Mount: the boot sector, the geometry of the volume, the FSINFO hint and the free count of
-- src/fs/fat/src/fat_fs.c. A loop `bits_from` has 32 rounds, more than the sizes below 2^32 need.
--
-- Path: `ufs_path_split` of src/vfs/src/dentry.c and `ufs_path_walk` of src/vfs/src/path.c, over the inodes
-- and the `lookup` of a file system, which are parameters. The walk runs on fuel one more than the
-- length of the path; a round that goes on takes at least one byte off it.
--
-- File: the open files of src/vfs/src/file.c, over the operations of a file system, which are parameters.
--
-- Registry: the types of file systems of src/vfs/src/register.c. Fat/ShortName: the short names that
-- `vfat_build_sfn` (src/fs/fat/src/namei.c) builds and `fat_parse_short` (dir.c) reads; `toupper` is a
-- parameter. Fat/Bmap: `fat_bmap` of src/fs/fat/src/cache.c. Fat/Bmap/Sectors
-- tells its answer from the list of the clusters of a file.
--
-- Fat/Grow: `fat_chain_add` (src/fs/fat/src/misc.c) and `fat_add_cluster` (vfs_file.c), on chains as lists
-- of clusters. What the device answers to a write is a parameter, and so is what `fat_sync_inode`
-- (vfs_inode.c, not modelled) makes of the block of the directory entry.
--
-- Fat/DirEntry, Fat/Dir: entries of a directory as 32 bytes of a block, and the scans of
-- src/fs/fat/src/dir.c: `fat_get_entry` with its cursor, `fat_search_long`, `fat_readdir`,
-- `fat_dir_empty`, `fat_subdirs`, `fat_scan_logstart`, `fat_get_dotdot_entry`; and `fat_remove_entries`. A scan changes nothing, so
-- the directory is the interface `DirBlocks`, which Fat/Dir/Blocks fills for the fixed root directory
-- and for a chain of clusters. The jump back in `fat__get_entry` has fuel for every sector, the loops
-- for every entry that the sectors can hold. `Entries` is the directory as a list.
--
-- Fat/Dir/View reads any directory so, whatever the table holds: the walk gives up past `limit`, so no
-- sector lies beyond `(limit + 2)` clusters. Fat/Dir/Add: `fat_add_entries` with the zeroing, the chaining
-- and the giving back of a cluster for a full directory. `got` is what `ufs_bget` finds of a block, since
-- the code fills such buffers without a read. Fat/Dir/Located, Edit and SameMap relate positions, entries and
-- bytes before and after a change.
--
-- Fat/Namei: all calls of src/fs/fat/src/namei.c on a name in a directory, lookup, creation, unlinking,
-- making and removing a directory, renaming, with `fat_build_inode` and `fat_attach` (vfs_inode.c) and
-- `fat_alloc_new_dir` (dir.c). The state `Names` is the directory, the counter of inode numbers and the
-- attached inodes, newest first, as a list; the record `Env` holds what a call takes from outside, the
-- present time and what `strncasecmp`, `toupper` and `calloc` do included. The field
-- `i_parent_dir_ino`, which these calls only set, is left out of an inode.
--
-- Fat/Read: `fat_file_read` of src/fs/fat/src/vfs_file.c; each round reads a byte at least, so its fuel is
-- the count. Fat/Write: `fat_file_write`; its loop starts again after every attempt to make room, so its fuel
-- is an argument, and one round more than there are bytes is enough where the blocks are there. Fat/Inode: inodes from entries (vfs_inode.c, fat_core.h), attributes and truncation
-- (vfs_file.c). Fat/Times: the times of entries (misc.c); `gmtime_r` is a parameter.
-- Fat/Flush: `fat_clusters_flush` (src/fs/fat/src/misc.c).
--
-- Inodes: the hash table of src/vfs/src/inode.c. Its chains are linked through `i_private` of the inodes; a
-- loop has as many rounds as it is given, and one more than a chain has inodes is enough.
--
-- Api: the calls of src/vfs/src/api.c on paths, over the path walk, the open files and the operations of
-- a file system, which are parameters.
--
-- Not modelled: writing inodes back, release and sync of files (src/fs/fat/src/vfs_inode.c, vfs_file.c),
-- the copies of the table, FAT12 entries in blocks, the link counts of inodes, super blocks,
-- mounting and unmounting (src/vfs/src/inode.c, super.c, api.c), and the command line tool (src/tools/fatool),
-- which parses arguments and prints.
pub mod Prelude
pub mod Block
pub mod Fat
pub mod Path
pub mod File
pub mod Registry
pub mod Inodes
pub mod Api
