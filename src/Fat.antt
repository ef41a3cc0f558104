-- ===== src/Fat.antt =====
-- The FAT driver, src/fs/fat/src.
pub mod Table
pub mod Count
pub mod Chain
pub mod Alloc
pub mod ClusterCache
pub mod GetCluster
pub mod Entry
pub mod Words
pub mod Write
pub mod Widths
pub mod Mount
pub mod ShortName
pub mod Bmap
pub mod Grow
pub mod DirEntry
pub mod Dir
pub mod Read
pub mod Inode
pub mod Times
pub mod Flush
pub mod Namei
pub mod Tests
