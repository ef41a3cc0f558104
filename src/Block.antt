-- ===== src/Block.antt =====
-- The block device and its LRU buffer cache, src/vfs/src/block_io.c.
pub mod Cache
