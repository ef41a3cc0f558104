-- ===== src/Block/Cache/Tests.antt =====
-- A small device and runs of the buffer cache on it.
use userfs.Prelude.{ℕ, ◌≡◌, refl, true, false, some, List, [], ◌∷◌}
use userfs.Block.Cache.{
  Device, BCache, in_chain, find, make_room, add_buf, alloc_buf, placed, ufs_bget, ufs_bread,
  read_into_buf, read_filled, is_uptodate, dirty_buf, ufs_bcache_flush, sync_block,
}
use userfs.Block.Cache.View.{Keeps, is_some, IsClean, IsSound}
use userfs.Block.Cache.Read.{IsRead, ufs_bread-Keeps, ufs_bread-IsRead}
use userfs.Block.Cache.Flush.{IsFlushed, ufs_bcache_flush-IsFlushed}
use userfs.Block.Cache.Write.{IsWritten, IsLost, dirty_buf-IsWritten, bget_fill-IsLost}

abbrev device : Device
device = record { content = λ n. some (n ∷ 0 ∷ []); accepts = λ n. true; readonly = false }

abbrev empty : BCache
empty = record { dev = device; lru = []; hash = λ h. []; nr_bufs = 0 }

empty-IsSound : IsSound empty
unfolding in_chain is_some find IsClean
empty-IsSound = record {
  writable = refl;
  accepting = λ n. refl;
  distinct = tt;
  chained = λ n. refl;
  clean = λ n. tt;
}

abbrev junk : List ℕ
junk = 9 ∷ 9 ∷ []

ufs_bread-Keeps_example : Keeps empty (ufs_bread true empty 71 junk).1
ufs_bread-Keeps_example = ufs_bread-Keeps true empty 71 junk empty-IsSound

read_succeeds : (ufs_bread true empty 71 junk).0 ≡ true
unfolding ufs_bread ufs_bget alloc_buf placed make_room in_chain add_buf find read_into_buf
    is_uptodate read_filled
read_succeeds = refl

ufs_bread-IsRead_example : IsRead empty (ufs_bread true empty 71 junk).1 71
ufs_bread-IsRead_example = ufs_bread-IsRead true empty 71 junk empty-IsSound read_succeeds

-- The cache with block 71 read.
abbrev warm : BCache
warm = (ufs_bread true empty 71 junk).1

warm-IsRead : IsRead empty warm 71
warm-IsRead = ufs_bread-IsRead true empty 71 junk empty-IsSound read_succeeds

warm-IsSound : IsSound warm
warm-IsSound = (ufs_bread-Keeps true empty 71 junk empty-IsSound).sound

abbrev edit : List ℕ → List ℕ
edit l = 5 ∷ 5 ∷ []

dirty_buf-IsWritten_example : IsWritten warm (dirty_buf warm 71 edit) 71 (5 ∷ 5 ∷ [])
dirty_buf-IsWritten_example =
    dirty_buf-IsWritten warm 71 edit warm-IsRead.buf warm-IsSound warm-IsRead.cached
      warm-IsRead.uptodate

-- That block dirty.
dirty-IsSound : IsSound (dirty_buf warm 71 edit)
dirty-IsSound =
    (dirty_buf-IsWritten warm 71 edit warm-IsRead.buf warm-IsSound warm-IsRead.cached
      warm-IsRead.uptodate).sound

ufs_bcache_flush-IsFlushed_example :
    IsFlushed (dirty_buf warm 71 edit) (ufs_bcache_flush (dirty_buf warm 71 edit))
ufs_bcache_flush-IsFlushed_example =
    ufs_bcache_flush-IsFlushed (dirty_buf warm 71 edit) dirty-IsSound

bget_fill-IsLost_example :
    IsLost empty
      (ufs_bget true empty 71 junk).1
      (sync_block (dirty_buf (ufs_bget true empty 71 junk).1 71 edit) 71)
unfolding find
bget_fill-IsLost_example = bget_fill-IsLost true empty 71 junk edit empty-IsSound refl
