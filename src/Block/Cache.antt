-- ===== src/Block/Cache.antt =====
-- The buffer cache of one device, src/vfs/src/block_io.c. A buffer is known by its block number, and
-- a pointer to it is that number. `lru` lists the buffers most recently used first; `hash` gives
-- each bucket's chain of block numbers. `bc->lock` makes each call one step.
pub mod Find
pub mod View
pub mod Evict
pub mod Get
pub mod Read
pub mod Flush
pub mod Write
pub mod Tests
use userfs.Prelude.{
  ℕ, ◌+◌, ◌-◌, ◌%◌, ◌≤◌, ◌<◌, Bool, true, false, Option, none, some, Outcome, ok, err, Errno, eio,
  erofs, List, [], ◌∷◌, ltb, leb, ◌==◌, not, ◌&&◌, ◌||◌, if◌then◌else◌,
}

-- `struct ufs_buf`. `b_size` is left out: it is the `sector_size` that the device had when the buffer was
-- allocated, and the model is of a device whose `sector_size` stays, so that a buffer is one sector. The
-- only change of `sector_size` is at mount (`fat_set_sb_info`), when of this device the boot sector alone
-- is cached, which the code only reads.
pub record Buf : Type 0 where
  pub b_blocknr : ℕ
  pub b_data : List ℕ
  pub b_count : ℕ
  pub b_uptodate : Bool
  pub b_dirty : Bool

-- The device under the cache, through the calls of the operating system: the bytes that `pread`
-- returns for a block, nothing where it fails or is short; the blocks that `pwrite` writes whole.
pub record Device : Type 0 where
  pub content : ℕ → Option (List ℕ)
  pub accepts : ℕ → Bool
  pub readonly : Bool

-- `struct ufs_bcache` with its device.
pub record BCache : Type 0 where
  pub dev : Device
  pub lru : List Buf
  pub hash : ℕ → List ℕ
  pub nr_bufs : ℕ

-- UFS_BCACHE_NBUCKETS and UFS_BCACHE_MAX_BUF
abbrev pub nbuckets : ℕ
nbuckets = 64

abbrev pub max_buf : ℕ
max_buf = 4096

-- `bcache_hash`
abbrev pub bcache_hash : ℕ → ℕ
bcache_hash blocknr = blocknr % nbuckets

-- The walk along a chain: is the block there?
pub in_chain : ℕ → List ℕ → Bool
in_chain n [] = false
in_chain n (b ∷ chain) = b == n || in_chain n chain

pub unchain : ℕ → List ℕ → List ℕ
unchain n [] = []
unchain n (b ∷ chain) = if b == n then unchain n chain else b ∷ unchain n chain

-- The buffer of a block, and the list without it.
pub find : ℕ → List Buf → Option Buf
find n [] = none
find n (b ∷ bs) = if b.b_blocknr == n then some b else find n bs

pub remove : ℕ → List Buf → List Buf
remove n [] = []
remove n (b ∷ bs) = if b.b_blocknr == n then remove n bs else b ∷ remove n bs

-- A change of the buffer of a block, in its place.
pub change : (Buf → Buf) → ℕ → List Buf → List Buf
change f n [] = []
change f n (b ∷ bs) = (if b.b_blocknr == n then f b else b) ∷ change f n bs

-- `buf_attach_hash` and `buf_detach_hash`
pub buf_attach_hash : ℕ → (ℕ → List ℕ) → ℕ → List ℕ
buf_attach_hash n hash h = if h == bcache_hash n then n ∷ hash h else hash h

pub buf_detach_hash : ℕ → (ℕ → List ℕ) → ℕ → List ℕ
buf_detach_hash n hash h = if h == bcache_hash n then unchain n (hash h) else hash h

-- `ufs_bdev_write` of one block.
pub ufs_bdev_write : Device → ℕ → List ℕ → Outcome (Unit {0}) × Device
ufs_bdev_write d n bytes =
    if d.readonly
    then (err erofs, d)
    else if d.accepts n
    then (ok tt, record d { content = λ m. if m == n then some bytes else d.content m })
    else (err eio, d)

-- `ufs_sync_buf`: the result, the device and the buffer after the call.
pub sync_written : Buf → Outcome (Unit {0}) × Device → Outcome (Unit {0}) × Device × Buf
sync_written b (ok u, d) = (ok u, d, record b { b_dirty = false })
sync_written b (err e, d) = (err e, d, b)

pub ufs_sync_buf : Device → Buf → Outcome (Unit {0}) × Device × Buf
ufs_sync_buf d b =
    if not b.b_dirty || not b.b_uptodate
    then (ok tt, d, b)
    else sync_written b (ufs_bdev_write d b.b_blocknr b.b_data)

-- The loop of `evict_one` from the tail of the list: the last buffer that nobody holds.
pub or_this : Option Buf → Buf → Option Buf
or_this (some v) b = some v
or_this none b = if b.b_count == 0 then some b else none

pub victim : List Buf → Option Buf
victim [] = none
victim (b ∷ bs) = or_this (victim bs) b

-- `evict_one` at the buffer found. The result of the flush is not looked at.
pub drop_buf : BCache → Buf → BCache
drop_buf c v = record {
  dev = (if v.b_dirty then (ufs_sync_buf c.dev v).1 else c.dev);
  lru = remove v.b_blocknr c.lru;
  hash = buf_detach_hash v.b_blocknr c.hash;
  nr_bufs = c.nr_bufs - 1;
}

-- The start of `alloc_buf`: room for one more buffer, or nothing if all are held, where `evict_one`
-- returns the tail of the list.
pub all_held : BCache → List Buf → Option BCache
all_held c [] = some c
all_held c (b ∷ bs) = none

pub evicted : BCache → Option Buf → Option BCache
evicted c none = all_held c c.lru
evicted c (some v) = some (drop_buf c v)

pub make_room : BCache → Option BCache
make_room c = if leb max_buf c.nr_bufs then evicted c (victim c.lru) else some c

-- The rest of `alloc_buf`: a new buffer at the head; `junk` is what `malloc` left in its bytes.
pub add_buf : BCache → ℕ → List ℕ → BCache
add_buf c n junk = record c {
  lru =
      record { b_blocknr = n; b_data = junk; b_count = 1; b_uptodate = false; b_dirty = false }
      ∷ c.lru;
  hash = buf_attach_hash n c.hash;
  nr_bufs = c.nr_bufs + 1;
}

-- `buf_touch_lru` with the `b_count++` before it.
pub touched : ℕ → List Buf → Option Buf → List Buf
touched n lru none = lru
touched n lru (some b) = record b { b_count = b.b_count + 1 } ∷ remove n lru

pub buf_touch_lru : BCache → ℕ → BCache
buf_touch_lru c n = record c { lru = touched n c.lru (find n c.lru) }

-- `ufs_bget`: whether there is a buffer, which the caller then holds. `memory` says whether the
-- allocations of `alloc_buf` succeed.
pub placed : Bool → BCache → ℕ → List ℕ → Option BCache → Bool × BCache
placed memory c n junk none = (false, c)
placed memory c n junk (some c') = if memory then (true, add_buf c' n junk) else (false, c')

pub alloc_buf : Bool → BCache → ℕ → List ℕ → Bool × BCache
alloc_buf memory c n junk = placed memory c n junk (make_room c)

pub ufs_bget : Bool → BCache → ℕ → List ℕ → Bool × BCache
ufs_bget memory c n junk =
    if in_chain n (c.hash (bcache_hash n))
    then (true, buf_touch_lru c n)
    else alloc_buf memory c n junk

-- `ufs_brelse`
pub release_buf : Buf → Buf
release_buf b = if ltb 0 b.b_count then record b { b_count = b.b_count - 1 } else b

pub ufs_brelse : BCache → ℕ → BCache
ufs_brelse c n = record c { lru = change release_buf n c.lru }

-- `read_into_buf`: the buffer is filled unless it is up to date.
pub fill_buf : List ℕ → Buf → Buf
fill_buf bytes b = if b.b_uptodate then b else record b { b_data = bytes; b_uptodate = true }

pub is_uptodate : Option Buf → Bool
is_uptodate none = false
is_uptodate (some b) = b.b_uptodate

pub read_filled : BCache → ℕ → Option (List ℕ) → Bool × BCache
read_filled c n none = (false, ufs_brelse c n)
read_filled c n (some bytes) = (true, record c { lru = change (fill_buf bytes) n c.lru })

-- The end of `ufs_bread`: the buffer is up to date, or is read, or is released again.
pub read_into_buf : BCache → ℕ → Bool × BCache
read_into_buf c n =
    if is_uptodate (find n c.lru) then (true, c) else read_filled c n (c.dev.content n)

-- `ufs_bread`
pub ufs_bread : Bool → BCache → ℕ → List ℕ → Bool × BCache
ufs_bread memory c n junk =
    let (got, c') = ufs_bget memory c n junk in if got then read_into_buf c' n else (false, c')

-- A caller that holds a buffer fills its bytes and calls `ufs_mark_buf_dirty`.
pub write_bytes : (List ℕ → List ℕ) → Buf → Buf
write_bytes edit b = record b { b_data = edit b.b_data; b_dirty = true }

pub dirty_buf : BCache → ℕ → (List ℕ → List ℕ) → BCache
dirty_buf c n edit = record c { lru = change (write_bytes edit) n c.lru }

-- `ufs_sync_buf` on a buffer of the cache, of which it changes only `b_dirty`.
pub set_dirty : Bool → Buf → Buf
set_dirty dirty b = record b { b_dirty = dirty }

pub sync_found : BCache → ℕ → Option Buf → Outcome (Unit {0}) × BCache
sync_found c n none = (ok tt, c)
sync_found c n (some b) =
    let (r, d, b') = ufs_sync_buf c.dev b in
    (r, record c { dev = d; lru = change (set_dirty b'.b_dirty) n c.lru })

pub sync_block : BCache → ℕ → Outcome (Unit {0}) × BCache
sync_block c n = sync_found c n (find n c.lru)

-- `ufs_bcache_flush`: every dirty buffer is synced; the first failure is the result.
pub sync_dirty : Device → Buf → Outcome (Unit {0}) × Device × Buf
sync_dirty d b = if b.b_dirty then ufs_sync_buf d b else (ok tt, d, b)

pub first_error : Outcome (Unit {0}) → Outcome (Unit {0}) → Outcome (Unit {0})
first_error (ok u) rest = rest
first_error (err e) rest = err e

pub flush_from : Device → List Buf → Outcome (Unit {0}) × Device × List Buf
flush_from d [] = (ok tt, d, [])
flush_from d (b ∷ bs) =
    let (r, d', b') = sync_dirty d b in
    let (rest, d'', bs') = flush_from d' bs in (first_error r rest, d'', b' ∷ bs')

pub ufs_bcache_flush : BCache → Outcome (Unit {0}) × BCache
ufs_bcache_flush c =
    let (r, d, bufs) = flush_from c.dev c.lru in (r, record c { dev = d; lru = bufs })
