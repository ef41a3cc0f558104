-- ===== src/Block/Cache/Write.antt =====
-- A caller's change of a buffer's bytes, `ufs_mark_buf_dirty` and `ufs_sync_buf` of
-- src/vfs/src/block_io.c: after `ufs_bread` the new bytes are seen, after `ufs_bget` they may not be.
use userfs.Prelude.{
  ℕ, ◌≡◌, ◌≢◌, refl, Bool, true, false, Option, none, some, Outcome, ok, List, ◌==◌, ◌∙◌, sym,
  subst, inl, inr, eq_cases, ==_self, ne→==, if_true,
}
use userfs.Block.Cache.{
  Buf, BCache, find, change, placed, add_buf, alloc_buf, ufs_bget, make_room, write_bytes,
  dirty_buf, ufs_sync_buf, set_dirty, sync_found, sync_block,
}
use userfs.Block.Cache.Find.{find-change, KeepsNumber, map_if, Distinct-change}
use userfs.Block.Cache.View.{viewed, view, is_some, IsClean, IsSound}
use userfs.Block.Cache.Evict.{make_room_absent}
use userfs.Block.Cache.Get.{ufs_bget-Keeps}

-- The caller's bytes are what a reader of block `n` sees; no other block changed.
pub record IsWritten (c c' : BCache) (n : ℕ) (bytes : List ℕ) : Type 0 where
  pub sound : IsSound c'
  pub here : view c' n ≡ some bytes
  pub elsewhere : (m : ℕ) → m ≢ n → view c' m ≡ view c m

-- On a sound cache with an up to date buffer of block `n`, a change of its bytes marked dirty is seen
-- by the readers of `n` and by no other, and the cache stays sound.
pub dirty_buf-IsWritten :
    (c : BCache) (n : ℕ) (edit : List ℕ → List ℕ) (b : Buf)
    → IsSound c
    → find n c.lru ≡ some b
    → b.b_uptodate ≡ true
    → IsWritten c (dirty_buf c n edit) n (edit b.b_data)
unfolding dirty_buf write_bytes map_if viewed is_some IsClean
dirty_buf-IsWritten c n edit b s found up = record {
  sound = record {
    writable = s.writable;
    accepting = s.accepting;
    distinct = Distinct-change (write_bytes edit) n c.lru number s.distinct;
    chained = λ m.
        rw (find-change (write_bytes edit) m n c.lru number, s.chained m)
          (some_at (n == m) (find m c.lru));
    clean = λ m.
        rw (find-change (write_bytes edit) m n c.lru number)
          (clean_at (n == m) m (find m c.lru) (s.clean m));
  };
  here =
      rw (find-change (write_bytes edit) n n c.lru number, ==_self n, found)
        (if_true (some (edit b.b_data)) (c.dev.content n) up);
  elsewhere = λ m ne.
      rw (find-change (write_bytes edit) m n c.lru number, ne→== n m (λ p. ne (sym p))) refl;
}
  where
    number : KeepsNumber (write_bytes edit)
    number x = refl

    some_at : (t : Bool) (o : Option Buf) → is_some o ≡ is_some (map_if (write_bytes edit) t o)
    some_at true none = refl
    some_at true (some x) = refl
    some_at false o = refl

    clean_at :
        (t : Bool) (m : ℕ) (o : Option Buf)
        → IsClean (c.dev.content m) o
        → IsClean (c.dev.content m) (map_if (write_bytes edit) t o)
    clean_at true m none k = tt
    clean_at true m (some x) k = λ p q. cc
    clean_at false m o k = k

-- A buffer, if there is one, is not up to date.
IsStale : Option Buf → Type 0
IsStale none = Unit
IsStale (some b) = b.b_uptodate ≡ false

placed-IsStale :
    (memory : Bool) (c : BCache) (n : ℕ) (junk : List ℕ) (o : Option BCache)
    → find n c.lru ≡ none
    → ((c' : BCache) → o ≡ some c' → find n c'.lru ≡ none)
    → IsStale (find n (placed memory c n junk o).1.lru)
unfolding IsStale placed add_buf find
placed-IsStale memory c n junk none new kept = rw new tt
placed-IsStale true c n junk (some c') new kept = rw (==_self n) refl
placed-IsStale false c n junk (some c') new kept = rw (kept c' refl) tt

bget-IsStale :
    (memory : Bool) (c : BCache) (n : ℕ) (junk : List ℕ)
    → IsSound c
    → find n c.lru ≡ none
    → IsStale (find n (ufs_bget memory c n junk).1.lru)
unfolding ufs_bget alloc_buf is_some
bget-IsStale memory c n junk s new =
    rw (s.chained n, new)
      (placed-IsStale memory c n junk (make_room c) new (λ c' e. make_room_absent c c' n new e))

-- The call of `ufs_sync_buf` reports success, writes nothing to the device, and every reader sees
-- what it saw in `c`.
pub record IsLost (c held : BCache) (out : Outcome (Unit {0}) × BCache) : Type 0 where
  pub reported : out.0 ≡ ok tt
  pub unwritten : out.1.dev ≡ held.dev
  pub unseen : (m : ℕ) → view out.1 m ≡ view c m

-- A change of a buffer that is not up to date, and stays so, is not seen.
stale_change :
    (f : Buf → Buf) (n : ℕ) (bs : List Buf)
    → KeepsNumber f
    → ((b : Buf) → (f b).b_uptodate ≡ b.b_uptodate)
    → IsStale (find n bs)
    → (m : ℕ) (disk : Option (List ℕ))
    → viewed disk (find m (change f n bs)) ≡ viewed disk (find m bs)
unfolding map_if viewed IsStale
stale_change f n bs k u stale m disk = elim (eq_cases n m) [
  | inl same ↦
      rw (find-change f m n bs k, same, ==_self m)
        (at_buf (find m bs) (subst (λ x. IsStale (find x bs)) same stale))
  | inr other ↦ rw (find-change f m n bs k, ne→== n m other) refl
]
  where
    at_buf : (o : Option Buf) → IsStale o → viewed disk (map_if f true o) ≡ viewed disk o
    at_buf none e = refl
    at_buf (some b) e = rw (u b, e) refl

stale_sync :
    (c : BCache) (n : ℕ) (edit : List ℕ → List ℕ)
    → IsStale (find n c.lru)
    → IsLost c c (sync_block (dirty_buf c n edit) n)
unfolding IsStale sync_block sync_found dirty_buf write_bytes set_dirty ufs_sync_buf map_if viewed
stale_sync c n edit stale =
    rw (find-change (write_bytes edit) n n c.lru number, ==_self n)
      (at_buf (find n c.lru) refl stale)
  where
    number : KeepsNumber (write_bytes edit)
    number x = refl

    unseen_write : (m : ℕ) → view (dirty_buf c n edit) m ≡ view c m
    unseen_write m =
        stale_change (write_bytes edit) n c.lru number (λ b. refl) stale m (c.dev.content m)

    at_buf :
        (o : Option Buf)
        → find n c.lru ≡ o
        → IsStale o
        → IsLost c c (sync_found (dirty_buf c n edit) n (map_if (write_bytes edit) true o))
    at_buf none e k = record { reported = refl; unwritten = refl; unseen = unseen_write }
    at_buf (some b) e k = rw k (record {
      reported = refl;
      unwritten = refl;
      unseen = λ m.
          stale_change (set_dirty true) n (change (write_bytes edit) n c.lru) (λ x. refl)
            (λ x. refl) still m (c.dev.content m)
          ∙ unseen_write m;
    })
      where
        still : IsStale (find n (change (write_bytes edit) n c.lru))
        still = rw (find-change (write_bytes edit) n n c.lru number, ==_self n, e) k

-- On a sound cache without a buffer of block `n`, a caller that gets the buffer by `ufs_bget`, fills
-- it, marks it dirty and syncs it is told of success, but the device is not written and every later
-- reader of every block sees what it saw before the call.
pub bget_fill-IsLost :
    (memory : Bool) (c : BCache) (n : ℕ) (junk : List ℕ) (edit : List ℕ → List ℕ)
    → IsSound c
    → find n c.lru ≡ none
    → IsLost c
        (ufs_bget memory c n junk).1
        (sync_block (dirty_buf (ufs_bget memory c n junk).1 n edit) n)
bget_fill-IsLost memory c n junk edit s new =
    let l = stale_sync (ufs_bget memory c n junk).1 n edit (bget-IsStale memory c n junk s new) in
    let k = ufs_bget-Keeps memory c n junk s in
    record {
      reported = l.reported;
      unwritten = l.unwritten;
      unseen = λ m. l.unseen m ∙ k.same_view m;
    }
