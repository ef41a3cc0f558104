-- ===== src/Block/Cache/Flush.antt =====
-- `ufs_bcache_flush` of src/vfs/src/block_io.c: every byte that a reader sees reaches the device.
use userfs.Prelude.{
  ℕ, ◌≡◌, refl, Bool, true, false, Option, none, some, Outcome, ok, List, [], ◌∷◌, ◌==◌, ◌∙◌, ap,
  sym, subst, inl, inr, eq_cases, Bool-cases, ==_self, ne→==, if_true, if_false,
}
use userfs.Block.Cache.{
  Buf, Device, BCache, find, ufs_bdev_write, ufs_sync_buf, sync_written, sync_dirty, first_error,
  flush_from, ufs_bcache_flush,
}
use userfs.Block.Cache.Find.{Distinct}
use userfs.Block.Cache.View.{viewed, view, is_some, IsClean, IsSound, Keeps}
use userfs.Block.Cache.Evict.{flushed, Flushed, flushed-Flushed, view_dropped}

-- A buffer after its flush.
record Synced (d : Device) (b : Buf) (out : Outcome (Unit {0}) × Device × Buf) : Type 0 where
  done : out.0 ≡ ok tt
  device : Flushed d b out.1
  number : out.2.b_blocknr ≡ b.b_blocknr
  bytes : out.2.b_data ≡ b.b_data
  state : out.2.b_uptodate ≡ b.b_uptodate

sync_dirty_device : (d : Device) (b : Buf) → (sync_dirty d b).1 ≡ flushed d b
unfolding sync_dirty flushed
sync_dirty_device d b = elim (Bool-cases b.b_dirty) [ inl e ↦ rw e refl | inr e ↦ rw e refl ]

sync_dirty-Synced :
    (d : Device) (b : Buf)
    → d.readonly ≡ false
    → ((n : ℕ) → d.accepts n ≡ true)
    → Synced d b (sync_dirty d b)
unfolding sync_dirty ufs_sync_buf sync_written ufs_bdev_write
sync_dirty-Synced d b w a = split b.b_dirty b.b_uptodate refl refl
  where
    on_device : Flushed d b (sync_dirty d b).1
    on_device = subst (Flushed d b) (sym (sync_dirty_device d b)) (flushed-Flushed d b w a)

    split : (wet up : Bool) → b.b_dirty ≡ wet → b.b_uptodate ≡ up → Synced d b (sync_dirty d b)
    split false up e f = record {
      done = rw e refl;
      device = on_device;
      number = rw e refl;
      bytes = rw e refl;
      state = rw e refl;
    }
    split true false e f = record {
      done = rw (e, f) refl;
      device = on_device;
      number = rw (e, f) refl;
      bytes = rw (e, f) refl;
      state = rw (e, f) refl;
    }
    split true true e f = record {
      done = rw (e, f, w, a b.b_blocknr) refl;
      device = on_device;
      number = rw (e, f, w, a b.b_blocknr) refl;
      bytes = rw (e, f, w, a b.b_blocknr) refl;
      state = rw (e, f, w, a b.b_blocknr) refl;
    }

-- Two entries with the same bytes, dirty or not.
abbrev SameBytes : Option Buf → Option Buf → Type 0
SameBytes none none = Unit
SameBytes none (some b) = ⊥
SameBytes (some a) none = ⊥
SameBytes (some a) (some b) = (a.b_data ≡ b.b_data) × (a.b_uptodate ≡ b.b_uptodate)

-- The device and the list after the loop.
record Flushes (d : Device) (bs : List Buf) (out : Outcome (Unit {0}) × Device × List Buf)
    : Type 0 where
  done : out.0 ≡ ok tt
  still : out.1.readonly ≡ false
  takes : (n : ℕ) → out.1.accepts n ≡ true
  stored :
      (n : ℕ)
      → IsClean (d.content n) (find n bs)
      → out.1.content n ≡ viewed (d.content n) (find n bs)
  same : (n : ℕ) → SameBytes (find n out.2) (find n bs)
  distinct : Distinct out.2

absent_same : (o p : Option Buf) → SameBytes o p → p ≡ none → o ≡ none
absent_same none p s e = refl
absent_same (some a) none s e = absurd s
absent_same (some a) (some b) s e = cc

-- One step of the loop.
flush_step :
    (d : Device) (b : Buf) (bs : List Buf)
    → Synced d b (sync_dirty d b)
    → find b.b_blocknr bs ≡ none
    → Flushes (sync_dirty d b).1 bs (flush_from (sync_dirty d b).1 bs)
    → Flushes d (b ∷ bs) (flush_from d (b ∷ bs))
unfolding flush_from find viewed IsClean first_error
flush_step d b bs h new r = record {
  done = rw (h.done) r.done;
  still = r.still;
  takes = r.takes;
  stored = λ n. stored_at n;
  same = λ n. same_at n;
  distinct = (
    rw h.number (
        absent_same (find b.b_blocknr (flush_from (sync_dirty d b).1 bs).2) (find b.b_blocknr bs)
          (r.same b.b_blocknr) new),
    r.distinct,
  );
}
  where
    same_at : (n : ℕ) → SameBytes (find n (flush_from d (b ∷ bs)).2) (find n (b ∷ bs))
    same_at n = elim (Bool-cases (b.b_blocknr == n)) [
      | inl e ↦ rw (h.number, e) (h.bytes, h.state)
      | inr e ↦ rw (h.number, e) (r.same n)
    ]

    head_stored :
        IsClean (d.content b.b_blocknr) (some b)
        → (flush_from (sync_dirty d b).1 bs).1.content b.b_blocknr
          ≡ viewed (d.content b.b_blocknr) (some b)
    head_stored k =
        r.stored b.b_blocknr (rw new tt)
        ∙ ap (viewed ((sync_dirty d b).1.content b.b_blocknr)) new
        ∙ view_dropped d b (sync_dirty d b).1 h.device k

    stored_at :
        (n : ℕ)
        → IsClean (d.content n) (find n (b ∷ bs))
        → (flush_from d (b ∷ bs)).1.content n ≡ viewed (d.content n) (find n (b ∷ bs))
    stored_at n k = elim (eq_cases b.b_blocknr n) [
      | inl e ↦
          let here : find n (b ∷ bs) ≡ some b =
            if_true (some b) (find n bs) (ap (λ x. x == n) e ∙ ==_self n) in
          let k' : IsClean (d.content n) (some b) = subst (IsClean (d.content n)) here k in
          rw here (
            subst
              (λ x. (flush_from (sync_dirty d b).1 bs).1.content x ≡ viewed (d.content x) (some b))
              e (head_stored (subst (λ x. IsClean (d.content x) (some b)) (sym e) k')))
      | inr e ↦
          let there : find n (b ∷ bs) ≡ find n bs =
            if_false (some b) (find n bs) (ne→== b.b_blocknr n e) in
          let kept = h.device.elsewhere n (λ p. e (sym p)) in
          rw there (
            r.stored n (
              subst (λ x. IsClean x (find n bs)) (sym kept) (subst (IsClean (d.content n)) there k))
            ∙ ap (λ x. viewed x (find n bs)) kept)
    ]

flush_from-Flushes :
    (d : Device) (bs : List Buf)
    → d.readonly ≡ false
    → ((n : ℕ) → d.accepts n ≡ true)
    → Distinct bs
    → Flushes d bs (flush_from d bs)
unfolding flush_from find viewed
flush_from-Flushes d [] w a t = record {
  done = refl;
  still = w;
  takes = a;
  stored = λ n k. refl;
  same = λ n. tt;
  distinct = tt;
}
flush_from-Flushes d (b ∷ bs) w a (new, t) =
    let h = sync_dirty-Synced d b w a in
    flush_step d b bs h new (
      flush_from-Flushes (sync_dirty d b).1 bs (h.device.still ∙ w) (λ n. h.device.takes n ∙ a n) t)

-- What `ufs_bcache_flush` achieves: it reports no failure, no reader sees a change, the cache stays
-- sound, and the device holds for every block what a reader saw of it.
pub record IsFlushed (c : BCache) (out : Outcome (Unit {0}) × BCache) : Type 0 where
  pub done : out.0 ≡ ok tt
  pub kept : Keeps c out.1
  pub stored : (n : ℕ) → out.1.dev.content n ≡ view c n

some_bytes : (o p : Option Buf) → SameBytes o p → is_some p ≡ is_some o
unfolding is_some
some_bytes none none e = refl
some_bytes none (some b) e = absurd e
some_bytes (some a) none e = absurd e
some_bytes (some a) (some b) e = refl

viewed_bytes :
    (disk old : Option (List ℕ)) (o p : Option Buf)
    → SameBytes o p
    → disk ≡ viewed old p
    → (viewed disk o ≡ viewed old p) × IsClean disk o
unfolding viewed IsClean
viewed_bytes disk old none none e s = (s, tt)
viewed_bytes disk old none (some b) e s = absurd e
viewed_bytes disk old (some a) none e s = absurd e
viewed_bytes disk old (some a) (some b) (d, u) s = split a.b_uptodate refl
  where
    split :
        (t : Bool)
        → a.b_uptodate ≡ t
        → (viewed disk (some a) ≡ viewed old (some b)) × IsClean disk (some a)
    split true p =
        let told : disk ≡ some a.b_data =
          s ∙ if_true (some b.b_data) old (sym u ∙ p) ∙ ap some (sym d) in
        (if_true (some a.b_data) disk p ∙ sym told ∙ s, λ q r. told)
    split false p = (if_false (some a.b_data) disk p ∙ s, λ q r. cc)

-- On a sound cache, `ufs_bcache_flush` succeeds, no reader sees a change, the cache stays sound, and
-- afterwards the device holds for every block what a reader saw of it before.
pub ufs_bcache_flush-IsFlushed : (c : BCache) → IsSound c → IsFlushed c (ufs_bcache_flush c)
unfolding ufs_bcache_flush
ufs_bcache_flush-IsFlushed c s = record {
  done = f.done;
  kept = record {
    sound = record {
      writable = f.still;
      accepting = f.takes;
      distinct = f.distinct;
      chained = λ n. s.chained n ∙ some_bytes (find n after) (find n c.lru) (f.same n);
      clean = λ n. (told n).1;
    };
    same_view = λ n. (told n).0;
  };
  stored = λ n. f.stored n (s.clean n);
}
  where
    after : List Buf
    after = (flush_from c.dev c.lru).2

    f : Flushes c.dev c.lru (flush_from c.dev c.lru)
    f = flush_from-Flushes c.dev c.lru s.writable s.accepting s.distinct

    told :
        (n : ℕ)
        → (viewed ((flush_from c.dev c.lru).1.content n) (find n (flush_from c.dev c.lru).2)
            ≡ view c n)
          × IsClean ((flush_from c.dev c.lru).1.content n) (find n (flush_from c.dev c.lru).2)
    told n =
        viewed_bytes ((flush_from c.dev c.lru).1.content n) (c.dev.content n)
          (find n (flush_from c.dev c.lru).2) (find n c.lru) (f.same n) (f.stored n (s.clean n))
