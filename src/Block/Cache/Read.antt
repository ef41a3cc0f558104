-- ===== src/Block/Cache/Read.antt =====
-- `ufs_bread` of src/vfs/src/block_io.c: what a read returns, and that no reader sees the others' reads.
use userfs.Prelude.{
  ℕ, ◌≡◌, refl, arith, Bool, true, false, Option, none, some, List, ◌==◌, ◌∙◌, ap, sym, subst,
  if◌then◌else◌, inl, inr, eq_cases, Bool-cases, ==_self, ne→==, if_true, if_false,
}
use userfs.Block.Cache.{
  Buf, BCache, find, change, ufs_bget, fill_buf, is_uptodate, read_filled, read_into_buf, ufs_bread,
}
use userfs.Block.Cache.Find.{find-change, KeepsNumber, map_if, Distinct-change}
use userfs.Block.Cache.View.{
  viewed, view, is_some, IsClean, IsSound, Keeps, Keeps-refl, Keeps-trans, ufs_brelse-Keeps,
}
use userfs.Block.Cache.Get.{ufs_bget-Keeps, ufs_bget-IsHeld, IsHeld}

-- The state of block `n` after a read: its buffer is up to date with what a reader sees.
pub record IsRead (c c' : BCache) (n : ℕ) : Type 0 where
  pub buf : Buf
  pub cached : find n c'.lru ≡ some buf
  pub uptodate : buf.b_uptodate ≡ true
  pub fresh : view c n ≡ some buf.b_data

filled-Keeps :
    (c : BCache) (n : ℕ) (bytes : List ℕ)
    → IsSound c
    → c.dev.content n ≡ some bytes
    → Keeps c (record c { lru = change (fill_buf bytes) n c.lru })
unfolding fill_buf map_if viewed is_some IsClean
filled-Keeps c n bytes s disk = record {
  sound = record {
    writable = s.writable;
    accepting = s.accepting;
    distinct = Distinct-change (fill_buf bytes) n c.lru number s.distinct;
    chained = λ m.
        rw (find-change (fill_buf bytes) m n c.lru number, s.chained m)
          (some_at (n == m) (find m c.lru));
    clean = λ m. rw (find-change (fill_buf bytes) m n c.lru number) (clean_at m);
  };
  same_view = λ m. rw (find-change (fill_buf bytes) m n c.lru number) (view_at m);
}
  where
    read_in : Buf → Buf
    read_in b = record b { b_data = bytes; b_uptodate = true }

    number : KeepsNumber (fill_buf bytes)
    number b = ground arith

    some_at : (t : Bool) (o : Option Buf) → is_some o ≡ is_some (map_if (fill_buf bytes) t o)
    some_at true none = refl
    some_at true (some b) = refl
    some_at false o = refl

    clean_filled :
        (o : Option Buf)
        → IsClean (some bytes) o
        → IsClean (some bytes) (map_if (fill_buf bytes) true o)
    clean_filled none k = tt
    clean_filled (some b) k = elim (Bool-cases b.b_uptodate) [
      | inl up ↦ subst (λ x. IsClean (some bytes) (some x)) (sym (if_true b (read_in b) up)) k
      | inr old ↦
          subst (λ x. IsClean (some bytes) (some x)) (sym (if_false b (read_in b) old))
            (λ p q. refl)
    ]

    clean_at : (m : ℕ) → IsClean (c.dev.content m) (map_if (fill_buf bytes) (n == m) (find m c.lru))
    clean_at m = elim (eq_cases n m) [
      | inl same ↦
          let there : c.dev.content m ≡ some bytes = ap c.dev.content (sym same) ∙ disk in
          rw (same, ==_self m, there)
            (clean_filled (find m c.lru) (subst (λ d. IsClean d (find m c.lru)) there (s.clean m)))
      | inr other ↦ rw (ne→== n m other) (s.clean m)
    ]

    view_filled :
        (o : Option Buf)
        → viewed (some bytes) (map_if (fill_buf bytes) true o) ≡ viewed (some bytes) o
    view_filled none = refl
    view_filled (some b) = elim (Bool-cases b.b_uptodate) [
      | inl up ↦ rw up refl
      | inr old ↦ rw old refl
    ]

    view_at :
        (m : ℕ)
        → viewed (c.dev.content m) (map_if (fill_buf bytes) (n == m) (find m c.lru)) ≡ view c m
    view_at m = elim (eq_cases n m) [
      | inl same ↦
          let there : c.dev.content m ≡ some bytes = ap c.dev.content (sym same) ∙ disk in
          rw (same, ==_self m, there) (view_filled (find m c.lru))
      | inr other ↦ rw (ne→== n m other) refl
    ]

-- The read into a buffer of the cache changes nothing that a reader sees.
read_into_buf-Keeps : (c : BCache) (n : ℕ) → IsSound c → Keeps c (read_into_buf c n).1
unfolding read_into_buf read_filled
read_into_buf-Keeps c n s = elim (Bool-cases (is_uptodate (find n c.lru))) [
  | inl up ↦ rw up (Keeps-refl s)
  | inr old ↦ rw old (fill (c.dev.content n) refl)
]
  where
    fill : (o : Option (List ℕ)) → c.dev.content n ≡ o → Keeps c (read_filled c n o).1
    fill none e = ufs_brelse-Keeps c n s
    fill (some bytes) e = filled-Keeps c n bytes s e

-- When it succeeds, the buffer is up to date.
read_into_buf-IsRead :
    (c : BCache) (n : ℕ)
    → IsHeld c n
    → (read_into_buf c n).0 ≡ true
    → IsRead c (read_into_buf c n).1 n
unfolding read_into_buf read_filled is_uptodate fill_buf map_if viewed IsHeld
read_into_buf-IsRead c n (b, here) done = split b.b_uptodate (c.dev.content n) refl refl
  where
    number : (bytes : List ℕ) → KeepsNumber (fill_buf bytes)
    number bytes b = ground arith

    clash : false ≡ true → IsRead c (read_into_buf c n).1 n
    clash e = cc

    split :
        (up : Bool) (o : Option (List ℕ))
        → b.b_uptodate ≡ up
        → c.dev.content n ≡ o
        → IsRead c (read_into_buf c n).1 n
    split true o p q =
        rw (here, p)
          (record {
            buf = b;
            cached = here;
            uptodate = p;
            fresh = rw here (if_true (some b.b_data) (c.dev.content n) p);
          })
    split false none p q = clash (rw (here, p, q) at done)
    split false (some bytes) p q =
        rw (here, p, q)
          (record {
            buf = record b { b_data = bytes; b_uptodate = true };
            cached =
                rw (find-change (fill_buf bytes) n n c.lru (number bytes), ==_self n, here)
                  (ap some (if_false b (record b { b_data = bytes; b_uptodate = true }) p));
            uptodate = refl;
            fresh = rw here (if_false (some b.b_data) (c.dev.content n) p ∙ q);
          })

-- For a sound cache, `ufs_bread` changes nothing that a reader sees and keeps the cache sound,
-- whether or not the read succeeds.
pub ufs_bread-Keeps :
    (memory : Bool) (c : BCache) (n : ℕ) (junk : List ℕ)
    → IsSound c
    → Keeps c (ufs_bread memory c n junk).1
unfolding ufs_bread
ufs_bread-Keeps memory c n junk s =
    after (ufs_bget memory c n junk) (ufs_bget-Keeps memory c n junk s)
  where
    after :
        (r : Bool × BCache)
        → Keeps c r.1
        → Keeps c (if◌then◌else◌ {A = Bool × BCache} r.0 (read_into_buf r.1 n) (false, r.1)).1
    after (true, c') k = Keeps-trans k (read_into_buf-Keeps c' n k.sound)
    after (false, c') k = k

-- When `ufs_bread` on a sound cache succeeds, the buffer it returns is up to date and holds what a
-- reader of the block saw before the call: the cached bytes if there were any, else the device's.
pub ufs_bread-IsRead :
    (memory : Bool) (c : BCache) (n : ℕ) (junk : List ℕ)
    → IsSound c
    → (ufs_bread memory c n junk).0 ≡ true
    → IsRead c (ufs_bread memory c n junk).1 n
unfolding ufs_bread
ufs_bread-IsRead memory c n junk s =
    after (ufs_bget memory c n junk) (ufs_bget-Keeps memory c n junk s)
      (ufs_bget-IsHeld memory c n junk s)
  where
    after :
        (r : Bool × BCache)
        → Keeps c r.1
        → (r.0 ≡ true → IsHeld r.1 n)
        → (if◌then◌else◌ {A = Bool × BCache} r.0 (read_into_buf r.1 n) (false, r.1)).0 ≡ true
        → IsRead c (if◌then◌else◌ {A = Bool × BCache} r.0 (read_into_buf r.1 n) (false, r.1)).1 n
    after (true, c') k h e =
        let r = read_into_buf-IsRead c' n (h refl) e in
        record {
          buf = r.buf;
          cached = r.cached;
          uptodate = r.uptodate;
          fresh = sym (k.same_view n) ∙ r.fresh;
        }
    after (false, c') k h e = cc
