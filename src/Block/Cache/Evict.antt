-- ===== src/Block/Cache/Evict.antt =====
-- Eviction and the entry of a new buffer: neither is seen by a reader, if the device takes writes.
use userfs.Prelude.{
  ℕ, ◌≡◌, ◌≢◌, refl, arith, Bool, true, false, Option, none, some, List, [], ◌∷◌, ◌==◌, ◌∙◌, ap,
  subst, sym, if◌then◌else◌, inl, inr, eq_cases, Bool-cases, ==_self, leb, ne→==, if_true, if_false,
}
use userfs.Block.Cache.{
  Buf, Device, BCache, bcache_hash, in_chain, unchain, find, buf_detach_hash, ufs_bdev_write,
  ufs_sync_buf, sync_written, victim, drop_buf, evicted, all_held, make_room, max_buf,
}
use userfs.Block.Cache.Find.{find-remove, find-victim, Distinct-remove}
use userfs.Block.Cache.View.{viewed, view, is_some, IsClean, IsSound, Keeps, Keeps-refl}

in_chain-unchain :
    (m n : ℕ) (l : List ℕ) → in_chain m (unchain n l) ≡ (if n == m then false else in_chain m l)
unfolding in_chain unchain
in_chain-unchain m n [] = ground arith
in_chain-unchain m n (b ∷ l) = ground (arith, in_chain-unchain m n l)

-- The device after the flush of a buffer on its way out.
unfoldable pub flushed : Device → Buf → Device
flushed d v = if v.b_dirty then (ufs_sync_buf d v).1 else d

pub record Flushed (d : Device) (v : Buf) (d' : Device) : Type 0 where
  pub still : d'.readonly ≡ d.readonly
  pub takes : (m : ℕ) → d'.accepts m ≡ d.accepts m
  pub elsewhere : (m : ℕ) → m ≢ v.b_blocknr → d'.content m ≡ d.content m
  pub stale : v.b_uptodate ≡ false → d'.content v.b_blocknr ≡ d.content v.b_blocknr
  pub dry : v.b_dirty ≡ false → d'.content v.b_blocknr ≡ d.content v.b_blocknr
  pub written : v.b_uptodate ≡ true → v.b_dirty ≡ true → d'.content v.b_blocknr ≡ some v.b_data

pub flushed-Flushed :
    (d : Device) (v : Buf)
    → d.readonly ≡ false
    → ((n : ℕ) → d.accepts n ≡ true)
    → Flushed d v (flushed d v)
unfolding flushed ufs_sync_buf sync_written ufs_bdev_write
flushed-Flushed d v w a = split v.b_dirty v.b_uptodate refl refl
  where
    split : (wet up : Bool) → v.b_dirty ≡ wet → v.b_uptodate ≡ up → Flushed d v (flushed d v)
    split false up e f = rw e (record {
      still = refl;
      takes = λ m. refl;
      elsewhere = λ m ne. refl;
      stale = λ p. refl;
      dry = λ p. refl;
      written = λ p q. cc;
    })
    split true false e f =
        rw (e, f)
          (record {
            still = refl;
            takes = λ m. refl;
            elsewhere = λ m ne. refl;
            stale = λ p. refl;
            dry = λ p. refl;
            written = λ p q. cc;
          })
    split true true e f =
        rw (e, f, w, a v.b_blocknr)
          (record {
            still = refl;
            takes = λ m. refl;
            elsewhere = λ m ne. if_false (some v.b_data) (d.content m) (ne→== m v.b_blocknr ne);
            stale = λ p. cc;
            dry = λ p. cc;
            written = λ p q. if_true (some v.b_data) (d.content v.b_blocknr) (==_self v.b_blocknr);
          })

-- The chains without one block.
chained_detach :
    (k : ℕ) (hash : ℕ → List ℕ) (n : ℕ)
    → in_chain n (buf_detach_hash k hash (bcache_hash n))
      ≡ (if k == n then false else in_chain n (hash (bcache_hash n)))
unfolding buf_detach_hash
chained_detach k hash n = elim (eq_cases k n) [
  | inl same ↦
      rw (same, ==_self (bcache_hash n), ==_self n)
        (in_chain-unchain n n (hash (bcache_hash n))
          ∙ if_true false (in_chain n (hash (bcache_hash n))) (==_self n))
  | inr other ↦ elim (Bool-cases (bcache_hash n == bcache_hash k)) [
    | inl near ↦ rw near (in_chain-unchain n k (hash (bcache_hash n)))
    | inr far ↦ rw far (sym (if_false false (in_chain n (hash (bcache_hash n))) (ne→== k n other)))
  ]
]

some_dropped :
    (t : Bool) (o : Option Buf) → (if t then false else is_some o) ≡ is_some (if t then none else o)
unfolding is_some
some_dropped true o = refl
some_dropped false o = refl

-- Out of the list, the victim's block reads from the device as it read from the buffer.
pub view_dropped :
    (old : Device) (v : Buf) (d : Device)
    → Flushed old v d
    → IsClean (old.content v.b_blocknr) (some v)
    → d.content v.b_blocknr ≡ viewed (old.content v.b_blocknr) (some v)
unfolding IsClean viewed
view_dropped old v d f k = split v.b_uptodate v.b_dirty refl refl
  where
    split :
        (up wet : Bool)
        → v.b_uptodate ≡ up
        → v.b_dirty ≡ wet
        → d.content v.b_blocknr ≡ viewed (old.content v.b_blocknr) (some v)
    split true true p q = f.written p q ∙ sym (if_true (some v.b_data) (old.content v.b_blocknr) p)
    split true false p q =
        f.dry q ∙ k p q ∙ sym (if_true (some v.b_data) (old.content v.b_blocknr) p)
    split false wet p q = f.stale p ∙ sym (if_false (some v.b_data) (old.content v.b_blocknr) p)

pub drop_buf-Keeps :
    (c : BCache) (v : Buf) → IsSound c → find v.b_blocknr c.lru ≡ some v → Keeps c (drop_buf c v)
unfolding drop_buf flushed IsClean viewed
drop_buf-Keeps c v s here = record {
  sound = record {
    writable = f.still ∙ s.writable;
    accepting = λ n. f.takes n ∙ s.accepting n;
    distinct = Distinct-remove v.b_blocknr c.lru s.distinct;
    chained = λ n.
        rw (chained_detach v.b_blocknr c.hash n, s.chained n, find-remove n v.b_blocknr c.lru)
          (some_dropped (v.b_blocknr == n) (find n c.lru));
    clean = λ n. rw (find-remove n v.b_blocknr c.lru) (clean_at n);
  };
  same_view = λ n. rw (find-remove n v.b_blocknr c.lru) (view_at n);
}
  where
    f : Flushed c.dev v (flushed c.dev v)
    f = flushed-Flushed c.dev v s.writable s.accepting

    clean_at :
        (n : ℕ)
        → IsClean ((flushed c.dev v).content n) (if v.b_blocknr == n then none else find n c.lru)
    clean_at n = elim (eq_cases v.b_blocknr n) [
      | inl same ↦ rw (same, ==_self n) tt
      | inr other ↦
          rw
            (
              if_false none (find n c.lru) (ne→== v.b_blocknr n other),
              f.elsewhere n (λ p. other (sym p)),
            )
            (s.clean n)
    ]

    at_victim : (n : ℕ) → v.b_blocknr ≡ n → (flushed c.dev v).content n ≡ view c n
    at_victim n same =
        subst (λ k. (flushed c.dev v).content k ≡ view c k) same
          (rw here (
            view_dropped c.dev v (flushed c.dev v) f
              (subst (IsClean (c.dev.content v.b_blocknr)) here (s.clean v.b_blocknr))))

    view_at :
        (n : ℕ)
        → viewed ((flushed c.dev v).content n) (if v.b_blocknr == n then none else find n c.lru)
          ≡ view c n
    view_at n = elim (eq_cases v.b_blocknr n) [
      | inl same ↦
          rw (if_true none (find n c.lru) (ap (λ k. k == n) same ∙ ==_self n)) (at_victim n same)
      | inr other ↦
          rw
            (
              if_false none (find n c.lru) (ne→== v.b_blocknr n other),
              f.elsewhere n (λ p. other (sym p)),
            )
            refl
    ]

-- Room for one more buffer.
pub make_room-Keeps : (c c' : BCache) → IsSound c → make_room c ≡ some c' → Keeps c c'
unfolding make_room evicted all_held
make_room-Keeps c c' s e = elim (Bool-cases (leb max_buf c.nr_bufs)) [
  | inl full ↦ evict (victim c.lru) refl (rw full at e)
  | inr room ↦ stay (rw room at e)
]
  where
    stay : some c ≡ some c' → Keeps c c'
    stay p = let same : c ≡ c' = cc in subst (Keeps c) same (Keeps-refl s)

    held : (bs : List Buf) → all_held c bs ≡ some c' → Keeps c c'
    held [] p = stay p
    held (b ∷ bs) p = cc

    evict : (o : Option Buf) → victim c.lru ≡ o → evicted c o ≡ some c' → Keeps c c'
    evict none q p = held c.lru p
    evict (some v) q p =
        let same : drop_buf c v ≡ c' = cc in
        subst (Keeps c) same (drop_buf-Keeps c v s (find-victim c.lru v s.distinct q))

-- Eviction brings no buffer in.
pub make_room_absent :
    (c c' : BCache) (n : ℕ) → find n c.lru ≡ none → make_room c ≡ some c' → find n c'.lru ≡ none
unfolding make_room evicted all_held drop_buf
make_room_absent c c' n new e = elim (Bool-cases (leb max_buf c.nr_bufs)) [
  | inl full ↦ evict (victim c.lru) (rw full at e)
  | inr room ↦ stay (rw room at e)
]
  where
    if_same : (t : Bool) → Path (Option Buf) (if t then none else none) none
    if_same true = refl
    if_same false = refl

    stay : some c ≡ some c' → find n c'.lru ≡ none
    stay p = let same : c ≡ c' = cc in subst (λ x. find n x.lru ≡ none) same new

    held : (bs : List Buf) → all_held c bs ≡ some c' → find n c'.lru ≡ none
    held [] p = stay p
    held (b ∷ bs) p = cc

    evict : (o : Option Buf) → evicted c o ≡ some c' → find n c'.lru ≡ none
    evict none p = held c.lru p
    evict (some v) p =
        let same : drop_buf c v ≡ c' = cc in
        subst (λ x. find n x.lru ≡ none) same
          (rw (find-remove n v.b_blocknr c.lru, new) (if_same (v.b_blocknr == n)))
