-- ===== src/Block/Cache/Get.antt =====
-- `ufs_bget` of src/vfs/src/block_io.c: no reader sees it, and the buffer it returns is in the cache.
use userfs.Prelude.{
  ℕ, ◌+◌, ◌≡◌, refl, Bool, true, false, Option, none, some, List, ◌==◌, ◌||◌, ◌∙◌, ap, sym, inl,
  inr, eq_cases, Option-cases, Bool-cases, ==_self, ne→==, if_true,
}
use userfs.Block.Cache.{
  Buf, BCache, bcache_hash, in_chain, find, remove, buf_attach_hash, add_buf, make_room, alloc_buf,
  placed, ufs_bget, touched, buf_touch_lru,
}
use userfs.Block.Cache.Find.{find-blocknr}
use userfs.Block.Cache.View.{
  viewed, view, is_some, IsClean, IsSound, Keeps, Keeps-refl, Keeps-trans, buf_touch_lru-Keeps,
}
use userfs.Block.Cache.Evict.{make_room-Keeps, make_room_absent}

chained_attach :
    (k : ℕ) (hash : ℕ → List ℕ) (n : ℕ)
    → in_chain n (buf_attach_hash k hash (bcache_hash n))
      ≡ (k == n || in_chain n (hash (bcache_hash n)))
unfolding buf_attach_hash in_chain
chained_attach k hash n = elim (eq_cases k n) [
  | inl same ↦ rw (same, ==_self (bcache_hash n), ==_self n) refl
  | inr other ↦ elim (Bool-cases (bcache_hash n == bcache_hash k)) [
    | inl near ↦ rw near refl
    | inr far ↦ rw (far, ne→== k n other) refl
  ]
]

-- A new buffer is not up to date, so its block still reads from the device.
pub add_buf-Keeps :
    (c : BCache) (k : ℕ) (junk : List ℕ)
    → IsSound c
    → find k c.lru ≡ none
    → Keeps c (add_buf c k junk)
unfolding add_buf find viewed is_some IsClean
add_buf-Keeps c k junk s new = record {
  sound = record {
    writable = s.writable;
    accepting = s.accepting;
    distinct = (new, s.distinct);
    chained = λ n. rw (chained_attach k c.hash n, s.chained n) (chain_at n);
    clean = λ n. clean_at n;
  };
  same_view = λ n. view_at n;
}
  where
    chain_at :
        (n : ℕ) → (k == n || is_some (find n c.lru)) ≡ is_some (find n (add_buf c k junk).lru)
    chain_at n = elim (Bool-cases (k == n)) [ inl e ↦ rw e refl | inr e ↦ rw e refl ]

    clean_at : (n : ℕ) → IsClean (c.dev.content n) (find n (add_buf c k junk).lru)
    clean_at n = elim (Bool-cases (k == n)) [ inl e ↦ rw e (λ p q. cc) | inr e ↦ rw e (s.clean n) ]

    view_at : (n : ℕ) → view (add_buf c k junk) n ≡ view c n
    view_at n = elim (eq_cases k n) [
      | inl e ↦ rw (e, ==_self n, sym (ap (λ m. find m c.lru) e) ∙ new) refl
      | inr e ↦ rw (ne→== k n e) refl
    ]

alloc_buf-Keeps :
    (memory : Bool) (c : BCache) (n : ℕ) (junk : List ℕ)
    → IsSound c
    → find n c.lru ≡ none
    → Keeps c (alloc_buf memory c n junk).1
unfolding alloc_buf placed
alloc_buf-Keeps memory c n junk s new = elim (Option-cases (make_room c)) [
  | inl stuck ↦ rw stuck (Keeps-refl s)
  | inr (c', room) ↦ rw room (made memory c' room)
]
  where
    made :
        (t : Bool) (c' : BCache) → make_room c ≡ some c' → Keeps c (placed t c n junk (some c')).1
    made true c' room =
        let kept = make_room-Keeps c c' s room in
        Keeps-trans kept (add_buf-Keeps c' n junk kept.sound (make_room_absent c c' n new room))
    made false c' room = make_room-Keeps c c' s room

pub is_some-none : (o : Option Buf) → is_some o ≡ false → o ≡ none
unfolding is_some
is_some-none none e = refl
is_some-none (some b) e = cc

-- For a sound cache, `ufs_bget` changes nothing that a reader sees and keeps the cache sound,
-- whether or not it gets a buffer.
pub ufs_bget-Keeps :
    (memory : Bool) (c : BCache) (n : ℕ) (junk : List ℕ)
    → IsSound c
    → Keeps c (ufs_bget memory c n junk).1
unfolding ufs_bget
ufs_bget-Keeps memory c n junk s = elim (Bool-cases (in_chain n (c.hash (bcache_hash n)))) [
  | inl hit ↦ rw hit (buf_touch_lru-Keeps c n s)
  | inr miss ↦
      rw miss
        (alloc_buf-Keeps memory c n junk s (is_some-none (find n c.lru) (sym (s.chained n) ∙ miss)))
]

-- The caller holds a buffer of the block.
unfoldable pub IsHeld : BCache → ℕ → Type 0
IsHeld c n = (b : Buf) × (find n c.lru ≡ some b)

is_some-some : (o : Option Buf) → is_some o ≡ true → (b : Buf) × (o ≡ some b)
unfolding is_some
is_some-some none e = cc
is_some-some (some b) e = (b, refl)

touch-IsHeld : (c : BCache) (n : ℕ) (b : Buf) → find n c.lru ≡ some b → IsHeld (buf_touch_lru c n) n
unfolding buf_touch_lru touched find IsHeld
touch-IsHeld c n b here = rw here (
  record b { b_count = b.b_count + 1 },
  if_true (some (record b { b_count = b.b_count + 1 })) (find n (remove n c.lru))
      (rw (find-blocknr n c.lru b here) (==_self n)),
)

placed-IsHeld :
    (memory : Bool) (c : BCache) (n : ℕ) (junk : List ℕ) (o : Option BCache)
    → (placed memory c n junk o).0 ≡ true
    → IsHeld (placed memory c n junk o).1 n
unfolding placed add_buf find IsHeld
placed-IsHeld memory c n junk none e = cc
placed-IsHeld true c n junk (some c') e = (_, if_true _ (find n c'.lru) (==_self n))
placed-IsHeld false c n junk (some c') e = cc

-- When `ufs_bget` on a sound cache returns a buffer, it is in the cache.
pub ufs_bget-IsHeld :
    (memory : Bool) (c : BCache) (n : ℕ) (junk : List ℕ)
    → IsSound c
    → (ufs_bget memory c n junk).0 ≡ true
    → IsHeld (ufs_bget memory c n junk).1 n
unfolding ufs_bget alloc_buf
ufs_bget-IsHeld memory c n junk s got = elim (Bool-cases (in_chain n (c.hash (bcache_hash n)))) [
  | inl hit ↦
      let (b, here) = is_some-some (find n c.lru) (sym (s.chained n) ∙ hit) in
      rw hit (touch-IsHeld c n b here)
  | inr miss ↦ rw miss (placed-IsHeld memory c n junk (make_room c) (rw miss at got))
]
