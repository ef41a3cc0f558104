-- ===== src/Block/Cache/View.antt =====
-- What a reader sees of each block through the cache, and when the cache is sound.
use userfs.Prelude.{
  ℕ, ◌+◌, ◌≡◌, refl, arith, Bool, true, false, Option, none, some, List, ◌∷◌, ◌==◌, ◌∙◌, ap, sym,
  if◌then◌else◌, inl, inr, eq_cases, Option-cases, ==_self, ne→==, if_true,
}
use userfs.Block.Cache.{
  Buf, BCache, bcache_hash, in_chain, find, remove, change, touched, buf_touch_lru, release_buf,
  ufs_brelse,
}
use userfs.Block.Cache.Find.{
  find-blocknr, find-remove, KeepsNumber, map_if, find-change, Distinct, Distinct-remove,
  Distinct-change,
}

-- A block reads as the bytes of its buffer if that is up to date, and else as the device has it.
unfoldable pub viewed : Option (List ℕ) → Option Buf → Option (List ℕ)
viewed disk none = disk
viewed disk (some b) = if b.b_uptodate then some b.b_data else disk

abbrev pub view : BCache → ℕ → Option (List ℕ)
view c n = viewed (c.dev.content n) (find n c.lru)

unfoldable pub is_some : Option Buf → Bool
is_some none = false
is_some (some b) = true

-- A buffer that is up to date and not dirty holds what the device holds.
unfoldable pub IsClean : Option (List ℕ) → Option Buf → Type 0
IsClean disk none = Unit
IsClean disk (some b) = b.b_uptodate ≡ true → b.b_dirty ≡ false → disk ≡ some b.b_data

-- The device can be written, no block has two buffers, the chains hold the blocks of the list, and
-- clean buffers agree with the device.
pub record IsSound (c : BCache) : Type 0 where
  pub writable : c.dev.readonly ≡ false
  pub accepting : (n : ℕ) → c.dev.accepts n ≡ true
  pub distinct : Distinct c.lru
  pub chained : (n : ℕ) → in_chain n (c.hash (bcache_hash n)) ≡ is_some (find n c.lru)
  pub clean : (n : ℕ) → IsClean (c.dev.content n) (find n c.lru)

-- A call changed nothing that a reader sees, and kept the cache sound.
pub record Keeps (c c' : BCache) : Type 0 where
  pub sound : IsSound c'
  pub same_view : (n : ℕ) → view c' n ≡ view c n

pub Keeps-refl : {c : BCache} → IsSound c → Keeps c c
Keeps-refl s = record { sound = s; same_view = λ n. refl }

pub Keeps-trans : {a b c : BCache} → Keeps a b → Keeps b c → Keeps a c
Keeps-trans p q = record { sound = q.sound; same_view = λ n. q.same_view n ∙ p.same_view n }

-- Two entries of the list that hold the same bytes in the same state.
abbrev pub Alike : Option Buf → Option Buf → Type 0
Alike none none = Unit
Alike none (some b) = ⊥
Alike (some a) none = ⊥
Alike (some a) (some b) =
    (a.b_data ≡ b.b_data) × (a.b_uptodate ≡ b.b_uptodate) × (a.b_dirty ≡ b.b_dirty)

viewed-Alike :
    (disk : Option (List ℕ)) (o p : Option Buf) → Alike o p → viewed disk o ≡ viewed disk p
unfolding viewed
viewed-Alike disk none none a = refl
viewed-Alike disk none (some b) a = absurd a
viewed-Alike disk (some b) none a = absurd a
viewed-Alike disk (some b) (some b') a = ground arith

IsClean-Alike :
    (disk : Option (List ℕ)) (o p : Option Buf) → Alike o p → IsClean disk p → IsClean disk o
unfolding IsClean
IsClean-Alike disk none none a k = k
IsClean-Alike disk none (some b) a k = absurd a
IsClean-Alike disk (some b) none a k = absurd a
IsClean-Alike disk (some b) (some b') (d, u, w) k =
    λ up wet. k (sym u ∙ up) (sym w ∙ wet) ∙ ap some (sym d)

some-Alike : (o p : Option Buf) → Alike o p → is_some o ≡ is_some p
unfolding is_some
some-Alike none none a = refl
some-Alike none (some b) a = absurd a
some-Alike (some b) none a = absurd a
some-Alike (some b) (some b') a = refl

-- A list that holds alike buffers for every block keeps the cache.
pub relist-Keeps :
    (c : BCache) (lru : List Buf)
    → IsSound c
    → Distinct lru
    → ((n : ℕ) → Alike (find n lru) (find n c.lru))
    → Keeps c (record c { lru = lru })
relist-Keeps c lru s d a = record {
  sound = record {
    writable = s.writable;
    accepting = s.accepting;
    distinct = d;
    chained = λ n. s.chained n ∙ sym (some-Alike (find n lru) (find n c.lru) (a n));
    clean = λ n. IsClean-Alike (c.dev.content n) (find n lru) (find n c.lru) (a n) (s.clean n);
  };
  same_view = λ n. viewed-Alike (c.dev.content n) (find n lru) (find n c.lru) (a n);
}

Alike-refl : (o : Option Buf) → Alike o o
Alike-refl none = tt
Alike-refl (some b) = (refl, refl, refl)

-- `ufs_brelse` is not seen by any reader.
pub ufs_brelse-Keeps : (c : BCache) (n : ℕ) → IsSound c → Keeps c (ufs_brelse c n)
unfolding ufs_brelse release_buf map_if
ufs_brelse-Keeps c n s =
    relist-Keeps c (change release_buf n c.lru) s
      (Distinct-change release_buf n c.lru number s.distinct)
      (λ m. rw (find-change release_buf m n c.lru number) (released (n == m) (find m c.lru)))
  where
    number : KeepsNumber release_buf
    number b = ground arith

    released : (t : Bool) (o : Option Buf) → Alike (map_if release_buf t o) o
    released true none = tt
    released true (some b) = ground arith
    released false o = Alike-refl o

-- Nor is the move to the front in a lookup that hits.
pub buf_touch_lru-Keeps : (c : BCache) (n : ℕ) → IsSound c → Keeps c (buf_touch_lru c n)
unfolding buf_touch_lru touched find
buf_touch_lru-Keeps c n s = elim (Option-cases (find n c.lru)) [
  | inl gone ↦ rw gone (relist-Keeps c c.lru s s.distinct (λ m. Alike-refl (find m c.lru)))
  | inr (b, here) ↦ rw here (
      relist-Keeps c (record b { b_count = b.b_count + 1 } ∷ remove n c.lru) s
        (absent b here, Distinct-remove n c.lru s.distinct) (λ m. moved b here m))
]
  where
    absent : (b : Buf) → find n c.lru ≡ some b → find b.b_blocknr (remove n c.lru) ≡ none
    absent b here =
        find-remove b.b_blocknr n c.lru
        ∙ if_true none (find b.b_blocknr c.lru) (rw (find-blocknr n c.lru b here) (==_self n))

    moved :
        (b : Buf)
        → find n c.lru ≡ some b
        → (m : ℕ)
        → Alike (find m (record b { b_count = b.b_count + 1 } ∷ remove n c.lru)) (find m c.lru)
    moved b here m = elim (eq_cases m n) [
      | inl same ↦ rw (same, here, find-blocknr n c.lru b here, ==_self n) (refl, refl, refl)
      | inr other ↦
          rw (find-blocknr n c.lru b here, find-remove m n c.lru, ne→== n m (λ p. other (sym p)))
            (Alike-refl (find m c.lru))
    ]
