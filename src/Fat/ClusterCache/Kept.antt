-- ===== src/Fat/ClusterCache/Kept.antt =====
-- A property of runs that holds of all runs in the cache holds of what a lookup finds, and keeps
-- holding when a run with it is added.
use userfs.Prelude.{
  ℕ, ◌+◌, ◌≤◌, ◌≡◌, ◌⊎◌, inl, inr, refl, arith, Bool, true, false, Option, none, some, List, [],
  ◌∷◌, All, Bool-cases, ltb, leb, ◌==◌, ==_iff, ◌&&◌, not, if◌then◌else◌,
}
use userfs.Fat.ClusterCache.{
  Run, CacheId, Cache, Hit, hit_fcluster, lookup_from, rejoin, fat_cache_lookup, merge_from,
  drop_last, insert_run, add_merged, add_run, lookup_answer, fat_max_cache, fat_cache_valid,
}

module _ (P : Run → Type 0) where
  All-rejoin : (seen after : List Run) → All P seen → All P after → All P (rejoin seen after)
  unfolding rejoin
  All-rejoin [] after s a = a
  All-rejoin (p ∷ seen) after (h, s) a = All-rejoin seen (p ∷ after) s (h, a)

  All-drop_last : (runs : List Run) → All P runs → All P (drop_last runs)
  unfolding drop_last
  All-drop_last [] h = h
  All-drop_last (p ∷ []) h = tt
  All-drop_last (p ∷ q ∷ ps) (h, hs) = (h, All-drop_last (q ∷ ps) hs)

  -- What is known of the run that a lookup of `fclus` stops at.
  pub record IsHit (fclus : ℕ) (h : Hit) : Type 0 where
    pub run_P : P h.run
    pub before_P : All P h.before
    pub after_P : All P h.after
    pub inside : h.offset ≤ h.run.nr_contig
    pub below : h.run.fcluster + h.offset ≤ fclus
    pub ends : (h.offset ≡ h.run.nr_contig) ⊎ (h.run.fcluster + h.offset ≡ fclus)

  abbrev HitKept : ℕ → Option Hit → Type 0
  HitKept fclus none = Unit
  HitKept fclus (some h) = IsHit fclus h

  lookup_from-HitKept :
      (fclus : ℕ) (seen runs : List Run) (hit : Option Hit)
      → All P seen
      → All P runs
      → HitKept fclus hit
      → HitKept fclus (lookup_from fclus seen runs hit)
  unfolding lookup_from
  lookup_from-HitKept fclus seen [] hit s r h = h
  lookup_from-HitKept fclus seen (p ∷ ps) hit s (hp, r) h =
      elim (Bool-cases (leb p.fcluster fclus && ltb (hit_fcluster hit) p.fcluster)) [
        | inr miss ↦ rw miss (lookup_from-HitKept fclus (p ∷ seen) ps hit (hp, s) r h)
        | inl hit_here ↦ elim (Bool-cases (ltb (p.fcluster + p.nr_contig) fclus)) [
          | inl short ↦
              rw (hit_here, short)
                (lookup_from-HitKept fclus (p ∷ seen) ps
                  (some (record { run = p; offset = p.nr_contig; before = seen; after = ps }))
                  (hp, s) r
                  (record {
                    run_P = hp;
                    before_P = s;
                    after_P = r;
                    inside = omega arith;
                    below = ground arith;
                    ends = inl refl;
                  }))
          | inr reach ↦
              rw (hit_here, reach)
                (record {
                  run_P = hp;
                  before_P = s;
                  after_P = r;
                  inside = ground arith;
                  below = ground arith;
                  ends = inr (ground arith);
                })
        ]
      ]

  -- What a lookup gives: a place in a run with the property, or nothing.
  pub data LookedUp (c : Cache) (fclus : ℕ) (r : Option (CacheId × ℕ × ℕ) × Cache) : Type 0 where
    missed : r ≡ (none, c) → LookedUp c fclus r
    hit :
        (h : Hit)
        → IsHit fclus h
        → (runs : List Run) → All P runs
        → r ≡ (
          some (
            record {
              id = c.cache_valid_id;
              nr_contig = h.run.nr_contig;
              start = some (h.run.fcluster, h.run.dcluster);
            },
            h.run.fcluster + h.offset,
            h.run.dcluster + h.offset,
          ),
          record c { runs = runs },
        )
        → LookedUp c fclus r

  answered :
      (c : Cache) (fclus : ℕ) (o : Option Hit)
      → HitKept fclus o
      → LookedUp c fclus (lookup_answer c o)
  unfolding lookup_answer
  answered c fclus none k = missed refl
  answered c fclus (some h) k =
      hit h k (h.run ∷ rejoin h.before h.after)
        (k.run_P, All-rejoin h.before h.after k.before_P k.after_P) refl

  pub lookup-LookedUp :
      (c : Cache) (fclus : ℕ) → All P c.runs → LookedUp c fclus (fat_cache_lookup c fclus)
  unfolding fat_cache_lookup
  lookup-LookedUp c fclus kept =
      answered c fclus (lookup_from fclus [] c.runs none)
        (lookup_from-HitKept fclus [] c.runs none tt kept tt)

  -- The property passes to the longer of two runs that start together.
  module _
      (grow : (p q : Run)
        → P p
        → P q
        → p.fcluster ≡ q.fcluster
        → P (record p { nr_contig = q.nr_contig })) where
    abbrev SomeKept : Option (List Run) → Type 0
    SomeKept none = Unit
    SomeKept (some runs) = All P runs

    grown :
        (p q : Run)
        → P p
        → P q
        → p.fcluster ≡ q.fcluster
        → P (if ltb p.nr_contig q.nr_contig then record p { nr_contig = q.nr_contig } else p)
    grown p q hp hq e = elim (Bool-cases (ltb p.nr_contig q.nr_contig)) [
      | inl more ↦ rw more (grow p q hp hq e)
      | inr less ↦ rw less hp
    ]

    merge_from-kept :
        (seen runs : List Run) (q : Run)
        → P q
        → All P seen
        → All P runs
        → SomeKept (merge_from seen runs q.nr_contig q.fcluster)
    unfolding merge_from
    merge_from-kept seen [] q hq s r = tt
    merge_from-kept seen (p ∷ ps) q hq s (hp, r) = elim (Bool-cases (p.fcluster == q.fcluster)) [
      | inl same ↦ rw same (grown p q hp hq ((==_iff _ _).0 same), All-rejoin seen ps s r)
      | inr differ ↦ rw differ (merge_from-kept (p ∷ seen) ps q hq (hp, s) r)
    ]

    insert_run-kept :
        (memory : Bool) (c : Cache) (q : Run)
        → P q
        → All P c.runs
        → All P (insert_run memory c q).runs
    unfolding insert_run
    insert_run-kept memory c q hq kept = elim (Bool-cases (ltb c.nr_caches fat_max_cache)) [
      | inr full ↦ rw full (hq, All-drop_last c.runs kept)
      | inl room ↦ rw room (stored memory)
    ]
      where
        stored :
            (m : Bool)
            → All P
                (if m then record c { runs = q ∷ c.runs; nr_caches = c.nr_caches + 1 } else c).runs
        stored true = (hq, kept)
        stored false = kept

    add_merged-kept :
        (memory : Bool) (c : Cache) (q : Run) (o : Option (List Run))
        → P q
        → All P c.runs
        → SomeKept o
        → All P (add_merged memory c q o).runs
    unfolding add_merged
    add_merged-kept memory c q none hq kept o = insert_run-kept memory c q hq kept
    add_merged-kept memory c q (some runs) hq kept o = o

    pub add_run-kept :
        (memory : Bool) (c : Cache) (id : ℕ) (q : Run)
        → P q
        → All P c.runs
        → All P (add_run memory c id q).runs
    unfolding add_run
    add_run-kept memory c id q hq kept =
        elim (Bool-cases (not (id == fat_cache_valid) && not (id == c.cache_valid_id))) [
          | inl stale ↦ rw stale kept
          | inr valid ↦ rw valid (
              add_merged-kept memory c q (merge_from [] c.runs q.nr_contig q.fcluster) hq kept
                (merge_from-kept [] c.runs q hq tt kept))
        ]
