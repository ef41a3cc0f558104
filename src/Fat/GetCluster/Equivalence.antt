-- ===== src/Fat/GetCluster/Equivalence.antt =====
-- `fat_get_cluster` with the run cache against the walk without one.
use userfs.Prelude.{
  ℕ, ◌+◌, ◌-◌, ◌≤◌, ◌<◌, ◌≡◌, refl, arith, Bool, Option, none, some, ok, err, eio, All, ◌==◌, ◌∙◌,
  ap, sym, ◌⊎◌, inl, inr, Bool-cases,
}
use userfs.Fat.Table.{FatTable}
use userfs.Fat.Alloc.{fat_valid_entry}
use userfs.Fat.ClusterCache.{CacheId, Cache, fat_cache_lookup}
use userfs.Fat.ClusterCache.Kept.{LookedUp, missed, hit, lookup-LookedUp}
use userfs.Fat.GetCluster.{Found, walk, walk_from, fat_get_cluster, no_run}
use userfs.Fat.GetCluster.Reference.{at, plain_walk, plain_jump, plain_total, plain_get_cluster}
use userfs.Fat.GetCluster.Sound.{IsRun, CidKept, Agrees, walk-Agrees}

module _ (T : FatTable) (t : T.Image) (memory : Bool) (limit s cluster : ℕ) where
  -- A call returns, with the result of the plain walk and a sound cache.
  abbrev pub Same : Option (Found × Cache) → Option Found → Type 0
  Same r p =
      (f : Found) × (c : Cache) × (r ≡ some (f, c))
      × (p ≡ some f)
      × All (IsRun T t memory limit s) c.runs

  Same-of_Agrees :
      (r : Option (Found × Cache)) (p : Option Found) (g : Found)
      → p ≡ some g
      → Agrees T t memory limit s r p
      → Same r p
  Same-of_Agrees none none g e a = cc
  Same-of_Agrees none (some g') g e a = absurd a
  Same-of_Agrees (some r) none g e a = absurd a
  Same-of_Agrees (some (f, c)) (some g') g e (same, kept) = (f, c, refl, ap some (sym same), kept)

  plain_ends : (g : Found) × (plain_walk T t limit (limit + 2) cluster 0 s ≡ some g)
  plain_ends = plain_total T t limit (limit + 2) cluster 0 s (omega arith) (omega arith)

  -- From any place of the chain that is not past the limit.
  from_place :
      (c : Cache) (cid : CacheId) (f d : ℕ)
      → All (IsRun T t memory limit s) c.runs
      → CidKept T t memory limit s cid.start cid.nr_contig f d cluster
      → at T t limit s f ≡ some d
      → f ≤ cluster
      → f ≤ limit + 1
      → Same
          (walk T t memory limit (limit + 2 - f) cluster c cid f d)
          (plain_walk T t limit (limit + 2) cluster 0 s)
  from_place c cid f d kept k e b l =
      let jump = plain_jump T t limit cluster s f d e b l in
      rw jump (
        Same-of_Agrees (walk T t memory limit (limit + 2 - f) cluster c cid f d)
          (plain_walk T t limit (limit + 2 - f) cluster f d) plain_ends.0 (sym jump ∙ plain_ends.1)
          (walk-Agrees T t memory limit s (limit + 2 - f) cluster c cid f d kept k e))

  from-Same :
      (c : Cache)
      → All (IsRun T t memory limit s) c.runs
      → (r : Option (CacheId × ℕ × ℕ) × Cache) → LookedUp (IsRun T t memory limit s) c cluster r
      → Same (walk_from T t memory limit cluster s r) (plain_walk T t limit (limit + 2) cluster 0 s)
  unfolding walk_from at
  from-Same c kept r (missed e) =
      let whole : limit + 2 - 0 ≡ limit + 2 = omega arith in
      rw e (rw whole at (from_place c no_run 0 s kept refl refl (omega arith) (omega arith)))
  from-Same c kept r (hit h k runs kept' e) =
      let (pos, small, chain) = k.run_P in
      rw e (
        from_place (record c { runs = runs })
          (record {
            id = c.cache_valid_id;
            nr_contig = h.run.nr_contig;
            start = some (h.run.fcluster, h.run.dcluster);
          })
          (h.run.fcluster + h.offset) (h.run.dcluster + h.offset) kept'
          (k.run_P, λ m. at_end k.ends m, λ m. d_end k.ends m) (chain h.offset k.inside) k.below
          (omega (arith, k.inside)))
    where
      at_end :
          (h.offset ≡ h.run.nr_contig) ⊎ (h.run.fcluster + h.offset ≡ cluster)
          → h.run.fcluster + h.offset < cluster
          → h.run.fcluster + h.run.nr_contig ≡ h.run.fcluster + h.offset
      at_end (inl whole) m = omega arith
      at_end (inr there) m = absurd (omega arith)

      d_end :
          (h.offset ≡ h.run.nr_contig) ⊎ (h.run.fcluster + h.offset ≡ cluster)
          → h.run.fcluster + h.offset < cluster
          → h.run.dcluster + h.run.nr_contig ≡ h.run.dcluster + h.offset
      d_end (inl whole) m = omega arith
      d_end (inr there) m = absurd (omega arith)

  -- With a cache whose runs lie on the file's chain, `fat_get_cluster` always returns, its result and
  -- both output clusters are those of the walk with nothing cached, and the runs that it leaves in
  -- the cache lie on the chain again.
  pub get_cluster-plain :
      (c : Cache)
      → All (IsRun T t memory limit s) c.runs
      → Same (fat_get_cluster T t memory limit s cluster c) (plain_get_cluster T t limit s cluster)
  unfolding fat_get_cluster plain_get_cluster
  get_cluster-plain c kept = elim (Bool-cases (s == 0)) [
    | inl empty ↦ rw empty (record { nr = err eio; fclus = 0; dclus = 0 }, c, refl, refl, kept)
    | inr start ↦ elim (Bool-cases (fat_valid_entry T s)) [
      | inr bad ↦
          rw (start, bad) (record { nr = err eio; fclus = 0; dclus = s }, c, refl, refl, kept)
      | inl good ↦ elim (Bool-cases (cluster == 0)) [
        | inl first ↦
            rw (start, good, first)
              (record { nr = ok 0; fclus = 0; dclus = s }, c, refl, refl, kept)
        | inr later ↦
            rw (start, good, later)
              (from-Same c kept (fat_cache_lookup c cluster)
                (lookup-LookedUp (IsRun T t memory limit s) c cluster kept))
      ]
    ]
  ]
