-- ===== src/Fat/GetCluster/Sound.antt =====
-- With a cache whose runs lie on the file's chain, the walk gives what it gives without a cache, and
-- the runs that it adds lie on the chain too.
use userfs.Prelude.{
  ℕ, zero, suc, ◌+◌, ◌≤◌, ◌<◌, ◌≡◌, ◌≢◌, refl, arith, Bool, false, Option, none, some, Outcome, ok,
  err, All, leb, ◌==◌, ◌∙◌, ap, sym, inl, inr, lt_cases, eq_cases, Bool-cases, lt→ltb, le→ltb,
  ne→==, ==_iff,
}
use userfs.Fat.Table.{FatTable, fat_ent_free}
use userfs.Fat.ClusterCache.{Run, CacheId, Cache, fat_cache_add, contiguous, cache_step}
use userfs.Fat.ClusterCache.Kept.{add_run-kept}
use userfs.Fat.GetCluster.{Found, walk, walk_visit}
use userfs.Fat.GetCluster.Reference.{next, at, after, plain_end, plain_visit, plain_walk}

module _ (T : FatTable) (t : T.Image) (memory : Bool) (limit s : ℕ) where
  open T use {max_fat, read}

  -- A run of the cache lies on the chain from `s`, past its first cluster.
  abbrev pub IsRun : Run → Type 0
  IsRun r =
      (0 < r.fcluster)
      × (r.fcluster + r.nr_contig ≤ limit + 1)
      × ((j : ℕ) → j ≤ r.nr_contig → at T t limit s (r.fcluster + j) ≡ some (r.dcluster + j))

  run_grow :
      (p q : Run)
      → IsRun p
      → IsRun q
      → p.fcluster ≡ q.fcluster
      → IsRun (record p { nr_contig = q.nr_contig })
  run_grow p q (pf, pl, pc) (qf, ql, qc) e = (pf, omega arith, λ j h. moved j h)
    where
      same_start : p.dcluster ≡ q.dcluster
      same_start =
          first (sym (pc 0 (omega arith)) ∙ ap (λ n. at T t limit s (n + 0)) e ∙ qc 0 (omega arith))
        where
          first : some (p.dcluster + 0) ≡ some (q.dcluster + 0) → p.dcluster ≡ q.dcluster
          first h = ground arith

      moved : (j : ℕ) → j ≤ q.nr_contig → at T t limit s (p.fcluster + j) ≡ some (p.dcluster + j)
      moved j h =
          ap (λ n. at T t limit s (n + j)) e ∙ qc j h ∙ ap (λ n. some (n + j)) (sym same_start)

  -- The id that a walk carries at the place `fclus`, where `dclus` is the cluster.
  abbrev pub CidKept : Option (ℕ × ℕ) → ℕ → ℕ → ℕ → ℕ → Type 0
  CidKept none nr fclus dclus cluster = nr ≡ 0
  CidKept (some (f, d)) nr fclus dclus cluster =
      IsRun (record { nr_contig = nr; fcluster = f; dcluster = d })
      × (fclus < cluster → f + nr ≡ fclus)
      × (fclus < cluster → d + nr ≡ dclus)

  add-kept :
      (c : Cache) (cid : CacheId) (fclus dclus cluster : ℕ)
      → All IsRun c.runs
      → CidKept cid.start cid.nr_contig fclus dclus cluster
      → All IsRun (fat_cache_add memory c cid).runs
  unfolding fat_cache_add
  add-kept c cid fclus dclus cluster kept k = added cid.start k
    where
      added :
          (o : Option (ℕ × ℕ))
          → CidKept o cid.nr_contig fclus dclus cluster
          → All IsRun (fat_cache_add memory c (record cid { start = o })).runs
      added none h = kept
      added (some (f, d)) (run, _, _) = add_run-kept IsRun run_grow memory c cid.id _ run kept

  -- A run of one cluster.
  fresh :
      (fclus d' cluster : ℕ)
      → fclus ≤ limit
      → at T t limit s (fclus + 1) ≡ some d'
      → CidKept (some (fclus + 1, d')) 0 (fclus + 1) d' cluster
  fresh fclus d' cluster l e =
      ((omega arith, omega arith, λ j h. only j h), λ _. omega arith, λ _. omega arith)
    where
      only : (j : ℕ) → j ≤ 0 → at T t limit s (fclus + 1 + j) ≡ some (d' + j)
      only j h =
          let place : fclus + 1 + j ≡ fclus + 1 = omega arith in
          let here : d' ≡ d' + j = omega arith in ap (at T t limit s) place ∙ e ∙ ap some here

  -- A run grows by the next cluster of the disk.
  longer :
      (f d nr fclus dclus d' cluster : ℕ)
      → CidKept (some (f, d)) nr fclus dclus cluster
      → fclus < cluster
      → fclus ≤ limit
      → at T t limit s (fclus + 1) ≡ some d'
      → d + (nr + 1) ≡ d'
      → CidKept (some (f, d)) (nr + 1) (fclus + 1) d' cluster
  longer f d nr fclus dclus d' cluster ((pos, _, run), atf, atd) m l e next_d = (
    (pos, omega (arith, atf m), λ j h. cluster_at j h),
    λ _. omega (arith, atf m),
    λ _. omega arith,
  )
    where
      cluster_at : (j : ℕ) → j ≤ nr + 1 → at T t limit s (f + j) ≡ some (d + j)
      cluster_at j h = elim (lt_cases nr j) [
        | inr old ↦ run j old
        | inl new ↦
            let place : f + j ≡ fclus + 1 = omega (arith, atf m) in
            let here : d' ≡ d + j = omega arith in ap (at T t limit s) place ∙ e ∙ ap some here
      ]

  step-kept :
      (o : Option (ℕ × ℕ)) (id nr fclus dclus d' cluster : ℕ)
      → CidKept o nr fclus dclus cluster
      → fclus < cluster
      → fclus ≤ limit
      → d' ≢ 0
      → at T t limit s (fclus + 1) ≡ some d'
      → let cid = cache_step (record { id = id; nr_contig = nr; start = o }) (fclus + 1) d' in
        CidKept cid.start cid.nr_contig (fclus + 1) d' cluster
  unfolding cache_step contiguous
  step-kept none id nr fclus dclus d' cluster k m l ne e =
      rw (ne→== nr d' (λ p. ne (sym p ∙ k))) (fresh fclus d' cluster l e)
  step-kept (some (f, d)) id nr fclus dclus d' cluster k m l ne e =
      elim (Bool-cases (d + (nr + 1) == d')) [
        | inl row ↦ rw row (longer f d nr fclus dclus d' cluster k m l e ((==_iff _ _).0 row))
        | inr gap ↦ rw gap (fresh fclus d' cluster l e)
      ]

  -- What the walk returns is what the plain walk returns, and its cache is as sound as before.
  abbrev pub Agrees : Option (Found × Cache) → Option Found → Type 0
  Agrees none none = Unit
  Agrees none (some g) = ⊥
  Agrees (some r) none = ⊥
  Agrees (some (f, c)) (some g) = (f ≡ g) × All IsRun c.runs

  last_end :
      (fclus dclus nr : ℕ)
      → nr ≢ 0
      → record { nr = ok nr; fclus = fclus; dclus = dclus }
        ≡ plain_end T t limit fclus dclus (ok nr)
  unfolding plain_end
  last_end fclus dclus nr used = rw (ne→== nr 0 used)

  next_used : (nr : ℕ) → nr ≢ 0 → leb max_fat nr ≡ false → next T t limit (ok nr) ≡ some nr
  unfolding next
  next_used nr used more = rw (ne→== nr 0 used, more)

  visit-Agrees :
      (r : Outcome ℕ) (c : Cache) (cid : CacheId) (fclus dclus cluster : ℕ)
      (go : CacheId → ℕ → ℕ → Option (Found × Cache)) (plain_go : ℕ → ℕ → Option Found)
      → All IsRun c.runs
      → CidKept cid.start cid.nr_contig fclus dclus cluster
      → fclus < cluster
      → fclus ≤ limit
      → at T t limit s (fclus + 1) ≡ next T t limit r
      → ((cid' : CacheId) (d' : ℕ)
          → next T t limit r ≡ some d'
          → CidKept cid'.start cid'.nr_contig (fclus + 1) d' cluster
          → Agrees (go cid' (fclus + 1) d') (plain_go (fclus + 1) d'))
      → Agrees
          (walk_visit T t memory limit c cid fclus dclus r go)
          (plain_visit T t limit fclus dclus r (next T t limit r) plain_go)
  unfolding walk_visit plain_visit plain_end next
  visit-Agrees (err e) c cid fclus dclus cluster go plain_go kept k m l p later = (refl, kept)
  visit-Agrees (ok nr) c cid fclus dclus cluster go plain_go kept k m l p later =
      elim (eq_cases nr fat_ent_free) [
        | inl free ↦ rw free (refl, kept)
        | inr used ↦ elim (Bool-cases (leb max_fat nr)) [
          | inl last ↦
              rw (ne→== nr 0 used, last)
                (last_end fclus dclus nr used, add-kept c cid fclus dclus cluster kept k)
          | inr more ↦
              rw (ne→== nr 0 used, more)
                (later (cache_step cid (fclus + 1) nr) nr (next_used nr used more) (
                  step-kept cid.start cid.id cid.nr_contig fclus dclus nr cluster k m l used
                    (p ∙ next_used nr used more)))
        ]
      ]

  pub walk-Agrees :
      (fuel cluster : ℕ) (c : Cache) (cid : CacheId) (fclus dclus : ℕ)
      → All IsRun c.runs
      → CidKept cid.start cid.nr_contig fclus dclus cluster
      → at T t limit s fclus ≡ some dclus
      → Agrees
          (walk T t memory limit fuel cluster c cid fclus dclus)
          (plain_walk T t limit fuel cluster fclus dclus)
  unfolding walk plain_walk at after
  walk-Agrees zero cluster c cid fclus dclus kept k e = tt
  walk-Agrees (suc fuel) cluster c cid fclus dclus kept k e = elim (lt_cases fclus cluster) [
    | inr there ↦ rw (le→ltb _ _ there) (refl, add-kept c cid fclus dclus cluster kept k)
    | inl more ↦ elim (lt_cases limit fclus) [
      | inl loop ↦ rw (lt→ltb _ _ more, lt→ltb _ _ loop) (refl, kept)
      | inr fine ↦
          rw (lt→ltb _ _ more, le→ltb _ _ fine)
            (visit-Agrees (read t dclus) c cid fclus dclus cluster
              (walk T t memory limit fuel cluster c) (plain_walk T t limit fuel cluster) kept k more
              fine here
              (λ cid' d' p k'. walk-Agrees fuel cluster c cid' (fclus + 1) d' kept k' (here ∙ p)))
    ]
  ]
    where
      here : at T t limit s (fclus + 1) ≡ next T t limit (read t dclus)
      here =
          ap (at T t limit s) (let one : fclus + 1 ≡ suc fclus = omega arith in one)
          ∙ ap (after T t limit) e
