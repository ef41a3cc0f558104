-- ===== src/Fat/GetCluster/Reference.antt =====
-- The walk without a cache, from the first cluster, and the cluster at each place of a chain.
use userfs.Prelude.{
  ℕ, zero, suc, ◌+◌, ◌-◌, ◌≤◌, ◌<◌, ◌≡◌, refl, arith, Option, none, some, Outcome, ok, err, eio,
  ltb, leb, ◌==◌, if◌then◌else◌, ◌∙◌, ap, Option-cases, inl, inr, lt_cases, lt→ltb, le→ltb,
}
use userfs.Fat.Table.{FatTable, fat_ent_free}
use userfs.Fat.Alloc.{fat_valid_entry}
use userfs.Fat.GetCluster.{Found}

module _ (T : FatTable) (t : T.Image) (limit : ℕ) where
  open T use {max_fat, read}

  -- The next cluster of a chain, by what the entry of a cluster reads as.
  unfoldable pub next : Outcome ℕ → Option ℕ
  next (err e) = none
  next (ok nr) = if nr == fat_ent_free then none else if leb max_fat nr then none else some nr

  unfoldable pub after : Option ℕ → Option ℕ
  after none = none
  after (some d) = next (read t d)

  -- The cluster at place `k` of the chain from `s`.
  unfoldable pub at : ℕ → ℕ → Option ℕ
  at s zero = some s
  at s (suc k) = after (at s k)

  -- Where the walk stops at a cluster that has no next one.
  unfoldable pub plain_end : ℕ → ℕ → Outcome ℕ → Found
  plain_end fclus dclus (err e) = record { nr = err e; fclus = fclus; dclus = dclus }
  plain_end fclus dclus (ok nr) = record {
    nr = if nr == fat_ent_free then err eio else ok nr;
    fclus = fclus;
    dclus = dclus;
  }

  unfoldable pub plain_visit : ℕ → ℕ → Outcome ℕ → Option ℕ → (ℕ → ℕ → Option Found) → Option Found
  plain_visit fclus dclus r none go = some (plain_end fclus dclus r)
  plain_visit fclus dclus r (some d) go = go (fclus + 1) d

  -- The walk of `fat_get_cluster` with nothing cached.
  unfoldable pub plain_walk : ℕ → ℕ → ℕ → ℕ → Option Found
  plain_walk zero cluster fclus dclus = none
  plain_walk (suc fuel) cluster fclus dclus =
      if ltb fclus cluster
      then (if ltb limit fclus
          then some (record { nr = err eio; fclus = fclus; dclus = dclus })
          else plain_visit fclus dclus (read t dclus) (next (read t dclus))
              (plain_walk fuel cluster))
      else some (record { nr = ok 0; fclus = fclus; dclus = dclus })

  plain_step :
      (fuel cluster fclus dclus d : ℕ)
      → fclus < cluster
      → fclus ≤ limit
      → next (read t dclus) ≡ some d
      → plain_walk (suc fuel) cluster fclus dclus ≡ plain_walk fuel cluster (fclus + 1) d
  unfolding plain_walk plain_visit
  plain_step fuel cluster fclus dclus d h k e = rw (e, plain_visit) (ground arith)

  -- The walk may start at any place of the chain up to the one that is asked for.
  pub plain_jump :
      (cluster s k d : ℕ)
      → at s k ≡ some d
      → k ≤ cluster
      → k ≤ limit + 1
      → plain_walk (limit + 2) cluster 0 s ≡ plain_walk (limit + 2 - k) cluster k d
  unfolding at after
  plain_jump cluster s zero d e h l =
      let same : s ≡ d = cc in let fuel : limit + 2 - 0 ≡ limit + 2 = omega arith in rw (fuel, same)
  plain_jump cluster s (suc k) d e h l = elim (Option-cases (at s k)) [
    | inl gone ↦ absurd (nothing (rw gone at e))
    | inr (d', here) ↦
        let more : limit + 2 - k ≡ suc (limit + 2 - suc k) = omega arith in
        let on : k + 1 ≡ suc k = omega arith in
        plain_jump cluster s k d' here (omega arith) (omega arith)
        ∙ ap (λ n. plain_walk n cluster k d') more
        ∙ plain_step (limit + 2 - suc k) cluster k d' d h (omega arith) (rw here at e)
        ∙ ap (λ n. plain_walk (limit + 2 - suc k) cluster n d) on
  ]
    where
      nothing : after none ≡ some d → ⊥
      nothing p = cc

  -- The walk always ends, within `limit + 2` rounds.
  pub plain_total :
      (fuel cluster fclus dclus : ℕ)
      → 0 < fuel
      → limit + 1 < fuel + fclus
      → (f : Found) × (plain_walk fuel cluster fclus dclus ≡ some f)
  unfolding plain_walk plain_visit
  plain_total zero cluster fclus dclus p h = absurd (omega arith)
  plain_total (suc fuel) cluster fclus dclus p h = elim (lt_cases fclus cluster) [
    | inr there ↦ (record { nr = ok 0; fclus = fclus; dclus = dclus }, rw (le→ltb _ _ there))
    | inl more ↦ elim (lt_cases limit fclus) [
      | inl loop ↦ (
        record { nr = err eio; fclus = fclus; dclus = dclus },
        rw (lt→ltb _ _ more, lt→ltb _ _ loop),
      )
      | inr fine ↦
          rw (lt→ltb _ _ more, le→ltb _ _ fine)
            (visited (next (read t dclus))
              (λ d. plain_total fuel cluster (fclus + 1) d (omega arith) (omega arith)))
    ]
  ]
    where
      visited :
          (o : Option ℕ)
          → ((d : ℕ) → (f : Found) × (plain_walk fuel cluster (fclus + 1) d ≡ some f))
          → (f : Found) × (plain_visit fclus dclus (read t dclus) o (plain_walk fuel cluster)
              ≡ some f)
      visited none later = (plain_end fclus dclus (read t dclus), refl)
      visited (some d) later = later d

  -- `fat_get_cluster` with nothing cached.
  unfoldable pub plain_get_cluster : ℕ → ℕ → Option Found
  plain_get_cluster i_start cluster =
      if i_start == 0
      then some (record { nr = err eio; fclus = 0; dclus = 0 })
      else if fat_valid_entry T i_start
      then (if cluster == 0
          then some (record { nr = ok 0; fclus = 0; dclus = i_start })
          else plain_walk (limit + 2) cluster 0 i_start)
      else some (record { nr = err eio; fclus = 0; dclus = i_start })
