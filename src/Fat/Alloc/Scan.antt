-- ===== src/Fat/Alloc/Scan.antt =====
-- What the loop of `fat_alloc_clusters` finds, and that it always ends.
use userfs.Prelude.{
  ℕ, zero, suc, ◌+◌, ◌-◌, ◌^◌, ◌≤◌, ◌<◌, ◌≡◌, ◌≢◌, inl, inr, arith, Option, some, Outcome, ok, err,
  enospc, ltb, leb, if◌then◌else◌, ne→==, eq_cases, lt_cases, ◌∙◌, ap, sym, if_true, if_false,
  lt→ltb, le→ltb,
}
use userfs.Fat.Table.{FatTable, fat_ent_free}
use userfs.Fat.Alloc.{Fs, wrap, take_cluster, alloc_visit, alloc_scan}

module _ (T : FatTable) where
  open T use {Image, IsReady, max_cluster, read, put, get}

  -- An entry of the table, and one that is free.
  abbrev pub IsEntry : ℕ → Type 0
  IsEntry e = (2 ≤ e) × (e < max_cluster)

  abbrev pub IsFree : Image → ℕ → Type 0
  IsFree t e = (2 ≤ e) × (e < max_cluster) × (get t e ≡ fat_ent_free)

  wrap-IsEntry : (i : ℕ) → 2 ≤ i → i ≤ max_cluster → IsEntry (wrap T i)
  wrap-IsEntry i lo hi = wrapped T.max_cluster_pos T.max_cluster-int
    where
      wrapped : 2 < max_cluster → max_cluster < 2 ^ 31 → IsEntry (wrap T i)
      wrapped h k = ground arith

  -- How many entries the search passes from `i` before it comes to `j`.
  abbrev pub distance : ℕ → ℕ → ℕ
  distance i j = if leb i j then j - i else max_cluster - i + (j - 2)

  distance_step :
      (i j : ℕ)
      → 2 ≤ i
      → i ≤ max_cluster
      → IsEntry j
      → j ≢ wrap T i
      → distance i j ≡ distance (wrap T i + 1) j + 1
  distance_step i j lo hi e ne = stepped T.max_cluster_pos T.max_cluster-int
    where
      stepped :
          2 < max_cluster → max_cluster < 2 ^ 31 → distance i j ≡ distance (wrap T i + 1) j + 1
      stepped h k = ground arith

  module _ (fs : Fs T) (ready : IsReady fs.image) (fuel i count : ℕ) (lo : 2 ≤ i)
      (hi : i ≤ max_cluster) where
    scan_hit :
        get fs.image (wrap T i) ≡ fat_ent_free
        → alloc_scan T (suc fuel) fs i count ≡ some (ok (wrap T i), take_cluster T fs (wrap T i))
    unfolding alloc_scan alloc_visit
    scan_hit free =
        let (l, h) = wrap-IsEntry i lo hi in
        rw (T.read_valid fs.image (wrap T i) ready l h, alloc_scan, alloc_visit, free)

    scan_miss :
        get fs.image (wrap T i) ≢ fat_ent_free
        → alloc_scan T (suc fuel) fs i count ≡ (
            if ltb (max_cluster - 2) (count + 1)
            then some (err enospc, fs)
            else alloc_scan T fuel fs (wrap T i + 1) (count + 1))
    unfolding alloc_scan alloc_visit
    scan_miss used =
        let (l, h) = wrap-IsEntry i lo hi in
        rw (T.read_valid fs.image (wrap T i) ready l h, alloc_scan, alloc_visit, ne→== _ _ used)

  -- What the loop returns: the first free entry in the order of the search, or no space where none
  -- of the entries still to be read is free.
  pub data Scanned (fs : Fs T) (i count : ℕ) (r : Option (Outcome ℕ × Fs T)) : Type 0 where
    found :
        (c : ℕ) → IsFree fs.image c → r ≡ some (ok c, take_cluster T fs c) → Scanned fs i count r
    full :
        ((j : ℕ) → IsFree fs.image j → max_cluster - 2 < distance i j + count)
        → r ≡ some (err enospc, fs)
        → Scanned fs i count r

  later :
      (fs : Fs T) (i count : ℕ) {r s : Option (Outcome ℕ × Fs T)}
      → get fs.image (wrap T i) ≢ fat_ent_free
      → 2 ≤ i
      → i ≤ max_cluster
      → r ≡ s
      → Scanned fs (wrap T i + 1) (count + 1) s
      → Scanned fs i count r
  later fs i count used lo hi e (found c free done) = found c free (e ∙ done)
  later fs i count used lo hi e (full none_free done) =
      full
        (λ j (jl, jh, free).
          let ne : j ≢ wrap T i = λ p. used (ap (get fs.image) (sym p) ∙ free) in
          omega (arith, distance_step i j lo hi (jl, jh) ne, none_free j (jl, jh, free)))
        (e ∙ done)

  pub scan_lem :
      (fuel : ℕ) (fs : Fs T) (i count : ℕ)
      → IsReady fs.image
      → 2 ≤ i
      → i ≤ max_cluster
      → count ≤ max_cluster - 2
      → max_cluster - 2 < fuel + count
      → Scanned fs i count (alloc_scan T fuel fs i count)
  scan_lem zero fs i count ready lo hi c f = absurd (omega arith)
  scan_lem (suc fuel) fs i count ready lo hi c f = elim (eq_cases (get fs.image (wrap T i)) 0) [
    | inl free ↦ found (wrap T i) (l, h, free) (scan_hit fs ready fuel i count lo hi free)
    | inr used ↦ elim (lt_cases (max_cluster - 2) (count + 1)) [
      | inl end ↦
          full
            (λ j (jl, jh, free). omega (
              arith,
              distance_step i j lo hi (jl, jh) (λ e. used (ap (get fs.image) (sym e) ∙ free)),
            ))
            (scan_miss fs ready fuel i count lo hi used ∙ if_true _ _ (lt→ltb _ _ end))
      | inr more ↦
          later fs i count used lo hi
            (scan_miss fs ready fuel i count lo hi used ∙ if_false _ _ (le→ltb _ _ more))
            (scan_lem fuel fs (wrap T i + 1) (count + 1) ready (omega (arith, l)) (omega (arith, h))
              more (omega arith))
    ]
  ]
    where
      l : 2 ≤ wrap T i
      l = (wrap-IsEntry i lo hi).0

      h : wrap T i < max_cluster
      h = (wrap-IsEntry i lo hi).1
