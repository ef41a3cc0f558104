-- ===== src/Fat/Alloc/Free.antt =====
-- `fat_free_clusters`: what one round does, and that the loop always ends.
use userfs.Prelude.{
  ℕ, zero, suc, ◌+◌, ◌-◌, ◌<◌, ◌≡◌, ◌≢◌, ◌⊎◌, inl, inr, arith, some, ok, ◌∙◌, ap, sym, eq_cases,
}
use userfs.Fat.Table.{FatTable, fat_ent_free}
use userfs.Fat.Count.{zeros, zeros_fill, zeros-le}
use userfs.Fat.Alloc.{Fs, release_cluster, free_visit, free_scan, fat_free_clusters}
use userfs.Fat.Alloc.Scan.{IsEntry}
use userfs.Fat.Chain.{IsEnd}

module _ (T : FatTable) where
  open T use {Image, IsReady, max_cluster, read, put, get}

  pub stop :
      (fuel : ℕ) (fs : Fs T) (c : ℕ) → IsEnd T c → free_scan T (suc fuel) fs c ≡ some (ok tt, fs)
  unfolding free_scan
  stop fuel fs c e = ground arith

  stop_pos :
      (fuel : ℕ) (fs : Fs T) (c : ℕ)
      → 0 < fuel
      → IsEnd T c
      → free_scan T fuel fs c ≡ some (ok tt, fs)
  stop_pos zero fs c h e = absurd (omega arith)
  stop_pos (suc fuel) fs c h e = stop fuel fs c e

  pub step :
      (fuel : ℕ) (fs : Fs T) (c : ℕ)
      → IsReady fs.image
      → IsEntry T c
      → free_scan T (suc fuel) fs c ≡ free_scan T fuel (release_cluster T fs c) (get fs.image c)
  unfolding free_scan free_visit
  step fuel fs c ready (lo, hi) =
      rw (T.read_valid fs.image c ready lo hi, free_visit) (ground arith)

  pub self :
      (fs : Fs T) (c : ℕ)
      → IsReady fs.image
      → IsEntry T c
      → get (release_cluster T fs c).image c ≡ 0
  unfolding release_cluster
  self fs c ready (lo, hi) = T.get-put_self fs.image c fat_ent_free ready lo hi ∙ T.stored_free

  pub others :
      (fs : Fs T) (c j : ℕ)
      → IsReady fs.image
      → IsEntry T c
      → IsEntry T j
      → c ≢ j
      → get (release_cluster T fs c).image j ≡ get fs.image j
  unfolding release_cluster
  others fs c j ready (lo, hi) (jl, jh) ne =
      T.get-put_ne fs.image c j fat_ent_free ready lo hi jl jh ne

  pub IsReady-after :
      (fs : Fs T) (c : ℕ) → IsReady fs.image → IsEntry T c → IsReady (release_cluster T fs c).image
  unfolding release_cluster
  IsReady-after fs c ready (lo, hi) = T.put-IsReady fs.image c fat_ent_free ready lo hi

  -- Freeing a used cluster adds one free entry.
  counted :
      (fs : Fs T) (c : ℕ)
      → IsReady fs.image
      → IsEntry T c
      → get fs.image c ≢ 0
      → zeros (get (release_cluster T fs c).image) (max_cluster - 2)
        ≡ zeros (get fs.image) (max_cluster - 2) + 1
  counted fs c ready (lo, hi) used =
      zeros_fill (get (release_cluster T fs c).image) (get fs.image) c (max_cluster - 2) lo
        (omega arith) (self fs c ready (lo, hi)) used
        (λ e el eh ne. others fs c e ready (lo, hi) (el, omega arith) (λ p. ne (sym p)))

  IsEntry-or_IsEnd : (c : ℕ) → IsEntry T c ⊎ IsEnd T c
  IsEntry-or_IsEnd c = ground arith

  -- Every round frees an entry, and a round at a free entry is the last but one.
  free_scan_total :
      (fuel : ℕ) (fs : Fs T) (c : ℕ)
      → IsReady fs.image
      → max_cluster < fuel + zeros (get fs.image) (max_cluster - 2)
      → (fs' : Fs T) × (free_scan T fuel fs c ≡ some (ok tt, fs')) × IsReady fs'.image
  free_scan_total zero fs c ready f =
      absurd (omega (arith, zeros-le (get fs.image) (max_cluster - 2)))
  free_scan_total (suc fuel) fs c ready f = elim (IsEntry-or_IsEnd c) [
    | inr end ↦ (fs, stop fuel fs c end, ready)
    | inl e ↦ elim (eq_cases (get fs.image c) 0) [
      | inl free ↦
          let fs1 = release_cluster T fs c in
          (
            fs1,
            step fuel fs c ready e
                ∙ ap (free_scan T fuel fs1) free
                ∙ stop_pos fuel fs1 0
                    (omega (arith, zeros-le (get fs.image) (max_cluster - 2), T.max_cluster_pos))
                    (inl (omega arith)),
            IsReady-after fs c ready e,
          )
      | inr used ↦
          let (fs', done, r) =
            free_scan_total fuel (release_cluster T fs c) (get fs.image c)
              (IsReady-after fs c ready e) (omega (arith, counted fs c ready e used)) in
          (fs', step fuel fs c ready e ∙ done, r)
    ]
  ]

  -- `fat_free_clusters` returns from any cluster number and any table, chain or not.
  pub free_total :
      (fs : Fs T) (c : ℕ)
      → IsReady fs.image
      → (fs' : Fs T) × (fat_free_clusters T fs c ≡ some (ok tt, fs')) × IsReady fs'.image
  unfolding fat_free_clusters
  free_total fs c ready = free_scan_total (suc max_cluster) fs c ready (omega arith)
