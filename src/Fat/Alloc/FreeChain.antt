-- ===== src/Fat/Alloc/FreeChain.antt =====
-- On a chain, `fat_free_clusters` frees exactly the clusters of the chain.
use userfs.Prelude.{
  ℕ, zero, suc, ◌+◌, ◌%◌, ◌^◌, ◌<◌, ◌≡◌, refl, arith, Option, some, Outcome, ok, List, [], ◌∷◌,
  length, ◌∙◌, ap, sym, subst,
}
use userfs.Fat.Table.{FatTable}
use userfs.Fat.Chain.{Absent, Chain, AllFree, Chain-kept}
use userfs.Fat.Alloc.{Fs, release_cluster, free_scan, fat_free_clusters}
use userfs.Fat.Alloc.Scan.{IsEntry}
use userfs.Fat.Alloc.Free.{step, stop, self, others, IsReady-after, free_total}

module _ (T : FatTable) where
  open T use {Image, IsReady, max_cluster, get}

  -- What freeing the clusters `xs` makes of the table and of the counters.
  pub record Freed (fs : Fs T) (xs : List ℕ) (fs' : Fs T) : Type 0 where
    pub all_free : AllFree T fs'.image xs
    pub others_kept : (j : ℕ) → IsEntry T j → Absent T j xs → get fs'.image j ≡ get fs.image j
    pub added : fs'.free_clusters ≡ (fs.free_clusters + length xs) % 2 ^ 32
    pub hint_kept : fs'.prev_free ≡ fs.prev_free

  first :
      (fs : Fs T) (x : ℕ) (xs : List ℕ) (fs' : Fs T)
      → IsReady fs.image
      → IsEntry T x
      → Absent T x xs
      → Freed (release_cluster T fs x) xs fs'
      → Freed fs (x ∷ xs) fs'
  unfolding release_cluster
  first fs x xs fs' ready e a f = record {
    all_free = (f.others_kept x e a ∙ self T fs x ready e, f.all_free);
    others_kept =
        λ j je (ne, ja). f.others_kept j je ja ∙ others T fs x j ready e je (λ p. ne (sym p));
    added = omega arith;
    hint_kept = f.hint_kept;
  }

  small_after : (fs : Fs T) (x : ℕ) → (release_cluster T fs x).free_clusters < 2 ^ 32
  unfolding release_cluster
  small_after fs x = omega arith

  done_same :
      (a b : Fs T)
      → ◌≡◌ {A = Option (Outcome (Unit {0}) × Fs T)} (some (ok tt, a)) (some (ok tt, b))
      → a ≡ b
  done_same a b p = cc

  freed :
      (fuel : ℕ) (fs : Fs T) (c : ℕ) (xs : List ℕ) (fs' : Fs T)
      → fs.free_clusters < 2 ^ 32
      → IsReady fs.image
      → Chain T fs.image c xs
      → free_scan T fuel fs c ≡ some (ok tt, fs')
      → Freed fs xs fs'
  unfolding free_scan
  freed zero fs c xs fs' small ready k r = cc
  freed (suc fuel) fs c [] fs' small ready k r =
      subst (λ z. Freed fs [] z) (done_same fs fs' (sym (stop T fuel fs c k) ∙ r))
        (record {
          all_free = tt;
          others_kept = λ j je a. refl;
          added = omega arith;
          hint_kept = refl;
        })
  freed (suc fuel) fs c (x ∷ xs) fs' small ready (e, entry, once, rest) r =
      first fs x xs fs' ready entry once (
        freed fuel (release_cluster T fs x) (get fs.image x) xs fs' (small_after fs x)
          (IsReady-after T fs x ready entry)
          (Chain-kept T fs.image (release_cluster T fs x).image x (get fs.image x) xs
            (λ j je ne. others T fs x j ready entry je ne) once rest)
          (sym (step T fuel fs x ready entry) ∙ ap (free_scan T (suc fuel) fs) (sym e) ∙ r))

  -- `fat_free_clusters` at the start of a chain succeeds: every cluster of the chain is free
  -- afterwards, no other entry changes, and the counter grows by the length of the chain.
  pub free-Chain :
      (fs : Fs T) (c : ℕ) (xs : List ℕ)
      → fs.free_clusters < 2 ^ 32
      → IsReady fs.image
      → Chain T fs.image c xs
      → (fs' : Fs T) × (fat_free_clusters T fs c ≡ some (ok tt, fs')) × Freed fs xs fs'
  unfolding fat_free_clusters
  free-Chain fs c xs small ready k =
      let (fs', done, _) = free_total T fs c ready in
      (fs', done, freed (suc max_cluster) fs c xs fs' small ready k done)
