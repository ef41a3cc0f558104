-- ===== src/Fat/Alloc/Correct.antt =====
-- What `fat_alloc_clusters` returns, and what it leaves in the table and in the counters.
use userfs.Prelude.{
  ℕ, suc, ◌+◌, ◌-◌, ◌%◌, ◌^◌, ◌≤◌, ◌<◌, ◌≡◌, ◌≢◌, ◌⊎◌, inl, inr, arith, Option, some, Outcome, ok,
  err, enospc, eio, sym,
}
use userfs.Fat.Table.{FatTable, fat_ent_eof}
use userfs.Fat.Count.{zeros, zeros_fill}
use userfs.Fat.Alloc.{Fs, wrap, take_cluster, alloc_visit, alloc_scan, fat_alloc_clusters}
use userfs.Fat.Alloc.Scan.{IsEntry, IsFree, Scanned, found, full, scan_lem, distance}

module _ (T : FatTable) where
  open T use {Image, IsReady, max_cluster, read, put, get}

  start_small : (p : ℕ) → p < max_cluster → (p + 1) % 2 ^ 32 ≡ p + 1
  start_small p h = omega (arith, T.max_cluster-int)

  -- From a hint inside the table the call always returns: a cluster that was free, or ENOSPC with
  -- nothing changed, and ENOSPC only when no entry of the table is free.
  pub alloc_finds :
      (fs : Fs T)
      → IsReady fs.image
      → 2 ≤ fs.prev_free
      → fs.prev_free < max_cluster
      → ((c : ℕ) × IsFree T fs.image c
          × (fat_alloc_clusters T fs 1 ≡ some (ok c, take_cluster T fs c)))
        ⊎ (((j : ℕ) → ¬ IsFree T fs.image j) × (fat_alloc_clusters T fs 1 ≡ some (err enospc, fs)))
  unfolding fat_alloc_clusters
  alloc_finds fs ready lo hi = rw (start_small fs.prev_free hi) (
      decide (
        scan_lem T (suc max_cluster) fs (fs.prev_free + 1) 0 ready (omega arith) (omega arith)
          (omega arith) (omega arith)))
    where
      decide :
          {r : Option (Outcome ℕ × Fs T)}
          → Scanned T fs (fs.prev_free + 1) 0 r
          → ((c : ℕ) × IsFree T fs.image c × (r ≡ some (ok c, take_cluster T fs c)))
            ⊎ (((j : ℕ) → ¬ IsFree T fs.image j) × (r ≡ some (err enospc, fs)))
      decide (found c free e) = inl (c, free, e)
      decide (full none_free e) = inr (λ j free. passed j free (none_free j free), e)
        where
          passed :
              (j : ℕ)
              → IsFree T fs.image j
              → max_cluster - 2 < distance T (fs.prev_free + 1) j + 0
              → ⊥
          passed j (jl, jh, _) far = ground arith

  -- Taking a free cluster marks it as the end of a chain, leaves every other entry as it was, and
  -- takes one off the number of free entries.
  pub take_cluster_lem :
      (fs : Fs T) (c : ℕ)
      → IsReady fs.image
      → IsFree T fs.image c
      → let after = take_cluster T fs c in
        IsReady after.image
        × (T.max_fat ≤ get after.image c)
        × ((j : ℕ) → IsEntry T j → c ≢ j → get after.image j ≡ get fs.image j)
        × (zeros (get fs.image) (max_cluster - 2) ≡ zeros (get after.image) (max_cluster - 2) + 1)
  unfolding take_cluster
  take_cluster_lem fs c ready (l, h, free) =
      (T.put-IsReady fs.image c fat_ent_eof ready l h, end, others, counted)
    where
      self : get (put fs.image c fat_ent_eof) c ≡ T.stored fat_ent_eof
      self = T.get-put_self fs.image c fat_ent_eof ready l h

      end : T.max_fat ≤ get (put fs.image c fat_ent_eof) c
      end = omega (arith, self, T.stored_eof)

      others : (j : ℕ) → IsEntry T j → c ≢ j → get (put fs.image c fat_ent_eof) j ≡ get fs.image j
      others j (jl, jh) ne = T.get-put_ne fs.image c j fat_ent_eof ready l h jl jh ne

      counted :
          zeros (get fs.image) (max_cluster - 2)
          ≡ zeros (get (put fs.image c fat_ent_eof)) (max_cluster - 2) + 1
      counted =
          zeros_fill (get fs.image) (get (put fs.image c fat_ent_eof)) c (max_cluster - 2) l
            (omega arith) free (omega (arith, end, T.max_cluster-max_fat))
            (λ e el eh ne. sym (others e (el, omega arith) (λ p. ne (sym p))))

  first_read :
      (fs : Fs T) (i : ℕ)
      → wrap T i ≡ i
      → read fs.image i ≡ err eio
      → alloc_scan T (suc max_cluster) fs i 0 ≡ some (err eio, fs)
  unfolding alloc_scan alloc_visit
  first_read fs i stay refusal = rw (stay, alloc_scan, alloc_visit, refusal)

  -- A hint whose successor is no entry number, such as the 0xffffffff that a FAT32 FSINFO sector
  -- holds for "unknown", makes every allocation fail with EIO, whatever is free.
  pub alloc_bad_hint :
      (fs : Fs T)
      → ((fs.prev_free + 1) % 2 ^ 32 < 2) ⊎ (2 ^ 31 ≤ (fs.prev_free + 1) % 2 ^ 32)
      → fat_alloc_clusters T fs 1 ≡ some (err eio, fs)
  unfolding fat_alloc_clusters
  alloc_bad_hint fs bad =
      first_read fs ((fs.prev_free + 1) % 2 ^ 32) (stays ((fs.prev_free + 1) % 2 ^ 32) bad)
        (refused ((fs.prev_free + 1) % 2 ^ 32) bad)
    where
      stays : (i : ℕ) → (i < 2) ⊎ (2 ^ 31 ≤ i) → wrap T i ≡ i
      stays i h = unwrapped T.max_cluster_pos
        where
          unwrapped : 2 < max_cluster → wrap T i ≡ i
          unwrapped k = ground arith

      refused : (i : ℕ) → (i < 2) ⊎ (2 ^ 31 ≤ i) → read fs.image i ≡ err eio
      refused i (inl low) = T.read_low fs.image i low
      refused i (inr high) = T.read_high fs.image i (omega (arith, T.max_cluster-int))
