-- ===== src/Fat/Grow/Correct.antt =====
-- `fat_chain_add` puts a cluster at the end of a file's chain, and `fat_add_cluster` does so with a
-- cluster that was free.
use userfs.Prelude.{
  ℕ, ◌+◌, ◌≤◌, ◌<◌, ◌≡◌, ◌≢◌, ◌⊎◌, inl, inr, refl, arith, some, ok, err, enospc, List, [], ◌∷◌,
  ◌++◌, length, All, sym, ap, ◌∙◌, ne→==, if_false, Bool, subst,
}
use mathlib.Core.List.{append-nil}
use userfs.Fat.Table.{FatTable, fat_ent_eof}
use userfs.Fat.Alloc.{Fs, fat_alloc_clusters, take_cluster}
use userfs.Fat.Alloc.Scan.{IsEntry, IsFree}
use userfs.Fat.Alloc.Correct.{alloc_finds, take_cluster_lem}
use userfs.Fat.Chain.{Absent}
use userfs.Fat.ClusterCache.{Cache}
use userfs.Fat.GetCluster.{Found, fat_get_cluster}
use userfs.Fat.GetCluster.Sound.{IsRun}
use userfs.Fat.GetCluster.Equivalence.{get_cluster-plain}
use userfs.Fat.Words.{Blocks}
use userfs.Fat.Grow.{
  Node, count_blocks, chain_written, link_last, first_cluster, chain_found, fat_chain_add,
  cluster_added, cluster_taken, fat_add_cluster,
}
use userfs.Fat.Grow.Linked.{last, Linked, Linked-IsEntry, last-IsEntry, Linked-kept, Linked-append}
use userfs.Fat.Grow.Walk.{plain_end-Linked, runs-grown}

-- The writes to the device succeed.
module _ (T : FatTable) (memory : Bool) (limit cluster_bits : ℕ) (synced : Blocks → Blocks) where
  open T use {Image, IsReady, max_cluster, max_fat, get, put, read}

  -- The file of `node` on the table `t` has the clusters `i_start` and `xs`, its chain is no longer than
  -- a walk may go, and the runs of its cache lie on it.
  pub record IsFile (t : Image) (node : Node) (xs : List ℕ) : Type 0 where
    pub chain : Linked T t node.i_start xs
    pub short : length xs ≤ limit
    pub runs : All (IsRun T t memory limit node.i_start) node.runs.runs

  -- The file after it has grown by the cluster `n`.
  pub record Grown (node : Node) (fs : Fs T) (xs : List ℕ) (n : ℕ) (node' : Node) (fs' : Fs T)
      : Type 0 where
    pub chain : Linked T fs'.image node'.i_start (xs ++ n ∷ [])
    pub runs : All (IsRun T fs'.image memory limit node'.i_start) node'.runs.runs
    pub ready : IsReady fs'.image
    pub others :
        (j : ℕ) → IsEntry T j → last node.i_start xs ≢ j → n ≢ j → get fs'.image j ≡ get fs.image j
    pub same_start : node'.i_start ≡ node.i_start
    pub same_hint : fs'.prev_free ≡ fs.prev_free
    pub same_free : fs'.free_clusters ≡ fs.free_clusters

  -- The end of `fat_chain_add` for a walk that found the last cluster.
  found_last :
      (node : Node) (fs : Fs T) (blocks : Blocks) (c : Cache) (v k d n : ℕ)
      → IsReady fs.image
      → IsEntry T d
      → chain_found T memory limit cluster_bits
          (ok tt)
          synced
          node
          fs
          blocks
          n
          1
          (some (record { nr = ok v; fclus = k; dclus = d }, c))
        ≡ some (
          ok tt,
          count_blocks T memory limit cluster_bits (ok tt) synced (record node { runs = c }) 1,
          record fs { image = put fs.image d n },
          blocks,
        )
  unfolding chain_found link_last chain_written
  found_last node fs blocks c v k d n ready (lo, hi) =
      rw (ne→== d 0 (λ p. omega arith), T.read_valid fs.image d ready lo hi) refl

  some_inj : {x y : Found} → some x ≡ some y → x ≡ y
  some_inj e = cc

  -- A new cluster whose entry is an end mark, outside the chain of a file, is put at its end: the call
  -- succeeds, the chain of the file is the old one and then the new cluster, no entry changes but that
  -- of the old last cluster, and the runs of the cache lie on the new chain.
  pub fat_chain_add_lem :
      (node : Node) (fs : Fs T) (blocks : Blocks) (xs : List ℕ) (n : ℕ)
      → IsReady fs.image
      → IsFile fs.image node xs
      → length xs < fat_ent_eof
      → IsEntry T n
      → Absent T n (node.i_start ∷ xs)
      → max_fat ≤ get fs.image n
      → (node' : Node) × (fs' : Fs T) × (fat_chain_add T memory limit cluster_bits
            (ok tt)
            synced
            node
            fs
            blocks
            n
            1
          ≡ some (ok tt, node', fs', blocks))
        × Grown node fs xs n node' fs'
  unfolding fat_chain_add count_blocks
  fat_chain_add_lem node fs blocks xs n ready file small en apart mark =
      let start = node.i_start in
      let end = last start xs in
      let (lo, hi) = last-IsEntry T fs.image start xs file.chain in
      let (first, _) = Linked-IsEntry T fs.image start xs file.chain in
      let (f, c, walked, plain, kept) =
        get_cluster-plain T fs.image memory limit start fat_ent_eof node.runs file.runs in
      let at_end =
        plain_end-Linked T fs.image limit ready start xs fat_ent_eof file.chain small file.short in
      let stop = some_inj (sym plain ∙ at_end) in
      let t' = put fs.image end n in
      let same = λ (j : ℕ) (e : IsEntry T j) (ne : end ≢ j).
        T.get-put_ne fs.image end j n ready lo hi e.0 e.1 ne in
      let self =
        T.get-put_self fs.image end n ready lo hi
        ∙ T.stored_small n (omega (arith, en, T.max_cluster-max_fat)) in
      let chain' = Linked-append T fs.image t' n start xs en apart same self mark file.chain in
      let ready' = T.put-IsReady fs.image end n ready lo hi in
      (
        count_blocks T memory limit cluster_bits (ok tt) synced (record node { runs = c }) 1,
        record fs { image = t' },
        if_false (first_cluster T memory limit cluster_bits (ok tt) synced node fs blocks n 1)
              (chain_found T memory limit cluster_bits (ok tt) synced node fs blocks n 1
                (fat_get_cluster T fs.image memory limit start fat_ent_eof node.runs))
              (ne→== start 0 (λ p. omega arith))
            ∙ ap (chain_found T memory limit cluster_bits (ok tt) synced node fs blocks n 1)
                (walked ∙ ap (λ g. some (g, c)) stop)
            ∙ found_last node fs blocks c (get fs.image end) (length xs) end n ready (lo, hi),
        record {
          chain = chain';
          runs =
              runs-grown T fs.image t' memory limit start xs (n ∷ []) ready ready' file.chain chain'
                c.runs kept;
          ready = ready';
          others = λ j e ne nj. same j e ne;
          same_start = refl;
          same_hint = refl;
          same_free = refl;
        },
      )

  -- A free cluster is none of a chain.
  pub free-Absent :
      (t : Image) (n x : ℕ) (xs : List ℕ) → get t n ≡ 0 → Linked T t x xs → Absent T n (x ∷ xs)
  free-Absent t n x [] free (e, m) = (ne, tt)
    where
      ne : n ≢ x
      ne p = omega (arith, free, m, ap (get t) p, T.max_cluster-max_fat, T.max_cluster_pos)
  free-Absent t n x (y ∷ ys) free (e, once, g, l) = (ne, free-Absent t n y ys free l)
    where
      ne : n ≢ x
      ne p = omega (arith, free, g, ap (get t) p, Linked-IsEntry T t y ys l)

  -- The file stays one when a free cluster is taken.
  taken-IsFile :
      (node : Node) (fs : Fs T) (xs : List ℕ) (n : ℕ)
      → IsReady fs.image
      → IsFile fs.image node xs
      → IsFree T fs.image n
      → IsFile (take_cluster T fs n).image node xs
  taken-IsFile node fs xs n ready file free =
      let (ready', mark, same, _) = take_cluster_lem T fs n ready free in
      let apart = free-Absent fs.image n node.i_start xs free.2 file.chain in
      let chain' =
        Linked-kept T fs.image (take_cluster T fs n).image n node.i_start xs same apart
          file.chain in
      record {
        chain = chain';
        short = file.short;
        runs =
            runs-grown T fs.image (take_cluster T fs n).image memory limit node.i_start xs [] ready
              ready' file.chain
              (subst (λ l. Linked T (take_cluster T fs n).image node.i_start l)
                (sym (append-nil xs)) chain')
              node.runs.runs file.runs;
      }

  -- The file that `fat_add_cluster` leaves.
  abbrev pub longer : Node → ℕ → Node
  longer node size = record node { mmu_private = node.mmu_private + size }

  added :
      (node : Node) (fs fs1 : Fs T) (blocks : Blocks) (size c : ℕ) (node' : Node) (fs' : Fs T)
      → fat_alloc_clusters T fs 1 ≡ some (ok c, fs1)
      → fat_chain_add T memory limit cluster_bits (ok tt) synced node fs1 blocks c 1
        ≡ some (ok tt, node', fs', blocks)
      → fat_add_cluster T memory limit cluster_bits (ok tt) synced node fs blocks size
        ≡ some (ok c, longer node' size, fs', blocks)
  unfolding fat_add_cluster cluster_taken cluster_added
  added node fs fs1 blocks size c node' fs' a b = rw (a, b) refl

  -- A file whose chain lies on the table grows by one cluster: from a hint inside the table, and with
  -- the writes to the device succeeding, `fat_add_cluster` gives the number of a cluster that was free,
  -- the chain of the file is the old one and then this cluster, no entry changes but that of the old
  -- last cluster and that of the new one, and the hint is the new cluster; or it fails with ENOSPC,
  -- nothing has changed, and no entry of the table is free.
  pub fat_add_cluster_lem :
      (node : Node) (fs : Fs T) (blocks : Blocks) (xs : List ℕ) (size : ℕ)
      → IsReady fs.image
      → IsFile fs.image node xs
      → length xs < fat_ent_eof
      → 2 ≤ fs.prev_free
      → fs.prev_free < max_cluster
      → ((c : ℕ) × (node' : Node) × (fs' : Fs T) × IsFree T fs.image c
          × (fat_add_cluster T memory limit cluster_bits (ok tt) synced node fs blocks size
              ≡ some (ok c, longer node' size, fs', blocks))
          × Linked T fs'.image node.i_start (xs ++ c ∷ [])
          × ((j : ℕ)
              → IsEntry T j
              → last node.i_start xs ≢ j
              → c ≢ j
              → get fs'.image j ≡ get fs.image j)
          × (fs'.prev_free ≡ c))
        ⊎ (((j : ℕ) → ¬ IsFree T fs.image j)
            × (fat_add_cluster T memory limit cluster_bits (ok tt) synced node fs blocks size
                ≡ some (err enospc, node, fs, blocks)))
  unfolding fat_add_cluster cluster_taken take_cluster
  fat_add_cluster_lem node fs blocks xs size ready file small lo hi =
      elim (alloc_finds T fs ready lo hi) [
        | inr (none_free, e) ↦ inr (none_free, rw e refl)
        | inl (c, free, e) ↦
            let (ready', mark, same, _) = take_cluster_lem T fs c ready free in
            let (node', fs', done, g) =
              fat_chain_add_lem node (take_cluster T fs c) blocks xs c ready'
                (taken-IsFile node fs xs c ready file free) small (free.0, free.1)
                (free-Absent fs.image c node.i_start xs free.2 file.chain) mark in
            inl (
              c,
              node',
              fs',
              free,
              added node fs (take_cluster T fs c) blocks size c node' fs' e done,
              subst (λ s. Linked T fs'.image s (xs ++ c ∷ [])) g.same_start g.chain,
              (λ j ej ne nc. g.others j ej ne nc ∙ same j ej nc),
              g.same_hint,
            )
      ]
