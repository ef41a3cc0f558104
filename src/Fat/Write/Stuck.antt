-- ===== src/Fat/Write/Stuck.antt =====
-- `fat_file_write` of src/fs/fat/src/vfs_file.c past the end of a chain, on a volume that is full.
use userfs.Prelude.{
  ℕ, zero, suc, ◌/◌, ◌^◌, ◌-◌, ◌≤◌, ◌<◌, ◌≡◌, refl, none, some, ok, err, enospc, List, ◌∷◌, All,
  length, ap, ◌∙◌, sym, subst, inl, inr, le→leb, bit_and,
}
use userfs.Fat.Table.{FatTable, fat_ent_eof}
use userfs.Fat.Alloc.{fat_alloc_clusters}
use userfs.Fat.Alloc.Scan.{IsFree}
use userfs.Fat.Alloc.Correct.{alloc_finds}
use userfs.Fat.ClusterCache.{Cache}
use userfs.Fat.GetCluster.{Found, fat_get_cluster}
use userfs.Fat.GetCluster.Reference.{plain_get_cluster}
use userfs.Fat.GetCluster.Sound.{IsRun}
use userfs.Fat.GetCluster.Equivalence.{get_cluster-plain}
use userfs.Fat.Bmap.{mapped, bmap_cluster, cluster_mapping, found_mapping, fat_bmap-plain}
use userfs.Fat.Grow.Empty.{fat_add_cluster-no_cluster}
use userfs.Fat.Grow.Linked.{Linked, last, last-mark}
use userfs.Fat.Grow.Walk.{plain_end-Linked, end_at}
use userfs.Fat.Dir.{phys_of}
use userfs.Fat.Write.{
  FileState, retry, file_bmap, first_bmap, phys_sought, sought, cluster_sought, add_cluster, grown,
  find_block, write_target, fat_file_write,
}
use userfs.Fat.Write.Held.{Layout, IsOn, find, cached}

module _ (T : FatTable) (v : Layout T) (xs : List ℕ) (ready : T.IsReady v.t)
    (chain : Linked T v.t v.i_start xs) (short : length xs ≤ v.limit)
    (mark : T.get v.t (last v.i_start xs) ≡ fat_ent_eof) (full : (j : ℕ) → ¬ IsFree T v.t j)
    (whole : v.sb.sec_per_clus ≡ 2 ^ (v.sb.cluster_bits - 9)) where
  open v use {sb, memory, limit, wrote, synced, is_root, t, i_start, other, start}

  -- What the walk ends with.
  abbrev at_end : Found
  at_end = record { nr = ok fat_ent_eof; fclus = length xs; dclus = last i_start xs }

  walk_end :
      (cluster : ℕ) (f : Found)
      → length xs < cluster
      → plain_get_cluster T t limit i_start cluster ≡ some f
      → f ≡ at_end
  walk_end cluster f past plain = some_inj (
      sym plain
      ∙ plain_end-Linked T t limit ready i_start xs cluster chain past short
      ∙ ap (λ n. end_at (ok n) (length xs) (last i_start xs)) mark)
    where
      some_inj : {x y : Found} → some x ≡ some y → x ≡ y
      some_inj e = cc

  -- Past the end of the chain, `fat_get_cluster` returns the end mark.
  end_found :
      (cluster : ℕ) (c : Cache)
      → length xs < cluster
      → All (IsRun T t memory limit i_start) c.runs
      → (c' : Cache) × (fat_get_cluster T t memory limit i_start cluster c ≡ some (at_end, c'))
        × All (IsRun T t memory limit i_start) c'.runs
  end_found cluster c past kept =
      let (f, c', walked, plain, kept') =
        get_cluster-plain T t memory limit i_start cluster c kept in
      (c', walked ∙ ap (λ g. some (g, c')) (walk_end cluster f past plain), kept')

  -- The end mark is no cluster, so there is no block.
  end-unmapped : (o : ℕ) → phys_of (found_mapping T t memory limit sb o at_end) ≡ none
  unfolding found_mapping mapped bmap_cluster cluster_mapping phys_of
  end-unmapped o =
      rw
        (le→leb T.max_fat fat_ent_eof
          (subst (λ n. T.max_fat ≤ n) mark (last-mark T t i_start xs chain)))
        refl

  -- No cluster can be had.
  no_cluster :
      (st : FileState T)
      → IsOn T v st
      → 2 ≤ st.fs.prev_free
      → st.fs.prev_free < T.max_cluster
      → fat_alloc_clusters T st.fs 1 ≡ some (err enospc, st.fs)
  no_cluster st on lo hi = elim (alloc_finds T st.fs (subst T.IsReady (sym on.table) ready) lo hi) [
    | inl (c, free, e) ↦ absurd (full c (subst (λ i. IsFree T i c) on.table free))
    | inr (no_free, e) ↦ e
  ]

  not_grown :
      (st : FileState T)
      → IsOn T v st
      → 2 ≤ st.fs.prev_free
      → st.fs.prev_free < T.max_cluster
      → add_cluster T sb memory limit wrote synced is_root st ≡ some (retry st)
  unfolding add_cluster grown
  not_grown st on lo hi = ap (grown T sb memory limit wrote synced is_root st) (
      fat_add_cluster-no_cluster T memory limit sb.cluster_bits wrote synced st.node st.fs st.fs
        st.blocks sb.cluster_size enospc (no_cluster st on lo hi))

  module _ (offset : ℕ)
      (past : length xs < offset / 2 ^ sb.s_blocksize_bits / sb.sec_per_clus) where
    -- A round starts the next one, and nothing but the cache has changed.
    retried :
        (st : FileState T)
        → IsOn T v st
        → 2 ≤ st.fs.prev_free
        → st.fs.prev_free < T.max_cluster
        → (c : Cache) × (find T v st (offset / 2 ^ sb.s_blocksize_bits)
            ≡ some (retry (cached T v st c)))
          × All (IsRun T t memory limit i_start) c.runs
    unfolding find_block first_bmap phys_sought sought cluster_sought
    retried st on lo hi =
        let i = offset / 2 ^ sb.s_blocksize_bits in
        let (f, c, plain, done, kept) =
          fat_bmap-plain T t memory limit sb is_root i_start i st.node.runs other start on.runs in
        let (c', walked, kept') = end_found (i / sb.sec_per_clus) c past kept in
        let o = bit_and i (sb.sec_per_clus - 1) in
        let asked : file_bmap T sb memory limit wrote synced is_root st i
            ≡ some (found_mapping T t memory limit sb o f, c) =
          rw (on.table, on.first) done in
        let nowhere : phys_of (found_mapping T t memory limit sb o f) ≡ none =
          ap (λ g. phys_of (found_mapping T t memory limit sb o g))
            (walk_end (i / 2 ^ (sb.cluster_bits - 9)) f (subst (λ n. length xs < i / n) whole past)
              plain)
          ∙ end-unmapped o in
        let ended : fat_get_cluster T st.fs.image memory limit st.node.i_start (i / sb.sec_per_clus)
              c
            ≡ some (at_end, c') =
          rw (on.table, on.first) walked in
        (
          c',
          ap (first_bmap T sb memory limit wrote synced is_root st i) asked
              ∙ ap (phys_sought T sb memory limit wrote synced is_root (cached T v st c) i) nowhere
              ∙ ap (sought T sb memory limit wrote synced is_root (cached T v st c) i) ended
              ∙ not_grown (cached T v st c')
                  (record { table = on.table; first = on.first; runs = kept' }) lo hi,
          kept',
        )

    -- With sectors of 512 bytes, on which `fat_bmap` and the loop agree on the cluster of a sector
    -- (`sec_per_clus` is `2 ^ (cluster_bits - 9)`), and on a full volume, where the chain of the file ends with the mark that this code itself stores on
    -- FAT32, `fat_file_write` past the chain never returns, however many rounds it is given: it asks for
    -- a cluster again and again.
    pub fat_file_write-stuck :
        (fuel x : ℕ) (ptr : List ℕ) (st : FileState T)
        → IsOn T v st
        → 2 ≤ st.fs.prev_free
        → st.fs.prev_free < T.max_cluster
        → fat_file_write T sb memory limit wrote synced is_root fuel offset (x ∷ ptr) st ≡ none
    unfolding fat_file_write write_target
    fat_file_write-stuck zero x ptr st on lo hi = refl
    fat_file_write-stuck (suc fuel) x ptr st on lo hi =
        let (c, again, kept) = retried st on lo hi in
        ap
          (λ o.
            write_target T sb memory limit wrote synced is_root offset (x ∷ ptr) o
              (fat_file_write T sb memory limit wrote synced is_root fuel))
          again
        ∙ fat_file_write-stuck fuel x ptr (cached T v st c)
            (record { table = on.table; first = on.first; runs = kept }) lo hi
