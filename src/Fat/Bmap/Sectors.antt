-- ===== src/Fat/Bmap/Sectors.antt =====
-- `fat_bmap` of src/fs/fat/src/cache.c on a file whose clusters are a list: the block of each sector, told
-- from the list.
use userfs.Prelude.{
  ℕ, zero, suc, ◌+◌, ◌-◌, ◌*◌, ◌/◌, ◌%◌, ◌^◌, ◌≤◌, ◌<◌, ◌≡◌, refl, arith, Bool, false, Option, none,
  some, ok, List, [], ◌∷◌, All, length, get_elem?, ◌==◌, not, ◌&&◌, bit_and, ap, ◌∙◌, sym, lt_cases,
  inl, inr, ne→==, le→ltb, lt→ltb, le→leb, lt→leb,
}
use userfs.Prelude.Bits.{and_mask, pow_pos}
use userfs.Fat.Table.{FatTable}
use userfs.Fat.ClusterCache.{Cache}
use userfs.Fat.Mount.{SbInfo}
use userfs.Fat.GetCluster.{Found}
use userfs.Fat.GetCluster.Reference.{at, plain_walk, plain_jump, plain_get_cluster}
use userfs.Fat.GetCluster.Sound.{IsRun}
use userfs.Fat.Grow.Linked.{Linked, Linked-IsEntry, last, last-mark, at-Linked}
use userfs.Fat.Grow.Walk.{plain_end-Linked}
use userfs.Fat.Bmap.{
  Mapping, unmapped, cluster_mapping, bmap_cluster, mapped, found_mapping, fat_bmap, fat_bmap-plain,
}

elem_there : (l : List ℕ) (k : ℕ) → k < length l → (d : ℕ) × (get_elem? l k ≡ some d)
elem_there [] k h = absurd (omega arith)
elem_there (x ∷ l) zero h = (x, refl)
elem_there (x ∷ l) (suc k) h = elem_there l k (omega arith)

elem_past : (l : List ℕ) (k : ℕ) → length l ≤ k → get_elem? l k ≡ none
elem_past [] k h = refl
elem_past (x ∷ l) zero h = absurd (omega arith)
elem_past (x ∷ l) (suc k) h = elem_past l k (omega arith)

-- The block of sector `o` of a cluster, with the sectors that follow it there.
abbrev pub in_cluster : SbInfo → Option ℕ → ℕ → Mapping
in_cluster sb none o = unmapped
in_cluster sb (some c) o = record {
  phys = sb.data_start + (c - 2) * sb.sec_per_clus + o;
  mapped_blocks = sb.sec_per_clus - o;
}

module _ (T : FatTable) (t : T.Image) (memory : Bool) (limit : ℕ) (sb : SbInfo) (i_start : ℕ)
    (xs : List ℕ) (ready : T.IsReady t) (chain : Linked T t i_start xs)
    (short : length xs ≤ limit) where
  elem-IsEntry :
      (x : ℕ) (ys : List ℕ) (k d : ℕ) → Linked T t x ys → get_elem? (x ∷ ys) k ≡ some d → 2 ≤ d
  elem-IsEntry x ys zero d l e =
      let same : x ≡ d = cc in let (lo, hi) = Linked-IsEntry T t x ys l in omega arith
  elem-IsEntry x [] (suc k) d l e = cc
  elem-IsEntry x (y ∷ ys) (suc k) d (en, once, g, l) e = elem-IsEntry y ys k d l e

  walk_here :
      (m k d : ℕ)
      → plain_walk T t limit (suc m) k k d ≡ some (record { nr = ok 0; fclus = k; dclus = d })
  unfolding plain_walk
  walk_here m k d = rw (le→ltb k k (omega arith)) refl

  -- At a place of the chain, the walk ends with the cluster there.
  place_found :
      (k d : ℕ)
      → at T t limit i_start k ≡ some d
      → k ≤ limit
      → plain_get_cluster T t limit i_start k ≡ some (record { nr = ok 0; fclus = k; dclus = d })
  unfolding plain_get_cluster at
  place_found zero d e h =
      let (lo, hi) = Linked-IsEntry T t i_start xs chain in
      let same : i_start ≡ d = cc in
      rw (ne→== i_start 0 (λ p. omega arith), le→leb 2 i_start lo, lt→ltb i_start T.max_cluster hi)
        (ap (λ n. some (record { nr = ok 0; fclus = 0; dclus = n })) same)
  place_found (suc k) d e h =
      let (lo, hi) = Linked-IsEntry T t i_start xs chain in
      let fuel : limit + 2 - suc k ≡ suc (limit - k) = omega arith in
      rw
        (
          ne→== i_start 0 (λ p. omega arith),
          le→leb 2 i_start lo,
          lt→ltb i_start T.max_cluster hi,
          ne→== (suc k) 0 (λ p. omega arith),
        )
        (plain_jump T t limit (suc k) i_start (suc k) d e (omega arith) (omega arith)
          ∙ ap (λ n. plain_walk T t limit n (suc k) (suc k) d) fuel
          ∙ walk_here (limit - k) (suc k) d)

  -- The mapping of a cluster that was found, and of one past the end.
  mapping_in :
      (o k d : ℕ)
      → 2 ≤ d
      → found_mapping T t memory limit sb o (record { nr = ok 0; fclus = k; dclus = d })
        ≡ ok (in_cluster sb (some d) o)
  unfolding found_mapping mapped bmap_cluster cluster_mapping
  mapping_in o k d lo =
      rw
        (
          lt→leb T.max_fat 0 (omega (arith, T.max_cluster-max_fat, T.max_cluster_pos)),
          ne→== d 0 (λ p. omega arith),
        )
        (ap (λ n. ok (record { phys = n; mapped_blocks = sb.sec_per_clus - o })) (omega arith))

  mapping_past :
      (o k d v : ℕ)
      → T.max_fat ≤ v
      → found_mapping T t memory limit sb o (record { nr = ok v; fclus = k; dclus = d })
        ≡ ok (in_cluster sb none o)
  unfolding found_mapping mapped bmap_cluster cluster_mapping
  mapping_past o k d v h = rw (le→leb T.max_fat v h) refl

  some_inj : {f g : Found} → some f ≡ some g → f ≡ g
  some_inj e = cc

  -- What the walk finds for cluster `k` of the file gives the mapping told from the list.
  cluster_told :
      (o k : ℕ) (f : Found)
      → plain_get_cluster T t limit i_start k ≡ some f
      → found_mapping T t memory limit sb o f ≡ ok (in_cluster sb (get_elem? (i_start ∷ xs) k) o)
  cluster_told o k f e = elim (lt_cases (length xs) k) [
    | inl past ↦
        ap (found_mapping T t memory limit sb o)
          (some_inj (sym e ∙ plain_end-Linked T t limit ready i_start xs k chain past short))
        ∙ mapping_past o (length xs) (last i_start xs) (T.get t (last i_start xs))
            (last-mark T t i_start xs chain)
        ∙ ap (λ q. ok (in_cluster sb q o)) (sym (elem_past (i_start ∷ xs) k (omega arith)))
    | inr inside ↦
        let (d, there) = elem_there (i_start ∷ xs) k (omega arith) in
        ap (found_mapping T t memory limit sb o) (
          some_inj (
            sym e
            ∙ place_found k d (at-Linked T t limit i_start xs k ready chain ∙ there) (omega arith)))
        ∙ mapping_in o k d (elem-IsEntry i_start xs k d chain there)
        ∙ ap (λ q. ok (in_cluster sb q o)) (sym there)
  ]

  -- On a file, or a directory other than the fixed root, whose clusters are `i_start` and `xs`, with
  -- sectors of 512 bytes, clusters of `2 ^ k` sectors (`cluster_bits` is `9 + k`) and a cache whose runs lie on the chain, `fat_bmap` of a sector returns
  -- the block at the place of the sector in its cluster of the list, counted from `data_start` on with
  -- cluster 2 first, and how many sectors of the cluster are left; past the list no block. It leaves
  -- such a cache.
  pub fat_bmap-Linked :
      (is_root : Bool) (sector k : ℕ) (c : Cache)
      → (not (sb.fat_bits == 32) && is_root) ≡ false
      → sb.sec_per_clus ≡ 2 ^ k
      → sb.cluster_bits ≡ 9 + k
      → All (IsRun T t memory limit i_start) c.runs
      → (c' : Cache) × (fat_bmap T t memory limit sb is_root i_start sector c
          ≡ some (
            ok (
                in_cluster sb
                  (get_elem? (i_start ∷ xs) (sector / sb.sec_per_clus))
                  (sector % sb.sec_per_clus)),
            c',
          ))
        × All (IsRun T t memory limit i_start) c'.runs
  fat_bmap-Linked is_root sector k c other power bits kept =
      let (lo, hi) = Linked-IsEntry T t i_start xs chain in
      let (f, c', plain, done, kept') =
        fat_bmap-plain T t memory limit sb is_root i_start sector c other
          (ne→== i_start 0 (λ p. omega arith)) kept in
      let shift : sb.cluster_bits - 9 ≡ k = omega arith in
      let same : 2 ^ (sb.cluster_bits - 9) ≡ sb.sec_per_clus = ap (λ n. 2 ^ n) shift ∙ sym power in
      let offset : bit_and sector (sb.sec_per_clus - 1) ≡ sector % sb.sec_per_clus =
        and_mask k sector (sb.sec_per_clus - 1) (omega (arith, power, pow_pos k))
        ∙ ap (λ n. sector % n) (sym power) in
      (
        c',
        done
            ∙ ap (λ q. some (q, c'))
                (cluster_told (bit_and sector (sb.sec_per_clus - 1))
                    (sector / 2 ^ (sb.cluster_bits - 9)) f plain
                  ∙ ap
                      (λ n. ok (
                        in_cluster sb (get_elem? (i_start ∷ xs) (sector / n))
                          (bit_and sector (sb.sec_per_clus - 1))))
                      same
                  ∙ ap
                      (λ n.
                        ok (in_cluster sb (get_elem? (i_start ∷ xs) (sector / sb.sec_per_clus)) n))
                      offset),
        kept',
      )
