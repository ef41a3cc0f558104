-- ===== src/Fat/Dir/SameMap.antt =====
-- A directory reads the same on two tables that agree on its chain.
use userfs.Prelude.{
  ℕ, zero, suc, ◌+◌, ◌-◌, ◌*◌, ◌/◌, ◌^◌, ◌≤◌, ◌≡◌, refl, Bool, true, false, Option, none, some,
  Outcome, ok, err, eio, List, [], ◌∷◌, ltb, ◌==◌, not, ◌&&◌, if◌then◌else◌, ap, All,
}
use userfs.Fat.Table.{FatTable}
use userfs.Fat.Mount.{SbInfo}
use userfs.Fat.Bmap.{Mapping, unmapped, found_mapping, plain_mapping, plain_bmap}
use userfs.Fat.GetCluster.{Found}
use userfs.Fat.GetCluster.Reference.{next, plain_end, plain_visit, plain_walk, plain_get_cluster}
use userfs.Fat.Grow.Linked.{Linked, next-Linked, next-last}
use userfs.Fat.DirEntry.{DirEntry, entry_size}
use userfs.Fat.Dir.{DirBlocks, phys_of}
use userfs.Fat.Dir.Entries.{block_entries, readable, mapped_entries, sector_entries, entries}

-- Two mappings of the sectors of a directory that are one.
module _ (d : DirBlocks) (bmap' : ℕ → Outcome Mapping)
    (end' : (i : ℕ) → d.sectors ≤ i → phys_of (bmap' i) ≡ none)
    (same : (i : ℕ) → bmap' i ≡ d.bmap i) where
  abbrev mapped_by : DirBlocks
  mapped_by = record d { bmap = bmap'; past_end = end' }

  same_block :
      (bytes : List ℕ) (pos de n : ℕ)
      → block_entries mapped_by bytes pos de n ≡ block_entries d bytes pos de n
  unfolding block_entries
  same_block bytes pos de zero = refl
  same_block bytes pos de (suc n) = rw (same_block bytes (pos + entry_size) (de + 1) n) refl

  same_readable : (i : ℕ) (o : Option (List ℕ)) → readable mapped_by i o ≡ readable d i o
  unfolding readable
  same_readable i none = refl
  same_readable i (some bytes) = same_block bytes (i * 2 ^ d.s_blocksize_bits) 0 d.dir_per_block

  same_mapped :
      (i : ℕ) (o : Option ℕ) (l : List (ℕ × DirEntry))
      → mapped_entries mapped_by i o l ≡ mapped_entries d i o l
  unfolding mapped_entries
  same_mapped i none l = refl
  same_mapped i (some q) l = rw (same_readable i (d.bread q)) refl

  same_sectors : (i n : ℕ) → sector_entries mapped_by i n ≡ sector_entries d i n
  unfolding sector_entries
  same_sectors i zero = refl
  same_sectors i (suc n) =
      rw (same i, same_sectors (i + 1) n)
        (same_mapped i (phys_of (d.bmap i)) (sector_entries d (i + 1) n))

  pub same_entries : entries mapped_by ≡ entries d
  unfolding entries
  same_entries = same_sectors 0 d.sectors

module _ (T : FatTable) (t t' : T.Image) (memory : Bool) (limit : ℕ) (sb : SbInfo)
    (ready : T.IsReady t) where
  -- The two tables read the same at the clusters of a list.
  abbrev pub Agrees : List ℕ → Type 0
  Agrees xs = All (λ x. T.read t' x ≡ T.read t x) xs

  next_table : (r : Outcome ℕ) → next T t' limit r ≡ next T t limit r
  unfolding next
  next_table (err e) = refl
  next_table (ok nr) = refl

  end_table :
      (fclus dclus : ℕ) (r : Outcome ℕ)
      → plain_end T t' limit fclus dclus r ≡ plain_end T t limit fclus dclus r
  unfolding plain_end
  end_table fclus dclus (err e) = refl
  end_table fclus dclus (ok nr) = refl

  same_visit :
      (fclus x : ℕ) (go' go : ℕ → ℕ → Option Found) (o : Option ℕ)
      → T.read t' x ≡ T.read t x
      → next T t limit (T.read t x) ≡ o
      → ((y : ℕ) → o ≡ some y → go' (fclus + 1) y ≡ go (fclus + 1) y)
      → plain_visit T t' limit fclus x (T.read t' x) (next T t' limit (T.read t' x)) go'
        ≡ plain_visit T t limit fclus x (T.read t x) (next T t limit (T.read t x)) go
  unfolding plain_visit
  same_visit fclus x go' go none e n later =
      rw (e, next_table (T.read t x), n) (ap some (end_table fclus x (T.read t x)))
  same_visit fclus x go' go (some y) e n later = rw (e, next_table (T.read t x), n) (later y refl)

  abbrev round : ℕ → ℕ → ℕ → Option Found → Option Found
  round cluster fclus x rest =
      if ltb fclus cluster
      then (if ltb limit fclus
          then some (record { nr = err eio; fclus = fclus; dclus = x })
          else rest)
      else some (record { nr = ok 0; fclus = fclus; dclus = x })

  same_number : (y z : ℕ) → some y ≡ some z → z ≡ y
  same_number y z p = cc

  same_walk :
      (fuel cluster fclus x : ℕ) (xs : List ℕ)
      → Linked T t x xs
      → Agrees (x ∷ xs)
      → plain_walk T t' limit fuel cluster fclus x ≡ plain_walk T t limit fuel cluster fclus x
  unfolding plain_walk
  same_walk zero cluster fclus x xs l a = refl
  same_walk (suc fuel) cluster fclus x [] l (e, a) = ap (round cluster fclus x) (
      same_visit fclus x (plain_walk T t' limit fuel cluster) (plain_walk T t limit fuel cluster)
        none e (next-last T t limit x ready l) (λ y p. cc))
  same_walk (suc fuel) cluster fclus x (y ∷ ys) l (e, a) = ap (round cluster fclus x) (
      same_visit fclus x (plain_walk T t' limit fuel cluster) (plain_walk T t limit fuel cluster)
        (some y) e (next-Linked T t limit x y ys ready l)
        (λ z p. rw (same_number y z p) (same_walk fuel cluster (fclus + 1) y ys l.3 a)))

  -- For the fixed root directory, and for a directory in a chain on which the two tables agree.
  pub same_root :
      (is_root : Bool) (i_start i : ℕ)
      → (not (sb.fat_bits == 32) && is_root) ≡ true
      → plain_bmap T t' memory limit sb is_root i_start i
        ≡ plain_bmap T t memory limit sb is_root i_start i
  unfolding plain_bmap
  same_root is_root i_start i fixed = rw fixed refl

  mapping_table :
      (i : ℕ) (f : Option Found)
      → plain_mapping T t' memory limit sb i f ≡ plain_mapping T t memory limit sb i f
  unfolding found_mapping
  mapping_table i none = refl
  mapping_table i (some f) = refl

  pub same_chain :
      (is_root : Bool) (i_start i : ℕ) (xs : List ℕ)
      → (not (sb.fat_bits == 32) && is_root) ≡ false
      → Linked T t i_start xs
      → Agrees (i_start ∷ xs)
      → plain_bmap T t' memory limit sb is_root i_start i
        ≡ plain_bmap T t memory limit sb is_root i_start i
  unfolding plain_bmap plain_get_cluster
  same_chain is_root i_start i xs other l a =
      rw (other, same_walk (limit + 2) (i / 2 ^ (sb.cluster_bits - 9)) 0 i_start xs l a)
        (ap (λ m. if i_start == 0 then ok unmapped else m) (mapping_table i _))
