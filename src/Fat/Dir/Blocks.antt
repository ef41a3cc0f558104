-- ===== src/Fat/Dir/Blocks.antt =====
-- The blocks of directories of a volume, as `fat_bmap` of src/fs/fat/src/cache.c maps them: the fixed
-- root directory of FAT12 and FAT16, and a directory in a chain of clusters.
use native.Mathlib.Nat.{le-div_iff_mul-le}
use userfs.Prelude.{
  ℕ, suc, ◌-◌, ◌*◌, ◌/◌, ◌^◌, ◌≤◌, ◌<◌, ◌≡◌, refl, arith, Bool, true, false, Option, none, some,
  Outcome, ok, List, length, ◌==◌, bit_and, ap, ◌∙◌, le→ltb, le→leb,
}
use userfs.Prelude.Bits.{pow_pos}
use userfs.Fat.Table.{FatTable}
use userfs.Fat.ClusterCache.{Cache}
use userfs.Fat.Mount.{SbInfo}
use userfs.Fat.Bmap.{
  Mapping, root_mapping, cluster_mapping, bmap_cluster, mapped, found_mapping, fat_bmap,
  plain_mapping,
}
use userfs.Fat.GetCluster.Reference.{plain_get_cluster}
use userfs.Fat.Grow.Linked.{Linked, last, last-mark}
use userfs.Fat.Grow.Walk.{plain_end-Linked}
use userfs.Fat.DirEntry.{entry_size}
use userfs.Fat.Dir.{DirBlocks, phys_of}

-- `bread` is `ufs_bread` of the device.
module _ (sb : SbInfo) (bread : ℕ → Option (List ℕ))
    (fill : sb.dir_per_block * entry_size ≡ 2 ^ sb.s_blocksize_bits)
    (some_entry : 0 < sb.dir_per_block) where
  pub root_end :
      (i : ℕ)
      → sb.dir_entries / 2 ^ sb.dir_per_block_bits ≤ i
      → phys_of (ok (root_mapping sb i)) ≡ none
  unfolding phys_of root_mapping
  root_end i h = rw (le→ltb i (sb.dir_entries / 2 ^ sb.dir_per_block_bits) h) refl

  -- The fixed root directory.
  abbrev pub root_blocks : DirBlocks
  root_blocks = record {
    s_blocksize_bits = sb.s_blocksize_bits;
    dir_per_block = sb.dir_per_block;
    bmap = λ i. ok (root_mapping sb i);
    bread = bread;
    sectors = sb.dir_entries / 2 ^ sb.dir_per_block_bits;
    entries_fill = fill;
    some_entry = some_entry;
    past_end = root_end;
  }

  -- A directory whose chain is `i_start` and `xs`.
  module _ (T : FatTable) (t : T.Image) (memory : Bool) (limit i_start : ℕ) (xs : List ℕ)
      (ready : T.IsReady t) (chain : Linked T t i_start xs) (short : length xs ≤ limit) where
    abbrev pub chain_bmap : ℕ → Outcome Mapping
    chain_bmap i =
        plain_mapping T t memory limit sb i
          (plain_get_cluster T t limit i_start (i / 2 ^ (sb.cluster_bits - 9)))

    mapping_past :
        (o k x v : ℕ)
        → T.max_fat ≤ v
        → phys_of (mapped sb o (bmap_cluster T.max_fat (ok v) x)) ≡ none
    unfolding mapped bmap_cluster cluster_mapping phys_of
    mapping_past o k x v h = rw (le→leb T.max_fat v h) refl

    pub chain_end :
        (i : ℕ) → suc (length xs) * 2 ^ (sb.cluster_bits - 9) ≤ i → phys_of (chain_bmap i) ≡ none
    unfolding found_mapping
    chain_end i h =
        ap (λ f. phys_of (plain_mapping T t memory limit sb i f))
          (plain_end-Linked T t limit ready i_start xs (i / 2 ^ (sb.cluster_bits - 9)) chain past
            short)
        ∙ mapping_past (bit_and i (sb.sec_per_clus - 1)) (length xs) (last i_start xs)
            (T.get t (last i_start xs)) (last-mark T t i_start xs chain)
      where
        past : length xs < i / 2 ^ (sb.cluster_bits - 9)
        past = omega (arith, (le-div_iff_mul-le (pow_pos (sb.cluster_bits - 9))).1 h)

    -- The directory.
    abbrev pub chain_blocks : DirBlocks
    chain_blocks = record {
      s_blocksize_bits = sb.s_blocksize_bits;
      dir_per_block = sb.dir_per_block;
      bmap = chain_bmap;
      bread = bread;
      sectors = suc (length xs) * 2 ^ (sb.cluster_bits - 9);
      entries_fill = fill;
      some_entry = some_entry;
      past_end = chain_end;
    }

  -- The fixed root directory has the mapping of `root_blocks`.
  pub root_bmap_lem :
      (T : FatTable) (t : T.Image) (memory : Bool) (limit i_start i : ℕ) (c : Cache)
      → (sb.fat_bits == 32) ≡ false
      → fat_bmap T t memory limit sb true i_start i c ≡ some (root_blocks.bmap i, c)
  unfolding fat_bmap
  root_bmap_lem T t memory limit i_start i c short_fat = rw short_fat refl
