-- ===== src/Fat/Dir/View.antt =====
-- Every directory as the scans of src/fs/fat/src/dir.c read it: `fat_bmap` of src/fs/fat/src/cache.c maps
-- no sector past the limit of the walk, whatever the table holds.
use native.Mathlib.Nat.{le-div_iff_mul-le}
use userfs.Prelude.{
  ℕ, zero, suc, ◌+◌, ◌-◌, ◌*◌, ◌/◌, ◌^◌, ◌≤◌, ◌<◌, ◌≡◌, refl, arith, Bool, Option, none, some,
  Outcome, ok, err, leb, ◌==◌, not, ◌&&◌, if◌then◌else◌, inl, inr, Bool-cases, lt_cases, lt→ltb,
  le→ltb, ne→==,
}
use userfs.Prelude.Bits.{pow_pos}
use userfs.Fat.Table.{FatTable, fat_ent_free}
use userfs.Fat.Alloc.{Fs, fat_valid_entry}
use userfs.Fat.Grow.{Node}
use userfs.Fat.Mount.{SbInfo}
use userfs.Fat.Bmap.{
  root_mapping, cluster_mapping, bmap_cluster, mapped, found_mapping, plain_mapping, plain_bmap,
}
use userfs.Fat.GetCluster.{Found}
use userfs.Fat.GetCluster.Reference.{next, plain_end, plain_visit, plain_walk, plain_get_cluster}
use userfs.Fat.Words.{Blocks}
use userfs.Fat.DirEntry.{entry_size}
use userfs.Fat.Dir.{DirBlocks, phys_of}
use userfs.Fat.Dir.Blocks.{root_end}

module _ (T : FatTable) (t : T.Image) (memory : Bool) (limit : ℕ) (sb : SbInfo) (i : ℕ) where
  open T use {max_fat, read}

  -- The walk has not found a cluster for the sector.
  abbrev Unmapped : Option Found → Type 0
  Unmapped f = phys_of (plain_mapping T t memory limit sb i f) ≡ none

  plain_end-Unmapped :
      (fclus dclus : ℕ) (r : Outcome ℕ)
      → next T t limit r ≡ none
      → Unmapped (some (plain_end T t limit fclus dclus r))
  unfolding next plain_end found_mapping mapped bmap_cluster cluster_mapping phys_of
  plain_end-Unmapped fclus dclus (err e) h = refl
  plain_end-Unmapped fclus dclus (ok nr) h = elim (Bool-cases (nr == fat_ent_free)) [
    | inl z ↦ rw z refl
    | inr nz ↦ elim (Bool-cases (leb max_fat nr)) [
      | inl m ↦ rw (nz, m) refl
      | inr k ↦ cc (rw (nz, k) at h)
    ]
  ]

  plain_walk-Unmapped :
      (fuel cluster fclus dclus : ℕ)
      → limit + 1 < cluster
      → fclus ≤ limit + 1
      → Unmapped (plain_walk T t limit fuel cluster fclus dclus)
  unfolding plain_walk plain_visit found_mapping mapped bmap_cluster phys_of
  plain_walk-Unmapped zero cluster fclus dclus far near = refl
  plain_walk-Unmapped (suc fuel) cluster fclus dclus far near = elim (lt_cases limit fclus) [
    | inl loop ↦ rw (lt→ltb fclus cluster (omega arith), lt→ltb limit fclus loop) refl
    | inr fine ↦
        rw (lt→ltb fclus cluster (omega arith), le→ltb limit fclus fine)
          (visited (next T t limit (read t dclus)) refl
            (λ d. plain_walk-Unmapped fuel cluster (fclus + 1) d far (omega arith)))
  ]
    where
      visited :
          (o : Option ℕ)
          → next T t limit (read t dclus) ≡ o
          → ((d : ℕ) → Unmapped (plain_walk T t limit fuel cluster (fclus + 1) d))
          → Unmapped (
              plain_visit T t limit fclus dclus
                (read t dclus)
                o
                (plain_walk T t limit fuel cluster))
      visited none e later = plain_end-Unmapped fclus dclus (read t dclus) e
      visited (some d) e later = later d

  plain_get_cluster-Unmapped :
      (i_start cluster : ℕ)
      → limit + 1 < cluster
      → Unmapped (plain_get_cluster T t limit i_start cluster)
  unfolding plain_get_cluster found_mapping mapped bmap_cluster phys_of
  plain_get_cluster-Unmapped i_start cluster far = elim (Bool-cases (i_start == 0)) [
    | inl z ↦ rw z refl
    | inr nz ↦ elim (Bool-cases (fat_valid_entry T i_start)) [
      | inl v ↦
          rw (nz, v, ne→== cluster 0 (λ p. omega arith))
            (plain_walk-Unmapped (limit + 2) cluster 0 i_start far (omega arith))
      | inr b ↦ rw (nz, b) refl
    ]
  ]

-- A directory: its inode, the volume, the blocks and `i_size`.
pub record DirState (T : FatTable) : Type 0 where
  pub node : Node
  pub fs : Fs T
  pub i_size : ℕ
  pub blocks : Blocks

-- The directory whose first cluster is `i_start`, on a table and blocks.
module _ (T : FatTable) (sb : SbInfo) (memory : Bool) (limit : ℕ) (is_root : Bool)
    (fill : sb.dir_per_block * entry_size ≡ 2 ^ sb.s_blocksize_bits)
    (some_entry : 0 < sb.dir_per_block) where
  -- A sector from which on nothing is mapped.
  abbrev pub sectors_of : ℕ
  sectors_of =
      if not (sb.fat_bits == 32) && is_root
      then sb.dir_entries / 2 ^ sb.dir_per_block_bits
      else (limit + 2) * 2 ^ (sb.cluster_bits - 9)

  pub view_end :
      (t : T.Image) (i_start i : ℕ)
      → sectors_of ≤ i
      → phys_of (plain_bmap T t memory limit sb is_root i_start i) ≡ none
  unfolding plain_bmap phys_of
  view_end t i_start i h = elim (Bool-cases (not (sb.fat_bits == 32) && is_root)) [
    | inl fixed ↦ rw fixed (root_past (rw fixed at h))
    | inr other ↦ elim (Bool-cases (i_start == 0)) [
      | inl z ↦ rw (other, z) refl
      | inr nz ↦
          rw (other, nz)
            (plain_get_cluster-Unmapped T t memory limit sb i i_start
              (i / 2 ^ (sb.cluster_bits - 9)) (far (rw other at h)))
    ]
  ]
    where
      root_past :
          sb.dir_entries / 2 ^ sb.dir_per_block_bits ≤ i → phys_of (ok (root_mapping sb i)) ≡ none
      root_past g = root_end sb (λ _. none) fill some_entry i g

      far : (limit + 2) * 2 ^ (sb.cluster_bits - 9) ≤ i → limit + 1 < i / 2 ^ (sb.cluster_bits - 9)
      far g = omega (arith, (le-div_iff_mul-le (pow_pos (sb.cluster_bits - 9))).1 g)

  abbrev pub dir_view : T.Image → ℕ → Blocks → DirBlocks
  dir_view t i_start blocks = record {
    s_blocksize_bits = sb.s_blocksize_bits;
    dir_per_block = sb.dir_per_block;
    bmap = plain_bmap T t memory limit sb is_root i_start;
    bread = blocks;
    sectors = sectors_of;
    entries_fill = fill;
    some_entry = some_entry;
    past_end = view_end t i_start;
  }

  abbrev pub view : DirState T → DirBlocks
  view st = dir_view st.fs.image st.node.i_start st.blocks
