-- ===== src/Fat/Write/Held.antt =====
-- A file whose sectors have blocks, for `fat_file_write` of src/fs/fat/src/vfs_file.c: finding them, how
-- much a round writes, and the size.
use native.Mathlib.Nat.{mod-lt}
use Prim.Native.Nat.{max}
use userfs.Prelude.{
  ℕ, suc, ◌+◌, ◌-◌, ◌/◌, ◌%◌, ◌^◌, ◌≤◌, ◌<◌, ◌≡◌, refl, arith, Bool, false, Option, some, Outcome,
  List, All, length, ap, ◌∙◌, sym, ◌==◌, not, ◌&&◌, ◌⊎◌, eq_cases, ==_self, ne→==, lt_cases, lt→ltb,
  le→ltb, inl, inr,
}
use userfs.Prelude.Bits.{and_mask, pow_pos}
use userfs.Fat.Table.{FatTable}
use userfs.Fat.ClusterCache.{Cache}
use userfs.Fat.GetCluster.Sound.{IsRun}
use userfs.Fat.Mount.{SbInfo}
use userfs.Fat.Bmap.{plain_mapping, plain_bmap, fat_bmap-plain}
use userfs.Fat.Words.{Blocks, put_block}
use userfs.Fat.Dir.{phys_of}
use userfs.Fat.Write.{
  FileState, Target, at_block, with_runs, file_bmap, phys_sought, first_bmap, find_block, offset_in,
  to_write, size_updated, fat_file_write,
}

-- A file in a chain of clusters from `i_start` on, on the table `t`, with what `fat_file_write` takes from
-- outside.
pub record Layout (T : FatTable) : Type 0 where
  pub sb : SbInfo
  pub memory : Bool
  pub limit : ℕ
  pub wrote : Outcome (Unit {0})
  pub synced : Blocks → Blocks
  pub is_root : Bool
  pub t : T.Image
  pub i_start : ℕ
  pub other : (not (sb.fat_bits == 32) && is_root) ≡ false
  pub start : (i_start == 0) ≡ false
  pub size : sb.s_blocksize ≡ 2 ^ sb.s_blocksize_bits

module _ (T : FatTable) (v : Layout T) where
  open v use {sb, memory, limit, wrote, synced, is_root, t, i_start, other, start, size}

  -- The block of a sector of the file.
  abbrev pub map : ℕ → Option ℕ
  map i = phys_of (plain_bmap T t memory limit sb is_root i_start i)

  -- The file has its chain from `i_start` on the table `t`, and the runs of its cache lie on it.
  pub record IsOn (st : FileState T) : Type 0 where
    pub table : st.fs.image ≡ t
    pub first : st.node.i_start ≡ i_start
    pub runs : All (IsRun T t memory limit i_start) st.node.runs.runs

  abbrev pub find : FileState T → ℕ → Option (Target T)
  find = find_block T sb memory limit wrote synced is_root

  abbrev pub cached : FileState T → Cache → FileState T
  cached = with_runs T sb memory limit wrote synced is_root

  abbrev pub write : ℕ → ℕ → List ℕ → FileState T → Option (ℕ × FileState T)
  write = fat_file_write T sb memory limit wrote synced is_root

  abbrev pub resized : ℕ → FileState T → FileState T
  resized = size_updated T sb memory limit wrote synced is_root

  abbrev pub amount : ℕ → ℕ → ℕ
  amount = to_write T sb memory limit wrote synced is_root

  -- A sector that has a block is found.
  pub found_block :
      (st : FileState T) (i p : ℕ)
      → IsOn st
      → map i ≡ some p
      → (c : Cache) × (find st i ≡ some (at_block p (cached st c)))
        × All (IsRun T t memory limit i_start) c.runs
  unfolding find_block first_bmap phys_sought plain_bmap
  found_block st i p on here =
      let (f, c, plain, done, kept) =
        fat_bmap-plain T t memory limit sb is_root i_start i st.node.runs other start on.runs in
      let mapped : phys_of (plain_mapping T t memory limit sb i (some f)) ≡ some p =
        rw (other, start, plain) at here in
      let asked : file_bmap T sb memory limit wrote synced is_root st i
          ≡ some (plain_mapping T t memory limit sb i (some f), c) =
        rw (on.table, on.first) done in
      (
        c,
        ap (first_bmap T sb memory limit wrote synced is_root st i) asked
            ∙ ap (phys_sought T sb memory limit wrote synced is_root (cached st c) i) mapped,
        kept,
      )

  pub offset_mod :
      (k : ℕ) → offset_in T sb memory limit wrote synced is_root k ≡ k % 2 ^ sb.s_blocksize_bits
  offset_mod k =
      and_mask sb.s_blocksize_bits k (sb.s_blocksize - 1)
        (omega (arith, size, pow_pos sb.s_blocksize_bits))

  -- How far a round gets.
  pub amount-bounds :
      (k n : ℕ)
      → (0 < amount k (suc n))
        × (amount k (suc n) ≤ suc n)
        × (k % 2 ^ sb.s_blocksize_bits + amount k (suc n) ≤ 2 ^ sb.s_blocksize_bits)
  amount-bounds k n =
      rw (offset_mod k, size)
        (elim (lt_cases (suc n) (2 ^ sb.s_blocksize_bits - k % 2 ^ sb.s_blocksize_bits)) [
          | inl h ↦ rw (lt→ltb (suc n) _ h) ((omega arith, omega arith, omega arith))
          | inr h ↦ rw (le→ltb (suc n) _ h) ((omega (arith, inside), h, omega (arith, inside)))
        ])
    where
      inside : k % 2 ^ sb.s_blocksize_bits < 2 ^ sb.s_blocksize_bits
      inside = mod-lt k (pow_pos sb.s_blocksize_bits)

  -- What a new size leaves.
  pub record Resized (offset : ℕ) (st st' : FileState T) : Type 0 where
    pub same_blocks : st'.blocks ≡ st.blocks
    pub same_fs : st'.fs ≡ st.fs
    pub same_start : st'.node.i_start ≡ st.node.i_start
    pub same_runs : st'.node.runs ≡ st.node.runs
    pub new_size : st'.i_size ≡ max st.i_size offset

  pub resized_lem : (offset : ℕ) (st : FileState T) → Resized offset st (resized offset st)
  unfolding size_updated
  resized_lem offset st = elim (lt_cases st.i_size offset) [
    | inl h ↦ rw (lt→ltb st.i_size offset h) (record {
      same_blocks = refl;
      same_fs = refl;
      same_start = refl;
      same_runs = refl;
      new_size = omega arith;
    })
    | inr h ↦ rw (le→ltb st.i_size offset h) (record {
      same_blocks = refl;
      same_fs = refl;
      same_start = refl;
      same_runs = refl;
      new_size = omega arith;
    })
  ]

  -- The blocks of the sectors that hold `n` bytes from `offset` on can be read, and are whole.
  pub record IsHeld (blocks : Blocks) (offset n : ℕ) : Type 0 where
    pub whole :
        (p : ℕ) (bytes : List ℕ) → blocks p ≡ some bytes → length bytes ≡ 2 ^ sb.s_blocksize_bits
    pub there :
        (k : ℕ)
        → offset ≤ k
        → k < offset + n
        → (p : ℕ) × (bytes : List ℕ) × (map (k / 2 ^ sb.s_blocksize_bits) ≡ some p)
          × (blocks p ≡ some bytes)

  put_either :
      (blocks : Blocks) (p : ℕ) (bytes : List ℕ) (q : ℕ)
      → (put_block blocks p bytes q ≡ some bytes) ⊎ (put_block blocks p bytes q ≡ blocks q)
  unfolding put_block
  put_either blocks p bytes q = elim (eq_cases q p) [
    | inl e ↦ inl (rw (e, ==_self p) refl)
    | inr ne ↦ inr (rw (ne→== q p ne) refl)
  ]

  -- It stays so when one of the blocks gets other bytes.
  pub put-IsHeld :
      (blocks : Blocks) (offset n a p : ℕ) (bytes : List ℕ)
      → a ≤ n
      → length bytes ≡ 2 ^ sb.s_blocksize_bits
      → IsHeld blocks offset n
      → IsHeld (put_block blocks p bytes) (offset + a) (n - a)
  put-IsHeld blocks offset n a p bytes le full held = record {
    whole = λ q l e. elim (put_either blocks p bytes q) [
      | inl s ↦ ap length (sym (same (sym s ∙ e))) ∙ full
      | inr s ↦ held.whole q l (sym s ∙ e)
    ];
    there = λ k lo hi.
        let (q, l, m, e) = held.there k (omega arith) (omega arith) in
        elim (put_either blocks p bytes q) [ inl s ↦ (q, bytes, m, s) | inr s ↦ (q, l, m, s ∙ e) ];
  }
    where
      same : {l : List ℕ} → ◌≡◌ {A = Option (List ℕ)} (some bytes) (some l) → bytes ≡ l
      same e = cc
