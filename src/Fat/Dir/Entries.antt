-- ===== src/Fat/Dir/Entries.antt =====
-- The entries of a directory as a list.
use userfs.Prelude.{
  ℕ, zero, suc, ◌+◌, ◌-◌, ◌*◌, ◌^◌, ◌≤◌, ◌<◌, ◌≡◌, refl, arith, Option, none, some, List, [], ◌∷◌,
  ◌++◌, length, length-append, ap,
}
use userfs.Fat.DirEntry.{DirEntry, decode, entry_size}
use userfs.Fat.Dir.{DirBlocks, phys_of}

module _ (d : DirBlocks) where
  open d use {s_blocksize_bits, dir_per_block, bmap, bread, sectors}

  -- The entries of a block from the `de`th on, with their positions.
  unfoldable pub block_entries : List ℕ → ℕ → ℕ → ℕ → List (ℕ × DirEntry)
  block_entries bytes pos de zero = []
  block_entries bytes pos de (suc n) =
      (pos, decode bytes (de * entry_size)) ∷ block_entries bytes (pos + entry_size) (de + 1) n

  -- The entries of the sectors from `i` on, up to the first that is not mapped. A block that cannot be
  -- read is passed over.
  unfoldable pub readable : ℕ → Option (List ℕ) → List (ℕ × DirEntry)
  readable i none = []
  readable i (some bytes) = block_entries bytes (i * 2 ^ s_blocksize_bits) 0 dir_per_block

  unfoldable pub mapped_entries : ℕ → Option ℕ → List (ℕ × DirEntry) → List (ℕ × DirEntry)
  mapped_entries i none rest = []
  mapped_entries i (some p) rest = readable i (bread p) ++ rest

  unfoldable pub sector_entries : ℕ → ℕ → List (ℕ × DirEntry)
  sector_entries i zero = []
  sector_entries i (suc n) = mapped_entries i (phys_of (bmap i)) (sector_entries (i + 1) n)

  -- The entries of the directory.
  unfoldable pub entries : List (ℕ × DirEntry)
  entries = sector_entries 0 sectors

  -- What is left before a cursor.
  abbrev pub from_sector : ℕ → List (ℕ × DirEntry)
  from_sector i = sector_entries i (sectors - i)

  pub unmapped_end : (i : ℕ) → phys_of (bmap i) ≡ none → from_sector i ≡ []
  unfolding sector_entries mapped_entries
  unmapped_end i e = at_count (sectors - i)
    where
      at_count : (n : ℕ) → sector_entries i n ≡ []
      at_count zero = refl
      at_count (suc n) = rw e refl

  pub from_sector_step :
      (i : ℕ)
      → i < sectors
      → from_sector i ≡ mapped_entries i (phys_of (bmap i)) (from_sector (i + 1))
  unfolding sector_entries
  from_sector_step i h = ap (sector_entries i) split
    where
      split : sectors - i ≡ suc (sectors - (i + 1))
      split = omega arith

  length-block_entries : (bytes : List ℕ) (pos de n : ℕ) → length (block_entries bytes pos de n) ≡ n
  unfolding block_entries
  length-block_entries bytes pos de zero = refl
  length-block_entries bytes pos de (suc n) =
      ap suc (length-block_entries bytes (pos + entry_size) (de + 1) n)

  readable-le : (i : ℕ) (o : Option (List ℕ)) → length (readable i o) ≤ dir_per_block
  unfolding readable
  readable-le i none = omega arith
  readable-le i (some bytes) =
      omega (arith, length-block_entries bytes (i * 2 ^ s_blocksize_bits) 0 dir_per_block)

  mapped-le :
      (i n : ℕ) (o : Option ℕ) (l : List (ℕ × DirEntry))
      → length l ≤ n * dir_per_block
      → length (mapped_entries i o l) ≤ suc n * dir_per_block
  unfolding mapped_entries
  mapped-le i n none l h = omega arith
  mapped-le i n (some p) l h =
      omega (arith, length-append (readable i (bread p)) l, readable-le i (bread p))

  pub sector_entries-le : (i n : ℕ) → length (sector_entries i n) ≤ n * dir_per_block
  unfolding sector_entries
  sector_entries-le i zero = omega arith
  sector_entries-le i (suc n) =
      mapped-le i n (phys_of (bmap i)) (sector_entries (i + 1) n) (sector_entries-le (i + 1) n)

  pub entries-le : length entries ≤ sectors * dir_per_block
  unfolding entries
  entries-le = sector_entries-le 0 sectors
