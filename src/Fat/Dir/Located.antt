-- ===== src/Fat/Dir/Located.antt =====
-- Where the entries of a directory lie on its blocks, and what a new entry in the place of one does.
use native.Mathlib.Nat.{add-mul-div_left, add-mul-mod_self_left, div-eq_of_lt, mod-eq_of_lt}
use userfs.Prelude.Bits.{pow_pos}
use userfs.Prelude.{
  ◌/◌, ◌%◌, ℕ, zero, suc, ◌+◌, ◌*◌, ◌^◌, ◌≤◌, ◌<◌, ◌≡◌, ◌≢◌, ◌⊎◌, inl, inr, refl, arith, Bool, true,
  false, Option, none, some, List, [], ◌∷◌, ◌++◌, length, ap, ◌∙◌, sym, Bool-cases,
}
use userfs.Fat.DirEntry.{DirEntry, decode, encode, write_at, entry_size}
use userfs.Fat.DirEntry.Bytes.{IsDirEntry, decode-encode}
use userfs.Fat.Words.{Blocks, put_block}
use userfs.Fat.Dir.{DirBlocks, phys_of}
use userfs.Fat.Dir.Entries.{block_entries, readable, mapped_entries, sector_entries, entries}
use userfs.Fat.Dir.Scan.{first}
use userfs.Fat.Dir.Remove.{on_blocks}
use userfs.Fat.Dir.Remove.Update.{replace_at, entries_changed}

-- The entry stands at the position in a list.
abbrev pub Has : ℕ → DirEntry → List (ℕ × DirEntry) → Type 0
Has p e [] = ⊥
Has p e ((q, f) ∷ l) = ◌⊎◌ ((p ≡ q) × (e ≡ f)) (Has p e l)

Has-append :
    (p : ℕ) (e : DirEntry) (l m : List (ℕ × DirEntry)) → Has p e (l ++ m) → Has p e l ⊎ Has p e m
Has-append p e [] m h = inr h
Has-append p e ((q, f) ∷ l) m (inl h) = inl (inl h)
Has-append p e ((q, f) ∷ l) m (inr h) = elim (Has-append p e l m h) [
  | inl a ↦ inl (inr a)
  | inr b ↦ inr b
]

-- What a search finds stands in the list and has the property.
pub first-Has :
    (test : DirEntry → Bool) (p : ℕ) (e : DirEntry) (l : List (ℕ × DirEntry))
    → first test l ≡ some (p, e)
    → Has p e l × (test e ≡ true)
first-Has test p e [] h = cc
first-Has test p e ((q, f) ∷ l) h = elim (Bool-cases (test f)) [
  | inl y ↦ (inl (place (found y), entry (found y)), ap test (entry (found y)) ∙ y)
  | inr n ↦ let (has, holds) = first-Has test p e l (later n) in (inr has, holds)
]
  where
    found : test f ≡ true → ◌≡◌ {A = Option (ℕ × DirEntry)} (some (q, f)) (some (p, e))
    found y = ground arith

    later : test f ≡ false → first test l ≡ some (p, e)
    later n = ground arith

    place : ◌≡◌ {A = Option (ℕ × DirEntry)} (some (q, f)) (some (p, e)) → p ≡ q
    place s = cc

    entry : ◌≡◌ {A = Option (ℕ × DirEntry)} (some (q, f)) (some (p, e)) → e ≡ f
    entry s = cc

-- The sector and the block of an entry, and its number in the block.
pub record Place (d : DirBlocks) (p : ℕ) (e : DirEntry) : Type 0 where
  pub sector : ℕ
  pub block : ℕ
  pub number : ℕ
  pub bytes : List ℕ
  pub position : p ≡ sector * 2 ^ d.s_blocksize_bits + number * 32
  pub inside : number < d.dir_per_block
  pub mapped : phys_of (d.bmap sector) ≡ some block
  pub there : d.bread block ≡ some bytes
  pub content : e ≡ decode bytes (number * 32)

module _ (d : DirBlocks) where
  open d use {s_blocksize_bits, dir_per_block, bmap, bread, sectors}

  in_block :
      (p : ℕ) (e : DirEntry) (bytes : List ℕ) (pos de n : ℕ)
      → Has p e (block_entries d bytes pos de n)
      → (k : ℕ) × (de ≤ k)
        × (k < de + n)
        × (p + de * 32 ≡ pos + k * 32)
        × (e ≡ decode bytes (k * 32))
  unfolding block_entries
  in_block p e bytes pos de zero h = elim h [ ]
  in_block p e bytes pos de (suc n) (inl (a, b)) = (de, omega arith, omega arith, omega arith, b)
  in_block p e bytes pos de (suc n) (inr h) =
      let (k, lo, hi, at, c) = in_block p e bytes (pos + entry_size) (de + 1) n h in
      (k, omega arith, omega arith, omega arith, c)

  in_sector :
      (p : ℕ) (e : DirEntry) (i q : ℕ) (o : Option (List ℕ))
      → phys_of (bmap i) ≡ some q
      → bread q ≡ o
      → Has p e (readable d i o)
      → Place d p e
  unfolding readable
  in_sector p e i q none m b h = elim h [ ]
  in_sector p e i q (some bytes) m b h =
      let (k, lo, hi, at, c) = in_block p e bytes (i * 2 ^ s_blocksize_bits) 0 dir_per_block h in
      record {
        sector = i;
        block = q;
        number = k;
        bytes = bytes;
        position = omega arith;
        inside = omega arith;
        mapped = m;
        there = b;
        content = c;
      }

  in_mapped :
      (p : ℕ) (e : DirEntry) (i : ℕ) (o : Option ℕ) (l : List (ℕ × DirEntry))
      → phys_of (bmap i) ≡ o
      → (Has p e l → Place d p e)
      → Has p e (mapped_entries d i o l)
      → Place d p e
  unfolding mapped_entries
  in_mapped p e i none l m later h = elim h [ ]
  in_mapped p e i (some q) l m later h = elim (Has-append p e (readable d i (bread q)) l h) [
    | inl a ↦ in_sector p e i q (bread q) m refl a
    | inr b ↦ later b
  ]

  in_sectors : (p : ℕ) (e : DirEntry) (i n : ℕ) → Has p e (sector_entries d i n) → Place d p e
  unfolding sector_entries
  in_sectors p e i zero h = elim h [ ]
  in_sectors p e i (suc n) h =
      in_mapped p e i (phys_of (bmap i)) (sector_entries d (i + 1) n) refl
        (in_sectors p e (i + 1) n) h

  pub placed : (p : ℕ) (e : DirEntry) → Has p e (entries d) → Place d p e
  unfolding entries
  placed p e h = in_sectors p e 0 sectors h

-- No two sectors of the directory lie in one block, and blocks have their size.
pub record IsDir (d : DirBlocks) : Type 0 where
  pub alone : (i j q : ℕ) → phys_of (d.bmap i) ≡ some q → phys_of (d.bmap j) ≡ some q → i ≡ j
  pub whole :
      (q : ℕ) (bytes : List ℕ) → d.bread q ≡ some bytes → length bytes ≡ 2 ^ d.s_blocksize_bits

-- A new entry in the place of one.
module _ (d : DirBlocks) (dir : IsDir d) (p : ℕ) (old e : DirEntry) (at : Place d p old)
    (fit : IsDirEntry e) where
  open d use {s_blocksize_bits, dir_per_block, bmap, bread}

  pub room : at.number * 32 + 32 ≤ length at.bytes
  room = omega (arith, dir.whole at.block at.bytes at.there, at.inside, d.entries_fill)

  abbrev pub rewritten : Blocks
  rewritten = put_block bread at.block (write_at at.bytes (at.number * 32) (encode e))

  pub entries-rewritten : entries (on_blocks d rewritten) ≡ replace_at p (λ _. e) (entries d)
  entries-rewritten =
      let (here, others) = decode-encode at.bytes (at.number * 32) e fit room in
      entries_changed d (λ _. e) at.sector at.block at.number at.bytes
        (write_at at.bytes (at.number * 32) (encode e)) at.mapped
        (λ i m. dir.alone i at.sector at.block m at.mapped) at.there at.inside here
        (λ de ne. others (de * 32) (aside de ne))
      ∙ ap (λ n. replace_at n (λ _. e) (entries d)) (sym at.position)
    where
      aside :
          (de : ℕ)
          → de ≢ at.number
          → (de * 32 + 32 ≤ at.number * 32) ⊎ (at.number * 32 + 32 ≤ de * 32)
      aside de ne = omega arith

-- The position gives back the sector and the offset in it.
module _ (d : DirBlocks) (p : ℕ) (old : DirEntry) (at : Place d p old) where
  open d use {s_blocksize_bits, dir_per_block}

  in_size : at.number * 32 < 2 ^ s_blocksize_bits
  in_size = omega (arith, at.inside, d.entries_fill)

  reordered : p ≡ at.number * 32 + 2 ^ s_blocksize_bits * at.sector
  reordered = omega (arith, at.position)

  pub sector-Place : p / 2 ^ s_blocksize_bits ≡ at.sector
  sector-Place =
      ap (λ n. n / 2 ^ s_blocksize_bits) reordered
      ∙ add-mul-div_left (at.number * 32) at.sector (pow_pos s_blocksize_bits)
      ∙ omega (arith, div-eq_of_lt in_size)

  pub offset-Place : p % 2 ^ s_blocksize_bits ≡ at.number * 32
  offset-Place =
      ap (λ n. n % 2 ^ s_blocksize_bits) reordered
      ∙ add-mul-mod_self_left (at.number * 32) (2 ^ s_blocksize_bits) at.sector
      ∙ mod-eq_of_lt in_size
