-- ===== src/Fat/Dir/Remove/Update.antt =====
-- The entries of a directory after the bytes of one entry have changed.
use native.Mathlib.Nat.{add-mul}
use userfs.Prelude.{
  ℕ, zero, suc, ◌+◌, ◌-◌, ◌*◌, ◌^◌, ◌≤◌, ◌<◌, ◌≡◌, ◌≢◌, ◌⊎◌, inl, inr, refl, arith, Option, none,
  some, List, [], ◌∷◌, ◌++◌, ◌==◌, if◌then◌else◌, ap, ◌∙◌, sym, eq_cases, ne→==, ==_self, lt_cases,
  Option-cases, if_true, if_false,
}
use userfs.Fat.DirEntry.{DirEntry, decode, entry_size}
use userfs.Fat.Words.{Blocks, put_block}
use userfs.Fat.Dir.{DirBlocks, phys_of}
use userfs.Fat.Dir.Entries.{block_entries, readable, mapped_entries, sector_entries, entries}
use userfs.Fat.Dir.Remove.{on_blocks}

-- The entry at a position is replaced.
unfoldable pub replace_at : ℕ → (DirEntry → DirEntry) → List (ℕ × DirEntry) → List (ℕ × DirEntry)
replace_at p f [] = []
replace_at p f ((q, e) ∷ l) = (q, if q == p then f e else e) ∷ replace_at p f l

replace_at-append :
    (p : ℕ) (f : DirEntry → DirEntry) (l m : List (ℕ × DirEntry))
    → replace_at p f (l ++ m) ≡ replace_at p f l ++ replace_at p f m
unfolding replace_at
replace_at-append p f [] m = refl
replace_at-append p f ((q, e) ∷ l) m =
    ap (λ r. (q, if q == p then f e else e) ∷ r) (replace_at-append p f l m)

module _ (d : DirBlocks) (f : DirEntry → DirEntry) where
  open d use {s_blocksize_bits, dir_per_block, bmap, bread, sectors}

  -- A block without the position.
  block_outside :
      (bytes : List ℕ) (p pos de n : ℕ)
      → (p < pos) ⊎ (pos + n * 32 ≤ p)
      → block_entries d bytes pos de n ≡ replace_at p f (block_entries d bytes pos de n)
  unfolding block_entries replace_at
  block_outside bytes p pos de zero out = refl
  block_outside bytes p pos de (suc n) out = rw (ne→== pos p (apart out)) (
      ap (λ l. (pos, decode bytes (de * entry_size)) ∷ l)
        (block_outside bytes p (pos + entry_size) (de + 1) n (omega arith)))
    where
      apart : (p < pos) ⊎ (pos + suc n * 32 ≤ p) → pos ≢ p
      apart h e = omega arith

  -- A block with the position, whose bytes have changed at entry `k` only.
  module _ (bytes bytes' : List ℕ) (base k : ℕ)
      (here : decode bytes' (k * 32) ≡ f (decode bytes (k * 32)))
      (others : (de : ℕ) → de ≢ k → decode bytes' (de * 32) ≡ decode bytes (de * 32)) where
    head_changed :
        (de : ℕ)
        → decode bytes' (de * 32) ≡ (
            if base + de * 32 == base + k * 32
            then f (decode bytes (de * 32))
            else decode bytes (de * 32))
    head_changed de = elim (eq_cases de k) [
      | inl e ↦ rw e (here ∙ sym (if_true _ _ (==_self (base + k * 32))))
      | inr ne ↦ others de ne ∙ sym (if_false _ _ (ne→== (base + de * 32) (base + k * 32) (far ne)))
    ]
      where
        far : de ≢ k → base + de * 32 ≢ base + k * 32
        far ne p = ne (omega arith)

    block_changed :
        (blocks : Blocks) (pos de n : ℕ)
        → pos ≡ base + de * 32
        → block_entries (on_blocks d blocks) bytes' pos de n
          ≡ replace_at (base + k * 32) f (block_entries d bytes pos de n)
    unfolding block_entries replace_at
    block_changed blocks pos de zero e = refl
    block_changed blocks pos de (suc n) e =
        both
          (head_changed de
            ∙ ap
                (λ q.
                  if q == base + k * 32 then f (decode bytes (de * 32)) else decode bytes (de * 32))
                (sym e))
          (block_changed blocks (pos + entry_size) (de + 1) n (omega arith))
      where
        both :
            {a b : DirEntry} {l m : List (ℕ × DirEntry)}
            → a ≡ b
            → l ≡ m
            → ◌≡◌ {A = List (ℕ × DirEntry)} ((pos, a) ∷ l) ((pos, b) ∷ m)
        both x y = cc

  -- Sector `t` lies in block `q`, which no other sector has, and the bytes of this block change at
  -- entry `k` only.
  module _ (t q k : ℕ) (bytes bytes' : List ℕ) (mapped : phys_of (bmap t) ≡ some q)
      (alone : (i : ℕ) → phys_of (bmap i) ≡ some q → i ≡ t) (there : bread q ≡ some bytes)
      (inside : k < dir_per_block) (here : decode bytes' (k * 32) ≡ f (decode bytes (k * 32)))
      (others : (de : ℕ) → de ≢ k → decode bytes' (de * 32) ≡ decode bytes (de * 32)) where
    abbrev place : ℕ
    place = t * 2 ^ s_blocksize_bits + k * 32

    abbrev pub changed_dir : DirBlocks
    changed_dir = on_blocks d (put_block bread q bytes')

    new_bytes : changed_dir.bread q ≡ some bytes'
    unfolding put_block
    new_bytes = rw (==_self q) refl

    old_bytes : (r : ℕ) → r ≢ q → changed_dir.bread r ≡ bread r
    unfolding put_block
    old_bytes r ne = rw (ne→== r q ne) refl

    sector_before : (i u size : ℕ) → i < u → i * size + size ≤ u * size
    sector_before i u size lt =
        omega (arith, ap (λ n. n * size) (split lt), add-mul (i + 1) (u - (i + 1)) size)
      where
        split : i < u → u ≡ i + 1 + (u - (i + 1))
        split h = omega arith

    other_sector :
        (i : ℕ) (bs : List ℕ)
        → i ≢ t
        → readable d i (some bs) ≡ replace_at place f (readable d i (some bs))
    unfolding readable
    other_sector i bs ne =
        block_outside bs place (i * 2 ^ s_blocksize_bits) 0 dir_per_block (elim (lt_cases i t) [
          | inl lt ↦
              inr (omega (arith, sector_before i t (2 ^ s_blocksize_bits) lt, d.entries_fill))
          | inr ge ↦ inl (
              omega (arith, sector_before t i (2 ^ s_blocksize_bits) (omega arith), d.entries_fill))
        ])

    this_sector :
        readable changed_dir t (some bytes') ≡ replace_at place f (readable d t (some bytes))
    unfolding readable
    this_sector =
        block_changed bytes bytes' (t * 2 ^ s_blocksize_bits) k here others
          (put_block bread q bytes') (t * 2 ^ s_blocksize_bits) 0 dir_per_block (omega arith)

    other_block :
        (i : ℕ) (o : Option (List ℕ))
        → i ≢ t
        → readable changed_dir i o ≡ replace_at place f (readable d i o)
    unfolding readable block_entries replace_at
    other_block i none ne = refl
    other_block i (some bs) ne = other_sector i bs ne

    read_changed :
        (i r : ℕ)
        → phys_of (bmap i) ≡ some r
        → readable changed_dir i (changed_dir.bread r) ≡ replace_at place f (readable d i (bread r))
    read_changed i r e = elim (eq_cases r q) [
      | inl same ↦
          let it = alone i (e ∙ ap some same) in
          ap (λ n. readable changed_dir i (changed_dir.bread n)) same
          ∙ ap (readable changed_dir i) new_bytes
          ∙ ap (λ n. readable changed_dir n (some bytes')) it
          ∙ this_sector
          ∙ ap (λ n. replace_at place f (readable d n (some bytes))) (sym it)
          ∙ ap (λ o. replace_at place f (readable d i o)) (sym there)
          ∙ ap (λ n. replace_at place f (readable d i (bread n))) (sym same)
      | inr ne ↦
          ap (readable changed_dir i) (old_bytes r ne) ∙ other_block i (bread r) (elsewhere ne)
    ]
      where
        elsewhere : r ≢ q → i ≢ t
        elsewhere ne p = ne (unique (sym e ∙ ap (λ n. phys_of (bmap n)) p ∙ mapped))
          where
            unique : {u v : ℕ} → some u ≡ some v → u ≡ v
            unique z = cc

    mapped_changed :
        (i : ℕ) (l l' : List (ℕ × DirEntry))
        → l' ≡ replace_at place f l
        → mapped_entries changed_dir i (phys_of (bmap i)) l'
          ≡ replace_at place f (mapped_entries d i (phys_of (bmap i)) l)
    unfolding mapped_entries replace_at
    mapped_changed i l l' same = elim (Option-cases (phys_of (bmap i))) [
      | inl e ↦ rw e refl
      | inr (r, e) ↦
          ap (λ o. mapped_entries changed_dir i o l') e
          ∙ ap (λ m. m ++ l') (read_changed i r e)
          ∙ ap (λ m. replace_at place f (readable d i (bread r)) ++ m) same
          ∙ sym (replace_at-append place f (readable d i (bread r)) l)
          ∙ ap (λ o. replace_at place f (mapped_entries d i o l)) (sym e)
    ]

    sectors_changed :
        (i n : ℕ) → sector_entries changed_dir i n ≡ replace_at place f (sector_entries d i n)
    unfolding sector_entries replace_at
    sectors_changed i zero = refl
    sectors_changed i (suc n) =
        mapped_changed i (sector_entries d (i + 1) n) (sector_entries changed_dir (i + 1) n)
          (sectors_changed (i + 1) n)

    -- The entries of the directory are the old ones but for the one that has changed.
    pub entries_changed : entries changed_dir ≡ replace_at place f (entries d)
    unfolding entries
    entries_changed = sectors_changed 0 sectors
