-- ===== src/Fat/Dir/Next.antt =====
-- `fat_get_entry` of src/fs/fat/src/dir.c gives the entries of the list one after the other.
use native.Mathlib.Nat.{mul-div_left, mul-mod_left}
use userfs.Prelude.{
  ℕ, zero, suc, ◌+◌, ◌-◌, ◌*◌, ◌^◌, ◌<◌, ◌≡◌, inl, inr, refl, arith, Option, none, some, List, [],
  ◌∷◌, ◌++◌, ap, ◌∙◌, lt→ltb, le→ltb, lt_cases, Option-cases, subst,
}
use userfs.Fat.DirEntry.{DirEntry, decode, entry_size}
use userfs.Fat.Dir.{
  DirBlocks, Cursor, phys_of, point_into, entry_at_block, entry_at_phys, fat__get_entry, get_held,
  fat_get_entry, start,
}
use userfs.Fat.Dir.Entries.{
  block_entries, readable, mapped_entries, entries, sector_entries, from_sector, unmapped_end,
  from_sector_step,
}

module _ (d : DirBlocks) where
  open d use {s_blocksize_bits, dir_per_block, bmap, bread, sectors}

  -- Where a scan stands, with the entries that are left: at the start of a sector, or after the entry
  -- `de` of a block.
  pub data At : Cursor d → List (ℕ × DirEntry) → Type 0 where
    at_sector :
        (i : ℕ) → At (record { pos = i * 2 ^ s_blocksize_bits; held = none }) (from_sector d i)
    in_block :
        (i : ℕ) (bytes : List ℕ) (de n : ℕ)
        → de + 1 + n ≡ dir_per_block
        → At
            (record {
              pos = i * 2 ^ s_blocksize_bits + (de + 1) * entry_size;
              held = some (bytes, de);
            })
            (block_entries d bytes (i * 2 ^ s_blocksize_bits + (de + 1) * entry_size) (de + 1) n
              ++ from_sector d (i + 1))

  -- What `fat_get_entry` answers: there is no entry left, or it gives the next one.
  pub data Got (l : List (ℕ × DirEntry)) (r : Option (Option (DirEntry × Cursor d))) : Type 0 where
    at_end : l ≡ [] → r ≡ some none → Got l r
    got :
        (p : ℕ) (e : DirEntry) (c : Cursor d) (rest : List (ℕ × DirEntry))
        → l ≡ (p, e) ∷ rest
        → r ≡ some (some (e, c))
        → c.pos ≡ p + entry_size
        → At c rest
        → Got l r

  moved :
      {l l' : List (ℕ × DirEntry)} {r r' : Option (Option (DirEntry × Cursor d))}
      → l ≡ l'
      → r ≡ r'
      → Got l' r'
      → Got l r
  moved p q (at_end e f) = at_end (p ∙ e) (q ∙ f)
  moved p q (got a e c rest x y z k) = got a e c rest (p ∙ x) (q ∙ y) z k

  block_pos : 0 < 2 ^ s_blocksize_bits
  block_pos = omega (arith, d.entries_fill, d.some_entry)

  fill_unfold :
      (bytes : List ℕ) (pos n : ℕ)
      → 1 + n ≡ dir_per_block
      → block_entries d bytes pos 0 dir_per_block
        ≡ (pos, decode bytes 0) ∷ block_entries d bytes (pos + entry_size) 1 n
  unfolding block_entries
  fill_unfold bytes pos n e = ap (block_entries d bytes pos 0) split
    where
      split : dir_per_block ≡ suc n
      split = omega arith

  -- The first entry of a block that was read.
  first_entry :
      (i : ℕ) (bytes : List ℕ) (n : ℕ)
      → 1 + n ≡ dir_per_block
      → Got
          (readable d i (some bytes) ++ from_sector d (i + 1))
          (some (some (point_into d (i * 2 ^ s_blocksize_bits) bytes)))
  unfolding readable point_into
  first_entry i bytes n e =
      rw (fill_unfold bytes (i * 2 ^ s_blocksize_bits) n e, mul-mod_left i (2 ^ s_blocksize_bits))
        (got (i * 2 ^ s_blocksize_bits) (decode bytes 0)
          (record { pos = i * 2 ^ s_blocksize_bits + 1 * entry_size; held = some (bytes, 0) })
          (block_entries d bytes (i * 2 ^ s_blocksize_bits + 1 * entry_size) 1 n
            ++ from_sector d (i + 1))
          refl refl refl (in_block i bytes 0 n e))

  -- A round of `fat__get_entry` at the start of a sector.
  module _ (i : ℕ) (next : Option (Option (DirEntry × Cursor d))) where
    abbrev entry_round : Option (Option (DirEntry × Cursor d))
    entry_round = entry_at_phys d (i * 2 ^ s_blocksize_bits) (phys_of (bmap i)) next

    round_unread :
        (p : ℕ)
        → i < sectors
        → phys_of (bmap i) ≡ some p
        → bread p ≡ none
        → Got (from_sector d (i + 1)) next
        → Got (from_sector d i) entry_round
    unfolding entry_at_phys entry_at_block mapped_entries readable
    round_unread p lt e u later =
        moved
          (from_sector_step d i lt
            ∙ ap (λ o. mapped_entries d i o (from_sector d (i + 1))) e
            ∙ ap (λ o. readable d i o ++ from_sector d (i + 1)) u)
          (ap (λ o. entry_at_phys d (i * 2 ^ s_blocksize_bits) o next) e
            ∙ ap (λ o. entry_at_block d (i * 2 ^ s_blocksize_bits) o next) u)
          later

    round_read :
        (p : ℕ) (bytes : List ℕ)
        → i < sectors
        → phys_of (bmap i) ≡ some p
        → bread p ≡ some bytes
        → Got (from_sector d i) entry_round
    unfolding entry_at_phys entry_at_block mapped_entries
    round_read p bytes lt e r =
        moved
          (from_sector_step d i lt
            ∙ ap (λ o. mapped_entries d i o (from_sector d (i + 1))) e
            ∙ ap (λ o. readable d i o ++ from_sector d (i + 1)) r)
          (ap (λ o. entry_at_phys d (i * 2 ^ s_blocksize_bits) o next) e
            ∙ ap (λ o. entry_at_block d (i * 2 ^ s_blocksize_bits) o next) r)
          (first_entry i bytes (dir_per_block - 1) (omega (arith, d.some_entry)))

    round_end : phys_of (bmap i) ≡ none → Got (from_sector d i) entry_round
    unfolding entry_at_phys
    round_end e = at_end (unmapped_end d i e) (rw e refl)

    round_mapped :
        (p : ℕ)
        → i < sectors
        → phys_of (bmap i) ≡ some p
        → Got (from_sector d (i + 1)) next
        → Got (from_sector d i) entry_round
    round_mapped p lt e later = elim (Option-cases (bread p)) [
      | inl u ↦ round_unread p lt e u later
      | inr (bytes, r) ↦ round_read p bytes lt e r
    ]

    round_lem : (i < sectors → Got (from_sector d (i + 1)) next) → Got (from_sector d i) entry_round
    round_lem later = elim (lt_cases i sectors) [
      | inr past ↦ round_end (d.past_end i past)
      | inl lt ↦ elim (Option-cases (phys_of (bmap i))) [
        | inl e ↦ round_end e
        | inr (p, e) ↦ round_mapped p lt e (later lt)
      ]
    ]

  sector_get :
      (fuel i : ℕ)
      → sectors < fuel + i
      → 0 < fuel
      → Got (from_sector d i) (fat__get_entry d fuel (i * 2 ^ s_blocksize_bits))
  unfolding fat__get_entry
  sector_get zero i h pos = absurd (omega arith)
  sector_get (suc fuel) i h pos = rw (mul-div_left i block_pos) (
      round_lem i (fat__get_entry d fuel ((i + 1) * 2 ^ s_blocksize_bits))
        (λ lt. sector_get fuel (i + 1) (omega arith) (omega arith)))

  -- The next block begins where the entries of a block end.
  block_end :
      (i de : ℕ)
      → de + 1 ≡ dir_per_block
      → i * 2 ^ s_blocksize_bits + (de + 1) * entry_size ≡ (i + 1) * 2 ^ s_blocksize_bits
  block_end i de e = omega (arith, d.entries_fill)

  pub get_At : (c : Cursor d) (l : List (ℕ × DirEntry)) → At c l → Got l (fat_get_entry d c)
  unfolding fat_get_entry get_held block_entries
  get_At c l (at_sector i) = sector_get (suc sectors) i (omega arith) (omega arith)
  get_At c l (in_block i bytes de zero e) =
      rw (le→ltb de (dir_per_block - 1) (omega arith), block_end i de (omega arith))
        (sector_get (suc sectors) (i + 1) (omega arith) (omega arith))
  get_At c l (in_block i bytes de (suc n) e) = rw (lt→ltb de (dir_per_block - 1) (omega arith)) (
      got here (decode bytes ((de + 1) * entry_size))
        (record { pos = here + entry_size; held = some (bytes, de + 1) })
        (block_entries d bytes (here + entry_size) (de + 1 + 1) n ++ from_sector d (i + 1)) refl
        refl refl
        (subst
          (λ q.
            At (record { pos = q; held = some (bytes, de + 1) })
              (block_entries d bytes q (de + 1 + 1) n ++ from_sector d (i + 1)))
          place (in_block i bytes (de + 1) n (omega arith))))
    where
      here : ℕ
      here = i * 2 ^ s_blocksize_bits + (de + 1) * entry_size

      place : i * 2 ^ s_blocksize_bits + (de + 1 + 1) * entry_size ≡ here + entry_size
      place = omega arith

  pub start-At : At (start d) (entries d)
  unfolding entries
  start-At =
      subst (λ p. At (record { pos = p; held = none }) (entries d)) zero_pos
        (subst
          (λ n. At (record { pos = 0 * 2 ^ s_blocksize_bits; held = none }) (sector_entries d 0 n))
          all_sectors (at_sector 0))
    where
      zero_pos : 0 * 2 ^ s_blocksize_bits ≡ 0
      zero_pos = omega arith

      all_sectors : sectors - 0 ≡ sectors
      all_sectors = omega arith
