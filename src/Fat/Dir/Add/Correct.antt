-- ===== src/Fat/Dir/Add/Correct.antt =====
-- One entry that is added to a directory with a free entry.
use userfs.Prelude.{
  ℕ, ◌+◌, ◌-◌, ◌*◌, ◌/◌, ◌%◌, ◌^◌, ◌<◌, ◌≡◌, refl, arith, Bool, true, false, none, some, Outcome,
  ok, err, List, [], ◌∷◌, ap, ◌∙◌, inl, inr, Bool-cases, ==_self,
}
use userfs.Fat.Table.{FatTable}
use userfs.Fat.Mount.{SbInfo}
use userfs.Fat.Bmap.{Mapping}
use userfs.Fat.Words.{Blocks, put_block}
use userfs.Fat.DirEntry.{DirEntry, encode, write_at, entry_size, is_free}
use userfs.Fat.DirEntry.Bytes.{IsDirEntry, decode-encode}
use userfs.Fat.Dir.{DirBlocks, phys_of}
use userfs.Fat.Dir.Entries.{entries}
use userfs.Fat.Dir.Loops.{over, step_over, for_entries_lem}
use userfs.Fat.Dir.Scan.{Slot, first}
use userfs.Fat.Dir.View.{DirState, view}
use userfs.Fat.Dir.Located.{Place, IsDir, rewritten, room, sector-Place, offset-Place}
use userfs.Fat.Dir.Add.{
  FreeRun, note_slot, add_visit, find_slots, phys_or_error, write_in, write_slot, then_slots,
  Buffer, bmap_in, write_slots, reread_in, reread, slots_written, write_entries, after_search,
  fat_add_entries,
}

module _ (d : DirBlocks) where
  abbrev fresh : ℕ → ℕ → FreeRun
  fresh a b = record { free_slots = 0; free_pos = a; slot_off = b }

  over-add :
      (a b p : ℕ) (old : DirEntry) (l : List (ℕ × DirEntry))
      → first is_free l ≡ some (p, old)
      → over d (add_visit 1) (λ s. (false, s)) l (fresh a b)
        ≡ (true, record { free_slots = 1; free_pos = p; slot_off = p })
  unfolding over step_over add_visit note_slot
  over-add a b p old [] h = cc
  over-add a b p old ((q, e) ∷ l) h = elim (Bool-cases (is_free e)) [
    | inl y ↦ rw y (ap hit (back ∙ place y))
    | inr n ↦ rw n (over-add a b p old l (later n))
  ]
    where
      hit : ℕ → Bool × FreeRun
      hit n = (true, record { free_slots = 1; free_pos = n; slot_off = n })

      back : q + entry_size - entry_size ≡ q
      back = omega arith

      place : is_free e ≡ true → q ≡ p
      place y = ground arith

      later : is_free e ≡ false → first is_free l ≡ some (p, old)
      later n = ground arith

  over-full :
      (a b : ℕ) (l : List (ℕ × DirEntry))
      → first is_free l ≡ none
      → over d (add_visit 1) (λ s. (false, s)) l (fresh a b) ≡ (false, fresh a b)
  unfolding over step_over add_visit
  over-full a b [] h = refl
  over-full a b ((q, e) ∷ l) h = elim (Bool-cases (is_free e)) [
    | inl y ↦ absurd (never y)
    | inr n ↦ rw n (over-full a b l (later n))
  ]
    where
      never : is_free e ≡ true → ⊥
      never y = ground arith

      later : is_free e ≡ false → first is_free l ≡ none
      later n = ground arith

  -- The search for one slot.
  pub find_slots-free :
      (b p : ℕ) (old : DirEntry)
      → first is_free (entries d) ≡ some (p, old)
      → find_slots d 1 b ≡ some (true, record { free_slots = 1; free_pos = p; slot_off = p })
  unfolding find_slots
  find_slots-free b p old h =
      for_entries_lem d (add_visit 1) (λ s. (false, s)) (fresh 0 b)
      ∙ ap some (over-add 0 b p old (entries d) h)

  pub find_slots-full :
      (b : ℕ) → first is_free (entries d) ≡ none → find_slots d 1 b ≡ some (false, fresh 0 b)
  unfolding find_slots
  find_slots-full b h =
      for_entries_lem d (add_visit 1) (λ s. (false, s)) (fresh 0 b)
      ∙ ap some (over-full 0 b (entries d) h)

module _ (T : FatTable) (sb : SbInfo) (memory : Bool) (limit : ℕ) (wrote : Outcome (Unit {0}))
    (synced : Blocks → Blocks) (got : ℕ → Buffer) (is_root : Bool)
    (fill : sb.dir_per_block * entry_size ≡ 2 ^ sb.s_blocksize_bits)
    (some_entry : 0 < sb.dir_per_block) where
  mapped-phys : (o : Outcome Mapping) (q : ℕ) → phys_of o ≡ some q → phys_or_error o ≡ ok q
  unfolding phys_of phys_or_error
  mapped-phys (err x) q h = cc
  mapped-phys (ok m) q h = ground arith

  module _ (st : DirState T) (dir : IsDir (view T sb memory limit is_root fill some_entry st))
      (p : ℕ) (old e : DirEntry)
      (at : Place (view T sb memory limit is_root fill some_entry st) p old)
      (fit : IsDirEntry e) where
    bmap : ℕ → Outcome Mapping
    bmap = bmap_in T sb memory limit wrote synced got is_root st

    abbrev pub new_blocks : Blocks
    new_blocks = rewritten (view T sb memory limit is_root fill some_entry st) dir p old e at fit

    sector-bits : p / 2 ^ sb.s_blocksize_bits ≡ at.sector
    sector-bits = sector-Place (view T sb memory limit is_root fill some_entry st) p old at

    offset-bits : p % 2 ^ sb.s_blocksize_bits ≡ at.number * 32
    offset-bits = offset-Place (view T sb memory limit is_root fill some_entry st) p old at

    mapped-here : phys_of (bmap at.sector) ≡ some at.block
    unfolding bmap
    mapped-here = at.mapped

    read-here : st.blocks at.block ≡ some at.bytes
    read-here = at.there

    slot_written :
        write_slots T sb memory limit wrote synced got is_root bmap p (e ∷ []) st.blocks
        ≡ (ok tt, new_blocks)
    unfolding write_slots write_slot write_in then_slots
    slot_written =
        rw (sector-bits, offset-bits, mapped-phys (bmap at.sector) at.block mapped-here, read-here)
          refl

    new-here : new_blocks at.block ≡ some (write_at at.bytes (at.number * 32) (encode e))
    unfolding put_block
    new-here = rw (==_self at.block) refl

    reread-here :
        (s : Slot)
        → reread T sb memory limit wrote synced got is_root s
            (p % 2 ^ sb.s_blocksize_bits)
            (phys_of (bmap (p / 2 ^ sb.s_blocksize_bits)))
            new_blocks
          ≡ record s { de = some e }
    unfolding reread reread_in
    reread-here s =
        let (here, others) =
          decode-encode at.bytes (at.number * 32) e fit
            (room (view T sb memory limit is_root fill some_entry st) dir p old e at fit) in
        rw (sector-bits, offset-bits, mapped-here, new-here, here) refl

    -- What `sinfo` says of the new entry.
    abbrev pub new_slot : Slot
    new_slot = record { i_pos = p; slot_off = p; nr_slots = 1; de = some e }

    pub added :
        (sinfo : Slot)
        → first is_free (entries (view T sb memory limit is_root fill some_entry st))
          ≡ some (p, old)
        → fat_add_entries T sb memory limit wrote synced got is_root fill some_entry st sinfo
            (e ∷ [])
          ≡ some (ok tt, new_slot, record st { blocks = new_blocks })
    unfolding fat_add_entries after_search write_entries slots_written bmap
    added sinfo free =
        rw
          (
            find_slots-free (view T sb memory limit is_root fill some_entry st) sinfo.slot_off p old
                free,
            slot_written,
          )
          (ap (λ s. some (ok tt, s, record st { blocks = new_blocks }))
            (reread-here (record sinfo { slot_off = p; i_pos = p; nr_slots = 1 })))
