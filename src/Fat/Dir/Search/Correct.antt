-- ===== src/Fat/Dir/Search/Correct.antt =====
-- What `fat_search_long` finds, on the list of the entries of the directory.
use userfs.Prelude.{
  ℕ, ◌+◌, ◌-◌, ◌≡◌, refl, Bool, true, false, Option, none, some, Outcome, ok, err, enoent, List, [],
  ◌∷◌, ◌==◌, ◌&&◌, ◌||◌, not, arith, ap, inl, inr, Bool-cases,
}
use userfs.Fat.DirEntry.{DirEntry, entry_size, attr_volume, attr_ext, has_attr, is_free}
use userfs.Fat.Dir.{DirBlocks, Step, go, stop}
use userfs.Fat.Dir.Entries.{entries}
use userfs.Fat.Dir.Loops.{step_over, over, for_entries_lem}
use userfs.Fat.Dir.Scan.{Slot, first}
use userfs.Fat.Dir.Search.{note_free, is_named, search_visit, fat_search_long}

-- An entry that is passed over: a volume label, or part of a long name.
abbrev pub is_label : DirEntry → Bool
is_label e = e.attr == attr_volume || (e.attr == attr_ext || has_attr e attr_volume)

module _ (d : DirBlocks) (lower : ℕ → ℕ) (name : List ℕ) where
  -- An entry in use with the name.
  abbrev pub is_match : DirEntry → Bool
  is_match e = not (is_free e) && (not (is_label e) && is_named lower name e)

  -- What `sinfo` says of a found entry.
  abbrev pub found_slot : ℕ → DirEntry → Slot
  found_slot p e = record { i_pos = p; slot_off = p; nr_slots = 1; de = some e }

  -- The answer of the search from a `sinfo` whose `i_pos` is 0.
  pub data Answer (r : Outcome (Unit {0}) × Slot) : Option (ℕ × DirEntry) → Type 0 where
    absent : (s : Slot) → s.i_pos ≡ 0 → r ≡ (err enoent, s) → Answer r none
    present : (p : ℕ) (e : DirEntry) → r ≡ (ok tt, found_slot p e) → Answer r (some (p, e))

  noted : (s : Slot) (pos : ℕ) (e : DirEntry) → s.i_pos ≡ 0 → (note_free s pos e).i_pos ≡ 0
  unfolding note_free
  noted s pos e h = rw h refl

  -- What a round does.
  module _ (s : Slot) (p : ℕ) (e : DirEntry) where
    abbrev visited : Step Slot (Outcome (Unit {0}) × Slot)
    visited = search_visit d lower name s (p + entry_size) e

    data Visited : Type 0 where
      passed :
          (s' : Slot)
          → (s.i_pos ≡ 0 → s'.i_pos ≡ 0)
          → visited ≡ go s'
          → is_match e ≡ false
          → Visited
      taken : visited ≡ stop (ok tt, found_slot p e) → is_match e ≡ true → Visited

    back : p + entry_size - entry_size ≡ p
    back = omega arith

    visit_lem : Visited
    unfolding search_visit
    visit_lem = elim (Bool-cases (is_free e)) [
      | inl f ↦
          passed (note_free s (p + entry_size) e) (noted s (p + entry_size) e) (rw f refl)
            (rw f refl)
      | inr f ↦ elim (Bool-cases (e.attr == attr_volume)) [
        | inl v ↦ passed s (λ h. h) (rw (f, v) refl) (rw (f, v) refl)
        | inr v ↦ elim (Bool-cases (e.attr == attr_ext)) [
          | inl x ↦ passed s (λ h. h) (rw (f, v, x) refl) (rw (f, v, x) refl)
          | inr x ↦ elim (Bool-cases (has_attr e attr_volume)) [
            | inl a ↦ passed s (λ h. h) (rw (f, v, x, a) refl) (rw (f, v, x, a) refl)
            | inr a ↦ elim (Bool-cases (is_named lower name e)) [
              | inl n ↦
                  taken (rw (f, v, x, a, n) (ap (λ q. stop (ok tt, found_slot q e)) back))
                    (rw (f, v, x, a, n) refl)
              | inr n ↦ passed s (λ h. h) (rw (f, v, x, a, n) refl) (rw (f, v, x, a, n) refl)
            ]
          ]
        ]
      ]
    ]

  over-search :
      (l : List (ℕ × DirEntry)) (s : Slot)
      → s.i_pos ≡ 0
      → Answer (over d (search_visit d lower name) (λ s. (err enoent, s)) l s) (first is_match l)
  unfolding over step_over
  over-search [] s h = absent s h refl
  over-search ((p, e) ∷ l) s h = elim (visit_lem s p e) [
    | passed s' keep v no_match ↦ rw (v, no_match) (over-search l s' (keep h))
    | taken v match ↦ rw (v, match) (present p e refl)
  ]

  -- From a `sinfo` whose `i_pos` is 0 the search returns: the first entry in use that is no label and
  -- no part of a long name and has the name, with its position; or ENOENT where there is none.
  pub fat_search_long_lem :
      (s : Slot)
      → s.i_pos ≡ 0
      → (r : Outcome (Unit {0}) × Slot) × (fat_search_long d lower name s ≡ some r)
        × Answer r (first is_match (entries d))
  unfolding fat_search_long
  fat_search_long_lem s h = (
    over d (search_visit d lower name) (λ s. (err enoent, s)) (entries d) s,
    for_entries_lem d (search_visit d lower name) (λ s. (err enoent, s)) s,
    over-search (entries d) s h,
  )
