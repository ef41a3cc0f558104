-- ===== src/Fat/Dir/Add/Found.antt =====
-- What a directory holds after `fat_add_entries`, as the search of src/fs/fat/src/dir.c sees it.
use userfs.Prelude.{
  ℕ, ◌≡◌, ◌≢◌, ◌*◌, ◌^◌, ◌<◌, refl, Bool, true, false, Option, none, some, Outcome, ok, err, enoent,
  List, [], ◌∷◌, ap, ◌∙◌, sym, inl, inr, eq_cases, ==_self, ne→==, arith,
}
use userfs.Fat.Table.{FatTable}
use userfs.Fat.Mount.{SbInfo}
use userfs.Fat.Words.{Blocks}
use userfs.Fat.DirEntry.{DirEntry, is_free, entry_size}
use userfs.Fat.DirEntry.Bytes.{IsDirEntry}
use userfs.Fat.Dir.{DirBlocks}
use userfs.Fat.Dir.Entries.{entries}
use userfs.Fat.Dir.Scan.{Slot, first}
use userfs.Fat.Dir.Search.{fat_search_long}
use userfs.Fat.Dir.Search.Correct.{
  is_match, found_slot, Answer, absent, present, fat_search_long_lem,
}
use userfs.Fat.Dir.Remove.Update.{replace_at}
use userfs.Fat.Dir.View.{DirState, view}
use userfs.Fat.Dir.Located.{Has, IsDir, placed, first-Has, entries-rewritten}
use userfs.Fat.Dir.Edit.{rewritten-IsDir}
use userfs.Fat.Dir.Add.{Buffer, fat_add_entries}
use userfs.Fat.Dir.Add.Correct.{new_blocks, added}

-- The only entry with a property, where one entry was put in the place of another.
pub first-replace_at :
    (test : DirEntry → Bool) (p : ℕ) (old e : DirEntry) (l : List (ℕ × DirEntry))
    → first test l ≡ none
    → test e ≡ true
    → Has p old l
    → first test (replace_at p (λ _. e) l) ≡ some (p, e)
unfolding replace_at
first-replace_at test p old e [] none_l yes_e h = elim h [ ]
first-replace_at test p old e ((q, f) ∷ l) none_l yes_e h = elim (eq_cases q p) [
  | inl same ↦ rw (same, ==_self p, yes_e) refl
  | inr other ↦
      rw (ne→== q p other, test_f) (first-replace_at test p old e l later yes_e (further other h))
]
  where
    further : q ≢ p → Has p old ((q, f) ∷ l) → Has p old l
    further ne (inl (a, b)) = absurd (ne (sym a))
    further ne (inr k) = k

    test_f : test f ≡ false
    test_f = ground arith

    later : first test l ≡ none
    later = ground arith

-- The search of a name whose first match is known.
pub search-first :
    (d : DirBlocks) (lower : ℕ → ℕ) (name : List ℕ) (s : Slot) (p : ℕ) (e : DirEntry)
    → s.i_pos ≡ 0
    → first (is_match d lower name) (entries d) ≡ some (p, e)
    → fat_search_long d lower name s ≡ some (ok tt, found_slot d lower name p e)
search-first d lower name s p e zero_pos f =
    let (r, found, answer) = fat_search_long_lem d lower name s zero_pos in
    found ∙ ap some (answered r (first (is_match d lower name) (entries d)) answer f)
  where
    answered :
        (r : Outcome (Unit {0}) × Slot) (o : Option (ℕ × DirEntry))
        → Answer d lower name r o
        → ◌≡◌ {A = Option (ℕ × DirEntry)} o (some (p, e))
        → r ≡ (ok tt, found_slot d lower name p e)
    answered r none (absent s' z eq) h = cc
    answered r (some x) (present q g eq) h = cc

pub search-none :
    (d : DirBlocks) (lower : ℕ → ℕ) (name : List ℕ) (s : Slot)
    → s.i_pos ≡ 0
    → first (is_match d lower name) (entries d) ≡ none
    → (s' : Slot) × (fat_search_long d lower name s ≡ some (err enoent, s'))
search-none d lower name s zero_pos f =
    let (r, found, answer) = fat_search_long_lem d lower name s zero_pos in
    let (s', e) = answered r (first (is_match d lower name) (entries d)) answer f in
    (s', found ∙ ap some e)
  where
    answered :
        (r : Outcome (Unit {0}) × Slot) (o : Option (ℕ × DirEntry))
        → Answer d lower name r o
        → ◌≡◌ {A = Option (ℕ × DirEntry)} o none
        → (s' : Slot) × (r ≡ (err enoent, s'))
    answered r none (absent s' z eq) h = (s', eq)
    answered r (some x) (present q g eq) h = cc

module _ (T : FatTable) (sb : SbInfo) (memory : Bool) (limit : ℕ) (wrote : Outcome (Unit {0}))
    (synced : Blocks → Blocks) (got : ℕ → Buffer) (is_root : Bool)
    (fill : sb.dir_per_block * entry_size ≡ 2 ^ sb.s_blocksize_bits)
    (some_entry : 0 < sb.dir_per_block) where
  abbrev pub dir_at : DirState T → DirBlocks
  dir_at st = view T sb memory limit is_root fill some_entry st

  -- In a directory with a free entry, whose sectors lie in blocks of their own, `fat_add_entries` of one
  -- entry succeeds, whatever the table holds, and tells where the entry is: it stands in the place of
  -- the first free entry, all other entries are unchanged, and sectors still lie in blocks of their own.
  pub fat_add_entries_lem :
      (st : DirState T) (sinfo : Slot) (p : ℕ) (old e : DirEntry)
      → IsDir (dir_at st)
      → IsDirEntry e
      → first is_free (entries (dir_at st)) ≡ some (p, old)
      → (blocks : Blocks) × (fat_add_entries T sb memory limit wrote synced got is_root fill
            some_entry st sinfo
            (e ∷ [])
          ≡ some (
            ok tt,
            record { i_pos = p; slot_off = p; nr_slots = 1; de = some e },
            record st { blocks = blocks },
          ))
        × (entries (dir_at (record st { blocks = blocks }))
            ≡ replace_at p (λ _. e) (entries (dir_at st)))
        × IsDir (dir_at (record st { blocks = blocks }))
  fat_add_entries_lem st sinfo p old e dir fit free =
      let at = placed (dir_at st) p old (first-Has is_free p old (entries (dir_at st)) free).0 in
      (
        new_blocks T sb memory limit wrote synced got is_root fill some_entry st dir p old e at fit,
        added T sb memory limit wrote synced got is_root fill some_entry st dir p old e at fit sinfo
            free,
        entries-rewritten (dir_at st) dir p old e at fit,
        rewritten-IsDir (dir_at st) dir p old e at fit,
      )
