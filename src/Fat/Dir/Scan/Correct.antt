-- ===== src/Fat/Dir/Scan/Correct.antt =====
-- What the scans of a directory answer, on the list of its entries.
use userfs.Prelude.{
  ℕ, ◌+◌, ◌-◌, ◌≡◌, refl, Bool, true, false, Option, none, some, Outcome, ok, err, enoent, List, [],
  ◌∷◌, drop, ◌==◌, ◌&&◌, not, arith, ap, ◌∙◌, inl, inr, Bool-cases,
}
use userfs.Fat.DirEntry.{DirEntry, entry_size, is_free, fat_get_start}
use userfs.Fat.Dir.{DirBlocks, for_entries}
use userfs.Fat.Dir.Entries.{entries}
use userfs.Fat.Dir.Loops.{step_over, over, for_entries_lem, for_entries-At, after_two_lem}
use userfs.Fat.Dir.Scan.{
  Slot, Dirent, dirent_of, is_skipped, logstart_visit, fat_scan_logstart, empty_visit,
  fat_dir_empty, subdirs_visit, fat_subdirs, fed, readdir_visit, fat_readdir, first, all_free,
  is_subdir, count, visible, feed_next, feed,
}

module _ (d : DirBlocks) where
  over-empty : (l : List (ℕ × DirEntry)) → over d (empty_visit d) (λ _. true) l tt ≡ all_free l
  unfolding over step_over empty_visit
  over-empty [] = refl
  over-empty ((p, e) ∷ l) = elim (Bool-cases (is_free e)) [
    | inl h ↦ rw h (over-empty l)
    | inr h ↦ rw h refl
  ]

  -- `fat_dir_empty` returns, and says whether all entries after the first two are free.
  pub fat_dir_empty_lem : fat_dir_empty d ≡ some (all_free (drop 2 (entries d)))
  unfolding fat_dir_empty
  fat_dir_empty_lem =
      after_two_lem d true all_free (λ c. for_entries d (empty_visit d) (λ _. true) c tt) refl
        (λ c l at h.
          for_entries-At d (empty_visit d) (λ _. true) c l tt h at ∙ ap some (over-empty l))

  over-subdirs :
      (l : List (ℕ × DirEntry)) (n : ℕ)
      → over d (subdirs_visit d) (λ n. n) l n ≡ n + count is_subdir l
  unfolding over step_over subdirs_visit
  over-subdirs [] n = omega arith
  over-subdirs ((p, e) ∷ l) n = elim (Bool-cases (is_subdir e)) [
    | inl h ↦ rw h (omega (arith, over-subdirs l (n + 1)))
    | inr h ↦ rw h (over-subdirs l n)
  ]

  -- `fat_subdirs` returns the number of directories after the first two entries, those whose name
  -- begins with a dot left out.
  pub fat_subdirs_lem : fat_subdirs d ≡ some (count is_subdir (drop 2 (entries d)))
  unfolding fat_subdirs
  fat_subdirs_lem =
      after_two_lem d 0 (count is_subdir) (λ c. for_entries d (subdirs_visit d) (λ n. n) c 0) refl
        (λ c l at h.
          for_entries-At d (subdirs_visit d) (λ n. n) c l 0 h at
          ∙ ap some (over-subdirs l 0 ∙ omega arith))

  module _ {C : Type 0} (callback : C → Dirent → Bool × C) where
    fed_over :
        (r : Bool × C) {f g : C → C}
        → ((c : C) → f c ≡ g c)
        → step_over d (readdir_visit d callback) (λ c. c) (fed d callback r) f
          ≡ feed_next callback r g
    unfolding step_over fed
    fed_over (true, c') same = refl
    fed_over (false, c') same = same c'

    over-readdir :
        (l : List (ℕ × DirEntry)) (c : C)
        → over d (readdir_visit d callback) (λ c. c) l c ≡ feed callback (visible l) c
    unfolding over step_over readdir_visit
    over-readdir [] c = refl
    over-readdir ((p, e) ∷ l) c = elim (Bool-cases (is_skipped e)) [
      | inl h ↦ rw h (over-readdir l c)
      | inr h ↦ rw h (fed_over (callback c (dirent_of e)) (over-readdir l))
    ]

    -- `fat_readdir` returns, and has handed to the callback, in their order and until it asked to
    -- stop, the entries of the directory that are not free and whose attribute is neither 8, a volume
    -- label without further bits, nor 15, a part of a long name. A label with a further bit, such as the
    -- archive bit, is handed over.
    pub fat_readdir_lem :
        (c : C) → fat_readdir d callback c ≡ some (feed callback (visible (entries d)) c)
    unfolding fat_readdir
    fat_readdir_lem c =
        for_entries_lem d (readdir_visit d callback) (λ c. c) c
        ∙ ap some (over-readdir (entries d) c)

  -- An entry that `fat_scan_logstart` looks for.
  abbrev pub starts_at : Bool → ℕ → DirEntry → Bool
  starts_at is_fat32 i_logstart e = not (is_skipped e) && (fat_get_start is_fat32 e == i_logstart)

  -- The answer for the first such entry.
  abbrev pub logstart_answer : Slot → Option (ℕ × DirEntry) → Outcome (Unit {0}) × Slot
  logstart_answer s none = (err enoent, s)
  logstart_answer s (some (p, e)) = (ok tt, record s { i_pos = p; de = some e })

  over-logstart :
      (is_fat32 : Bool) (i_logstart : ℕ) (l : List (ℕ × DirEntry)) (s : Slot)
      → over d (logstart_visit d is_fat32 i_logstart) (λ s. (err enoent, s)) l s
        ≡ logstart_answer s (first (starts_at is_fat32 i_logstart) l)
  unfolding over step_over logstart_visit
  over-logstart is_fat32 i_logstart [] s = refl
  over-logstart is_fat32 i_logstart ((p, e) ∷ l) s = elim (Bool-cases (is_skipped e)) [
    | inl h ↦ rw h (over-logstart is_fat32 i_logstart l s)
    | inr h ↦ elim (Bool-cases (fat_get_start is_fat32 e == i_logstart)) [
      | inl g ↦ rw (h, g) (ap (λ q. (ok tt, record s { i_pos = q; de = some e })) (back p))
      | inr g ↦ rw (h, g) (over-logstart is_fat32 i_logstart l s)
    ]
  ]
    where
      back : (p : ℕ) → p + entry_size - entry_size ≡ p
      back p = omega arith

  -- `fat_scan_logstart` returns the position of the first entry that is not free, whose attribute
  -- is neither 8 nor 15, and that starts at the cluster, or ENOENT where there is none.
  pub fat_scan_logstart_lem :
      (is_fat32 : Bool) (i_logstart : ℕ) (s : Slot)
      → fat_scan_logstart d is_fat32 i_logstart s
        ≡ some (logstart_answer s (first (starts_at is_fat32 i_logstart) (entries d)))
  unfolding fat_scan_logstart
  fat_scan_logstart_lem is_fat32 i_logstart s =
      for_entries_lem d (logstart_visit d is_fat32 i_logstart) (λ s. (err enoent, s)) s
      ∙ ap some (over-logstart is_fat32 i_logstart (entries d) s)
