-- ===== src/Fat/Namei/Make/Rename.antt =====
-- `vfat_rename2` of src/fs/fat/src/namei.c, where the new name is the old one.
use userfs.Prelude.{ℕ, ◌≡◌, refl, Bool, true, some, ok, err, enoent, List, ap, ◌∙◌, sym, subst}
use userfs.Fat.Table.{FatTable}
use userfs.Fat.Words.{Blocks}
use userfs.Fat.DirEntry.{DirEntry, deleted_flag, is_free}
use userfs.Fat.DirEntry.Bytes.{IsDirEntry, renamed}
use userfs.Fat.Dir.Entries.{entries}
use userfs.Fat.Dir.Scan.{Slot, first, count}
use userfs.Fat.Dir.Remove.{fat_remove_entries}
use userfs.Fat.Dir.Remove.Update.{replace_at}
use userfs.Fat.Dir.Located.{Has, IsDir, first-Has}
use userfs.Fat.Dir.Edit.{
  slot_at, Removed, remove_lem, first-removed, Has-replace_at, first-replaced_again,
}
use userfs.Fat.Dir.View.{DirState}
use userfs.Fat.Dir.Add.Found.{fat_add_entries_lem, search-first}
use userfs.Fat.Namei.{Names, Env, zeroed, dir_of, vfat_lookup}
use userfs.Fat.Namei.Search.{matches, matches-deleted, vfat_lookup-none}
use userfs.Fat.Namei.Make.{
  add_one, old_seen, blocks_after, old_removed, renamed_entry, move_entry, target_removed,
  then_move, old_found, vfat_rename2,
}

module _ (T : FatTable) (v : Env T) where
  open v use {sb, is_root, lower}

  abbrev with_blocks : Names T → Blocks → Names T
  with_blocks st blocks = record st { dir = record st.dir { blocks = blocks } }

  abbrev removed_blocks : Names T → Slot → Blocks
  removed_blocks st s = (fat_remove_entries (dir_of T v st) s st.dir.blocks).1

  module _ (old_is_root : Bool) (old_dir : DirState T) (st : Names T) (name : List ℕ) (p : ℕ)
      (e : DirEntry) (dir : IsDir (dir_of T v st))
      (f : first (matches T v st name) (entries (dir_of T v st)) ≡ some (p, e)) where
    abbrev test : DirEntry → Bool
    test = matches T v st name

    abbrev new : DirEntry
    new = renamed_entry T v true old_is_root old_dir name e

    abbrev cleared : Names T
    cleared = with_blocks st (removed_blocks st (slot_at p e))

    first-Removed :
        Removed
          (dir_of T v st)
          dir
          p
          (fat_remove_entries (dir_of T v st) (slot_at p e) st.dir.blocks)
    first-Removed =
        remove_lem (dir_of T v st) dir p e e (first-Has test p e (entries (dir_of T v st)) f).0

    -- The calls up to the last removal.
    moved :
        (blocks : Blocks)
        → add_one T v cleared zeroed new
          ≡ some (ok tt, slot_at p new, record cleared.dir { blocks = blocks })
        → vfat_rename2 T v true old_is_root old_dir st name name
          ≡ some (
              blocks_after T v true old_is_root old_dir
                (with_blocks st blocks)
                (fat_remove_entries (dir_of T v (with_blocks st blocks)) (slot_at p e) blocks))
    unfolding vfat_rename2 old_found old_seen target_removed then_move move_entry old_removed
        blocks_after
    moved blocks add =
        let found = search-first (dir_of T v st) lower name zeroed p e refl f in
        ap (old_found T v true old_is_root old_dir st name) found
        ∙ ap
            (λ o.
              then_move T v true old_is_root old_dir (slot_at p e) name
                (target_removed T v true old_is_root old_dir st o))
            found
        ∙ ap (old_removed T v true old_is_root old_dir cleared (slot_at p e)) add

    -- Where exactly one entry has a name, and no free entry stands before it, `vfat_rename2` of it to
    -- the name that it has, in its own directory, reports success, and afterwards a lookup of the name
    -- fails with ENOENT.
    pub vfat_rename2-lost :
        count (matches T v st name) (entries (dir_of T v st)) ≡ 1
        → first is_free (replace_at p (renamed deleted_flag) (entries (dir_of T v st)))
          ≡ some (p, renamed deleted_flag e)
        → IsDirEntry (renamed_entry T v true old_is_root old_dir name e)
        → (st' : Names T) × (vfat_rename2 T v true old_is_root old_dir st name name
            ≡ some (ok tt, st'))
          × (vfat_lookup T v st' name ≡ some (err enoent, st'))
    unfolding add_one blocks_after
    vfat_rename2-lost once free fit =
        let r1 = first-Removed in
        let (blocks, add, after, still) =
          fat_add_entries_lem T sb v.memory v.limit v.wrote v.synced v.got is_root v.fill
            v.some_entry cleared.dir zeroed p (renamed deleted_flag e) new r1.still fit
            (ap (first is_free) r1.after ∙ free) in
        let st2 = with_blocks st blocks in
        let has =
          (first-Has is_free p (renamed deleted_flag e)
            (replace_at p (renamed deleted_flag) (entries (dir_of T v st))) free).0 in
        let all2 : entries (dir_of T v st2)
            ≡ replace_at p (λ _. new)
                (replace_at p (renamed deleted_flag) (entries (dir_of T v st))) =
          after ∙ ap (replace_at p (λ _. new)) r1.after in
        let r2 = remove_lem (dir_of T v st2) still p new e (
          subst (Has p new) (sym all2) (
            Has-replace_at p (λ _. new) (renamed deleted_flag e)
              (replace_at p (renamed deleted_flag) (entries (dir_of T v st))) has)) in
        let st3 = with_blocks st2 (removed_blocks st2 (slot_at p e)) in
        (
          st3,
          moved blocks add ∙ ap (λ o. some (o, st3)) r2.reported,
          vfat_lookup-none T v st3 name (
              ap (first test) (r2.after ∙ ap (replace_at p (renamed deleted_flag)) all2)
              ∙ first-replaced_again test (renamed deleted_flag) (λ _. new) p
                  (replace_at p (renamed deleted_flag) (entries (dir_of T v st)))
                  (matches-deleted T v st name)
              ∙ first-replaced_again test (renamed deleted_flag) (renamed deleted_flag) p
                  (entries (dir_of T v st)) (matches-deleted T v st name)
              ∙ first-removed test (renamed deleted_flag) (matches-deleted T v st name) p e
                  (entries (dir_of T v st)) once f),
        )
