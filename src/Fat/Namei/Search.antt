-- ===== src/Fat/Namei/Search.antt =====
-- What the calls of src/fs/fat/src/namei.c do with a name that is there, or is not.
use userfs.Prelude.{
  ℕ, ◌≡◌, refl, Bool, true, false, Option, none, some, Outcome, ok, err, enoent, List, ◌∷◌, ◌==◌,
}
use userfs.Fat.Table.{FatTable}
use userfs.Fat.DirEntry.{DirEntry, is_free, deleted_flag}
use userfs.Fat.DirEntry.Bytes.{renamed}
use userfs.Fat.Inode.{Inode, fat_alloc_inode, fat_fill_inode}
use userfs.Fat.Dir.Entries.{entries}
use userfs.Fat.Dir.Scan.{Slot, first}
use userfs.Fat.Dir.Search.Correct.{is_match}
use userfs.Fat.Dir.Add.Found.{search-first, search-none}
use userfs.Fat.Dir.Edit.{slot_at}
use userfs.Fat.Namei.{
  Names, Env, zeroed, dir_of, fat_attach, new_inode, build_with, fat_build_inode, built,
  found_entry, searched, with_found, vfat_lookup,
}

module _ (T : FatTable) (v : Env T) where
  open v use {sb, is_root, lower, options, can_alloc}

  -- The entries in use with a name.
  abbrev pub matches : Names T → List ℕ → DirEntry → Bool
  matches st name = is_match (dir_of T v st) lower name

  -- The inode that is built for an entry at a position, and what it leaves.
  abbrev pub built_inode : Names T → DirEntry → ℕ → Inode
  built_inode st e p =
      record (fat_fill_inode options (sb.fat_bits == 32) (fat_alloc_inode st.next_ino).0 e) {
        i_pos = p;
      }

  abbrev pub after_build : Names T → DirEntry → ℕ → Names T
  after_build st e p = record st {
    next_ino = (fat_alloc_inode st.next_ino).1;
    inodes = built_inode st e p ∷ st.inodes;
  }

  pub with_found-first :
      {R : Type 0} (st : Names T) (name : List ℕ) (p : ℕ) (e : DirEntry)
      (k : Slot → Inode → Names T → Option (Outcome R × Names T))
      → can_alloc ≡ true
      → first (matches st name) (entries (dir_of T v st)) ≡ some (p, e)
      → with_found T v st name k ≡ k (slot_at p e) (built_inode st e p) (after_build st e p)
  unfolding with_found searched found_entry built fat_build_inode build_with new_inode fat_attach
  with_found-first st name p e k alloc f =
      rw (search-first (dir_of T v st) lower name zeroed p e refl f, alloc) refl

  pub with_found-none :
      {R : Type 0} (st : Names T) (name : List ℕ)
      (k : Slot → Inode → Names T → Option (Outcome R × Names T))
      → first (matches st name) (entries (dir_of T v st)) ≡ none
      → with_found T v st name k ≡ some (err enoent, st)
  unfolding with_found searched
  with_found-none st name k f =
      let (s, e) = search-none (dir_of T v st) lower name zeroed refl f in rw e refl

  -- A deleted entry has no name.
  pub matches-deleted :
      (st : Names T) (name : List ℕ) (e : DirEntry)
      → matches st name (renamed deleted_flag e) ≡ false
  unfolding is_free
  matches-deleted st name e = refl

  pub vfat_lookup-none :
      (st : Names T) (name : List ℕ)
      → first (matches st name) (entries (dir_of T v st)) ≡ none
      → vfat_lookup T v st name ≡ some (err enoent, st)
  unfolding vfat_lookup
  vfat_lookup-none st name f = with_found-none st name (λ s inode st'. some (ok inode, st')) f

  pub vfat_lookup-first :
      (st : Names T) (name : List ℕ) (p : ℕ) (e : DirEntry)
      → can_alloc ≡ true
      → first (matches st name) (entries (dir_of T v st)) ≡ some (p, e)
      → vfat_lookup T v st name ≡ some (ok (built_inode st e p), after_build st e p)
  unfolding vfat_lookup
  vfat_lookup-first st name p e alloc f =
      with_found-first st name p e (λ s inode st'. some (ok inode, st')) alloc f
