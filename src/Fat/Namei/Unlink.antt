-- ===== src/Fat/Namei/Unlink.antt =====
-- `vfat_unlink` of src/fs/fat/src/namei.c frees the chain of a file and takes its name away.
use userfs.Prelude.{
  ℕ, ◌<◌, ◌^◌, ◌≡◌, ◌≢◌, refl, true, false, Option, some, Outcome, ok, err, enoent, List, [], ◌∷◌,
  All, ap, ◌∙◌, sym, subst, ◌==◌, not, ◌&&◌, ne→==,
}
use userfs.Fat.Table.{FatTable}
use userfs.Fat.Alloc.{Fs, fat_free_clusters}
use userfs.Fat.Alloc.Scan.{IsEntry}
use userfs.Fat.Alloc.Free.{free_total}
use userfs.Fat.Alloc.FreeChain.{Freed, free-Chain}
use userfs.Fat.Chain.{Absent, Chain}
use userfs.Fat.Grow.Linked.{Linked}
use userfs.Fat.Bmap.{plain_bmap}
use userfs.Fat.DirEntry.{DirEntry, deleted_flag, fat_get_start}
use userfs.Fat.DirEntry.Bytes.{renamed}
use userfs.Fat.Inode.{Inode, fat_fill_inode}
use userfs.Fat.Dir.{phys_of}
use userfs.Fat.Dir.Entries.{entries}
use userfs.Fat.Dir.Scan.{Slot, first, count}
use userfs.Fat.Dir.Remove.Update.{replace_at}
use userfs.Fat.Dir.Located.{IsDir, first-Has}
use userfs.Fat.Dir.Edit.{slot_at, remove_lem, first-removed}
use userfs.Fat.Dir.View.{view_end}
use userfs.Fat.Dir.SameMap.{same_entries, Agrees, same_root, same_chain}
use userfs.Fat.Namei.{
  Names, Env, dir_of, with_fs, entry_removed, remove_entry, clusters_freed, remove_file,
  vfat_unlink, vfat_lookup,
}
use userfs.Fat.Namei.Search.{
  matches, built_inode, after_build, with_found-first, matches-deleted, vfat_lookup-none,
}

module _ (T : FatTable) (v : Env T) where
  open v use {sb, is_root, lower, can_alloc}

  -- The directory is the fixed root, or lies in a chain that has no cluster of the list.
  pub data Apart (st : Names T) (xs : List ℕ) : Type 0 where
    fixed : (not (sb.fat_bits == 32) && is_root) ≡ true → Apart st xs
    chained :
        (ys : List ℕ)
        → (not (sb.fat_bits == 32) && is_root) ≡ false
        → Linked T st.dir.fs.image st.dir.node.i_start ys
        → All (λ y. Absent T y xs) (st.dir.node.i_start ∷ ys)
        → Apart st xs

  one_agrees :
      (fs fs' : Fs T) (xs : List ℕ) (x : ℕ)
      → T.IsReady fs.image
      → T.IsReady fs'.image
      → Freed T fs xs fs'
      → IsEntry T x
      → Absent T x xs
      → T.read fs'.image x ≡ T.read fs.image x
  one_agrees fs fs' xs x ready ready' f e a =
      T.read_valid fs'.image x ready' e.0 e.1
      ∙ ap ok (f.others_kept x e a)
      ∙ sym (T.read_valid fs.image x ready e.0 e.1)

  agrees :
      (fs fs' : Fs T) (xs : List ℕ) (x : ℕ) (ys : List ℕ) (ready : T.IsReady fs.image)
      → T.IsReady fs'.image
      → Freed T fs xs fs'
      → Linked T fs.image x ys
      → All (λ y. Absent T y xs) (x ∷ ys)
      → Agrees T fs.image fs'.image v.memory v.limit sb ready (x ∷ ys)
  agrees fs fs' xs x [] ready ready' f (e, m) (a, b) =
      (one_agrees fs fs' xs x ready ready' f e a, tt)
  agrees fs fs' xs x (y ∷ ys) ready ready' f (e, once, g, l) (a, b) =
      (one_agrees fs fs' xs x ready ready' f e a, agrees fs fs' xs y ys ready ready' f l b)

  -- The sectors of the directory lie where they lay.
  same_map :
      (st : Names T) (fs' : Fs T) (xs : List ℕ) (i : ℕ)
      → T.IsReady st.dir.fs.image
      → T.IsReady fs'.image
      → Freed T st.dir.fs xs fs'
      → Apart st xs
      → plain_bmap T fs'.image v.memory v.limit sb is_root st.dir.node.i_start i
        ≡ plain_bmap T st.dir.fs.image v.memory v.limit sb is_root st.dir.node.i_start i
  same_map st fs' xs i ready ready' f (fixed h) =
      same_root T st.dir.fs.image fs'.image v.memory v.limit sb ready is_root st.dir.node.i_start i
        h
  same_map st fs' xs i ready ready' f (chained ys h l a) =
      same_chain T st.dir.fs.image fs'.image v.memory v.limit sb ready is_root st.dir.node.i_start i
        ys h l (agrees st.dir.fs fs' xs st.dir.node.i_start ys ready ready' f l a)

  module _ (st : Names T) (fs' : Fs T)
      (same : (i : ℕ)
        → plain_bmap T fs'.image v.memory v.limit sb is_root st.dir.node.i_start i
          ≡ plain_bmap T st.dir.fs.image v.memory v.limit sb is_root st.dir.node.i_start i) where
    pub entries-with_fs : entries (dir_of T v (with_fs st fs')) ≡ entries (dir_of T v st)
    entries-with_fs =
        same_entries (dir_of T v st)
          (plain_bmap T fs'.image v.memory v.limit sb is_root st.dir.node.i_start)
          (view_end T sb v.memory v.limit is_root v.fill v.some_entry fs'.image st.dir.node.i_start)
          same

    pub IsDir-with_fs : IsDir (dir_of T v st) → IsDir (dir_of T v (with_fs st fs'))
    IsDir-with_fs dir = record {
      alone = λ i j q m n.
          dir.alone i j q (ap phys_of (sym (same i)) ∙ m) (ap phys_of (sym (same j)) ∙ n);
      whole = dir.whole;
    }

  -- What the removal of a name has done.
  pub record Unlinked (st : Names T) (name : List ℕ) (p : ℕ) (st' : Names T) : Type 0 where
    pub deleted :
        entries (dir_of T v st') ≡ replace_at p (renamed deleted_flag) (entries (dir_of T v st))
    pub gone : vfat_lookup T v st' name ≡ some (err enoent, st')

  removed_entry :
      (st : Names T) (name : List ℕ) (p : ℕ) (e : DirEntry)
      → IsDir (dir_of T v st)
      → first (matches T v st name) (entries (dir_of T v st)) ≡ some (p, e)
      → count (matches T v st name) (entries (dir_of T v st)) ≡ 1
      → (st' : Names T) × (remove_entry T v st (slot_at p e) ≡ (ok tt, st'))
        × (st'.dir.fs ≡ st.dir.fs)
        × Unlinked st name p st'
  unfolding remove_entry entry_removed
  removed_entry st name p e dir f once =
      let r =
        remove_lem (dir_of T v st) dir p e e
          (first-Has (matches T v st name) p e (entries (dir_of T v st)) f).0 in
      let st' = (remove_entry T v st (slot_at p e)).1 in
      (
        st',
        ap (λ o. (o, st')) r.reported,
        refl,
        record {
          deleted = r.after;
          gone = vfat_lookup-none T v st' name (
              ap (first (matches T v st name)) r.after
              ∙ first-removed (matches T v st name) (renamed deleted_flag)
                  (matches-deleted T v st name) p e (entries (dir_of T v st)) once f);
        },
      )

  freed_once :
      (fs : Fs T) (c : ℕ) (xs : List ℕ)
      → fs.free_clusters < 2 ^ 32
      → T.IsReady fs.image
      → Chain T fs.image c xs
      → (fs' : Fs T) × (fat_free_clusters T fs c ≡ some (ok tt, fs'))
        × Freed T fs xs fs'
        × T.IsReady fs'.image
  freed_once fs c xs small ready chain =
      let (fs', done, f) = free-Chain T fs c xs small ready chain in
      let (again, done', ready') = free_total T fs c ready in
      (fs', done, f, subst (λ z. T.IsReady z.image) (unique again fs' (sym done' ∙ done)) ready')
    where
      unique :
          (a b : Fs T)
          → ◌≡◌ {A = Option (Outcome (Unit {0}) × Fs T)} (some (ok tt, a)) (some (ok tt, b))
          → a ≡ b
      unique a b p = cc

  removed_file :
      (st : Names T) (s : Slot) (inode : Inode) (fs' : Fs T)
      → inode.node.i_start ≢ 0
      → fat_free_clusters T st.dir.fs inode.node.i_start ≡ some (ok tt, fs')
      → remove_file T v s inode st ≡ some (remove_entry T v (with_fs st fs') s)
  unfolding remove_file clusters_freed
  removed_file st s inode fs' nz done = rw (ne→== inode.node.i_start 0 nz, done) refl

  -- Where exactly one entry in use has the name, and its first cluster starts a chain that the
  -- directory does not use, `vfat_unlink` succeeds: every cluster of the chain is free and no other
  -- entry of the table has changed, the entry is deleted and all others are as they were, and a lookup
  -- of the name fails with ENOENT.
  pub vfat_unlink_lem :
      (st : Names T) (name : List ℕ) (p : ℕ) (e : DirEntry) (xs : List ℕ)
      → can_alloc ≡ true
      → IsDir (dir_of T v st)
      → T.IsReady st.dir.fs.image
      → st.dir.fs.free_clusters < 2 ^ 32
      → first (matches T v st name) (entries (dir_of T v st)) ≡ some (p, e)
      → count (matches T v st name) (entries (dir_of T v st)) ≡ 1
      → fat_get_start (sb.fat_bits == 32) e ≢ 0
      → Chain T st.dir.fs.image (fat_get_start (sb.fat_bits == 32) e) xs
      → Apart st xs
      → (st' : Names T) × (vfat_unlink T v st name ≡ some (ok tt, st'))
        × Freed T st.dir.fs xs st'.dir.fs
        × (entries (dir_of T v st') ≡ replace_at p (renamed deleted_flag) (entries (dir_of T v st)))
        × (vfat_lookup T v st' name ≡ some (err enoent, st'))
  unfolding vfat_unlink fat_fill_inode
  vfat_unlink_lem st name p e xs alloc dir ready small f once nz chain apart =
      let (fs', done, freed, ready') =
        freed_once st.dir.fs (fat_get_start (sb.fat_bits == 32) e) xs small ready chain in
      let same = λ (i : ℕ). same_map st fs' xs i ready ready' freed apart in
      let st1 = after_build T v st e p in
      let kept = entries-with_fs st fs' same in
      let (st', gone, table, u) =
        removed_entry (with_fs st1 fs') name p e (IsDir-with_fs st fs' same dir)
          (ap (first (matches T v st name)) kept ∙ f)
          (ap (count (matches T v st name)) kept ∙ once) in
      (
        st',
        with_found-first T v st name p e (remove_file T v) alloc f
            ∙ removed_file st1 (slot_at p e) (built_inode T v st e p) fs' nz done
            ∙ ap some gone,
        subst (λ z. Freed T st.dir.fs xs z) (sym table) freed,
        u.deleted ∙ ap (replace_at p (renamed deleted_flag)) kept,
        u.gone,
      )
