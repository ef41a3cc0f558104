-- ===== src/Fat/Namei/Make/Create.antt =====
-- `vfat_create` of src/fs/fat/src/namei.c makes a file that `vfat_lookup` finds.
use userfs.Prelude.{
  ℕ, ◌≤◌, ◌<◌, ◌^◌, ◌≡◌, ◌≢◌, ◌⊎◌, refl, true, none, some, ok, err, enospc, List, [], ◌∷◌, ap, ◌∙◌,
  sym, inl, inr, arith,
}
use userfs.Fat.Table.{FatTable}
use userfs.Fat.Alloc.{Fs, fat_alloc_clusters, take_cluster}
use userfs.Fat.Alloc.Scan.{IsEntry, IsFree}
use userfs.Fat.Alloc.Correct.{alloc_finds, take_cluster_lem}
use userfs.Fat.Chain.{Absent}
use userfs.Fat.Grow.Linked.{Linked}
use userfs.Fat.Grow.Correct.{free-Absent}
use userfs.Fat.Bmap.{plain_bmap}
use userfs.Fat.Words.{Blocks}
use userfs.Fat.ShortName.{vfat_build_sfn}
use userfs.Fat.DirEntry.{DirEntry, is_free}
use userfs.Fat.Inode.{Inode, fat_alloc_inode}
use userfs.Fat.Dir.Entries.{entries}
use userfs.Fat.Dir.Scan.{first}
use userfs.Fat.Dir.Remove.Update.{replace_at}
use userfs.Fat.Dir.Located.{IsDir, first-Has}
use userfs.Fat.Dir.SameMap.{Agrees, same_root, same_chain}
use userfs.Fat.Dir.Add.Found.{fat_add_entries_lem, first-replace_at}
use userfs.Fat.Namei.{
  Names, Env, zeroed, dir_of, with_fs, new_entry, attr_arch, new_inode, fat_attach, vfat_lookup,
}
use userfs.Fat.Namei.Make.{
  file_inode, file_added, add_one, first_cluster_taken, with_inode, alloc_inode, vfat_create,
}
use userfs.Fat.Namei.NewEntry.{IsShortName, name_of, new_entry-IsDirEntry, new_entry-is_match}
use userfs.Fat.Namei.Search.{matches, built_inode, after_build, vfat_lookup-first}
use userfs.Fat.Namei.Unlink.{Apart, fixed, chained, entries-with_fs, IsDir-with_fs}

module _ (T : FatTable) (v : Env T) where
  open v use {sb, is_root, lower, upper, can_alloc, now}

  Agrees-taken :
      (fs : Fs T) (c x : ℕ) (ys : List ℕ) (ready : T.IsReady fs.image)
      → IsFree T fs.image c
      → Linked T fs.image x ys
      → Absent T c (x ∷ ys)
      → Agrees T fs.image (take_cluster T fs c).image v.memory v.limit sb ready (x ∷ ys)
  Agrees-taken fs c x ys ready free l a =
      let (ready', mark, same, counted) = take_cluster_lem T fs c ready free in
      along x ys
        (λ j e ne.
          T.read_valid (take_cluster T fs c).image j ready' e.0 e.1
          ∙ ap ok (same j e ne)
          ∙ sym (T.read_valid fs.image j ready e.0 e.1))
        l a
    where
      along :
          (z : ℕ) (zs : List ℕ)
          → ((j : ℕ)
              → IsEntry T j
              → c ≢ j
              → T.read (take_cluster T fs c).image j ≡ T.read fs.image j)
          → Linked T fs.image z zs
          → Absent T c (z ∷ zs)
          → Agrees T fs.image (take_cluster T fs c).image v.memory v.limit sb ready (z ∷ zs)
      along z [] same (e, m) (ne, b) = (same z e ne, tt)
      along z (w ∷ ws) same (e, once, g, k) (ne, b) = (same z e ne, along w ws same k b)

  -- A free cluster that is taken leaves the sectors of the directory where they lay.
  taken_map :
      (st : Names T) (c i : ℕ)
      → T.IsReady st.dir.fs.image
      → IsFree T st.dir.fs.image c
      → Apart T v st []
      → plain_bmap T
          (take_cluster T st.dir.fs c).image
          v.memory
          v.limit
          sb
          is_root
          st.dir.node.i_start
          i
        ≡ plain_bmap T st.dir.fs.image v.memory v.limit sb is_root st.dir.node.i_start i
  taken_map st c i ready free (fixed h) =
      same_root T st.dir.fs.image (take_cluster T st.dir.fs c).image v.memory v.limit sb ready
        is_root st.dir.node.i_start i h
  taken_map st c i ready free (chained ys h l a) =
      same_chain T st.dir.fs.image (take_cluster T st.dir.fs c).image v.memory v.limit sb ready
        is_root st.dir.node.i_start i ys h l
        (Agrees-taken st.dir.fs c st.dir.node.i_start ys ready free l (
          free-Absent T v.memory v.limit sb.cluster_bits v.synced st.dir.fs.image c
            st.dir.node.i_start ys free.2 l))

  -- The state in which the cluster is taken.
  abbrev numbered : Names T → Names T
  numbered st = record st { next_ino = (fat_alloc_inode st.next_ino).1 }

  abbrev pub entry_for : List ℕ → ℕ → DirEntry
  entry_for name c = new_entry (vfat_build_sfn upper name) attr_arch now c

  -- The inode that `vfat_create` returns, for its cluster and the position of its entry.
  abbrev pub made_inode : Names T → ℕ → ℕ → Inode
  made_inode st c p = record (file_inode T v (fat_alloc_inode st.next_ino).0 c p) { i_pos = p }

  abbrev after_create : Names T → ℕ → ℕ → Blocks → Names T
  after_create st c p blocks = record {
    dir = record st.dir { fs = take_cluster T st.dir.fs c; blocks = blocks };
    next_ino = (fat_alloc_inode st.next_ino).1;
    inodes = made_inode st c p ∷ st.inodes;
  }

  created :
      (st : Names T) (name : List ℕ) (c p : ℕ) (blocks : Blocks)
      → can_alloc ≡ true
      → fat_alloc_clusters T st.dir.fs 1 ≡ some (ok c, take_cluster T st.dir.fs c)
      → add_one T v (with_fs (numbered st) (take_cluster T st.dir.fs c)) zeroed (entry_for name c)
        ≡ some (
          ok tt,
          record { i_pos = p; slot_off = p; nr_slots = 1; de = some (entry_for name c) },
          record st.dir { fs = take_cluster T st.dir.fs c; blocks = blocks },
        )
      → vfat_create T v st name ≡ some (ok (made_inode st c p), after_create st c p blocks)
  unfolding vfat_create with_inode alloc_inode new_inode first_cluster_taken file_added fat_attach
      add_one file_inode take_cluster
  created st name c p blocks alloc taken add = rw (alloc, taken, add) refl

  refused :
      (st : Names T) (name : List ℕ)
      → can_alloc ≡ true
      → fat_alloc_clusters T st.dir.fs 1 ≡ some (err enospc, st.dir.fs)
      → vfat_create T v st name ≡ some (err enospc, numbered st)
  unfolding vfat_create with_inode alloc_inode new_inode first_cluster_taken
  refused st name alloc taken = rw (alloc, taken) refl

  -- In a directory with a free entry, where no entry has the name, which is of 8.3 form, and from a hint
  -- inside the table, `vfat_create` succeeds where a cluster is free: the inode starts at a cluster that
  -- was free, the table differs by that cluster, the first free entry is the new one and all others
  -- are as they were, and a lookup of the name gives the inode of the new entry. Where no cluster is
  -- free it fails with ENOSPC, and the directory is unchanged.
  pub vfat_create_lem :
      (st : Names T) (head : ℕ) (base : List ℕ) (x : ℕ) (ext : List ℕ) (p : ℕ) (old : DirEntry)
      → can_alloc ≡ true
      → IsShortName upper head base x ext
      → now.time < 2 ^ 16
      → now.date < 2 ^ 16
      → IsDir (dir_of T v st)
      → T.IsReady st.dir.fs.image
      → 2 ≤ st.dir.fs.prev_free
      → st.dir.fs.prev_free < T.max_cluster
      → Apart T v st []
      → first is_free (entries (dir_of T v st)) ≡ some (p, old)
      → first (matches T v st (name_of head base x ext)) (entries (dir_of T v st)) ≡ none
      → ((c : ℕ) × (st' : Names T) × IsFree T st.dir.fs.image c
          × (vfat_create T v st (name_of head base x ext) ≡ some (ok (made_inode st c p), st'))
          × (st'.dir.fs ≡ take_cluster T st.dir.fs c)
          × (entries (dir_of T v st')
              ≡ replace_at p (λ _. entry_for (name_of head base x ext) c) (entries (dir_of T v st)))
          × (vfat_lookup T v st' (name_of head base x ext)
              ≡ some (
                ok (built_inode T v st' (entry_for (name_of head base x ext) c) p),
                after_build T v st' (entry_for (name_of head base x ext) c) p,
              )))
        ⊎ (((j : ℕ) → ¬ IsFree T st.dir.fs.image j)
            × (vfat_create T v st (name_of head base x ext)
                ≡ some (err enospc, record st { next_ino = (fat_alloc_inode st.next_ino).1 })))
  unfolding add_one
  vfat_create_lem st head base x ext p old alloc short ht hd dir ready lo hi apart slot fresh =
      elim (alloc_finds T st.dir.fs ready lo hi) [
        | inr (none_free, e) ↦ inr (none_free, refused st (name_of head base x ext) alloc e)
        | inl (c, free, taken) ↦
            let name = name_of head base x ext in
            let fs1 = take_cluster T st.dir.fs c in
            let same = λ (i : ℕ). taken_map st c i ready free apart in
            let kept = entries-with_fs T v st fs1 same in
            let slot' = ap (first is_free) kept ∙ slot in
            let (blocks, add, after, still) =
              fat_add_entries_lem T sb v.memory v.limit v.wrote v.synced v.got is_root v.fill
                v.some_entry (record st.dir { fs = fs1 }) zeroed p old (entry_for name c)
                (IsDir-with_fs T v st fs1 same dir)
                (new_entry-IsDirEntry upper lower head base x ext short attr_arch now c
                  (omega arith) ht hd)
                slot' in
            let st' = after_create st c p blocks in
            let after' = after ∙ ap (replace_at p (λ _. entry_for name c)) kept in
            inl (
              c,
              st',
              free,
              created st name c p blocks alloc taken add,
              refl,
              after',
              vfat_lookup-first T v st' name p (entry_for name c) alloc (
                  ap (first (matches T v st name)) after'
                  ∙ first-replace_at (matches T v st name) p old (entry_for name c)
                      (entries (dir_of T v st)) fresh
                      (new_entry-is_match upper lower head base x ext short attr_arch now c
                        (dir_of T v st) refl)
                      (first-Has is_free p old (entries (dir_of T v st)) slot).0),
            )
      ]
