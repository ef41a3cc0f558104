-- ===== src/Fat/Inode/Truncate.antt =====
-- Truncation of a file through `fat_setattr`.
use userfs.Prelude.{
  ℕ, ◌^◌, ◌<◌, ◌≡◌, refl, arith, false, some, ok, List, [], ◌∷◌, sym, ap, inr, ne→==, lt→ltb,
  le→ltb, subst, lt_cases, inl,
}
use userfs.Fat.Table.{FatTable}
use userfs.Fat.Alloc.{Fs}
use userfs.Fat.Alloc.FreeChain.{Freed, free-Chain}
use userfs.Fat.Chain.{Chain}
use userfs.Fat.Grow.Linked.{Linked, Linked-IsEntry}
use userfs.Fat.Inode.{
  Inode, emptied, freed_file, fat_free, drop_result, fat_truncate_blocks, with_size, fat_setattr,
}

module _ (T : FatTable) where
  open T use {IsReady, get}

  -- A chain with an end mark is one that the release follows.
  Linked-Chain : (t : T.Image) (x : ℕ) (xs : List ℕ) → Linked T t x xs → Chain T t x (x ∷ xs)
  Linked-Chain t x [] (e, m) = (refl, e, tt, inr (omega (arith, T.max_cluster-max_fat)))
  Linked-Chain t x (y ∷ ys) (e, once, g, l) =
      (refl, e, once, subst (λ n. Chain T t n (y ∷ ys)) (sym g) (Linked-Chain t y ys l))

  -- What `fat_free` makes of a file.
  free_file :
      (inode : Inode) (fs : Fs T) (xs : List ℕ)
      → fs.free_clusters < 2 ^ 32
      → IsReady fs.image
      → Linked T fs.image inode.node.i_start xs
      → (fs' : Fs T) × (fat_free T inode false fs ≡ some (ok tt, emptied T inode, fs'))
        × Freed T fs (inode.node.i_start ∷ xs) fs'
  unfolding fat_free freed_file
  free_file inode fs xs small ready chain =
      let (lo, hi) = Linked-IsEntry T fs.image inode.node.i_start xs chain in
      let (fs', done, freed) =
        free-Chain T fs inode.node.i_start (inode.node.i_start ∷ xs) small ready
          (Linked-Chain fs.image inode.node.i_start xs chain) in
      (
        fs',
        rw (ne→== inode.node.i_start 0 (λ p. omega arith)) (ap (freed_file T inode) done),
        freed,
      )

  truncated :
      (inode : Inode) (fs fs' : Fs T)
      → 0 < inode.i_size
      → fat_free T inode false fs ≡ some (ok tt, emptied T inode, fs')
      → fat_setattr T inode (some 0) fs ≡ some (emptied T inode, fs')
  unfolding fat_setattr fat_truncate_blocks drop_result with_size emptied
  truncated inode fs fs' pos done = rw (lt→ltb 0 inode.i_size pos, done) refl

  -- A file that is not empty and whose chain lies on the table is truncated to size 0 by
  -- `fat_setattr`: the call returns, every cluster of the chain is free, no other entry changes, the
  -- counter grows by the number of clusters, and the file has size 0, no blocks and no first cluster;
  -- but the runs of its chain stay cached.
  pub fat_setattr-truncates :
      (inode : Inode) (fs : Fs T) (xs : List ℕ)
      → 0 < inode.i_size
      → fs.free_clusters < 2 ^ 32
      → IsReady fs.image
      → Linked T fs.image inode.node.i_start xs
      → (inode' : Inode) × (fs' : Fs T) × (fat_setattr T inode (some 0) fs ≡ some (inode', fs'))
        × Freed T fs (inode.node.i_start ∷ xs) fs'
        × (inode'.i_size ≡ 0)
        × (inode'.node.i_start ≡ 0)
        × (inode'.node.i_blocks ≡ 0)
        × (inode'.node.runs ≡ inode.node.runs)
  unfolding emptied
  fat_setattr-truncates inode fs xs pos small ready chain =
      let (fs', done, freed) = free_file inode fs xs small ready chain in
      (emptied T inode, fs', truncated inode fs fs' pos done, freed, refl, refl, refl, refl)

  -- A change of the size to another size than 0 changes the size only: no cluster is taken or freed.
  pub fat_setattr-sizes :
      (inode : Inode) (fs : Fs T) (size : ℕ)
      → 0 < size
      → fat_setattr T inode (some size) fs ≡ some (record inode { i_size = size }, fs)
  unfolding fat_setattr fat_truncate_blocks with_size
  fat_setattr-sizes inode fs size pos = elim (lt_cases size inode.i_size) [
    | inl lt ↦ rw (lt→ltb size inode.i_size lt, ne→== size 0 (λ p. omega arith)) refl
    | inr ge ↦ rw (le→ltb size inode.i_size ge) refl
  ]
