-- ===== src/Fat/Mount/FreeCount.antt =====
-- The scan for free clusters and the FSINFO hint of src/fs/fat/src/fat_fs.c.
use userfs.Prelude.{
  ℕ, zero, suc, ◌+◌, ◌-◌, ◌^◌, ◌≤◌, ◌<◌, ◌≡◌, refl, arith, true, false, err, eio, some, List, ◌==◌,
  if◌then◌else◌, ◌∙◌, if_true, if_false, inl, inr, Bool-cases,
}
use userfs.Fat.Table.{FatTable, fat_ent_free}
use userfs.Fat.Words.{load}
use userfs.Fat.Count.{zeros, zeros-le}
use userfs.Fat.Alloc.{Fs, fat_alloc_clusters}
use userfs.Fat.Alloc.Correct.{alloc_bad_hint}
use userfs.Fat.Mount.{SbInfo, count_one, count_from, count_free, read_fsinfo}

module _ (T : FatTable) (t : T.Image) where
  -- The entries from 2 on, counted from the other end.
  count_last :
      (n e : ℕ) → count_from T t (suc n) e ≡ count_from T t n e + count_one T t (T.read t (e + n))
  unfolding count_from
  count_last zero e = let z : e + 0 ≡ e = omega arith in rw z (omega arith)
  count_last (suc n) e =
      let m : e + 1 + n ≡ e + suc n = omega arith in rw⁻¹ m (omega (arith, count_last n (e + 1)))

  one_read :
      (e : ℕ)
      → T.IsReady t
      → 2 ≤ e
      → e < T.max_cluster
      → count_one T t (T.read t e) ≡ (if T.get t e == fat_ent_free then 1 else 0)
  unfolding count_one
  one_read e ready lo hi = rw (T.read_valid t e ready lo hi) refl

  count_zeros :
      (n : ℕ) → T.IsReady t → n + 2 ≤ T.max_cluster → count_from T t n 2 ≡ zeros (T.get t) n
  unfolding zeros count_from
  count_zeros zero ready h = refl
  count_zeros (suc n) ready h = elim (Bool-cases (T.get t (n + 2) == 0)) [
    | inl free ↦
        rw (free) (omega (arith, count_last n 2, one free, count_zeros n ready (omega arith)))
    | inr used ↦
        rw (used) (omega (arith, count_last n 2, none_free used, count_zeros n ready (omega arith)))
  ]
    where
      swap : 2 + n ≡ n + 2
      swap = omega arith

      here : count_one T t (T.read t (2 + n)) ≡ (if T.get t (n + 2) == fat_ent_free then 1 else 0)
      here = rw swap (one_read (n + 2) ready (omega arith) (omega arith))

      one : (T.get t (n + 2) == 0) ≡ true → count_one T t (T.read t (2 + n)) ≡ 1
      one e = here ∙ if_true 1 0 e

      none_free : (T.get t (n + 2) == 0) ≡ false → count_one T t (T.read t (2 + n)) ≡ 0
      none_free e = here ∙ if_false 1 0 e

  -- When FSINFO gave no count, the scan of a readable table counts exactly its free entries.
  pub count_free_lem :
      (sb : SbInfo)
      → T.IsReady t
      → sb.max_cluster ≡ T.max_cluster
      → sb.free_clusters ≡ 2 ^ 32 - 1
      → (count_free T t sb).free_clusters ≡ zeros (T.get t) (T.max_cluster - 2)
  unfolding count_free
  count_free_lem sb ready same unknown =
      rw (unknown, same, count_zeros (T.max_cluster - 2) ready (omega (arith, T.max_cluster_pos)))
        (omega (arith, zeros-le (T.get t) (T.max_cluster - 2), T.max_cluster-int))

  -- An FSINFO sector with 0xffffffff for the next free cluster, which says that it is unknown, gives a
  -- hint with which every allocation fails with EIO and changes nothing.
  pub fsinfo_unknown :
      (sb : SbInfo) (info : List ℕ) (free : ℕ)
      → load 4 info 492 ≡ 0xffff_ffff
      → let fs : Fs T = record {
        image = t;
        prev_free = (read_fsinfo sb info).prev_free;
        free_clusters = free;
      } in
        fat_alloc_clusters T fs 1 ≡ some (err eio, fs)
  unfolding read_fsinfo
  fsinfo_unknown sb info free e = rw e (
      alloc_bad_hint T (record { image = t; prev_free = 0xffff_ffff; free_clusters = free })
        (inl (omega arith)))
