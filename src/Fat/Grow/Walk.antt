-- ===== src/Fat/Grow/Walk.antt =====
-- The walk to the end of a chain, and the runs of the cache on a chain that grows.
use userfs.Prelude.{
  ℕ, zero, suc, ◌+◌, ◌≤◌, ◌<◌, ◌≡◌, arith, Option, some, Outcome, ok, List, [], ◌∷◌, ◌++◌,
  get_elem?, length, All, sym, ap, ◌∙◌, ne→==, if_false, le→ltb, lt→ltb, le→leb, err, eio, Bool,
}
use userfs.Fat.Table.{FatTable}
use userfs.Fat.GetCluster.{Found}
use userfs.Fat.ClusterCache.{Run}
use userfs.Fat.GetCluster.Reference.{at, plain_end, plain_visit, plain_walk, plain_get_cluster}
use userfs.Fat.GetCluster.Sound.{IsRun}
use userfs.Fat.Grow.Linked.{last, Linked, Linked-IsEntry, next-Linked, next-last, at-Linked}

-- Where a walk that succeeds ends.
abbrev pub end_at : Outcome ℕ → ℕ → ℕ → Option Found
end_at r k x = some (record { nr = r; fclus = k; dclus = x })

module _ (T : FatTable) (t : T.Image) (limit : ℕ) (ready : T.IsReady t) where
  open T use {max_fat, get, read}

  -- Past its end, the walk along a chain stops at the last cluster with the end mark.
  walk_end :
      (xs : List ℕ) (x fuel cluster fclus : ℕ)
      → Linked T t x xs
      → length xs < fuel
      → fclus + length xs < cluster
      → fclus + length xs ≤ limit
      → plain_walk T t limit fuel cluster fclus x
        ≡ end_at (ok (get t (last x xs))) (fclus + length xs) (last x xs)
  unfolding plain_walk plain_visit plain_end
  walk_end xs x zero cluster fclus l f c m = absurd (omega arith)
  walk_end [] x (suc fuel) cluster fclus (e, mark) f c m =
      rw
        (
          lt→ltb fclus cluster (omega arith),
          le→ltb limit fclus (omega arith),
          next-last T t limit x ready (e, mark),
          T.read_valid t x ready e.0 e.1,
        )
        (ap2 (ok (get t x))
          (if_false (err eio) (ok (get t x))
            (ne→== (get t x) 0 (λ p. omega (arith, T.max_cluster-max_fat, T.max_cluster_pos))))
          (omega arith))
    where
      ap2 :
          (r : Outcome ℕ) {q : Outcome ℕ} {k : ℕ}
          → q ≡ r
          → fclus ≡ k
          → end_at q fclus x ≡ end_at r k x
      ap2 r p e = cc
  walk_end (y ∷ ys) x (suc fuel) cluster fclus l f c m =
      rw
        (
          lt→ltb fclus cluster (omega arith),
          le→ltb limit fclus (omega arith),
          next-Linked T t limit x y ys ready l,
        )
        (walk_end ys y fuel cluster (fclus + 1) l.3 (omega arith) (omega arith) (omega arith)
          ∙ ap (λ k. end_at (ok (get t (last y ys))) k (last y ys)) (omega arith))

  -- `fat_get_cluster` at a cluster past the end, with nothing cached.
  pub plain_end-Linked :
      (x : ℕ) (xs : List ℕ) (cluster : ℕ)
      → Linked T t x xs
      → length xs < cluster
      → length xs ≤ limit
      → plain_get_cluster T t limit x cluster
        ≡ end_at (ok (get t (last x xs))) (length xs) (last x xs)
  unfolding plain_get_cluster
  plain_end-Linked x xs cluster l c m =
      let (lo, hi) = Linked-IsEntry T t x xs l in
      rw
        (
          ne→== x 0 (λ p. omega arith),
          le→leb 2 x lo,
          lt→ltb x T.max_cluster hi,
          ne→== cluster 0 (λ p. omega arith),
        )
        (walk_end xs x (limit + 2) cluster 0 l (omega arith) (omega arith) (omega arith)
          ∙ ap (λ k. end_at (ok (get t (last x xs))) k (last x xs)) (omega arith))

get_elem?-append :
    (xs ys : List ℕ) (k d : ℕ) → get_elem? xs k ≡ some d → get_elem? (xs ++ ys) k ≡ some d
get_elem?-append [] ys k d e = cc
get_elem?-append (x ∷ xs) ys zero d e = e
get_elem?-append (x ∷ xs) ys (suc k) d e = get_elem?-append xs ys k d e

-- The runs of a cache stay on the chain of a file when the chain keeps its places or grows.
module _ (T : FatTable) (t t' : T.Image) (memory : Bool) (limit x : ℕ) (xs ys : List ℕ)
    (ready : T.IsReady t) (ready' : T.IsReady t') (l : Linked T t x xs)
    (l' : Linked T t' x (xs ++ ys)) where
  IsRun-grown : (r : Run) → IsRun T t memory limit x r → IsRun T t' memory limit x r
  IsRun-grown r (pos, short, on) = (pos, short, λ j h. place j (on j h))
    where
      place :
          (j : ℕ)
          → at T t limit x (r.fcluster + j) ≡ some (r.dcluster + j)
          → at T t' limit x (r.fcluster + j) ≡ some (r.dcluster + j)
      place j e =
          at-Linked T t' limit x (xs ++ ys) (r.fcluster + j) ready' l'
          ∙ get_elem?-append (x ∷ xs) ys (r.fcluster + j) (r.dcluster + j)
              (sym (at-Linked T t limit x xs (r.fcluster + j) ready l) ∙ e)

  pub runs-grown :
      (rs : List Run) → All (IsRun T t memory limit x) rs → All (IsRun T t' memory limit x) rs
  runs-grown [] h = tt
  runs-grown (r ∷ rs) (p, h) = (IsRun-grown r p, runs-grown rs h)
