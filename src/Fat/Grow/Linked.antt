-- ===== src/Fat/Grow/Linked.antt =====
-- Chains that end with an end mark, as lists of clusters.
use userfs.Prelude.{
  ℕ, zero, suc, ◌≤◌, ◌≡◌, ◌≢◌, refl, arith, none, some, ok, List, [], ◌∷◌, ◌++◌, get_elem?, sym, ap,
  ◌∙◌, ne→==, if_true, if_false, le→leb, lt→leb, leb, if◌then◌else◌,
}
use userfs.Fat.Table.{FatTable}
use userfs.Fat.Alloc.Scan.{IsEntry}
use userfs.Fat.Chain.{Absent}
use userfs.Fat.GetCluster.Reference.{next, after, at}

-- The last cluster of a chain that starts with `x`.
abbrev pub last : ℕ → List ℕ → ℕ
last x [] = x
last x (y ∷ ys) = last y ys

module _ (T : FatTable) where
  open T use {Image, IsReady, max_cluster, max_fat, get, put, read}

  -- The chain from `x` goes through `xs`, no cluster comes twice, and the last entry is an end mark.
  abbrev pub Linked : Image → ℕ → List ℕ → Type 0
  Linked t x [] = IsEntry T x × (max_fat ≤ get t x)
  Linked t x (y ∷ ys) = IsEntry T x × Absent T x (y ∷ ys) × (get t x ≡ y) × Linked t y ys

  pub Linked-IsEntry : (t : Image) (x : ℕ) (xs : List ℕ) → Linked t x xs → IsEntry T x
  Linked-IsEntry t x [] l = l.0
  Linked-IsEntry t x (y ∷ ys) l = l.0

  pub last-IsEntry : (t : Image) (x : ℕ) (xs : List ℕ) → Linked t x xs → IsEntry T (last x xs)
  last-IsEntry t x [] l = l.0
  last-IsEntry t x (y ∷ ys) (e, a, g, l) = last-IsEntry t y ys l

  pub last-mark : (t : Image) (x : ℕ) (ys : List ℕ) → Linked t x ys → max_fat ≤ get t (last x ys)
  last-mark t x [] (e, m) = m
  last-mark t x (y ∷ ys) (e, once, g, l) = last-mark t y ys l

  pub Absent-last : (x y : ℕ) (ys : List ℕ) → Absent T x (y ∷ ys) → x ≢ last y ys
  Absent-last x y [] (ne, a) = ne
  Absent-last x y (z ∷ zs) (ne, a) = Absent-last x z zs a

  pub Absent-append : (x n : ℕ) (xs : List ℕ) → Absent T x xs → x ≢ n → Absent T x (xs ++ n ∷ [])
  Absent-append x n [] a ne = (ne, tt)
  Absent-append x n (y ∷ ys) (e, a) ne = (e, Absent-append x n ys a ne)

  -- A change outside a chain leaves it a chain.
  pub Linked-kept :
      (t t' : Image) (n x : ℕ) (xs : List ℕ)
      → ((j : ℕ) → IsEntry T j → n ≢ j → get t' j ≡ get t j)
      → Absent T n (x ∷ xs)
      → Linked t x xs
      → Linked t' x xs
  Linked-kept t t' n x [] same (ne, a) (e, m) = (e, rw (same x e ne) m)
  Linked-kept t t' n x (y ∷ ys) same (ne, a) (e, once, g, l) =
      (e, once, same x e ne ∙ g, Linked-kept t t' n y ys same a l)

  -- The new cluster at the end of a chain, when the last entry holds its number.
  pub Linked-append :
      (t t' : Image) (n x : ℕ) (xs : List ℕ)
      → IsEntry T n
      → Absent T n (x ∷ xs)
      → ((j : ℕ) → IsEntry T j → last x xs ≢ j → get t' j ≡ get t j)
      → get t' (last x xs) ≡ n
      → max_fat ≤ get t n
      → Linked t x xs
      → Linked t' x (xs ++ n ∷ [])
  Linked-append t t' n x [] en (ne, a) same self mark (e, m) =
      (e, ((λ p. ne (sym p)), tt), self, (en, rw (same n en (λ p. ne (sym p))) mark))
  Linked-append t t' n x (y ∷ ys) en (ne, a) same self mark (e, once, g, l) = (
    e,
    Absent-append x n (y ∷ ys) once (λ p. ne (sym p)),
    same x e (λ p. Absent-last x y ys once (sym p)) ∙ g,
    Linked-append t t' n y ys en a same self mark l,
  )

  -- What the walk reads along a chain.
  next-entry : (t : Image) (limit v : ℕ) → IsEntry T v → next T t limit (ok v) ≡ some v
  unfolding next
  next-entry t limit v (lo, hi) =
      if_false none (if leb max_fat v then none else some v) (ne→== v 0 (λ p. omega arith))
      ∙ if_false none (some v) (lt→leb max_fat v (omega (arith, T.max_cluster-max_fat)))

  next-mark : (t : Image) (limit v : ℕ) → max_fat ≤ v → next T t limit (ok v) ≡ none
  unfolding next
  next-mark t limit v h =
      if_false none (if leb max_fat v then none else some v)
        (ne→== v 0 (λ p. omega (arith, T.max_cluster-max_fat, T.max_cluster_pos)))
      ∙ if_true none (some v) (le→leb max_fat v h)

  pub next-Linked :
      (t : Image) (limit x y : ℕ) (ys : List ℕ)
      → IsReady t
      → Linked t x (y ∷ ys)
      → next T t limit (read t x) ≡ some y
  next-Linked t limit x y ys ready (e, once, g, l) =
      ap (next T t limit) (T.read_valid t x ready e.0 e.1 ∙ ap ok g)
      ∙ next-entry t limit y (Linked-IsEntry t y ys l)

  pub next-last :
      (t : Image) (limit x : ℕ) → IsReady t → Linked t x [] → next T t limit (read t x) ≡ none
  next-last t limit x ready (e, m) =
      ap (next T t limit) (T.read_valid t x ready e.0 e.1) ∙ next-mark t limit (get t x) m

  after_place :
      (t : Image) (limit x : ℕ) (xs : List ℕ) (k : ℕ)
      → IsReady t
      → Linked t x xs
      → after T t limit (get_elem? (x ∷ xs) k) ≡ get_elem? (x ∷ xs) (suc k)
  unfolding after
  after_place t limit x [] zero ready l = next-last t limit x ready l
  after_place t limit x (y ∷ ys) zero ready l = next-Linked t limit x y ys ready l
  after_place t limit x [] (suc k) ready l = refl
  after_place t limit x (y ∷ ys) (suc k) ready (e, once, g, l) = after_place t limit y ys k ready l

  -- The clusters at the places of a chain are those of the list.
  pub at-Linked :
      (t : Image) (limit x : ℕ) (xs : List ℕ) (k : ℕ)
      → IsReady t
      → Linked t x xs
      → at T t limit x k ≡ get_elem? (x ∷ xs) k
  unfolding at
  at-Linked t limit x xs zero ready l = refl
  at-Linked t limit x xs (suc k) ready l =
      ap (after T t limit) (at-Linked t limit x xs k ready l) ∙ after_place t limit x xs k ready l
