-- ===== src/Fat/Chain.antt =====
-- Chains of clusters in the file allocation table.
use userfs.Prelude.{ℕ, ◌≤◌, ◌<◌, ◌≡◌, ◌≢◌, ◌⊎◌, List, [], ◌∷◌, sym, subst}
use userfs.Fat.Table.{FatTable}
use userfs.Fat.Alloc.Scan.{IsEntry}

module _ (T : FatTable) where
  open T use {Image, max_cluster, get}

  -- `c` is no entry number, so the loop ends there.
  abbrev pub IsEnd : ℕ → Type 0
  IsEnd c = (c < 2) ⊎ (max_cluster ≤ c)

  -- A chain from `c`: each cluster's entry holds the next one, no cluster twice, and the last entry
  -- holds a number that ends the loop.
  abbrev pub Absent : ℕ → List ℕ → Type 0
  Absent c [] = Unit
  Absent c (x ∷ xs) = (c ≢ x) × Absent c xs

  abbrev pub Chain : Image → ℕ → List ℕ → Type 0
  Chain t c [] = IsEnd c
  Chain t c (x ∷ xs) = (c ≡ x) × IsEntry T x × Absent x xs × Chain t (get t x) xs

  -- Every cluster of a list is free.
  abbrev pub AllFree : Image → List ℕ → Type 0
  AllFree t [] = Unit
  AllFree t (x ∷ xs) = (get t x ≡ 0) × AllFree t xs

  -- A chain stays one when an entry outside it changes.
  pub Chain-kept :
      (t t' : Image) (x c : ℕ) (xs : List ℕ)
      → ((j : ℕ) → IsEntry T j → x ≢ j → get t' j ≡ get t j)
      → Absent x xs
      → Chain t c xs
      → Chain t' c xs
  Chain-kept t t' x c [] same a e = e
  Chain-kept t t' x c (y ∷ ys) same (ne, a) (e, entry, once, rest) = (
    e,
    entry,
    once,
    subst (λ n. Chain t' n ys) (sym (same y entry ne)) (Chain-kept t t' x (get t y) ys same a rest),
  )
