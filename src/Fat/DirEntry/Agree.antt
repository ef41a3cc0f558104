-- ===== src/Fat/DirEntry/Agree.antt =====
-- Bytes that agree give the same numbers and the same entry.
use userfs.Prelude.{ℕ, zero, suc, ◌+◌, ◌<◌, ◌≡◌, refl, arith, List, [], ◌∷◌, get_or, ◌∙◌, ap}
use userfs.Fat.Words.{load}
use userfs.Fat.DirEntry.{widths, bytes_at, load_fields, decode}

pub same_place : (bs : List ℕ) (i j : ℕ) → i ≡ j → get_or bs i 0 ≡ get_or bs j 0
same_place bs i j e = ap (λ z. get_or bs z 0) e

pub after_first : (x : ℕ) (xs : List ℕ) (k : ℕ) → get_or (x ∷ xs) (1 + k) 0 ≡ get_or xs (0 + k) 0
after_first x xs k =
    same_place (x ∷ xs) (1 + k) (suc k) (omega arith) ∙ same_place xs k (0 + k) (omega arith)

module _ (bs cs : List ℕ) where
  abbrev pub AgreeAt : ℕ → ℕ → ℕ → Type 0
  AgreeAt n i j = (k : ℕ) → k < n → get_or bs (i + k) 0 ≡ get_or cs (j + k) 0

  pub shifted : (n w i j : ℕ) → AgreeAt (w + n) i j → AgreeAt n (i + w) (j + w)
  shifted n w i j same k h =
      ap (λ z. get_or bs z 0) (omega arith)
      ∙ same (w + k) (omega arith)
      ∙ ap (λ z. get_or cs z 0) (omega arith)

  first_same : (n i j : ℕ) → AgreeAt (suc n) i j → get_or bs i 0 ≡ get_or cs j 0
  first_same n i j same =
      ap (λ z. get_or bs z 0) (omega arith)
      ∙ same 0 (omega arith)
      ∙ ap (λ z. get_or cs z 0) (omega arith)

  tail_same : (n i j : ℕ) → AgreeAt (suc n) i j → AgreeAt n (i + 1) (j + 1)
  tail_same n i j same = shifted n 1 i j (λ k h. same k (omega arith))

  pub bytes_at_same : (n i j : ℕ) → AgreeAt n i j → bytes_at n bs i ≡ bytes_at n cs j
  unfolding bytes_at
  bytes_at_same zero i j same = refl
  bytes_at_same (suc n) i j same =
      rw (first_same n i j same, bytes_at_same n (i + 1) (j + 1) (tail_same n i j same)) refl

  pub load_shift : (n i j : ℕ) → AgreeAt n i j → load n bs i ≡ load n cs j
  unfolding load
  load_shift zero i j same = refl
  load_shift (suc n) i j same =
      rw (first_same n i j same, load_shift n (i + 1) (j + 1) (tail_same n i j same)) refl

  unfoldable pub sum : List ℕ → ℕ
  sum [] = 0
  sum (w ∷ ws) = w + sum ws

  pub load_fields_same :
      (ws : List ℕ) (i j : ℕ) → AgreeAt (sum ws) i j → load_fields ws bs i ≡ load_fields ws cs j
  unfolding load_fields sum
  load_fields_same [] i j same = refl
  load_fields_same (w ∷ ws) i j same =
      rw
        (
          load_shift w i j (λ k h. same k (omega arith)),
          load_fields_same ws (i + w) (j + w) (shifted (sum ws) w i j same),
        )
        refl

  -- Entries at places whose 32 bytes agree are the same.
  pub decode_same : (i j : ℕ) → AgreeAt 32 i j → decode bs i ≡ decode cs j
  unfolding decode sum
  decode_same i j same =
      rw
        (
          bytes_at_same 11 i j (λ k h. same k (omega arith)),
          load_fields_same widths (i + 11) (j + 11) (shifted 21 11 i j same),
        )
        refl
