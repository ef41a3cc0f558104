-- ===== src/Fat/Dir/Loops.antt =====
-- The loops over the entries of a directory, src/fs/fat/src/dir.c, as runs over the list of the entries.
use userfs.Prelude.{
  ℕ, zero, suc, ◌+◌, ◌*◌, ◌≤◌, ◌<◌, ◌≡◌, refl, arith, Option, some, List, [], ◌∷◌, length, ap, ◌∙◌,
  drop, sym,
}
use userfs.Fat.DirEntry.{DirEntry, entry_size}
use userfs.Fat.Dir.{
  DirBlocks, Cursor, Step, go, stop, start, fat_get_entry, after_visit, with_entry, each_entry,
  for_entries, then_entry,
}
use userfs.Fat.Dir.Entries.{entries, entries-le}
use userfs.Fat.Dir.Next.{At, Got, at_end, got, get_At, start-At}

module _ (d : DirBlocks) where
  open d use {dir_per_block, sectors}

  -- A loop run on a list of entries.
  module _ {S R : Type 0} (visit : S → ℕ → DirEntry → Step S R) (finish : S → R) where
    unfoldable pub step_over : Step S R → (S → R) → R
    step_over (go s) rest = rest s
    step_over (stop r) rest = r

    unfoldable pub over : List (ℕ × DirEntry) → S → R
    over [] s = finish s
    over ((p, e) ∷ l) s = step_over (visit s (p + entry_size) e) (over l)

    each_entry_step :
        (l : List (ℕ × DirEntry)) (rest : Cursor d → S → Option R) (s : S)
        (r : Option (Option (DirEntry × Cursor d)))
        → Got d l r
        → ((c : Cursor d) (p : ℕ) (e : DirEntry) (l' : List (ℕ × DirEntry)) (s' : S)
            → l ≡ (p, e) ∷ l'
            → At d c l'
            → rest c s' ≡ some (over l' s'))
        → with_entry d visit finish s r rest ≡ some (over l s)
    unfolding with_entry after_visit over step_over
    each_entry_step l rest s r (at_end le re) later = rw (le, re) refl
    each_entry_step l rest s r (got p e c l' le re pe k) later =
        rw (le, re)
          (ap (λ q. after_visit d visit finish (visit s q e) (rest c)) pe
            ∙ visited (visit s (p + entry_size) e))
      where
        visited :
            (t : Step S R) → after_visit d visit finish t (rest c) ≡ some (step_over t (over l'))
        visited (go s') = later c p e l' s' le k
        visited (stop r') = refl

    each_entry_lem :
        (fuel : ℕ) (c : Cursor d) (l : List (ℕ × DirEntry)) (s : S)
        → length l < fuel
        → At d c l
        → each_entry d visit finish fuel c s ≡ some (over l s)
    unfolding each_entry
    each_entry_lem zero c l s h k = absurd (omega arith)
    each_entry_lem (suc fuel) c l s h k =
        each_entry_step l (each_entry d visit finish fuel) s (fat_get_entry d c) (get_At d c l k)
          (λ c' p e l' s' le k'. each_entry_lem fuel c' l' s' (shorter p e l' le) k')
      where
        shorter :
            (p : ℕ) (e : DirEntry) (l' : List (ℕ × DirEntry)) → l ≡ (p, e) ∷ l' → length l' < fuel
        shorter p e l' le = omega (arith, ap length le)

    pub for_entries-At :
        (c : Cursor d) (l : List (ℕ × DirEntry)) (s : S)
        → length l ≤ sectors * dir_per_block
        → At d c l
        → for_entries d visit finish c s ≡ some (over l s)
    unfolding for_entries
    for_entries-At c l s h k = each_entry_lem (suc (sectors * dir_per_block)) c l s (omega arith) k

    -- Every loop over the entries of a directory returns, and what it returns is the run of its body
    -- over the list of the entries of the mapped sectors, blocks that cannot be read left out.
    pub for_entries_lem :
        (s : S) → for_entries d visit finish (start d) s ≡ some (over (entries d) s)
    for_entries_lem s = for_entries-At (start d) (entries d) s (entries-le d) (start-At d)

  -- What runs after `fat_get_entry` was called once.
  then_entry_lem :
      {R : Type 0} (r : R) (f : List (ℕ × DirEntry) → R) (k : DirEntry → Cursor d → Option R)
      (c : Cursor d) (l : List (ℕ × DirEntry))
      → At d c l
      → length l ≤ sectors * dir_per_block
      → (l ≡ [] → r ≡ f [])
      → ((c' : Cursor d) (p : ℕ) (e : DirEntry) (l' : List (ℕ × DirEntry))
          → l ≡ (p, e) ∷ l'
          → At d c' l'
          → length l' ≤ sectors * dir_per_block
          → k e c' ≡ some (f l))
      → then_entry d r (fat_get_entry d c) k ≡ some (f l)
  unfolding then_entry
  then_entry_lem r f k c l at h base later = split (get_At d c l at)
    where
      split : Got d l (fat_get_entry d c) → then_entry d r (fat_get_entry d c) k ≡ some (f l)
      split (at_end le re) = rw re (ap some (base le ∙ ap f (sym le)))
      split (got p e c' l' le re pe k') =
          rw re (later c' p e l' le k' (omega (arith, ap length le)))

  -- A loop after two calls of `fat_get_entry`, as those past "." and "..".
  pub after_two_lem :
      {R : Type 0} (r : R) (f : List (ℕ × DirEntry) → R) (k : Cursor d → Option R)
      → r ≡ f []
      → ((c : Cursor d) (l : List (ℕ × DirEntry))
          → At d c l
          → length l ≤ sectors * dir_per_block
          → k c ≡ some (f l))
      → then_entry d r
          (fat_get_entry d (start d))
          (λ _ c. then_entry d r (fat_get_entry d c) (λ _ c'. k c'))
        ≡ some (f (drop 2 (entries d)))
  after_two_lem r f k base later =
      then_entry_lem r (λ l. f (drop 2 l))
        (λ _ c. then_entry d r (fat_get_entry d c) (λ _ c'. k c')) (start d) (entries d)
        (start-At d) (entries-le d) (λ e. base)
        (λ c p e l le at h.
          then_entry_lem r (λ l. f (drop 1 l)) (λ _ c'. k c') c l at h (λ e. base)
            (λ c' p' e' l' le' at' h'. later c' l' at' h' ∙ ap (λ q. some (f (drop 1 q))) (sym le'))
          ∙ ap (λ q. some (f (drop 2 q))) (sym le))
