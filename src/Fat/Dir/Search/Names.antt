-- ===== src/Fat/Dir/Search/Names.antt =====
-- The comparison of names is equality up to case.
use userfs.Prelude.{
  ℕ, suc, ◌≡◌, ◌≢◌, refl, arith, true, false, List, [], ◌∷◌, map, length, All, ap, ==_self, ne→==,
  inl, inr, sym, ◌∙◌, ◌↔◌, eq_cases,
}
use userfs.Fat.Dir.Scan.{c_string}
use userfs.Fat.Dir.Search.{same_case, is_named, short_name}
use userfs.Fat.DirEntry.{DirEntry}
use userfs.Fat.ShortName.{fat_parse_short}

abbrev pub NonZero : ℕ → Type 0
NonZero c = c ≢ 0

c_string-NonZero : (l : List ℕ) → All NonZero (c_string l)
unfolding c_string
c_string-NonZero [] = tt
c_string-NonZero (c ∷ l) = elim (eq_cases c 0) [
  | inl e ↦ rw e tt
  | inr ne ↦ rw (ne→== c 0 ne) ((ne, c_string-NonZero l))
]

module _ (lower : ℕ → ℕ) where
  same_step :
      (n x y : ℕ) (a b : List ℕ)
      → lower x ≡ lower y
      → x ≢ 0
      → same_case lower (suc n) (x ∷ a) (y ∷ b) ≡ same_case lower n a b
  unfolding same_case
  same_step n x y a b p nz = rw (p, ==_self (lower y), ne→== x 0 nz) refl

  other_step :
      (n x y : ℕ) (a b : List ℕ)
      → lower x ≢ lower y
      → same_case lower (suc n) (x ∷ a) (y ∷ b) ≡ false
  unfolding same_case
  other_step n x y a b ne = rw (ne→== (lower x) (lower y) ne) refl

  equal-lengths : (a b : List ℕ) → map lower a ≡ map lower b → length a ≡ length b
  equal-lengths [] [] e = refl
  equal-lengths [] (y ∷ b) e = cc
  equal-lengths (x ∷ a) [] e = cc
  equal-lengths (x ∷ a) (y ∷ b) e = ap suc (equal-lengths a b (tails e))
    where
      tails : {u v : ℕ} {us vs : List ℕ} → ◌≡◌ {A = List ℕ} (u ∷ us) (v ∷ vs) → us ≡ vs
      tails q = cc

  same_case_iff :
      (a b : List ℕ)
      → All NonZero a
      → length a ≡ length b
      → (same_case lower (length b) a b ≡ true) ↔ (map lower a ≡ map lower b)
  unfolding same_case
  same_case_iff [] [] h e = ((λ s. refl), (λ s. refl))
  same_case_iff [] (y ∷ b) h e = absurd (omega arith)
  same_case_iff (x ∷ a) [] h e = absurd (omega arith)
  same_case_iff (x ∷ a) (y ∷ b) (nz, h) e = elim (eq_cases (lower x) (lower y)) [
    | inl p ↦
        let (there, back) = same_case_iff a b h (omega arith) in
        (
          (λ s. cons p (there (sym (same_step (length b) x y a b p nz) ∙ s))),
          (λ q. same_step (length b) x y a b p nz ∙ back (uncons q).1),
        )
    | inr ne ↦ ((λ s. cc (s, other_step (length b) x y a b ne)), (λ q. absurd (ne (uncons q).0)))
  ]
    where
      cons : {u v : ℕ} {us vs : List ℕ} → u ≡ v → us ≡ vs → ◌≡◌ {A = List ℕ} (u ∷ us) (v ∷ vs)
      cons p q = cc

      uncons : {u v : ℕ} {us vs : List ℕ} → ◌≡◌ {A = List ℕ} (u ∷ us) (v ∷ vs) → (u ≡ v) × (us ≡ vs)
      uncons q = (cc, cc)

  -- The test of `fat_search_long` holds for the entries whose short name, up to the first zero byte, is
  -- the name up to the case of the letters.
  pub is_named_iff :
      (name : List ℕ) (de : DirEntry)
      → (is_named lower name de ≡ true) ↔ (map lower (short_name de) ≡ map lower name)
  unfolding is_named
  is_named_iff name de = elim (eq_cases (length (short_name de)) (length name)) [
    | inl e ↦
        let (there, back) =
          same_case_iff (short_name de) name (c_string-NonZero (fat_parse_short de.name)) e in
        ((λ s. there (both s)), (λ q. rw (back q, e, ==_self (length name)) refl))
    | inr ne ↦ (
      (λ s. absurd (ne (length_eq s))),
      (λ q. absurd (ne (equal-lengths (short_name de) name q))),
    )
  ]
    where
      both :
          is_named lower name de ≡ true → same_case lower (length name) (short_name de) name ≡ true
      both s = ground arith

      length_eq : is_named lower name de ≡ true → length (short_name de) ≡ length name
      length_eq s = ground arith
