-- ===== src/Path/Names.antt =====
-- The names of a path, split at its slashes.
use userfs.Prelude.{
  ℕ, ◌+◌, ◌≤◌, ◌<◌, ◌≡◌, refl, arith, Bool, true, false, List, [], ◌∷◌, length, ◌==◌, if◌then◌else◌,
  ◌∙◌, ap, inl, inr, sym, Bool-cases, if_true, if_false,
}
use userfs.Path.{slash, skip_slashes, onto, component}

-- The non-empty stretches between slashes, in order.
unfoldable pub glue : ℕ → List ℕ → List (List ℕ) → List (List ℕ)
glue c (d ∷ p) (w ∷ ws) = if d == slash then (c ∷ []) ∷ w ∷ ws else (c ∷ w) ∷ ws
glue c (d ∷ p) [] = (c ∷ []) ∷ []
glue c [] ws = (c ∷ []) ∷ ws

unfoldable pub names : List ℕ → List (List ℕ)
names [] = []
names (c ∷ p) = if c == slash then names p else glue c p (names p)

-- Does the path end in a slash?
unfoldable pub ends_in_slash : List ℕ → Bool
ends_in_slash [] = false
ends_in_slash (c ∷ []) = c == slash
ends_in_slash (c ∷ d ∷ p) = ends_in_slash (d ∷ p)

pub names-skip_slashes : (p : List ℕ) → names (skip_slashes p) ≡ names p
unfolding names skip_slashes
names-skip_slashes [] = refl
names-skip_slashes (c ∷ p) = elim (Bool-cases (c == slash)) [
  | inl e ↦
      ap names (if_true (skip_slashes p) (c ∷ p) e)
      ∙ names-skip_slashes p
      ∙ sym (if_true (names p) (glue c p (names p)) e)
  | inr e ↦ ap names (if_false (skip_slashes p) (c ∷ p) e)
]

pub length-skip_slashes : (p : List ℕ) → length (skip_slashes p) ≤ length p
unfolding skip_slashes
length-skip_slashes [] = omega arith
length-skip_slashes (c ∷ p) = ground (arith, length-skip_slashes p)

pub length-component : (p : List ℕ) → length (component p).0 + length (component p).1 ≡ length p
unfolding component onto
length-component [] = refl
length-component (c ∷ p) = elim (Bool-cases (c == slash)) [
  | inl e ↦ rw e (omega arith)
  | inr e ↦ rw e (omega (arith, length-component p))
]

-- A name is not empty, so what follows it is shorter.
pub component_shorter :
    (c : ℕ) (p : List ℕ) → (c == slash) ≡ false → length (component (c ∷ p)).1 < length (c ∷ p)
unfolding component onto
component_shorter c p e = rw e (omega (arith, length-component p))

pub names_nil : (p : List ℕ) → p ≡ [] → names p ≡ []
unfolding names
names_nil p e = ap names e

glue-slash :
    (c d : ℕ) (p : List ℕ) (ws : List (List ℕ))
    → (d == slash) ≡ true
    → glue c (d ∷ p) ws ≡ (c ∷ []) ∷ ws
unfolding glue
glue-slash c d p [] e = refl
glue-slash c d p (w ∷ ws) e = if_true ((c ∷ []) ∷ w ∷ ws) ((c ∷ w) ∷ ws) e

-- The scan of a component takes the first name off.
pub names-component :
    (c : ℕ) (p : List ℕ)
    → (c == slash) ≡ false
    → names (c ∷ p) ≡ (component (c ∷ p)).0 ∷ names (component (c ∷ p)).1
unfolding names component onto glue
names-component c [] e = rw e refl
names-component c (d ∷ p) e = elim (Bool-cases (d == slash)) [
  | inl f ↦
      rw (e, f)
        (glue-slash c d p (names p) f
          ∙ ap (λ ws. (c ∷ []) ∷ ws) (sym (if_true (names p) (glue d p (names p)) f)))
  | inr f ↦
      let rest : names (d ∷ p) ≡ (component (d ∷ p)).0 ∷ names (component (d ∷ p)).1 =
        names-component d p f in
      rw (e) (ap (glue c (d ∷ p)) rest ∙ rw f refl)
]

-- The scan does not lose the trailing slash.
pub ends-component :
    (c : ℕ) (p : List ℕ)
    → (c == slash) ≡ false
    → ends_in_slash (c ∷ p) ≡ ends_in_slash (component (c ∷ p)).1
unfolding ends_in_slash component onto
ends-component c [] e = rw e refl
ends-component c (d ∷ p) e = elim (Bool-cases (d == slash)) [
  | inl f ↦ rw (e, f) refl
  | inr f ↦ rw e (ends-component d p f)
]

-- What the skip of slashes finds in a path: nothing else, or the start of a name.
pub data Skipped (c : ℕ) (p : List ℕ) : Type 0 where
  blank : skip_slashes (c ∷ p) ≡ [] → ends_in_slash (c ∷ p) ≡ true → Skipped c p
  found :
      (d : ℕ) (q : List ℕ)
      → skip_slashes (c ∷ p) ≡ d ∷ q
      → (d == slash) ≡ false
      → ends_in_slash (c ∷ p) ≡ ends_in_slash (d ∷ q)
      → Skipped c p

Skipped-cons : (c d : ℕ) (p : List ℕ) → (c == slash) ≡ true → Skipped d p → Skipped c (d ∷ p)
unfolding ends_in_slash skip_slashes
Skipped-cons c d p e (blank s t) = blank (if_true (skip_slashes (d ∷ p)) (c ∷ d ∷ p) e ∙ s) t
Skipped-cons c d p e (found x q s f t) =
    found x q (if_true (skip_slashes (d ∷ p)) (c ∷ d ∷ p) e ∙ s) f t

pub skip_slashes-Skipped : (c : ℕ) (p : List ℕ) → Skipped c p
unfolding ends_in_slash skip_slashes
skip_slashes-Skipped c [] = elim (Bool-cases (c == slash)) [
  | inl e ↦ blank (if_true [] (c ∷ []) e) e
  | inr e ↦ found c [] (if_false [] (c ∷ []) e) e refl
]
skip_slashes-Skipped c (d ∷ p) = elim (Bool-cases (c == slash)) [
  | inl e ↦ Skipped-cons c d p e (skip_slashes-Skipped d p)
  | inr e ↦ found c (d ∷ p) (if_false (skip_slashes (d ∷ p)) (c ∷ d ∷ p) e) e refl
]
