-- ===== src/Inodes/Chains.antt =====
-- The chains of the hash table of src/vfs/src/inode.c as lists of inodes.
use userfs.Prelude.{
  ℕ, zero, suc, ◌<◌, ◌≡◌, ◌≢◌, refl, sym, subst, arith, Bool, true, false, some, List, [], ◌∷◌,
  length, ◌==◌, if◌then◌else◌, ==_self, ne→==,
}
use userfs.Inodes.{Hashtable, is_wanted, iget_from, update}

abbrev pub Chain : (ℕ → ℕ) → ℕ → List ℕ → Type 0
Chain next p [] = p ≡ 0
Chain next p (q ∷ l) = (p ≡ q) × (q ≢ 0) × Chain next (next q) l

abbrev pub Absent : ℕ → List ℕ → Type 0
Absent i [] = Unit
Absent i (q ∷ l) = (i ≢ q) × Absent i l

abbrev pub Distinct : List ℕ → Type 0
Distinct [] = Unit
Distinct (q ∷ l) = Absent q l × Distinct l

-- The list without the first occurrence of `i`.
abbrev pub without : ℕ → List ℕ → List ℕ
without i [] = []
without i (q ∷ l) = if q == i then l else q ∷ without i l

-- The first inode of a list with a number and a super block, or NULL.
abbrev pub first_wanted : Hashtable → ℕ → ℕ → List ℕ → ℕ
first_wanted t sb ino [] = 0
first_wanted t sb ino (q ∷ l) = if is_wanted t sb ino q then q else first_wanted t sb ino l

if_some : (b : Bool) (x y : ℕ) → (if b then some x else some y) ≡ some (if b then x else y)
if_some true x y = refl
if_some false x y = refl

pub iget_from-Chain :
    (t : Hashtable) (sb ino n p : ℕ) (l : List ℕ)
    → length l < n
    → Chain t.i_private p l
    → iget_from t sb ino n p ≡ some (first_wanted t sb ino l)
unfolding iget_from
iget_from-Chain t sb ino zero p l h c = absurd (omega arith)
iget_from-Chain t sb ino (suc n) p [] h c = rw c refl
iget_from-Chain t sb ino (suc n) p (q ∷ l) h (e, ne, c) =
    rw (e, ne→== q 0 ne, iget_from-Chain t sb ino n (t.i_private q) l (omega arith) c)
      (if_some (is_wanted t sb ino q) q (first_wanted t sb ino l))

pub update_self : (f : ℕ → ℕ) (i v : ℕ) → update f i v i ≡ v
unfolding update
update_self f i v = rw (==_self i) refl

pub update_ne : (f : ℕ → ℕ) (i v j : ℕ) → j ≢ i → update f i v j ≡ f j
unfolding update
update_ne f i v j ne = rw (ne→== j i ne) refl

-- A chain stays where the links of its inodes stay.
abbrev pub SameLinks : (ℕ → ℕ) → (ℕ → ℕ) → List ℕ → Type 0
SameLinks f g [] = Unit
SameLinks f g (q ∷ l) = (g q ≡ f q) × SameLinks f g l

abbrev pub SameLinks-Chain :
    (f g : ℕ → ℕ) (p : ℕ) (l : List ℕ) → SameLinks f g l → Chain f p l → Chain g p l
SameLinks-Chain f g p [] s c = c
SameLinks-Chain f g p (q ∷ l) (e, s) (a, ne, c) =
    (a, ne, subst (λ p. Chain g p l) (sym e) (SameLinks-Chain f g (f q) l s c))

pub update-SameLinks :
    (f : ℕ → ℕ) (i v : ℕ) (l : List ℕ) → Absent i l → SameLinks f (update f i v) l
update-SameLinks f i v [] a = tt
update-SameLinks f i v (q ∷ l) (ne, a) =
    (update_ne f i v q (λ e. ne (sym e)), update-SameLinks f i v l a)
