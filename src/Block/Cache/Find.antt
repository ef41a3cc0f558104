-- ===== src/Block/Cache/Find.antt =====
-- The list of buffers as a map from block numbers, with no block twice.
use userfs.Prelude.{
  ℕ, ◌≡◌, arith, Bool, true, false, Option, none, some, List, [], ◌∷◌, ◌==◌, ◌∙◌, ap, if◌then◌else◌,
  inl, inr, Option-cases, Bool-cases, ==_self, if_true,
}
use userfs.Block.Cache.{Buf, find, remove, change, victim, or_this}

-- A buffer that is found has the block number that was looked for.
pub find-blocknr : (n : ℕ) (bs : List Buf) (b : Buf) → find n bs ≡ some b → b.b_blocknr ≡ n
unfolding find
find-blocknr n [] b e = cc
find-blocknr n (x ∷ bs) b e = ground (arith, find-blocknr n bs b)

pub find-remove :
    (m n : ℕ) (bs : List Buf) → find m (remove n bs) ≡ (if n == m then none else find m bs)
unfolding find remove
find-remove m n [] = ground arith
find-remove m n (b ∷ bs) = ground (arith, find-remove m n bs)

-- A change that keeps the block number.
abbrev pub KeepsNumber : (Buf → Buf) → Type 0
KeepsNumber f = (b : Buf) → (f b).b_blocknr ≡ b.b_blocknr

unfoldable pub map_if : (Buf → Buf) → Bool → Option Buf → Option Buf
map_if f true (some b) = some (f b)
map_if f true none = none
map_if f false o = o

pub find-change :
    (f : Buf → Buf) (m n : ℕ) (bs : List Buf)
    → KeepsNumber f
    → find m (change f n bs) ≡ map_if f (n == m) (find m bs)
unfolding find change map_if
find-change f m n [] k = ground arith
find-change f m n (b ∷ bs) k = ground (arith, find-change f m n bs k, k b)

-- No block has two buffers.
abbrev pub Distinct : List Buf → Type 0
Distinct [] = Unit
Distinct (b ∷ bs) = (find b.b_blocknr bs ≡ none) × Distinct bs

pub Distinct-remove : (n : ℕ) (bs : List Buf) → Distinct bs → Distinct (remove n bs)
unfolding remove
Distinct-remove n [] d = tt
Distinct-remove n (b ∷ bs) (new, d) = elim (Bool-cases (b.b_blocknr == n)) [
  | inl gone ↦ rw gone (Distinct-remove n bs d)
  | inr kept ↦ rw kept (ground (arith, find-remove b.b_blocknr n bs), Distinct-remove n bs d)
]

pub Distinct-change :
    (f : Buf → Buf) (n : ℕ) (bs : List Buf) → KeepsNumber f → Distinct bs → Distinct (change f n bs)
unfolding change map_if
Distinct-change f n [] k d = tt
Distinct-change f n (b ∷ bs) k (new, d) = elim (Bool-cases (b.b_blocknr == n)) [
  | inl here ↦
      rw (here, k b, find-change f b.b_blocknr n bs k, new)
        (ground arith, Distinct-change f n bs k d)
  | inr there ↦
      rw (there, find-change f b.b_blocknr n bs k, new) (ground arith, Distinct-change f n bs k d)
]

-- The victim is the buffer of its block.
pub find-victim :
    (bs : List Buf) (v : Buf) → Distinct bs → victim bs ≡ some v → find v.b_blocknr bs ≡ some v
unfolding find victim or_this
find-victim [] v d e = cc
find-victim (b ∷ bs) v (new, d) e = elim (Option-cases (victim bs)) [
  | inr (w, found) ↦
      let same : w ≡ v = later w (rw found at e) in
      let deep : find v.b_blocknr bs ≡ some v = find-victim bs v d (found ∙ ap some same) in
      ground (arith, new, deep)
  | inl nobody ↦
      let same : b ≡ v = here (rw nobody at e) in
      rw same (if_true (some v) (find v.b_blocknr bs) (==_self v.b_blocknr))
]
  where
    later : (w : Buf) → or_this (some w) b ≡ some v → w ≡ v
    later w p = cc

    here : or_this none b ≡ some v → b ≡ v
    here p = ground arith
