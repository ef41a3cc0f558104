-- ===== src/Fat/Dir/Edit.antt =====
-- Changes of one entry of a directory keep what the scans of src/fs/fat/src/dir.c rely on.
use userfs.Prelude.{
  ℕ, ◌*◌, ◌≡◌, ◌≢◌, refl, Bool, true, false, none, some, Outcome, ok, List, [], ◌∷◌, set, length,
  length-set, ap, ◌∙◌, sym, subst, inl, inr, eq_cases, ==_self, ne→==, Bool-cases, arith, ◌==◌,
  if◌then◌else◌,
}
use userfs.Fat.Words.{Blocks, put_block}
use userfs.Fat.DirEntry.{DirEntry, deleted_flag, encode, write_at}
use userfs.Fat.DirEntry.Bytes.{IsDirEntry, renamed, length-write}
use userfs.Fat.Dir.{DirBlocks, phys_of}
use userfs.Fat.Dir.Entries.{entries}
use userfs.Fat.Dir.Scan.{Slot, first, count}
use userfs.Fat.Dir.Remove.{on_blocks, fat_remove_entries}
use userfs.Fat.Dir.Remove.Update.{replace_at}
use userfs.Fat.Dir.Remove.Correct.{removed, fat_remove_entries_lem}
use userfs.Fat.Dir.Located.{Has, Place, IsDir, placed, rewritten}

-- The slot of an entry, as a search gives it.
abbrev pub slot_at : ℕ → DirEntry → Slot
slot_at p e = record { i_pos = p; slot_off = p; nr_slots = 1; de = some e }

module _ (d : DirBlocks) (dir : IsDir d) where
  -- A block that keeps its size.
  pub put-IsDir :
      (q : ℕ) (old bytes : List ℕ)
      → d.bread q ≡ some old
      → length bytes ≡ length old
      → IsDir (on_blocks d (put_block d.bread q bytes))
  unfolding put_block
  put-IsDir q old bytes there same = record {
    alone = dir.alone;
    whole = λ r b e. elim (eq_cases r q) [
      | inl it ↦ sym (ap length (mine r b it e)) ∙ same ∙ dir.whole q old there
      | inr ne ↦ dir.whole r b (theirs r b ne e)
    ];
  }
    where
      mine :
          (r : ℕ) (b : List ℕ)
          → r ≡ q
          → (if r == q then some bytes else d.bread r) ≡ some b
          → bytes ≡ b
      mine r b it e = ground arith

      theirs :
          (r : ℕ) (b : List ℕ)
          → r ≢ q
          → (if r == q then some bytes else d.bread r) ≡ some b
          → d.bread r ≡ some b
      theirs r b ne e = ground arith

  -- What `fat_remove_entries` leaves of a directory.
  pub record Removed (p : ℕ) (out : Outcome (Unit {0}) × Blocks) : Type 0 where
    pub reported : out.0 ≡ ok tt
    pub after : entries (on_blocks d out.1) ≡ replace_at p (renamed deleted_flag) (entries d)
    pub still : IsDir (on_blocks d out.1)

  pub remove_lem :
      (p : ℕ) (old e : DirEntry)
      → Has p old (entries d)
      → Removed p (fat_remove_entries d (slot_at p e) d.bread)
  remove_lem p old e h = at_place (placed d p old h)
    where
      at_place : Place d p old → Removed p (fat_remove_entries d (slot_at p e) d.bread)
      at_place at =
          subst (λ n. Removed n (fat_remove_entries d (slot_at n e) d.bread)) (sym at.position)
            (let whole = dir.whole at.block at.bytes at.there in
              let alone = λ (i : ℕ) (m : phys_of (d.bmap i) ≡ some at.block).
                dir.alone i at.sector at.block m at.mapped in
              let (r, a, f) =
                fat_remove_entries_lem d at.sector at.block at.number at.bytes at.mapped alone
                  at.there whole at.inside e in
              record {
                reported = r;
                after = a;
                still =
                    subst (λ z. IsDir (on_blocks d z.1))
                      (sym (
                        removed d at.sector at.block at.number at.bytes at.mapped alone at.there
                          whole at.inside e))
                      (put-IsDir at.block at.bytes (set at.bytes (at.number * 32) deleted_flag)
                        at.there (length-set at.bytes (at.number * 32) deleted_flag));
              })

  pub rewritten-IsDir :
      (p : ℕ) (old e : DirEntry) (at : Place d p old) (fit : IsDirEntry e)
      → IsDir (on_blocks d (rewritten d dir p old e at fit))
  rewritten-IsDir p old e at fit =
      put-IsDir at.block at.bytes (write_at at.bytes (at.number * 32) (encode e)) at.there
        (length-write at.bytes (at.number * 32) (encode e))

-- A property that the new entry does not have is lost with the only entry that had it.
module _ (test : DirEntry → Bool) (f : DirEntry → DirEntry)
    (never : (e : DirEntry) → test (f e) ≡ false) where
  pub none-replace_at :
      (p : ℕ) (l : List (ℕ × DirEntry)) → count test l ≡ 0 → first test (replace_at p f l) ≡ none
  unfolding replace_at
  none-replace_at p [] h = refl
  none-replace_at p ((q, e) ∷ l) h = elim (Bool-cases (test e)) [
    | inl y ↦ absurd (some_more y)
    | inr n ↦ elim (eq_cases q p) [
      | inl it ↦ rw (it, ==_self p, never e) (none-replace_at p l (rest n))
      | inr ne ↦ rw (ne→== q p ne, n) (none-replace_at p l (rest n))
    ]
  ]
    where
      some_more : test e ≡ true → ⊥
      some_more y = ground arith

      rest : test e ≡ false → count test l ≡ 0
      rest n = ground arith

  pub first-removed :
      (p : ℕ) (e : DirEntry) (l : List (ℕ × DirEntry))
      → count test l ≡ 1
      → first test l ≡ some (p, e)
      → first test (replace_at p f l) ≡ none
  unfolding replace_at
  first-removed p e [] h s = refl
  first-removed p e ((q, g) ∷ l) h s = elim (Bool-cases (test g)) [
    | inl y ↦ rw (place y, ==_self p, never g) (none-replace_at p l (rest y))
    | inr n ↦ elim (eq_cases q p) [
      | inl it ↦ rw (it, ==_self p, never g) (first-removed p e l (same n) (later n))
      | inr ne ↦ rw (ne→== q p ne, n) (first-removed p e l (same n) (later n))
    ]
  ]
    where
      place : test g ≡ true → q ≡ p
      place y = ground arith

      rest : test g ≡ true → count test l ≡ 0
      rest y = ground arith

      same : test g ≡ false → count test l ≡ 1
      same n = ground arith

      later : test g ≡ false → first test l ≡ some (p, e)
      later n = ground arith

-- The replaced entry stands where the old one stood.
pub Has-replace_at :
    (p : ℕ) (f : DirEntry → DirEntry) (old : DirEntry) (l : List (ℕ × DirEntry))
    → Has p old l
    → Has p (f old) (replace_at p f l)
unfolding replace_at
Has-replace_at p f old [] h = elim h [ ]
Has-replace_at p f old ((q, e) ∷ l) (inl (a, b)) = rw (a, b, ==_self q) (inl (refl, refl))
Has-replace_at p f old ((q, e) ∷ l) (inr h) = inr (Has-replace_at p f old l h)

-- What an entry was replaced by does not matter once it is replaced by one without the property.
pub first-replaced_again :
    (test : DirEntry → Bool) (f g : DirEntry → DirEntry) (p : ℕ) (l : List (ℕ × DirEntry))
    → ((e : DirEntry) → test (f e) ≡ false)
    → first test (replace_at p f (replace_at p g l)) ≡ first test (replace_at p f l)
unfolding replace_at
first-replaced_again test f g p [] never = refl
first-replaced_again test f g p ((q, e) ∷ l) never = elim (eq_cases q p) [
  | inl it ↦ rw (it, ==_self p, never (g e), never e) (first-replaced_again test f g p l never)
  | inr ne ↦ rw (ne→== q p ne, first-replaced_again test f g p l never) refl
]
