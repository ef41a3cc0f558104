-- ===== src/Fat/Write/Bytes.antt =====
-- The bytes of a file whose blocks `fat_file_write` of src/fs/fat/src/vfs_file.c fills, one block at a
-- time.
use native.Mathlib.Nat.{mod-add-div, mod-lt}
use userfs.Prelude.{
  ℕ, zero, suc, ◌+◌, ◌-◌, ◌*◌, ◌/◌, ◌%◌, ◌^◌, ◌≤◌, ◌<◌, ◌≡◌, ◌≢◌, ◌⊎◌, refl, arith, Option, none,
  some, List, [], ◌∷◌, take, drop, length, get_elem?, get_or, ap, ◌∙◌, sym, Option-cases, inl, inr,
  lt_cases, eq_cases, ne→==, ==_self,
}
use userfs.Prelude.Bits.{pow_pos}
use userfs.Fat.Words.{Blocks, put_block}
use userfs.Fat.DirEntry.{write_at}
use userfs.Fat.DirEntry.Bytes.{length-write, get_or-write_in, get_or-write_out}
use userfs.Fat.Read.Bytes.{byte_in, same_block}

get_elem?-get_or : (l : List ℕ) (i : ℕ) → i < length l → get_elem? l i ≡ some (get_or l i 0)
get_elem?-get_or [] i h = absurd (omega arith)
get_elem?-get_or (x ∷ l) zero h = refl
get_elem?-get_or (x ∷ l) (suc i) h = get_elem?-get_or l i (omega arith)

-- A piece in a list that is written over.
get_elem?-write_in :
    (bytes : List ℕ) (i : ℕ) (xs : List ℕ) (k : ℕ)
    → i + length xs ≤ length bytes
    → k < length xs
    → get_elem? (write_at bytes i xs) (i + k) ≡ get_elem? xs k
get_elem?-write_in bytes i xs k room h =
    get_elem?-get_or (write_at bytes i xs) (i + k) (omega (arith, length-write bytes i xs))
    ∙ ap some (get_or-write_in bytes i xs k room h)
    ∙ sym (get_elem?-get_or xs k h)

get_elem?-write_out :
    (bytes : List ℕ) (i : ℕ) (xs : List ℕ) (k : ℕ)
    → k < length bytes
    → (k < i) ⊎ (i + length xs ≤ k)
    → get_elem? (write_at bytes i xs) k ≡ get_elem? bytes k
get_elem?-write_out bytes i xs k h out =
    get_elem?-get_or (write_at bytes i xs) k (omega (arith, length-write bytes i xs))
    ∙ ap some (get_or-write_out bytes i xs k out)
    ∙ sym (get_elem?-get_or bytes k h)

-- The two parts of a list of bytes.
pub length-take : (n : ℕ) (l : List ℕ) → n ≤ length l → length (take n l) ≡ n
length-take zero l h = refl
length-take (suc n) [] h = absurd (omega arith)
length-take (suc n) (x ∷ l) h = ap suc (length-take n l (omega arith))

pub length-drop : (n : ℕ) (l : List ℕ) → length (drop n l) ≡ length l - n
length-drop zero l = omega arith
length-drop (suc n) [] = omega arith
length-drop (suc n) (x ∷ l) = length-drop n l ∙ omega arith

get_elem?-take : (n : ℕ) (l : List ℕ) (k : ℕ) → k < n → get_elem? (take n l) k ≡ get_elem? l k
get_elem?-take zero l k h = absurd (omega arith)
get_elem?-take (suc n) [] k h = refl
get_elem?-take (suc n) (x ∷ l) zero h = refl
get_elem?-take (suc n) (x ∷ l) (suc k) h = get_elem?-take n l k (omega arith)

get_elem?-drop : (n : ℕ) (l : List ℕ) (k : ℕ) → get_elem? (drop n l) k ≡ get_elem? l (n + k)
get_elem?-drop zero l k = ap (get_elem? l) (omega arith)
get_elem?-drop (suc n) [] k = refl
get_elem?-drop (suc n) (x ∷ l) k = get_elem?-drop n l k ∙ ap (get_elem? (x ∷ l)) one_more
  where
    one_more : suc (n + k) ≡ suc n + k
    one_more = omega arith

-- `map` is the block of each sector, of `2 ^ bits` bytes.
module _ (bits : ℕ) (map : ℕ → Option ℕ) where
  abbrev pub block_of : Blocks → Option ℕ → Option (List ℕ)
  block_of blocks none = none
  block_of blocks (some p) = blocks p

  -- The byte `k` of the file.
  abbrev pub byte : Blocks → ℕ → Option ℕ
  byte blocks k = byte_in (block_of blocks (map (k / 2 ^ bits))) (k % 2 ^ bits)

  -- The bytes `ptr` were written at `offset`, and no other byte of the file has changed.
  pub record IsWritten (before after : Blocks) (offset : ℕ) (ptr : List ℕ) : Type 0 where
    pub inside : (k : ℕ) → k < length ptr → byte after (offset + k) ≡ get_elem? ptr k
    pub outside : (k : ℕ) → (k < offset) ⊎ (offset + length ptr ≤ k) → byte after k ≡ byte before k

  pub IsWritten-none : (blocks : Blocks) (offset : ℕ) → IsWritten blocks blocks offset []
  IsWritten-none blocks offset = record {
    inside = λ k h. absurd (omega arith);
    outside = λ k h. refl;
  }

  -- Two writes in a row.
  pub IsWritten-drop :
      (b1 b2 b3 : Blocks) (offset n : ℕ) (ptr : List ℕ)
      → n ≤ length ptr
      → IsWritten b1 b2 offset (take n ptr)
      → IsWritten b2 b3 (offset + n) (drop n ptr)
      → IsWritten b1 b3 offset ptr
  IsWritten-drop b1 b2 b3 offset n ptr le first second = record {
    inside = λ k h. elim (lt_cases k n) [
      | inl early ↦
          second.outside (offset + k) (inl (omega arith))
          ∙ first.inside k (omega (arith, length-take n ptr le))
          ∙ get_elem?-take n ptr k early
      | inr late ↦
          ap (byte b3) (place k late)
          ∙ second.inside (k - n) (omega (arith, length-drop n ptr))
          ∙ get_elem?-drop n ptr (k - n)
          ∙ ap (get_elem? ptr) (back k late)
    ];
    outside = λ k h.
        second.outside k (omega (arith, h, length-drop n ptr))
        ∙ first.outside k (omega (arith, h, length-take n ptr le));
  }
    where
      place : (k : ℕ) → n ≤ k → offset + k ≡ offset + n + (k - n)
      place k h = omega arith

      back : (k : ℕ) → n ≤ k → n + (k - n) ≡ k
      back k h = omega arith

  -- One block is written, at the place of the offset.
  module _ (apart : (i j p : ℕ) → map i ≡ some p → map j ≡ some p → i ≡ j) (blocks : Blocks)
      (offset p : ℕ) (bytes xs : List ℕ) (here : map (offset / 2 ^ bits) ≡ some p)
      (held : blocks p ≡ some bytes) (whole : length bytes ≡ 2 ^ bits)
      (fits : offset % 2 ^ bits + length xs ≤ 2 ^ bits) where
    abbrev filled : Blocks
    filled = put_block blocks p (write_at bytes (offset % 2 ^ bits) xs)

    filled_self : filled p ≡ some (write_at bytes (offset % 2 ^ bits) xs)
    unfolding put_block
    filled_self = rw (==_self p) refl

    elsewhere : (q : ℕ) → q ≢ p → filled q ≡ blocks q
    unfolding put_block
    elsewhere q ne = rw (ne→== q p ne) refl

    -- The block of another sector.
    filled_other :
        (i : ℕ) → i ≢ offset / 2 ^ bits → block_of filled (map i) ≡ block_of blocks (map i)
    unfolding put_block
    filled_other i ne = elim (Option-cases (map i)) [
      | inl e ↦ ap (block_of filled) e ∙ sym (ap (block_of blocks) e)
      | inr (q, e) ↦
          ap (block_of filled) e
          ∙ elsewhere q (λ same. ne (apart i (offset / 2 ^ bits) p (e ∙ ap some same) here))
          ∙ sym (ap (block_of blocks) e)
    ]

    byte_self :
        (k : ℕ)
        → k / 2 ^ bits ≡ offset / 2 ^ bits
        → (byte filled k ≡ get_elem? (write_at bytes (offset % 2 ^ bits) xs) (k % 2 ^ bits))
          × (byte blocks k ≡ get_elem? bytes (k % 2 ^ bits))
    byte_self k e = (
      ap (λ i. byte_in (block_of filled (map i)) (k % 2 ^ bits)) e
          ∙ ap (λ o. byte_in (block_of filled o) (k % 2 ^ bits)) here
          ∙ ap (λ o. byte_in o (k % 2 ^ bits)) filled_self,
      ap (λ i. byte_in (block_of blocks (map i)) (k % 2 ^ bits)) e
          ∙ ap (λ o. byte_in (block_of blocks o) (k % 2 ^ bits)) here
          ∙ ap (λ o. byte_in o (k % 2 ^ bits)) held,
    )

    written_inside : (k : ℕ) → k < length xs → byte filled (offset + k) ≡ get_elem? xs k
    written_inside k h =
        let (q, m) = same_block bits offset k (omega arith) in
        (byte_self (offset + k) q).0
        ∙ ap (get_elem? (write_at bytes (offset % 2 ^ bits) xs)) m
        ∙ get_elem?-write_in bytes (offset % 2 ^ bits) xs k (omega arith) h

    written_outside :
        (k : ℕ) → (k < offset) ⊎ (offset + length xs ≤ k) → byte filled k ≡ byte blocks k
    written_outside k out = elim (eq_cases (k / 2 ^ bits) (offset / 2 ^ bits)) [
      | inl e ↦
          let (after, before) = byte_self k e in
          after
          ∙ get_elem?-write_out bytes (offset % 2 ^ bits) xs (k % 2 ^ bits)
              (omega (arith, mod-lt k (pow_pos bits))) (in_block e)
          ∙ sym before
      | inr ne ↦ ap (λ o. byte_in o (k % 2 ^ bits)) (filled_other (k / 2 ^ bits) ne)
    ]
      where
        in_block :
            k / 2 ^ bits ≡ offset / 2 ^ bits
            → (k % 2 ^ bits < offset % 2 ^ bits) ⊎ (offset % 2 ^ bits + length xs ≤ k % 2 ^ bits)
        in_block e =
            let same : 2 ^ bits * (k / 2 ^ bits) ≡ 2 ^ bits * (offset / 2 ^ bits) =
              ap (λ n. 2 ^ bits * n) e in
            omega (arith, out, same, mod-add-div k (2 ^ bits), mod-add-div offset (2 ^ bits))

    pub filled-IsWritten : IsWritten blocks filled offset xs
    filled-IsWritten = record { inside = written_inside; outside = written_outside }
