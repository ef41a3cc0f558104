-- ===== src/Fat/Read/Bytes.antt =====
-- What `fat_file_read` returns, byte by byte.
use native.Mathlib.Nat.{
  mod-add-div, add-mul-div_left, add-mul-mod_self_left, div-eq_of_lt, mod-eq_of_lt, mod-lt,
}
use Prim.Native.Nat.{min}
use userfs.Prelude.{
  ℕ, zero, suc, ◌+◌, ◌-◌, ◌*◌, ◌/◌, ◌%◌, ◌^◌, ◌≤◌, ◌<◌, ◌≡◌, refl, arith, Option, none, some, List,
  [], ◌∷◌, ◌++◌, take, drop, length, get_elem?, ap, ◌∙◌, sym, lt→ltb, le→ltb, le→leb, lt→leb,
  lt_cases, inl, inr, Option-cases,
}
use userfs.Prelude.Bits.{and_mask, pow_pos}
use userfs.Fat.Dir.{phys_of}
use userfs.Fat.Read.{
  FileBlocks, block_offset, to_read, more, copy_block, read_phys, read_loop, fat_file_read,
}

-- The byte of a block that was read.
abbrev pub byte_in : Option (List ℕ) → ℕ → Option ℕ
byte_in none o = none
byte_in (some bytes) o = get_elem? bytes o

-- The byte `k` and those after it, at most `n` and up to the first that there is not.
abbrev pub upto : Option ℕ → List ℕ → List ℕ
upto none rest = []
upto (some b) rest = b ∷ rest

unfoldable pub bytes_from : (ℕ → Option ℕ) → ℕ → ℕ → List ℕ
bytes_from byte k zero = []
bytes_from byte k (suc n) = upto (byte k) (bytes_from byte (k + 1) n)

-- The byte at a place that a list has, and what follows it.
abbrev Place : List ℕ → ℕ → Type 0
Place bytes o = (x : ℕ) × (get_elem? bytes o ≡ some x) × (drop o bytes ≡ x ∷ drop (o + 1) bytes)

place : (bytes : List ℕ) (o : ℕ) → o < length bytes → Place bytes o
place [] o h = absurd (omega arith)
place (x ∷ bytes) zero h = (x, refl, refl)
place (x ∷ bytes) (suc o) h =
    let (y, e, d) = place bytes o (omega arith) in
    (y, e, d ∙ ap (λ n. y ∷ drop n (x ∷ bytes)) after)
  where
    after : suc (o + 1) ≡ suc o + 1
    after = omega arith

-- A piece of a list of bytes that are all there.
pub bytes_from-piece :
    (byte : ℕ → Option ℕ) (a b k o : ℕ) (bytes : List ℕ)
    → o + a ≤ length bytes
    → ((j : ℕ) → j < a → byte (k + j) ≡ get_elem? bytes (o + j))
    → bytes_from byte k (a + b) ≡ take a (drop o bytes) ++ bytes_from byte (k + a) b
unfolding bytes_from
bytes_from-piece byte zero b k o bytes room same =
    ap (λ n. bytes_from byte k n) (omega arith) ∙ ap (λ n. bytes_from byte n b) (omega arith)
bytes_from-piece byte (suc a) b k o bytes room same =
    let (x, e, d) = place bytes o (omega arith) in
    ap (bytes_from byte k) one_more
    ∙ ap (λ q. upto q (bytes_from byte (k + 1) (a + b))) (here ∙ e)
    ∙ ap (λ l. x ∷ l)
        (bytes_from-piece byte a b (k + 1) (o + 1) bytes (omega arith) (λ j h.
            ap byte (omega arith) ∙ same (j + 1) (omega arith) ∙ ap (get_elem? bytes) (omega arith))
          ∙ ap (λ n. take a (drop (o + 1) bytes) ++ bytes_from byte n b) (next a))
    ∙ ap (λ l. take (suc a) l ++ bytes_from byte (k + suc a) b) (sym d)
  where
    one_more : suc a + b ≡ suc (a + b)
    one_more = omega arith

    next : (a : ℕ) → k + 1 + a ≡ k + suc a
    next a = omega arith

    here : byte k ≡ get_elem? bytes o
    here = ap byte (omega arith) ∙ same 0 (omega arith) ∙ ap (get_elem? bytes) (omega arith)

-- Places in the block of `k`.
pub same_block :
    (bits k j : ℕ)
    → k % 2 ^ bits + j < 2 ^ bits
    → ((k + j) / 2 ^ bits ≡ k / 2 ^ bits) × ((k + j) % 2 ^ bits ≡ k % 2 ^ bits + j)
same_block bits k j h = (
  ap (λ n. n / size) split
      ∙ add-mul-div_left (k % size + j) (k / size) positive
      ∙ omega (arith, div-eq_of_lt h),
  ap (λ n. n % size) split ∙ add-mul-mod_self_left (k % size + j) size (k / size) ∙ mod-eq_of_lt h,
)
  where
    size : ℕ
    size = 2 ^ bits

    positive : 0 < size
    positive = pow_pos bits

    split : k + j ≡ k % size + j + size * (k / size)
    split = omega (arith, mod-add-div k size)

module _ (f : FileBlocks) where
  open f use {s_blocksize_bits, bmap, bread}

  -- The block of byte `k` of the file, as it is read, and the byte.
  abbrev block_at : Option ℕ → Option (List ℕ)
  block_at none = none
  block_at (some p) = bread p

  unfoldable pub file_byte : ℕ → Option ℕ
  file_byte k =
      byte_in (block_at (phys_of (bmap (k / 2 ^ s_blocksize_bits)))) (k % 2 ^ s_blocksize_bits)

  -- The bytes of a block that was read.
  byte_there :
      (k j p : ℕ) (bytes : List ℕ)
      → phys_of (bmap (k / 2 ^ s_blocksize_bits)) ≡ some p
      → bread p ≡ some bytes
      → k % 2 ^ s_blocksize_bits + j < 2 ^ s_blocksize_bits
      → file_byte (k + j) ≡ get_elem? bytes (k % 2 ^ s_blocksize_bits + j)
  unfolding file_byte
  byte_there k j p bytes e r h =
      let (q, m) = same_block s_blocksize_bits k j h in
      ap (λ n. byte_in (block_at (phys_of (bmap n))) ((k + j) % 2 ^ s_blocksize_bits)) q
      ∙ ap (λ n. byte_in (block_at (phys_of (bmap (k / 2 ^ s_blocksize_bits)))) n) m
      ∙ ap (λ o. byte_in (block_at o) (k % 2 ^ s_blocksize_bits + j)) e
      ∙ ap (λ o. byte_in o (k % 2 ^ s_blocksize_bits + j)) r

  -- A byte of a block that is not mapped or cannot be read.
  no_byte :
      (k n : ℕ)
      → block_at (phys_of (bmap (k / 2 ^ s_blocksize_bits))) ≡ none
      → bytes_from file_byte k (suc n) ≡ []
  unfolding bytes_from file_byte
  no_byte k n e =
      ap (λ o. upto (byte_in o (k % 2 ^ s_blocksize_bits)) (bytes_from file_byte (k + 1) n)) e

  pub offset_mod : (k : ℕ) → block_offset f k ≡ k % 2 ^ s_blocksize_bits
  offset_mod k =
      and_mask s_blocksize_bits k (2 ^ s_blocksize_bits - 1)
        (omega (arith, pow_pos s_blocksize_bits))

  -- How far a round gets.
  pub to_read-bounds :
      (k n : ℕ)
      → (0 < to_read f k (suc n))
        × (to_read f k (suc n) ≤ suc n)
        × (k % 2 ^ s_blocksize_bits + to_read f k (suc n) ≤ 2 ^ s_blocksize_bits)
  to_read-bounds k n =
      rw (offset_mod k) (elim (lt_cases (suc n) (2 ^ s_blocksize_bits - k % 2 ^ s_blocksize_bits)) [
        | inl h ↦ rw (lt→ltb (suc n) _ h) ((omega arith, omega arith, omega arith))
        | inr h ↦ rw (le→ltb (suc n) _ h) ((omega (arith, inside), h, omega (arith, inside)))
      ])
    where
      inside : k % 2 ^ s_blocksize_bits < 2 ^ s_blocksize_bits
      inside = mod-lt k (pow_pos s_blocksize_bits)

  -- A round of the loop, when the later rounds read the bytes that follow.
  module _ (k n : ℕ) (go : ℕ → ℕ → Option (List ℕ)) where
    abbrev chunk : ℕ
    chunk = to_read f k (suc n)

    round_copy :
        (p : ℕ) (bytes : List ℕ)
        → phys_of (bmap (k / 2 ^ s_blocksize_bits)) ≡ some p
        → bread p ≡ some bytes
        → go (k + chunk) (suc n - chunk) ≡ some (bytes_from file_byte (k + chunk) (suc n - chunk))
        → copy_block f k (suc n) (some bytes) go ≡ some (bytes_from file_byte k (suc n))
    unfolding copy_block more
    round_copy p bytes e r later =
        let (pos, le, fits) = to_read-bounds k n in
        let size = f.whole_block p bytes r in
        let off = k % 2 ^ s_blocksize_bits in
        ap (more f (take chunk (drop (block_offset f k) bytes))) later
        ∙ ap
            (λ o.
              some (take chunk (drop o bytes) ++ bytes_from file_byte (k + chunk) (suc n - chunk)))
            (offset_mod k)
        ∙ ap some (
            sym (
              bytes_from-piece file_byte chunk (suc n - chunk) k off bytes (omega arith)
                (λ j h. byte_there k j p bytes e r (omega arith)))
            ∙ ap (bytes_from file_byte k) (all le))
      where
        all : chunk ≤ suc n → chunk + (suc n - chunk) ≡ suc n
        all h = omega arith

    round_read :
        go (k + chunk) (suc n - chunk) ≡ some (bytes_from file_byte (k + chunk) (suc n - chunk))
        → read_phys f k (suc n) (phys_of (bmap (k / 2 ^ s_blocksize_bits))) go
          ≡ some (bytes_from file_byte k (suc n))
    unfolding read_phys copy_block
    round_read later = elim (Option-cases (phys_of (bmap (k / 2 ^ s_blocksize_bits)))) [
      | inl e ↦ ap (λ o. read_phys f k (suc n) o go) e ∙ ap some (sym (no_byte k n (ap block_at e)))
      | inr (p, e) ↦ elim (Option-cases (bread p)) [
        | inl u ↦
            ap (λ o. read_phys f k (suc n) o go) e
            ∙ ap (λ o. copy_block f k (suc n) o go) u
            ∙ ap some (sym (no_byte k n (ap block_at e ∙ u)))
        | inr (bytes, r) ↦
            ap (λ o. read_phys f k (suc n) o go) e
            ∙ ap (λ o. copy_block f k (suc n) o go) r
            ∙ round_copy p bytes e r later
      ]
    ]

  read_loop_lem : (fuel k n : ℕ) → n < fuel → read_loop f fuel k n ≡ some (bytes_from file_byte k n)
  unfolding read_loop bytes_from
  read_loop_lem zero k n h = absurd (omega arith)
  read_loop_lem (suc fuel) k zero h = refl
  read_loop_lem (suc fuel) k (suc n) h =
      let (pos, le, fits) = to_read-bounds k n in
      rw (lt→ltb 0 (suc n) (omega arith)) (
        round_read k n (read_loop f fuel) (
          read_loop_lem fuel (k + to_read f k (suc n)) (suc n - to_read f k (suc n)) (omega arith)))

  -- `fat_file_read` returns: the bytes of the file from the offset on, as many as were asked for but
  -- none past the size of the file, and none from the first on whose block is not mapped or cannot be
  -- read.
  pub fat_file_read_lem :
      (i_size count offset : ℕ)
      → fat_file_read f i_size count offset
        ≡ some (bytes_from file_byte offset (min count (i_size - offset)))
  unfolding fat_file_read bytes_from
  fat_file_read_lem i_size count offset = elim (lt_cases offset i_size) [
    | inr past ↦
        rw (le→leb i_size offset past)
          (ap (λ n. some (bytes_from file_byte offset n)) (nothing past))
    | inl lt ↦ elim (lt_cases i_size (offset + count)) [
      | inl over ↦
          rw (lt→leb i_size offset lt, lt→ltb i_size (offset + count) over)
            (read_loop_lem (suc (i_size - offset)) offset (i_size - offset) (omega arith)
              ∙ ap (λ n. some (bytes_from file_byte offset n)) (clipped over))
      | inr inside ↦
          rw (lt→leb i_size offset lt, le→ltb i_size (offset + count) inside)
            (read_loop_lem (suc count) offset count (omega arith)
              ∙ ap (λ n. some (bytes_from file_byte offset n)) (whole inside))
    ]
  ]
    where
      nothing : i_size ≤ offset → 0 ≡ min count (i_size - offset)
      nothing h = omega arith

      clipped : i_size < offset + count → i_size - offset ≡ min count (i_size - offset)
      clipped h = omega arith

      whole : offset + count ≤ i_size → count ≡ min count (i_size - offset)
      whole h = omega arith
