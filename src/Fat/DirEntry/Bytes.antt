-- ===== src/Fat/DirEntry/Bytes.antt =====
-- The bytes of an entry: a written entry reads back, and the others stay.
use native.Mathlib.Nat.{pow-suc}
use userfs.Prelude.{
  ℕ, zero, suc, ◌+◌, ◌/◌, ◌%◌, ◌^◌, ◌≤◌, ◌<◌, ◌≡◌, ◌⊎◌, refl, arith, List, [], ◌∷◌, ◌++◌, length,
  get_or, set, length-set, get_or-set_self, get_or-set_ne, ◌∙◌, ap, sym, true, length-append, drop,
  false,
}
use userfs.Prelude.Bits.{or_low_high}
use userfs.Fat.Words.{load}
use userfs.Fat.DirEntry.{
  DirEntry, widths, fields_of, entry_of, bytes_at, load_fields, decode, le_bytes, store_fields,
  encode, write_at, fat_get_start, fat_set_start,
}
use userfs.Fat.DirEntry.Agree.{
  same_place, after_first, bytes_at_same, load_shift, load_fields_same, sum, decode_same,
}

-- A list of values that fit their widths.
abbrev pub Fits : List ℕ → List ℕ → Type 0
Fits [] [] = Unit
Fits [] (v ∷ vs) = ⊥
Fits (w ∷ ws) [] = ⊥
Fits (w ∷ ws) (v ∷ vs) = (v < 256 ^ w) × Fits ws vs

-- An entry whose fields have their sizes.
abbrev pub IsDirEntry : DirEntry → Type 0
IsDirEntry e = (length e.name ≡ 11) × Fits widths (fields_of e)

get_or-right : (xs ys : List ℕ) (k : ℕ) → get_or (xs ++ ys) (length xs + k) 0 ≡ get_or ys (0 + k) 0
get_or-right [] ys k = refl
get_or-right (x ∷ xs) ys k =
    same_place (x ∷ xs ++ ys) (length (x ∷ xs) + k) (suc (length xs + k)) (omega arith)
    ∙ get_or-right xs ys k

length-le_bytes : (n v : ℕ) → length (le_bytes n v) ≡ n
unfolding le_bytes
length-le_bytes zero v = refl
length-le_bytes (suc n) v = ap suc (length-le_bytes n (v / 256))

load-le_bytes : (n v : ℕ) (ys : List ℕ) → v < 256 ^ n → load n (le_bytes n v ++ ys) 0 ≡ v
unfolding load le_bytes
load-le_bytes zero v ys h = omega arith
load-le_bytes (suc n) v ys h = omega (
  arith,
  load_shift (v % 256 ∷ le_bytes n (v / 256) ++ ys) (le_bytes n (v / 256) ++ ys) n 1 0
      (λ k lt. after_first (v % 256) (le_bytes n (v / 256) ++ ys) k),
  load-le_bytes n (v / 256) ys (omega (arith, pow-suc 256 n)),
)

load_fields-store : (ws vs : List ℕ) → Fits ws vs → load_fields ws (store_fields ws vs) 0 ≡ vs
unfolding load_fields store_fields
load_fields-store [] [] h = refl
load_fields-store [] (v ∷ vs) h = absurd h
load_fields-store (w ∷ ws) [] h = absurd h
load_fields-store (w ∷ ws) (v ∷ vs) (h, hs) = rw (load-le_bytes w v (store_fields ws vs) h) (
    ap (λ l. v ∷ l)
      (load_fields_same (le_bytes w v ++ store_fields ws vs) (store_fields ws vs) ws (0 + w) 0
          (λ k lt.
            same_place (le_bytes w v ++ store_fields ws vs) (0 + w + k) (length (le_bytes w v) + k)
              (omega (arith, length-le_bytes w v))
            ∙ get_or-right (le_bytes w v) (store_fields ws vs) k)
        ∙ load_fields-store ws vs hs))

bytes_at-all : (xs ys : List ℕ) → bytes_at (length xs) (xs ++ ys) 0 ≡ xs
unfolding bytes_at
bytes_at-all [] ys = refl
bytes_at-all (x ∷ xs) ys =
    ap (λ l. x ∷ l)
      (bytes_at_same (x ∷ xs ++ ys) (xs ++ ys) (length xs) 1 0 (λ k lt. after_first x (xs ++ ys) k)
        ∙ bytes_at-all xs ys)

decode-encode_0 : (e : DirEntry) → IsDirEntry e → decode (encode e) 0 ≡ e
unfolding decode encode
decode-encode_0 e (len, fits) =
    ap (λ l. entry_of l (load_fields widths (encode e) 11)) name ∙ ap (entry_of e.name) fields
  where
    tail : List ℕ
    tail = store_fields widths (fields_of e)

    name : bytes_at 11 (encode e) 0 ≡ e.name
    name = ap (λ n. bytes_at n (encode e) 0) (sym len) ∙ bytes_at-all e.name tail

    fields : load_fields widths (encode e) 11 ≡ fields_of e
    fields =
        load_fields_same (encode e) tail widths 11 0 (λ k lt.
          same_place (encode e) (11 + k) (length e.name + k) (omega (arith, len))
          ∙ get_or-right e.name tail k)
        ∙ load_fields-store widths (fields_of e) fits

length-store_fields : (ws vs : List ℕ) → Fits ws vs → length (store_fields ws vs) ≡ sum [] [] ws
unfolding store_fields sum
length-store_fields [] [] h = refl
length-store_fields [] (v ∷ vs) h = absurd h
length-store_fields (w ∷ ws) [] h = absurd h
length-store_fields (w ∷ ws) (v ∷ vs) (h, hs) = omega (
  arith,
  length-append (le_bytes w v) (store_fields ws vs),
  length-le_bytes w v,
  length-store_fields ws vs hs,
)

pub length-encode : (e : DirEntry) → IsDirEntry e → length (encode e) ≡ 32
unfolding encode sum
length-encode e (len, fits) = omega (
  arith,
  length-append e.name (store_fields widths (fields_of e)),
  len,
  length-store_fields widths (fields_of e) fits,
)

pub length-write :
    (bytes : List ℕ) (i : ℕ) (xs : List ℕ) → length (write_at bytes i xs) ≡ length bytes
unfolding write_at
length-write bytes i [] = refl
length-write bytes i (x ∷ xs) =
    length-set (write_at bytes (i + 1) xs) i x ∙ length-write bytes (i + 1) xs

-- A write changes its place only.
pub get_or-write_out :
    (bytes : List ℕ) (i : ℕ) (xs : List ℕ) (k : ℕ)
    → (k < i) ⊎ (i + length xs ≤ k)
    → get_or (write_at bytes i xs) k 0 ≡ get_or bytes k 0
unfolding write_at
get_or-write_out bytes i [] k out = refl
get_or-write_out bytes i (x ∷ xs) k out =
    get_or-set_ne (write_at bytes (i + 1) xs) i k x 0 (omega arith)
    ∙ get_or-write_out bytes (i + 1) xs k (omega arith)

pub get_or-write_in :
    (bytes : List ℕ) (i : ℕ) (xs : List ℕ) (k : ℕ)
    → i + length xs ≤ length bytes
    → k < length xs
    → get_or (write_at bytes i xs) (i + k) 0 ≡ get_or xs k 0
unfolding write_at
get_or-write_in bytes i [] k room h = absurd (omega arith)
get_or-write_in bytes i (x ∷ xs) zero room h =
    ap (λ n. get_or (set (write_at bytes (i + 1) xs) i x) n 0) (omega arith)
    ∙ get_or-set_self (write_at bytes (i + 1) xs) i x 0
        (omega (arith, length-write bytes (i + 1) xs))
get_or-write_in bytes i (x ∷ xs) (suc k) room h =
    get_or-set_ne (write_at bytes (i + 1) xs) i (i + suc k) x 0 (omega arith)
    ∙ ap (λ n. get_or (write_at bytes (i + 1) xs) n 0) (omega arith)
    ∙ get_or-write_in bytes (i + 1) xs k (omega arith) (omega arith)

-- An entry whose fields have their sizes, copied to a place inside a block, is read back from there,
-- and every entry that does not overlap it is read as before.
pub decode-encode :
    (bytes : List ℕ) (i : ℕ) (e : DirEntry)
    → IsDirEntry e
    → i + 32 ≤ length bytes
    → (decode (write_at bytes i (encode e)) i ≡ e)
      × ((j : ℕ)
          → (j + 32 ≤ i) ⊎ (i + 32 ≤ j)
          → decode (write_at bytes i (encode e)) j ≡ decode bytes j)
decode-encode bytes i e fit room = (
  decode_same (write_at bytes i (encode e)) (encode e) i 0 (λ k h.
        get_or-write_in bytes i (encode e) k (omega (arith, length-encode e fit))
          (omega (arith, length-encode e fit))
        ∙ same_place (encode e) k (0 + k) (omega arith))
      ∙ decode-encode_0 e fit,
  (λ j apart.
      decode_same (write_at bytes i (encode e)) bytes j j
        (λ k h. get_or-write_out bytes i (encode e) (j + k) (omega (arith, length-encode e fit)))),
)

-- The cluster number that `fat_set_start` stores is the one that `fat_get_start` gives: below 2^32 on
-- FAT32, and its low 16 bits on FAT12 and FAT16.
pub get-set_start :
    (de : DirEntry) (cluster : ℕ)
    → cluster < 2 ^ 32
    → (fat_get_start true (fat_set_start de cluster) ≡ cluster)
      × (fat_get_start false (fat_set_start de cluster) ≡ cluster % 2 ^ 16)
unfolding fat_get_start fat_set_start
get-set_start de cluster h = (
  or_low_high 16 (cluster % 2 ^ 16) (cluster / 2 ^ 16 % 2 ^ 16) (omega arith) ∙ omega arith,
  refl,
)

-- An entry whose first name byte is overwritten.
abbrev pub renamed : ℕ → DirEntry → DirEntry
renamed v e = record e { name = v ∷ drop 1 e.name }

pub decode-set_first :
    (bytes : List ℕ) (i v : ℕ)
    → i + 32 ≤ length bytes
    → decode (set bytes i v) i ≡ renamed v (decode bytes i)
unfolding decode bytes_at sum
decode-set_first bytes i v room =
    rw
      (
        get_or-set_self bytes i v 0 (omega arith),
        bytes_at_same (set bytes i v) bytes 10 (i + 1) (i + 1)
            (λ k h. get_or-set_ne bytes i (i + 1 + k) v 0 (omega arith)),
        load_fields_same (set bytes i v) bytes widths (i + 11) (i + 11)
            (λ k h. get_or-set_ne bytes i (i + 11 + k) v 0 (omega arith)),
      )
      refl

pub decode-set_other :
    (bytes : List ℕ) (i v j : ℕ)
    → (j + 32 ≤ i) ⊎ (i + 32 ≤ j)
    → decode (set bytes i v) j ≡ decode bytes j
decode-set_other bytes i v j apart =
    decode_same (set bytes i v) bytes j j (λ k h. get_or-set_ne bytes i (j + k) v 0 (omega arith))
