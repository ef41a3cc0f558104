-- ===== src/Fat/Words/Bytes.antt =====
-- Little-endian numbers in a byte buffer: a store reads back, and other bytes stay.
use native.Mathlib.Nat.{pow-suc}
use userfs.Prelude.{
  ℕ, zero, suc, ◌+◌, ◌/◌, ◌%◌, ◌^◌, ◌≤◌, ◌<◌, ◌≡◌, ◌⊎◌, refl, arith, List, [], ◌∷◌, All, length,
  get_or, set, length-set, get_or-set_self, get_or-set_ne, ◌∙◌,
}
use userfs.Fat.Words.{load, store}

abbrev pub IsByte : ℕ → Type 0
IsByte b = b < 256

pub length-store : (n : ℕ) (bytes : List ℕ) (i v : ℕ) → length (store n bytes i v) ≡ length bytes
unfolding store
length-store zero bytes i v = refl
length-store (suc n) bytes i v =
    length-set (store n bytes (i + 1) (v / 256)) i (v % 256)
    ∙ length-store n bytes (i + 1) (v / 256)

-- A byte outside the store.
pub get_or-store :
    (n : ℕ) (bytes : List ℕ) (i v k : ℕ)
    → (k < i) ⊎ (i + n ≤ k)
    → get_or (store n bytes i v) k 0 ≡ get_or bytes k 0
unfolding store
get_or-store zero bytes i v k out = refl
get_or-store (suc n) bytes i v k out =
    get_or-set_ne (store n bytes (i + 1) (v / 256)) i k (v % 256) 0 (omega arith)
    ∙ get_or-store n bytes (i + 1) (v / 256) k (omega arith)

-- Two buffers that agree on the bytes of a number hold the same number.
pub load_same :
    (n : ℕ) (bytes bytes' : List ℕ) (i : ℕ)
    → ((k : ℕ) → i ≤ k → k < i + n → get_or bytes k 0 ≡ get_or bytes' k 0)
    → load n bytes i ≡ load n bytes' i
unfolding load
load_same zero bytes bytes' i same = refl
load_same (suc n) bytes bytes' i same = omega (
  arith,
  same i (omega arith) (omega arith),
  load_same n bytes bytes' (i + 1) (λ k lo hi. same k (omega arith) (omega arith)),
)

pub load-store :
    (n : ℕ) (bytes : List ℕ) (i v : ℕ)
    → i + n ≤ length bytes
    → v < 256 ^ n
    → load n (store n bytes i v) i ≡ v
unfolding load store
load-store zero bytes i v room small = omega arith
load-store (suc n) bytes i v room small = omega (
  arith,
  get_or-set_self (store n bytes (i + 1) (v / 256)) i (v % 256) 0
      (omega (arith, length-store n bytes (i + 1) (v / 256))),
  load_same n (set (store n bytes (i + 1) (v / 256)) i (v % 256)) (store n bytes (i + 1) (v / 256))
      (i + 1)
      (λ k lo hi. get_or-set_ne (store n bytes (i + 1) (v / 256)) i k (v % 256) 0 (omega arith)),
  load-store n bytes (i + 1) (v / 256) (omega arith) (omega (arith, pow-suc 256 n)),
)

get_or-IsByte : (bytes : List ℕ) (i : ℕ) → All IsByte bytes → get_or bytes i 0 < 256
get_or-IsByte [] i h = omega arith
get_or-IsByte (b ∷ bs) zero (h, hs) = h
get_or-IsByte (b ∷ bs) (suc i) (h, hs) = get_or-IsByte bs i hs

pub load-lt : (n : ℕ) (bytes : List ℕ) (i : ℕ) → All IsByte bytes → load n bytes i < 256 ^ n
unfolding load
load-lt zero bytes i h = omega arith
load-lt (suc n) bytes i h =
    omega (arith, get_or-IsByte bytes i h, load-lt n bytes (i + 1) h, pow-suc 256 n)

set-IsByte : (bytes : List ℕ) (i v : ℕ) → v < 256 → All IsByte bytes → All IsByte (set bytes i v)
set-IsByte [] i v h hs = tt
set-IsByte (b ∷ bs) zero v h (hb, hs) = (h, hs)
set-IsByte (b ∷ bs) (suc i) v h (hb, hs) = (hb, set-IsByte bs i v h hs)

pub store-IsByte :
    (n : ℕ) (bytes : List ℕ) (i v : ℕ) → All IsByte bytes → All IsByte (store n bytes i v)
unfolding store
store-IsByte zero bytes i v h = h
store-IsByte (suc n) bytes i v h =
    set-IsByte (store n bytes (i + 1) (v / 256)) i (v % 256) (omega arith)
      (store-IsByte n bytes (i + 1) (v / 256) h)
