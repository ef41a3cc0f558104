-- ===== src/Prelude/Bits.antt =====
-- `bit_and` by a mask of low ones and `bit_or` of disjoint fields, as arithmetic that `omega` reads.
use Prim.Native.Nat.{max, min, digits, bit_and-bitwise, bit_or-bitwise}
use native.Mathlib.Nat.{
  add-mul-mod_self_left, mod-eq_of_lt, mod-lt, mod-add-div, pow-suc, pow-succ', div-div-eq-div-mul,
}
use userfs.Prelude.{
  ℕ, zero, suc, ◌+◌, ◌*◌, ◌/◌, ◌%◌, ◌^◌, ◌≤◌, ◌<◌, ◌≡◌, refl, ◌∙◌, ap, sym, arith, bit_and, bit_or,
}

-- The digit recursion that both native operations stand for, with spare fuel.
module _ (f : ℕ → ℕ → ℕ) (g : ℕ → ℕ) where
  spare_fuel : (n m a b : ℕ) → a ≤ n → a ≤ m → digits g f n a b ≡ digits g f m a b
  spare_fuel zero zero a b p q = refl
  spare_fuel zero (suc m) zero b p q = refl
  spare_fuel zero (suc m) (suc a) b p q = absurd (omega arith)
  spare_fuel (suc n) zero zero b p q = refl
  spare_fuel (suc n) zero (suc a) b p q = absurd (omega arith)
  spare_fuel (suc n) (suc m) zero b p q = refl
  spare_fuel (suc n) (suc m) (suc a) b p q =
      omega (arith, spare_fuel n m (suc a / 2) (b / 2) (omega arith) (omega arith))

zero-bit_and : (b : ℕ) → bit_and 0 b ≡ 0
zero-bit_and b = bit_and-bitwise 0 b

zero-bit_or : (b : ℕ) → bit_or 0 b ≡ b
zero-bit_or b = bit_or-bitwise 0 b

-- The lowest digit splits off.
and_step : (a b : ℕ) → bit_and a b ≡ bit_and (a / 2) (b / 2) * 2 + min (a % 2) (b % 2)
and_step zero b = omega (arith, zero-bit_and b, zero-bit_and (b / 2))
and_step (suc a) b = omega (
  arith,
  bit_and-bitwise (suc a) b,
  bit_and-bitwise (suc a / 2) (b / 2),
  spare_fuel min (λ b. zero) a (suc a / 2) (suc a / 2) (b / 2) (omega arith) (omega arith),
)

or_step : (a b : ℕ) → bit_or a b ≡ bit_or (a / 2) (b / 2) * 2 + max (a % 2) (b % 2)
or_step zero b = omega (arith, zero-bit_or b, zero-bit_or (b / 2))
or_step (suc a) b = omega (
  arith,
  bit_or-bitwise (suc a) b,
  bit_or-bitwise (suc a / 2) (b / 2),
  spare_fuel max (λ b. b) a (suc a / 2) (suc a / 2) (b / 2) (omega arith) (omega arith),
)

or-zero_below : (n a : ℕ) → a ≤ n → bit_or a 0 ≡ a
or-zero_below n zero h = zero-bit_or 0
or-zero_below zero (suc a) h = absurd (omega arith)
or-zero_below (suc n) (suc a) h =
    omega (arith, or_step (suc a) 0, or-zero_below n (suc a / 2) (omega arith))

and-zero_below : (n a : ℕ) → a ≤ n → bit_and a 0 ≡ 0
and-zero_below n zero h = zero-bit_and 0
and-zero_below zero (suc a) h = absurd (omega arith)
and-zero_below (suc n) (suc a) h =
    omega (arith, and_step (suc a) 0, and-zero_below n (suc a / 2) (omega arith))

mod_double : (x p : ℕ) → 0 < p → x % (2 * p) ≡ (x / 2) % p * 2 + x % 2
mod_double x p h =
    ap (λ t. t % (2 * p)) split ∙ add-mul-mod_self_left s (2 * p) q ∙ mod-eq_of_lt small
  where
    q : ℕ
    q = x / 2 / p

    s : ℕ
    s = (x / 2) % p * 2 + x % 2

    split : x ≡ s + 2 * p * q
    split = omega (arith, mod-add-div (x / 2) p)

    small : s < 2 * p
    small = omega (arith, mod-lt (x / 2) h)

pub pow_pos : (k : ℕ) → 0 < 2 ^ k
pow_pos zero = omega arith
pow_pos (suc k) = omega (arith, pow-suc 2 k, pow_pos k)

-- A mask of `k` ones takes the remainder by `2 ^ k`.
pub and_mask : (k x m : ℕ) → suc m ≡ 2 ^ k → bit_and x m ≡ x % 2 ^ k
and_mask zero x m e =
    let z : m ≡ 0 = omega arith in rw z (and-zero_below x x (omega arith) ∙ (omega arith))
and_mask (suc k) x m e = omega (
  arith,
  and_step x m,
  and_mask k (x / 2) (m / 2) (omega (arith, pow-suc 2 k)),
  pow-suc 2 k,
  ap (λ p. x % p) (pow-succ' 2 k),
  mod_double x (2 ^ k) (pow_pos k),
)

-- Fields that do not overlap are joined by addition, in either order.
pub or_high_low : (k h l : ℕ) → l < 2 ^ k → bit_or (h * 2 ^ k) l ≡ h * 2 ^ k + l
or_high_low zero h l lt =
    let z : l ≡ 0 = omega arith in
    rw z (or-zero_below (h * 1) (h * 1) (omega arith) ∙ (omega arith))
or_high_low (suc k) h l lt = omega (
  arith,
  or_step (h * 2 ^ suc k) l,
  ap (λ t. bit_or t (l / 2)) half,
  or_high_low k h (l / 2) (omega (arith, pow-suc 2 k)),
  even,
)
  where
    even : h * 2 ^ suc k ≡ h * 2 ^ k * 2
    even = rw pow-suc (omega arith)

    half : h * 2 ^ suc k / 2 ≡ h * 2 ^ k
    half = omega (arith, even)

pub or_low_high : (k l h : ℕ) → l < 2 ^ k → bit_or l (h * 2 ^ k) ≡ h * 2 ^ k + l
or_low_high zero l h lt = let z : l ≡ 0 = omega arith in rw z (zero-bit_or (h * 1) ∙ (omega arith))
or_low_high (suc k) l h lt = omega (
  arith,
  or_step l (h * 2 ^ suc k),
  ap (λ t. bit_or (l / 2) t) half,
  or_low_high k (l / 2) h (omega (arith, pow-suc 2 k)),
  even,
)
  where
    even : h * 2 ^ suc k ≡ h * 2 ^ k * 2
    even = rw pow-suc (omega arith)

    half : h * 2 ^ suc k / 2 ≡ h * 2 ^ k
    half = omega (arith, even)

-- A mask above bit `k` masks what is left when the low bits go.
pub and_high : (k x m : ℕ) → bit_and x (m * 2 ^ k) ≡ bit_and (x / 2 ^ k) m * 2 ^ k
and_high zero x m = omega (arith, ap (bit_and x) one, ap (λ t. bit_and t m) whole)
  where
    one : m * 1 ≡ m
    one = omega arith

    whole : x / 1 ≡ x
    whole = omega arith
and_high (suc k) x m = omega (
  arith,
  and_step x (m * 2 ^ suc k),
  ap (λ t. bit_and (x / 2) t) half,
  and_high k (x / 2) m,
  ap (λ t. bit_and t m * 2 ^ suc k)
      (div-div-eq-div-mul x 2 (2 ^ k) ∙ ap (λ t. x / t) (sym (pow-succ' 2 k))),
  ap (λ t. bit_and (x / 2 / 2 ^ k) m * t) (pow-suc 2 k),
  even,
)
  where
    even : m * 2 ^ suc k ≡ m * 2 ^ k * 2
    even = rw pow-suc (omega arith)

    half : m * 2 ^ suc k / 2 ≡ m * 2 ^ k
    half = omega (arith, even)
