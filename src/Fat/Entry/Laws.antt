-- ===== src/Fat/Entry/Laws.antt =====
-- What `ent_get` reads after `ent_put`, in the three widths.
use userfs.Prelude.{ℕ, ◌+◌, ◌*◌, ◌/◌, ◌%◌, ◌^◌, ◌<◌, ◌≡◌, refl, arith, ap, bit_and, bit_or}
use userfs.Prelude.Bits.{and_mask, and_high, or_high_low}
use userfs.Fat.Entry.{
  Pair12, fat12_ent_get, fat12_ent_put, fat16_ent_get, fat16_ent_put, fat32_ent_get, fat32_ent_put,
}

-- The low 28 bits.
pub mask28 : (x : ℕ) → bit_and x 0x0fff_ffff ≡ x % 2 ^ 28
mask28 x = and_mask 28 x 0x0fff_ffff refl

-- The high 4 bits of a 32-bit word, in their place.
pub high4 : (x : ℕ) → x < 2 ^ 32 → bit_and x 0xf000_0000 ≡ x / 2 ^ 28 * 2 ^ 28
high4 x h = omega (arith, and_high 28 x 15, and_mask 4 (x / 2 ^ 28) 15 refl)

pub fat32_ent_put-sum :
    (word new : ℕ) → word < 2 ^ 32 → fat32_ent_put word new ≡ word / 2 ^ 28 * 2 ^ 28 + new % 2 ^ 28
unfolding fat32_ent_put
fat32_ent_put-sum word new h = omega (
  arith,
  ap (λ t. bit_or t (bit_and new 0x0fff_ffff)) (high4 word h),
  ap (bit_or (word / 2 ^ 28 * 2 ^ 28)) (mask28 new),
  or_high_low 28 (word / 2 ^ 28) (new % 2 ^ 28) (omega arith),
)

-- A FAT32 entry reads as the low 28 bits of what was stored, and its high 4 bits are kept.
pub fat32_round_trip :
    (word new : ℕ)
    → word < 2 ^ 32
    → (fat32_ent_get (fat32_ent_put word new) ≡ new % 2 ^ 28)
      × (fat32_ent_put word new / 2 ^ 28 ≡ word / 2 ^ 28)
      × (fat32_ent_put word new < 2 ^ 32)
unfolding fat32_ent_get
fat32_round_trip word new h = (
  omega (arith, mask28 (fat32_ent_put word new), fat32_ent_put-sum word new h),
  omega (arith, fat32_ent_put-sum word new h),
  omega (arith, fat32_ent_put-sum word new h),
)

-- A FAT16 entry reads as the low 16 bits of what was stored.
pub fat16_round_trip :
    (word new : ℕ)
    → (fat16_ent_get (fat16_ent_put word new) ≡ new % 2 ^ 16) × (fat16_ent_put word new < 2 ^ 16)
unfolding fat16_ent_get fat16_ent_put
fat16_round_trip word new = (refl, omega arith)

nibble : (x : ℕ) → bit_and x 0x0f ≡ x % 16
nibble x = and_mask 4 x 0x0f refl

high_nibble : (x : ℕ) → x < 256 → bit_and x 0xf0 ≡ x / 16 * 16
high_nibble x h = omega (arith, and_high 4 x 15, and_mask 4 (x / 16) 15 refl)

mask8 : (x : ℕ) → bit_and x 0xff ≡ x % 256
mask8 x = and_mask 8 x 0xff refl

mask12 : (x : ℕ) → bit_and x 0x0fff ≡ x % 4096
mask12 x = and_mask 12 x 0x0fff refl

-- The two bytes of a pair are bytes.
pub record IsPair (p : Pair12) : Type 0 where
  pub low_byte : p.low < 256
  pub high_byte : p.high < 256

-- Even entries: the value is the low byte and the low nibble of the high byte.
pub get12_even :
    (e : ℕ) (p : Pair12) → e % 2 ≡ 0 → IsPair p → fat12_ent_get e p ≡ p.high % 16 * 256 + p.low
unfolding fat12_ent_get
get12_even e p even v =
    rw even
      (omega (arith, mask12 (bit_or (p.high * 2 ^ 8) p.low), or_high_low 8 p.high p.low v.low_byte))

-- Odd entries, as this code reads them: the high byte, and the LOW nibble of the low byte.
pub get12_odd : (e : ℕ) (p : Pair12) → e % 2 ≡ 1 → fat12_ent_get e p ≡ p.high * 16 + p.low % 16
unfolding fat12_ent_get
get12_odd e p odd = rw odd (
    omega (
      arith,
      ap (bit_or (p.high * 2 ^ 4)) (nibble p.low),
      or_high_low 4 p.high (p.low % 16) (omega arith),
    ))

-- The bytes that a store to an odd entry leaves.
pub put12_odd :
    (e : ℕ) (p : Pair12) (new : ℕ)
    → e % 2 ≡ 1
    → IsPair p
    → ((fat12_ent_put e p new).low ≡ p.low / 16 * 16 + new % 16)
      × ((fat12_ent_put e p new).high ≡ new / 16 % 256)
unfolding fat12_ent_put
put12_odd e p new odd v = rw odd (
  omega (
    arith,
    ap (λ t. bit_or t (bit_and new 0x0f)) (high_nibble p.low v.low_byte),
    ap (bit_or (p.low / 16 * 16)) (nibble new),
    or_high_low 4 (p.low / 16) (new % 16) (omega arith),
  ),
  omega arith,
)
