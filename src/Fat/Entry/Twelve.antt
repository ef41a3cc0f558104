-- ===== src/Fat/Entry/Twelve.antt =====
-- FAT12 entries share a byte with their neighbour: what the code reads of an odd entry, and what a store to
-- one does to the even entry before it.
use userfs.Prelude.{
  ℕ, suc, ◌+◌, ◌*◌, ◌/◌, ◌%◌, ◌<◌, ◌≡◌, ◌↔◌, arith, ◌⊎◌, inl, inr, refl, ◌==◌, if◌then◌else◌,
}
use userfs.Fat.Entry.{Pair12, fat12_ent_get, fat12_ent_put}
use userfs.Fat.Entry.Laws.{IsPair, get12_even, get12_odd, put12_odd}

-- The value of an entry in the FAT format: of the two bytes as a little-endian number, an even entry has
-- the low 12 bits and an odd one the high 12.
abbrev pub format_value : ℕ → Pair12 → ℕ
format_value e p = if e % 2 == 1 then (p.high * 256 + p.low) / 16 else (p.high * 256 + p.low) % 4096

-- `fat12_ent_get` reads what the FAT format says at every even entry, and at an odd one exactly when
-- the two halves of the low byte are the same.
pub fat12_ent_get-format :
    (e : ℕ) (p : Pair12)
    → IsPair p
    → (fat12_ent_get e p ≡ format_value e p) ↔ ((e % 2 ≡ 0) ⊎ (p.low % 16 ≡ p.low / 16))
fat12_ent_get-format e p v = elim (parity e) [
  | inl even ↦ rw even ((λ same. inl refl, λ h. omega (arith, v, get12_even e p even v)))
  | inr odd ↦ rw odd (
      (
        λ same. inr (omega (arith, v, same, get12_odd e p odd)),
        λ h. omega (arith, v, h, get12_odd e p odd),
      ))
]
  where
    parity : (n : ℕ) → (n % 2 ≡ 0) ⊎ (n % 2 ≡ 1)
    parity n = omega arith

-- The entries `e` and `e + 1`, with `e` even, in the three bytes that they take together.
abbrev pub even_pair : ℕ → ℕ → ℕ → Pair12
even_pair b0 b1 b2 = record { low = b0; high = b1 }

abbrev pub odd_pair : ℕ → ℕ → ℕ → Pair12
odd_pair b0 b1 b2 = record { low = b1; high = b2 }

-- Storing an odd FAT12 entry leaves its even neighbour as it was exactly when the low 4 bits of the
-- new value are those of the byte that the two share, bits 8 to 11 of the neighbour.
pub fat12_neighbour :
    (e b0 b1 b2 new : ℕ)
    → e % 2 ≡ 0
    → b0 < 256
    → b1 < 256
    → b2 < 256
    → (fat12_ent_get e (even_pair b0 (fat12_ent_put (suc e) (odd_pair b0 b1 b2) new).low b2)
        ≡ fat12_ent_get e (even_pair b0 b1 b2))
      ↔ (new % 16 ≡ b1 % 16)
fat12_neighbour e b0 b1 b2 new even h0 h1 h2 =
    (λ same. omega (arith, before, after), λ same. omega (arith, before, after))
  where
    stored : (fat12_ent_put (suc e) (odd_pair b0 b1 b2) new).low ≡ b1 / 16 * 16 + new % 16
    stored = (put12_odd (suc e) (odd_pair b0 b1 b2) new (omega arith) (omega arith)).0

    before : fat12_ent_get e (even_pair b0 b1 b2) ≡ b1 % 16 * 256 + b0
    before = get12_even e (even_pair b0 b1 b2) even (omega arith)

    after :
        fat12_ent_get e (even_pair b0 (fat12_ent_put (suc e) (odd_pair b0 b1 b2) new).low b2)
        ≡ new % 16 * 256 + b0
    after = omega (
      arith,
      stored,
      get12_even e (even_pair b0 (fat12_ent_put (suc e) (odd_pair b0 b1 b2) new).low b2) even
          (omega (arith, stored)),
    )
