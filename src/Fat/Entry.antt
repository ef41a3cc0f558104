-- ===== src/Fat/Entry.antt =====
-- FAT entries on disk: ent_get, ent_put and ent_blocknr of src/fs/fat/src/fatent.c.
pub mod Laws
pub mod Twelve
use userfs.Prelude.{ℕ, ◌*◌, ◌/◌, ◌%◌, ◌^◌, ◌==◌, if◌then◌else◌, bit_and, bit_or}

-- The two bytes that `ent12_p` points to, `(*ent12_p[0], *ent12_p[1])`.
pub record Pair12 : Type 0 where
  pub low : ℕ
  pub high : ℕ

-- `fat12_ent_get`. A shift left by 4 is `* 16`, by 8 `* 256`; the result is an `int`.
pub fat12_ent_get : ℕ → Pair12 → ℕ
fat12_ent_get entry p =
    if entry % 2 == 1
    then bit_or (p.high * 2 ^ 4) (bit_and p.low 0x0f)
    else bit_and (bit_or (p.high * 2 ^ 8) p.low) 0x0fff

-- `fat12_ent_put`; a store into a `u8` keeps the low 8 bits.
pub fat12_ent_put : ℕ → Pair12 → ℕ → Pair12
fat12_ent_put entry p new =
    if entry % 2 == 1
    then record {
      low = bit_or (bit_and p.low 0xf0) (bit_and new 0x0f) % 2 ^ 8;
      high = new / 2 ^ 4 % 2 ^ 8;
    }
    else record {
      low = bit_and new 0xff % 2 ^ 8;
      high = bit_or (bit_and p.high 0xf0) (bit_and (new / 2 ^ 8) 0x0f) % 2 ^ 8;
    }

-- `fat16_ent_get` and `fat16_ent_put`, on the little-endian 16-bit word at `ent16_p`.
unfoldable pub fat16_ent_get : ℕ → ℕ
fat16_ent_get word = word

pub fat16_ent_put : ℕ → ℕ → ℕ
fat16_ent_put word new = new % 2 ^ 16

-- `fat32_ent_get` and `fat32_ent_put`, on the 32-bit word at `ent32_p`.
unfoldable pub fat32_ent_get : ℕ → ℕ
fat32_ent_get word = bit_and word 0x0fff_ffff

pub fat32_ent_put : ℕ → ℕ → ℕ
fat32_ent_put word new = bit_or (bit_and word 0xf000_0000) (bit_and new 0x0fff_ffff) % 2 ^ 32
