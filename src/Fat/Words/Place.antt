-- ===== src/Fat/Words/Place.antt =====
-- Where entries lie: no entry crosses the end of its block, and no two of one block overlap.
use native.Mathlib.Nat.{
  add-mul-mod_self_left, mod-eq_of_lt, mul-div-mul_right, mod-add-div, mod-lt, pow-suc, mul_assoc,
}
use userfs.Prelude.{
  ℕ, zero, suc, ◌+◌, ◌-◌, ◌*◌, ◌/◌, ◌%◌, ◌^◌, ◌≤◌, ◌<◌, ◌≡◌, ◌≢◌, ◌⊎◌, inl, inr, arith, ◌∙◌, ap,
  sym, lt_cases,
}
use userfs.Prelude.Bits.{and_mask, pow_pos}
use userfs.Fat.Words.{Volume, Width, ent_offset, ent_blocknr}

-- The geometry that `fat_set_sb_info` sets up: a block holds a whole number of entries, and cluster
-- numbers are `int`s below the end marks of the width.
pub record IsVolume (v : Volume) (w : Width) : Type 0 where
  pub per_block_bits : ℕ
  pub bits_split : v.blocksize_bits ≡ per_block_bits + w.shift
  pub block_power : v.blocksize ≡ 2 ^ v.blocksize_bits
  pub some_cluster : 2 < v.max_cluster
  pub int_cluster : v.max_cluster < 2 ^ 31
  pub fits_width : v.max_cluster ≤ w.max_fat

pow_add : (a b : ℕ) → 2 ^ (a + b) ≡ 2 ^ a * 2 ^ b
pow_add a zero = let z : a + 0 ≡ a = omega arith in rw z (omega arith)
pow_add a (suc b) =
    let s : a + suc b ≡ suc (a + b) = omega arith in
    ap (λ n. 2 ^ n) s
    ∙ pow-suc 2 (a + b)
    ∙ ap (λ t. t * 2) (pow_add a b)
    ∙ mul_assoc (2 ^ a) (2 ^ b) 2
    ∙ ap (λ t. 2 ^ a * t) (sym (pow-suc 2 b))

mod_scale : (e m w : ℕ) → 0 < m → 0 < w → (e * w) % (m * w) ≡ e % m * w
mod_scale e m w hm hw =
    ap (λ t. t % (m * w)) split
    ∙ add-mul-mod_self_left (e % m * w) (m * w) (e / m)
    ∙ mod-eq_of_lt small
  where
    split : e * w ≡ e % m * w + m * w * (e / m)
    split = grind (arith, ap (λ t. t * w) (mod-add-div e m))

    small : e % m * w < m * w
    small = grind (arith, mod-lt e hm)

module _ (v : Volume) (w : Width) (g : IsVolume v w) where
  -- How many entries a block holds, and how many bytes an entry.
  abbrev pub per_block : ℕ
  per_block = 2 ^ g.per_block_bits

  abbrev pub wide : ℕ
  wide = 2 ^ w.shift

  pub blocksize-split : v.blocksize ≡ per_block * wide
  blocksize-split = g.block_power ∙ ap (λ n. 2 ^ n) g.bits_split ∙ pow_add g.per_block_bits w.shift

  pub offset-eq : (e : ℕ) → ent_offset v w e ≡ e % per_block * wide
  offset-eq e =
      and_mask v.blocksize_bits (e * wide) (v.blocksize - 1)
        (omega (arith, g.block_power, pow_pos v.blocksize_bits))
      ∙ ap (λ n. (e * wide) % n) (sym g.block_power ∙ blocksize-split)
      ∙ mod_scale e per_block wide (pow_pos g.per_block_bits) (pow_pos w.shift)

  pub blocknr-eq : (e : ℕ) → ent_blocknr v w e ≡ v.fat_start + e / per_block
  blocknr-eq e =
      ap (λ n. v.fat_start + e * wide / n) (sym g.block_power ∙ blocksize-split)
      ∙ ap (λ n. v.fat_start + n) (mul-div-mul_right e per_block (pow_pos w.shift))

  -- An entry ends inside its block.
  pub offset_room : (e : ℕ) → ent_offset v w e + wide ≤ v.blocksize
  offset_room e =
      let small : e % per_block < per_block = mod-lt e (pow_pos g.per_block_bits) in
      let room : e % per_block * wide + wide ≤ per_block * wide = grind arith in
      omega (arith, offset-eq e, blocksize-split)

  below_room : (a b : ℕ) → a < b → a * wide + wide ≤ b * wide
  below_room a b h = grind arith

  -- Two entries of one block lie apart.
  pub offset_apart :
      (e j : ℕ)
      → e ≢ j
      → ent_blocknr v w e ≡ ent_blocknr v w j
      → (ent_offset v w e + wide ≤ ent_offset v w j) ⊎ (ent_offset v w j + wide ≤ ent_offset v w e)
  offset_apart e j ne same = elim (lt_cases (e % per_block) (j % per_block)) [
    | inl less ↦
        inl
          (omega (arith, below_room (e % per_block) (j % per_block) less, offset-eq e, offset-eq j))
    | inr more ↦ inr (
        omega (
          arith,
          below_room (j % per_block) (e % per_block) (strict more),
          offset-eq e,
          offset-eq j,
        ))
  ]
    where
      blocks : e / per_block ≡ j / per_block
      blocks = omega (arith, blocknr-eq e, blocknr-eq j, same)

      strict : j % per_block ≤ e % per_block → j % per_block < e % per_block
      strict more =
          omega (
            arith,
            mod-add-div e per_block,
            mod-add-div j per_block,
            ap (λ q. per_block * q) blocks,
          )
