-- ===== src/Fat/Dir/Remove/Correct.antt =====
-- What `fat_remove_entries` does to the entries of a directory.
use native.Mathlib.Nat.{add-mul-div_left, add-mul-mod_self_left, div-eq_of_lt, mod-eq_of_lt}
use userfs.Prelude.{
  ℕ, ◌+◌, ◌*◌, ◌/◌, ◌%◌, ◌^◌, ◌≤◌, ◌<◌, ◌≡◌, ◌≢◌, ◌⊎◌, refl, arith, true, some, ok, List, set,
  length, ap, ◌∙◌,
}
use userfs.Prelude.Bits.{pow_pos}
use userfs.Fat.DirEntry.{DirEntry, entry_size, deleted_flag, is_free}
use userfs.Fat.DirEntry.Bytes.{renamed, decode-set_first, decode-set_other}
use userfs.Fat.Words.{put_block}
use userfs.Fat.Dir.{DirBlocks, phys_of}
use userfs.Fat.Dir.Scan.{Slot}
use userfs.Fat.Dir.Entries.{entries}
use userfs.Fat.Dir.Remove.{on_blocks, delete_in, delete_at, delete_slots, fat_remove_entries}
use userfs.Fat.Dir.Remove.Update.{replace_at, entries_changed}

-- A deleted entry is free.
pub is_free-renamed : (e : DirEntry) → is_free (renamed deleted_flag e) ≡ true
unfolding is_free
is_free-renamed e = refl

-- The slot of entry `k` of sector `t`, as the search gives it.
abbrev pub slot_of : DirBlocks → ℕ → ℕ → DirEntry → Slot
slot_of d t k e = record {
  i_pos = t * 2 ^ d.s_blocksize_bits + k * 32;
  slot_off = t * 2 ^ d.s_blocksize_bits + k * 32;
  nr_slots = 1;
  de = some e;
}

module _ (d : DirBlocks) (t q k : ℕ) (bytes : List ℕ) (mapped : phys_of (d.bmap t) ≡ some q)
    (alone : (i : ℕ) → phys_of (d.bmap i) ≡ some q → i ≡ t) (there : d.bread q ≡ some bytes)
    (whole : length bytes ≡ 2 ^ d.s_blocksize_bits) (inside : k < d.dir_per_block) where
  abbrev size : ℕ
  size = 2 ^ d.s_blocksize_bits

  in_block : k * 32 + 32 ≤ size
  in_block = omega (arith, d.entries_fill)

  positive : 0 < size
  positive = pow_pos d.s_blocksize_bits

  split : t * size + k * 32 + 0 * entry_size ≡ k * 32 + size * t
  split = omega arith

  sector_of : (t * size + k * 32 + 0 * entry_size) / size ≡ t
  sector_of =
      ap (λ n. n / size) split
      ∙ add-mul-div_left (k * 32) t positive
      ∙ omega (arith, div-eq_of_lt (below in_block))
    where
      below : k * 32 + 32 ≤ size → k * 32 < size
      below h = omega arith

  offset_of : (t * size + k * 32 + 0 * entry_size) % size ≡ k * 32
  offset_of =
      ap (λ n. n % size) split
      ∙ add-mul-mod_self_left (k * 32) size t
      ∙ mod-eq_of_lt (below in_block)
    where
      below : k * 32 + 32 ≤ size → k * 32 < size
      below h = omega arith

  pub removed :
      (e : DirEntry)
      → fat_remove_entries d (slot_of d t k e) d.bread
        ≡ (ok tt, put_block d.bread q (set bytes (k * 32) deleted_flag))
  unfolding fat_remove_entries delete_slots delete_at delete_in
  removed e =
      ap
        (λ n.
          (ok tt, delete_at d (t * size + k * 32 + 0 * entry_size) (phys_of (d.bmap n)) d.bread))
        sector_of
      ∙ ap (λ o. (ok tt, delete_at d (t * size + k * 32 + 0 * entry_size) o d.bread)) mapped
      ∙ ap (λ o. (ok tt, delete_in d (t * size + k * 32 + 0 * entry_size) q o d.bread)) there
      ∙ ap (λ n. (ok tt, put_block d.bread q (set bytes n deleted_flag))) offset_of

  -- In a directory whose sector `t` is mapped to a block that no other sector has and that can be
  -- read, `fat_remove_entries` of the entry `k` of the sector succeeds; afterwards this entry is free
  -- and otherwise as it was, and all other entries of the directory are unchanged.
  pub fat_remove_entries_lem :
      (e : DirEntry)
      → let (r, blocks) = fat_remove_entries d (slot_of d t k e) d.bread in
        (r ≡ ok tt)
        × (entries (on_blocks d blocks)
            ≡ replace_at (t * 2 ^ d.s_blocksize_bits + k * 32) (renamed deleted_flag) (entries d))
        × ((old : DirEntry) → is_free (renamed deleted_flag old) ≡ true)
  fat_remove_entries_lem e = (
    ap (λ z. z.0) (removed e),
    ap (λ z. entries (on_blocks d z.1)) (removed e)
        ∙ entries_changed d (renamed deleted_flag) t q k bytes (set bytes (k * 32) deleted_flag)
            mapped alone there inside
            (decode-set_first bytes (k * 32) deleted_flag (omega (arith, in_block)))
            (λ de ne. decode-set_other bytes (k * 32) deleted_flag (de * 32) (aside de ne)),
    is_free-renamed,
  )
    where
      aside : (de : ℕ) → de ≢ k → (de * 32 + 32 ≤ k * 32) ⊎ (k * 32 + 32 ≤ de * 32)
      aside de ne = omega arith
