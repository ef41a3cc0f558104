-- ===== src/Fat/Words.antt =====
-- FAT16 and FAT32 tables as bytes of blocks: `fat_ent_blocknr`, `fat_ent_bread`, `fat_ent_read` and
-- the `ent_put` of a store, src/fs/fat/src/fatent.c. `fatent_set_entry` clears the pointer that
-- `fat_ent_update_ptr` asks for, so each `fat_ent_read` reads its block through `ufs_bread` anew.
pub mod Bytes
pub mod Place
pub mod Fill
use userfs.Prelude.{
  ℕ, zero, suc, ◌+◌, ◌-◌, ◌*◌, ◌/◌, ◌%◌, ◌^◌, ◌≤◌, ◌<◌, ◌≡◌, Option, none, some, Outcome, ok, err,
  eio, List, get_or, set, ltb, leb, ◌==◌, ◌&&◌, if◌then◌else◌, bit_and,
}
use userfs.Fat.Table.{fat_start_ent, fat_ent_free, fat_ent_eof}

-- What `ufs_bread` gives for each block: its bytes, or nothing where it returns NULL.
abbrev pub Blocks : Type 0
Blocks = ℕ → Option (List ℕ)

-- The blocks after the bytes of block `p` have changed.
unfoldable pub put_block : Blocks → ℕ → List ℕ → Blocks
put_block blocks p bytes b = if b == p then some bytes else blocks b

-- The fields of `msdos_sb_info` and of the super block that place an entry.
pub record Volume : Type 0 where
  pub fat_start : ℕ
  pub blocksize : ℕ
  pub blocksize_bits : ℕ
  pub max_cluster : ℕ

-- A table of `fatent_operations` for entries of `2 ^ shift` bytes, with `max_fat`: the value of a
-- word, the word after a store, and the part of the value that is stored.
pub record Width : Type 0 where
  pub shift : ℕ
  pub max_fat : ℕ
  pub ent_get : ℕ → ℕ
  pub ent_put : ℕ → ℕ → ℕ
  pub stored : ℕ → ℕ
  pub ent_put-lt : (w new : ℕ) → w < 256 ^ (2 ^ shift) → ent_put w new < 256 ^ (2 ^ shift)
  pub ent_get-put : (w new : ℕ) → w < 256 ^ (2 ^ shift) → ent_get (ent_put w new) ≡ stored new
  pub stored_free : stored fat_ent_free ≡ fat_ent_free
  pub stored_eof : max_fat ≤ stored fat_ent_eof
  pub stored_small : (v : ℕ) → v < max_fat → stored v ≡ v

-- The little-endian number in `n` bytes, and its store.
unfoldable pub load : ℕ → List ℕ → ℕ → ℕ
load zero bytes i = 0
load (suc n) bytes i = get_or bytes i 0 + 256 * load n bytes (i + 1)

unfoldable pub store : ℕ → List ℕ → ℕ → ℕ → List ℕ
store zero bytes i v = bytes
store (suc n) bytes i v = set (store n bytes (i + 1) (v / 256)) i (v % 256)

module _ (v : Volume) (w : Width) where
  -- `fat_ent_blocknr`: `*offset` and `*blocknr`.
  abbrev pub ent_offset : ℕ → ℕ
  ent_offset entry = bit_and (entry * 2 ^ w.shift) (v.blocksize - 1)

  abbrev pub ent_blocknr : ℕ → ℕ
  ent_blocknr entry = v.fat_start + entry * 2 ^ w.shift / 2 ^ v.blocksize_bits

  -- `ent_get` at the pointer into the block.
  unfoldable pub block_get : Option (List ℕ) → ℕ → ℕ
  block_get none i = 0
  block_get (some bytes) i = w.ent_get (load (2 ^ w.shift) bytes i)

  pub block_put : Option (List ℕ) → ℕ → ℕ → Option (List ℕ)
  block_put none i new = none
  block_put (some bytes) i new =
      some (store (2 ^ w.shift) bytes i (w.ent_put (load (2 ^ w.shift) bytes i) new))

  -- `fat_ent_bread` and what follows it in `fat_ent_read`.
  unfoldable pub block_read : Option (List ℕ) → ℕ → Outcome ℕ
  block_read none i = err eio
  block_read (some bytes) i = ok (block_get (some bytes) i)

  unfoldable pub ent_get : Blocks → ℕ → ℕ
  ent_get t entry = block_get (t (ent_blocknr entry)) (ent_offset entry)

  -- `fat_ent_read`
  unfoldable pub fat_ent_read : Blocks → ℕ → Outcome ℕ
  fat_ent_read t entry =
      if leb fat_start_ent entry && ltb entry v.max_cluster
      then block_read (t (ent_blocknr entry)) (ent_offset entry)
      else err eio

  -- `ent_put` after a `fat_ent_read` of the entry: the buffer of its block changes.
  pub ent_put : Blocks → ℕ → ℕ → Blocks
  ent_put t entry new b =
      if b == ent_blocknr entry then block_put (t b) (ent_offset entry) new else t b
