-- ===== src/Fat/Words/Fill.antt =====
-- FAT16 and FAT32 tables fill the interface Fat/Table.
use userfs.Prelude.{
  ℕ, ◌+◌, ◌^◌, ◌≤◌, ◌<◌, ◌≡◌, ◌≢◌, refl, arith, Option, none, some, ok, err, eio, List, All, length,
  ◌∙◌, ap, sym, ◌⊎◌, inl, inr, eq_cases, ==_self, ne→==, lt→ltb, le→leb, lt→leb,
}
use userfs.Fat.Table.{FatTable}
use userfs.Fat.Words.{
  Blocks, Volume, Width, load, store, ent_offset, ent_blocknr, block_get, block_put, block_read,
  ent_get, fat_ent_read, ent_put,
}
use userfs.Fat.Words.Bytes.{
  IsByte, length-store, get_or-store, load_same, load-store, load-lt, store-IsByte,
}
use userfs.Fat.Words.Place.{IsVolume, offset_room, offset_apart}

module _ (v : Volume) (w : Width) where
  -- A block of the table has been read, whole.
  abbrev pub IsBlock : Option (List ℕ) → Type 0
  IsBlock none = ⊥
  IsBlock (some bytes) = (length bytes ≡ v.blocksize) × All IsByte bytes

  -- Every block of the table can be read.
  abbrev pub IsReady : Blocks → Type 0
  IsReady t = (e : ℕ) → e < v.max_cluster → IsBlock (t (ent_blocknr v w e))

  read_block :
      (o : Option (List ℕ)) (i : ℕ) → IsBlock o → block_read v w o i ≡ ok (block_get v w o i)
  unfolding block_read
  read_block none i h = absurd h
  read_block (some bytes) i h = refl

  put-IsBlock : (o : Option (List ℕ)) (i new : ℕ) → IsBlock o → IsBlock (block_put v w o i new)
  unfolding block_put
  put-IsBlock none i new h = h
  put-IsBlock (some bytes) i new (len, all) =
      let word = w.ent_put (load (2 ^ w.shift) bytes i) new in
      (length-store (2 ^ w.shift) bytes i word ∙ len, store-IsByte (2 ^ w.shift) bytes i word all)

  get-put_block :
      (o : Option (List ℕ)) (i new : ℕ)
      → IsBlock o
      → i + 2 ^ w.shift ≤ v.blocksize
      → block_get v w (block_put v w o i new) i ≡ w.stored new
  unfolding block_get block_put
  get-put_block none i new h room = absurd h
  get-put_block (some bytes) i new (len, all) room =
      let old = load (2 ^ w.shift) bytes i in
      let small = load-lt (2 ^ w.shift) bytes i all in
      ap w.ent_get (
        load-store (2 ^ w.shift) bytes i (w.ent_put old new) (omega arith)
          (w.ent_put-lt old new small))
      ∙ w.ent_get-put old new small

  get-put_block_apart :
      (o : Option (List ℕ)) (i j new : ℕ)
      → (i + 2 ^ w.shift ≤ j) ⊎ (j + 2 ^ w.shift ≤ i)
      → block_get v w (block_put v w o i new) j ≡ block_get v w o j
  unfolding block_get block_put
  get-put_block_apart none i j new apart = refl
  get-put_block_apart (some bytes) i j new apart =
      let n = 2 ^ w.shift in
      let word = w.ent_put (load n bytes i) new in
      ap w.ent_get (
        load_same n (store n bytes i word) bytes j
          (λ k lo hi. get_or-store n bytes i word k (omega arith)))

  -- The block of an entry after a store.
  put_here :
      (t : Blocks) (e new : ℕ)
      → ent_put v w t e new (ent_blocknr v w e)
        ≡ block_put v w (t (ent_blocknr v w e)) (ent_offset v w e) new
  unfolding ent_put
  put_here t e new = rw (==_self (ent_blocknr v w e))

  put_there : (t : Blocks) (e new b : ℕ) → b ≢ ent_blocknr v w e → ent_put v w t e new b ≡ t b
  unfolding ent_put
  put_there t e new b ne = rw (ne→== b (ent_blocknr v w e) ne)

  module _ (g : IsVolume v w) where
    pub table_read :
        (t : Blocks) (e : ℕ)
        → IsReady t
        → 2 ≤ e
        → e < v.max_cluster
        → fat_ent_read v w t e ≡ ok (ent_get v w t e)
    unfolding fat_ent_read ent_get
    table_read t e ready lo hi =
        rw (le→leb _ _ lo, lt→ltb _ _ hi)
          (read_block (t (ent_blocknr v w e)) (ent_offset v w e) (ready e hi))

    pub put-IsReady :
        (t : Blocks) (e new : ℕ) → IsReady t → e < v.max_cluster → IsReady (ent_put v w t e new)
    put-IsReady t e new ready hi j hj = elim (eq_cases (ent_blocknr v w j) (ent_blocknr v w e)) [
      | inl same ↦
          rw (same, put_here t e new)
            (put-IsBlock (t (ent_blocknr v w e)) (ent_offset v w e) new (ready e hi))
      | inr other ↦ rw (put_there t e new (ent_blocknr v w j) other) (ready j hj)
    ]

    pub get-put_self :
        (t : Blocks) (e new : ℕ)
        → IsReady t
        → e < v.max_cluster
        → ent_get v w (ent_put v w t e new) e ≡ w.stored new
    unfolding ent_get
    get-put_self t e new ready hi = rw (put_here t e new) (
        get-put_block (t (ent_blocknr v w e)) (ent_offset v w e) new (ready e hi)
          (offset_room v w g e))

    pub get-put_ne :
        (t : Blocks) (e j new : ℕ) → e ≢ j → ent_get v w (ent_put v w t e new) j ≡ ent_get v w t j
    unfolding ent_get
    get-put_ne t e j new ne = elim (eq_cases (ent_blocknr v w j) (ent_blocknr v w e)) [
      | inr other ↦ rw (put_there t e new (ent_blocknr v w j) other)
      | inl same ↦
          rw (same, put_here t e new)
            (get-put_block_apart (t (ent_blocknr v w e)) (ent_offset v w e) (ent_offset v w j) new
              (offset_apart v w g e j ne (sym same)))
    ]

    pub refuse_low : (t : Blocks) (e : ℕ) → e < 2 → fat_ent_read v w t e ≡ err eio
    unfolding fat_ent_read
    refuse_low t e low = rw (lt→leb _ _ low)

    pub refuse_high : (t : Blocks) (e : ℕ) → v.max_cluster ≤ e → fat_ent_read v w t e ≡ err eio
    unfolding fat_ent_read
    refuse_high t e high = ground arith

    -- On a table whose blocks can all be read, a stored entry reads back as the part of the value that
    -- its width keeps, and every other entry reads as it did before.
    pub ent_put_lem :
        (t : Blocks) (e new : ℕ)
        → IsReady t
        → 2 ≤ e
        → e < v.max_cluster
        → (fat_ent_read v w (ent_put v w t e new) e ≡ ok (w.stored new))
          × ((j : ℕ)
              → 2 ≤ j
              → j < v.max_cluster
              → e ≢ j
              → fat_ent_read v w (ent_put v w t e new) j ≡ fat_ent_read v w t j)
    ent_put_lem t e new ready lo hi =
        let after = put-IsReady t e new ready hi in
        (
          table_read (ent_put v w t e new) e after lo hi ∙ ap ok (get-put_self t e new ready hi),
          λ j jl jh ne.
              table_read (ent_put v w t e new) j after jl jh
              ∙ ap ok (get-put_ne t e j new ne)
              ∙ sym (table_read t j ready jl jh),
        )

    -- The table as the allocator and the cluster walk use it.
    abbrev pub word_table : FatTable
    word_table = record {
      Image = Blocks;
      IsReady = IsReady;
      max_cluster = v.max_cluster;
      max_fat = w.max_fat;
      get = ent_get v w;
      read = fat_ent_read v w;
      put = ent_put v w;
      stored = w.stored;
      read_valid = table_read;
      read_low = refuse_low;
      read_high = refuse_high;
      put-IsReady = λ t e new ready lo hi. put-IsReady t e new ready hi;
      get-put_self = λ t e new ready lo hi. get-put_self t e new ready hi;
      get-put_ne = λ t e j new ready lo hi jl jh ne. get-put_ne t e j new ne;
      stored_free = w.stored_free;
      stored_eof = w.stored_eof;
      stored_small = w.stored_small;
      max_cluster_pos = g.some_cluster;
      max_cluster-int = g.int_cluster;
      max_cluster-max_fat = g.fits_width;
    }
