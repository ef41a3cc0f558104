-- ===== src/Fat/Write/Mapped.antt =====
-- `fat_file_write` of src/fs/fat/src/vfs_file.c where every sector that it writes to has a block.
use Prim.Native.Nat.{max, min}
use userfs.Prelude.{
  ℕ, zero, suc, ◌+◌, ◌-◌, ◌^◌, ◌<◌, ◌≡◌, refl, arith, Option, some, List, [], ◌∷◌, length,
  get_elem?, drop, ap, ◌∙◌, sym, subst,
}
use userfs.Fat.Table.{FatTable}
use userfs.Fat.Bmap.{plain_bmap}
use userfs.Fat.Words.{Blocks}
use userfs.Fat.Read.{FileBlocks, fat_file_read}
use userfs.Fat.Read.Bytes.{upto, bytes_from, file_byte, fat_file_read_lem}
use userfs.Fat.Write.{FileState, add_total, fat_file_write}
use userfs.Fat.Write.Bytes.{IsWritten, IsWritten-none, IsWritten-drop, length-drop}
use userfs.Fat.Write.Held.{Layout, map, IsOn, write, amount, amount-bounds, IsHeld}
use userfs.Fat.Write.Round.{round}

bytes_from-all :
    (byte : ℕ → Option ℕ) (offset : ℕ) (ptr : List ℕ)
    → ((k : ℕ) → k < length ptr → byte (offset + k) ≡ get_elem? ptr k)
    → bytes_from byte offset (length ptr) ≡ ptr
unfolding bytes_from
bytes_from-all byte offset [] same = refl
bytes_from-all byte offset (x ∷ l) same =
    ap (λ o. upto o (bytes_from byte (offset + 1) (length l))) (here ∙ same 0 (omega arith))
    ∙ ap (λ r. x ∷ r)
        (bytes_from-all byte (offset + 1) l (λ k h. next k ∙ same (suc k) (omega arith)))
  where
    here : byte offset ≡ byte (offset + 0)
    here = ap byte (omega arith)

    next : (k : ℕ) → byte (offset + 1 + k) ≡ byte (offset + suc k)
    next k = ap byte (omega arith)

module _ (T : FatTable) (v : Layout T) where
  open v use {sb, memory, limit, wrote, synced, is_root, t, i_start}

  -- The size of a file after `n` bytes were written at `offset`.
  abbrev pub size_after : ℕ → ℕ → ℕ → ℕ
  size_after i_size offset zero = i_size
  size_after i_size offset (suc n) = max i_size (offset + suc n)

  -- A write that is done.
  pub record IsDone (st : FileState T) (offset : ℕ) (ptr : List ℕ) (st' : FileState T)
      : Type 0 where
    pub on : IsOn T v st'
    pub same_fs : st'.fs ≡ st.fs
    pub written : IsWritten sb.s_blocksize_bits (map T v) st.blocks st'.blocks offset ptr
    pub whole :
        (p : ℕ) (bytes : List ℕ)
        → st'.blocks p ≡ some bytes
        → length bytes ≡ 2 ^ sb.s_blocksize_bits
    pub new_size : st'.i_size ≡ size_after st.i_size offset (length ptr)

  module _ (apart : (i j p : ℕ) → map T v i ≡ some p → map T v j ≡ some p → i ≡ j) where
    size_steps :
        (s s1 s2 offset n m : ℕ)
        → s1 ≡ max s (offset + n)
        → s2 ≡ size_after s1 (offset + n) m
        → s2 ≡ max s (offset + (n + m))
    size_steps s s1 s2 offset n zero e1 e2 = omega arith
    size_steps s s1 s2 offset n (suc m) e1 e2 = omega arith

    loop :
        (fuel offset : ℕ) (ptr : List ℕ) (st : FileState T)
        → length ptr < fuel
        → IsOn T v st
        → IsHeld T v st.blocks offset (length ptr)
        → (st' : FileState T) × (write T v fuel offset ptr st ≡ some (length ptr, st'))
          × IsDone st offset ptr st'
    unfolding fat_file_write add_total
    loop zero offset ptr st enough on held = absurd (omega arith)
    loop (suc fuel) offset [] st enough on held = (
      st,
      refl,
      record {
        on = on;
        same_fs = refl;
        written = IsWritten-none sb.s_blocksize_bits (map T v) st.blocks offset;
        whole = held.whole;
        new_size = refl;
      },
    )
    loop (suc fuel) offset (x ∷ l) st enough on held =
        let (pos, le, fits) = amount-bounds T v offset (length l) in
        let n = amount T v offset (length (x ∷ l)) in
        let r = round T v apart fuel offset x l st on held in
        let len = length-drop n (x ∷ l) in
        let (st', ends, done) =
          loop fuel (offset + n) (drop n (x ∷ l)) r.next (omega (arith, len, pos)) r.on
            (subst (IsHeld T v r.next.blocks (offset + n)) (sym len) r.held) in
        (
          st',
          r.goes_on
              ∙ ap (add_total T sb memory limit wrote synced is_root n) ends
              ∙ ap (λ k. some (k, st')) (omega (arith, len, le)),
          record {
            on = done.on;
            same_fs = done.same_fs ∙ r.same_fs;
            written =
                IsWritten-drop sb.s_blocksize_bits (map T v) st.blocks r.next.blocks st'.blocks
                  offset n (x ∷ l) le r.written done.written;
            whole = done.whole;
            new_size =
                size_steps st.i_size r.next.i_size st'.i_size offset n (length (drop n (x ∷ l)))
                  r.new_size done.new_size
                ∙ ap (λ k. max st.i_size (offset + k)) (omega (arith, len, le));
          },
        )

    -- The file as `fat_file_read` reads it.
    abbrev pub readable :
        (blocks : Blocks)
        → ((p : ℕ) (bytes : List ℕ)
            → blocks p ≡ some bytes
            → length bytes ≡ 2 ^ sb.s_blocksize_bits)
        → FileBlocks
    readable blocks whole = record {
      s_blocksize_bits = sb.s_blocksize_bits;
      bmap = plain_bmap T t memory limit sb is_root i_start;
      bread = blocks;
      whole_block = whole;
    }

    read_back :
        (st st' : FileState T) (offset : ℕ) (ptr : List ℕ) (done : IsDone st offset ptr st')
        → fat_file_read (readable st'.blocks done.whole) st'.i_size (length ptr) offset ≡ some ptr
    unfolding file_byte
    read_back st st' offset ptr done =
        fat_file_read_lem (readable st'.blocks done.whole) st'.i_size (length ptr) offset
        ∙ ap (λ n. some (bytes_from (file_byte (readable st'.blocks done.whole)) offset n))
            (clipped (length ptr) st.i_size st'.i_size offset done.new_size)
        ∙ ap some (
            bytes_from-all (file_byte (readable st'.blocks done.whole)) offset ptr
              done.written.inside)
      where
        clipped : (n s s' offset : ℕ) → s' ≡ size_after s offset n → min n (s' - offset) ≡ n
        clipped zero s s' offset e = omega arith
        clipped (suc n) s s' offset e = omega arith

    -- Where each byte from `offset` on, as many as `ptr` has, has a block that can be read, and no two
    -- sectors have the same block, `fat_file_write` returns within one round more than `ptr` has bytes:
    -- it has written them all and changed no other byte of the file, nor the table; the size is the old
    -- one or the end of what was written; and `fat_file_read` of the place gives `ptr` back.
    pub fat_file_write_lem :
        (fuel offset : ℕ) (ptr : List ℕ) (st : FileState T)
        → length ptr < fuel
        → IsOn T v st
        → IsHeld T v st.blocks offset (length ptr)
        → (st' : FileState T) × (fat_file_write T sb memory limit wrote synced is_root fuel offset
              ptr st
            ≡ some (length ptr, st'))
          × (done : IsDone st offset ptr st') × (fat_file_read
                (readable st'.blocks done.whole)
                st'.i_size
                (length ptr)
                offset
              ≡ some ptr)
    fat_file_write_lem fuel offset ptr st enough on held =
        let (st', ends, done) = loop fuel offset ptr st enough on held in
        (st', ends, done, read_back st st' offset ptr done)
