-- ===== src/Fat/Write/Round.antt =====
-- `fat_file_write` of src/fs/fat/src/vfs_file.c where the sector at the offset has a block: one
-- round of the loop.
use Prim.Native.Nat.{max}
use userfs.Prelude.{
  ℕ, suc, ◌+◌, ◌-◌, ◌/◌, ◌%◌, ◌^◌, ◌≡◌, arith, some, List, ◌∷◌, All, length, take, drop, ap, ◌∙◌,
  sym, subst,
}
use userfs.Fat.Table.{FatTable}
use userfs.Fat.Alloc.{Fs}
use userfs.Fat.ClusterCache.{Cache}
use userfs.Fat.GetCluster.Sound.{IsRun}
use userfs.Fat.Words.{put_block}
use userfs.Fat.DirEntry.{write_at}
use userfs.Fat.DirEntry.Bytes.{length-write}
use userfs.Fat.Write.{FileState, add_total, write_block, write_target, fat_file_write}
use userfs.Fat.Write.Bytes.{IsWritten, filled-IsWritten, length-take}
use userfs.Fat.Write.Held.{
  Layout, map, IsOn, cached, write, resized, amount, found_block, offset_mod, amount-bounds,
  resized_lem, IsHeld, put-IsHeld,
}

module _ (T : FatTable) (v : Layout T) where
  open v use {sb, memory, limit, wrote, synced, is_root, t, i_start}

  module _ (apart : (i j p : ℕ) → map T v i ≡ some p → map T v j ≡ some p → i ≡ j) where
    -- What a round leaves: the first `amount` bytes are written.
    pub record Round (st : FileState T) (offset : ℕ) (ptr : List ℕ) (fuel : ℕ) : Type 0 where
      pub next : FileState T
      pub goes_on :
          write T v (suc fuel) offset ptr st
          ≡ add_total T sb memory limit wrote synced is_root (amount T v offset (length ptr)) (
              write T v fuel
                (offset + amount T v offset (length ptr))
                (drop (amount T v offset (length ptr)) ptr)
                next)
      pub on : IsOn T v next
      pub same_fs : next.fs ≡ st.fs
      pub written :
          IsWritten sb.s_blocksize_bits
            (map T v)
            st.blocks
            next.blocks
            offset
            (take (amount T v offset (length ptr)) ptr)
      pub held :
          IsHeld T v next.blocks
            (offset + amount T v offset (length ptr))
            (length ptr - amount T v offset (length ptr))
      pub new_size : next.i_size ≡ max st.i_size (offset + amount T v offset (length ptr))

    pub round :
        (fuel offset x : ℕ) (l : List ℕ) (st : FileState T)
        → IsOn T v st
        → IsHeld T v st.blocks offset (length (x ∷ l))
        → Round st offset (x ∷ l) fuel
    unfolding fat_file_write write_target write_block
    round fuel offset x l st on held =
        let (p, bytes, here, there) = held.there offset (omega arith) (omega arith) in
        let (c, found, kept) = found_block T v st (offset / 2 ^ sb.s_blocksize_bits) p on here in
        let (pos, le, fits) = amount-bounds T v offset (length l) in
        let n = amount T v offset (length (x ∷ l)) in
        let blocks' =
          put_block st.blocks p
            (write_at bytes (offset % 2 ^ sb.s_blocksize_bits) (take n (x ∷ l))) in
        let st1 = record (cached T v st c) { blocks = blocks' } in
        let r = resized_lem T v (offset + n) st1 in
        record {
          next = resized T v (offset + n) st1;
          goes_on =
              ap
                (λ o.
                  write_target T sb memory limit wrote synced is_root offset (x ∷ l) o
                    (write T v fuel))
                found
              ∙ ap
                  (λ o.
                    write_block T sb memory limit wrote synced is_root offset (x ∷ l) p
                      (cached T v st c) o (write T v fuel))
                  there
              ∙ ap
                  (λ o. add_total T sb memory limit wrote synced is_root n (
                    write T v fuel (offset + n) (drop n (x ∷ l)) (
                      resized T v (offset + n) (record st1 {
                        blocks = put_block st.blocks p (write_at bytes o (take n (x ∷ l)));
                      }))))
                  (offset_mod T v offset);
          on = record {
            table = ap (λ (fs : Fs T). fs.image) r.same_fs ∙ on.table;
            first = r.same_start ∙ on.first;
            runs =
                subst (λ (k : Cache). All (IsRun T t memory limit i_start) k.runs) (sym r.same_runs)
                  kept;
          };
          same_fs = r.same_fs;
          written =
              subst
                (λ b. IsWritten sb.s_blocksize_bits (map T v) st.blocks b offset (take n (x ∷ l)))
                (sym r.same_blocks)
                (filled-IsWritten sb.s_blocksize_bits (map T v) apart st.blocks offset p bytes
                  (take n (x ∷ l)) here there (held.whole p bytes there)
                  (omega (arith, fits, length-take n (x ∷ l) le)));
          held =
              subst (λ b. IsHeld T v b (offset + n) (length (x ∷ l) - n)) (sym r.same_blocks)
                (put-IsHeld T v st.blocks offset (length (x ∷ l)) n p
                  (write_at bytes (offset % 2 ^ sb.s_blocksize_bits) (take n (x ∷ l))) le
                  (length-write bytes (offset % 2 ^ sb.s_blocksize_bits) (take n (x ∷ l))
                    ∙ held.whole p bytes there)
                  held);
          new_size = r.new_size;
        }
