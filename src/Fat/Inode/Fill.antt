-- ===== src/Fat/Inode/Fill.antt =====
-- The inode that is built from a directory entry.
use userfs.Prelude.{
  ℕ, ◌+◌, ◌*◌, ◌/◌, ◌^◌, ◌≤◌, ◌<◌, ◌≡◌, refl, arith, Bool, ◌==◌, not, ◌&&◌, if◌then◌else◌, bit_and,
  bit_or, Bool-cases, inl, inr, ap,
}
use userfs.Prelude.Bits.{or_low_high, and_high}
use userfs.Fat.DirEntry.{DirEntry, has_attr, fat_get_start, attr_dir}
use userfs.Fat.Inode.{
  Inode, MountOptions, dir_ops, file_ops, write_mode, fat_make_mode, fat_fill_inode, s_isdir,
  and_not, s_irwxugo, attrs_have, attr_dir_bit, attr_ro,
}

-- The mode bits below the file type stay below it.
write_mode-le : (o : MountOptions) (attrs mode : ℕ) → write_mode o attrs mode ≤ mode
unfolding write_mode
write_mode-le o attrs mode =
    elim (Bool-cases
      (attrs_have attrs attr_ro && not (attrs_have attrs attr_dir_bit && not o.rodir))) [
        | inl h ↦ rw h (omega arith)
        | inr h ↦ rw h (omega arith)
      ]

-- A file type put over bits below 2^12.
s_isdir-type :
    (low t : ℕ)
    → low < 2 ^ 12
    → s_isdir (bit_or low (t * 2 ^ 12)) ≡ (bit_and t 15 * 2 ^ 12 == 4 * 2 ^ 12)
s_isdir-type low t h =
    rw (or_low_high 12 low t h, and_high 12 (t * 2 ^ 12 + low) 15)
      (ap (λ q. bit_and q 15 * 2 ^ 12 == 4 * 2 ^ 12) top)
  where
    top : (t * 2 ^ 12 + low) / 2 ^ 12 ≡ t
    top = omega arith

s_isdir-make_mode :
    (o : MountOptions) (attrs mode : ℕ)
    → mode < 2 ^ 12
    → s_isdir (fat_make_mode o attrs mode) ≡ attrs_have attrs attr_dir_bit
unfolding fat_make_mode
s_isdir-make_mode o attrs mode h = elim (Bool-cases (attrs_have attrs attr_dir_bit)) [
  | inl d ↦ rw d (
      s_isdir-type (and_not (write_mode o attrs mode) o.fs_dmask) 4
        (omega (arith, write_mode-le o attrs mode)))
  | inr d ↦ rw d (
      s_isdir-type (and_not (write_mode o attrs mode) o.fs_fmask) 8
        (omega (arith, write_mode-le o attrs mode)))
]

-- The inode filled from an entry is a directory, by its mode and by its operations, exactly where the
-- entry has the attribute; it starts at the cluster of the entry and has its size.
pub fat_fill_inode_lem :
    (o : MountOptions) (is_fat32 : Bool) (inode : Inode) (de : DirEntry)
    → let filled = fat_fill_inode o is_fat32 inode de in
      (s_isdir filled.i_mode ≡ has_attr de attr_dir)
      × (filled.ops ≡ (if has_attr de attr_dir then dir_ops else file_ops))
      × (filled.node.i_start ≡ fat_get_start is_fat32 de)
      × (filled.i_size ≡ de.size)
unfolding fat_fill_inode has_attr
fat_fill_inode_lem o is_fat32 inode de =
    let is_dir = s_isdir-make_mode o de.attr s_irwxugo (omega arith) in
    (is_dir, ap (λ b. if b then dir_ops else file_ops) is_dir, refl, refl)
