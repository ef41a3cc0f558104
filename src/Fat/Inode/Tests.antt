-- ===== src/Fat/Inode/Tests.antt =====
-- The inode of the file `A.TXT`, and the truncation of the file with the chain 2, 3, 4.
use userfs.Prelude.{◌≡◌, arith, some, false, ◌∷◌}
use userfs.Fat.Alloc.{Fs}
use userfs.Fat.Alloc.FreeChain.{Freed}
use userfs.Fat.Tests.{table, image-IsReady}
use userfs.Fat.Grow.Tests.{node, rest, volume_state, image-Linked}
use userfs.Fat.Inode.{Inode, MountOptions, file_ops, fat_setattr}
use userfs.Fat.Inode.Truncate.{fat_setattr-truncates}

abbrev options : MountOptions
options = record { fs_fmask = 18; fs_dmask = 18; rodir = false }

abbrev file : Inode
file = record {
  i_ino = 2;
  i_mode = 0x81ed;
  i_size = 3000;
  i_nlink = 1;
  i_attrs = 32;
  i_pos = 32;
  ops = file_ops;
  node = node;
}

fat_setattr-truncates_example :
    (inode' : Inode) × (fs' : Fs table) × (fat_setattr table file (some 0) volume_state
      ≡ some (inode', fs'))
    × Freed table volume_state (2 ∷ rest) fs'
    × (inode'.i_size ≡ 0)
    × (inode'.node.i_start ≡ 0)
    × (inode'.node.i_blocks ≡ 0)
    × (inode'.node.runs ≡ file.node.runs)
fat_setattr-truncates_example =
    fat_setattr-truncates table file volume_state rest (omega arith) (omega arith) image-IsReady
      image-Linked
