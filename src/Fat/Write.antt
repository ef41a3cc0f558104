-- ===== src/Fat/Write.antt =====
-- Writing a file: `fat_file_write` of src/fs/fat/src/vfs_file.c. The loop starts again after every
-- attempt to make room, whether it succeeded or not, so it takes its fuel from outside; `none` stands
-- for fuel that ran out. Offsets and counts are taken below 2^63, so that no sum wraps.
pub mod Bytes
pub mod Held
pub mod Round
pub mod Mapped
pub mod Stuck
pub mod Tests
use userfs.Prelude.{
  ℕ, zero, suc, ◌+◌, ◌-◌, ◌*◌, ◌/◌, ◌^◌, Bool, Option, none, some, Outcome, ok, err, List, [], ◌∷◌,
  length, take, drop, ltb, ◌==◌, ◌&&◌, if◌then◌else◌, bit_and,
}
use userfs.Fat.Table.{FatTable, fat_ent_eof}
use userfs.Fat.Alloc.{Fs, fat_alloc_clusters, fat_free_clusters}
use userfs.Fat.ClusterCache.{Cache}
use userfs.Fat.GetCluster.{Found, fat_get_cluster}
use userfs.Fat.Mount.{SbInfo}
use userfs.Fat.Bmap.{Mapping, fat_bmap}
use userfs.Fat.Grow.{Node, fat_chain_add, fat_add_cluster}
use userfs.Fat.Words.{Blocks, put_block}
use userfs.Fat.DirEntry.{write_at}
use userfs.Fat.Dir.{phys_of}

-- A file that is written: its inode, the volume, the blocks and `i_size`.
pub record FileState (T : FatTable) : Type 0 where
  pub node : Node
  pub fs : Fs T
  pub i_size : ℕ
  pub blocks : Blocks

-- How the search for the block of a sector ends: with the block, with `continue`, or with `break`.
pub data Target (T : FatTable) : Type 0 where
  at_block : ℕ → FileState T → Target T
  retry : FileState T → Target T
  give_up : FileState T → Target T

-- `memory`, `limit`, `wrote` and `synced` are those of Fat/Grow.
module _ (T : FatTable) (sb : SbInfo) (memory : Bool) (limit : ℕ) (wrote : Outcome (Unit {0}))
    (synced : Blocks → Blocks) (is_root : Bool) where
  abbrev pub with_runs : FileState T → Cache → FileState T
  with_runs st c = record st { node = record st.node { runs = c } }

  -- `fat_bmap` of the file
  abbrev pub file_bmap : FileState T → ℕ → Option (Outcome Mapping × Cache)
  file_bmap st sector =
      fat_bmap T st.fs.image memory limit sb is_root st.node.i_start sector st.node.runs

  -- `fat_add_cluster`, whose result is not looked at, and `continue`.
  pub grown : FileState T → Option (Outcome ℕ × Node × Fs T × Blocks) → Option (Target T)
  grown st none = none
  grown st (some (r, node, fs, blocks)) =
      some (retry (record st { node = node; fs = fs; blocks = blocks }))

  pub add_cluster : FileState T → Option (Target T)
  add_cluster st = grown st (
      fat_add_cluster T memory limit sb.cluster_bits wrote synced st.node st.fs st.blocks
        sb.cluster_size)

  -- The last resort: a cluster is taken and chained here, and given back when that fails.
  pub chain_tried :
      FileState T → ℕ → Option (Outcome (Unit {0}) × Node × Fs T × Blocks) → Option (Target T)
  chain_tried st cluster none = none
  chain_tried st cluster (some (ok u, node, fs, blocks)) =
      some (retry (record st { node = node; fs = fs; blocks = blocks }))
  chain_tried st cluster (some (err e, node, fs, blocks)) = elim (fat_free_clusters T fs cluster) [
    | none ↦ none
    | some (r, fs') ↦ some (give_up (record st { node = node; fs = fs'; blocks = blocks }))
  ]

  pub alloc_tried : FileState T → Option (Outcome ℕ × Fs T) → Option (Target T)
  alloc_tried st none = none
  alloc_tried st (some (err e, fs)) = some (give_up (record st { fs = fs }))
  alloc_tried st (some (ok cluster, fs)) =
      chain_tried (record st { fs = fs }) cluster
        (fat_chain_add T memory limit sb.cluster_bits wrote synced st.node fs st.blocks cluster 1)

  -- After the second `fat_bmap`.
  pub mapped_again : FileState T → Option ℕ → Option (Target T)
  mapped_again st (some p) = some (at_block p st)
  mapped_again st none = alloc_tried st (fat_alloc_clusters T st.fs 1)

  pub bmap_again : FileState T → Option (Outcome Mapping × Cache) → Option (Target T)
  bmap_again st none = none
  bmap_again st (some (o, c)) = mapped_again (with_runs st c) (phys_of o)

  -- After `fat_get_cluster`.
  pub cluster_sought : FileState T → ℕ → ℕ → Outcome ℕ → Option (Target T)
  cluster_sought st sector dclus (err e) = some (give_up st)
  cluster_sought st sector dclus (ok nr) =
      let again = bmap_again st (file_bmap st sector) in
      if nr == fat_ent_eof
      then add_cluster st
      else if (dclus == 0) && (st.node.i_start == 0)
      then add_cluster st
      else again

  pub sought : FileState T → ℕ → Option (Found × Cache) → Option (Target T)
  sought st sector none = none
  sought st sector (some (f, c)) = cluster_sought (with_runs st c) sector f.dclus f.nr

  -- After the first `fat_bmap`: `if (err || !phys)`.
  pub phys_sought : FileState T → ℕ → Option ℕ → Option (Target T)
  phys_sought st sector (some p) = some (at_block p st)
  phys_sought st sector none = sought st sector (
      fat_get_cluster T st.fs.image memory limit st.node.i_start (sector / sb.sec_per_clus)
        st.node.runs)

  pub first_bmap : FileState T → ℕ → Option (Outcome Mapping × Cache) → Option (Target T)
  first_bmap st sector none = none
  first_bmap st sector (some (o, c)) = phys_sought (with_runs st c) sector (phys_of o)

  pub find_block : FileState T → ℕ → Option (Target T)
  find_block st sector = first_bmap st sector (file_bmap st sector)

  -- `offset & (sb->s_blocksize - 1)`, and how many bytes go into the block.
  abbrev pub offset_in : ℕ → ℕ
  offset_in offset = bit_and offset (sb.s_blocksize - 1)

  abbrev pub to_write : ℕ → ℕ → ℕ
  to_write offset remaining =
      let room = sb.s_blocksize - offset_in offset in if ltb remaining room then remaining else room

  -- The size of the file grows with the offset.
  pub size_updated : ℕ → FileState T → FileState T
  size_updated offset st =
      if ltb st.i_size offset
      then record st { i_size = offset; node = record st.node { mmu_private = offset } }
      else st

  -- The number of bytes written, with those of the rounds before.
  pub add_total : ℕ → Option (ℕ × FileState T) → Option (ℕ × FileState T)
  add_total n none = none
  add_total n (some (total, st)) = some (n + total, st)

  -- A round that has its block, by what `ufs_bread` gives of it; `go` are the later rounds.
  pub write_block :
      ℕ
      → List ℕ
      → ℕ
      → FileState T
      → Option (List ℕ)
      → (ℕ → List ℕ → FileState T → Option (ℕ × FileState T))
      → Option (ℕ × FileState T)
  write_block offset ptr p st none go = some (0, st)
  write_block offset ptr p st (some bytes) go =
      let n = to_write offset (length ptr) in
      let st' = record st {
        blocks = put_block st.blocks p (write_at bytes (offset_in offset) (take n ptr));
      } in
      add_total n (go (offset + n) (drop n ptr) (size_updated (offset + n) st'))

  pub write_target :
      ℕ
      → List ℕ
      → Option (Target T)
      → (ℕ → List ℕ → FileState T → Option (ℕ × FileState T))
      → Option (ℕ × FileState T)
  write_target offset ptr none go = none
  write_target offset ptr (some (at_block p st)) go = write_block offset ptr p st (st.blocks p) go
  write_target offset ptr (some (retry st)) go = go offset ptr st
  write_target offset ptr (some (give_up st)) go = some (0, st)

  -- `fat_file_write` of the bytes `ptr` at `offset`: the number of bytes it returns, and the file after it.
  pub fat_file_write : ℕ → ℕ → List ℕ → FileState T → Option (ℕ × FileState T)
  fat_file_write zero offset ptr st = none
  fat_file_write (suc fuel) offset [] st = some (0, st)
  fat_file_write (suc fuel) offset (x ∷ ptr) st =
      write_target offset (x ∷ ptr) (find_block st (offset / 2 ^ sb.s_blocksize_bits))
        (fat_file_write fuel)
