-- ===== src/Fat/Mount/Tests.antt =====
-- A boot sector of a FAT16 volume with 4978 clusters, and runs of the mount code on it.
use userfs.Prelude.{ℕ, ◌≡◌, refl, arith, some, ok, err, eio, inl, List, [], ◌∷◌, ◌++◌, replicate}
use userfs.Fat.Alloc.{Fs, fat_alloc_clusters}
use userfs.Fat.Count.{zeros}
use userfs.Fat.Tests.{table, image, image-IsReady}
use userfs.Fat.Widths.{fat_ent_access_init}
use userfs.Fat.Words.{load}
use userfs.Fat.Mount.{
  Bpb, SbInfo, sb_of, fat_set_sb_info, fat_set_sb_info_short, read_fsinfo, count_free,
}
use userfs.Fat.Mount.Geometry.{clusters_of, IsServed, fat_set_sb_info-IsVolume}
use userfs.Fat.Mount.FreeCount.{count_free_lem, fsinfo_unknown}

abbrev bpb : Bpb
bpb = record {
  sector_size = 512;
  sec_per_clus = 1;
  reserved = 1;
  fats = 1;
  dir_entries = 16;
  sectors = 5000;
  fat_length = 20;
  total_sect = 5000;
  fat16_state = 0;
  fat16_vol_id = 0;
  fat32_length = 0;
  root_cluster = 0;
  info_sector = 0;
  fat32_state = 0;
  fat32_vol_id = 0;
}

abbrev sb : SbInfo
sb = fat_set_sb_info_short bpb

sb_set : fat_set_sb_info bpb ≡ some (ok sb)
unfolding fat_set_sb_info
sb_set = refl

sb_room : sb.data_start ≡ 22
unfolding fat_set_sb_info_short sb_of
sb_room = refl

sb_clusters : sb.max_cluster ≡ 4980
unfolding fat_set_sb_info_short sb_of
sb_clusters = refl

bpb_clusters : clusters_of bpb ≡ 4978
bpb_clusters = refl

fat_set_sb_info-IsVolume_example :
    (set : SbInfo) × (fat_set_sb_info bpb ≡ some (ok set))
    × IsServed set (fat_ent_access_init set.fat_bits)
fat_set_sb_info-IsVolume_example =
    fat_set_sb_info-IsVolume bpb (inl refl) (omega arith) (omega arith) (omega arith)
      (λ p. omega (arith, p, bpb_clusters)) (λ p. omega (arith, p, bpb_clusters))
      (omega (arith, bpb_clusters))

-- The counters of the small table before its scan.
abbrev small : SbInfo
small = record sb { max_cluster = 6; free_clusters = 0xffff_ffff }

count_free_example : (count_free table image small).free_clusters ≡ zeros (table.get image) 4
count_free_example = count_free_lem table image small image-IsReady refl refl

abbrev info : List ℕ
info = replicate 492 0 ++ (0xff ∷ 0xff ∷ 0xff ∷ 0xff ∷ [])

info_next : load 4 info 492 ≡ 0xffff_ffff
unfolding load
info_next = refl

fsinfo_unknown_example :
    let fs : Fs table = record {
      image = image;
      prev_free = (read_fsinfo small info).prev_free;
      free_clusters = 1;
    } in
    fat_alloc_clusters table fs 1 ≡ some (err eio, fs)
fsinfo_unknown_example = fsinfo_unknown table image small info 1 info_next
