-- ===== src/Fat/Grow/Tests.antt =====
-- The file with the chain 2, 3, 4 of the small table grows by a cluster.
use userfs.Prelude.{
  ℕ, ◌<◌, ◌≡◌, ◌≢◌, ◌⊎◌, refl, arith, true, none, some, ok, err, enospc, List, [], ◌∷◌, ◌++◌,
}
use userfs.Fat.Alloc.{Fs}
use userfs.Fat.Alloc.Scan.{IsEntry, IsFree}
use userfs.Fat.Words.{Blocks, ent_get, load, block_get}
use userfs.Fat.Entry.{fat16_ent_get}
use userfs.Fat.Grow.{Node, fat_add_cluster}
use userfs.Fat.Grow.Linked.{last, Linked}
use userfs.Fat.Grow.Correct.{IsFile, longer, fat_add_cluster_lem}
use userfs.Fat.Tests.{table, image, image-IsReady}

abbrev pub volume_state : Fs table
volume_state = record { image = image; prev_free = 2; free_clusters = 1 }

abbrev pub node : Node
node = record {
  i_start = 2;
  i_logstart = 2;
  i_blocks = 6;
  mmu_private = 3072;
  runs = record { runs = []; nr_caches = 0; cache_valid_id = 1 };
}

abbrev no_blocks : Blocks
no_blocks b = none

abbrev pub rest : List ℕ
rest = 3 ∷ 4 ∷ []

apart : (i j : ℕ) → i < j → i ≢ j
apart i j h p = omega arith

pub image-Linked : Linked table image 2 rest
unfolding ent_get block_get load fat16_ent_get
image-Linked = (
  (omega arith, omega arith),
  (apart 2 3 (omega arith), (apart 2 4 (omega arith), tt)),
  refl,
  (
    (omega arith, omega arith),
    (apart 3 4 (omega arith), tt),
    refl,
    ((omega arith, omega arith), (omega arith)),
  ),
)

node-IsFile : IsFile table true 8 10 (λ b. b) image node rest
node-IsFile = record { chain = image-Linked; short = omega arith; runs = tt }

fat_add_cluster_example :
    ((c : ℕ) × (node' : Node) × (fs' : Fs table) × IsFree table image c
      × (fat_add_cluster table true 8 10 (ok tt) (λ b. b) node volume_state no_blocks 1024
          ≡ some (ok c, longer table true 8 10 (λ b. b) node' 1024, fs', no_blocks))
      × Linked table fs'.image 2 (rest ++ c ∷ [])
      × ((j : ℕ)
          → IsEntry table j
          → last 2 rest ≢ j
          → c ≢ j
          → table.get fs'.image j ≡ table.get image j)
      × (fs'.prev_free ≡ c))
    ⊎ (((j : ℕ) → ¬ IsFree table image j)
        × (fat_add_cluster table true 8 10 (ok tt) (λ b. b) node volume_state no_blocks 1024
            ≡ some (err enospc, node, volume_state, no_blocks)))
fat_add_cluster_example =
    fat_add_cluster_lem table true 8 10 (λ b. b) node volume_state no_blocks rest 1024 image-IsReady
      node-IsFile (omega arith) (omega arith) (omega arith)
