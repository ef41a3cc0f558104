-- ===== src/Inodes/Tests.antt =====
-- Inodes 1 and 2 of numbers 5 and 261, which have one hash.
use userfs.Prelude.{ℕ, zero, suc, ◌≡◌, refl, arith, some, List, [], ◌∷◌, length}
use userfs.Inodes.{Hashtable, ufs_inode_hash, ufs_inode_insert_hash, ufs_inode_remove_hash}
use userfs.Inodes.Chains.{Absent, without}
use userfs.Inodes.Table.{
  IsTable, changed, changed-all, ufs_inode_insert_hash-IsTable, ufs_inode_remove_hash-IsTable,
}

abbrev number : ℕ → ℕ
number zero = 0
number (suc zero) = 5
number (suc (suc n)) = 261

abbrev empty : Hashtable
empty = record { head = λ _. 0; i_private = λ _. 0; i_ino = number; i_sb = λ _. 9 }

abbrev no_chains : ℕ → List ℕ
no_chains _ = []

empty-IsTable : IsTable empty no_chains
empty-IsTable = (λ _. refl, λ _. tt, λ _ _ _. tt)

abbrev one : Hashtable
one = ufs_inode_insert_hash empty 1

abbrev one_chain : ℕ → List ℕ
one_chain = changed no_chains (ufs_inode_hash 5) (1 ∷ [])

one-IsTable : IsTable one one_chain
one-IsTable = ufs_inode_insert_hash-IsTable empty 1 no_chains empty-IsTable (omega arith) (λ _. tt)

abbrev two : Hashtable
two = ufs_inode_insert_hash one 2

abbrev two_chain : ℕ → List ℕ
two_chain = changed one_chain (ufs_inode_hash 261) (2 ∷ one_chain (ufs_inode_hash 261))

two-IsTable : IsTable two two_chain
unfolding ufs_inode_insert_hash
two-IsTable = ufs_inode_insert_hash-IsTable one 2 one_chain one-IsTable (omega arith) (
    changed-all (λ _ m. Absent 2 m) no_chains (ufs_inode_hash 5) (1 ∷ []) (omega arith, tt)
      (λ _ _. tt))

two_long : length (two_chain (ufs_inode_hash 5)) ≡ 2
unfolding ufs_inode_hash
two_long = refl

ufs_inode_remove_hash_example :
    (after : Hashtable) × (ufs_inode_remove_hash 3 two 1 ≡ some after)
    × IsTable after
        (changed two_chain (ufs_inode_hash 5) (without 1 (two_chain (ufs_inode_hash 5))))
unfolding ufs_inode_insert_hash
ufs_inode_remove_hash_example =
    ufs_inode_remove_hash-IsTable 3 two 1 two_chain two-IsTable (omega (arith, two_long))
