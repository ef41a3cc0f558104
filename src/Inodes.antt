-- ===== src/Inodes.antt =====
-- The hash table of inodes, src/vfs/src/inode.c. A pointer is a number, 0 is NULL; the chains run through
-- `i_private`. `ufs_inode_hash_lock` is held over each call.
pub mod Chains
pub mod Remove
pub mod Table
pub mod Tests
use userfs.Prelude.{
  ℕ, zero, suc, ◌-◌, ◌^◌, bit_and, Bool, Option, none, some, ◌==◌, ◌&&◌, if◌then◌else◌,
}

abbrev pub ufs_max_inode_hash : ℕ
ufs_max_inode_hash = 2 ^ 8

unfoldable pub ufs_inode_hash : ℕ → ℕ
ufs_inode_hash ino = bit_and ino (ufs_max_inode_hash - 1)

-- `ufs_inode_hashtable`, and the fields of the inodes that its chains are made of.
pub record Hashtable : Type 0 where
  pub head : ℕ → ℕ
  pub i_private : ℕ → ℕ
  pub i_ino : ℕ → ℕ
  pub i_sb : ℕ → ℕ

unfoldable pub is_wanted : Hashtable → ℕ → ℕ → ℕ → Bool
is_wanted t sb ino inode = t.i_ino inode == ino && t.i_sb inode == sb

-- The loop of `ufs_iget`, at most `n` rounds.
pub iget_from : Hashtable → ℕ → ℕ → ℕ → ℕ → Option ℕ
iget_from t sb ino zero inode = none
iget_from t sb ino (suc n) inode =
    let rest = iget_from t sb ino n (t.i_private inode) in
    if inode == 0 then some 0 else if is_wanted t sb ino inode then some inode else rest

pub ufs_iget : ℕ → Hashtable → ℕ → ℕ → Option ℕ
ufs_iget n t sb ino = iget_from t sb ino n (t.head (ufs_inode_hash ino))

-- A store through a pointer at `i`.
pub update : (ℕ → ℕ) → ℕ → ℕ → ℕ → ℕ
update f i v j = if j == i then v else f j

unfoldable pub ufs_inode_insert_hash : Hashtable → ℕ → Hashtable
ufs_inode_insert_hash t inode =
    let h = ufs_inode_hash (t.i_ino inode) in
    record t { i_private = update t.i_private inode (t.head h); head = update t.head h inode }

-- What `pp` points to.
pub data Place : Type 0 where
  head_of : ℕ → Place
  next_of : ℕ → Place

pub read_place : Hashtable → Place → ℕ
read_place t (head_of h) = t.head h
read_place t (next_of inode) = t.i_private inode

pub write_place : Hashtable → Place → ℕ → Hashtable
write_place t (head_of h) v = record t { head = update t.head h v }
write_place t (next_of inode) v = record t { i_private = update t.i_private inode v }

-- The loop of `ufs_inode_remove_hash`, at most `n` rounds.
pub remove_from : ℕ → Hashtable → ℕ → Place → Option Hashtable
remove_from zero t inode pp = none
remove_from (suc n) t inode pp =
    let p = read_place t pp in
    let rest = remove_from n t inode (next_of p) in
    if p == 0 then some t else if p == inode then some (write_place t pp (t.i_private p)) else rest

pub ufs_inode_remove_hash : ℕ → Hashtable → ℕ → Option Hashtable
ufs_inode_remove_hash n t inode = remove_from n t inode (head_of (ufs_inode_hash (t.i_ino inode)))
