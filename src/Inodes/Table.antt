-- ===== src/Inodes/Table.antt =====
-- The whole hash table of src/vfs/src/inode.c as a list of inodes for each hash.
use userfs.Prelude.{
  ℕ, ◌<◌, ◌≡◌, ◌≢◌, inl, inr, refl, sym, subst, some, List, [], ◌∷◌, length, ◌==◌, if◌then◌else◌,
  ==_self, ne→==, eq_cases,
}
use userfs.Inodes.{
  Hashtable, ufs_inode_hash, ufs_inode_insert_hash, ufs_inode_remove_hash, ufs_iget, head_of,
  next_of, read_place, update,
}
use userfs.Inodes.Chains.{
  Chain, Absent, Distinct, without, first_wanted, SameLinks, SameLinks-Chain, update_self,
  update_ne, update-SameLinks, iget_from-Chain,
}
use userfs.Inodes.Remove.{Removed, remove_from-Chain}

-- No inode of the first list is in the second.
abbrev pub Disjoint : List ℕ → List ℕ → Type 0
Disjoint [] m = Unit
Disjoint (q ∷ l) m = Absent q m × Disjoint l m

abbrev pub changed : (ℕ → List ℕ) → ℕ → List ℕ → ℕ → List ℕ
changed chains h l k = if k == h then l else chains k

-- The chain of each hash, where no inode is in two places.
abbrev pub IsTable : Hashtable → (ℕ → List ℕ) → Type 0
IsTable t chains =
    ((h : ℕ) → Chain t.i_private (t.head h) (chains h))
    × ((h : ℕ) → Distinct (chains h))
    × ((h k : ℕ) → h ≢ k → Disjoint (chains h) (chains k))

without-Absent : (i q : ℕ) (l : List ℕ) → Absent q l → Absent q (without i l)
without-Absent i q [] a = tt
without-Absent i q (x ∷ l) (ne, a) = elim (eq_cases x i) [
  | inl same ↦ rw (same, ==_self i) a
  | inr other ↦ rw (ne→== x i other) (ne, without-Absent i q l a)
]

without-Distinct : (i : ℕ) (l : List ℕ) → Distinct l → Distinct (without i l)
without-Distinct i [] d = tt
without-Distinct i (x ∷ l) (a, d) = elim (eq_cases x i) [
  | inl same ↦ rw (same, ==_self i) d
  | inr other ↦ rw (ne→== x i other) (without-Absent i x l a, without-Distinct i l d)
]

without-Disjoint : (i : ℕ) (l m : List ℕ) → Disjoint l m → Disjoint (without i l) m
without-Disjoint i [] m d = tt
without-Disjoint i (x ∷ l) m (a, d) = elim (eq_cases x i) [
  | inl same ↦ rw (same, ==_self i) d
  | inr other ↦ rw (ne→== x i other) (a, without-Disjoint i l m d)
]

Disjoint-without : (i : ℕ) (l m : List ℕ) → Disjoint l m → Disjoint l (without i m)
Disjoint-without i [] m d = tt
Disjoint-without i (x ∷ l) m (a, d) = (without-Absent i x m a, Disjoint-without i l m d)

Disjoint-cons : (i : ℕ) (l m : List ℕ) → Absent i l → Disjoint l m → Disjoint l (i ∷ m)
Disjoint-cons i [] m a d = tt
Disjoint-cons i (x ∷ l) m (ne, a) (b, d) = ((λ e. ne (sym e), b), Disjoint-cons i l m a d)

-- A property of the lists stays when that of `h` changes to one that has it.
pub changed-all :
    (P : ℕ → List ℕ → Type 0) (chains : ℕ → List ℕ) (h : ℕ) (l : List ℕ)
    → P h l
    → ((k : ℕ) → k ≢ h → P k (chains k))
    → (k : ℕ) → P k (changed chains h l k)
changed-all P chains h l here there k = elim (eq_cases k h) [
  | inl same ↦ rw (same, ==_self h) here
  | inr other ↦ rw (ne→== k h other) (there k other)
]

changed-Disjoint :
    (chains : ℕ → List ℕ) (h : ℕ) (l : List ℕ)
    → ((k : ℕ) → k ≢ h → Disjoint l (chains k) × Disjoint (chains k) l)
    → ((j k : ℕ) → j ≢ k → Disjoint (chains j) (chains k))
    → (j k : ℕ) → j ≢ k
    → Disjoint (changed chains h l j) (changed chains h l k)
changed-Disjoint chains h l new old j =
    changed-all (λ i m. (k : ℕ) → i ≢ k → Disjoint m (changed chains h l k)) chains h l
      (λ k ne.
        changed-all (λ k m. h ≢ k → Disjoint l m) chains h l (λ e. absurd (e refl))
          (λ k other _. (new k other).0) k ne)
      (λ i away k ne.
        changed-all (λ k m. i ≢ k → Disjoint (chains i) m) chains h l (λ _. (new i away).1)
          (λ k other ne'. old i k ne') k ne)
      j

unchanged :
    (t : Hashtable) (inode v p : ℕ) (l : List ℕ)
    → Absent inode l
    → Chain t.i_private p l
    → Chain (update t.i_private inode v) p l
unchanged t inode v p l fresh =
    SameLinks-Chain t.i_private (update t.i_private inode v) p l
      (update-SameLinks t.i_private inode v l fresh)

-- Insertion of an inode that is in no chain puts it first in the chain of its hash.
pub ufs_inode_insert_hash-IsTable :
    (t : Hashtable) (inode : ℕ) (chains : ℕ → List ℕ)
    → IsTable t chains
    → inode ≢ 0
    → ((h : ℕ) → Absent inode (chains h))
    → let h = ufs_inode_hash (t.i_ino inode) in
      IsTable (ufs_inode_insert_hash t inode) (changed chains h (inode ∷ chains h))
unfolding ufs_inode_insert_hash
ufs_inode_insert_hash-IsTable t inode chains (c, d, apart) nz fresh =
    let h = ufs_inode_hash (t.i_ino inode) in
    let first = t.head h in
    let next = update t.i_private inode first in
    (
      changed-all (λ k m. Chain next (update t.head h inode k) m) chains h (inode ∷ chains h)
          (
            update_self t.head h inode,
            nz,
            subst (λ p. Chain next p (chains h)) (sym (update_self t.i_private inode first))
                (unchanged t inode first first (chains h) (fresh h) (c h)),
          )
          (λ k other.
            subst (λ p. Chain next p (chains k)) (sym (update_ne t.head h inode k other))
              (unchanged t inode first (t.head k) (chains k) (fresh k) (c k))),
      changed-all (λ k m. Distinct m) chains h (inode ∷ chains h) (fresh h, d h) (λ k _. d k),
      changed-Disjoint chains h (inode ∷ chains h)
          (λ k other. (
            (fresh k, apart h k (λ e. other (sym e))),
            Disjoint-cons inode (chains k) (chains h) (fresh k) (apart k h other),
          ))
          apart,
    )

kept_links :
    (t after : Hashtable) (inode h : ℕ) (m l : List ℕ)
    → Removed t (head_of h) inode m after
    → Disjoint l m
    → SameLinks t.i_private after.i_private l
unfolding read_place
kept_links t after inode h m [] r d = tt
kept_links t after inode h m (q ∷ l) r (a, d) =
    (r.1 (next_of q) tt a, kept_links t after inode h m l r d)

-- The removal ends, in as many rounds as the chain of the hash of the inode has inodes and one more. It
-- takes the inode out of that chain and leaves the other chains.
pub ufs_inode_remove_hash-IsTable :
    (n : ℕ) (t : Hashtable) (inode : ℕ) (chains : ℕ → List ℕ)
    → IsTable t chains
    → length (chains (ufs_inode_hash (t.i_ino inode))) < n
    → let h = ufs_inode_hash (t.i_ino inode) in
      (after : Hashtable) × (ufs_inode_remove_hash n t inode ≡ some after)
      × IsTable after (changed chains h (without inode (chains h)))
unfolding ufs_inode_remove_hash read_place
ufs_inode_remove_hash-IsTable n t inode chains (c, d, apart) enough =
    let h = ufs_inode_hash (t.i_ino inode) in
    let rest = without inode (chains h) in
    let (after, found, gone) =
      remove_from-Chain n t inode (head_of h) (chains h) enough tt (d h) (c h) in
    (
      after,
      found,
      (
        changed-all (λ k m. Chain after.i_private (after.head k) m) chains h rest gone.0
            (λ k other. rw (gone.1 (head_of k) other tt) (
              SameLinks-Chain t.i_private after.i_private (t.head k) (chains k)
                (kept_links t after inode h (chains h) (chains k) gone (apart k h other)) (c k))),
        changed-all (λ k m. Distinct m) chains h rest (without-Distinct inode (chains h) (d h))
            (λ k _. d k),
        changed-Disjoint chains h rest
            (λ k other. (
              without-Disjoint inode (chains h) (chains k) (apart h k (λ e. other (sym e))),
              Disjoint-without inode (chains k) (chains h) (apart k h other),
            ))
            apart,
      ),
    )

-- `ufs_iget` ends, and finds the first inode of the chain with the number and the super block.
pub ufs_iget-first :
    (n : ℕ) (t : Hashtable) (chains : ℕ → List ℕ) (sb ino : ℕ)
    → IsTable t chains
    → length (chains (ufs_inode_hash ino)) < n
    → ufs_iget n t sb ino ≡ some (first_wanted t sb ino (chains (ufs_inode_hash ino)))
unfolding ufs_iget
ufs_iget-first n t chains sb ino (c, _, _) enough =
    iget_from-Chain t sb ino n (t.head (ufs_inode_hash ino)) (chains (ufs_inode_hash ino)) enough
      (c (ufs_inode_hash ino))
