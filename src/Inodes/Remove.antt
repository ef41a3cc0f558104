-- ===== src/Inodes/Remove.antt =====
-- The removal of an inode from its chain, `ufs_inode_remove_hash` of src/vfs/src/inode.c.
use userfs.Prelude.{
  ℕ, zero, suc, ◌<◌, ◌≡◌, ◌≢◌, inl, inr, refl, ◌∙◌, subst, arith, some, List, [], ◌∷◌, length,
  ==_self, ne→==, eq_cases,
}
use userfs.Inodes.{Hashtable, Place, head_of, next_of, read_place, write_place, remove_from}
use userfs.Inodes.Chains.{
  Chain, Absent, Distinct, without, update_self, update_ne, update-SameLinks, SameLinks-Chain,
}

-- The place is not the link of an inode of the list.
abbrev pub Outside : Place → List ℕ → Type 0
Outside (head_of h) l = Unit
Outside (next_of i) l = Absent i l

abbrev pub Apart : Place → Place → Type 0
Apart (head_of h) (head_of k) = h ≢ k
Apart (head_of h) (next_of j) = Unit
Apart (next_of i) (head_of k) = Unit
Apart (next_of i) (next_of j) = i ≢ j

Outside-tail : (r : Place) (q : ℕ) (l : List ℕ) → Outside r (q ∷ l) → Outside r l
Outside-tail (head_of h) q l o = tt
Outside-tail (next_of i) q l (ne, o) = o

Outside-Apart : (r : Place) (q : ℕ) (l : List ℕ) → Outside r (q ∷ l) → Apart r (next_of q)
Outside-Apart (head_of h) q l o = tt
Outside-Apart (next_of i) q l (ne, o) = ne

read-write : (t : Hashtable) (pp : Place) (v : ℕ) → read_place (write_place t pp v) pp ≡ v
unfolding read_place write_place
read-write t (head_of h) v = update_self t.head h v
read-write t (next_of i) v = update_self t.i_private i v

read-write-Apart :
    (t : Hashtable) (r pp : Place) (v : ℕ)
    → Apart r pp
    → read_place (write_place t pp v) r ≡ read_place t r
unfolding read_place write_place
read-write-Apart t (head_of h) (head_of k) v a = update_ne t.head k v h a
read-write-Apart t (head_of h) (next_of j) v a = refl
read-write-Apart t (next_of i) (head_of k) v a = refl
read-write-Apart t (next_of i) (next_of j) v a = update_ne t.i_private j v i a

write-Chain :
    (t : Hashtable) (pp : Place) (v p : ℕ) (l : List ℕ)
    → Outside pp l
    → Chain t.i_private p l
    → Chain (write_place t pp v).i_private p l
unfolding write_place
write-Chain t (head_of h) v p l o c = c
write-Chain t (next_of i) v p l o c =
    SameLinks-Chain t.i_private _ p l (update-SameLinks t.i_private i v l o) c

-- After the loop from `pp` the chain there is without the inode, and other places outside of the chain are
-- as before.
abbrev pub Removed : Hashtable → Place → ℕ → List ℕ → Hashtable → Type 0
Removed t pp inode l after =
    Chain after.i_private (read_place after pp) (without inode l)
    × ((r : Place) → Apart r pp → Outside r l → read_place after r ≡ read_place t r)

pub remove_from-Chain :
    (n : ℕ) (t : Hashtable) (inode : ℕ) (pp : Place) (l : List ℕ)
    → length l < n
    → Outside pp l
    → Distinct l
    → Chain t.i_private (read_place t pp) l
    → (after : Hashtable) × (remove_from n t inode pp ≡ some after) × Removed t pp inode l after
unfolding remove_from read_place
remove_from-Chain zero t inode pp l h o d c = absurd (omega arith)
remove_from-Chain (suc n) t inode pp [] h o d c = (t, rw c refl, (c, λ r a _. refl))
remove_from-Chain (suc n) t inode pp (q ∷ l) h o (fresh, d) (e, ne, c) = elim (eq_cases q inode) [
  | inl same ↦ (
    write_place t pp (t.i_private q),
    rw (e, ne→== q 0 ne, same, ==_self inode) refl,
    (
      rw (same, ==_self inode, read-write t pp (t.i_private inode))
          (write-Chain t pp _ _ l (Outside-tail pp q l o)
            (subst (λ i. Chain t.i_private (t.i_private i) l) same c)),
      λ r a out. read-write-Apart t r pp (t.i_private q) a,
    ),
  )
  | inr other ↦
      let (after, found, (chain, kept)) =
        remove_from-Chain n t inode (next_of q) l (omega arith) fresh d c in
      (
        after,
        rw (e, ne→== q 0 ne, ne→== q inode other) found,
        (
          rw (ne→== q inode other)
              (kept pp (Outside-Apart pp q l o) (Outside-tail pp q l o) ∙ e, ne, chain),
          λ r a out. kept r (Outside-Apart r q l out) (Outside-tail r q l out),
        ),
      )
]
