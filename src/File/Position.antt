-- ===== src/File/Position.antt =====
-- The position of an open file of src/vfs/src/file.c: reads in a row give the bytes in a row.
use userfs.Prelude.{
  ℕ, zero, suc, ◌+◌, ◌≡◌, refl, arith, some, Outcome, ok, List, [], ◌∷◌, ◌++◌, length, take, drop,
  length-append, ap, sym, ◌∙◌,
}
use userfs.File.{FileOps, File, after_read, advance, read_with, ufs_file_read}

take_nil : (n : ℕ) → Path (List ℕ) (take n []) []
take_nil zero = refl
take_nil (suc n) = refl

drop_nil : (n : ℕ) → Path (List ℕ) (drop n []) []
drop_nil zero = refl
drop_nil (suc n) = refl

take_add : (n m : ℕ) (l : List ℕ) → take (n + m) l ≡ take n l ++ take m (drop (length (take n l)) l)
take_add zero m l = let z : 0 + m ≡ m = omega arith in ap (λ k. take k l) z
take_add (suc n) m [] = take_nil (suc n + m) ∙ sym (take_nil m)
take_add (suc n) m (x ∷ l) =
    let s : suc n + m ≡ suc (n + m) = omega arith in
    ap (λ k. take k (x ∷ l)) s ∙ ap (λ t. x ∷ t) (take_add n m l)

drop_add : (n m : ℕ) (l : List ℕ) → drop (n + m) l ≡ drop m (drop n l)
drop_add zero m l = let z : 0 + m ≡ m = omega arith in ap (λ k. drop k l) z
drop_add (suc n) m [] = drop_nil (suc n + m) ∙ sym (drop_nil m)
drop_add (suc n) m (x ∷ l) =
    let s : suc n + m ≡ suc (n + m) = omega arith in ap (λ k. drop k (x ∷ l)) s ∙ drop_add n m l

-- `read` gives the bytes of a file from the position on, as many as asked for if there are so many, and
-- leaves the file system as it is.
abbrev pub IsPlainRead :
    {W I : Type 0} → (W → I → ℕ → ℕ → Outcome (List ℕ) × W) → (W → I → List ℕ) → Type 0
IsPlainRead {W} {I} f content =
    (w : W) (i : I) (count pos : ℕ)
    → f w i count pos ≡ (ok (take count (drop pos (content w i))), w)

module _ {W I : Type 0} (ops : FileOps W I) (f : W → I → ℕ → ℕ → Outcome (List ℕ) × W)
    (content : W → I → List ℕ) (has : ops.read_op ≡ some f) (plain : IsPlainRead f content) where
  -- What stands at the position.
  abbrev pub next_bytes : W → File ops → ℕ → List ℕ
  next_bytes w file n = take n (drop file.f_pos (content w file.f_inode))

  read_lem :
      (w : W) (file : File ops) (n : ℕ)
      → ufs_file_read ops w file n
        ≡ (ok (next_bytes w file n), advance ops file (length (next_bytes w file n)), w)
  unfolding ufs_file_read read_with after_read
  read_lem w file n =
      ap (λ o. read_with ops o w file n) has
      ∙ ap (after_read ops file) (plain w file.f_inode n file.f_pos)

  -- Over a file system whose `read` gives the bytes from a position on, two `ufs_file_read` calls in a
  -- row return the bytes that one call for both counts returns, one after the other, also where the
  -- file ends between them, and leave the position where that call leaves it.
  pub read_twice :
      (w : W) (file : File ops) (n m : ℕ)
      → let first = next_bytes w file n in
        let file' = advance ops file (length first) in
        let second = next_bytes w file' m in
        let file'' = advance ops file' (length second) in
        (ufs_file_read ops w file n ≡ (ok first, file', w))
        × (ufs_file_read ops w file' m ≡ (ok second, file'', w))
        × (ufs_file_read ops w file (n + m) ≡ (ok (first ++ second), file'', w))
  unfolding advance
  read_twice w file n m =
      let all = content w file.f_inode in
      let first = take n (drop file.f_pos all) in
      let second = take m (drop (file.f_pos + length first) all) in
      let joined : take (n + m) (drop file.f_pos all) ≡ first ++ second =
        take_add n m (drop file.f_pos all)
        ∙ ap (λ t. first ++ take m t) (sym (drop_add file.f_pos (length first) all)) in
      let moved : file.f_pos + length (first ++ second)
          ≡ file.f_pos + length first + length second =
        omega (arith, length-append first second) in
      (
        read_lem w file n,
        read_lem w (advance ops file (length first)) m,
        read_lem w file (n + m)
            ∙ ap (λ l. (ok l, record file { f_pos = file.f_pos + length l }, w)) joined
            ∙ ap (λ k. (ok (first ++ second), record file { f_pos = k }, w)) moved,
      )
