-- ===== src/Path/Walk.antt =====
-- `ufs_path_walk` of src/vfs/src/path.c is a walk along the names of the path.
use userfs.Prelude.{
  ℕ, zero, suc, ◌≤◌, ◌<◌, ◌≡◌, refl, arith, Bool, true, false, Option, some, Outcome, ok, err,
  enotdir, enosys, enametoolong, List, [], ◌∷◌, length, leb, ◌==◌, if◌then◌else◌, ◌∙◌, ap, sym,
  subst, inl, inr, Bool-cases, if_false,
}
use userfs.Path.{
  slash, skip_slashes, component, is_dot, Tree, look_up, enter, must_be_dir, round, walk, walk_root,
  ufs_path_walk,
}
use userfs.Path.Names.{
  names, ends_in_slash, names-skip_slashes, length-skip_slashes, component_shorter, names_nil,
  names-component, ends-component, blank, found, skip_slashes-Skipped,
}

module _ (S : Tree) where
  open S use {Inode, is_dir, can_lookup, lookup, root}

  -- One name of a path.
  unfoldable pub step : Inode → List ℕ → Outcome Inode
  step cur name =
      if leb 256 (length name)
      then err enametoolong
      else if is_dot name
      then ok cur
      else if is_dir cur
      then (if can_lookup cur then lookup cur name else err enosys)
      else err enotdir

  -- The names in order; at a trailing slash the end is a directory.
  unfoldable pub then_follow : Outcome Inode → (Inode → Outcome Inode) → Outcome Inode
  then_follow (ok next) go = go next
  then_follow (err e) go = err e

  unfoldable pub follow : Inode → List (List ℕ) → Bool → Outcome Inode
  follow cur [] trailing = if trailing then must_be_dir S cur else ok cur
  follow cur (w ∷ ws) trailing = then_follow (step cur w) (λ next. follow next ws trailing)

  look_up_lem :
      (cur : Inode) (name : List ℕ) (go : Inode → Option (Outcome Inode))
      (f : Inode → Outcome Inode)
      → ((next : Inode) → go next ≡ some (f next))
      → enter S cur name go ≡ some (then_follow (step cur name) f)
  unfolding enter look_up step then_follow
  look_up_lem cur name go f h = elim (Bool-cases (leb 256 (length name))) [
    | inl long ↦ rw long refl
    | inr short ↦ elim (Bool-cases (is_dot name)) [
      | inl stay ↦ rw (short, stay) (h cur)
      | inr other ↦ elim (Bool-cases (is_dir cur)) [
        | inr file ↦ rw (short, other, file) refl
        | inl dir ↦ elim (Bool-cases (can_lookup cur)) [
          | inr blind ↦ rw (short, other, dir, blind) refl
          | inl sees ↦ rw (short, other, dir, sees) (answer (lookup cur name))
        ]
      ]
    ]
  ]
    where
      answer :
          (r : Outcome Inode)
          → (elim r [ ok next ↦ go next | err e ↦ some (err e) ]) ≡ some (then_follow r f)
      answer (ok next) = h next
      answer (err e) = refl

  walk_end :
      (fuel : ℕ) (cur : Inode)
      → 0 < fuel
      → walk S fuel cur [] ≡ some (follow cur (names []) (ends_in_slash []))
  unfolding walk follow names ends_in_slash
  walk_end zero cur h = absurd (omega arith)
  walk_end (suc fuel) cur h = refl

  skip_bound :
      (c : ℕ) (p : List ℕ) (d : ℕ) (q : List ℕ)
      → skip_slashes (c ∷ p) ≡ d ∷ q
      → length (d ∷ q) ≤ length (c ∷ p)
  skip_bound c p d q s = subst (λ x. length x ≤ length (c ∷ p)) s (length-skip_slashes (c ∷ p))

  walk_lem :
      (fuel : ℕ) (cur : Inode) (p : List ℕ)
      → length p < fuel
      → walk S fuel cur p ≡ some (follow cur (names p) (ends_in_slash p))
  unfolding walk round follow
  walk_lem zero cur p h = absurd (omega arith)
  walk_lem (suc fuel) cur [] h = walk_end (suc fuel) cur (omega arith)
  walk_lem (suc fuel) cur (c ∷ p) h = elim (skip_slashes-Skipped c p) [
    | blank s t ↦
        ap (λ x. round S cur x (walk S fuel)) s
        ∙ sym (
            ap (λ ws. some (follow cur ws true))
              (sym (names-skip_slashes (c ∷ p)) ∙ names_nil (skip_slashes (c ∷ p)) s))
        ∙ sym (ap (λ b. some (follow cur (names (c ∷ p)) b)) t)
    | found d q s f t ↦
        ap (λ x. round S cur x (walk S fuel)) s
        ∙ look_up_lem cur (component (d ∷ q)).0 (λ next. walk S fuel next (component (d ∷ q)).1)
            (λ next.
              follow next (names (component (d ∷ q)).1) (ends_in_slash (component (d ∷ q)).1))
            (λ next.
              walk_lem fuel next (component (d ∷ q)).1
                (omega (arith, h, component_shorter d q f, skip_bound c p d q s)))
        ∙ sym (
            ap (λ b. some (follow cur ((component (d ∷ q)).0 ∷ names (component (d ∷ q)).1) b))
              (t ∙ ends-component d q f))
        ∙ sym (
            ap (λ ws. some (follow cur ws (ends_in_slash (c ∷ p))))
              (sym (names-skip_slashes (c ∷ p)) ∙ ap names s ∙ names-component d q f))
  ]

  -- The walk always ends, and gives what following the names of the path one by one gives: from the
  -- root if the path starts with a slash, else from the directory; a trailing slash after a name
  -- asks for a directory; each name is checked for its length, "." stays, and any other name is
  -- looked up in a directory. It assumes that there is a root inode.
  pub ufs_path_walk-follow :
      (dir r : Inode) (p : List ℕ)
      → root ≡ some r
      → (ufs_path_walk S dir [] ≡ some (ok dir))
        × (ufs_path_walk S dir (slash ∷ p)
            ≡ some (follow r (names p) (ends_in_slash (skip_slashes p))))
        × ((c : ℕ)
            → (c == slash) ≡ false
            → ufs_path_walk S dir (c ∷ p)
              ≡ some (follow dir (names (c ∷ p)) (ends_in_slash (c ∷ p))))
  unfolding ufs_path_walk walk_root skip_slashes
  ufs_path_walk-follow dir r p top = (
    refl,
    ap (walk_root S (slash ∷ p)) top ∙ from_root,
    λ c e.
        if_false (walk_root S (c ∷ p) root) (walk S (suc (length (c ∷ p))) dir (c ∷ p)) e
        ∙ walk_lem (suc (length (c ∷ p))) dir (c ∷ p) (omega arith),
  )
    where
      from_root :
          walk S (suc (suc (length p))) r (skip_slashes p)
          ≡ some (follow r (names p) (ends_in_slash (skip_slashes p)))
      from_root =
          walk_lem (suc (suc (length p))) r (skip_slashes p) (omega (arith, length-skip_slashes p))
          ∙ ap (λ ws. some (follow r ws (ends_in_slash (skip_slashes p)))) (names-skip_slashes p)
