-- ===== src/Api/Listing.antt =====
-- The names that `ufs_listdir` gathers.
use userfs.Prelude.{
  ℕ, suc, ◌≤◌, ◌≡◌, refl, arith, Bool, true, false, some, Outcome, ok, err, enotdir, if_true, List,
  [], ◌∷◌, ◌++◌, length, length-append, leb, ◌||◌, if◌then◌else◌, ap, ◌∙◌, sym, Bool-cases, inl,
  inr, lt_cases, lt→leb, le→leb,
}
use mathlib.Core.List.{append-nil, append_assoc}
use userfs.Path.{is_dot, ufs_path_resolve}
use userfs.File.{File, ufs_file_open, ufs_file_close}
use userfs.Fat.Dir.Scan.{Dirent, feed, feed_next}
use userfs.Api.{
  Collected, none_yet, is_dot_dot, next_capacity, store_name, grow_names, collect_dirent, FsOps,
  tree_of, then_found, with_inode, listing, iterate_with, list_opened, list_inode, ufs_listdir,
}

-- The names but "." and "..".
abbrev pub proper_names : List Dirent → List (List ℕ)
proper_names [] = []
proper_names (e ∷ l) =
    if is_dot e.d_name || is_dot_dot e.d_name then proper_names l else e.d_name ∷ proper_names l

-- The array has room for the names it holds.
abbrev pub HasRoom : Collected → Type 0
HasRoom c = length c.names ≤ c.capacity

module _ (grows : ℕ → Bool) (copies : List ℕ → Bool) where
  store_name-HasRoom :
      (c : Collected) (name : List ℕ)
      → suc (length c.names) ≤ c.capacity
      → HasRoom (store_name grows copies c name).1
  unfolding store_name
  store_name-HasRoom c name h = elim (Bool-cases (copies name)) [
    | inl e ↦ rw e (omega (arith, length-append c.names (name ∷ [])))
    | inr e ↦ rw e (omega arith)
  ]

  next-bigger : (n : ℕ) → suc n ≤ next_capacity n
  next-bigger n = ground arith

  grow_names-HasRoom :
      (c : Collected) (name : List ℕ) → HasRoom c → HasRoom (grow_names grows copies c name).1
  unfolding grow_names
  grow_names-HasRoom c name h = elim (Bool-cases (grows (next_capacity c.capacity))) [
    | inl e ↦ rw e (
        store_name-HasRoom (record c { capacity = next_capacity c.capacity }) name
          (omega (arith, next-bigger c.capacity)))
    | inr e ↦ rw e (omega (arith, next-bigger c.capacity))
  ]

  -- Whatever `realloc` and `strdup` answer, `collect_dirent` keeps the names within the array.
  pub collect-HasRoom :
      (c : Collected) (e : Dirent) → HasRoom c → HasRoom (collect_dirent grows copies c e).1
  unfolding collect_dirent
  collect-HasRoom c e h = elim (Bool-cases (is_dot e.d_name || is_dot_dot e.d_name)) [
    | inl d ↦ rw d h
    | inr d ↦ elim (lt_cases (length c.names) c.capacity) [
      | inl lt ↦ rw (d, lt→leb c.capacity (length c.names) lt) (store_name-HasRoom c e.d_name lt)
      | inr ge ↦ rw (d, le→leb c.capacity (length c.names) ge) (grow_names-HasRoom c e.d_name h)
    ]
  ]

-- The allocations succeed.
abbrev pub always {ℓ} : {A : Type ℓ} → A → Bool
always a = true

collected :
    (c : Collected) (e : Dirent)
    → (c' : Collected) × (collect_dirent always always c e ≡ (false, c'))
      × (c'.names ≡ c.names ++ proper_names (e ∷ []))
unfolding collect_dirent grow_names store_name
collected c e = elim (Bool-cases (is_dot e.d_name || is_dot_dot e.d_name)) [
  | inl d ↦ (c, rw d refl, rw d (sym (append-nil c.names)))
  | inr d ↦ elim (Bool-cases (leb c.capacity (length c.names))) [
    | inl f ↦ (
      record { names = c.names ++ e.d_name ∷ []; capacity = next_capacity c.capacity },
      rw (d, f) refl,
      rw d refl,
    )
    | inr f ↦ (record c { names = c.names ++ e.d_name ∷ [] }, rw (d, f) refl, rw d refl)
  ]
]

one_more :
    (e : Dirent) (l : List Dirent) → proper_names (e ∷ []) ++ proper_names l ≡ proper_names (e ∷ l)
one_more e l = elim (Bool-cases (is_dot e.d_name || is_dot_dot e.d_name)) [
  | inl d ↦ rw d refl
  | inr d ↦ rw d refl
]

-- All names are gathered, in their order.
fed_names :
    (l : List Dirent) (c : Collected)
    → (feed (collect_dirent always always) l c).names ≡ c.names ++ proper_names l
fed_names [] c = sym (append-nil c.names)
fed_names (e ∷ l) c =
    let (c', done, names) = collected c e in
    ap
      (λ r.
        (feed_next (collect_dirent always always) r (feed (collect_dirent always always) l)).names)
      done
    ∙ fed_names l c'
    ∙ ap (λ n. n ++ proper_names l) names
    ∙ append_assoc c.names (proper_names (e ∷ [])) (proper_names l)
    ∙ ap (λ n. c.names ++ n) (one_more e l)

module _ {W I : Type 0} (fs : FsOps W I) (w : W) (path : List ℕ) (i : I) (file : File fs.files)
    (it : (Collected → Dirent → Bool × Collected) → Collected → Outcome (Unit {0}) × Collected)
    (es : List Dirent) where
  iterated :
      fs.iterate w i ≡ some it
      → it (collect_dirent always always) none_yet
        ≡ (ok tt, feed (collect_dirent always always) es none_yet)
      → iterate_with fs always always (fs.iterate w i) ≡ (ok tt, proper_names es)
  unfolding iterate_with listing
  iterated has gives =
      ap (iterate_with fs always always) has
      ∙ ap (λ r. listing fs r.0 r.1) gives
      ∙ ap (λ n. (ok tt, n)) (fed_names es none_yet)

  -- On a path to a directory that can be opened, whose iteration gives its callback the entries `es`
  -- in their order until it asks to stop, and with the allocations succeeding, `ufs_listdir` returns
  -- the names of all these entries but "." and "..", in their order.
  pub ufs_listdir_lem :
      ufs_path_resolve (tree_of fs w) path ≡ some (ok i)
      → fs.is_dir w i ≡ true
      → ufs_file_open fs.files true w i 0 ≡ (ok file, w)
      → fs.iterate w i ≡ some it
      → it (collect_dirent always always) none_yet
        ≡ (ok tt, feed (collect_dirent always always) es none_yet)
      → (w' : W) × (ufs_listdir fs always always true true w path
          ≡ some (ok (ok tt, proper_names es), w'))
  unfolding ufs_listdir with_inode then_found list_inode list_opened
  ufs_listdir_lem found dir opens has gives = (
    (ufs_file_close fs.files w file).1,
    ap (λ o. then_found fs w o (list_inode fs always always true w)) found
        ∙ ap some (
            if_true (list_opened fs always always i (ufs_file_open fs.files true w i 0))
              (err enotdir, w) dir)
        ∙ ap (λ r. some (list_opened fs always always i r)) opens
        ∙ ap (λ n. some (ok n, (ufs_file_close fs.files w file).1)) (iterated has gives),
  )
