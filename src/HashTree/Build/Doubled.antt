-- ===== src/HashTree/Build/Doubled.antt =====
-- A hash that the tree doubles, and one that stands twice in the directory, give the same top hash.
use flocksy.Prelude.{
  ℕ, zero, suc, ◌+◌, ◌*◌, ◌^◌, ◌≤◌, ◌<◌, ◌≡◌, refl, sym, ap, ◌∙◌, subst, List, [], ◌∷◌, ◌++◌,
  length, false, ok, arith, length-append,
}
use flocksy.Bytes.{bytes_eq_iff}
use flocksy.Hash.{Hash, get_string}
use flocksy.HashTree.Levels.{back, join}
use flocksy.HashTree.Levels.Pairs.{pair_up, back-append}
use flocksy.HashTree.Build.{HashTree, build, get_top_hash, check_hash_tree_change}
use flocksy.HashTree.Build.Tree.{tree_of, build-tree_of}
use flocksy.HashTree.Build.Root.{Above, levels-Above, get_top_hash-append}

module _ (generichash : List ℕ → List ℕ) where
  Above-determined :
      {xs : List Hash} {g h : Hash} → Above generichash xs g → Above generichash xs h → g ≡ h
  Above-determined (Above.one g) (Above.one h) = refl
  Above-determined (Above.one g) (Above.pairs xs h more b) = absurd (omega arith)
  Above-determined (Above.pairs xs g more a) (Above.one h) = absurd (omega arith)
  Above-determined (Above.pairs xs g more a) (Above.pairs ys h more' b) = Above-determined a b

  Above-pair_up :
      {xs : List Hash} {h : Hash}
      → Above generichash xs h
      → 2 ≤ length xs
      → Above generichash (pair_up generichash xs) h
  Above-pair_up (Above.one h) more = absurd (omega arith)
  Above-pair_up (Above.pairs xs h more a) more' = a

  -- An odd last node is joined with itself.
  pair_up-doubled :
      (k : ℕ) (xs : List Hash) (c : Hash)
      → length xs ≡ 2 * k
      → pair_up generichash (xs ++ (c ∷ [])) ≡ pair_up generichash (xs ++ (c ∷ c ∷ []))
  unfolding pair_up
  pair_up-doubled k [] c e = refl
  pair_up-doubled zero (x ∷ xs) c e = absurd (omega arith)
  pair_up-doubled (suc k) (x ∷ []) c e = absurd (omega arith)
  pair_up-doubled (suc k) (x ∷ y ∷ xs) c e =
      ap (◌∷◌ (join generichash x y)) (pair_up-doubled k xs c (omega arith))

  Above-doubled :
      (k : ℕ) (xs : List Hash) (c h : Hash)
      → length xs ≡ 2 * suc k
      → Above generichash (xs ++ (c ∷ [])) h
      → Above generichash (xs ++ (c ∷ c ∷ [])) h
  Above-doubled k xs c h e a =
      Above.pairs (xs ++ (c ∷ c ∷ [])) h (omega (arith, length-append xs (c ∷ c ∷ []))) (
        subst (λ ys. Above generichash ys h) (pair_up-doubled (suc k) xs c e)
          (Above-pair_up a (omega (arith, length-append xs (c ∷ [])))))

  -- The tree over some hashes, by its top.
  build-Above :
      (leaves : List Hash)
      → 0 < length leaves
      → length leaves ≤ 2 ^ 29
      → (t : HashTree) × (build generichash leaves ≡ ok t)
        × (top : Hash) × (back t.hashes ≡ ok top)
        × (get_top_hash t ≡ top)
        × Above generichash leaves top
  build-Above leaves h bound =
      let (e, enough, needs, built) = build-tree_of generichash leaves h bound in
      let (top, init, all, above) = levels-Above generichash e leaves h enough needs in
      (
        tree_of generichash e leaves,
        built,
        top,
        ap back all ∙ back-append init top,
        get_top_hash-append (tree_of generichash e leaves) init top all,
        above,
      )

same_top :
    (t u : HashTree) (g h : Hash)
    → back t.hashes ≡ ok g
    → get_top_hash u ≡ h
    → g ≡ h
    → check_hash_tree_change t u ≡ ok false
unfolding check_hash_tree_change
same_top t u g h e f same =
    rw (e, f) (rw ((bytes_eq_iff (get_string h) (get_string g)).1 (ap get_string (sym same))) refl)

-- The sorted hashes of an odd number (three or more, fewer than 2 ^ 29) and the same with the last one twice give
-- two trees that checkHashTreeChange takes for the same: the odd last node is joined with itself.
pub check_hash_tree_change-doubled :
    (generichash : List ℕ → List ℕ) (k : ℕ) (xs : List Hash) (c : Hash)
    → length xs ≡ 2 * suc k
    → 2 * suc k + 2 ≤ 2 ^ 29
    → (t : HashTree) × (u : HashTree) × (build generichash (xs ++ (c ∷ [])) ≡ ok t)
      × (build generichash (xs ++ (c ∷ c ∷ [])) ≡ ok u)
      × (check_hash_tree_change t u ≡ ok false)
check_hash_tree_change-doubled generichash k xs c e bound =
    let n₁ = length-append xs (c ∷ []) in
    let n₂ = length-append xs (c ∷ c ∷ []) in
    let (t, built, g, last, _, a) =
      build-Above generichash (xs ++ (c ∷ [])) (omega arith) (omega arith) in
    let (u, built', h, _, top, b) =
      build-Above generichash (xs ++ (c ∷ c ∷ [])) (omega arith) (omega arith) in
    (
      t,
      u,
      built,
      built',
      same_top t u g h last top
          (Above-determined generichash (Above-doubled generichash k xs c g e a) b),
    )
