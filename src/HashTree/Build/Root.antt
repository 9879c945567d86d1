-- ===== src/HashTree/Build/Root.antt =====
-- What the tree over the hashes of a directory is, and what its top hash stands for.
use flocksy.Prelude.{
  ℕ, zero, suc, ◌+◌, ◌*◌, ◌/◌, ◌^◌, ◌≤◌, ◌<◌, ◌≡◌, refl, sym, ap, ◌∙◌, List, [], ◌∷◌, ◌++◌, map,
  length, Result, ok, All, arith, length-map, append_assoc,
}
use mathlib.Core.List.{Perm}
use native.Mathlib.Nat.{pow-suc, one-le-pow}
use flocksy.Hash.{Hash}
use flocksy.HashTree.Size.Bounds.{Needs}
use flocksy.HashTree.Sort.Order.{
  IsSetHash, IsAscending, sort_hashes, sort_hashes-IsAscending, sorted-Perm, length-sorted,
}
use flocksy.HashTree.Sort.Same.{sort_hashes-Perm}
use flocksy.HashTree.Levels.Pairs.{pair_up, length-pair_up, levels, concat, back-append}
use flocksy.HashTree.Build.{Pointer, HashTree, build, make_hash_tree, get_top_hash}
use flocksy.HashTree.Build.Tree.{AreDistinct, hash_of, make_hash_tree-build, tree_of, build-tree_of}

-- The hash above some hashes: the hash itself of one, and of more the hash above their pairs.
pub data Above (generichash : List ℕ → List ℕ) : List Hash → Hash → Type 0 where
  one : (h : Hash) → Above generichash (h ∷ []) h
  pairs :
      (xs : List Hash) (h : Hash)
      → 2 ≤ length xs
      → Above generichash (pair_up generichash xs) h
      → Above generichash xs h

All-map : (ps : List Pointer) → All (λ p. IsSetHash p.hash) ps → All IsSetHash (map hash_of ps)
All-map [] h = tt
All-map (p ∷ ps) (h, hs) = (h, All-map ps hs)

pub get_top_hash-append :
    (t : HashTree) (init : List Hash) (top : Hash)
    → t.hashes ≡ init ++ (top ∷ [])
    → get_top_hash t ≡ top
unfolding get_top_hash
get_top_hash-append t init top e = rw (e, get_top_hash) (rw (back-append init top) refl)

module _ (generichash : List ℕ → List ℕ) where
  Needs-pair_up :
      (e : ℕ) (xs : List Hash)
      → Needs (length xs) (suc e)
      → Needs (length (pair_up generichash xs)) e
  Needs-pair_up zero xs h = tt
  Needs-pair_up (suc e) xs h = omega (arith, length-pair_up generichash xs, pow-suc 2 e, h)

  -- The last hash of all levels.
  pub levels-Above :
      (e : ℕ) (xs : List Hash)
      → 0 < length xs
      → length xs ≤ 2 ^ e
      → Needs (length xs) e
      → (h : Hash) × (init : List Hash) × (concat (levels generichash e xs) ≡ init ++ (h ∷ []))
        × Above generichash xs h
  unfolding levels concat
  levels-Above zero [] some_leaf enough needs = absurd (omega arith)
  levels-Above zero (x ∷ []) some_leaf enough needs = (x, [], refl, Above.one x)
  levels-Above zero (x ∷ y ∷ xs) some_leaf enough needs = absurd (omega arith)
  levels-Above (suc e) xs some_leaf enough needs =
      let up = pair_up generichash xs in
      let half : length up ≡ (length xs + 1) / 2 = length-pair_up generichash xs in
      let bound : 2 ^ suc e ≡ 2 ^ e * 2 = pow-suc 2 e in
      let positive : 0 < 2 ^ e = one-le-pow e 2 (omega arith) in
      let (h, init, all, above) =
        levels-Above e up (omega arith) (omega arith) (Needs-pair_up e xs needs) in
      (
        h,
        xs ++ init,
        ap (◌++◌ xs) all ∙ sym (append_assoc xs init (h ∷ [])),
        Above.pairs xs h (omega arith) above,
      )

  -- The tree over some hashes, which has their sorted list at the bottom, and its top.
  abbrev pub IsTree : List Hash → Result HashTree → Type 0
  IsTree hashes result =
      (leaves : List Hash) × Perm leaves hashes
      × IsAscending leaves
      × (e : ℕ) × (length leaves ≤ 2 ^ e)
      × Needs (length leaves) e
      × (result
          ≡ ok (record {
            hashes = concat (levels generichash e leaves);
            elements_per_level = map length (levels generichash e leaves);
          }))
      × (top : Hash) × (get_top_hash (tree_of generichash e leaves) ≡ top)
      × Above generichash leaves top

  -- For 1 to 2 ^ 29 pointers to different hashes that are set, makeHashTree succeeds: the first level
  -- is the hashes in ascending order, none left out; each level above it joins the nodes of the one below in
  -- pairs, the last of an odd number with itself; there are as many levels as halving takes
  -- to come to one node and no more; elements_per_level_ holds their lengths; and getTopHash gives the hash
  -- that stands above all the leaves.
  pub make_hash_tree-levels :
      (ps : List Pointer)
      → AreDistinct ps
      → All (λ p. IsSetHash p.hash) ps
      → 0 < length ps
      → length ps ≤ 2 ^ 29
      → IsTree (map hash_of ps) (make_hash_tree generichash ps)
  make_hash_tree-levels ps d h some_hash bound =
      let hashes = map hash_of ps in
      let leaves = sort_hashes hashes in
      let count : length leaves ≡ length ps =
        length-sorted (λ (x : Hash). x) hashes ∙ length-map hash_of ps in
      let (e, enough, needs, built) =
        build-tree_of generichash leaves (omega arith) (omega arith) in
      let (top, init, all, above) = levels-Above e leaves (omega arith) enough needs in
      (
        leaves,
        sorted-Perm (λ (x : Hash). x) hashes,
        sort_hashes-IsAscending hashes (All-map ps h),
        e,
        enough,
        needs,
        make_hash_tree-build generichash ps d h ∙ built,
        top,
        get_top_hash-append (tree_of generichash e leaves) init top all,
        above,
      )

  -- The order in which a directory lists its files makes no difference: makeHashTree gives the same tree
  -- for two lists of pointers, each to different objects, that hold the same hashes (all set) in any orders.
  pub make_hash_tree-Perm :
      (ps qs : List Pointer)
      → AreDistinct ps
      → AreDistinct qs
      → All (λ p. IsSetHash p.hash) ps
      → All (λ p. IsSetHash p.hash) qs
      → Perm (map hash_of ps) (map hash_of qs)
      → make_hash_tree generichash ps ≡ make_hash_tree generichash qs
  make_hash_tree-Perm ps qs dp dq hp hq same =
      make_hash_tree-build generichash ps dp hp
      ∙ ap (build generichash)
          (sort_hashes-Perm (map hash_of ps) (map hash_of qs) same (All-map ps hp))
      ∙ sym (make_hash_tree-build generichash qs dq hq)
