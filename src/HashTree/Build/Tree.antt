-- ===== src/HashTree/Build/Tree.antt =====
-- The tree that makeHashTree builds.
use flocksy.Prelude.{
  ℕ, ◌+◌, ◌-◌, ◌*◌, ◌^◌, ◌%◌, take, length-take, ◌≤◌, ◌<◌, ◌≡◌, ◌≢◌, refl, sym, ap, ◌∙◌, List, [],
  ◌∷◌, map, length, true, false, some, ok, fault, undefined, All, arith, ltb, lt→ltb, ◌==◌,
  le_or_lt, Bool-cases, inl, inr,
}
use native.Mathlib.Nat.{one-le-pow}
use flocksy.Hash.{Hash, memcmp_less}
use flocksy.HashTree.Size.{Size, one_leaf, grow}
use flocksy.HashTree.Size.Bounds.{
  power_le, power_less, Needs-less, size_at, Needs, grow-Ends, grow-overflow,
}
use flocksy.HashTree.Sort.Order.{
  All-sorted, All-sorted_insert, IsSetHash, sorted, sorted_insert, sort_hashes, sort-sorted,
  map-sorted,
}
use flocksy.HashTree.Levels.Pairs.{levels, concat, tree_loop-levels}
use flocksy.HashTree.Build.{
  Pointer, HashTree, unique_from, unique, fill, build_counted, build, make_hash_tree,
}

-- Pointers to different objects, each to a hash that is set.
abbrev pub AreDistinct : List Pointer → Type 0
AreDistinct [] = Unit {0}
AreDistinct (p ∷ ps) = All (λ q. p.address ≢ q.address) ps × AreDistinct ps

abbrev pub hash_of : Pointer → Hash
hash_of p = p.hash

sorted_insert-AreDistinct :
    (p : Pointer) (ps : List Pointer)
    → All (λ q. p.address ≢ q.address) ps
    → AreDistinct ps
    → AreDistinct (sorted_insert hash_of p ps)
sorted_insert-AreDistinct p [] h d = (tt, tt)
sorted_insert-AreDistinct p (q ∷ qs) (h, hs) (d, ds) =
    elim (Bool-cases (memcmp_less q.hash.bytes p.hash.bytes)) [
      | inl e ↦ rw e (
        All-sorted_insert hash_of (λ r. q.address ≢ r.address) p qs (λ same. h (sym same)) d,
        sorted_insert-AreDistinct p qs hs ds,
      )
      | inr e ↦ rw e ((h, hs), (d, ds))
    ]

sorted-AreDistinct : (ps : List Pointer) → AreDistinct ps → AreDistinct (sorted hash_of ps)
sorted-AreDistinct [] d = tt
sorted-AreDistinct (p ∷ ps) (h, d) =
    sorted_insert-AreDistinct p (sorted hash_of ps)
      (All-sorted hash_of (λ q. p.address ≢ q.address) ps h) (sorted-AreDistinct ps d)

unique_from-same :
    (p : Pointer) (ps : List Pointer) → AreDistinct (p ∷ ps) → unique_from p ps ≡ p ∷ ps
unfolding unique_from
unique_from-same p [] d = refl
unique_from-same p (q ∷ qs) ((h, hs), d) =
    let other : (p.address == q.address) ≡ false = ground arith in
    rw other (ap (◌∷◌ p) (unique_from-same q qs d))

-- No pointer is left out.
unique-same : (ps : List Pointer) → AreDistinct ps → unique ps ≡ ps
unfolding unique
unique-same [] d = refl
unique-same (p ∷ ps) d = unique_from-same p ps d

take-all : (xs : List Hash) → take (length xs) xs ≡ xs
take-all [] = refl
take-all (x ∷ xs) = ap (◌∷◌ x) (take-all xs)

module _ (generichash : List ℕ → List ℕ) where
  pub make_hash_tree-build :
      (ps : List Pointer)
      → AreDistinct ps
      → All (λ p. IsSetHash p.hash) ps
      → make_hash_tree generichash ps ≡ build generichash (sort_hashes (map hash_of ps))
  unfolding make_hash_tree
  make_hash_tree-build ps d h = rw (sort-sorted hash_of ps h) (
      rw (unique-same (sorted hash_of ps) (sorted-AreDistinct ps d))
        (ap (build generichash) (map-sorted hash_of ps)))

  abbrev pub tree_of : ℕ → List Hash → HashTree
  tree_of e leaves = record {
    hashes = concat (levels generichash e leaves);
    elements_per_level = map length (levels generichash e leaves);
  }

  fill-tree_of :
      (leaves : List Hash) (e : ℕ)
      → length leaves ≤ 2 ^ e
      → e < 30
      → fill generichash leaves (size_at e) ≡ ok (tree_of e leaves)
  unfolding fill
  fill-tree_of leaves e h small =
      let bound : 2 ^ e ≤ 2 ^ 29 = power_le e 29 (omega arith) in
      let positive : 0 < 2 ^ e = one-le-pow e 2 (omega arith) in
      let fits : ltb (2 * 2 ^ e - 1 + 1) (2 ^ 31) ≡ true =
        lt→ltb (2 * 2 ^ e - 1 + 1) (2 ^ 31) (omega arith) in
      rw fits (rw (tree_loop-levels generichash e [] leaves [] h) refl)

  build_counted-some :
      (leaves : List Hash) (s : Size)
      → 0 < length leaves
      → grow 31 (length leaves) one_leaf ≡ ok (some s)
      → build_counted generichash leaves ≡ fill generichash leaves s
  unfolding build_counted
  build_counted-some leaves s h e =
      let some_leaf : (length leaves == 0) ≡ false = ground arith in rw e (rw some_leaf refl)

  pub build_counted-tree_of :
      (leaves : List Hash)
      → 0 < length leaves
      → length leaves ≤ 2 ^ 29
      → (e : ℕ) × (length leaves ≤ 2 ^ e)
        × Needs (length leaves) e
        × (build_counted generichash leaves ≡ ok (tree_of e leaves))
  build_counted-tree_of leaves h bound =
      let (e, small, enough, needs, size) = grow-Ends (length leaves) (omega arith) in
      let less : e < 30 = Needs-less (length leaves) e needs bound in
      (
        e,
        enough,
        needs,
        build_counted-some leaves (size_at e) h size ∙ fill-tree_of leaves e enough less,
      )

  fill-overflow :
      (leaves : List Hash) (e : ℕ) → e ≡ 30 → fill generichash leaves (size_at e) ≡ fault undefined
  unfolding fill
  fill-overflow leaves e h = rw h refl

  pub build_counted-overflow :
      (leaves : List Hash)
      → 2 ^ 29 < length leaves
      → build_counted generichash leaves ≡ fault undefined
  unfolding build_counted
  build_counted-overflow leaves h = elim (le_or_lt (length leaves) (2 ^ 30)) [
    | inl bound ↦
        let (e, small, enough, needs, size) = grow-Ends (length leaves) bound in
        let large : 29 < e = power_less 29 e (omega arith) in
        build_counted-some leaves (size_at e) (omega arith) size
        ∙ fill-overflow leaves e (omega arith)
    | inr more ↦ rw (grow-overflow (length leaves) more) refl
  ]

  -- The hashes that are copied, when there are n of them, and when hash_count is not below zero.
  pub build-counted :
      (leaves : List Hash)
      → length leaves % 2 ^ 32 < 2 ^ 31
      → build generichash leaves ≡ build_counted generichash (take (length leaves % 2 ^ 32) leaves)
  unfolding build
  build-counted leaves h = rw (lt→ltb (length leaves % 2 ^ 32) (2 ^ 31) h) refl

  pub length-counted :
      (leaves : List Hash) → length (take (length leaves % 2 ^ 32) leaves) ≡ length leaves % 2 ^ 32
  length-counted leaves = omega (arith, length-take (length leaves % 2 ^ 32) leaves)

  take-counted :
      (leaves : List Hash) → length leaves ≤ 2 ^ 29 → take (length leaves % 2 ^ 32) leaves ≡ leaves
  take-counted leaves h =
      let count : length leaves % 2 ^ 32 ≡ length leaves = omega arith in rw count (take-all leaves)

  -- Up to 2 ^ 29 hashes.
  pub build-tree_of :
      (leaves : List Hash)
      → 0 < length leaves
      → length leaves ≤ 2 ^ 29
      → (e : ℕ) × (length leaves ≤ 2 ^ e)
        × Needs (length leaves) e
        × (build generichash leaves ≡ ok (tree_of e leaves))
  build-tree_of leaves h bound =
      let (e, enough, needs, built) = build_counted-tree_of leaves h bound in
      (
        e,
        enough,
        needs,
        build-counted leaves (omega arith)
            ∙ ap (build_counted generichash) (take-counted leaves bound)
            ∙ built,
      )
