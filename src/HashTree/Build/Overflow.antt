-- ===== src/HashTree/Build/Overflow.antt =====
-- For how many hashes the int arithmetic of HashTree::makeHashTree overflows.
use flocksy.Prelude.{
  ℕ, ◌%◌, ◌^◌, ◌==◌, ◌≤◌, ◌<◌, ◌≡◌, ◌≢◌, ◌↔◌, refl, sym, ◌∙◌, List, [], ◌∷◌, length, take, false,
  Result, ok, fault, undefined, arith, ltb, le_or_lt, inl, inr,
}
use flocksy.Hash.{Hash}
use flocksy.HashTree.Size.{grow}
use flocksy.HashTree.Build.{HashTree, no_tree, build_counted, build}
use flocksy.HashTree.Build.Tree.{
  build_counted-tree_of, build_counted-overflow, build-counted, length-counted,
}

ok-fault : {t : HashTree} {r : Result HashTree} → r ≡ ok t → r ≢ fault undefined
ok-fault e f = cc

module _ (generichash : List ℕ → List ℕ) where
  build_counted-none :
      (leaves : List Hash) → length leaves ≡ 0 → build_counted generichash leaves ≡ ok no_tree
  unfolding build_counted grow
  build_counted-none [] e = refl
  build_counted-none (x ∷ leaves) e = absurd (omega arith)

  -- A tree comes of 2 ^ 29 hashes at most.
  build_counted-ok :
      (leaves : List Hash)
      → length leaves ≤ 2 ^ 29
      → build_counted generichash leaves ≢ fault undefined
  build_counted-ok leaves bound = elim (le_or_lt (length leaves) 0) [
    | inl none' ↦ ok-fault (build_counted-none leaves (omega arith))
    | inr some' ↦
        let (e, _, _, built) = build_counted-tree_of generichash leaves some' bound in
        ok-fault built
  ]

  build-negative :
      (leaves : List Hash) → 2 ^ 31 < length leaves % 2 ^ 32 → build generichash leaves ≡ ok no_tree
  unfolding build
  build-negative leaves h =
      let test : ltb (length leaves % 2 ^ 32) (2 ^ 31) ≡ false = ground arith in
      let least : (length leaves % 2 ^ 32 == 2 ^ 31) ≡ false = ground arith in
      rw test (rw least refl)

  build-least :
      (leaves : List Hash)
      → length leaves % 2 ^ 32 ≡ 2 ^ 31
      → build generichash leaves ≡ fault undefined
  unfolding build
  build-least leaves h = rw h refl

  build-large :
      (leaves : List Hash)
      → 2 ^ 29 < length leaves % 2 ^ 32
      → length leaves % 2 ^ 32 ≤ 2 ^ 31
      → build generichash leaves ≡ fault undefined
  build-large leaves more bound = elim (le_or_lt (2 ^ 31) (length leaves % 2 ^ 32)) [
    | inl least ↦ build-least leaves (omega arith)
    | inr small ↦
        build-counted generichash leaves small
        ∙ build_counted-overflow generichash (take (length leaves % 2 ^ 32) leaves)
            (omega (arith, length-counted generichash leaves))
  ]

  -- Building the tree of sorted hashes overflows an int, which is undefined, exactly when the number of hashes, cut to 32
  -- bits, is more than 2 ^ 29 and at most 2 ^ 31. With fewer, and with more (when the int is negative), it ends.
  pub build-overflow_iff :
      (leaves : List Hash)
      → (build generichash leaves ≡ fault undefined)
        ↔ ((2 ^ 29 < length leaves % 2 ^ 32) × (length leaves % 2 ^ 32 ≤ 2 ^ 31))
  build-overflow_iff leaves = (
    λ overflow. elim (le_or_lt (length leaves % 2 ^ 32) (2 ^ 29)) [
      | inl small ↦ absurd (
          build_counted-ok (take (length leaves % 2 ^ 32) leaves)
            (omega (arith, length-counted generichash leaves))
            (sym (build-counted generichash leaves (omega arith)) ∙ overflow))
      | inr more ↦ elim (le_or_lt (length leaves % 2 ^ 32) (2 ^ 31)) [
        | inl bound ↦ (more, bound)
        | inr negative ↦ absurd (ok-fault (build-negative leaves negative) overflow)
      ]
    ],
    λ h. build-large leaves h.0 h.1,
  )
