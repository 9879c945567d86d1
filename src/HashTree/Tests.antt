-- ===== src/HashTree/Tests.antt =====
-- The theorems about the tree at hashes of a few bytes.
use flocksy.Prelude.{
  ℕ, zero, suc, ◌+◌, ◌%◌, ◌^◌, ◌<◌, ◌≤◌, ◌↔◌, ◌≡◌, refl, ap, List, [], ◌∷◌, false, ok, fault,
  undefined, length, replicate, arith,
}
use mathlib.Core.List.Perm
use flocksy.Hash.{Hash, from_bytes}
use flocksy.HashTree.Sort.Order.{IsSetHash}
use flocksy.HashTree.Build.{Pointer, HashTree, build, make_hash_tree, check_hash_tree_change}
use flocksy.HashTree.Build.Tree.{AreDistinct}
use flocksy.HashTree.Build.Overflow.{build-overflow_iff}
use flocksy.HashTree.Build.Root.{IsTree, make_hash_tree-levels, make_hash_tree-Perm}
use flocksy.HashTree.Build.Doubled.{check_hash_tree_change-doubled}
use flocksy.HashTree.Changes.Leaves.{Compared, get_changed_hashes-Changes}

-- The length, 64 times.
abbrev toy_hash : List ℕ → List ℕ
toy_hash text = replicate 64 (length text % 256)

abbrev full : ℕ → Hash
full n = from_bytes (replicate 64 n)

abbrev pointer : ℕ → ℕ → Pointer
pointer a n = record { address = a; hash = full n }

full-IsSet : (n : ℕ) → IsSetHash (full n)
unfolding IsSetHash
full-IsSet n = (refl, refl)

abbrev three : List Pointer
three = pointer 1 30 ∷ pointer 2 10 ∷ pointer 3 20 ∷ []

abbrev turned : List Pointer
turned = pointer 7 10 ∷ pointer 8 30 ∷ pointer 9 20 ∷ []

three-AreDistinct : AreDistinct three
three-AreDistinct = ((omega arith, (omega arith, tt)), ((omega arith, tt), (tt, tt)))

turned-AreDistinct : AreDistinct turned
turned-AreDistinct = ((omega arith, (omega arith, tt)), ((omega arith, tt), (tt, tt)))

make_hash_tree-levels_example :
    IsTree toy_hash (full 30 ∷ full 10 ∷ full 20 ∷ []) (make_hash_tree toy_hash three)
make_hash_tree-levels_example =
    make_hash_tree-levels toy_hash three three-AreDistinct
      (full-IsSet 30, (full-IsSet 10, (full-IsSet 20, tt))) (omega arith) (omega arith)

make_hash_tree-Perm_example : make_hash_tree toy_hash three ≡ make_hash_tree toy_hash turned
make_hash_tree-Perm_example =
    make_hash_tree-Perm toy_hash three turned three-AreDistinct turned-AreDistinct
      (full-IsSet 30, (full-IsSet 10, (full-IsSet 20, tt)))
      (full-IsSet 10, (full-IsSet 30, (full-IsSet 20, tt)))
      (Perm.swap (full 10) (full 30) (full 20 ∷ []))

unfoldable copies : ℕ → List Hash
copies zero = []
copies (suc n) = full 1 ∷ copies n

length-copies : (n : ℕ) → length (copies n) ≡ n
unfolding copies
length-copies zero = refl
length-copies (suc n) = ap suc (length-copies n)

-- One hash too many.
build-overflow_iff_example : (build toy_hash (copies (2 ^ 29 + 1)) ≡ fault undefined) ↔ (
    (2 ^ 29 < length (copies (2 ^ 29 + 1)) % 2 ^ 32)
    × (length (copies (2 ^ 29 + 1)) % 2 ^ 32 ≤ 2 ^ 31))
build-overflow_iff_example = build-overflow_iff toy_hash (copies (2 ^ 29 + 1))

too_many : build toy_hash (copies (2 ^ 29 + 1)) ≡ fault undefined
too_many =
    let n = length-copies (2 ^ 29 + 1) in
    (build-overflow_iff toy_hash (copies (2 ^ 29 + 1))).1 (omega arith, omega arith)

check_hash_tree_change-doubled_example :
    (t : HashTree) × (u : HashTree) × (build toy_hash (full 1 ∷ full 2 ∷ full 3 ∷ []) ≡ ok t)
    × (build toy_hash (full 1 ∷ full 2 ∷ full 3 ∷ full 3 ∷ []) ≡ ok u)
    × (check_hash_tree_change t u ≡ ok false)
check_hash_tree_change-doubled_example =
    check_hash_tree_change-doubled toy_hash 0 (full 1 ∷ full 2 ∷ []) (full 3) refl (omega arith)

get_changed_hashes-Changes_example :
    Compared toy_hash (full 1 ∷ full 2 ∷ []) (full 2 ∷ full 3 ∷ full 3 ∷ [])
get_changed_hashes-Changes_example =
    get_changed_hashes-Changes toy_hash (full 1 ∷ full 2 ∷ []) (full 2 ∷ full 3 ∷ full 3 ∷ [])
      (omega arith) (omega arith) (omega arith) (omega arith) (full-IsSet 1, (full-IsSet 2, tt))
      (full-IsSet 2, (full-IsSet 3, (full-IsSet 3, tt)))
