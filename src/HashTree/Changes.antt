-- ===== src/HashTree/Changes.antt =====
-- HashTree::getChangedHashes: the leaves of one of two trees only.
pub mod Once
pub mod Difference
pub mod Leaves
use flocksy.Prelude.{
  ℕ, List, [], ◌∷◌, take, length, leb, Bool, Option, none, some, Result, ok, fault, undefined,
  ◌>>=◌, if◌then◌else◌,
}
use flocksy.Hash.{Hash, less, equal}
use flocksy.HashTree.Sort.{sort}
use flocksy.HashTree.Build.{HashTree, check_hash_tree_change}

-- `front()`.
unfoldable pub front {ℓ} : {A : Type ℓ} → List A → Result A
front [] = fault undefined
front (x ∷ xs) = ok x

-- std::copy_n into a vector of that size.
unfoldable pub copy_n {ℓ} : {A : Type ℓ} → ℕ → List A → Result (List A)
copy_n n xs = if leb n (length xs) then ok (take n xs) else fault undefined

-- std::unique_copy with hashSharedPointerEqualsFunctor.
unfoldable pub unique_copy_from : Hash → List Hash → Result (List Hash)
unique_copy_from h [] = ok (h ∷ [])
unique_copy_from h (k ∷ ks) =
    let same = unique_copy_from h ks in
    let other = unique_copy_from k ks >>= λ rest. ok (h ∷ rest) in
    equal h k >>= λ result. if result then same else other

unfoldable pub unique_copy : List Hash → Result (List Hash)
unique_copy [] = ok []
unique_copy (h ∷ hs) = unique_copy_from h hs

-- std::set_symmetric_difference: from the range that starts with x, and any other.
unfoldable pub difference_from :
    Hash → List Hash → (List Hash → Result (List Hash)) → List Hash → Result (List Hash)
difference_from x xs next [] = ok (x ∷ xs)
difference_from x xs next (y ∷ ys) =
    let first = next (y ∷ ys) >>= λ rest. ok (x ∷ rest) in
    let second = difference_from x xs next ys >>= λ rest. ok (y ∷ rest) in
    let both = next ys in
    less x y >>= λ below.
    if below then first else less y x >>= λ above. if above then second else both

unfoldable pub set_symmetric_difference : List Hash → List Hash → Result (List Hash)
set_symmetric_difference [] ys = ok ys
set_symmetric_difference (x ∷ xs) ys =
    difference_from x xs (λ zs. set_symmetric_difference xs zs) ys

-- The branch for trees that differ.
unfoldable pub changes : HashTree → HashTree → Result (List Hash)
changes t lhs = do
  left_size ← front lhs.elements_per_level
  right_size ← front t.elements_per_level
  left_hashes ← copy_n left_size lhs.hashes
  right_hashes ← copy_n right_size t.hashes
  left_sorted ← sort less left_hashes
  right_sorted ← sort less right_hashes
  left_hashes_unique ← unique_copy left_sorted
  right_hashes_unique ← unique_copy right_sorted
  set_symmetric_difference left_hashes_unique right_hashes_unique

-- `none` for the value false, which leaves changed_hashes alone.
unfoldable pub get_changed_hashes : HashTree → HashTree → Result (Option (List Hash))
get_changed_hashes t lhs = do
  changed ← check_hash_tree_change t lhs
  let found = changes t lhs >>= λ hashes. ok (some hashes)
  if changed then found else ok none
