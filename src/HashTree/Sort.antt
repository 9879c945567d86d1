-- ===== src/HashTree/Sort.antt =====
-- std::sort as src/hash_tree.cpp calls it, with a comparison that may throw. Every element of two or more
-- takes part in a comparison, as in any sort; among elements of which neither is less, the order is kept.
pub mod Order
pub mod Same
use flocksy.Prelude.{List, [], ◌∷◌, Bool, Result, ok, ◌>>=◌, if◌then◌else◌}

module _ {ℓ} {A : Type ℓ} (before : A → A → Result Bool) where
  unfoldable pub insert_before : A → List A → Result (List A)
  insert_before x [] = ok (x ∷ [])
  insert_before x (y ∷ ys) =
      let further = insert_before x ys >>= λ zs. ok (y ∷ zs) in
      before y x >>= λ less. if less then further else ok (x ∷ y ∷ ys)

  unfoldable pub sort : List A → Result (List A)
  unfolding insert_before
  sort [] = ok []
  sort (x ∷ xs) = sort xs >>= λ ys. insert_before x ys
