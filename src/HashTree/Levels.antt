-- ===== src/HashTree/Levels.antt =====
-- The loops of HashTree::makeHashTree that fill the levels, from the leaves to the top.
pub mod Pairs
use flocksy.Prelude.{
  ℕ, zero, suc, ◌+◌, ◌-◌, ◌*◌, ◌^◌, List, [], ◌∷◌, ◌++◌, Option, none, some, Result, ok, fault,
  ◌>>=◌, undefined, if◌then◌else◌, leb, ◌==◌, get_elem?, length,
}
use flocksy.Hash.{Hash, make_hash, get_string}

-- `hashes[i]`, and `back()`, without a check.
abbrev pub item {ℓ} : {A : Type ℓ} → List A → ℕ → Result A
item xs i = elim (get_elem? xs i) [ none ↦ fault undefined | some x ↦ ok x ]

unfoldable pub back {ℓ} : {A : Type ℓ} → List A → Result A
back [] = fault undefined
back (x ∷ []) = ok x
back (x ∷ y ∷ ys) = back (y ∷ ys)

module _ (generichash : List ℕ → List ℕ) where
  -- The hash of two nodes.
  abbrev pub join : Hash → Hash → Hash
  join a b = make_hash generichash (get_string a ++ get_string b)

  join_two : ℕ → List Hash × ℕ → Result (List Hash × ℕ)
  join_two curr_item (hashes, temp_node_count) = do
    a ← item hashes curr_item
    b ← item hashes (curr_item + 1)
    ok (hashes ++ (join a b ∷ []), temp_node_count + 1)

  -- "if we have an odd number of lower nodes, simply double the left hash"
  join_one : ℕ → List Hash × ℕ → Result (List Hash × ℕ)
  join_one curr_item (hashes, temp_node_count) = do
    a ← item hashes curr_item
    ok (hashes ++ (join a a ∷ []), temp_node_count + 1)

  -- One round of the inner loop. `last` is elements_per_level_.back(); `node_count` nodes stand below
  -- the last level.
  unfoldable pub level_round : ℕ → ℕ → ℕ → List Hash × ℕ → Result (List Hash × ℕ)
  unfolding join_two join_one
  level_round last node_count j s =
      let offset = 2 * j in
      if leb (offset + 2) last
      then join_two (node_count + offset) s
      else if (offset + 2 - last) == 1
      then join_one (node_count + offset) s
      else ok s

  -- The inner loop, with the rounds that are left, from j on.
  unfoldable pub level_loop : ℕ → ℕ → ℕ → ℕ → List Hash × ℕ → Result (List Hash × ℕ)
  unfolding level_round
  level_loop zero last node_count j s = ok s
  level_loop (suc rounds) last node_count j s =
      level_round last node_count j s >>= λ s'. level_loop rounds last node_count (j + 1) s'

  -- The outer loop over the levels above the leaves, from level i - 1 down to 0.
  unfoldable pub tree_loop : ℕ → List Hash → List ℕ → ℕ → Result (List Hash × List ℕ)
  unfolding level_loop back
  tree_loop zero hashes elements_per_level node_count = ok (hashes, elements_per_level)
  tree_loop (suc i) hashes elements_per_level node_count = do
    last ← back elements_per_level
    (hashes', temp_node_count) ← level_loop (2 ^ i) last node_count 0 (hashes, 0)
    tree_loop i hashes' (elements_per_level ++ (temp_node_count ∷ [])) (node_count + last)
