-- ===== src/HashTree/Build.antt =====
-- HashTree::makeHashTree as a whole, and the members that read the tree.
pub mod Tree
pub mod Overflow
pub mod Root
pub mod Doubled
use flocksy.Prelude.{
  ℕ, ◌+◌, ◌%◌, ◌^◌, ◌==◌, ltb, take, List, [], ◌∷◌, map, length, Bool, true, false, not, none, some,
  Result, ok, fault, undefined, ◌>>=◌, if◌then◌else◌,
}
use flocksy.Bytes.{bytes_eq}
use flocksy.Hash.{Hash, less, get_string}
use flocksy.HashTree.Size.{Size, one_leaf, grow, int_value}
use flocksy.HashTree.Sort.{sort}
use flocksy.HashTree.Levels.{back, tree_loop}

-- A shared_ptr to a hash.
pub record Pointer : Type 0 where
  pub address : ℕ
  pub hash : Hash

pub record HashTree : Type 0 where
  pub hashes : List Hash
  pub elements_per_level : List ℕ

abbrev pub no_tree : HashTree
no_tree = record { hashes = []; elements_per_level = [] }

-- hashSharedPointerLessThanFunctor.
abbrev pub pointer_less : Pointer → Pointer → Result Bool
pointer_less p q = less p.hash q.hash

-- std::unique, which compares the pointers and not the hashes.
unfoldable pub unique_from : Pointer → List Pointer → List Pointer
unique_from p [] = p ∷ []
unique_from p (q ∷ qs) =
    let same = unique_from p qs in
    let other = unique_from q qs in if p.address == q.address then same else p ∷ other

unfoldable pub unique : List Pointer → List Pointer
unfolding unique_from
unique [] = []
unique (p ∷ ps) = unique_from p ps

module _ (generichash : List ℕ → List ℕ) where
  -- The levels, in a vector with room for tree_size + 1 hashes.
  unfoldable pub fill : List Hash → Size → Result HashTree
  fill leaves s = do
    _ ← int_value (s.tree_size + 1)
    (hashes, elements) ← tree_loop generichash s.tree_depth leaves (length leaves ∷ []) 0
    ok (record { hashes = hashes; elements_per_level = elements })

  -- The rest, when hash_count is the number of hashes. The loop for the size never takes 31 rounds.
  unfoldable pub build_counted : List Hash → Result HashTree
  build_counted leaves = grow 31 (length leaves) one_leaf >>= λ size. elim size [
    | none ↦ fault undefined
    | some s ↦ if length leaves == 0 then ok no_tree else fill leaves s
  ]

  -- What follows the sort. `int hash_count` keeps 32 bits of the number of hashes, of which so many are
  -- copied: below zero neither loop is entered, and the least int less 1 overflows.
  unfoldable pub build : List Hash → Result HashTree
  unfolding build_counted
  build leaves =
      let hash_count = length leaves % 2 ^ 32 in
      let counted = build_counted (take hash_count leaves) in
      if ltb hash_count (2 ^ 31)
      then counted
      else if hash_count == 2 ^ 31
      then fault undefined
      else ok no_tree

  unfoldable pub make_hash_tree : List Pointer → Result HashTree
  make_hash_tree temp_hashes = do
    sorted ← sort pointer_less temp_hashes
    build (map (λ (p : Pointer). p.hash) (unique sorted))

-- getTopHash: a new hash, which is empty, stands for no tree.
unfoldable pub get_top_hash : HashTree → Hash
unfolding back
get_top_hash t = elim (back t.hashes) [ ok h ↦ h | fault _ ↦ record { bytes = []; empty = true } ]

-- checkHashTreeChange.
unfoldable pub check_hash_tree_change : HashTree → HashTree → Result Bool
unfolding back get_top_hash get_string bytes_eq
check_hash_tree_change t lhs = do
  top ← back t.hashes
  ok (not (bytes_eq (get_string (get_top_hash lhs)) (get_string top)))
