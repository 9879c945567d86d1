-- ===== src/HashTree/Size.antt =====
-- The while loop of HashTree::makeHashTree that finds the depth of the tree, in int.
pub mod Bounds
use flocksy.Prelude.{
  ℕ, zero, suc, ◌+◌, ◌-◌, ◌*◌, ◌/◌, ◌^◌, ◌≤◌, ◌<◌, ◌≡◌, refl, Option, none, some, Result, ok, fault,
  ◌>>=◌, undefined, if◌then◌else◌, ltb, arith, Bool, true, false, Bool-cases, inl, inr,
}
use native.Mathlib.Nat.{pow-suc}

-- The value of an int expression, whose overflow is undefined.
abbrev pub int_value : ℕ → Result ℕ
int_value n = if ltb n (2 ^ 31) then ok n else fault undefined

pub record Size : Type 0 where
  pub tree_depth : ℕ
  pub tree_leaf_count : ℕ
  pub tree_size : ℕ

abbrev pub one_leaf : Size
one_leaf = record { tree_depth = 0; tree_leaf_count = 1; tree_size = 1 }

-- The body of the loop.
unfoldable pub double_leaves : Size → Result Size
double_leaves s = do
  leaves ← int_value (s.tree_leaf_count * 2)
  size ← int_value (s.tree_size + leaves)
  ok (record { tree_depth = s.tree_depth + 1; tree_leaf_count = leaves; tree_size = size })

-- The loop for at most so many rounds; `none` if it would go on. For no hash at all, -1 / 1 is -1 and
-- the test fails as it does here.
unfoldable pub grow : ℕ → ℕ → Size → Result (Option Size)
unfolding double_leaves
grow zero hash_count s =
    if ltb 1 (1 + (hash_count - 1) / s.tree_leaf_count) then ok none else ok (some s)
grow (suc rounds) hash_count s =
    let more = double_leaves s >>= λ s'. grow rounds hash_count s' in
    if ltb 1 (1 + (hash_count - 1) / s.tree_leaf_count) then more else ok (some s)
