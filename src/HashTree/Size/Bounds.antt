-- ===== src/HashTree/Size/Bounds.antt =====
-- How deep the tree is, and up to how many hashes its size is an int.
use flocksy.Prelude.{
  ℕ, zero, suc, ◌+◌, ◌-◌, ◌*◌, ◌/◌, ◌^◌, ◌≤◌, ◌<◌, ◌≡◌, refl, ◌∙◌, some, ok, fault, undefined, ltb,
  arith, true, false, inl, inr, sym, ap, Result, Option, ◌>>=◌, lt→ltb, subst, le_or_lt,
}
use native.Mathlib.Nat.{pow-suc, one-le-pow, div-eq_of_lt, pow-le-pow_right, le-div_iff_mul-le}
use flocksy.HashTree.Size.{Size, one_leaf, double_leaves, grow}

-- The locals of the loop at a depth.
abbrev pub size_at : ℕ → Size
size_at d = record { tree_depth = d; tree_leaf_count = 2 ^ d; tree_size = 2 * 2 ^ d - 1 }

-- So many hashes do not fit one level less.
abbrev pub Needs : ℕ → ℕ → Type 0
Needs n zero = Unit {0}
Needs n (suc d) = 2 ^ d < n

-- The test of the loop asks for more than 2 ^ d hashes.
test-less : (n d : ℕ) → 2 ^ d < n → ltb 1 (1 + (n - 1) / 2 ^ d) ≡ true
test-less n d h =
    let positive : 0 < 2 ^ d = one-le-pow d 2 (omega arith) in
    let more : 1 ≤ (n - 1) / 2 ^ d = (le-div_iff_mul-le positive).1 (omega arith) in ground arith

test-enough : (n d : ℕ) → n ≤ 2 ^ d → ltb 1 (1 + (n - 1) / 2 ^ d) ≡ false
test-enough n d h =
    let positive : 0 < 2 ^ d = one-le-pow d 2 (omega arith) in
    let below : n - 1 < 2 ^ d = omega arith in rw (div-eq_of_lt below) refl

pub power_le : (d k : ℕ) → d ≤ k → 2 ^ d ≤ 2 ^ k
power_le d k h = pow-le-pow_right (omega arith) h

-- Doubling stays in int up to the depth 30.
double_leaves-at : (d : ℕ) → d < 30 → double_leaves (size_at d) ≡ ok (size_at (suc d))
unfolding double_leaves
double_leaves-at d h =
    let next : 2 ^ d * 2 ≡ 2 ^ suc d = sym (pow-suc 2 d) in
    let positive : 0 < 2 ^ d = one-le-pow d 2 (omega arith) in
    let bound : 2 ^ suc d ≤ 2 ^ 30 = power_le (suc d) 30 (omega arith) in
    let total : 2 * 2 ^ d - 1 + 2 ^ suc d ≡ 2 * 2 ^ suc d - 1 = omega arith in
    let depth : d + 1 ≡ suc d = omega arith in
    let leaves : ltb (2 ^ suc d) (2 ^ 31) ≡ true = lt→ltb (2 ^ suc d) (2 ^ 31) (omega arith) in
    let size : ltb (2 * 2 ^ suc d - 1) (2 ^ 31) ≡ true =
      lt→ltb (2 * 2 ^ suc d - 1) (2 ^ 31) (omega arith) in
    rw next (rw leaves (rw total (rw size (rw depth refl))))

double_leaves-overflow : double_leaves (size_at 30) ≡ fault undefined
unfolding double_leaves
double_leaves-overflow = refl

-- One round of the loop where the test holds, and the end where it does not.
grow-more :
    (rounds d n : ℕ)
    → 2 ^ d < n
    → grow (suc rounds) n (size_at d) ≡ (double_leaves (size_at d) >>= λ s. grow rounds n s)
unfolding grow
grow-more rounds d n h = rw (test-less n d h) refl

grow-done : (rounds d n : ℕ) → n ≤ 2 ^ d → grow rounds n (size_at d) ≡ ok (some (size_at d))
unfolding grow
grow-done zero d n h = rw (test-enough n d h) refl
grow-done (suc rounds) d n h = rw (test-enough n d h) refl

abbrev pub Ends : ℕ → Result (Option Size) → Type 0
Ends n result = (e : ℕ) × (e ≤ 30) × (n ≤ 2 ^ e) × Needs n e × (result ≡ ok (some (size_at e)))

-- A power of two that is less has the smaller exponent.
pub power_less : (d k : ℕ) → 2 ^ d < 2 ^ k → d < k
power_less d k h = elim (le_or_lt k d) [
  | inl above ↦ let wrong = power_le k d above in absurd (omega arith)
  | inr below ↦ below
]

-- The loop from the depth d on.
grow-from :
    (rounds d n : ℕ)
    → 30 ≤ d + rounds
    → d ≤ 30
    → n ≤ 2 ^ 30
    → Needs n d
    → Ends n (grow rounds n (size_at d))
grow-from zero d n p q h needs =
    let here : 30 ≡ d = omega arith in
    let h' : n ≤ 2 ^ d = subst (λ k. n ≤ 2 ^ k) here h in (d, q, h', needs, grow-done zero d n h')
grow-from (suc rounds) d n p q h needs = elim (le_or_lt n (2 ^ d)) [
  | inl h' ↦ (d, q, h', needs, grow-done (suc rounds) d n h')
  | inr more ↦
      let below : d < 30 = power_less d 30 (omega arith) in
      let next : grow (suc rounds) n (size_at d) ≡ grow rounds n (size_at (suc d)) =
        grow-more rounds d n more
        ∙ ap (λ (r : Result Size). r >>= λ s. grow rounds n s) (double_leaves-at d below) in
      rw next (grow-from rounds (suc d) n (omega arith) below h more)
]

-- Above 2 ^ 30 hashes.
grow-overflow-from :
    (rounds d n : ℕ)
    → d + rounds ≡ 30
    → 2 ^ 30 < n
    → grow (suc rounds) n (size_at d) ≡ fault undefined
grow-overflow-from zero d n p h =
    let here : 30 ≡ d = omega arith in
    let more : 2 ^ d < n = subst (λ k. 2 ^ k < n) here h in
    grow-more zero d n more
    ∙ ap (λ (r : Result Size). r >>= λ s. grow zero n s)
        (subst (λ k. double_leaves (size_at k) ≡ fault undefined) here double_leaves-overflow)
grow-overflow-from (suc rounds) d n p h =
    let below : 2 ^ d ≤ 2 ^ 30 = power_le d 30 (omega arith) in
    grow-more (suc rounds) d n (omega arith)
    ∙ ap (λ (r : Result Size). r >>= λ s. grow (suc rounds) n s) (double_leaves-at d (omega arith))
    ∙ grow-overflow-from rounds (suc d) n (omega arith) h

pub grow-Ends : (n : ℕ) → n ≤ 2 ^ 30 → Ends n (grow 31 n one_leaf)
grow-Ends n h = grow-from 31 0 n (omega arith) (omega arith) h tt

pub grow-overflow : (n : ℕ) → 2 ^ 30 < n → grow 31 n one_leaf ≡ fault undefined
grow-overflow n h = grow-overflow-from 30 0 n refl h

pub Needs-less : (n d : ℕ) → Needs n d → n ≤ 2 ^ 29 → d < 30
Needs-less n zero h k = omega arith
Needs-less n (suc d) h k = let below = power_less d 29 (omega arith) in omega arith
