-- ===== src/HashTree/Levels/Pairs.antt =====
-- The levels of the tree as lists: each level joins the nodes of the one below in pairs, and the last
-- of an odd number with itself.
use flocksy.Prelude.{
  ℕ, zero, suc, ◌+◌, ◌-◌, ◌*◌, ◌/◌, ◌^◌, ◌≤◌, ◌≡◌, refl, ap, ◌∙◌, sym, subst, List, [], ◌∷◌, ◌++◌,
  map, append_assoc, append-nil, ok, leb, ◌==◌, length, length-append, get_elem?-append, arith,
  false, true,
}
use native.Mathlib.Nat.{pow-suc}
use flocksy.Hash.{Hash}
use flocksy.HashTree.Levels.{item, back, join, level_round, level_loop, tree_loop}

item-at : (xs ys : List Hash) (x : Hash) (i : ℕ) → length xs ≡ i → item (xs ++ (x ∷ ys)) i ≡ ok x
item-at xs ys x i e = rw (← e) (rw (get_elem?-append xs ys x, item) refl)

item-next :
    (xs ys : List Hash) (x y : Hash) (i : ℕ)
    → length xs ≡ i
    → item (xs ++ (x ∷ y ∷ ys)) (i + 1) ≡ ok y
item-next xs ys x y i e =
    subst (λ zs. item zs (i + 1) ≡ ok y) (append_assoc xs (x ∷ []) (y ∷ ys))
      (item-at (xs ++ (x ∷ [])) ys y (i + 1) (omega (arith, length-append xs (x ∷ []))))

pub back-append {ℓ} : {A : Type ℓ} (xs : List A) (x : A) → back (xs ++ (x ∷ [])) ≡ ok x
unfolding back
back-append [] x = refl
back-append (y ∷ []) x = refl
back-append (y ∷ z ∷ xs) x = back-append (z ∷ xs) x

unfoldable pub concat : List (List Hash) → List Hash
concat [] = []
concat (xs ∷ xss) = xs ++ concat xss

module _ (generichash : List ℕ → List ℕ) where
  unfoldable pub pair_up : List Hash → List Hash
  pair_up [] = []
  pair_up (x ∷ []) = join generichash x x ∷ []
  pair_up (x ∷ y ∷ xs) = join generichash x y ∷ pair_up xs

  pub length-pair_up : (xs : List Hash) → length (pair_up xs) ≡ (length xs + 1) / 2
  unfolding pair_up
  length-pair_up [] = omega arith
  length-pair_up (x ∷ []) = omega arith
  length-pair_up (x ∷ y ∷ xs) = omega (arith, length-pair_up xs)

  -- The level with so many levels above it, and these.
  unfoldable pub levels : ℕ → List Hash → List (List Hash)
  unfolding pair_up
  levels zero xs = xs ∷ []
  levels (suc d) xs = xs ∷ levels d (pair_up xs)

  -- Rounds behind the end of the last level do nothing.
  level_loop-idle :
      (rounds last node_count j : ℕ) (s : List Hash × ℕ)
      → last ≤ 2 * j
      → level_loop generichash rounds last node_count j s ≡ ok s
  unfolding level_loop
  level_loop-idle zero last node_count j s h = refl
  level_loop-idle (suc rounds) last node_count j (hashes, temp) h =
      let e₁ : leb (2 * j + 2) last ≡ false = ground arith in
      let e₂ : ((2 * j + 2 - last) == 1) ≡ false = ground arith in
      rw e₁ (rw e₂ (level_loop-idle rounds last node_count (j + 1) (hashes, temp) (omega arith)))

  level_round-two :
      (last node_count j : ℕ) (front tail' : List Hash) (x y : Hash) (temp : ℕ)
      → length front ≡ node_count + 2 * j
      → 2 * j + 2 ≤ last
      → level_round generichash last node_count j (front ++ (x ∷ y ∷ tail'), temp)
        ≡ ok (front ++ (x ∷ y ∷ (tail' ++ (join generichash x y ∷ []))), temp + 1)
  unfolding level_round
  level_round-two last node_count j front tail' x y temp p h =
      let e : leb (2 * j + 2) last ≡ true = ground arith in
      rw e (
        rw
          (
            item-at front (y ∷ tail') x (node_count + 2 * j) p,
            item-next front tail' x y (node_count + 2 * j) p,
          )
          (rw (append_assoc front (x ∷ y ∷ tail')) refl))

  level_round-one :
      (last node_count j : ℕ) (front tail' : List Hash) (x : Hash) (temp : ℕ)
      → length front ≡ node_count + 2 * j
      → last ≡ 2 * j + 1
      → level_round generichash last node_count j (front ++ (x ∷ tail'), temp)
        ≡ ok (front ++ (x ∷ (tail' ++ (join generichash x x ∷ []))), temp + 1)
  unfolding level_round
  level_round-one last node_count j front tail' x temp p h =
      let e₁ : leb (2 * j + 2) last ≡ false = ground arith in
      let e₂ : ((2 * j + 2 - last) == 1) ≡ true = ground arith in
      rw e₁ (
        rw e₂ (
          rw (item-at front tail' x (node_count + 2 * j) p)
            (rw (append_assoc front (x ∷ tail')) refl)))

  level_loop-pair_up :
      (rounds last node_count j : ℕ) (front rest out : List Hash) (temp : ℕ)
      → length front ≡ node_count + 2 * j
      → last ≡ 2 * j + length rest
      → length rest ≤ 2 * rounds
      → level_loop generichash rounds last node_count j (front ++ (rest ++ out), temp)
        ≡ ok (front ++ (rest ++ (out ++ pair_up rest)), temp + length (pair_up rest))
  unfolding level_loop pair_up
  level_loop-pair_up zero last node_count j front [] out temp p q r =
      rw (append-nil out) (ap (λ k. ok (front ++ out, k)) (omega arith))
  level_loop-pair_up zero last node_count j front (x ∷ xs) out temp p q r = absurd (omega arith)
  level_loop-pair_up (suc rounds) last node_count j front [] out temp p q r =
      level_loop-idle (suc rounds) last node_count j _ (omega arith)
      ∙ rw (append-nil out) (ap (λ k. ok (front ++ out, k)) (omega arith))
  level_loop-pair_up (suc rounds) last node_count j front (x ∷ []) out temp p q r =
      rw (level_round-one last node_count j front out x temp p q)
        (level_loop-idle rounds last node_count (j + 1) _ (omega arith))
  level_loop-pair_up (suc rounds) last node_count j front (x ∷ y ∷ xs) out temp p q r =
      let next = front ++ (x ∷ y ∷ []) in
      let joined = out ++ (join generichash x y ∷ []) in
      rw (level_round-two last node_count j front (xs ++ out) x y temp p (omega arith)) (
        let ih =
          level_loop-pair_up rounds last node_count (j + 1) next xs joined (temp + 1)
            (omega (arith, length-append front (x ∷ y ∷ []))) (omega arith) (omega arith) in
        let before : next ++ (xs ++ joined)
            ≡ front ++ (x ∷ y ∷ ((xs ++ out) ++ (join generichash x y ∷ []))) =
          simp append_assoc in
        let after : next ++ (xs ++ (joined ++ pair_up xs))
            ≡ front ++ (x ∷ y ∷ (xs ++ (out ++ (join generichash x y ∷ pair_up xs)))) =
          simp append_assoc in
        let count : temp + 1 + length (pair_up xs) ≡ temp + suc (length (pair_up xs)) =
          omega arith in
        ap (λ l. level_loop generichash rounds last node_count (j + 1) (l, temp + 1)) (sym before)
        ∙ ih
        ∙ λ i. ok (after i, count i))

  -- The inner loop appends the level above the last one.
  level_loop-level :
      (d : ℕ) (below level : List Hash)
      → length level ≤ 2 * 2 ^ d
      → level_loop generichash (2 ^ d) (length level) (length below) 0 (below ++ level, 0)
        ≡ ok ((below ++ level) ++ pair_up level, length (pair_up level))
  level_loop-level d below level h =
      ap (λ l. level_loop generichash (2 ^ d) (length level) (length below) 0 (below ++ l, 0))
        (sym (append-nil level))
      ∙ level_loop-pair_up (2 ^ d) (length level) (length below) 0 below level [] 0 (omega arith)
          (omega arith) h
      ∙ λ i. ok (sym (append_assoc below level (pair_up level)) i, count i)
    where
      count : 0 + length (pair_up level) ≡ length (pair_up level)
      count = omega arith

  -- From the last level on, the outer loop appends the levels above it and their lengths.
  pub tree_loop-levels :
      (d : ℕ) (below level : List Hash) (counts : List ℕ)
      → length level ≤ 2 ^ d
      → tree_loop generichash d (below ++ level) (counts ++ (length level ∷ [])) (length below)
        ≡ ok (below ++ concat (levels d level), counts ++ map length (levels d level))
  unfolding tree_loop levels concat
  tree_loop-levels zero below level counts h = rw (append-nil level) refl
  tree_loop-levels (suc d) below level counts h =
      let above = pair_up level in
      let half : length above ≤ 2 ^ d = omega (arith, length-pair_up level, pow-suc 2 d) in
      let start : length below + length level ≡ length (below ++ level) =
        omega (arith, length-append below level) in
      rw (back-append counts (length level)) (
        rw (level_loop-level d below level (omega (arith, pow-suc 2 d))) (
          rw start (
            tree_loop-levels d (below ++ level) above (counts ++ (length level ∷ [])) half ∙ λ i.
            ok (
              append_assoc below level (concat (levels d above)) i,
              append_assoc counts (length level ∷ []) (map length (levels d above)) i,
            ))))
