-- ===== src/Hash/Order.antt =====
-- memcmp orders the strings of one length.
use flocksy.Prelude.{ℕ, ◌≡◌, refl, inl, inr, true, false, List, [], ◌∷◌, arith, length, Bool-cases}
use flocksy.Hash.{memcmp_less}

pub memcmp_less-irreflexive : (xs : List ℕ) → memcmp_less xs xs ≡ false
unfolding memcmp_less
memcmp_less-irreflexive [] = refl
memcmp_less-irreflexive (x ∷ xs) = ground (arith, memcmp_less-irreflexive xs)

pub memcmp_less_trans :
    (xs ys zs : List ℕ)
    → memcmp_less xs ys ≡ true
    → memcmp_less ys zs ≡ true
    → memcmp_less xs zs ≡ true
unfolding memcmp_less
memcmp_less_trans [] ys zs h k = cc
memcmp_less_trans (x ∷ xs) [] zs h k = cc
memcmp_less_trans (x ∷ xs) (y ∷ ys) [] h k = cc
memcmp_less_trans (x ∷ xs) (y ∷ ys) (z ∷ zs) h k = ground (arith, memcmp_less_trans xs ys zs)

-- Of two strings of one length neither of which is less, both are the same.
pub memcmp_less-total :
    (xs ys : List ℕ)
    → length xs ≡ length ys
    → memcmp_less xs ys ≡ false
    → memcmp_less ys xs ≡ false
    → xs ≡ ys
unfolding memcmp_less
memcmp_less-total [] [] e h k = refl
memcmp_less-total [] (y ∷ ys) e h k = absurd (omega arith)
memcmp_less-total (x ∷ xs) [] e h k = absurd (omega arith)
memcmp_less-total (x ∷ xs) (y ∷ ys) e h k = ground (arith, memcmp_less-total xs ys)

pub memcmp_less-asym : (xs ys : List ℕ) → memcmp_less xs ys ≡ true → memcmp_less ys xs ≡ false
memcmp_less-asym xs ys h = elim (Bool-cases (memcmp_less ys xs)) [
  | inl e ↦
      let twice = memcmp_less_trans xs ys xs h e in let never = memcmp_less-irreflexive xs in cc
  | inr e ↦ e
]

-- "Not less" is transitive on strings of one length.
pub memcmp_less-above :
    (xs ys zs : List ℕ)
    → length xs ≡ length ys
    → length ys ≡ length zs
    → memcmp_less ys xs ≡ false
    → memcmp_less zs ys ≡ false
    → memcmp_less zs xs ≡ false
unfolding memcmp_less
memcmp_less-above [] ys [] e f h k = refl
memcmp_less-above [] ys (z ∷ zs) e f h k = refl
memcmp_less-above (x ∷ xs) ys [] e f h k = refl
memcmp_less-above (x ∷ xs) [] (z ∷ zs) e f h k = absurd (omega arith)
memcmp_less-above (x ∷ xs) (y ∷ ys) (z ∷ zs) e f h k =
    let e' : length xs ≡ length ys = omega arith in
    let f' : length ys ≡ length zs = omega arith in ground (arith, memcmp_less-above xs ys zs e' f')
