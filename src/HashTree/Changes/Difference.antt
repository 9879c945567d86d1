-- ===== src/HashTree/Changes/Difference.antt =====
-- The symmetric difference of two sorted ranges.
use flocksy.Prelude.{
  ℕ, ◌≡◌, refl, sym, ◌∙◌, List, [], ◌∷◌, Bool, true, false, ◌||◌, Result, ok, Bool-cases, inl, inr,
  All, arith, subst,
}
use flocksy.Bytes.{bytes_eq, bytes_eq_iff}
use flocksy.Hash.{Hash, memcmp_less}
use flocksy.Hash.Order.{memcmp_less_trans, memcmp_less-total}
use flocksy.HashTree.Sort.Order.{IsSetHash, less-set}
use flocksy.HashTree.Changes.{difference_from, set_symmetric_difference}
use flocksy.HashTree.Changes.Once.{contains, xor, IsStrict, contains-below}

-- What the ranges hold, and what is left in order.
abbrev pub Differs : List Hash → List Hash → Result (List Hash) → Type 0
Differs xs ys result =
    (zs : List Hash) × (result ≡ ok zs)
    × ((bytes : List ℕ) → contains bytes zs ≡ xor (contains bytes xs) (contains bytes ys))

-- All of a list is above what is below its head.
IsStrict-below :
    (x y : Hash) (ys : List Hash)
    → memcmp_less x.bytes y.bytes ≡ true
    → IsStrict (y ∷ ys)
    → All (λ z. memcmp_less x.bytes z.bytes ≡ true) (y ∷ ys)
IsStrict-below x y ys e (below, s) = (e, rest ys below)
  where
    rest :
        (zs : List Hash)
        → All (λ z. memcmp_less y.bytes z.bytes ≡ true) zs
        → All (λ z. memcmp_less x.bytes z.bytes ≡ true) zs
    rest [] h = tt
    rest (z ∷ zs) (f, h) = (memcmp_less_trans x.bytes y.bytes z.bytes e f, rest zs h)

-- A hash is not among those that are above it.
head-alone :
    (bytes : List ℕ) (x : Hash) (zs : List Hash)
    → All (λ z. memcmp_less x.bytes z.bytes ≡ true) zs
    → bytes_eq bytes x.bytes ≡ true
    → contains bytes zs ≡ false
head-alone bytes x zs h e =
    subst (λ b. contains b zs ≡ false) (sym ((bytes_eq_iff bytes x.bytes).0 e))
      (contains-below x.bytes zs h)

xor-first : (a b c r : Bool) → (a ≡ true → c ≡ false) → r ≡ xor b c → (a || r) ≡ xor (a || b) c
xor-first true b c r h e = let alone = h refl in rw alone refl
xor-first false b c r h e = e

xor-second : (a b c r : Bool) → (a ≡ true → b ≡ false) → r ≡ xor b c → (a || r) ≡ xor b (a || c)
xor-second true b c r h e = let alone = h refl in rw alone refl
xor-second false b c r h e = e

xor-both :
    (a b c r : Bool)
    → (a ≡ true → b ≡ false)
    → (a ≡ true → c ≡ false)
    → r ≡ xor b c
    → r ≡ xor (a || b) (a || c)
xor-both true b c r h k e = let alone = h refl in let alone' = k refl in e ∙ rw (alone, alone') refl
xor-both false b c r h k e = e

difference_from-Differs :
    (x : Hash) (xs ys : List Hash) (next : List Hash → Result (List Hash))
    → IsSetHash x
    → All IsSetHash ys
    → IsStrict (x ∷ xs)
    → IsStrict ys
    → ((zs : List Hash) → All IsSetHash zs → IsStrict zs → Differs xs zs (next zs))
    → Differs (x ∷ xs) ys (difference_from x xs next ys)
unfolding difference_from contains IsSetHash
difference_from-Differs x xs [] next p hs sx sy ih = (x ∷ xs, refl, λ bytes. ground arith)
difference_from-Differs x xs (y ∷ ys) next p (q, hs) sx sy ih =
    elim (Bool-cases (memcmp_less x.bytes y.bytes)) [
      | inl e ↦
          let (zs, made, holds) = ih (y ∷ ys) (q, hs) sy in
          (
            x ∷ zs,
            rw (less-set x y p q) (rw e (rw made refl)),
            λ bytes.
                xor-first (bytes_eq bytes x.bytes) (contains bytes xs) (contains bytes (y ∷ ys))
                  (contains bytes zs) (head-alone bytes x (y ∷ ys) (IsStrict-below x y ys e sy))
                  (holds bytes),
          )
      | inr e ↦ elim (Bool-cases (memcmp_less y.bytes x.bytes)) [
        | inl f ↦
            let (zs, made, holds) = difference_from-Differs x xs ys next p hs sx sy.1 ih in
            (
              y ∷ zs,
              rw (less-set x y p q) (rw e (rw (less-set y x q p) (rw f (rw made refl)))),
              λ bytes.
                  xor-second (bytes_eq bytes y.bytes) (contains bytes (x ∷ xs)) (contains bytes ys)
                    (contains bytes zs) (head-alone bytes y (x ∷ xs) (IsStrict-below y x xs f sx))
                    (holds bytes),
            )
        | inr f ↦
            let (zs, made, holds) = ih ys hs sy.1 in
            let same : x.bytes ≡ y.bytes = memcmp_less-total x.bytes y.bytes (p.1 ∙ sym q.1) e f in
            (
              zs,
              rw (less-set x y p q) (rw e (rw (less-set y x q p) (rw f made))),
              λ bytes.
                  xor-both (bytes_eq bytes x.bytes) (contains bytes xs) (contains bytes ys)
                    (contains bytes zs) (head-alone bytes x xs sx.0)
                    (λ h. head-alone bytes y ys sy.0 (subst (λ b. bytes_eq bytes b ≡ true) same h))
                    (holds bytes)
                  ∙ λ i.
                      xor (bytes_eq bytes x.bytes || contains bytes xs)
                        (bytes_eq bytes (same i) || contains bytes ys),
            )
      ]
    ]

pub set_symmetric_difference-Differs :
    (xs ys : List Hash)
    → All IsSetHash xs
    → All IsSetHash ys
    → IsStrict xs
    → IsStrict ys
    → Differs xs ys (set_symmetric_difference xs ys)
unfolding set_symmetric_difference contains
set_symmetric_difference-Differs [] ys hx hy sx sy = (ys, refl, λ bytes. refl)
set_symmetric_difference-Differs (x ∷ xs) ys (p, hx) hy sx sy =
    difference_from-Differs x xs ys (λ zs. set_symmetric_difference xs zs) p hy sx sy
      (λ zs hz sz. set_symmetric_difference-Differs xs zs hx hz sx.1 sz)
