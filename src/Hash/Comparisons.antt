-- ===== src/Hash/Comparisons.antt =====
-- The six operators of include/hash.hpp together.
use flocksy.Prelude.{
  ℕ, List, arith, ◌≡◌, ◌⊎◌, refl, sym, subst, inl, inr, Bool, true, false, ◌||◌, not, ok, fault,
  runtime_error, length, Bool-cases,
}
use flocksy.Bytes.{bytes_eq, bytes_eq_iff}
use flocksy.Hash.{
  Hash, memcmp_less, less, greater, less_or_equal, greater_or_equal, equal, not_equal,
}
use flocksy.Hash.Order.{memcmp_less-irreflexive, memcmp_less-total, memcmp_less-asym}

-- What all six give.
abbrev pub Outcome : Hash → Hash → Bool → Bool → Bool → Bool → Bool → Bool → Type 0
Outcome a b lt gt le ge eq ne =
    (less a b ≡ ok lt)
    × (greater a b ≡ ok gt)
    × (less_or_equal a b ≡ ok le)
    × (greater_or_equal a b ≡ ok ge)
    × (equal a b ≡ ok eq)
    × (not_equal a b ≡ ok ne)

outcome :
    (a b : Hash) (lt gt eq : Bool)
    → a.empty ≡ false
    → b.empty ≡ false
    → memcmp_less a.bytes b.bytes ≡ lt
    → memcmp_less b.bytes a.bytes ≡ gt
    → bytes_eq a.bytes b.bytes ≡ eq
    → Outcome a b lt gt (not gt) (not lt) eq (not eq)
unfolding less greater less_or_equal greater_or_equal equal not_equal
outcome a b lt gt eq p q e f g = rw (p, q) (rw (e, f, g) (refl, refl, refl, refl, refl, refl))

abbrev pub Throws : Hash → Hash → Type 0
Throws a b =
    (less a b ≡ fault runtime_error)
    × (greater a b ≡ fault runtime_error)
    × (less_or_equal a b ≡ fault runtime_error)
    × (greater_or_equal a b ≡ fault runtime_error)
    × (equal a b ≡ fault runtime_error)
    × (not_equal a b ≡ fault runtime_error)

throws : (a b : Hash) → (a.empty || b.empty) ≡ true → Throws a b
unfolding less greater less_or_equal greater_or_equal equal not_equal
throws a b e = rw e (refl, refl, refl, refl, refl, refl)

-- One of three relations.
abbrev pub IsCompared : Hash → Hash → Type 0
IsCompared a b =
    Outcome a b true false true false false true
    ⊎ (Outcome a b false true false true false true
        ⊎ ((a.bytes ≡ b.bytes) × Outcome a b false false true true true false))

differ : (xs ys : List ℕ) → memcmp_less xs ys ≡ true → bytes_eq xs ys ≡ false
differ xs ys e = elim (Bool-cases (bytes_eq xs ys)) [
  | inl same ↦
      let bytes_same : xs ≡ ys = (bytes_eq_iff xs ys).0 same in
      let never = memcmp_less-irreflexive ys in
      let e' : memcmp_less ys ys ≡ true = subst (λ zs. memcmp_less zs ys ≡ true) bytes_same e in cc
  | inr other ↦ other
]

IsCompared-of_set :
    (a b : Hash)
    → a.empty ≡ false
    → b.empty ≡ false
    → length a.bytes ≡ length b.bytes
    → IsCompared a b
IsCompared-of_set a b p q e = elim (Bool-cases (memcmp_less a.bytes b.bytes)) [
  | inl lt ↦ inl (
      outcome a b true false false p q lt (memcmp_less-asym a.bytes b.bytes lt)
        (differ a.bytes b.bytes lt))
  | inr not_lt ↦ elim (Bool-cases (memcmp_less b.bytes a.bytes)) [
    | inl gt ↦ inr (inl (outcome a b false true false p q not_lt gt (other gt)))
    | inr not_gt ↦
        let same = memcmp_less-total a.bytes b.bytes e not_lt not_gt in
        inr (
          inr (
            same,
            outcome a b false false true p q not_lt not_gt ((bytes_eq_iff a.bytes b.bytes).1 same),
          ))
  ]
]
  where
    other : memcmp_less b.bytes a.bytes ≡ true → bytes_eq a.bytes b.bytes ≡ false
    other gt = elim (Bool-cases (bytes_eq a.bytes b.bytes)) [
      | inl same ↦
          let turned =
            (bytes_eq_iff b.bytes a.bytes).1 (sym ((bytes_eq_iff a.bytes b.bytes).0 same)) in
          let never = differ b.bytes a.bytes gt in cc
      | inr different ↦ different
    ]

-- On two hashes of one length the six operators agree: if one of the hashes is empty, all six throw; if
-- both are set, the first is less, or the second is, or both have the same bytes, and each operator
-- gives what its name says of that case.
pub comparisons-agree :
    (a b : Hash)
    → length a.bytes ≡ length b.bytes
    → (((a.empty || b.empty) ≡ true) × Throws a b)
      ⊎ ((a.empty ≡ false) × (b.empty ≡ false) × IsCompared a b)
comparisons-agree a b e = elim (Bool-cases a.empty) [
  | inl p ↦
      let some_empty : (a.empty || b.empty) ≡ true = ground arith in
      inl (some_empty, throws a b some_empty)
  | inr p ↦ elim (Bool-cases b.empty) [
    | inl q ↦
        let some_empty : (a.empty || b.empty) ≡ true = ground arith in
        inl (some_empty, throws a b some_empty)
    | inr q ↦ inr (p, q, IsCompared-of_set a b p q e)
  ]
]
