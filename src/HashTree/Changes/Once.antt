-- ===== src/HashTree/Changes/Once.antt =====
-- Sorted hashes, each once.
use flocksy.Prelude.{
  ℕ, ◌≡◌, refl, sym, ap, ◌∙◌, List, [], ◌∷◌, Bool, true, false, ◌||◌, not, ok, if◌then◌else◌,
  Bool-cases, inl, inr, All, arith, subst,
}
use flocksy.Bytes.{bytes_eq, bytes_eq_iff}
use flocksy.Hash.{Hash, memcmp_less}
use flocksy.Hash.Order.{memcmp_less-irreflexive, memcmp_less-total, memcmp_less-above}
use flocksy.HashTree.Sort.Order.{IsSetHash, IsAscending, insert_hash, sort_hashes, equal-set}
use flocksy.HashTree.Changes.{unique_copy_from}

-- A test whether some bytes are those of a hash of the list.
unfoldable pub contains : List ℕ → List Hash → Bool
contains bytes [] = false
contains bytes (h ∷ hs) = bytes_eq bytes h.bytes || contains bytes hs

abbrev pub xor : Bool → Bool → Bool
xor true b = not b
xor false b = b

-- Each hash is below all that follow.
abbrev pub IsStrict : List Hash → Type 0
IsStrict [] = Unit {0}
IsStrict (x ∷ xs) = All (λ y. memcmp_less x.bytes y.bytes ≡ true) xs × IsStrict xs

contains-insert_hash :
    (bytes : List ℕ) (x : Hash) (ys : List Hash)
    → contains bytes (insert_hash x ys) ≡ contains bytes (x ∷ ys)
unfolding contains
contains-insert_hash bytes x [] = refl
contains-insert_hash bytes x (y ∷ ys) = elim (Bool-cases (memcmp_less y.bytes x.bytes)) [
  | inl e ↦ rw e (rw (contains-insert_hash bytes x ys) ground arith)
  | inr e ↦ rw e refl
]

pub contains-sort_hashes :
    (bytes : List ℕ) (xs : List Hash) → contains bytes (sort_hashes xs) ≡ contains bytes xs
unfolding contains
contains-sort_hashes bytes [] = refl
contains-sort_hashes bytes (x ∷ xs) =
    contains-insert_hash bytes x (sort_hashes xs)
    ∙ ap (λ (b : Bool). bytes_eq bytes x.bytes || b) (contains-sort_hashes bytes xs)

-- What is below all of a list is not in it.
pub contains-below :
    (bytes : List ℕ) (xs : List Hash)
    → All (λ y. memcmp_less bytes y.bytes ≡ true) xs
    → contains bytes xs ≡ false
unfolding contains
contains-below bytes [] h = refl
contains-below bytes (x ∷ xs) (e, h) = elim (Bool-cases (bytes_eq bytes x.bytes)) [
  | inl same ↦
      let bytes_same : bytes ≡ x.bytes = (bytes_eq_iff bytes x.bytes).0 same in
      let never = memcmp_less-irreflexive bytes in
      let e' : memcmp_less bytes bytes ≡ true =
        subst (λ zs. memcmp_less bytes zs ≡ true) (sym bytes_same) e in
      cc
  | inr other ↦ rw other (contains-below bytes xs h)
]

-- What unique_copy gives for hashes that are set.
abbrev pub unique_hashes_from : Hash → List Hash → List Hash
unique_hashes_from x [] = x ∷ []
unique_hashes_from x (y ∷ ys) =
    let same = unique_hashes_from x ys in
    let other = unique_hashes_from y ys in if bytes_eq x.bytes y.bytes then same else x ∷ other

pub unique_copy_from_unique :
    (x : Hash) (xs : List Hash)
    → IsSetHash x
    → All IsSetHash xs
    → unique_copy_from x xs ≡ ok (unique_hashes_from x xs)
unfolding unique_copy_from
unique_copy_from_unique x [] p h = refl
unique_copy_from_unique x (y ∷ ys) p (q, h) = elim (Bool-cases (bytes_eq x.bytes y.bytes)) [
  | inl e ↦ rw (equal-set x y p q) (rw e (unique_copy_from_unique x ys p h))
  | inr e ↦ rw (equal-set x y p q) (rw e (rw (unique_copy_from_unique y ys q h) refl))
]

pub All-unique {ℓ} :
    (P : Hash → Type ℓ) (x : Hash) (xs : List Hash)
    → P x
    → All P xs
    → All P (unique_hashes_from x xs)
All-unique P x [] p h = (p, tt)
All-unique P x (y ∷ ys) p (q, h) = elim (Bool-cases (bytes_eq x.bytes y.bytes)) [
  | inl e ↦ rw e (All-unique P x ys p h)
  | inr e ↦ rw e (p, All-unique P y ys q h)
]

pub contains_unique :
    (bytes : List ℕ) (x : Hash) (xs : List Hash)
    → contains bytes (unique_hashes_from x xs) ≡ contains bytes (x ∷ xs)
unfolding contains
contains_unique bytes x [] = refl
contains_unique bytes x (y ∷ ys) = elim (Bool-cases (bytes_eq x.bytes y.bytes)) [
  | inl e ↦
      let same : x.bytes ≡ y.bytes = (bytes_eq_iff x.bytes y.bytes).0 e in
      rw e (rw (contains_unique bytes x ys) (rw same (ground arith)))
  | inr e ↦ rw e (rw (contains_unique bytes y ys) refl)
]

-- Above what is above.
below-All :
    (x y : Hash) (zs : List Hash)
    → IsSetHash x
    → IsSetHash y
    → All IsSetHash zs
    → memcmp_less x.bytes y.bytes ≡ true
    → All (λ z. memcmp_less z.bytes y.bytes ≡ false) zs
    → All (λ z. memcmp_less x.bytes z.bytes ≡ true) zs
unfolding IsSetHash
below-All x y [] p q h e k = tt
below-All x y (z ∷ zs) p q (r, h) e (f, k) = (
  elim (Bool-cases (memcmp_less x.bytes z.bytes)) [
    | inl g ↦ g
    | inr g ↦
        let wrong = memcmp_less-above y.bytes z.bytes x.bytes (q.1 ∙ sym r.1) (r.1 ∙ sym p.1) f g in
        cc
  ],
  below-All x y zs p q h e k,
)

pub unique-IsStrict :
    (x : Hash) (xs : List Hash)
    → IsSetHash x
    → All IsSetHash xs
    → IsAscending (x ∷ xs)
    → IsStrict (unique_hashes_from x xs)
unfolding IsSetHash
unique-IsStrict x [] p h a = (tt, tt)
unique-IsStrict x (y ∷ ys) p (q, h) ((e, below), (below', a)) =
    elim (Bool-cases (bytes_eq x.bytes y.bytes)) [
      | inl same ↦ rw same (unique-IsStrict x ys p h (below, a))
      | inr other ↦
          let less : memcmp_less x.bytes y.bytes ≡ true =
            elim (Bool-cases (memcmp_less x.bytes y.bytes)) [
              | inl g ↦ g
              | inr g ↦
                  let equal' = memcmp_less-total x.bytes y.bytes (p.1 ∙ sym q.1) g e in
                  let wrong = (bytes_eq_iff x.bytes y.bytes).1 equal' in cc
            ] in
          rw other (
            All-unique (λ z. memcmp_less x.bytes z.bytes ≡ true) y ys less
                (below-All x y ys p q h less below'),
            unique-IsStrict y ys q h (below', a),
          )
    ]
