-- ===== src/HashTree/Sort/Order.antt =====
-- What the sort of src/hash_tree.cpp gives for elements whose hash is set: an ascending list of the same
-- elements.
use flocksy.Prelude.{
  suc, ◌≡◌, refl, sym, ap, ◌∙◌, List, [], ◌∷◌, map, Bool, false, Bool-cases, inl, inr, Result, ok,
  if◌then◌else◌, All, length,
}
use mathlib.Core.List.{Perm}
use mathlib.Core.List.Perm
use flocksy.Hash.{Hash, memcmp_less, less, equal}
use flocksy.Bytes.{bytes_eq}
use flocksy.Hash.Order.{memcmp_less-asym, memcmp_less-above}
use flocksy.HashTree.Sort.{insert_before, sort}

-- A hash that is set, of 64 bytes.
unfoldable pub IsSetHash : Hash → Type 0
IsSetHash h = (h.empty ≡ false) × (length h.bytes ≡ 64)

pub less-set :
    (a b : Hash) → IsSetHash a → IsSetHash b → less a b ≡ ok (memcmp_less a.bytes b.bytes)
unfolding less IsSetHash
less-set a b p q = rw (p.0, q.0) refl

pub equal-set : (a b : Hash) → IsSetHash a → IsSetHash b → equal a b ≡ ok (bytes_eq a.bytes b.bytes)
unfolding equal IsSetHash
equal-set a b p q = rw (p.0, q.0) refl

module _ {ℓ} {A : Type ℓ} (hash_of : A → Hash) where
  abbrev pub sorted_insert : A → List A → List A
  sorted_insert x [] = x ∷ []
  sorted_insert x (y ∷ ys) =
      let further = sorted_insert x ys in
      if memcmp_less (hash_of y).bytes (hash_of x).bytes then y ∷ further else x ∷ y ∷ ys

  abbrev pub sorted : List A → List A
  sorted [] = []
  sorted (x ∷ xs) = sorted_insert x (sorted xs)

  -- What holds of the new element and of the others holds of all.
  pub All-sorted_insert {κ} :
      (P : A → Type κ) (x : A) (ys : List A) → P x → All P ys → All P (sorted_insert x ys)
  All-sorted_insert P x [] p ps = (p, ps)
  All-sorted_insert P x (y ∷ ys) p (q, qs) =
      elim (Bool-cases (memcmp_less (hash_of y).bytes (hash_of x).bytes)) [
        | inl e ↦ rw e (q, All-sorted_insert P x ys p qs)
        | inr e ↦ rw e (p, (q, qs))
      ]

  pub All-sorted {κ} : (P : A → Type κ) (xs : List A) → All P xs → All P (sorted xs)
  All-sorted P [] h = h
  All-sorted P (x ∷ xs) (p, h) = All-sorted_insert P x (sorted xs) p (All-sorted P xs h)

  -- If every hash is set, the sort of the source gives this list.
  abbrev before : A → A → Result Bool
  before x y = less (hash_of x) (hash_of y)

  insert_before-sorted :
      (x : A) (ys : List A)
      → IsSetHash (hash_of x)
      → All (λ y. IsSetHash (hash_of y)) ys
      → insert_before before x ys ≡ ok (sorted_insert x ys)
  unfolding insert_before less IsSetHash
  insert_before-sorted x [] p ps = refl
  insert_before-sorted x (y ∷ ys) p (q, qs) =
      elim (Bool-cases (memcmp_less (hash_of y).bytes (hash_of x).bytes)) [
        | inl e ↦ rw (p.0, q.0) (rw e (rw (insert_before-sorted x ys p qs) refl))
        | inr e ↦ rw (p.0, q.0) (rw e refl)
      ]

  pub sort-sorted :
      (xs : List A) → All (λ x. IsSetHash (hash_of x)) xs → sort before xs ≡ ok (sorted xs)
  unfolding sort
  sort-sorted [] h = refl
  sort-sorted (x ∷ xs) (p, h) =
      rw (sort-sorted xs h)
        (insert_before-sorted x (sorted xs) p (All-sorted (λ y. IsSetHash (hash_of y)) xs h))

  pub sorted_insert-Perm : (x : A) (ys : List A) → Perm (sorted_insert x ys) (x ∷ ys)
  sorted_insert-Perm x [] = Perm.rfl
  sorted_insert-Perm x (y ∷ ys) =
      elim (Bool-cases (memcmp_less (hash_of y).bytes (hash_of x).bytes)) [
        | inl e ↦ rw e (Perm.trans (Perm.cons y (sorted_insert-Perm x ys)) (Perm.swap x y ys))
        | inr e ↦ rw e Perm.rfl
      ]

  pub sorted-Perm : (xs : List A) → Perm (sorted xs) xs
  sorted-Perm [] = Perm.rfl
  sorted-Perm (x ∷ xs) =
      Perm.trans (sorted_insert-Perm x (sorted xs)) (Perm.cons x (sorted-Perm xs))

module _ {ℓ} {A : Type ℓ} (hash_of : A → Hash) where
  length-sorted_insert :
      (x : A) (ys : List A) → length (sorted_insert hash_of x ys) ≡ suc (length ys)
  length-sorted_insert x [] = refl
  length-sorted_insert x (y ∷ ys) =
      elim (Bool-cases (memcmp_less (hash_of y).bytes (hash_of x).bytes)) [
        | inl e ↦ rw e (ap suc (length-sorted_insert x ys))
        | inr e ↦ rw e refl
      ]

  pub length-sorted : (xs : List A) → length (sorted hash_of xs) ≡ length xs
  length-sorted [] = refl
  length-sorted (x ∷ xs) = length-sorted_insert x (sorted hash_of xs) ∙ ap suc (length-sorted xs)

  map-sorted_insert :
      (x : A) (ys : List A)
      → map hash_of (sorted_insert hash_of x ys)
        ≡ sorted_insert (λ (h : Hash). h) (hash_of x) (map hash_of ys)
  map-sorted_insert x [] = refl
  map-sorted_insert x (y ∷ ys) =
      elim (Bool-cases (memcmp_less (hash_of y).bytes (hash_of x).bytes)) [
        | inl e ↦ rw e (ap (◌∷◌ (hash_of y)) (map-sorted_insert x ys))
        | inr e ↦ rw e refl
      ]

  -- The hashes of the sorted elements are the sorted hashes.
  pub map-sorted :
      (xs : List A) → map hash_of (sorted hash_of xs) ≡ sorted (λ (h : Hash). h) (map hash_of xs)
  map-sorted [] = refl
  map-sorted (x ∷ xs) =
      map-sorted_insert x (sorted hash_of xs)
      ∙ ap (sorted_insert (λ (h : Hash). h) (hash_of x)) (map-sorted xs)

-- On hashes themselves.
abbrev pub insert_hash : Hash → List Hash → List Hash
insert_hash = sorted_insert λ (h : Hash). h

abbrev pub sort_hashes : List Hash → List Hash
sort_hashes = sorted λ (h : Hash). h

-- Ascending lists.
abbrev pub IsAscending : List Hash → Type 0
IsAscending [] = Unit {0}
IsAscending (x ∷ xs) = All (λ y. memcmp_less y.bytes x.bytes ≡ false) xs × IsAscending xs

-- What is below the head is below the rest.
All-above :
    (x y : Hash) (zs : List Hash)
    → IsSetHash x
    → IsSetHash y
    → All IsSetHash zs
    → memcmp_less y.bytes x.bytes ≡ false
    → All (λ z. memcmp_less z.bytes y.bytes ≡ false) zs
    → All (λ z. memcmp_less z.bytes x.bytes ≡ false) zs
unfolding IsSetHash
All-above x y [] hx hy hs e h = tt
All-above x y (z ∷ zs) hx hy (hz, hs) e (f, h) = (
  memcmp_less-above x.bytes y.bytes z.bytes (hx.1 ∙ sym hy.1) (hy.1 ∙ sym hz.1) e f,
  All-above x y zs hx hy hs e h,
)

insert_hash-IsAscending :
    (x : Hash) (ys : List Hash)
    → IsSetHash x
    → All IsSetHash ys
    → IsAscending ys
    → IsAscending (insert_hash x ys)
insert_hash-IsAscending x [] hx hs h = (tt, tt)
insert_hash-IsAscending x (y ∷ ys) hx (hy, hs) (below, h) =
    elim (Bool-cases (memcmp_less y.bytes x.bytes)) [
      | inl e ↦ rw e (
        All-sorted_insert (λ (h : Hash). h) (λ z. memcmp_less z.bytes y.bytes ≡ false) x ys
            (memcmp_less-asym y.bytes x.bytes e) below,
        insert_hash-IsAscending x ys hx hs h,
      )
      | inr e ↦ rw e ((e, All-above x y ys hx hy hs e below), (below, h))
    ]

pub sort_hashes-IsAscending : (xs : List Hash) → All IsSetHash xs → IsAscending (sort_hashes xs)
sort_hashes-IsAscending [] h = tt
sort_hashes-IsAscending (x ∷ xs) (p, h) =
    insert_hash-IsAscending x (sort_hashes xs) p (All-sorted (λ (h : Hash). h) IsSetHash xs h)
      (sort_hashes-IsAscending xs h)
