-- ===== src/HashTree/Sort/Same.antt =====
-- The sorted hashes do not depend on the order from before.
use flocksy.Prelude.{
  ◌≡◌, refl, sym, ap, ◌∙◌, subst, List, [], ◌∷◌, true, false, Bool-cases, inl, inr, if◌then◌else◌,
  All,
}
use mathlib.Core.List.{Perm, Permᴰ}
use mathlib.Core.Logic.{∥∥₁_elim}
use flocksy.Hash.{Hash, memcmp_less}
use flocksy.Hash.Order.{memcmp_less-irreflexive, memcmp_less_trans, memcmp_less-total}
use flocksy.HashTree.Sort.Order.{IsSetHash, insert_hash, sort_hashes}

-- Hashes that are set and are not ordered are one.
same_hash :
    (a b : Hash)
    → IsSetHash a
    → IsSetHash b
    → memcmp_less a.bytes b.bytes ≡ false
    → memcmp_less b.bytes a.bytes ≡ false
    → a ≡ b
unfolding IsSetHash
same_hash a b (ea, la) (eb, lb) h k =
    let bytes = memcmp_less-total a.bytes b.bytes (la ∙ sym lb) h k in
    λ i. record { bytes = bytes i; empty = (ea ∙ sym eb) i }

-- What is above an element that is not below the other is above the other too.
less-above :
    (a b y : Hash)
    → IsSetHash a
    → IsSetHash b
    → memcmp_less y.bytes a.bytes ≡ false
    → memcmp_less y.bytes b.bytes ≡ true
    → memcmp_less a.bytes b.bytes ≡ true
less-above a b y ha hb h k = elim (Bool-cases (memcmp_less a.bytes b.bytes)) [
  | inl e ↦ e
  | inr e ↦ elim (Bool-cases (memcmp_less b.bytes a.bytes)) [
    | inl f ↦ absurd (false-true (sym h ∙ memcmp_less_trans y.bytes b.bytes a.bytes k f))
    | inr f ↦
        let same = same_hash a b ha hb e f in
        absurd (false-true (sym h ∙ ap (λ (z : Hash). memcmp_less y.bytes z.bytes) same ∙ k))
  ]
]
  where
    false-true : false ≡ true → ⊥
    false-true e = cc

swap-front :
    (a b : Hash) (xs : List Hash)
    → IsSetHash a
    → IsSetHash b
    → ◌≡◌ {A = List Hash}
        (if memcmp_less b.bytes a.bytes then b ∷ a ∷ xs else a ∷ b ∷ xs)
        (if memcmp_less a.bytes b.bytes then a ∷ b ∷ xs else b ∷ a ∷ xs)
swap-front a b xs ha hb = elim (Bool-cases (memcmp_less b.bytes a.bytes)) [
  | inl e ↦ elim (Bool-cases (memcmp_less a.bytes b.bytes)) [
    | inl f ↦
        let twice = memcmp_less_trans a.bytes b.bytes a.bytes f e in
        let never = memcmp_less-irreflexive a.bytes in cc
    | inr f ↦ rw (e, f) refl
  ]
  | inr e ↦ elim (Bool-cases (memcmp_less a.bytes b.bytes)) [
    | inl f ↦ rw (e, f) refl
    | inr f ↦ let same = same_hash a b ha hb f e in rw (e, f) λ i. same i ∷ sym same i ∷ xs
  ]
]

-- Two hashes may be inserted in either order.
insert_hash_comm :
    (a b : Hash) (xs : List Hash)
    → IsSetHash a
    → IsSetHash b
    → insert_hash a (insert_hash b xs) ≡ insert_hash b (insert_hash a xs)
insert_hash_comm a b [] ha hb = swap-front a b [] ha hb
insert_hash_comm a b (y ∷ ys) ha hb = elim (Bool-cases (memcmp_less y.bytes b.bytes)) [
  | inl p ↦ elim (Bool-cases (memcmp_less y.bytes a.bytes)) [
    | inl q ↦ rw (p, q) (rw p (ap (◌∷◌ y) (insert_hash_comm a b ys ha hb)))
    | inr q ↦ rw (p, q) (rw (less-above a b y ha hb q p) (rw p refl))
  ]
  | inr p ↦ elim (Bool-cases (memcmp_less y.bytes a.bytes)) [
    | inl q ↦ rw (p, q) (rw p (rw (less-above b a y hb ha p q) refl))
    | inr q ↦ rw (p, q) (rw p (swap-front a b (y ∷ ys) ha hb))
  ]
]

hashes-IsSet : IsSet (List Hash)
hashes-IsSet = hlevel

All-Perm {ℓ κ} : {A : Type ℓ} (P : A → Type κ) {xs ys : List A} → Permᴰ xs ys → All P xs → All P ys
All-Perm P Permᴰ.nil h = h
All-Perm P (Permᴰ.cons e p) (q, h) = (subst P e q, All-Perm P p h)
All-Perm P (Permᴰ.swap e f) (p, (q, h)) = (subst P f q, (subst P e p, h))
All-Perm P (Permᴰ.trans p q) h = All-Perm P q (All-Perm P p h)

sort_hashes-same :
    {xs ys : List Hash} → Permᴰ xs ys → All IsSetHash xs → sort_hashes xs ≡ sort_hashes ys
sort_hashes-same Permᴰ.nil h = refl
sort_hashes-same (Permᴰ.cons e p) (_, h) = λ i. insert_hash (e i) (sort_hashes-same p h i)
sort_hashes-same (Permᴰ.swap {a = a} {b = b} {l = l} e f) (p, (q, h)) =
    insert_hash_comm a b (sort_hashes l) p q ∙ λ i.
    insert_hash (f i) (insert_hash (e i) (sort_hashes l))
sort_hashes-same (Permᴰ.trans p q) h =
    sort_hashes-same p h ∙ sort_hashes-same q (All-Perm IsSetHash p h)

-- The order from before makes no difference.
pub sort_hashes-Perm :
    (xs ys : List Hash) → Perm xs ys → All IsSetHash xs → sort_hashes xs ≡ sort_hashes ys
sort_hashes-Perm xs ys p h =
    ∥∥₁_elim p (hashes-IsSet (sort_hashes xs) (sort_hashes ys)) (λ q. sort_hashes-same q h)
