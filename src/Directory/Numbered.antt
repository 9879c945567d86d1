-- ===== src/Directory/Numbered.antt =====
-- The pointers that fillDirectory collects point to different hashes.
use flocksy.Prelude.{
  ℕ, suc, ◌≡◌, ◌≢◌, ◌<◌, refl, sym, ap, ◌∙◌, subst, List, [], ◌∷◌, ◌++◌, map, length, length-append,
  All, All-push, All-weaken, arith,
}
use flocksy.Hash.{Hash}
use flocksy.HashTree.Build.{Pointer}
use flocksy.HashTree.Build.Tree.{AreDistinct}

AreDistinct-push :
    (ps : List Pointer) (q : Pointer)
    → AreDistinct ps
    → All (λ p. p.address ≢ q.address) ps
    → AreDistinct (ps ++ (q ∷ []))
AreDistinct-push [] q d h = (tt, tt)
AreDistinct-push (p ∷ ps) q (f, d) (h, hs) =
    (All-push (λ r. p.address ≢ r.address) ps q f h, AreDistinct-push ps q d hs)

pub map-push {ℓ κ} :
    {A : Type ℓ} {B : Type κ} (f : A → B) (xs : List A) (y : A)
    → map f (xs ++ (y ∷ [])) ≡ map f xs ++ (f y ∷ [])
map-push f [] y = refl
map-push f (x ∷ xs) y = ap (◌∷◌ (f x)) (map-push f xs y)

-- Pointers to different hashes, numbered.
unfoldable pub Numbered : List Pointer → Type 0
Numbered ps = AreDistinct ps × All (λ p. p.address < length ps) ps

pub Numbered-push :
    (ps : List Pointer) (hash : Hash)
    → Numbered ps
    → Numbered (ps ++ (record { address = length ps; hash = hash } ∷ []))
unfolding Numbered
Numbered-push ps hash (d, h) =
    let q : Pointer = record { address = length ps; hash = hash } in
    let longer : length (ps ++ (q ∷ [])) ≡ suc (length ps) =
      length-append ps (q ∷ []) ∙ omega arith in
    (
      AreDistinct-push ps q d (
          All-weaken (λ p. p.address < length ps) (λ p. p.address ≢ q.address) ps
            (λ p lt. below p.address (length ps) lt) h),
      subst (λ n. All (λ p. p.address < n) (ps ++ (q ∷ []))) (sym longer)
          (All-push (λ p. p.address < suc (length ps)) ps q
            (All-weaken (λ p. p.address < length ps) (λ p. p.address < suc (length ps)) ps
              (λ p lt. omega arith) h)
            (omega arith)),
    )
  where
    below : (a b : ℕ) → a < b → a ≢ b
    below a b lt = omega arith
