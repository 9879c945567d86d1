-- ===== src/Bytes.antt =====
-- Fixed-width numbers in big-endian bytes: htobe64 and be64toh with the copies around them, and the
-- comparison of byte strings.
use flocksy.Prelude.{
  ℕ, zero, suc, ◌+◌, ◌*◌, ◌/◌, ◌%◌, ◌^◌, ◌<◌, ◌≡◌, refl, ap, ◌∙◌, ◌↔◌, Bool, true, false, ◌&&◌,
  List, [], ◌∷◌, ◌++◌, arith, ◌==◌, length, length-append,
}
use native.Mathlib.Nat.{pow-suc}

-- The k lowest bytes of n, the highest first.
unfoldable pub to_be : ℕ → ℕ → List ℕ
to_be zero n = []
to_be (suc k) n = to_be k (n / 256) ++ n % 256 ∷ []

unfoldable pub from_be : ℕ → List ℕ → ℕ
from_be value [] = value
from_be value (b ∷ bs) = from_be (value * 256 + b) bs

-- `uint64_t be = htobe64(n); std::memcpy(p, &be, 8)`, and the way back.
unfoldable pub be64 : ℕ → List ℕ
unfolding to_be
be64 n = to_be 8 n

unfoldable pub be64toh : List ℕ → ℕ
unfolding from_be
be64toh bytes = from_be 0 bytes

pub length-to_be : (k n : ℕ) → length (to_be k n) ≡ k
unfolding to_be
length-to_be zero n = refl
length-to_be (suc k) n =
    omega (arith, length-append (to_be k (n / 256)) (n % 256 ∷ []), length-to_be k (n / 256))

from_be-append : (v b : ℕ) (bs : List ℕ) → from_be v (bs ++ b ∷ []) ≡ from_be v bs * 256 + b
unfolding from_be
from_be-append v b [] = refl
from_be-append v b (x ∷ bs) = from_be-append (v * 256 + x) b bs

pub from_be-to_be : (k n : ℕ) → n < 256 ^ k → from_be 0 (to_be k n) ≡ n
unfolding to_be
from_be-to_be zero n h = unfold from_be in omega arith
from_be-to_be (suc k) n h =
    from_be-append 0 (n % 256) (to_be k (n / 256))
    ∙ ap (λ (t : ℕ). t * 256 + n % 256) (from_be-to_be k (n / 256) (omega (arith, pow-suc 256 k)))
    ∙ omega arith

pub be64toh-be64 : (n : ℕ) → n < 2 ^ 64 → be64toh (be64 n) ≡ n
unfolding be64 be64toh
be64toh-be64 n h = from_be-to_be 8 n h

pub length-be64 : (n : ℕ) → length (be64 n) ≡ 8
unfolding be64
length-be64 n = length-to_be 8 n

-- memcmp(a, b, n) == 0 on strings of one length.
unfoldable pub bytes_eq : List ℕ → List ℕ → Bool
bytes_eq [] [] = true
bytes_eq [] (y ∷ ys) = false
bytes_eq (x ∷ xs) [] = false
bytes_eq (x ∷ xs) (y ∷ ys) = x == y && bytes_eq xs ys

pub bytes_eq_iff : (xs ys : List ℕ) → (bytes_eq xs ys ≡ true) ↔ (xs ≡ ys)
unfolding bytes_eq
bytes_eq_iff [] [] = ((λ h. refl), (λ h. refl))
bytes_eq_iff [] (y ∷ ys) = ((λ h. cc), (λ h. cc))
bytes_eq_iff (x ∷ xs) [] = ((λ h. cc), (λ h. cc))
bytes_eq_iff (x ∷ xs) (y ∷ ys) = ground (arith, bytes_eq_iff xs ys)
