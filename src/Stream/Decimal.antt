-- ===== src/Stream/Decimal.antt =====
-- Decimal numbers as a stream prints and reads them.
use flocksy.Prelude.{
  ◌^◌, ℕ, zero, suc, ◌+◌, ◌-◌, ◌*◌, ◌/◌, ◌%◌, ◌≤◌, ◌<◌, ◌≡◌, refl, ap, ◌∙◌, Bool, ◌&&◌, true, false,
  List, [], ◌∷◌, ◌++◌, append_assoc, length, if◌then◌else◌, leb, ltb, arith, Bool-cases, inl, inr,
}

abbrev pub is_digit : ℕ → Bool
is_digit c = leb b'0' c && leb c b'9'

-- The value of the leading digits, after those that gave `value`, and what follows them.
unfoldable pub read_digits : ℕ → List ℕ → ℕ × List ℕ
read_digits value [] = (value, [])
read_digits value (c ∷ cs) =
    let more = read_digits (value * 10 + (c - b'0')) cs in
    if is_digit c then more else (value, c ∷ cs)

unfoldable pub print_fuel : ℕ → ℕ → List ℕ
print_fuel zero n = []
print_fuel (suc f) n =
    let front = print_fuel f (n / 10) in
    if ltb n 10 then (b'0' + n) ∷ [] else front ++ (b'0' + n % 10) ∷ []

-- A number has at most as many digits as its value and one.
unfoldable pub print : ℕ → List ℕ
unfolding print_fuel
print n = print_fuel (suc n) n

-- `stream << i` for an int i.
unfoldable pub print_int : ℕ → List ℕ
print_int n = if ltb n (2 ^ 31) then print n else b'-' ∷ print (2 ^ 32 - n)

pub print_int-print : (n : ℕ) → n < 2 ^ 31 → print_int n ≡ print n
unfolding print_int
print_int-print n h = let small : ltb n (2 ^ 31) ≡ true = ground arith in rw small refl

-- The text starts with no digit.
abbrev pub NoDigit : List ℕ → Type 0
NoDigit [] = Unit {0}
NoDigit (c ∷ cs) = is_digit c ≡ false

pub NoDigit-append : (xs ys : List ℕ) → 0 < length xs → NoDigit xs → NoDigit (xs ++ ys)
NoDigit-append [] ys pos h = absurd (omega arith)
NoDigit-append (x ∷ xs) ys pos h = h

read_digits-digit :
    (value d : ℕ) (rest : List ℕ)
    → d < 10
    → read_digits value ((b'0' + d) ∷ rest) ≡ read_digits (value * 10 + d) rest
unfolding read_digits
read_digits-digit value d rest h = ground arith

read_digits-print_fuel :
    (f n : ℕ) (rest : List ℕ) → n < f → read_digits 0 (print_fuel f n ++ rest) ≡ read_digits n rest
unfolding print_fuel
read_digits-print_fuel zero n rest h = elim h [ ]
read_digits-print_fuel (suc f) n rest h = elim (Bool-cases (ltb n 10)) [
  | inl small ↦
      rw small
        (read_digits-digit 0 n rest (ground arith) ∙ ap (λ k. read_digits k rest) (omega arith))
  | inr large ↦ rw large (
      rw append_assoc (
        read_digits-print_fuel f (n / 10) ((b'0' + n % 10) ∷ rest) (ground arith)
        ∙ read_digits-digit (n / 10) (n % 10) rest (omega arith)
        ∙ ap (λ k. read_digits k rest) (omega arith)))
]

read_digits-NoDigit :
    (value : ℕ) (rest : List ℕ) → NoDigit rest → read_digits value rest ≡ (value, rest)
unfolding read_digits
read_digits-NoDigit value [] h = refl
read_digits-NoDigit value (c ∷ cs) h = rw h refl

-- What is printed is read back, up to the first byte that is no digit.
pub read_digits-print :
    (n : ℕ) (rest : List ℕ) → NoDigit rest → read_digits 0 (print n ++ rest) ≡ (n, rest)
unfolding print
read_digits-print n rest h =
    read_digits-print_fuel (suc n) n rest (omega arith) ∙ read_digits-NoDigit n rest h

-- A digit that follows becomes the last digit of what is read.
pub read_digits-print_digit :
    (n d : ℕ) (rest : List ℕ)
    → d < 10
    → read_digits 0 (print n ++ (b'0' + d) ∷ rest) ≡ read_digits (n * 10 + d) rest
unfolding print
read_digits-print_digit n d rest h =
    read_digits-print_fuel (suc n) n ((b'0' + d) ∷ rest) (omega arith)
    ∙ read_digits-digit n d rest h

pub read_digits-le : (value : ℕ) (rest : List ℕ) → value ≤ (read_digits value rest).0
unfolding read_digits
read_digits-le value [] = omega arith
read_digits-le value (c ∷ cs) = ground (arith, read_digits-le (value * 10 + (c - b'0')) cs)

-- A printed number starts with a digit.
print_fuel-head :
    (f n : ℕ) → n < f → (d : ℕ) × (ds : List ℕ) × (d < 10) × (print_fuel f n ≡ (b'0' + d) ∷ ds)
unfolding print_fuel
print_fuel-head zero n h = elim h [ ]
print_fuel-head (suc f) n h = elim (Bool-cases (ltb n 10)) [
  | inl small ↦ (n, [], ground arith, rw small refl)
  | inr large ↦
      let (d, ds, lt, e) = print_fuel-head f (n / 10) (ground arith) in
      (d, ds ++ (b'0' + n % 10) ∷ [], lt, rw (large, e) refl)
]

pub print-head : (n : ℕ) → (d : ℕ) × (ds : List ℕ) × (d < 10) × (print n ≡ (b'0' + d) ∷ ds)
unfolding print
print-head n = print_fuel-head (suc n) n (omega arith)

-- A status code is printed in three digits.
abbrev pub three_digits : ℕ → List ℕ
three_digits n = (b'0' + n / 100) ∷ (b'0' + n / 10 % 10) ∷ (b'0' + n % 10) ∷ []

print_fuel-three :
    (f n : ℕ) → 100 ≤ n → n < 1000 → print_fuel (suc (suc (suc f))) n ≡ three_digits n
unfolding print_fuel
print_fuel-three f n lo hi =
    let e₁ : ltb n 10 ≡ false = ground arith in
    let e₂ : ltb (n / 10) 10 ≡ false = ground arith in
    let e₃ : ltb (n / 10 / 10) 10 ≡ true = ground arith in
    let e₄ : n / 10 / 10 ≡ n / 100 = omega arith in rw (e₁, e₂, e₃, e₄) refl

pub print-three : (n : ℕ) → 100 ≤ n → n < 1000 → print n ≡ three_digits n
unfolding print
print-three zero lo hi = absurd (omega arith)
print-three (suc zero) lo hi = absurd (omega arith)
print-three (suc (suc k)) lo hi = print_fuel-three k (suc (suc k)) lo hi
