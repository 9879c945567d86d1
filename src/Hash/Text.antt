-- ===== src/Hash/Text.antt =====
-- getString writes two digits for each byte, so it tells hashes apart.
use flocksy.Prelude.{ℕ, ◌/◌, ◌%◌, ◌<◌, ◌≡◌, ◌↔◌, refl, ap, false, List, [], ◌∷◌, arith, All}
use flocksy.Hash.{Hash, hex_digit, hex, get_string}

abbrev pub IsByte : ℕ → Type 0
IsByte b = b < 256

hex_digit-injective : (m n : ℕ) → m < 16 → n < 16 → hex_digit m ≡ hex_digit n → m ≡ n
hex_digit-injective m n hm hn e = ground arith

hex-injective : (xs ys : List ℕ) → All IsByte xs → All IsByte ys → hex xs ≡ hex ys → xs ≡ ys
unfolding hex
hex-injective [] [] hx hy e = refl
hex-injective [] (y ∷ ys) hx hy e = cc
hex-injective (x ∷ xs) [] hx hy e = cc
hex-injective (x ∷ xs) (y ∷ ys) (hx, hxs) (hy, hys) e =
    let high : hex_digit (x / 16) ≡ hex_digit (y / 16) = cc in
    let low : hex_digit (x % 16) ≡ hex_digit (y % 16) = cc in
    let rest : hex xs ≡ hex ys = cc in
    let h = hex_digit-injective (x / 16) (y / 16) (omega arith) (omega arith) high in
    let l = hex_digit-injective (x % 16) (y % 16) (omega arith) (omega arith) low in
    let first : x ≡ y = omega arith in let others = hex-injective xs ys hxs hys rest in cc

-- Two hashes that are not empty, of bytes below 256, have the same text exactly when they have the
-- same bytes: getString writes two digits for each byte, zeros included.
pub get_string_iff :
    (a b : Hash)
    → a.empty ≡ false
    → b.empty ≡ false
    → All IsByte a.bytes
    → All IsByte b.bytes
    → (get_string a ≡ get_string b) ↔ (a.bytes ≡ b.bytes)
unfolding get_string
get_string_iff a b fa fb ha hb = rw (fa, fb) (hex-injective a.bytes b.bytes ha hb, λ e. ap hex e)
