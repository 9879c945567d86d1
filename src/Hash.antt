-- ===== src/Hash.antt =====
-- src/hash.cpp and include/hash.hpp: a hash of 64 bytes, which may be empty, and its comparisons.
pub mod Order
pub mod Text
pub mod Comparisons
mod Tests
use flocksy.Prelude.{
  ℕ, ◌+◌, ◌-◌, ◌/◌, ◌%◌, Bool, true, false, ◌||◌, not, List, [], ◌∷◌, Result, ok, fault, ◌>>=◌,
  runtime_error, if◌then◌else◌, ltb, ◌==◌, replicate,
}
use flocksy.Bytes.{bytes_eq}

-- `bytes` is memory that is not set while `empty` is true.
pub record Hash : Type 0 where
  pub bytes : List ℕ
  pub empty : Bool

-- Hash(hash_bytes).
abbrev pub from_bytes : List ℕ → Hash
from_bytes bytes = record { bytes = bytes; empty = false }

-- Hash::makeHash and Hash(string), for the crypto_generichash of libsodium.
abbrev pub make_hash : (List ℕ → List ℕ) → List ℕ → Hash
make_hash generichash text = record { bytes = generichash text; empty = false }

-- `std::hex << std::setw(2) << std::setfill('0')` of a byte.
abbrev pub hex_digit : ℕ → ℕ
hex_digit n = if ltb n 10 then b'0' + n else b'a' + (n - 10)

unfoldable pub hex : List ℕ → List ℕ
hex [] = []
hex (b ∷ bs) = hex_digit (b / 16) ∷ (hex_digit (b % 16) ∷ hex bs)

unfoldable pub get_string : Hash → List ℕ
unfolding hex
get_string h = if h.empty then [] else hex h.bytes

-- `memcmp(a, b, n) < 0` on strings of one length.
unfoldable pub memcmp_less : List ℕ → List ℕ → Bool
memcmp_less [] ys = false
memcmp_less (x ∷ xs) [] = false
memcmp_less (x ∷ xs) (y ∷ ys) =
    let rest = memcmp_less xs ys in if ltb x y then true else if ltb y x then false else rest

-- Every comparison throws on an empty hash.
abbrev compared : Hash → Hash → Bool → Result Bool
compared a b result = if a.empty || b.empty then fault runtime_error else ok result

unfoldable pub less : Hash → Hash → Result Bool
unfolding memcmp_less
less a b = compared a b (memcmp_less a.bytes b.bytes)

unfoldable pub greater : Hash → Hash → Result Bool
unfolding less
greater a b = if a.empty || b.empty then fault runtime_error else less b a

unfoldable pub less_or_equal : Hash → Hash → Result Bool
unfolding greater
less_or_equal a b =
    if a.empty || b.empty then fault runtime_error else greater a b >>= λ result. ok (not result)

unfoldable pub greater_or_equal : Hash → Hash → Result Bool
unfolding less
greater_or_equal a b =
    if a.empty || b.empty then fault runtime_error else less a b >>= λ result. ok (not result)

unfoldable pub equal : Hash → Hash → Result Bool
unfolding bytes_eq
equal a b = compared a b (bytes_eq a.bytes b.bytes)

unfoldable pub not_equal : Hash → Hash → Result Bool
unfolding equal
not_equal a b =
    if a.empty || b.empty then fault runtime_error else equal a b >>= λ result. ok (not result)
