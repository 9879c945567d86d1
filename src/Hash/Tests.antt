-- ===== src/Hash/Tests.antt =====
-- The theorems about hashes at two of them.
use flocksy.Prelude.{◌≡◌, ◌⊎◌, ◌↔◌, ◌||◌, refl, true, false, [], ◌∷◌, arith, All}
use flocksy.Hash.{Hash, from_bytes, get_string}
use flocksy.Hash.Text.{IsByte, get_string_iff}
use flocksy.Hash.Comparisons.{Throws, IsCompared, comparisons-agree}

abbrev first : Hash
first = from_bytes (1 ∷ 200 ∷ [])

abbrev second : Hash
second = from_bytes (16 ∷ 15 ∷ [])

first-IsByte : All IsByte first.bytes
first-IsByte = (omega arith, (omega arith, tt))

second-IsByte : All IsByte second.bytes
second-IsByte = (omega arith, (omega arith, tt))

get_string_iff_example : (get_string first ≡ get_string second) ↔ (first.bytes ≡ second.bytes)
get_string_iff_example = get_string_iff first second refl refl first-IsByte second-IsByte

comparisons-agree_example :
    (((first.empty || second.empty) ≡ true) × Throws first second)
    ⊎ ((first.empty ≡ false) × (second.empty ≡ false) × IsCompared first second)
comparisons-agree_example = comparisons-agree first second refl
