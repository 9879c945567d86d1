-- ===== src/Directory/Text.antt =====
-- The string that stands for a file in a directory.
use flocksy.Prelude.{
  ℕ, zero, suc, lt→ltb, ◌+◌, ◌-◌, ◌<◌, ◌≡◌, ◌≢◌, ◌↔◌, refl, sym, ap, ◌∙◌, true, false, List, [],
  ◌∷◌, ◌++◌, some, ok, fault, out_of_range, ◌>>=◌, ◌==◌, ltb, length, length-append, drop,
  drop-append, All, arith,
}
use flocksy.Stream.Decimal.{print, read_digits, read_digits-print}
use flocksy.Directory.{
  Entries, SymlinkHandling, follow, Filling, relative_file_path, string_to_hash,
  process_regular_file_entry, process_entry_itself, process_directory_entry,
}

-- A file that stands in the directory, as a path.
abbrev pub IsEntry : Entries → List ℕ → List ℕ → Type 0
IsEntry fs root file =
    (file ≡ root ++ (b'/' ∷ fs.filename file)) × All (λ c. (c == b'/') ≡ false) (fs.filename file)

relative_file_path-entry :
    (fs : Entries) (root file : List ℕ)
    → file ≡ root ++ (b'/' ∷ fs.filename file)
    → relative_file_path fs root file ≡ ok (b'/' ∷ [])
unfolding relative_file_path
relative_file_path-entry fs root file e =
    let name = fs.filename file in
    let total : length file ≡ length root + suc (length name) =
      ap length e ∙ length-append root (b'/' ∷ name) in
    let inside : ltb (length file) (length root) ≡ false = ground arith in
    let inside' : ltb (length file - length name) (length root) ≡ false = ground arith in
    let count : length file - length name - length root ≡ 1 = omega arith in
    let behind : drop (length root) file ≡ b'/' ∷ name =
      ap (drop (length root)) e ∙ drop-append root (b'/' ∷ name) in
    rw (inside, inside') (rw (count, behind) refl)

pub string_to_hash-entry :
    (fs : Entries) (root file : List ℕ)
    → file ≡ root ++ (b'/' ∷ fs.filename file)
    → string_to_hash fs root file
      ≡ ok (fs.filename file ++ (b'/' ∷ print (fs.last_write_time file)))
unfolding string_to_hash
string_to_hash-entry fs root file e = rw (relative_file_path-entry fs root file e) refl

no_slash : (c : ℕ) → (c == b'/') ≡ false → b'/' ≢ c
no_slash c h = ground arith

heads_same : {x y : ℕ} {xs ys : List ℕ} → x ∷ xs ≡ y ∷ ys → x ≡ y
heads_same e = cc

tails_same : {x y : ℕ} {xs ys : List ℕ} → x ∷ xs ≡ y ∷ ys → xs ≡ ys
tails_same e = cc

ok-injective : {xs ys : List ℕ} → ok xs ≡ ok ys → xs ≡ ys
ok-injective e = cc

-- What stands before the first slash.
slash-injective :
    (xs ys us vs : List ℕ)
    → All (λ c. (c == b'/') ≡ false) xs
    → All (λ c. (c == b'/') ≡ false) ys
    → xs ++ (b'/' ∷ us) ≡ ys ++ (b'/' ∷ vs)
    → (xs ≡ ys) × (us ≡ vs)
slash-injective [] [] us vs hx hy e = (refl, tails_same e)
slash-injective [] (y ∷ ys) us vs hx (h, hy) e = absurd (no_slash y h (heads_same e))
slash-injective (x ∷ xs) [] us vs (h, hx) hy e = absurd (no_slash x h (heads_same (sym e)))
slash-injective (x ∷ xs) (y ∷ ys) us vs (h, hx) (k, hy) e =
    let first : x ≡ y = heads_same e in
    let rest = slash-injective xs ys us vs hx hy (tails_same e) in (λ i. first i ∷ rest.0 i, rest.1)

print-injective : (m n : ℕ) → print m ≡ print n → m ≡ n
print-injective m n e =
    ap (λ (r : ℕ × List ℕ). r.0)
      (sym (read_digits-print m [] tt)
        ∙ ap (λ xs. read_digits 0 (xs ++ [])) e
        ∙ read_digits-print n [] tt)

-- Two files that stand in one directory have the same string to hash exactly when they have the same name and the
-- same time: the size and what is in them make no difference.
pub string_to_hash_iff :
    (fs : Entries) (root f g : List ℕ)
    → IsEntry fs root f
    → IsEntry fs root g
    → (string_to_hash fs root f ≡ string_to_hash fs root g)
      ↔ ((fs.filename f ≡ fs.filename g) × (fs.last_write_time f ≡ fs.last_write_time g))
string_to_hash_iff fs root f g (pf, nf) (pg, ng) =
    rw (string_to_hash-entry fs root f pf, string_to_hash-entry fs root g pg)
      (
        λ e.
            let parts =
              slash-injective (fs.filename f) (fs.filename g) (print (fs.last_write_time f))
                (print (fs.last_write_time g)) nf ng (ok-injective e) in
            (parts.0, print-injective (fs.last_write_time f) (fs.last_write_time g) parts.1),
        λ h i. ok (h.0 i ++ (b'/' ∷ print (h.1 i))),
      )

-- A path that is no link is processed the same however many links may follow.
pub process_directory_entry-itself :
    (generichash : List ℕ → List ℕ) (fs : Entries) (links : ℕ) (symlinks : SymlinkHandling)
    (root entry : List ℕ) (s : Filling)
    → (fs.symlink_status entry == 4) ≡ false
    → process_directory_entry generichash fs links symlinks root entry s
      ≡ (process_entry_itself generichash fs symlinks root entry s >>= λ s'. ok (some s'))
unfolding process_directory_entry
process_directory_entry-itself generichash fs zero symlinks root entry s h = rw h refl
process_directory_entry-itself generichash fs (suc links) symlinks root entry s h = rw h refl

pub short-out_of_range :
    (generichash : List ℕ → List ℕ) (fs : Entries) (root target : List ℕ) (s : Filling)
    → (fs.symlink_status target == 4) ≡ false
    → fs.is_directory target ≡ false
    → fs.is_regular_file target ≡ true
    → length target < length root
    → process_entry_itself generichash fs follow root target s ≡ fault out_of_range
unfolding process_entry_itself process_regular_file_entry string_to_hash relative_file_path
short-out_of_range generichash fs root target s no_link no_dir regular short =
    rw (no_link, no_dir, regular) (rw (lt→ltb (length target) (length root) short) refl)
