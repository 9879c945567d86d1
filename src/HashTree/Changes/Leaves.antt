-- ===== src/HashTree/Changes/Leaves.antt =====
-- getChangedHashes on two trees that makeHashTree built.
use flocksy.Prelude.{
  ℕ, zero, suc, ◌^◌, ◌≤◌, ◌<◌, ◌≡◌, ◌⊎◌, refl, ap, ◌∙◌, List, [], ◌∷◌, ◌++◌, map, Bool, true, false,
  not, none, some, Result, ok, Bool-cases, inl, inr, All, length, take-append, length-append, leb,
  arith,
}
use flocksy.Bytes.{bytes_eq}
use flocksy.Hash.{Hash, get_string}
use flocksy.HashTree.Sort.Order.{
  IsSetHash, IsAscending, All-sorted, sort_hashes, sort-sorted, sort_hashes-IsAscending,
}
use flocksy.HashTree.Size.Bounds.{Needs}
use flocksy.HashTree.Levels.Pairs.{levels, concat, back-append}
use flocksy.HashTree.Build.{HashTree, build, get_top_hash, check_hash_tree_change}
use flocksy.HashTree.Build.Tree.{tree_of, build-tree_of}
use flocksy.HashTree.Build.Root.{levels-Above}
use flocksy.HashTree.Changes.{front, copy_n, unique_copy, changes, get_changed_hashes}
use flocksy.HashTree.Changes.Once.{
  contains, xor, IsStrict, unique_hashes_from, unique_copy_from_unique, All-unique, contains_unique,
  unique-IsStrict, contains-sort_hashes,
}
use flocksy.HashTree.Changes.Difference.{set_symmetric_difference-Differs}

copy_n-append {ℓ} : {A : Type ℓ} (xs ys : List A) → copy_n (length xs) (xs ++ ys) ≡ ok xs
unfolding copy_n
copy_n-append xs ys =
    let enough : leb (length xs) (length (xs ++ ys)) ≡ true = ground (arith, length-append xs ys) in
    rw enough (ap ok (take-append xs ys))

-- The sorted leaves, each once.
abbrev pub Once : List Hash → Result (List Hash) → Type 0
Once leaves result =
    (us : List Hash) × (result ≡ ok us)
    × All IsSetHash us
    × IsStrict us
    × ((bytes : List ℕ) → contains bytes us ≡ contains bytes leaves)

unique_copy-Once : (xs : List Hash) → All IsSetHash xs → IsAscending xs → Once xs (unique_copy xs)
unfolding unique_copy contains
unique_copy-Once [] h a = ([], refl, tt, tt, λ bytes. refl)
unique_copy-Once (x ∷ xs) (p, h) a = (
  unique_hashes_from x xs,
  unique_copy_from_unique x xs p h,
  All-unique IsSetHash x xs p h,
  unique-IsStrict x xs p h a,
  λ bytes. contains_unique bytes x xs,
)

-- On the sorted leaves.
sorted-Once : (xs : List Hash) → All IsSetHash xs → Once xs (unique_copy (sort_hashes xs))
sorted-Once xs h =
    let sorted = sort_hashes xs in
    let (us, made, set, strict, same) =
      unique_copy-Once sorted (All-sorted (λ (x : Hash). x) IsSetHash xs h)
        (sort_hashes-IsAscending xs h) in
    (us, made, set, strict, λ bytes. same bytes ∙ contains-sort_hashes bytes xs)

module _ (generichash : List ℕ → List ℕ) where
  leaves-first :
      (e : ℕ) (xs : List Hash)
      → (zs : List Hash) × (counts : List ℕ) × (concat (levels generichash e xs) ≡ xs ++ zs)
        × (map length (levels generichash e xs) ≡ length xs ∷ counts)
  unfolding levels concat
  leaves-first zero xs = ([], [], refl, refl)
  leaves-first (suc e) xs = (_, _, refl, refl)

  changes-Differs :
      (e d : ℕ) (xs ys : List Hash)
      → All IsSetHash xs
      → All IsSetHash ys
      → (zs : List Hash) × (changes (tree_of generichash e xs) (tree_of generichash d ys) ≡ ok zs)
        × ((bytes : List ℕ) → contains bytes zs ≡ xor (contains bytes ys) (contains bytes xs))
  unfolding changes front
  changes-Differs e d xs ys hx hy =
      let (more_x, counts_x, all_x, levels_x) = leaves-first e xs in
      let (more_y, counts_y, all_y, levels_y) = leaves-first d ys in
      let (us, made_x, set_x, strict_x, same_x) = sorted-Once xs hx in
      let (vs, made_y, set_y, strict_y, same_y) = sorted-Once ys hy in
      let (zs, made, holds) =
        set_symmetric_difference-Differs vs us set_y set_x strict_y strict_x in
      (
        zs,
        rw (levels_x, levels_y, all_x, all_y)
            (rw (copy_n-append ys more_y, copy_n-append xs more_x)
              (rw (sort-sorted (λ (h : Hash). h) ys hy, sort-sorted (λ (h : Hash). h) xs hx)
                (rw (made_y, made_x) made))),
        λ bytes. holds bytes ∙ λ i. xor (same_y bytes i) (same_x bytes i),
      )

  check-ok :
      (e : ℕ) (xs : List Hash)
      → 0 < length xs
      → length xs ≤ 2 ^ e
      → Needs (length xs) e
      → (u : HashTree)
      → (changed : Bool) × (check_hash_tree_change (tree_of generichash e xs) u ≡ ok changed)
  unfolding check_hash_tree_change
  check-ok e xs p enough needs u =
      let (top, init, all, above) = levels-Above generichash e xs p enough needs in
      (
        not (bytes_eq (get_string (get_top_hash u)) (get_string top)),
        rw all (rw (back-append init top) refl),
      )

  -- What getChangedHashes says of the trees over two lists.
  abbrev pub Changes : List Hash → List Hash → HashTree → HashTree → Type 0
  Changes xs ys t u =
      ((check_hash_tree_change t u ≡ ok false) × (get_changed_hashes t u ≡ ok none))
      ⊎ ((check_hash_tree_change t u ≡ ok true)
          × (zs : List Hash) × (get_changed_hashes t u ≡ ok (some zs))
          × ((bytes : List ℕ) → contains bytes zs ≡ xor (contains bytes ys) (contains bytes xs)))

  abbrev pub Compared : List Hash → List Hash → Type 0
  Compared xs ys =
      (t : HashTree) × (u : HashTree) × (build generichash xs ≡ ok t)
      × (build generichash ys ≡ ok u)
      × Changes xs ys t u

  -- On the trees over two lists of 1 to 2 ^ 29 hashes that are set, getChangedHashes never fails: it
  -- gives false if checkHashTreeChange sees no change, and otherwise hashes among which some bytes are found
  -- exactly if they are found in one of the two lists and not in the other.
  pub get_changed_hashes-Changes :
      (xs ys : List Hash)
      → 0 < length xs
      → 0 < length ys
      → length xs ≤ 2 ^ 29
      → length ys ≤ 2 ^ 29
      → All IsSetHash xs
      → All IsSetHash ys
      → Compared xs ys
  unfolding get_changed_hashes
  get_changed_hashes-Changes xs ys px py bx by' hx hy =
      let (e, enough, needs, built) = build-tree_of generichash xs px bx in
      let (d, enough', needs', built') = build-tree_of generichash ys py by' in
      let t = tree_of generichash e xs in
      let u = tree_of generichash d ys in
      let (zs, found, holds) = changes-Differs e d xs ys hx hy in
      let (changed, checked) = check-ok e xs px enough needs u in
      (
        t,
        u,
        built,
        built',
        elim (Bool-cases changed) [
          | inl c ↦ inr (checked ∙ ap ok c, zs, rw checked (rw c (rw found refl)), holds)
          | inr c ↦ inl (checked ∙ ap ok c, rw checked (rw c refl))
        ],
      )
