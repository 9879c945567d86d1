-- ===== src/Directory/Order.antt =====
-- The hash of a directory does not depend on the order in which its entries are listed.
use flocksy.Prelude.{
  ℕ, ◌≡◌, refl, sym, ap, ◌∙◌, subst, Bool, false, ◌&&◌, not, Bool-cases, inl, inr, List, [], ◌∷◌,
  ◌++◌, append_assoc, append-nil, map, Option, none, some, Result, ok, fault, ◌>>=◌, if◌then◌else◌,
  ◌==◌, length, All,
}
use mathlib.Core.List.{Perm, Permᴰ, Perm-prop, perm_append_comm}
use mathlib.Core.List.Perm
use mathlib.Core.Logic.{∥∥₁_elim}
use flocksy.Stream.Decimal.{print}
use flocksy.Hash.{Hash, make_hash, get_string}
use flocksy.HashTree.Build.{Pointer, HashTree, make_hash_tree}
use flocksy.HashTree.Sort.Order.{IsSetHash}
use flocksy.HashTree.Build.Tree.{hash_of}
use flocksy.HashTree.Build.Root.{make_hash_tree-Perm}
use flocksy.Directory.{
  Entries, SymlinkHandling, Directory, Filling, insert_entry, process_regular_file_entry,
  process_entry_itself, process_directory_entry, process_entries, filled, fill_directory,
}
use flocksy.Directory.Numbered.{Numbered, Numbered-push, map-push}
use flocksy.Directory.Text.{string_to_hash-entry, process_directory_entry-itself}

-- The tree and the hash of a filled directory.
abbrev pub hashed : Result (Option (Directory × List (List ℕ))) → Result (Option (HashTree × Hash))
hashed result = result >>= λ o. elim o [
  | none ↦ ok none
  | some (d, dirs) ↦ ok (some (d.hash_tree, d.directory_hash))
]

module _ (generichash : List ℕ → List ℕ) (fs : Entries) where
  -- The hash of a file.
  abbrev file_hash : List ℕ → Hash
  file_hash file =
      make_hash generichash (fs.filename file ++ (b'/' ∷ print (fs.last_write_time file)))

  is_file : List ℕ → Bool
  is_file entry = not (fs.is_directory entry) && fs.is_regular_file entry

  hash_if_file : List ℕ → List Hash
  unfolding is_file
  hash_if_file entry = if is_file entry then file_hash entry ∷ [] else []

  -- The hashes of the files among some entries.
  file_hashes : List (List ℕ) → List Hash
  unfolding hash_if_file
  file_hashes [] = []
  file_hashes (entry ∷ more) = hash_if_file entry ++ file_hashes more

  -- No entry is a link, and every one stands in the directory.
  abbrev pub ArePlain : List ℕ → List (List ℕ) → Type 0
  ArePlain root = All λ entry.
      ((fs.symlink_status entry == 4) ≡ false) × (entry ≡ root ++ (b'/' ∷ fs.filename entry))

  abbrev Processed : List (List ℕ) → Filling → Result (Option Filling) → Type 0
  Processed entries s result =
      (s' : Filling) × (result ≡ ok (some s'))
      × (map hash_of s'.temp_hashes ≡ map hash_of s.temp_hashes ++ file_hashes entries)
      × (Numbered s.temp_hashes → Numbered s'.temp_hashes)

  process_regular-ok :
      (root file : List ℕ) (s : Filling)
      → file ≡ root ++ (b'/' ∷ fs.filename file)
      → process_regular_file_entry generichash fs root file s
        ≡ ok (record s {
          temp_hashes =
              s.temp_hashes
              ++ (record { address = length s.temp_hashes; hash = file_hash file } ∷ []);
          entries = insert_entry (get_string (file_hash file)) file s.entries;
        })
  unfolding process_regular_file_entry
  process_regular-ok root file s stands = rw (string_to_hash-entry fs root file stands) refl

  process_entry-Processed :
      (links : ℕ) (symlinks : SymlinkHandling) (root entry : List ℕ) (s : Filling)
      → ArePlain root (entry ∷ [])
      → Processed
          (entry ∷ [])
          s
          (process_directory_entry generichash fs links symlinks root entry s)
  unfolding file_hashes hash_if_file process_entry_itself is_file
  process_entry-Processed links symlinks root entry s ((no_link, stands), _) =
      rw (process_directory_entry-itself generichash fs links symlinks root entry s no_link) (
        rw no_link (elim (Bool-cases (fs.is_directory entry)) [
          | inl dir ↦ rw dir (_, refl, sym (append-nil (map hash_of s.temp_hashes)), λ n. n)
          | inr no_dir ↦ elim (Bool-cases (fs.is_regular_file entry)) [
            | inl regular ↦
                rw (no_dir, regular)
                  (rw (process_regular-ok root entry s stands) (
                    _,
                    refl,
                    map-push hash_of s.temp_hashes _,
                    λ n. Numbered-push s.temp_hashes _ n,
                  ))
            | inr special ↦
                rw (no_dir, special) (s, refl, sym (append-nil (map hash_of s.temp_hashes)), λ n. n)
          ]
        ]))

  pub process_directory_entry-plain :
      (links : ℕ) (symlinks : SymlinkHandling) (root entry : List ℕ) (s : Filling)
      → ArePlain root (entry ∷ [])
      → (s' : Filling) × (process_directory_entry generichash fs links symlinks root entry s
          ≡ ok (some s'))
  process_directory_entry-plain links symlinks root entry s h =
      let (s', made, _, _) = process_entry-Processed links symlinks root entry s h in (s', made)

  process_entries-Processed :
      (links : ℕ) (symlinks : SymlinkHandling) (root : List ℕ) (entries : List (List ℕ))
      (s : Filling)
      → ArePlain root entries
      → Processed entries s (process_entries generichash fs links symlinks root entries s)
  unfolding process_entries file_hashes
  process_entries-Processed links symlinks root [] s h =
      (s, refl, sym (append-nil (map hash_of s.temp_hashes)), λ n. n)
  process_entries-Processed links symlinks root (entry ∷ more) s (h, hs) =
      let (s₁, made, hashes, numbered) =
        process_entry-Processed links symlinks root entry s (h, tt) in
      let (s₂, made', hashes', numbered') =
        process_entries-Processed links symlinks root more s₁ hs in
      (
        s₂,
        rw made made',
        hashes'
            ∙ ap (λ hs'. hs' ++ file_hashes more)
                (hashes
                  ∙ ap (λ h'. map hash_of s.temp_hashes ++ h') (append-nil (hash_if_file entry)))
            ∙ append_assoc (map hash_of s.temp_hashes) (hash_if_file entry) (file_hashes more),
        λ n. numbered' (numbered n),
      )

  Permᴰ-file_hashes : {xs ys : List (List ℕ)} → Permᴰ xs ys → Perm (file_hashes xs) (file_hashes ys)
  unfolding file_hashes
  Permᴰ-file_hashes Permᴰ.nil = Perm.rfl
  Permᴰ-file_hashes (Permᴰ.cons {a = a} {l₂ = l} e p) =
      Perm.trans (Perm.append_left (hash_if_file a) (Permᴰ-file_hashes p)) (
        subst (λ b. Perm (hash_if_file a ++ file_hashes l) (hash_if_file b ++ file_hashes l)) e
          Perm.rfl)
  Permᴰ-file_hashes (Permᴰ.swap {a = a} {b = b} {b' = d} {l = l} e f) =
      subst
        (λ c.
          Perm (hash_if_file a ++ (hash_if_file b ++ file_hashes l))
            (hash_if_file c ++ (hash_if_file d ++ file_hashes l)))
        f
        (subst
          (λ c.
            Perm (hash_if_file a ++ (hash_if_file b ++ file_hashes l))
              (hash_if_file b ++ (hash_if_file c ++ file_hashes l)))
          e (turned (hash_if_file a) (hash_if_file b) (file_hashes l)))
    where
      turned : (us vs ws : List Hash) → Perm (us ++ (vs ++ ws)) (vs ++ (us ++ ws))
      turned us vs ws =
          subst (λ zs. Perm zs (vs ++ (us ++ ws))) (append_assoc us vs ws)
            (subst (λ zs. Perm ((us ++ vs) ++ ws) zs) (append_assoc vs us ws)
              (Perm.append_right ws (perm_append_comm us vs)))
  Permᴰ-file_hashes (Permᴰ.trans p q) = Perm.trans (Permᴰ-file_hashes p) (Permᴰ-file_hashes q)

  file_hashes-Perm : (xs ys : List (List ℕ)) → Perm xs ys → Perm (file_hashes xs) (file_hashes ys)
  file_hashes-Perm xs ys p = ∥∥₁_elim p Perm-prop (λ q. Permᴰ-file_hashes q)

  file_hashes-All :
      (xs : List (List ℕ))
      → ((text : List ℕ) → length (generichash text) ≡ 64)
      → All IsSetHash (file_hashes xs)
  unfolding file_hashes hash_if_file IsSetHash
  file_hashes-All [] h = tt
  file_hashes-All (x ∷ xs) h = elim (Bool-cases (is_file x)) [
    | inl file ↦ rw file ((refl, h _), file_hashes-All xs h)
    | inr other ↦ rw other (file_hashes-All xs h)
  ]

  All-hash_of :
      (ps : List Pointer) → All IsSetHash (map hash_of ps) → All (λ p. IsSetHash p.hash) ps
  All-hash_of [] h = tt
  All-hash_of (p ∷ ps) (h, hs) = (h, All-hash_of ps hs)

  hashed-filled :
      (root : List ℕ) (d : Directory) (s s' : Filling) (tree : Result HashTree)
      → hashed (tree >>= λ t. ok (some (filled generichash fs root d s t)))
        ≡ hashed (tree >>= λ t. ok (some (filled generichash fs root d s' t)))
  hashed-filled root d s s' (ok t) = refl
  hashed-filled root d s s' (fault x) = refl

  -- For a hash function of 64 bytes and entries that are no links and stand in the directory, the order in which
  -- the entries are listed makes no difference for the tree and for the hash of the directory
  -- that fillDirectory makes.
  pub fill_directory-Perm :
      (links : ℕ) (root : List ℕ) (xs ys : List (List ℕ)) (d : Directory)
      → ((text : List ℕ) → length (generichash text) ≡ 64)
      → ArePlain root xs
      → ArePlain root ys
      → Perm xs ys
      → hashed (fill_directory generichash fs links root xs d)
        ≡ hashed (fill_directory generichash fs links root ys d)
  unfolding fill_directory Numbered
  fill_directory-Perm links root xs ys d len px py p =
      let start : Filling = record { temp_hashes = []; entries = d.entries; dirs = [] } in
      let (s, made, hashes, numbered) =
        process_entries-Processed links d.symlinks root xs start px in
      let (s', made', hashes', numbered') =
        process_entries-Processed links d.symlinks root ys start py in
      let set =
        All-hash_of s.temp_hashes (subst (All IsSetHash) (sym hashes) (file_hashes-All xs len)) in
      let set' =
        All-hash_of s'.temp_hashes (subst (All IsSetHash) (sym hashes') (file_hashes-All ys len)) in
      let same =
        make_hash_tree-Perm generichash s.temp_hashes s'.temp_hashes (numbered (tt, tt)).0
          (numbered' (tt, tt)).0 set set'
          (subst (λ zs. Perm zs (map hash_of s'.temp_hashes)) (sym hashes)
            (subst (λ zs. Perm (file_hashes xs) zs) (sym hashes') (file_hashes-Perm xs ys p))) in
      rw made
        (rw made' (rw same (hashed-filled root d s s' (make_hash_tree generichash s'.temp_hashes))))
