-- ===== src/Box/Fill/Found.antt =====
-- Which directories of a box are found by their hashes, and so watched.
use flocksy.Prelude.{
  ℕ, ◌≡◌, refl, sym, ap, ◌∙◌, subst, true, false, Bool-cases, inl, inr, List, [], ◌∷◌, ◌++◌,
  append_assoc, append-nil, Option, none, some, if◌then◌else◌, All, All-push, All-weaken,
}
use flocksy.Bytes.{bytes_eq, bytes_eq_iff}
use flocksy.Hash.{get_string}
use flocksy.Directory.{has_key, insert_entry}
use flocksy.Box.Fill.{
  Folder, Folders, folder, empty, and, Filled, add_directory, fill_folder, recursive_directory_fill,
  fill_box,
}

-- The path of the first directory with a hash.
unfoldable pub look_up : List ℕ → List (List ℕ × List ℕ) → Option (List ℕ)
look_up key [] = none
look_up key ((k, path) ∷ more) =
    let rest = look_up key more in if bytes_eq key k then some path else rest

-- All directories of a box with the text of their hashes: a directory stands before those in it.
unfoldable mutual
  pub directories : Folder → List (List ℕ × List ℕ)
  directories (folder path hash dirs) = (get_string hash, path) ∷ all_directories dirs

  pub all_directories : Folders → List (List ℕ × List ℕ)
  all_directories empty = []
  all_directories (and f dirs) = directories f ++ all_directories dirs

look_up-other :
    (key k path : List ℕ) (m r : List (List ℕ × List ℕ))
    → bytes_eq key k ≡ false
    → look_up key (m ++ ((k, path) ∷ r)) ≡ look_up key (m ++ r)
unfolding look_up
look_up-other key k path [] r h = rw h refl
look_up-other key k path ((a, p) ∷ m) r h = rw (look_up-other key k path m r h) refl

look_up-again :
    (key k path : List ℕ) (m r : List (List ℕ × List ℕ))
    → has_key k m ≡ true
    → look_up key (m ++ ((k, path) ∷ r)) ≡ look_up key (m ++ r)
unfolding look_up has_key
look_up-again key k path [] r h = cc
look_up-again key k path ((a, p) ∷ m) r h = elim (Bool-cases (bytes_eq key a)) [
  | inl e ↦ rw e refl
  | inr e ↦ elim (Bool-cases (bytes_eq k a)) [
    | inl f ↦
        let same : k ≡ a = (bytes_eq_iff k a).0 f in
        let other : bytes_eq key k ≡ false = subst (λ z. bytes_eq key z ≡ false) (sym same) e in
        rw e (look_up-other key k path m r other)
    | inr f ↦ rw e (look_up-again key k path m r (rw f at h))
  ]
]

insert_entry-look_up :
    (key k path : List ℕ) (m r : List (List ℕ × List ℕ))
    → look_up key (insert_entry k path m ++ r) ≡ look_up key (m ++ ((k, path) ∷ r))
insert_entry-look_up key k path m r = elim (Bool-cases (has_key k m)) [
  | inl h ↦ rw h (sym (look_up-again key k path m r h))
  | inr h ↦ rw h (ap (look_up key) (append_assoc m ((k, path) ∷ []) r))
]

mutual
  unfolding directories fill_folder add_directory

  fill_folder-look_up :
      (key : List ℕ) (f : Folder) (s : Filled) (r : List (List ℕ × List ℕ))
      → look_up key ((fill_folder f s).entries ++ r)
        ≡ look_up key (s.entries ++ (directories f ++ r))
  fill_folder-look_up key (folder path hash dirs) s r =
      recursive_directory_fill-look_up key dirs (add_directory path hash s) r
      ∙ insert_entry-look_up key (get_string hash) path s.entries (all_directories dirs ++ r)

  recursive_directory_fill-look_up :
      (key : List ℕ) (dirs : Folders) (s : Filled) (r : List (List ℕ × List ℕ))
      → look_up key ((recursive_directory_fill dirs s).entries ++ r)
        ≡ look_up key (s.entries ++ (all_directories dirs ++ r))
  recursive_directory_fill-look_up key empty s r = refl
  recursive_directory_fill-look_up key (and f dirs) s r =
      recursive_directory_fill-look_up key dirs (fill_folder f s) r
      ∙ fill_folder-look_up key f s (all_directories dirs ++ r)
      ∙ ap (λ xs. look_up key (s.entries ++ xs))
          (sym (append_assoc (directories f) (all_directories dirs) r))

-- Each entry is what is found by its hash.
AreFound : List (List ℕ × List ℕ) → Type 0
AreFound m = All (λ e. look_up e.0 m ≡ some e.1) m

look_up-front :
    (key path : List ℕ) (m r : List (List ℕ × List ℕ))
    → look_up key m ≡ some path
    → look_up key (m ++ r) ≡ some path
unfolding look_up
look_up-front key path [] r h = cc
look_up-front key path ((a, p) ∷ m) r h = elim (Bool-cases (bytes_eq key a)) [
  | inl e ↦ rw e (rw e at h)
  | inr e ↦ rw e (look_up-front key path m r (rw e at h))
]

look_up-new :
    (key path : List ℕ) (m r : List (List ℕ × List ℕ))
    → has_key key m ≡ false
    → look_up key (m ++ ((key, path) ∷ r)) ≡ some path
unfolding look_up has_key
look_up-new key path [] r h = rw ((bytes_eq_iff key key).1 refl) refl
look_up-new key path ((a, p) ∷ m) r h = elim (Bool-cases (bytes_eq key a)) [
  | inl e ↦ absurd (true-false (rw e at h))
  | inr e ↦ rw e (look_up-new key path m r (rw e at h))
]
  where
    true-false : true ≡ false → ⊥
    true-false e = cc

insert_entry-AreFound :
    (key path : List ℕ) (m : List (List ℕ × List ℕ))
    → AreFound m
    → AreFound (insert_entry key path m)
unfolding AreFound
insert_entry-AreFound key path m h = elim (Bool-cases (has_key key m)) [
  | inl e ↦ rw e h
  | inr e ↦
      let longer = m ++ ((key, path) ∷ []) in
      rw e (
        All-push (λ x. look_up x.0 longer ≡ some x.1) m (key, path)
          (All-weaken (λ x. look_up x.0 m ≡ some x.1) (λ x. look_up x.0 longer ≡ some x.1) m
            (λ x. look_up-front x.0 x.1 m ((key, path) ∷ [])) h)
          (look_up-new key path m [] e))
]

mutual
  unfolding fill_folder add_directory

  fill_folder-AreFound :
      (f : Folder) (s : Filled) → AreFound s.entries → AreFound (fill_folder f s).entries
  fill_folder-AreFound (folder path hash dirs) s h =
      recursive_directory_fill-AreFound dirs (add_directory path hash s)
        (insert_entry-AreFound (get_string hash) path s.entries h)

  recursive_directory_fill-AreFound :
      (dirs : Folders) (s : Filled)
      → AreFound s.entries
      → AreFound (recursive_directory_fill dirs s).entries
  recursive_directory_fill-AreFound empty s h = h
  recursive_directory_fill-AreFound (and f dirs) s h =
      recursive_directory_fill-AreFound dirs (fill_folder f s) (fill_folder-AreFound f s h)

-- The entries of a box find by any key the first directory whose hash has this text, of all directories in the order in
-- which they are visited; and every entry is such a first directory.
pub fill_box-first :
    (root : Folder)
    → ((key : List ℕ) → look_up key (fill_box root).entries ≡ look_up key (directories root))
      × All (λ e. look_up e.0 (directories root) ≡ some e.1) (fill_box root).entries
unfolding fill_box AreFound
fill_box-first root =
    let start : Filled = record { entries = []; hashes = [] } in
    let filled = fill_folder root start in
    let found : (key : List ℕ) → look_up key filled.entries ≡ look_up key (directories root) =
      λ key.
        subst (λ xs. look_up key xs ≡ look_up key (directories root ++ []))
          (append-nil filled.entries) (fill_folder-look_up key root start [])
        ∙ ap (look_up key) (append-nil (directories root)) in
    (
      found,
      All-weaken (λ e. look_up e.0 filled.entries ≡ some e.1)
          (λ e. look_up e.0 (directories root) ≡ some e.1) filled.entries
          (λ e h. sym (found e.0) ∙ h) (fill_folder-AreFound root start tt),
    )
