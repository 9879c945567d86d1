-- ===== src/Directory.antt =====
-- src/directory.cpp: the files of a directory, and the hash of a directory. Boost.Filesystem is a parameter; times are
-- not negative, and no operation of it throws.
pub mod Text
pub mod Numbered
pub mod Order
pub mod Links
mod Tests
use flocksy.Prelude.{
  ℕ, zero, suc, ◌+◌, ◌-◌, Bool, true, false, ◌&&◌, ◌||◌, not, List, [], ◌∷◌, ◌++◌, Option, none,
  some, Result, ok, fault, out_of_range, ◌>>=◌, if◌then◌else◌, ◌==◌, ltb, length, take, drop,
}
use flocksy.Bytes.{bytes_eq}
use flocksy.Stream.Decimal.{print}
use flocksy.Hash.{Hash, make_hash, get_string}
use flocksy.HashTree.Build.{Pointer, HashTree, no_tree, make_hash_tree, get_top_hash}

-- Boost.Filesystem.
pub record Entries : Type 0 where
  pub symlink_status : List ℕ → ℕ
  pub is_directory : List ℕ → Bool
  pub is_regular_file : List ℕ → Bool
  pub read_symlink : List ℕ → List ℕ
  pub filename : List ℕ → List ℕ
  pub last_write_time : List ℕ → ℕ

-- F_SYMLINK_HANDLING.
pub data SymlinkHandling : Type 0 where
  follow ignore copy : SymlinkHandling

abbrev pub is_follow : SymlinkHandling → Bool
is_follow follow = true
is_follow _ = false

abbrev pub is_copy : SymlinkHandling → Bool
is_copy copy = true
is_copy _ = false

pub record Directory : Type 0 where
  pub path : List ℕ
  pub entries : List (List ℕ × List ℕ)
  pub hash_tree : HashTree
  pub directory_hash : Hash
  pub symlinks : SymlinkHandling

-- What the loop of fillDirectory changes.
pub record Filling : Type 0 where
  pub temp_hashes : List Pointer
  pub entries : List (List ℕ × List ℕ)
  pub dirs : List (List ℕ)

-- `insert` of a std::unordered_map, which keeps what is there.
unfoldable pub has_key {ℓ} : {A : Type ℓ} → List ℕ → List (List ℕ × A) → Bool
has_key key [] = false
has_key key ((k, v) ∷ more) = bytes_eq key k || has_key key more

abbrev pub insert_entry {ℓ} : {A : Type ℓ} → List ℕ → A → List (List ℕ × A) → List (List ℕ × A)
insert_entry key value map = if has_key key map then map else map ++ ((key, value) ∷ [])

module _ (fs : Entries) where
  -- `substr(document_root_length, (strlen(file) - filename.length()) - document_root_length)`: the count
  -- is a size_t, so it has no end if it falls below zero.
  unfoldable pub relative_file_path : List ℕ → List ℕ → Result (List ℕ)
  relative_file_path root file =
      let front = length file - length (fs.filename file) in
      if ltb (length file) (length root)
      then fault out_of_range
      else if ltb front (length root)
      then ok (drop (length root) file)
      else ok (take (front - length root) (drop (length root) file))

  -- The string that stands for a file.
  unfoldable pub string_to_hash : List ℕ → List ℕ → Result (List ℕ)
  string_to_hash root file = relative_file_path root file >>= λ relative.
      ok (fs.filename file ++ (relative ++ print (fs.last_write_time file)))

module _ (generichash : List ℕ → List ℕ) (fs : Entries) where
  -- The address of a new Hash is one that no other has.
  unfoldable pub process_regular_file_entry : List ℕ → List ℕ → Filling → Result Filling
  process_regular_file_entry root file s = string_to_hash fs root file >>= λ text.
      let hash = make_hash generichash text in
      ok (record s {
        temp_hashes =
            s.temp_hashes ++ (record { address = length s.temp_hashes; hash = hash } ∷ []);
        entries = insert_entry (get_string hash) file s.entries;
      })

  -- The branches but the first.
  unfoldable pub process_entry_itself : SymlinkHandling → List ℕ → List ℕ → Filling → Result Filling
  process_entry_itself symlinks root entry s =
      let is_link = fs.symlink_status entry == 4 in
      let regular = process_regular_file_entry root entry s in
      if is_link && is_copy symlinks
      then regular
      else if fs.is_directory entry && not is_link
      then ok (record s { dirs = s.dirs ++ (entry ∷ []) })
      else if fs.is_regular_file entry && not is_link
      then regular
      else ok s

  -- A link may be followed so often; `none` if more links follow.
  unfoldable pub process_directory_entry :
      ℕ → SymlinkHandling → List ℕ → List ℕ → Filling → Result (Option Filling)
  process_directory_entry zero symlinks root entry s =
      if fs.symlink_status entry == 4 && is_follow symlinks
      then ok none
      else process_entry_itself symlinks root entry s >>= λ s'. ok (some s')
  process_directory_entry (suc links) symlinks root entry s =
      let followed = process_directory_entry links symlinks root (fs.read_symlink entry) s in
      if fs.symlink_status entry == 4 && is_follow symlinks
      then followed
      else process_entry_itself symlinks root entry s >>= λ s'. ok (some s')

  -- The loop of fillDirectory.
  unfoldable pub process_entries :
      ℕ → SymlinkHandling → List ℕ → List (List ℕ) → Filling → Result (Option Filling)
  process_entries links symlinks root [] s = ok (some s)
  process_entries links symlinks root (entry ∷ more) s =
      process_directory_entry links symlinks root entry s >>= λ result. elim result [
        | none ↦ ok none
        | some s' ↦ process_entries links symlinks root more s'
      ]

  -- makeDirectoryHash.
  unfoldable pub make_directory_hash : HashTree → List ℕ → Hash
  make_directory_hash tree path =
      make_hash generichash (get_string (get_top_hash tree) ++ fs.filename path)

  -- The end of fillDirectory.
  abbrev pub filled : List ℕ → Directory → Filling → HashTree → Directory × List (List ℕ)
  filled document_root d s tree = (
    record d {
      path = document_root;
      entries = s.entries;
      hash_tree = tree;
      directory_hash = make_directory_hash tree document_root;
    },
    s.dirs,
  )

  -- fillDirectory, on the entries in the order of the directory_iterator: the directory and the paths of the directories in it. A directory that is filled again
  -- keeps its old entries.
  unfoldable pub fill_directory :
      ℕ → List ℕ → List (List ℕ) → Directory → Result (Option (Directory × List (List ℕ)))
  fill_directory links document_root listed d =
      process_entries links d.symlinks document_root listed
        (record { temp_hashes = []; entries = d.entries; dirs = [] })
      >>= λ result. elim result [
        | none ↦ ok none
        | some s ↦ make_hash_tree generichash s.temp_hashes >>= λ tree.
            ok (some (filled document_root d s tree))
      ]
