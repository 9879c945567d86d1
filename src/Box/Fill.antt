-- ===== src/Box/Fill.antt =====
-- The directories of a box: Box::recursiveDirectoryFill and the constructor, and the watches of Box::run.
pub mod Found
use flocksy.Prelude.{
  ℕ, Bool, true, false, ◌||◌, List, [], ◌∷◌, ◌++◌, length, if◌then◌else◌, ◌==◌, Result, ok, ◌>>=◌,
}
use flocksy.Hash.{Hash, get_string}
use flocksy.HashTree.Build.{Pointer, HashTree, make_hash_tree}
use flocksy.Directory.{has_key, insert_entry}

-- A directory that has been filled: its path, its hash, and the directories in it.
mutual
  pub data Folder : Type 0 where
    folder : List ℕ → Hash → Folders → Folder

  pub data Folders : Type 0 where
    empty : Folders
    and : Folder → Folders → Folders

-- The members that the constructor fills; a Directory stands for its path.
pub record Filled : Type 0 where
  pub entries : List (List ℕ × List ℕ)
  pub hashes : List Pointer

-- Every Directory has its own hash, so the address is new.
unfoldable pub add_directory : List ℕ → Hash → Filled → Filled
add_directory path hash s = record {
  entries = insert_entry (get_string hash) path s.entries;
  hashes = s.hashes ++ (record { address = length s.hashes; hash = hash } ∷ []);
}

unfoldable mutual
  pub fill_folder : Folder → Filled → Filled
  fill_folder (folder path hash dirs) s = recursive_directory_fill dirs (add_directory path hash s)

  pub recursive_directory_fill : Folders → Filled → Filled
  recursive_directory_fill empty s = s
  recursive_directory_fill (and f dirs) s = recursive_directory_fill dirs (fill_folder f s)

-- Box::Box: the members before the tree is built.
unfoldable pub fill_box : Folder → Filled
fill_box base_dir = fill_folder base_dir (record { entries = []; hashes = [] })

unfoldable pub box_tree : (List ℕ → List ℕ) → Folder → Result HashTree
box_tree generichash base_dir = make_hash_tree generichash (fill_box base_dir).hashes

-- The watches of run, for what inotify_add_watch gives: the same number again for a path that is watched.
unfoldable pub has_wd : ℕ → List (ℕ × List ℕ) → Bool
has_wd wd [] = false
has_wd wd ((k, path) ∷ more) = k == wd || has_wd wd more

unfoldable pub add_watches :
    (List ℕ → ℕ) → List (List ℕ × List ℕ) → List (ℕ × List ℕ) → List (ℕ × List ℕ)
add_watches inotify_add_watch [] watches = watches
add_watches inotify_add_watch ((key, path) ∷ more) watches =
    let wd = inotify_add_watch path in
    add_watches inotify_add_watch more
      (if has_wd wd watches then watches else watches ++ ((wd, path) ∷ []))
