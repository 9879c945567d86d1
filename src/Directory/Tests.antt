-- ===== src/Directory/Tests.antt =====
-- The theorems about a directory at one with two files and a link.
use flocksy.Prelude.{
  ℕ, zero, suc, ◌≡◌, ◌↔◌, refl, true, false, List, [], ◌∷◌, fault, out_of_range, length,
  length-replicate, replicate, drop, arith, ◌%◌,
}
use mathlib.Core.List.Perm
use flocksy.HashTree.Build.{no_tree}
use flocksy.Directory.{Entries, follow, Directory, Filling, string_to_hash, fill_directory}
use flocksy.Directory.Text.{string_to_hash_iff}
use flocksy.Directory.Links.{Leads, fill_directory-short_link}
use flocksy.Directory.Order.{hashed, fill_directory-Perm}

abbrev toy_hash : List ℕ → List ℕ
toy_hash text = replicate 64 (length text % 256)

-- The files d/x and d/yy; every other path is a link to the empty path.
abbrev toy_entries : Entries
toy_entries = record {
  symlink_status = λ path. elim path [ [] ↦ 2 | c ∷ cs ↦ elim c [ zero ↦ 4 | suc n ↦ 2 ] ];
  is_directory = λ path. false;
  is_regular_file = λ path. true;
  read_symlink = λ path. [];
  filename = λ path. drop 2 path;
  last_write_time = λ path. 1000;
}

abbrev root : List ℕ
root = b'd' ∷ []

abbrev x_file : List ℕ
x_file = b'd' ∷ b'/' ∷ b'x' ∷ []

abbrev y_file : List ℕ
y_file = b'd' ∷ b'/' ∷ b'y' ∷ b'y' ∷ []

abbrev toy_directory : Directory
toy_directory = record {
  path = [];
  entries = [];
  hash_tree = no_tree;
  directory_hash = record { bytes = []; empty = true };
  symlinks = follow;
}

abbrev nothing : Filling
nothing = record { temp_hashes = []; entries = []; dirs = [] }

string_to_hash_iff_example :
    (string_to_hash toy_entries root x_file ≡ string_to_hash toy_entries root y_file)
    ↔ (◌≡◌ {A = List ℕ} (b'x' ∷ []) (b'y' ∷ b'y' ∷ []) × ◌≡◌ {A = ℕ} 1000 1000)
string_to_hash_iff_example =
    string_to_hash_iff toy_entries root x_file y_file (refl, (refl, tt)) (refl, (refl, (refl, tt)))

fill_directory-short_link_example :
    fill_directory toy_hash toy_entries 1 root (x_file ∷ (0 ∷ []) ∷ y_file ∷ []) toy_directory
    ≡ fault out_of_range
fill_directory-short_link_example =
    fill_directory-short_link toy_hash toy_entries root [] 1 1 (x_file ∷ []) (0 ∷ []) (y_file ∷ [])
      toy_directory refl ((refl, refl), tt)
      (record { no_directory = refl; regular = refl; shorter = omega arith })
      (Leads.through 0 (0 ∷ []) [] refl (Leads.arrived [] refl)) (omega arith)

fill_directory-Perm_example :
    hashed (fill_directory toy_hash toy_entries 0 root (x_file ∷ y_file ∷ []) toy_directory)
    ≡ hashed (fill_directory toy_hash toy_entries 0 root (y_file ∷ x_file ∷ []) toy_directory)
fill_directory-Perm_example =
    fill_directory-Perm toy_hash toy_entries 0 root (x_file ∷ y_file ∷ []) (y_file ∷ x_file ∷ [])
      toy_directory (λ text. length-replicate 64 (length text % 256))
      ((refl, refl), ((refl, refl), tt)) ((refl, refl), ((refl, refl), tt))
      (Perm.swap y_file x_file [])
