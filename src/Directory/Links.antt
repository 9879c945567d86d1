-- ===== src/Directory/Links.antt =====
-- What becomes of a directory with a link to a file at a short path.
use flocksy.Prelude.{
  ℕ, zero, suc, ◌≤◌, ◌<◌, ◌≡◌, refl, ap, ◌∙◌, true, false, List, [], ◌∷◌, ◌++◌, some, Result, ok,
  fault, out_of_range, ◌>>=◌, ◌==◌, length, arith,
}
use flocksy.Directory.{
  Entries, follow, Directory, Filling, process_directory_entry, process_entries, fill_directory,
}
use flocksy.Directory.Text.{process_directory_entry-itself, short-out_of_range}
use flocksy.Directory.Order.{ArePlain, process_directory_entry-plain}

-- So many links lead from a path to one that is no link.
pub data Leads (fs : Entries) : ℕ → List ℕ → List ℕ → Type 0 where
  arrived : (target : List ℕ) → (fs.symlink_status target == 4) ≡ false → Leads fs 0 target target
  through :
      (n : ℕ) (entry target : List ℕ)
      → fs.symlink_status entry ≡ 4
      → Leads fs n (fs.read_symlink entry) target
      → Leads fs (suc n) entry target

-- A regular file at a path that is shorter than that of the directory.
pub record IsShort (fs : Entries) (root target : List ℕ) : Type 0 where
  pub no_directory : fs.is_directory target ≡ false
  pub regular : fs.is_regular_file target ≡ true
  pub shorter : length target < length root

module _ (generichash : List ℕ → List ℕ) (fs : Entries) (root : List ℕ) where
  process_directory_entry-Leads :
      {n : ℕ} {entry target : List ℕ} (links : ℕ) (s : Filling)
      → Leads fs n entry target
      → IsShort fs root target
      → n ≤ links
      → process_directory_entry generichash fs links follow root entry s ≡ fault out_of_range
  unfolding process_directory_entry
  process_directory_entry-Leads links s (arrived target h) short enough =
      process_directory_entry-itself generichash fs links follow root target s h
      ∙ ap (λ (r : Result Filling). r >>= λ s'. ok (some s'))
          (short-out_of_range generichash fs root target s h short.no_directory short.regular
            short.shorter)
  process_directory_entry-Leads zero s (through n entry target link h) short enough =
      absurd (omega arith)
  process_directory_entry-Leads (suc links) s (through n entry target link h) short enough =
      let is_link : (fs.symlink_status entry == 4) ≡ true = ground arith in
      rw is_link (process_directory_entry-Leads links s h short (omega arith))

module _ (generichash : List ℕ → List ℕ) (fs : Entries) (root target : List ℕ) where
  process_entries-Leads :
      (links n : ℕ) (before : List (List ℕ)) (entry : List ℕ) (after : List (List ℕ)) (s : Filling)
      → ArePlain generichash fs root before
      → IsShort fs root target
      → Leads fs n entry target
      → n ≤ links
      → process_entries generichash fs links follow root (before ++ (entry ∷ after)) s
        ≡ fault out_of_range
  unfolding process_entries
  process_entries-Leads links n [] entry after s plain short leads enough =
      rw (process_directory_entry-Leads generichash fs root links s leads short enough) refl
  process_entries-Leads links n (x ∷ before) entry after s (h, plain) short leads enough =
      let (s₁, made) = process_directory_entry-plain generichash fs links follow root x s (h, tt) in
      rw made (process_entries-Leads links n before entry after s₁ plain short leads enough)

  -- One entry that leads, through any number of links that may be followed, to a regular file whose path, as the last
  -- link gives it, is shorter than that of the directory makes fillDirectory throw std::out_of_range: behind any
  -- entries that are no links and stand in the directory, and before any others, the whole directory is not filled.
  pub fill_directory-short_link :
      (links n : ℕ) (before : List (List ℕ)) (entry : List ℕ) (after : List (List ℕ))
      (d : Directory)
      → d.symlinks ≡ follow
      → ArePlain generichash fs root before
      → IsShort fs root target
      → Leads fs n entry target
      → n ≤ links
      → fill_directory generichash fs links root (before ++ (entry ∷ after)) d ≡ fault out_of_range
  unfolding fill_directory
  fill_directory-short_link links n before entry after d following plain short leads enough =
      let start : Filling = record { temp_hashes = []; entries = d.entries; dirs = [] } in
      rw following
        (rw (process_entries-Leads links n before entry after start plain short leads enough) refl)
