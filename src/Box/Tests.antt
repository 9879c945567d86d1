-- ===== src/Box/Tests.antt =====
-- The theorems about a box at one with two directories.
use flocksy.Prelude.{ℕ, ◌≡◌, refl, All, false, List, [], ◌∷◌, none, some, ok, replicate, arith}
use flocksy.Box.Inotify.{InotifyEvent, s_recv_in}
use flocksy.Box.Watch.{Box, get_path_of_directory, status_of_mask, box_round}
use flocksy.Box.Fill.{Folder, folder, empty, and, fill_box, fill_folder, add_directory}
use flocksy.Box.Fill.Found.{look_up, directories, fill_box-first}
use flocksy.Directory.{has_key}
use flocksy.Bytes.{bytes_eq}
use flocksy.Hash.{from_bytes, get_string, hex}
use flocksy.Box.Kinds.{Kind, mask_of, Reports, send_event-Reports}
use flocksy.Box.Reading.{IsPlain, handled}
use flocksy.Box.Delivery.{IsReported, Understood, box_round-first_event, event_delivered}

abbrev sample_box : Box
sample_box = record {
  path = b'/' ∷ b'b' ∷ [];
  watch_descriptors = (1, b'/' ∷ b'b' ∷ []) ∷ (2, b'/' ∷ b'b' ∷ b'/' ∷ b's' ∷ []) ∷ [];
  box_hash = replicate 64 200;
}

-- The file x of the directory s is modified.
abbrev modified : InotifyEvent
modified = record { mask = 2; wd = 2; name = b'x' ∷ [] }

abbrev created : InotifyEvent
created = record { mask = 256; wd = 1; name = b'y' ∷ [] }

modified-IsPlain : IsPlain modified
modified-IsPlain = (omega arith, omega arith, omega arith, ((omega arith, refl), tt))

modified-IsReported : IsReported sample_box modified (b'/' ∷ b's' ∷ []) 300
unfolding get_path_of_directory status_of_mask
modified-IsReported =
    (refl, refl, refl, omega arith, ((omega arith, refl), ((omega arith, refl), tt)), refl, refl)

send_event-Reports_example :
    Reports sample_box [] (b'x' ∷ []) Kind.moved_to (mask_of Kind.moved_to false)
send_event-Reports_example = send_event-Reports sample_box [] (b'x' ∷ []) Kind.moved_to false

box_round-first_event_example :
    box_round sample_box (0, 0) (s_recv_in (some (modified ∷ created ∷ [])) none none)
    ≡ handled sample_box modified
box_round-first_event_example =
    box_round-first_event sample_box (0, 0) modified (created ∷ []) modified-IsPlain

event_delivered_example :
    (message : List ℕ) × (box_round sample_box (0, 0) (s_recv_in (some (modified ∷ [])) none none)
      ≡ ok (some (3, 2, message ∷ [])))
    × Understood sample_box modified (b'/' ∷ b's' ∷ []) 300 (0, 0) message
event_delivered_example =
    event_delivered sample_box (0, 0) (0, 0) modified (b'/' ∷ b's' ∷ []) 300 modified-IsPlain
      modified-IsReported

-- Two directories of the same hash in one.
abbrev twins : Folder
twins = folder (b'/' ∷ b'b' ∷ []) (from_bytes (1 ∷ [])) (
    and (folder (b'x' ∷ []) (from_bytes (2 ∷ [])) empty)
      (and (folder (b'y' ∷ []) (from_bytes (2 ∷ [])) empty) empty))

fill_box-first_example :
    ((key : List ℕ) → look_up key (fill_box twins).entries ≡ look_up key (directories twins))
    × All (λ e. look_up e.0 (directories twins) ≡ some e.1) (fill_box twins).entries
fill_box-first_example = fill_box-first twins

-- Only one of them has an entry.
twins-entries :
    (fill_box twins).entries
    ≡ (get_string (from_bytes (1 ∷ [])), b'/' ∷ b'b' ∷ [])
      ∷ (get_string (from_bytes (2 ∷ [])), b'x' ∷ [])
      ∷ []
unfolding fill_box fill_folder add_directory has_key bytes_eq get_string hex
twins-entries = refl
