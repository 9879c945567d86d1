-- ===== src/Box/Kinds.antt =====
-- Which status code the box gives to each kind of event.
use flocksy.Prelude.{
  ℕ, ◌+◌, ◌^◌, ◌≡◌, refl, Bool, true, false, List, [], ◌∷◌, ok, fault, undefined, if◌then◌else◌,
}
use flocksy.Box.Watch.{Box, status_of_mask, send_event, box_message}

-- The events that inotify_add_watch is called for (F_IN_EVENT_MASK), and the two that the kernel
-- adds by itself.
pub data Kind : Type 0 where
  modify attrib moved_from moved_to create delete delete_self move_self unmount ignored : Kind

abbrev pub bit_of : Kind → ℕ
bit_of modify = 2 ^ 1
bit_of attrib = 2 ^ 2
bit_of moved_from = 2 ^ 6
bit_of moved_to = 2 ^ 7
bit_of create = 2 ^ 8
bit_of delete = 2 ^ 9
bit_of delete_self = 2 ^ 10
bit_of move_self = 2 ^ 11
bit_of unmount = 2 ^ 13
bit_of ignored = 2 ^ 15

-- The mask of an event, which may be about a directory (IN_ISDIR).
abbrev pub mask_of : Kind → Bool → ℕ
mask_of k is_dir = bit_of k + (if is_dir then 2 ^ 30 else 0)

abbrev pub Reports : Box → List ℕ → List ℕ → Kind → ℕ → Type 0
Reports b dir_path name modify mask =
    send_event b mask dir_path name ≡ ok (box_message b 300 mask dir_path name ∷ [])
Reports b dir_path name move_self mask =
    send_event b mask dir_path name ≡ ok (box_message b 300 mask dir_path name ∷ [])
Reports b dir_path name create mask =
    send_event b mask dir_path name ≡ ok (box_message b 320 mask dir_path name ∷ [])
Reports b dir_path name attrib mask =
    send_event b mask dir_path name ≡ ok (box_message b 320 mask dir_path name ∷ [])
Reports b dir_path name delete mask =
    send_event b mask dir_path name ≡ ok (box_message b 320 mask dir_path name ∷ [])
Reports b dir_path name delete_self mask = send_event b mask dir_path name ≡ ok []
Reports b dir_path name other mask = send_event b mask dir_path name ≡ fault undefined

-- Whatever directory and name an event is about, and whether it is about a directory: a modified
-- file and a moved watched directory are sent as 300; a created, deleted or otherwise changed one as 320; the
-- deletion of a watched directory is not sent; and for a file that is moved away or moved in, for an unmounted
-- file system, and for the end of a watch, the status is never set before it is used.
pub send_event-Reports :
    (b : Box) (dir_path name : List ℕ) (k : Kind) (is_dir : Bool)
    → Reports b dir_path name k (mask_of k is_dir)
unfolding send_event status_of_mask
send_event-Reports b dir_path name modify true = refl
send_event-Reports b dir_path name modify false = refl
send_event-Reports b dir_path name attrib true = refl
send_event-Reports b dir_path name attrib false = refl
send_event-Reports b dir_path name moved_from true = refl
send_event-Reports b dir_path name moved_from false = refl
send_event-Reports b dir_path name moved_to true = refl
send_event-Reports b dir_path name moved_to false = refl
send_event-Reports b dir_path name create true = refl
send_event-Reports b dir_path name create false = refl
send_event-Reports b dir_path name delete true = refl
send_event-Reports b dir_path name delete false = refl
send_event-Reports b dir_path name delete_self true = refl
send_event-Reports b dir_path name delete_self false = refl
send_event-Reports b dir_path name move_self true = refl
send_event-Reports b dir_path name move_self false = refl
send_event-Reports b dir_path name unmount true = refl
send_event-Reports b dir_path name unmount false = refl
send_event-Reports b dir_path name ignored true = refl
send_event-Reports b dir_path name ignored false = refl
