-- ===== src/Boxoffice/Office.antt =====
-- The members of Boxoffice that processEvent uses, and how a handler goes on. A file of a queue stands
-- with the address that `new` gave it.
use flocksy.Prelude.{
  ℕ, Bool, List, [], ◌∷◌, Option, none, some, Result, ok, fault, Fault, undefined, if◌then◌else◌,
}
use flocksy.Bytes.{bytes_eq}
use flocksy.Stream.{Stream}
use flocksy.File.{File}
use flocksy.FlockFsm.Types.{State, Event, Status}
use flocksy.FlockFsm.Codes.{get_event_by_status_code}
use flocksy.FlockFsm.CheckEvent.{check_event}
use flocksy.Boxoffice.Nodes.{NodeMap}

-- What is sent on z_bo_hb and on z_bo_disp.
pub data Sent : Type 0 where
  to_heartbeater to_dispatcher : List ℕ → Sent

-- `boxes` gives the base directory of a box for its hash. `current_box` is memory that is not set at
-- first. `sent` has the last message first. `disk` is the state of the file system.
pub record Office (Disk : Type 0) : Type 0 where
  pub state : State
  pub file_list_metadata : List (ℕ × File)
  pub file_list_data : List (ℕ × File)
  pub next_address : ℕ
  pub current_timing_offset : ℕ
  pub notified_dispatch : Bool
  pub current_box : Option (List ℕ)
  pub current_file : Stream
  pub file_metadata_written : Bool
  pub stop_sync_timeout_received : Bool
  pub current_node_hash : List ℕ
  pub subscribers : NodeMap
  pub boxes : List (List ℕ × List ℕ)
  pub sent : List Sent
  pub disk : Disk

-- What the clock and randombytes_uniform give in the places where processEvent asks them.
pub record Readings : Type 0 where
  pub arrival_time : ℕ
  pub send_time : ℕ
  pub send_random : ℕ
  pub stop_time : ℕ
  pub stop_random : ℕ

-- The locals of processEvent, with the members.
pub record Handling (Disk : Type 0) : Type 0 where
  pub office : Office Disk
  pub status : Status
  pub event : Event
  pub stream : Stream

-- A handler goes on, returns a number, or fails.
pub data Flow (Disk : Type 0) : Type 0 where
  going : Handling Disk → Flow Disk
  returned : ℕ → Office Disk → Flow Disk
  failed : Fault → Flow Disk

-- The next part of a handler.
abbrev pub and_then : {D : Type 0} → Flow D → (Handling D → Flow D) → Flow D
and_then (going h) k = k h
and_then (returned n o) k = returned n o
and_then (failed x) k = failed x

-- A call that may fail, in a handler.
abbrev pub call : {A D : Type 0} → Result A → (A → Flow D) → Flow D
call (ok a) k = k a
call (fault x) k = failed x

-- `boxes[hash]->getBaseDir()`: a missing box is a null pointer.
unfoldable pub base_dir : List ℕ → List (List ℕ × List ℕ) → Result (List ℕ)
base_dir hash [] = fault undefined
base_dir hash ((key, dir) ∷ boxes) = if bytes_eq key hash then ok dir else base_dir hash boxes

-- The bytes behind `current_box_`.
abbrev pub the_box : Option (List ℕ) → Result (List ℕ)
the_box none = fault undefined
the_box (some hash) = ok hash

-- `status = s; event = get_event_by_status_code(status); if ( !check_event(…) ) return 1;`.
unfoldable pub change_status : {D : Type 0} → Status → Handling D → Flow D
change_status status h =
    let event = get_event_by_status_code status in
    if check_event h.office.state event status
    then going (record h { status = status; event = event })
    else returned 1 h.office
