-- ===== src/Boxoffice/Tests.antt =====
-- The theorems about the boxoffice at a node that listens to two others.
use flocksy.Prelude.{
  ℕ, ◌≡◌, ◌↔◌, ◌≢◌, refl, inr, true, false, List, [], ◌∷◌, ◌++◌, none, arith, replicate,
}
use flocksy.Bytes.{be64, be64toh, bytes_eq, bytes_eq_iff}
use flocksy.Stream.{Stream, open_stream, read}
use flocksy.File.{File}
use flocksy.File.Tests.{counting, sample}
use flocksy.FlockFsm.Types.{
  State, Event, Status, ready_state, announcing_new_file_state, acknowledging_new_file_state,
  sending_file_metadata_change_state, sending_file_metadata_change_with_more_state,
  received_heartbeat_event, new_local_file_event,
}
use flocksy.FlockFsm.Statuses.{status_120, status_121, status_141, status_300, status_301}
use flocksy.FlockFsm.Step.{role}
use flocksy.FlockFsm.Roles.{◌⟶◌}
use flocksy.Boxoffice.Nodes.{NodeMap, default_node, all_replied, clear_replied, update_node}
use flocksy.Boxoffice.Nodes.Replies.{replies, AllNamed, replies_complete}
use flocksy.FlockFsm.CheckEvent.{check_event}
use flocksy.FlockFsm.GetAction.{get_action}
use flocksy.FlockFsm.GetNewState.{get_new_state}
use flocksy.FlockFsm.GetHeartbeatStatus.{get_heartbeat_status}
use flocksy.Boxoffice.Clock.{update_timestamp, stamp}
use flocksy.Boxoffice.Sending.{signal}
use flocksy.FlockFsm.Codes.{get_event_by_status_code}
use flocksy.Boxoffice.Office.{Office, Readings, Handling, returned, to_heartbeater}
use flocksy.Boxoffice.Replies.{on_141}
use flocksy.Boxoffice.LocalChanges.{queue_file}
use flocksy.Boxoffice.Events.{process_event}
use flocksy.Boxoffice.Protocol.{Follows, process_event-Follows, process_event-role}
use flocksy.Stream.Decimal.{print}
use flocksy.Boxoffice.MetadataReplies.{replied, one_change-stops, several_changes-stop}
use flocksy.Boxoffice.SecondFile.{second_file-lost}

abbrev alice : List ℕ
alice = replicate 64 200

abbrev bob : List ℕ
bob = replicate 64 201

-- Alice has not replied yet, Bob has.
abbrev nodes : NodeMap
nodes = (alice, default_node) ∷ (bob, record default_node { replied = true }) ∷ []

abbrev readings : Readings
readings = record {
  arrival_time = 70005;
  send_time = 70006;
  send_random = 7;
  stop_time = 70007;
  stop_random = 8;
}

abbrev office : State → List (ℕ × File) → Office ℕ
office state files = record {
  state = state;
  file_list_metadata = files;
  file_list_data = [];
  next_address = 5;
  current_timing_offset = 0;
  notified_dispatch = false;
  current_box = none;
  current_file = open_stream [];
  file_metadata_written = false;
  stop_sync_timeout_received = false;
  current_node_hash = alice;
  subscribers = nodes;
  boxes = [];
  sent = [];
  disk = 0;
}

-- A heartbeat of Alice, behind the two numbers of its head.
abbrev heartbeat_of_alice : Stream
heartbeat_of_alice = open_stream (alice ++ (b' ' ∷ be64 70000))

abbrev handling : State → Event → Status → List (ℕ × File) → Handling ℕ
handling state event status files = record {
  office = office state files;
  status = status;
  event = event;
  stream = open_stream [];
}

process_event-Follows_example : Follows announcing_new_file_state (
    process_event counting readings status_121 heartbeat_of_alice
      (office announcing_new_file_state []))
process_event-Follows_example =
    process_event-Follows counting readings status_121 heartbeat_of_alice
      (office announcing_new_file_state [])

bob_differs : bob ≢ alice
unfolding bytes_eq
bob_differs e = let h : false ≡ true = (bytes_eq_iff bob alice).1 e in cc

replies_complete_example :
    (all_replied (replies (bob ∷ bob ∷ alice ∷ []) (clear_replied nodes)) ≡ true)
    ↔ AllNamed (bob ∷ bob ∷ alice ∷ []) nodes
replies_complete_example =
    replies_complete (bob ∷ bob ∷ alice ∷ []) nodes ((bob_differs, tt), (tt, tt))

one_change-stops_example :
    let h =
      handling sending_file_metadata_change_state received_heartbeat_event status_141
        ((4, sample) ∷ []) in
    on_141 h ≡ returned 1 (replied h)
unfolding all_replied update_node bytes_eq
one_change-stops_example =
    one_change-stops
      (handling sending_file_metadata_change_state received_heartbeat_event status_141
        ((4, sample) ∷ []))
      refl refl (omega arith)

several_changes-stop_example :
    let h =
      handling sending_file_metadata_change_with_more_state received_heartbeat_event status_141
        [] in
    on_141 h ≡ returned 1 (replied h)
unfolding all_replied update_node bytes_eq
several_changes-stop_example =
    several_changes-stop
      (handling sending_file_metadata_change_with_more_state received_heartbeat_event status_141 [])
      refl refl (inr refl)

-- A node that hears an announcement acknowledges it.
abbrev acknowledged : Office ℕ
acknowledged = record (office acknowledging_new_file_state []) {
  subscribers = update_node alice (stamp 70000 70005) nodes;
  sent = to_heartbeater (signal status_121 []) ∷ [];
}

acknowledges :
    process_event counting readings status_120 heartbeat_of_alice (office ready_state [])
    ≡ returned 0 acknowledged
unfolding process_event check_event get_event_by_status_code update_timestamp read be64
    get_new_state get_action be64toh get_heartbeat_status
acknowledges = refl

process_event-role_example : role ready_state ⟶ role acknowledging_new_file_state
process_event-role_example =
    process_event-role counting readings status_120 heartbeat_of_alice (office ready_state []) 0
      acknowledged acknowledges

second_file-lost_example :
    let h = handling announcing_new_file_state new_local_file_event status_300 [] in
    queue_file sample h ≡ record h {
      office = record h.office { next_address = 6; subscribers = clear_replied nodes };
      status = status_301;
      event = get_event_by_status_code status_301;
    }
second_file-lost_example =
    second_file-lost sample (handling announcing_new_file_state new_local_file_event status_300 [])
      refl tt

-- Alice announces a file; then the interrupt comes.
abbrev announcement : Readings × List ℕ
announcement = (readings, print 2 ++ (b' ' ∷ (print 120 ++ (alice ++ (b' ' ∷ be64 70000)))))

abbrev interruption : Readings × List ℕ
interruption = (readings, b'0' ∷ b' ' ∷ b'2' ∷ [])
