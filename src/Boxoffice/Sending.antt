-- ===== src/Boxoffice/Sending.antt =====
-- performAction, updateHeartbeat and prepareHeartbeatMessage of src/boxoffice.cpp.
use flocksy.Prelude.{
  ℕ, ◌+◌, ◌%◌, ◌^◌, true, ◌&&◌, ◌||◌, not, List, [], ◌∷◌, ◌++◌, Result, ok, fault, ◌>>=◌, undefined,
  if◌then◌else◌,
}
use flocksy.Constants.{f_sigtype_fsm}
use flocksy.Bytes.{be64}
use flocksy.Stream.{open_stream}
use flocksy.Stream.Decimal.{print}
use flocksy.Threads.Publisher.{substr}
use flocksy.File.{File}
use flocksy.File.Codec.{encode}
use flocksy.FlockFsm.Types.{
  State, Event, Action, Status, state_eq, sending_new_file_metadata_state,
  sending_new_file_metadata_with_more_state, sending_file_metadata_change_state,
  sending_file_metadata_change_with_more_state, syncing_stop_state, send_heartbeat_action,
}
use flocksy.FlockFsm.Statuses.{status_155}
use flocksy.FlockFsm.GetHeartbeatStatus.{get_heartbeat_status}
use flocksy.Boxoffice.Office.{Office, Readings, to_heartbeater, to_dispatcher}

abbrev pub f_minimum_stop_offset : ℕ
f_minimum_stop_offset = 1000

-- `F_SIGTYPE_FSM << " " << status << " "`, and what is written behind it.
unfoldable pub signal : Status → List ℕ → List ℕ
signal status message = print f_sigtype_fsm ++ (b' ' ∷ (print status ++ (b' ' ∷ message)))

-- `front()` and `pop_front()` of a deque of files.
abbrev pub front : List (ℕ × File) → Result (File × List (ℕ × File))
front [] = fault undefined
front ((address, file) ∷ files) = ok (file, files)

module _ {D : Type 0} (readings : Readings) where
  -- The branch of the first file of the data queue, whose metadata go out with the offset.
  unfoldable pub prepare_file : Office D → Result (List ℕ × Office D)
  unfolding substr
  prepare_file o = do
    (file, files) ← front o.file_list_data
    text ← encode file
    current ← substr 32 text
    ok (
      text ++ be64 o.current_timing_offset,
      record o { file_list_data = files; current_file = open_stream current },
    )

  unfoldable pub prepare_metadata : Office D → Result (List ℕ × Office D)
  unfolding substr
  prepare_metadata o = do
    (file, files) ← front o.file_list_metadata
    text ← encode file
    current ← substr 32 text
    ok (text, record o { file_list_metadata = files; current_file = open_stream current })

  -- The branch that asks the dispatcher for the end of the synchronisation.
  unfoldable pub prepare_stop : Office D → List ℕ × Office D
  unfolding signal
  prepare_stop o =
      let offset = (readings.stop_time + (readings.stop_random + f_minimum_stop_offset)) % 2 ^ 64 in
      (
        be64 offset,
        record o {
          current_timing_offset = offset;
          stop_sync_timeout_received = true;
          sent = to_dispatcher (signal status_155 (be64 offset)) ∷ o.sent;
        },
      )

  unfoldable pub prepare_heartbeat_message : State → Office D → Result (List ℕ × Office D)
  unfolding prepare_file prepare_metadata prepare_stop
  prepare_heartbeat_message new_state o =
      if state_eq new_state sending_new_file_metadata_state
        || state_eq new_state sending_new_file_metadata_with_more_state
      then prepare_file o
      else if state_eq new_state sending_file_metadata_change_state
          || state_eq new_state sending_file_metadata_change_with_more_state
      then prepare_metadata o
      else if state_eq new_state syncing_stop_state && not o.stop_sync_timeout_received
      then ok (prepare_stop o)
      else ok ([], o)

  unfoldable pub update_heartbeat : Status → State → Office D → Result (Office D)
  unfolding prepare_heartbeat_message signal
  update_heartbeat new_status new_state o = do
    (message, o') ← prepare_heartbeat_message new_state o
    ok (record o' { sent = to_heartbeater (signal new_status message) ∷ o'.sent })

  unfoldable pub perform_action : Event → Action → Status → State → Office D → Result (Office D)
  unfolding update_heartbeat
  perform_action event send_heartbeat_action received new_state o =
      update_heartbeat (get_heartbeat_status o.state event received) new_state o
  perform_action event _ received new_state o = ok o
