-- ===== src/FlockFsm/Step.antt =====
-- The state machine as a node runs it: a status code is turned into its event, and the state changes
-- if check_event accepts the event. The part that a node plays is read off its state.
pub mod Rule
use flocksy.Prelude.{Bool, List, [], ◌∷◌, if◌then◌else◌}
use flocksy.FlockFsm.Types.{
  State, Status, null_state, ready_state, announcing_new_file_state,
  announcing_new_file_with_more_state, announcing_file_metadata_change_state,
  announcing_file_metadata_change_with_more_state, sending_new_file_metadata_state,
  sending_new_file_metadata_with_more_state, sending_file_metadata_change_state,
  sending_file_metadata_change_with_more_state, sending_new_file_state,
  sending_new_file_with_more_alpha_state, sending_new_file_with_more_beta_state,
  acknowledging_new_file_state, acknowledging_new_file_with_more_state,
  acknowledging_file_metadata_change_state, acknowledging_file_metadata_change_with_more_state,
  promoting_new_file_metadata_state, promoting_new_file_metadata_with_more_state,
  receiving_file_metadata_change_state, receiving_file_metadata_change_with_more_state,
  sending_fake_file_state, sending_fake_file_with_more_alpha_state,
  sending_fake_file_with_more_beta_state, broadcasting_all_received_state,
  broadcasting_all_received_with_more_alpha_state, broadcasting_all_received_with_more_beta_state,
  broadcasting_all_metadata_received_state, syncing_stop_state, exit_state,
}
use flocksy.FlockFsm.Codes.{get_event_by_status_code}
use flocksy.FlockFsm.CheckEvent.{check_event}
use flocksy.FlockFsm.GetNewState.{get_new_state}

unfoldable pub accepts : State → Status → Bool
accepts s st = check_event s (get_event_by_status_code st) st

unfoldable pub step : State → Status → State
unfolding accepts
step s st = if accepts s st then get_new_state s (get_event_by_status_code st) st else s

unfoldable pub run : State → List Status → State
run s [] = s
run s (st ∷ sts) = run (step s st) sts

-- A sender announces a file, offers its metadata and sends it. A receiver acknowledges the announcement, promotes the
-- metadata, receives the file and tells that all is received; a change of metadata alone it takes and confirms.
pub data Role : Type 0 where
  outside idle announcer offerer sender acknowledger promoter receiver broadcaster : Role
  metadata_receiver metadata_broadcaster stopping gone : Role

abbrev pub role : State → Role
role null_state = outside
role ready_state = idle
role announcing_new_file_state = announcer
role announcing_new_file_with_more_state = announcer
role announcing_file_metadata_change_state = announcer
role announcing_file_metadata_change_with_more_state = announcer
role sending_new_file_metadata_state = offerer
role sending_new_file_metadata_with_more_state = offerer
role sending_file_metadata_change_state = offerer
role sending_file_metadata_change_with_more_state = offerer
role sending_new_file_state = sender
role sending_new_file_with_more_alpha_state = sender
role sending_new_file_with_more_beta_state = sender
role acknowledging_new_file_state = acknowledger
role acknowledging_new_file_with_more_state = acknowledger
role acknowledging_file_metadata_change_state = acknowledger
role acknowledging_file_metadata_change_with_more_state = acknowledger
role promoting_new_file_metadata_state = promoter
role promoting_new_file_metadata_with_more_state = promoter
role receiving_file_metadata_change_state = metadata_receiver
role receiving_file_metadata_change_with_more_state = metadata_receiver
role sending_fake_file_state = receiver
role sending_fake_file_with_more_alpha_state = receiver
role sending_fake_file_with_more_beta_state = receiver
role broadcasting_all_received_state = broadcaster
role broadcasting_all_received_with_more_alpha_state = broadcaster
role broadcasting_all_received_with_more_beta_state = broadcaster
role broadcasting_all_metadata_received_state = metadata_broadcaster
role syncing_stop_state = stopping
role exit_state = gone
