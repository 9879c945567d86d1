-- ===== src/FlockFsm/GetHeartbeatStatus.antt =====
-- get_heartbeat_status: the arms of each state, and the dispatch on the state. NULL_state, like every number that
-- is no state, falls through to the last else.
mod Announcing
mod Sending
mod Acknowledging
mod Broadcasting
use flocksy.Prelude.{List, []}
use flocksy.FlockFsm.Types.{
  State, Event, Status, null_state, ready_state, announcing_new_file_state,
  announcing_new_file_with_more_state, announcing_file_metadata_change_state,
  announcing_file_metadata_change_with_more_state, sending_new_file_metadata_state,
  sending_new_file_metadata_with_more_state, sending_file_metadata_change_state,
  sending_file_metadata_change_with_more_state, sending_new_file_state,
  sending_new_file_with_more_alpha_state, sending_new_file_with_more_beta_state,
  acknowledging_new_file_state, acknowledging_new_file_with_more_state,
  acknowledging_file_metadata_change_state, acknowledging_file_metadata_change_with_more_state,
  promoting_new_file_metadata_state, promoting_new_file_metadata_with_more_state,
  receiving_file_metadata_change_state, receiving_file_metadata_change_with_more_state,
  sending_fake_file_state, sending_fake_file_with_more_alpha_state,
  sending_fake_file_with_more_beta_state, broadcasting_all_received_state,
  broadcasting_all_received_with_more_alpha_state, broadcasting_all_received_with_more_beta_state,
  broadcasting_all_metadata_received_state, syncing_stop_state, exit_state,
}
use flocksy.FlockFsm.Statuses.{null_status}
use flocksy.FlockFsm.Ladder.{Row, ladder}
use Announcing.{
  ready_heartbeats, announcing_new_file_heartbeats, announcing_new_file_with_more_heartbeats,
  announcing_file_metadata_change_heartbeats, announcing_file_metadata_change_with_more_heartbeats,
}
use Sending.{
  sending_new_file_metadata_heartbeats, sending_new_file_metadata_with_more_heartbeats,
  sending_file_metadata_change_heartbeats, sending_file_metadata_change_with_more_heartbeats,
  sending_new_file_heartbeats, sending_new_file_with_more_alpha_heartbeats,
  sending_new_file_with_more_beta_heartbeats,
}
use Acknowledging.{
  acknowledging_new_file_heartbeats, acknowledging_new_file_with_more_heartbeats,
  acknowledging_file_metadata_change_heartbeats,
  acknowledging_file_metadata_change_with_more_heartbeats, promoting_new_file_metadata_heartbeats,
  promoting_new_file_metadata_with_more_heartbeats, receiving_file_metadata_change_heartbeats,
  receiving_file_metadata_change_with_more_heartbeats,
}
use Broadcasting.{
  sending_fake_file_heartbeats, sending_fake_file_with_more_alpha_heartbeats,
  sending_fake_file_with_more_beta_heartbeats, broadcasting_all_received_heartbeats,
  broadcasting_all_received_with_more_alpha_heartbeats,
  broadcasting_all_received_with_more_beta_heartbeats,
  broadcasting_all_metadata_received_heartbeats, syncing_stop_heartbeats, exit_heartbeats,
}

unfoldable pub heartbeat_arms : State → List (Row Status)
unfolding ready_heartbeats announcing_new_file_heartbeats announcing_new_file_with_more_heartbeats
    announcing_file_metadata_change_heartbeats announcing_file_metadata_change_with_more_heartbeats
    sending_new_file_metadata_heartbeats sending_new_file_metadata_with_more_heartbeats
    sending_file_metadata_change_heartbeats sending_file_metadata_change_with_more_heartbeats
    sending_new_file_heartbeats sending_new_file_with_more_alpha_heartbeats
    sending_new_file_with_more_beta_heartbeats acknowledging_new_file_heartbeats
    acknowledging_new_file_with_more_heartbeats acknowledging_file_metadata_change_heartbeats
    acknowledging_file_metadata_change_with_more_heartbeats promoting_new_file_metadata_heartbeats
    promoting_new_file_metadata_with_more_heartbeats receiving_file_metadata_change_heartbeats
    receiving_file_metadata_change_with_more_heartbeats sending_fake_file_heartbeats
    sending_fake_file_with_more_alpha_heartbeats sending_fake_file_with_more_beta_heartbeats
    broadcasting_all_received_heartbeats broadcasting_all_received_with_more_alpha_heartbeats
    broadcasting_all_received_with_more_beta_heartbeats
    broadcasting_all_metadata_received_heartbeats syncing_stop_heartbeats exit_heartbeats
heartbeat_arms null_state = []
heartbeat_arms ready_state = ready_heartbeats
heartbeat_arms announcing_new_file_state = announcing_new_file_heartbeats
heartbeat_arms announcing_new_file_with_more_state = announcing_new_file_with_more_heartbeats
heartbeat_arms announcing_file_metadata_change_state = announcing_file_metadata_change_heartbeats
heartbeat_arms announcing_file_metadata_change_with_more_state =
    announcing_file_metadata_change_with_more_heartbeats
heartbeat_arms sending_new_file_metadata_state = sending_new_file_metadata_heartbeats
heartbeat_arms sending_new_file_metadata_with_more_state =
    sending_new_file_metadata_with_more_heartbeats
heartbeat_arms sending_file_metadata_change_state = sending_file_metadata_change_heartbeats
heartbeat_arms sending_file_metadata_change_with_more_state =
    sending_file_metadata_change_with_more_heartbeats
heartbeat_arms sending_new_file_state = sending_new_file_heartbeats
heartbeat_arms sending_new_file_with_more_alpha_state = sending_new_file_with_more_alpha_heartbeats
heartbeat_arms sending_new_file_with_more_beta_state = sending_new_file_with_more_beta_heartbeats
heartbeat_arms acknowledging_new_file_state = acknowledging_new_file_heartbeats
heartbeat_arms acknowledging_new_file_with_more_state = acknowledging_new_file_with_more_heartbeats
heartbeat_arms acknowledging_file_metadata_change_state =
    acknowledging_file_metadata_change_heartbeats
heartbeat_arms acknowledging_file_metadata_change_with_more_state =
    acknowledging_file_metadata_change_with_more_heartbeats
heartbeat_arms promoting_new_file_metadata_state = promoting_new_file_metadata_heartbeats
heartbeat_arms promoting_new_file_metadata_with_more_state =
    promoting_new_file_metadata_with_more_heartbeats
heartbeat_arms receiving_file_metadata_change_state = receiving_file_metadata_change_heartbeats
heartbeat_arms receiving_file_metadata_change_with_more_state =
    receiving_file_metadata_change_with_more_heartbeats
heartbeat_arms sending_fake_file_state = sending_fake_file_heartbeats
heartbeat_arms sending_fake_file_with_more_alpha_state =
    sending_fake_file_with_more_alpha_heartbeats
heartbeat_arms sending_fake_file_with_more_beta_state = sending_fake_file_with_more_beta_heartbeats
heartbeat_arms broadcasting_all_received_state = broadcasting_all_received_heartbeats
heartbeat_arms broadcasting_all_received_with_more_alpha_state =
    broadcasting_all_received_with_more_alpha_heartbeats
heartbeat_arms broadcasting_all_received_with_more_beta_state =
    broadcasting_all_received_with_more_beta_heartbeats
heartbeat_arms broadcasting_all_metadata_received_state =
    broadcasting_all_metadata_received_heartbeats
heartbeat_arms syncing_stop_state = syncing_stop_heartbeats
heartbeat_arms exit_state = exit_heartbeats

unfoldable pub get_heartbeat_status : State → Event → Status → Status
unfolding heartbeat_arms ladder
get_heartbeat_status state event status = ladder (heartbeat_arms state) null_status event status
