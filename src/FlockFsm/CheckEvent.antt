-- ===== src/FlockFsm/CheckEvent.antt =====
-- check_event: the arms of each state, and the dispatch on the state. NULL_state, like every number that
-- is no state, falls through to the last else.
mod Announcing
mod Sending
mod Acknowledging
mod Broadcasting
use flocksy.Prelude.{List, [], Bool, false}
use flocksy.FlockFsm.Types.{
  State, Event, Status, null_state, ready_state, announcing_new_file_state,
  announcing_new_file_with_more_state, announcing_file_metadata_change_state,
  announcing_file_metadata_change_with_more_state, sending_new_file_metadata_state,
  sending_new_file_metadata_with_more_state, sending_file_metadata_change_state,
  sending_file_metadata_change_with_more_state, sending_new_file_state,
  sending_new_file_with_more_alpha_state, sending_new_file_with_more_beta_state,
  acknowledging_new_file_state, acknowledging_new_file_with_more_state,
  acknowledging_file_metadata_change_state, acknowledging_file_metadata_change_with_more_state,
  promoting_new_file_metadata_state, promoting_new_file_metadata_with_more_state,
  receiving_file_metadata_change_state, receiving_file_metadata_change_with_more_state,
  sending_fake_file_state, sending_fake_file_with_more_alpha_state,
  sending_fake_file_with_more_beta_state, broadcasting_all_received_state,
  broadcasting_all_received_with_more_alpha_state, broadcasting_all_received_with_more_beta_state,
  broadcasting_all_metadata_received_state, syncing_stop_state, exit_state,
}
use flocksy.FlockFsm.Ladder.{Row, ladder}
use Announcing.{
  ready_checks, announcing_new_file_checks, announcing_new_file_with_more_checks,
  announcing_file_metadata_change_checks, announcing_file_metadata_change_with_more_checks,
}
use Sending.{
  sending_new_file_metadata_checks, sending_new_file_metadata_with_more_checks,
  sending_file_metadata_change_checks, sending_file_metadata_change_with_more_checks,
  sending_new_file_checks, sending_new_file_with_more_alpha_checks,
  sending_new_file_with_more_beta_checks,
}
use Acknowledging.{
  acknowledging_new_file_checks, acknowledging_new_file_with_more_checks,
  acknowledging_file_metadata_change_checks, acknowledging_file_metadata_change_with_more_checks,
  promoting_new_file_metadata_checks, promoting_new_file_metadata_with_more_checks,
  receiving_file_metadata_change_checks, receiving_file_metadata_change_with_more_checks,
}
use Broadcasting.{
  sending_fake_file_checks, sending_fake_file_with_more_alpha_checks,
  sending_fake_file_with_more_beta_checks, broadcasting_all_received_checks,
  broadcasting_all_received_with_more_alpha_checks, broadcasting_all_received_with_more_beta_checks,
  broadcasting_all_metadata_received_checks, syncing_stop_checks, exit_checks,
}

unfoldable pub check_arms : State → List (Row Bool)
unfolding ready_checks announcing_new_file_checks announcing_new_file_with_more_checks
    announcing_file_metadata_change_checks announcing_file_metadata_change_with_more_checks
    sending_new_file_metadata_checks sending_new_file_metadata_with_more_checks
    sending_file_metadata_change_checks sending_file_metadata_change_with_more_checks
    sending_new_file_checks sending_new_file_with_more_alpha_checks
    sending_new_file_with_more_beta_checks acknowledging_new_file_checks
    acknowledging_new_file_with_more_checks acknowledging_file_metadata_change_checks
    acknowledging_file_metadata_change_with_more_checks promoting_new_file_metadata_checks
    promoting_new_file_metadata_with_more_checks receiving_file_metadata_change_checks
    receiving_file_metadata_change_with_more_checks sending_fake_file_checks
    sending_fake_file_with_more_alpha_checks sending_fake_file_with_more_beta_checks
    broadcasting_all_received_checks broadcasting_all_received_with_more_alpha_checks
    broadcasting_all_received_with_more_beta_checks broadcasting_all_metadata_received_checks
    syncing_stop_checks exit_checks
check_arms null_state = []
check_arms ready_state = ready_checks
check_arms announcing_new_file_state = announcing_new_file_checks
check_arms announcing_new_file_with_more_state = announcing_new_file_with_more_checks
check_arms announcing_file_metadata_change_state = announcing_file_metadata_change_checks
check_arms announcing_file_metadata_change_with_more_state =
    announcing_file_metadata_change_with_more_checks
check_arms sending_new_file_metadata_state = sending_new_file_metadata_checks
check_arms sending_new_file_metadata_with_more_state = sending_new_file_metadata_with_more_checks
check_arms sending_file_metadata_change_state = sending_file_metadata_change_checks
check_arms sending_file_metadata_change_with_more_state =
    sending_file_metadata_change_with_more_checks
check_arms sending_new_file_state = sending_new_file_checks
check_arms sending_new_file_with_more_alpha_state = sending_new_file_with_more_alpha_checks
check_arms sending_new_file_with_more_beta_state = sending_new_file_with_more_beta_checks
check_arms acknowledging_new_file_state = acknowledging_new_file_checks
check_arms acknowledging_new_file_with_more_state = acknowledging_new_file_with_more_checks
check_arms acknowledging_file_metadata_change_state = acknowledging_file_metadata_change_checks
check_arms acknowledging_file_metadata_change_with_more_state =
    acknowledging_file_metadata_change_with_more_checks
check_arms promoting_new_file_metadata_state = promoting_new_file_metadata_checks
check_arms promoting_new_file_metadata_with_more_state =
    promoting_new_file_metadata_with_more_checks
check_arms receiving_file_metadata_change_state = receiving_file_metadata_change_checks
check_arms receiving_file_metadata_change_with_more_state =
    receiving_file_metadata_change_with_more_checks
check_arms sending_fake_file_state = sending_fake_file_checks
check_arms sending_fake_file_with_more_alpha_state = sending_fake_file_with_more_alpha_checks
check_arms sending_fake_file_with_more_beta_state = sending_fake_file_with_more_beta_checks
check_arms broadcasting_all_received_state = broadcasting_all_received_checks
check_arms broadcasting_all_received_with_more_alpha_state =
    broadcasting_all_received_with_more_alpha_checks
check_arms broadcasting_all_received_with_more_beta_state =
    broadcasting_all_received_with_more_beta_checks
check_arms broadcasting_all_metadata_received_state = broadcasting_all_metadata_received_checks
check_arms syncing_stop_state = syncing_stop_checks
check_arms exit_state = exit_checks

unfoldable pub check_event : State → Event → Status → Bool
unfolding check_arms ladder
check_event state event status = ladder (check_arms state) false event status
