-- ===== src/FlockFsm/GetNewState.antt =====
-- get_new_state: the arms of each state, and the dispatch on the state. NULL_state, like every number that
-- is no state, falls through to the last else.
mod Announcing
mod Sending
mod Acknowledging
mod Broadcasting
use flocksy.Prelude.{List, []}
use flocksy.FlockFsm.Types.{
  State, Event, Status, null_state, ready_state, announcing_new_file_state,
  announcing_new_file_with_more_state, announcing_file_metadata_change_state,
  announcing_file_metadata_change_with_more_state, sending_new_file_metadata_state,
  sending_new_file_metadata_with_more_state, sending_file_metadata_change_state,
  sending_file_metadata_change_with_more_state, sending_new_file_state,
  sending_new_file_with_more_alpha_state, sending_new_file_with_more_beta_state,
  acknowledging_new_file_state, acknowledging_new_file_with_more_state,
  acknowledging_file_metadata_change_state, acknowledging_file_metadata_change_with_more_state,
  promoting_new_file_metadata_state, promoting_new_file_metadata_with_more_state,
  receiving_file_metadata_change_state, receiving_file_metadata_change_with_more_state,
  sending_fake_file_state, sending_fake_file_with_more_alpha_state,
  sending_fake_file_with_more_beta_state, broadcasting_all_received_state,
  broadcasting_all_received_with_more_alpha_state, broadcasting_all_received_with_more_beta_state,
  broadcasting_all_metadata_received_state, syncing_stop_state, exit_state,
}
use flocksy.FlockFsm.Ladder.{Row, ladder}
use Announcing.{
  ready_new_states, announcing_new_file_new_states, announcing_new_file_with_more_new_states,
  announcing_file_metadata_change_new_states, announcing_file_metadata_change_with_more_new_states,
}
use Sending.{
  sending_new_file_metadata_new_states, sending_new_file_metadata_with_more_new_states,
  sending_file_metadata_change_new_states, sending_file_metadata_change_with_more_new_states,
  sending_new_file_new_states, sending_new_file_with_more_alpha_new_states,
  sending_new_file_with_more_beta_new_states,
}
use Acknowledging.{
  acknowledging_new_file_new_states, acknowledging_new_file_with_more_new_states,
  acknowledging_file_metadata_change_new_states,
  acknowledging_file_metadata_change_with_more_new_states, promoting_new_file_metadata_new_states,
  promoting_new_file_metadata_with_more_new_states, receiving_file_metadata_change_new_states,
  receiving_file_metadata_change_with_more_new_states,
}
use Broadcasting.{
  sending_fake_file_new_states, sending_fake_file_with_more_alpha_new_states,
  sending_fake_file_with_more_beta_new_states, broadcasting_all_received_new_states,
  broadcasting_all_received_with_more_alpha_new_states,
  broadcasting_all_received_with_more_beta_new_states,
  broadcasting_all_metadata_received_new_states, syncing_stop_new_states, exit_new_states,
}

unfoldable pub new_state_arms : State → List (Row State)
unfolding ready_new_states announcing_new_file_new_states announcing_new_file_with_more_new_states
    announcing_file_metadata_change_new_states announcing_file_metadata_change_with_more_new_states
    sending_new_file_metadata_new_states sending_new_file_metadata_with_more_new_states
    sending_file_metadata_change_new_states sending_file_metadata_change_with_more_new_states
    sending_new_file_new_states sending_new_file_with_more_alpha_new_states
    sending_new_file_with_more_beta_new_states acknowledging_new_file_new_states
    acknowledging_new_file_with_more_new_states acknowledging_file_metadata_change_new_states
    acknowledging_file_metadata_change_with_more_new_states promoting_new_file_metadata_new_states
    promoting_new_file_metadata_with_more_new_states receiving_file_metadata_change_new_states
    receiving_file_metadata_change_with_more_new_states sending_fake_file_new_states
    sending_fake_file_with_more_alpha_new_states sending_fake_file_with_more_beta_new_states
    broadcasting_all_received_new_states broadcasting_all_received_with_more_alpha_new_states
    broadcasting_all_received_with_more_beta_new_states
    broadcasting_all_metadata_received_new_states syncing_stop_new_states exit_new_states
new_state_arms null_state = []
new_state_arms ready_state = ready_new_states
new_state_arms announcing_new_file_state = announcing_new_file_new_states
new_state_arms announcing_new_file_with_more_state = announcing_new_file_with_more_new_states
new_state_arms announcing_file_metadata_change_state = announcing_file_metadata_change_new_states
new_state_arms announcing_file_metadata_change_with_more_state =
    announcing_file_metadata_change_with_more_new_states
new_state_arms sending_new_file_metadata_state = sending_new_file_metadata_new_states
new_state_arms sending_new_file_metadata_with_more_state =
    sending_new_file_metadata_with_more_new_states
new_state_arms sending_file_metadata_change_state = sending_file_metadata_change_new_states
new_state_arms sending_file_metadata_change_with_more_state =
    sending_file_metadata_change_with_more_new_states
new_state_arms sending_new_file_state = sending_new_file_new_states
new_state_arms sending_new_file_with_more_alpha_state = sending_new_file_with_more_alpha_new_states
new_state_arms sending_new_file_with_more_beta_state = sending_new_file_with_more_beta_new_states
new_state_arms acknowledging_new_file_state = acknowledging_new_file_new_states
new_state_arms acknowledging_new_file_with_more_state = acknowledging_new_file_with_more_new_states
new_state_arms acknowledging_file_metadata_change_state =
    acknowledging_file_metadata_change_new_states
new_state_arms acknowledging_file_metadata_change_with_more_state =
    acknowledging_file_metadata_change_with_more_new_states
new_state_arms promoting_new_file_metadata_state = promoting_new_file_metadata_new_states
new_state_arms promoting_new_file_metadata_with_more_state =
    promoting_new_file_metadata_with_more_new_states
new_state_arms receiving_file_metadata_change_state = receiving_file_metadata_change_new_states
new_state_arms receiving_file_metadata_change_with_more_state =
    receiving_file_metadata_change_with_more_new_states
new_state_arms sending_fake_file_state = sending_fake_file_new_states
new_state_arms sending_fake_file_with_more_alpha_state =
    sending_fake_file_with_more_alpha_new_states
new_state_arms sending_fake_file_with_more_beta_state = sending_fake_file_with_more_beta_new_states
new_state_arms broadcasting_all_received_state = broadcasting_all_received_new_states
new_state_arms broadcasting_all_received_with_more_alpha_state =
    broadcasting_all_received_with_more_alpha_new_states
new_state_arms broadcasting_all_received_with_more_beta_state =
    broadcasting_all_received_with_more_beta_new_states
new_state_arms broadcasting_all_metadata_received_state =
    broadcasting_all_metadata_received_new_states
new_state_arms syncing_stop_state = syncing_stop_new_states
new_state_arms exit_state = exit_new_states

unfoldable pub get_new_state : State → Event → Status → State
unfolding new_state_arms ladder
get_new_state state event status = ladder (new_state_arms state) null_state event status
