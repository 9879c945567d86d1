-- ===== src/FlockFsm/GetAction.antt =====
-- get_action: the arms of each state, and the dispatch on the state. NULL_state, like every number that
-- is no state, falls through to the last else.
mod Announcing
mod Sending
mod Acknowledging
mod Broadcasting
use flocksy.Prelude.{List, []}
use flocksy.FlockFsm.Types.{
  State, Event, Status, Action, null_action, null_state, ready_state, announcing_new_file_state,
  announcing_new_file_with_more_state, announcing_file_metadata_change_state,
  announcing_file_metadata_change_with_more_state, sending_new_file_metadata_state,
  sending_new_file_metadata_with_more_state, sending_file_metadata_change_state,
  sending_file_metadata_change_with_more_state, sending_new_file_state,
  sending_new_file_with_more_alpha_state, sending_new_file_with_more_beta_state,
  acknowledging_new_file_state, acknowledging_new_file_with_more_state,
  acknowledging_file_metadata_change_state, acknowledging_file_metadata_change_with_more_state,
  promoting_new_file_metadata_state, promoting_new_file_metadata_with_more_state,
  receiving_file_metadata_change_state, receiving_file_metadata_change_with_more_state,
  sending_fake_file_state, sending_fake_file_with_more_alpha_state,
  sending_fake_file_with_more_beta_state, broadcasting_all_received_state,
  broadcasting_all_received_with_more_alpha_state, broadcasting_all_received_with_more_beta_state,
  broadcasting_all_metadata_received_state, syncing_stop_state, exit_state,
}
use flocksy.FlockFsm.Ladder.{Row, ladder}
use Announcing.{
  ready_actions, announcing_new_file_actions, announcing_new_file_with_more_actions,
  announcing_file_metadata_change_actions, announcing_file_metadata_change_with_more_actions,
}
use Sending.{
  sending_new_file_metadata_actions, sending_new_file_metadata_with_more_actions,
  sending_file_metadata_change_actions, sending_file_metadata_change_with_more_actions,
  sending_new_file_actions, sending_new_file_with_more_alpha_actions,
  sending_new_file_with_more_beta_actions,
}
use Acknowledging.{
  acknowledging_new_file_actions, acknowledging_new_file_with_more_actions,
  acknowledging_file_metadata_change_actions, acknowledging_file_metadata_change_with_more_actions,
  promoting_new_file_metadata_actions, promoting_new_file_metadata_with_more_actions,
  receiving_file_metadata_change_actions, receiving_file_metadata_change_with_more_actions,
}
use Broadcasting.{
  sending_fake_file_actions, sending_fake_file_with_more_alpha_actions,
  sending_fake_file_with_more_beta_actions, broadcasting_all_received_actions,
  broadcasting_all_received_with_more_alpha_actions,
  broadcasting_all_received_with_more_beta_actions, broadcasting_all_metadata_received_actions,
  syncing_stop_actions, exit_actions,
}

unfoldable pub action_arms : State → List (Row Action)
unfolding ready_actions announcing_new_file_actions announcing_new_file_with_more_actions
    announcing_file_metadata_change_actions announcing_file_metadata_change_with_more_actions
    sending_new_file_metadata_actions sending_new_file_metadata_with_more_actions
    sending_file_metadata_change_actions sending_file_metadata_change_with_more_actions
    sending_new_file_actions sending_new_file_with_more_alpha_actions
    sending_new_file_with_more_beta_actions acknowledging_new_file_actions
    acknowledging_new_file_with_more_actions acknowledging_file_metadata_change_actions
    acknowledging_file_metadata_change_with_more_actions promoting_new_file_metadata_actions
    promoting_new_file_metadata_with_more_actions receiving_file_metadata_change_actions
    receiving_file_metadata_change_with_more_actions sending_fake_file_actions
    sending_fake_file_with_more_alpha_actions sending_fake_file_with_more_beta_actions
    broadcasting_all_received_actions broadcasting_all_received_with_more_alpha_actions
    broadcasting_all_received_with_more_beta_actions broadcasting_all_metadata_received_actions
    syncing_stop_actions exit_actions
action_arms null_state = []
action_arms ready_state = ready_actions
action_arms announcing_new_file_state = announcing_new_file_actions
action_arms announcing_new_file_with_more_state = announcing_new_file_with_more_actions
action_arms announcing_file_metadata_change_state = announcing_file_metadata_change_actions
action_arms announcing_file_metadata_change_with_more_state =
    announcing_file_metadata_change_with_more_actions
action_arms sending_new_file_metadata_state = sending_new_file_metadata_actions
action_arms sending_new_file_metadata_with_more_state = sending_new_file_metadata_with_more_actions
action_arms sending_file_metadata_change_state = sending_file_metadata_change_actions
action_arms sending_file_metadata_change_with_more_state =
    sending_file_metadata_change_with_more_actions
action_arms sending_new_file_state = sending_new_file_actions
action_arms sending_new_file_with_more_alpha_state = sending_new_file_with_more_alpha_actions
action_arms sending_new_file_with_more_beta_state = sending_new_file_with_more_beta_actions
action_arms acknowledging_new_file_state = acknowledging_new_file_actions
action_arms acknowledging_new_file_with_more_state = acknowledging_new_file_with_more_actions
action_arms acknowledging_file_metadata_change_state = acknowledging_file_metadata_change_actions
action_arms acknowledging_file_metadata_change_with_more_state =
    acknowledging_file_metadata_change_with_more_actions
action_arms promoting_new_file_metadata_state = promoting_new_file_metadata_actions
action_arms promoting_new_file_metadata_with_more_state =
    promoting_new_file_metadata_with_more_actions
action_arms receiving_file_metadata_change_state = receiving_file_metadata_change_actions
action_arms receiving_file_metadata_change_with_more_state =
    receiving_file_metadata_change_with_more_actions
action_arms sending_fake_file_state = sending_fake_file_actions
action_arms sending_fake_file_with_more_alpha_state = sending_fake_file_with_more_alpha_actions
action_arms sending_fake_file_with_more_beta_state = sending_fake_file_with_more_beta_actions
action_arms broadcasting_all_received_state = broadcasting_all_received_actions
action_arms broadcasting_all_received_with_more_alpha_state =
    broadcasting_all_received_with_more_alpha_actions
action_arms broadcasting_all_received_with_more_beta_state =
    broadcasting_all_received_with_more_beta_actions
action_arms broadcasting_all_metadata_received_state = broadcasting_all_metadata_received_actions
action_arms syncing_stop_state = syncing_stop_actions
action_arms exit_state = exit_actions

unfoldable pub get_action : State → Event → Status → Action
unfolding action_arms ladder
get_action state event status = ladder (action_arms state) null_action event status
