-- ===== src/FlockFsm/Types.antt =====
-- The enumerations of flock_fsm.h. `event_code` is the numbering of event_t. A status is the number
-- that travels in a message: the code casts whatever number it reads to status_t.
use flocksy.Prelude.{ℕ, Bool, ◌==◌}

pub data State : Type 0 where
  null_state ready_state announcing_new_file_state announcing_new_file_with_more_state : State
  announcing_file_metadata_change_state announcing_file_metadata_change_with_more_state : State
  sending_new_file_metadata_state sending_new_file_metadata_with_more_state : State
  sending_file_metadata_change_state sending_file_metadata_change_with_more_state : State
  sending_new_file_state sending_new_file_with_more_alpha_state : State
  sending_new_file_with_more_beta_state acknowledging_new_file_state : State
  acknowledging_new_file_with_more_state acknowledging_file_metadata_change_state : State
  acknowledging_file_metadata_change_with_more_state promoting_new_file_metadata_state : State
  promoting_new_file_metadata_with_more_state receiving_file_metadata_change_state : State
  receiving_file_metadata_change_with_more_state sending_fake_file_state : State
  sending_fake_file_with_more_alpha_state sending_fake_file_with_more_beta_state : State
  broadcasting_all_received_state broadcasting_all_received_with_more_alpha_state : State
  broadcasting_all_received_with_more_beta_state : State
  broadcasting_all_metadata_received_state syncing_stop_state exit_state : State

pub data Event : Type 0 where
  null_event new_local_file_event new_local_file_with_more_event : Event
  local_file_metadata_change_event local_file_metadata_change_with_more_event : Event
  received_heartbeat_event all_nodes_replied_event new_local_file_reported_twice_event : Event
  timing_offset_elapsed_event all_nodes_have_file_event all_nodes_have_all_files_event : Event
  all_nodes_have_all_metadata_changes_with_more_event file_send_tick_event : Event
  received_fake_file_data_event node_only_sends_heartbeats_event : Event
  all_nodes_have_file_with_more_event all_metadata_received_event : Event
  received_file_data_event all_data_received_event interrupt_event : Event

pub data Action : Type 0 where
  null_action send_heartbeat_action add_new_file_to_queue_action send_file_data_action : Action
  ignore_action store_file_data_action send_fake_file_data_action exit_action : Action

abbrev pub Status : Type 0
Status = ℕ

abbrev pub event_code : Event → ℕ
event_code null_event = 0
event_code new_local_file_event = 1
event_code new_local_file_with_more_event = 2
event_code local_file_metadata_change_event = 3
event_code local_file_metadata_change_with_more_event = 4
event_code received_heartbeat_event = 5
event_code all_nodes_replied_event = 6
event_code new_local_file_reported_twice_event = 7
event_code timing_offset_elapsed_event = 8
event_code all_nodes_have_file_event = 9
event_code all_nodes_have_all_files_event = 10
event_code all_nodes_have_all_metadata_changes_with_more_event = 11
event_code file_send_tick_event = 12
event_code received_fake_file_data_event = 13
event_code node_only_sends_heartbeats_event = 14
event_code all_nodes_have_file_with_more_event = 15
event_code all_metadata_received_event = 16
event_code received_file_data_event = 17
event_code all_data_received_event = 18
event_code interrupt_event = 19

-- `==` on event_t.
abbrev pub event_eq : Event → Event → Bool
event_eq a b = event_code a == event_code b

abbrev pub state_code : State → ℕ
state_code null_state = 0
state_code ready_state = 1
state_code announcing_new_file_state = 2
state_code announcing_new_file_with_more_state = 3
state_code announcing_file_metadata_change_state = 4
state_code announcing_file_metadata_change_with_more_state = 5
state_code sending_new_file_metadata_state = 6
state_code sending_new_file_metadata_with_more_state = 7
state_code sending_file_metadata_change_state = 8
state_code sending_file_metadata_change_with_more_state = 9
state_code sending_new_file_state = 10
state_code sending_new_file_with_more_alpha_state = 11
state_code sending_new_file_with_more_beta_state = 12
state_code acknowledging_new_file_state = 13
state_code acknowledging_new_file_with_more_state = 14
state_code acknowledging_file_metadata_change_state = 15
state_code acknowledging_file_metadata_change_with_more_state = 16
state_code promoting_new_file_metadata_state = 17
state_code promoting_new_file_metadata_with_more_state = 18
state_code receiving_file_metadata_change_state = 19
state_code receiving_file_metadata_change_with_more_state = 20
state_code sending_fake_file_state = 21
state_code sending_fake_file_with_more_alpha_state = 22
state_code sending_fake_file_with_more_beta_state = 23
state_code broadcasting_all_received_state = 24
state_code broadcasting_all_received_with_more_alpha_state = 25
state_code broadcasting_all_received_with_more_beta_state = 26
state_code broadcasting_all_metadata_received_state = 27
state_code syncing_stop_state = 28
state_code exit_state = 29

-- `==` on state_t.
abbrev pub state_eq : State → State → Bool
state_eq a b = state_code a == state_code b
