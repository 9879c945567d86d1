-- ===== src/FlockFsm/GetNewState/Broadcasting.antt =====
-- The arms of get_new_state at the states of a receiver during and after the transfer, the stop and the exit.
use flocksy.Prelude.{List, [], ◌∷◌}
use flocksy.FlockFsm.Types.{
  State, file_send_tick_event, received_heartbeat_event, received_file_data_event,
  all_data_received_event, new_local_file_event, new_local_file_with_more_event,
  node_only_sends_heartbeats_event, interrupt_event, timing_offset_elapsed_event,
  sending_fake_file_state, broadcasting_all_received_state, ready_state, exit_state,
  sending_fake_file_with_more_alpha_state, broadcasting_all_received_with_more_alpha_state,
  sending_fake_file_with_more_beta_state, broadcasting_all_received_with_more_beta_state,
  syncing_stop_state, broadcasting_all_metadata_received_state, promoting_new_file_metadata_state,
  promoting_new_file_metadata_with_more_state,
}
use flocksy.FlockFsm.Statuses.{
  status_112, status_110, status_111, status_140, status_200, status_113, status_300, status_304,
  status_320, status_324, status_410, status_100, status_500, status_114, status_115, status_145,
  status_117, status_155, status_150, status_116, status_147, status_170, status_171, status_141,
  status_130, status_134, status_156,
}
use flocksy.FlockFsm.Ladder.{Row}

unfoldable pub sending_fake_file_new_states : List (Row State)
sending_fake_file_new_states =
    (file_send_tick_event, status_112, sending_fake_file_state)
    ∷ (received_heartbeat_event, status_110, sending_fake_file_state)
    ∷ (received_heartbeat_event, status_111, sending_fake_file_state)
    ∷ (received_heartbeat_event, status_140, sending_fake_file_state)
    ∷ (received_file_data_event, status_200, sending_fake_file_state)
    ∷ (all_data_received_event, status_113, broadcasting_all_received_state)
    ∷ (new_local_file_event, status_300, sending_fake_file_state)
    ∷ (new_local_file_with_more_event, status_304, sending_fake_file_state)
    ∷ (new_local_file_event, status_320, sending_fake_file_state)
    ∷ (new_local_file_with_more_event, status_324, sending_fake_file_state)
    ∷ (received_heartbeat_event, status_410, ready_state)
    ∷ (node_only_sends_heartbeats_event, status_100, ready_state)
    ∷ (interrupt_event, status_500, exit_state)
    ∷ []

unfoldable pub sending_fake_file_with_more_alpha_new_states : List (Row State)
sending_fake_file_with_more_alpha_new_states =
    (file_send_tick_event, status_112, sending_fake_file_with_more_alpha_state)
    ∷ (received_heartbeat_event, status_114, sending_fake_file_with_more_alpha_state)
    ∷ (received_heartbeat_event, status_115, sending_fake_file_with_more_alpha_state)
    ∷ (received_heartbeat_event, status_145, sending_fake_file_with_more_alpha_state)
    ∷ (received_file_data_event, status_200, sending_fake_file_with_more_alpha_state)
    ∷ (all_data_received_event, status_113, broadcasting_all_received_with_more_alpha_state)
    ∷ (new_local_file_event, status_300, sending_fake_file_with_more_alpha_state)
    ∷ (new_local_file_with_more_event, status_304, sending_fake_file_with_more_alpha_state)
    ∷ (new_local_file_event, status_320, sending_fake_file_with_more_alpha_state)
    ∷ (new_local_file_with_more_event, status_324, sending_fake_file_with_more_alpha_state)
    ∷ (received_heartbeat_event, status_410, ready_state)
    ∷ (node_only_sends_heartbeats_event, status_100, ready_state)
    ∷ (interrupt_event, status_500, exit_state)
    ∷ []

unfoldable pub sending_fake_file_with_more_beta_new_states : List (Row State)
sending_fake_file_with_more_beta_new_states =
    (file_send_tick_event, status_112, sending_fake_file_with_more_beta_state)
    ∷ (received_heartbeat_event, status_114, sending_fake_file_with_more_beta_state)
    ∷ (received_heartbeat_event, status_117, sending_fake_file_with_more_beta_state)
    ∷ (received_heartbeat_event, status_145, sending_fake_file_with_more_beta_state)
    ∷ (received_file_data_event, status_200, sending_fake_file_with_more_beta_state)
    ∷ (all_data_received_event, status_113, broadcasting_all_received_with_more_beta_state)
    ∷ (new_local_file_event, status_300, sending_fake_file_with_more_beta_state)
    ∷ (new_local_file_with_more_event, status_304, sending_fake_file_with_more_beta_state)
    ∷ (new_local_file_event, status_320, sending_fake_file_with_more_beta_state)
    ∷ (new_local_file_with_more_event, status_324, sending_fake_file_with_more_beta_state)
    ∷ (received_heartbeat_event, status_410, ready_state)
    ∷ (node_only_sends_heartbeats_event, status_100, ready_state)
    ∷ (interrupt_event, status_500, exit_state)
    ∷ []

unfoldable pub broadcasting_all_received_new_states : List (Row State)
broadcasting_all_received_new_states =
    (file_send_tick_event, status_112, broadcasting_all_received_state)
    ∷ (received_heartbeat_event, status_110, broadcasting_all_received_state)
    ∷ (received_heartbeat_event, status_111, broadcasting_all_received_state)
    ∷ (received_heartbeat_event, status_140, broadcasting_all_received_state)
    ∷ (received_heartbeat_event, status_155, syncing_stop_state)
    ∷ (new_local_file_event, status_300, broadcasting_all_received_state)
    ∷ (new_local_file_with_more_event, status_304, broadcasting_all_received_state)
    ∷ (new_local_file_event, status_320, broadcasting_all_received_state)
    ∷ (new_local_file_with_more_event, status_324, broadcasting_all_received_state)
    ∷ (node_only_sends_heartbeats_event, status_100, ready_state)
    ∷ (interrupt_event, status_500, exit_state)
    ∷ []

unfoldable pub broadcasting_all_received_with_more_alpha_new_states : List (Row State)
broadcasting_all_received_with_more_alpha_new_states =
    (file_send_tick_event, status_112, broadcasting_all_received_with_more_alpha_state)
    ∷ (received_heartbeat_event, status_114, broadcasting_all_received_with_more_alpha_state)
    ∷ (received_heartbeat_event, status_115, broadcasting_all_received_with_more_alpha_state)
    ∷ (received_heartbeat_event, status_145, broadcasting_all_received_with_more_alpha_state)
    ∷ (received_heartbeat_event, status_150, sending_fake_file_state)
    ∷ (received_heartbeat_event, status_116, sending_fake_file_with_more_beta_state)
    ∷ (new_local_file_event, status_300, broadcasting_all_received_with_more_alpha_state)
    ∷ (new_local_file_with_more_event, status_304, broadcasting_all_received_with_more_alpha_state)
    ∷ (new_local_file_event, status_320, broadcasting_all_received_with_more_alpha_state)
    ∷ (new_local_file_with_more_event, status_324, broadcasting_all_received_with_more_alpha_state)
    ∷ (node_only_sends_heartbeats_event, status_100, ready_state)
    ∷ (interrupt_event, status_500, exit_state)
    ∷ []

unfoldable pub broadcasting_all_received_with_more_beta_new_states : List (Row State)
broadcasting_all_received_with_more_beta_new_states =
    (file_send_tick_event, status_112, broadcasting_all_received_with_more_beta_state)
    ∷ (received_heartbeat_event, status_116, broadcasting_all_received_with_more_beta_state)
    ∷ (received_heartbeat_event, status_117, broadcasting_all_received_with_more_beta_state)
    ∷ (received_heartbeat_event, status_147, broadcasting_all_received_with_more_beta_state)
    ∷ (received_heartbeat_event, status_150, sending_fake_file_state)
    ∷ (received_heartbeat_event, status_114, sending_fake_file_with_more_alpha_state)
    ∷ (new_local_file_event, status_300, broadcasting_all_received_with_more_beta_state)
    ∷ (new_local_file_with_more_event, status_304, broadcasting_all_received_with_more_beta_state)
    ∷ (new_local_file_event, status_320, broadcasting_all_received_with_more_beta_state)
    ∷ (new_local_file_with_more_event, status_324, broadcasting_all_received_with_more_beta_state)
    ∷ (node_only_sends_heartbeats_event, status_100, ready_state)
    ∷ (interrupt_event, status_500, exit_state)
    ∷ []

unfoldable pub broadcasting_all_metadata_received_new_states : List (Row State)
broadcasting_all_metadata_received_new_states =
    (received_heartbeat_event, status_170, broadcasting_all_metadata_received_state)
    ∷ (received_heartbeat_event, status_171, broadcasting_all_metadata_received_state)
    ∷ (received_heartbeat_event, status_141, broadcasting_all_metadata_received_state)
    ∷ (received_heartbeat_event, status_130, promoting_new_file_metadata_state)
    ∷ (received_heartbeat_event, status_134, promoting_new_file_metadata_with_more_state)
    ∷ (received_heartbeat_event, status_150, ready_state)
    ∷ (new_local_file_event, status_300, broadcasting_all_metadata_received_state)
    ∷ (new_local_file_with_more_event, status_304, broadcasting_all_metadata_received_state)
    ∷ (new_local_file_event, status_320, broadcasting_all_metadata_received_state)
    ∷ (new_local_file_with_more_event, status_324, broadcasting_all_metadata_received_state)
    ∷ (node_only_sends_heartbeats_event, status_100, ready_state)
    ∷ (interrupt_event, status_500, exit_state)
    ∷ []

unfoldable pub syncing_stop_new_states : List (Row State)
syncing_stop_new_states =
    (file_send_tick_event, status_112, syncing_stop_state)
    ∷ (received_heartbeat_event, status_150, syncing_stop_state)
    ∷ (received_heartbeat_event, status_155, syncing_stop_state)
    ∷ (timing_offset_elapsed_event, status_156, ready_state)
    ∷ (interrupt_event, status_500, exit_state)
    ∷ []

unfoldable pub exit_new_states : List (Row State)
exit_new_states = (interrupt_event, status_500, exit_state) ∷ []
