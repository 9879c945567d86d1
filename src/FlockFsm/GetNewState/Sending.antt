-- ===== src/FlockFsm/GetNewState/Sending.antt =====
-- The arms of get_new_state at the states of a sender.
use flocksy.Prelude.{List, [], ◌∷◌}
use flocksy.FlockFsm.Types.{
  State, received_heartbeat_event, timing_offset_elapsed_event, new_local_file_event,
  new_local_file_with_more_event, local_file_metadata_change_event,
  local_file_metadata_change_with_more_event, interrupt_event, all_nodes_have_file_event,
  all_nodes_have_all_files_event, all_nodes_have_all_metadata_changes_with_more_event,
  file_send_tick_event, received_fake_file_data_event, node_only_sends_heartbeats_event,
  all_nodes_have_file_with_more_event, sending_new_file_metadata_state, sending_new_file_state,
  exit_state, sending_new_file_metadata_with_more_state, sending_new_file_with_more_alpha_state,
  sending_file_metadata_change_state, ready_state, sending_file_metadata_change_with_more_state,
  syncing_stop_state, sending_new_file_with_more_beta_state,
}
use flocksy.FlockFsm.Statuses.{
  status_131, status_132, status_300, status_304, status_320, status_324, status_500, status_135,
  status_171, status_141, status_172, status_175, status_177, status_178, status_112, status_111,
  status_140, status_210, status_142, status_410, status_100, status_115, status_146,
}
use flocksy.FlockFsm.Ladder.{Row}

unfoldable pub sending_new_file_metadata_new_states : List (Row State)
sending_new_file_metadata_new_states =
    (received_heartbeat_event, status_131, sending_new_file_metadata_state)
    ∷ (timing_offset_elapsed_event, status_132, sending_new_file_state)
    ∷ (new_local_file_event, status_300, sending_new_file_metadata_state)
    ∷ (new_local_file_with_more_event, status_304, sending_new_file_metadata_state)
    ∷ (local_file_metadata_change_event, status_320, sending_new_file_metadata_state)
    ∷ (local_file_metadata_change_with_more_event, status_324, sending_new_file_metadata_state)
    ∷ (interrupt_event, status_500, exit_state)
    ∷ []

unfoldable pub sending_new_file_metadata_with_more_new_states : List (Row State)
sending_new_file_metadata_with_more_new_states =
    (received_heartbeat_event, status_135, sending_new_file_metadata_with_more_state)
    ∷ (timing_offset_elapsed_event, status_132, sending_new_file_with_more_alpha_state)
    ∷ (new_local_file_event, status_300, sending_new_file_metadata_with_more_state)
    ∷ (new_local_file_with_more_event, status_304, sending_new_file_metadata_with_more_state)
    ∷ (local_file_metadata_change_event, status_320, sending_new_file_metadata_with_more_state)
    ∷ (
      local_file_metadata_change_with_more_event, status_324,
      sending_new_file_metadata_with_more_state,
    )
    ∷ (interrupt_event, status_500, exit_state)
    ∷ []

unfoldable pub sending_file_metadata_change_new_states : List (Row State)
sending_file_metadata_change_new_states =
    (received_heartbeat_event, status_171, sending_file_metadata_change_state)
    ∷ (received_heartbeat_event, status_141, sending_file_metadata_change_state)
    ∷ (all_nodes_have_file_event, status_172, ready_state)
    ∷ (new_local_file_event, status_300, sending_file_metadata_change_state)
    ∷ (new_local_file_with_more_event, status_304, sending_file_metadata_change_state)
    ∷ (local_file_metadata_change_event, status_320, sending_file_metadata_change_state)
    ∷ (local_file_metadata_change_with_more_event, status_324, sending_file_metadata_change_state)
    ∷ (interrupt_event, status_500, exit_state)
    ∷ []

unfoldable pub sending_file_metadata_change_with_more_new_states : List (Row State)
sending_file_metadata_change_with_more_new_states =
    (received_heartbeat_event, status_175, sending_file_metadata_change_with_more_state)
    ∷ (received_heartbeat_event, status_141, sending_file_metadata_change_with_more_state)
    ∷ (all_nodes_have_all_files_event, status_172, ready_state)
    ∷ (
      all_nodes_have_all_metadata_changes_with_more_event, status_177,
      sending_new_file_metadata_state,
    )
    ∷ (
      all_nodes_have_all_metadata_changes_with_more_event, status_178,
      sending_new_file_metadata_with_more_state,
    )
    ∷ (new_local_file_event, status_300, sending_file_metadata_change_with_more_state)
    ∷ (new_local_file_with_more_event, status_304, sending_file_metadata_change_with_more_state)
    ∷ (local_file_metadata_change_event, status_320, sending_file_metadata_change_with_more_state)
    ∷ (
      local_file_metadata_change_with_more_event, status_324,
      sending_file_metadata_change_with_more_state,
    )
    ∷ (interrupt_event, status_500, exit_state)
    ∷ []

unfoldable pub sending_new_file_new_states : List (Row State)
sending_new_file_new_states =
    (file_send_tick_event, status_112, sending_new_file_state)
    ∷ (received_heartbeat_event, status_111, sending_new_file_state)
    ∷ (received_heartbeat_event, status_140, sending_new_file_state)
    ∷ (received_fake_file_data_event, status_210, sending_new_file_state)
    ∷ (all_nodes_have_file_event, status_142, syncing_stop_state)
    ∷ (new_local_file_event, status_300, sending_new_file_state)
    ∷ (new_local_file_with_more_event, status_304, sending_new_file_state)
    ∷ (local_file_metadata_change_event, status_320, sending_new_file_state)
    ∷ (local_file_metadata_change_with_more_event, status_324, sending_new_file_state)
    ∷ (received_heartbeat_event, status_410, ready_state)
    ∷ (node_only_sends_heartbeats_event, status_100, ready_state)
    ∷ (interrupt_event, status_500, exit_state)
    ∷ []

unfoldable pub sending_new_file_with_more_alpha_new_states : List (Row State)
sending_new_file_with_more_alpha_new_states =
    (file_send_tick_event, status_112, sending_new_file_with_more_alpha_state)
    ∷ (received_heartbeat_event, status_115, sending_new_file_with_more_alpha_state)
    ∷ (received_heartbeat_event, status_140, sending_new_file_with_more_alpha_state)
    ∷ (received_fake_file_data_event, status_210, sending_new_file_with_more_alpha_state)
    ∷ (all_nodes_have_file_event, status_142, sending_new_file_state)
    ∷ (all_nodes_have_file_with_more_event, status_146, sending_new_file_with_more_beta_state)
    ∷ (new_local_file_event, status_300, sending_new_file_with_more_alpha_state)
    ∷ (new_local_file_with_more_event, status_304, sending_new_file_with_more_alpha_state)
    ∷ (local_file_metadata_change_event, status_320, sending_new_file_with_more_alpha_state)
    ∷ (
      local_file_metadata_change_with_more_event, status_324,
      sending_new_file_with_more_alpha_state,
    )
    ∷ (received_heartbeat_event, status_410, ready_state)
    ∷ (node_only_sends_heartbeats_event, status_100, ready_state)
    ∷ (interrupt_event, status_500, exit_state)
    ∷ []

unfoldable pub sending_new_file_with_more_beta_new_states : List (Row State)
sending_new_file_with_more_beta_new_states =
    (file_send_tick_event, status_112, sending_new_file_with_more_beta_state)
    ∷ (received_heartbeat_event, status_115, sending_new_file_with_more_beta_state)
    ∷ (received_heartbeat_event, status_140, sending_new_file_with_more_beta_state)
    ∷ (received_fake_file_data_event, status_210, sending_new_file_with_more_beta_state)
    ∷ (all_nodes_have_file_event, status_142, sending_new_file_state)
    ∷ (all_nodes_have_file_with_more_event, status_146, sending_new_file_with_more_alpha_state)
    ∷ (new_local_file_event, status_300, sending_new_file_with_more_beta_state)
    ∷ (new_local_file_with_more_event, status_304, sending_new_file_with_more_beta_state)
    ∷ (local_file_metadata_change_event, status_320, sending_new_file_with_more_beta_state)
    ∷ (
      local_file_metadata_change_with_more_event, status_324, sending_new_file_with_more_beta_state,
    )
    ∷ (received_heartbeat_event, status_410, ready_state)
    ∷ (node_only_sends_heartbeats_event, status_100, ready_state)
    ∷ (interrupt_event, status_500, exit_state)
    ∷ []
