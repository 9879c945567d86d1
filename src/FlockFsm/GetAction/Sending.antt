-- ===== src/FlockFsm/GetAction/Sending.antt =====
-- The arms of get_action at the states of a sender.
use flocksy.Prelude.{List, [], ◌∷◌}
use flocksy.FlockFsm.Types.{
  Action, received_heartbeat_event, timing_offset_elapsed_event, new_local_file_event,
  new_local_file_with_more_event, local_file_metadata_change_event,
  local_file_metadata_change_with_more_event, interrupt_event, all_nodes_have_file_event,
  all_nodes_have_all_files_event, all_nodes_have_all_metadata_changes_with_more_event,
  file_send_tick_event, received_fake_file_data_event, node_only_sends_heartbeats_event,
  all_nodes_have_file_with_more_event, send_heartbeat_action, add_new_file_to_queue_action,
  exit_action, send_file_data_action, ignore_action,
}
use flocksy.FlockFsm.Statuses.{
  status_131, status_132, status_300, status_304, status_320, status_324, status_500, status_135,
  status_171, status_141, status_172, status_175, status_177, status_178, status_112, status_111,
  status_140, status_210, status_142, status_410, status_100, status_115, status_146,
}
use flocksy.FlockFsm.Ladder.{Row}

unfoldable pub sending_new_file_metadata_actions : List (Row Action)
sending_new_file_metadata_actions =
    (received_heartbeat_event, status_131, send_heartbeat_action)
    ∷ (timing_offset_elapsed_event, status_132, send_heartbeat_action)
    ∷ (new_local_file_event, status_300, add_new_file_to_queue_action)
    ∷ (new_local_file_with_more_event, status_304, add_new_file_to_queue_action)
    ∷ (local_file_metadata_change_event, status_320, add_new_file_to_queue_action)
    ∷ (local_file_metadata_change_with_more_event, status_324, add_new_file_to_queue_action)
    ∷ (interrupt_event, status_500, exit_action)
    ∷ []

unfoldable pub sending_new_file_metadata_with_more_actions : List (Row Action)
sending_new_file_metadata_with_more_actions =
    (received_heartbeat_event, status_135, send_heartbeat_action)
    ∷ (timing_offset_elapsed_event, status_132, send_heartbeat_action)
    ∷ (new_local_file_event, status_300, send_heartbeat_action)
    ∷ (new_local_file_with_more_event, status_304, send_heartbeat_action)
    ∷ (local_file_metadata_change_event, status_320, add_new_file_to_queue_action)
    ∷ (local_file_metadata_change_with_more_event, status_324, add_new_file_to_queue_action)
    ∷ (interrupt_event, status_500, exit_action)
    ∷ []

unfoldable pub sending_file_metadata_change_actions : List (Row Action)
sending_file_metadata_change_actions =
    (received_heartbeat_event, status_171, send_heartbeat_action)
    ∷ (received_heartbeat_event, status_141, send_heartbeat_action)
    ∷ (all_nodes_have_file_event, status_172, send_heartbeat_action)
    ∷ (new_local_file_event, status_300, add_new_file_to_queue_action)
    ∷ (new_local_file_with_more_event, status_304, add_new_file_to_queue_action)
    ∷ (local_file_metadata_change_event, status_320, add_new_file_to_queue_action)
    ∷ (local_file_metadata_change_with_more_event, status_324, add_new_file_to_queue_action)
    ∷ (interrupt_event, status_500, exit_action)
    ∷ []

unfoldable pub sending_file_metadata_change_with_more_actions : List (Row Action)
sending_file_metadata_change_with_more_actions =
    (received_heartbeat_event, status_175, send_heartbeat_action)
    ∷ (received_heartbeat_event, status_141, send_heartbeat_action)
    ∷ (all_nodes_have_all_files_event, status_172, send_heartbeat_action)
    ∷ (all_nodes_have_all_metadata_changes_with_more_event, status_177, send_heartbeat_action)
    ∷ (all_nodes_have_all_metadata_changes_with_more_event, status_178, send_heartbeat_action)
    ∷ (new_local_file_event, status_300, send_heartbeat_action)
    ∷ (new_local_file_with_more_event, status_304, send_heartbeat_action)
    ∷ (local_file_metadata_change_event, status_320, send_heartbeat_action)
    ∷ (local_file_metadata_change_with_more_event, status_324, send_heartbeat_action)
    ∷ (interrupt_event, status_500, exit_action)
    ∷ []

unfoldable pub sending_new_file_actions : List (Row Action)
sending_new_file_actions =
    (file_send_tick_event, status_112, send_file_data_action)
    ∷ (received_heartbeat_event, status_111, send_heartbeat_action)
    ∷ (received_heartbeat_event, status_140, send_heartbeat_action)
    ∷ (received_fake_file_data_event, status_210, ignore_action)
    ∷ (all_nodes_have_file_event, status_142, send_heartbeat_action)
    ∷ (new_local_file_event, status_300, add_new_file_to_queue_action)
    ∷ (new_local_file_with_more_event, status_304, add_new_file_to_queue_action)
    ∷ (local_file_metadata_change_event, status_320, add_new_file_to_queue_action)
    ∷ (local_file_metadata_change_with_more_event, status_324, add_new_file_to_queue_action)
    ∷ (received_heartbeat_event, status_410, send_heartbeat_action)
    ∷ (node_only_sends_heartbeats_event, status_100, send_heartbeat_action)
    ∷ (interrupt_event, status_500, exit_action)
    ∷ []

unfoldable pub sending_new_file_with_more_alpha_actions : List (Row Action)
sending_new_file_with_more_alpha_actions =
    (file_send_tick_event, status_112, send_file_data_action)
    ∷ (received_heartbeat_event, status_115, send_heartbeat_action)
    ∷ (received_heartbeat_event, status_140, send_heartbeat_action)
    ∷ (received_fake_file_data_event, status_210, ignore_action)
    ∷ (all_nodes_have_file_event, status_142, send_heartbeat_action)
    ∷ (all_nodes_have_file_with_more_event, status_146, send_heartbeat_action)
    ∷ (new_local_file_event, status_300, add_new_file_to_queue_action)
    ∷ (new_local_file_with_more_event, status_304, add_new_file_to_queue_action)
    ∷ (local_file_metadata_change_event, status_320, add_new_file_to_queue_action)
    ∷ (local_file_metadata_change_with_more_event, status_324, add_new_file_to_queue_action)
    ∷ (received_heartbeat_event, status_410, send_heartbeat_action)
    ∷ (node_only_sends_heartbeats_event, status_100, send_heartbeat_action)
    ∷ (interrupt_event, status_500, exit_action)
    ∷ []

unfoldable pub sending_new_file_with_more_beta_actions : List (Row Action)
sending_new_file_with_more_beta_actions =
    (file_send_tick_event, status_112, send_file_data_action)
    ∷ (received_heartbeat_event, status_115, send_heartbeat_action)
    ∷ (received_heartbeat_event, status_140, send_heartbeat_action)
    ∷ (received_fake_file_data_event, status_210, ignore_action)
    ∷ (all_nodes_have_file_event, status_142, send_heartbeat_action)
    ∷ (all_nodes_have_file_with_more_event, status_146, send_heartbeat_action)
    ∷ (new_local_file_event, status_300, add_new_file_to_queue_action)
    ∷ (new_local_file_with_more_event, status_304, add_new_file_to_queue_action)
    ∷ (local_file_metadata_change_event, status_320, add_new_file_to_queue_action)
    ∷ (local_file_metadata_change_with_more_event, status_324, add_new_file_to_queue_action)
    ∷ (received_heartbeat_event, status_410, send_heartbeat_action)
    ∷ (node_only_sends_heartbeats_event, status_100, send_heartbeat_action)
    ∷ (interrupt_event, status_500, exit_action)
    ∷ []
