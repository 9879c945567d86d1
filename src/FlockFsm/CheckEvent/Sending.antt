-- ===== src/FlockFsm/CheckEvent/Sending.antt =====
-- The arms of check_event at the states of a sender.
use flocksy.Prelude.{List, [], ◌∷◌, Bool, true}
use flocksy.FlockFsm.Types.{
  received_heartbeat_event, timing_offset_elapsed_event, new_local_file_event,
  new_local_file_with_more_event, local_file_metadata_change_event,
  local_file_metadata_change_with_more_event, interrupt_event, all_nodes_have_file_event,
  all_nodes_have_all_files_event, all_nodes_have_all_metadata_changes_with_more_event,
  file_send_tick_event, received_fake_file_data_event, node_only_sends_heartbeats_event,
  all_nodes_have_file_with_more_event,
}
use flocksy.FlockFsm.Statuses.{
  status_131, status_132, status_300, status_304, status_320, status_324, status_500, status_135,
  status_171, status_141, status_172, status_175, status_177, status_178, status_112, status_111,
  status_140, status_210, status_142, status_410, status_100, status_115, status_146,
}
use flocksy.FlockFsm.Ladder.{Row}

unfoldable pub sending_new_file_metadata_checks : List (Row Bool)
sending_new_file_metadata_checks =
    (received_heartbeat_event, status_131, true)
    ∷ (timing_offset_elapsed_event, status_132, true)
    ∷ (new_local_file_event, status_300, true)
    ∷ (new_local_file_with_more_event, status_304, true)
    ∷ (local_file_metadata_change_event, status_320, true)
    ∷ (local_file_metadata_change_with_more_event, status_324, true)
    ∷ (interrupt_event, status_500, true)
    ∷ []

unfoldable pub sending_new_file_metadata_with_more_checks : List (Row Bool)
sending_new_file_metadata_with_more_checks =
    (received_heartbeat_event, status_135, true)
    ∷ (timing_offset_elapsed_event, status_132, true)
    ∷ (new_local_file_event, status_300, true)
    ∷ (new_local_file_with_more_event, status_304, true)
    ∷ (local_file_metadata_change_event, status_320, true)
    ∷ (local_file_metadata_change_with_more_event, status_324, true)
    ∷ (interrupt_event, status_500, true)
    ∷ []

unfoldable pub sending_file_metadata_change_checks : List (Row Bool)
sending_file_metadata_change_checks =
    (received_heartbeat_event, status_171, true)
    ∷ (received_heartbeat_event, status_141, true)
    ∷ (all_nodes_have_file_event, status_172, true)
    ∷ (new_local_file_event, status_300, true)
    ∷ (new_local_file_with_more_event, status_304, true)
    ∷ (local_file_metadata_change_event, status_320, true)
    ∷ (local_file_metadata_change_with_more_event, status_324, true)
    ∷ (interrupt_event, status_500, true)
    ∷ []

unfoldable pub sending_file_metadata_change_with_more_checks : List (Row Bool)
sending_file_metadata_change_with_more_checks =
    (received_heartbeat_event, status_175, true)
    ∷ (received_heartbeat_event, status_141, true)
    ∷ (all_nodes_have_all_files_event, status_172, true)
    ∷ (all_nodes_have_all_metadata_changes_with_more_event, status_177, true)
    ∷ (all_nodes_have_all_metadata_changes_with_more_event, status_178, true)
    ∷ (new_local_file_event, status_300, true)
    ∷ (new_local_file_with_more_event, status_304, true)
    ∷ (local_file_metadata_change_event, status_320, true)
    ∷ (local_file_metadata_change_with_more_event, status_324, true)
    ∷ (interrupt_event, status_500, true)
    ∷ []

unfoldable pub sending_new_file_checks : List (Row Bool)
sending_new_file_checks =
    (file_send_tick_event, status_112, true)
    ∷ (received_heartbeat_event, status_111, true)
    ∷ (received_heartbeat_event, status_140, true)
    ∷ (received_fake_file_data_event, status_210, true)
    ∷ (all_nodes_have_file_event, status_142, true)
    ∷ (new_local_file_event, status_300, true)
    ∷ (new_local_file_with_more_event, status_304, true)
    ∷ (local_file_metadata_change_event, status_320, true)
    ∷ (local_file_metadata_change_with_more_event, status_324, true)
    ∷ (received_heartbeat_event, status_410, true)
    ∷ (node_only_sends_heartbeats_event, status_100, true)
    ∷ (interrupt_event, status_500, true)
    ∷ []

unfoldable pub sending_new_file_with_more_alpha_checks : List (Row Bool)
sending_new_file_with_more_alpha_checks =
    (file_send_tick_event, status_112, true)
    ∷ (received_heartbeat_event, status_115, true)
    ∷ (received_heartbeat_event, status_140, true)
    ∷ (received_fake_file_data_event, status_210, true)
    ∷ (all_nodes_have_file_event, status_142, true)
    ∷ (all_nodes_have_file_with_more_event, status_146, true)
    ∷ (new_local_file_event, status_300, true)
    ∷ (new_local_file_with_more_event, status_304, true)
    ∷ (local_file_metadata_change_event, status_320, true)
    ∷ (local_file_metadata_change_with_more_event, status_324, true)
    ∷ (received_heartbeat_event, status_410, true)
    ∷ (node_only_sends_heartbeats_event, status_100, true)
    ∷ (interrupt_event, status_500, true)
    ∷ []

unfoldable pub sending_new_file_with_more_beta_checks : List (Row Bool)
sending_new_file_with_more_beta_checks =
    (file_send_tick_event, status_112, true)
    ∷ (received_heartbeat_event, status_115, true)
    ∷ (received_heartbeat_event, status_140, true)
    ∷ (received_fake_file_data_event, status_210, true)
    ∷ (all_nodes_have_file_event, status_142, true)
    ∷ (all_nodes_have_file_with_more_event, status_146, true)
    ∷ (new_local_file_event, status_300, true)
    ∷ (new_local_file_with_more_event, status_304, true)
    ∷ (local_file_metadata_change_event, status_320, true)
    ∷ (local_file_metadata_change_with_more_event, status_324, true)
    ∷ (received_heartbeat_event, status_410, true)
    ∷ (node_only_sends_heartbeats_event, status_100, true)
    ∷ (interrupt_event, status_500, true)
    ∷ []
