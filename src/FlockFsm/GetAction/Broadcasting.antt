-- ===== src/FlockFsm/GetAction/Broadcasting.antt =====
-- The arms of get_action at the states of a receiver during and after the transfer, the stop and the exit.
use flocksy.Prelude.{List, [], ◌∷◌}
use flocksy.FlockFsm.Types.{
  Action, file_send_tick_event, received_heartbeat_event, received_file_data_event,
  all_data_received_event, new_local_file_event, new_local_file_with_more_event,
  node_only_sends_heartbeats_event, interrupt_event, timing_offset_elapsed_event,
  send_file_data_action, send_heartbeat_action, store_file_data_action,
  add_new_file_to_queue_action, exit_action, send_fake_file_data_action,
}
use flocksy.FlockFsm.Statuses.{
  status_112, status_110, status_111, status_140, status_200, status_113, status_300, status_304,
  status_320, status_324, status_410, status_100, status_500, status_114, status_115, status_145,
  status_117, status_155, status_150, status_116, status_147, status_170, status_171, status_141,
  status_130, status_134, status_156,
}
use flocksy.FlockFsm.Ladder.{Row}

unfoldable pub sending_fake_file_actions : List (Row Action)
sending_fake_file_actions =
    (file_send_tick_event, status_112, send_file_data_action)
    ∷ (received_heartbeat_event, status_110, send_heartbeat_action)
    ∷ (received_heartbeat_event, status_111, send_heartbeat_action)
    ∷ (received_heartbeat_event, status_140, send_heartbeat_action)
    ∷ (received_file_data_event, status_200, store_file_data_action)
    ∷ (all_data_received_event, status_113, send_heartbeat_action)
    ∷ (new_local_file_event, status_300, add_new_file_to_queue_action)
    ∷ (new_local_file_with_more_event, status_304, add_new_file_to_queue_action)
    ∷ (new_local_file_event, status_320, add_new_file_to_queue_action)
    ∷ (new_local_file_with_more_event, status_324, add_new_file_to_queue_action)
    ∷ (received_heartbeat_event, status_410, send_heartbeat_action)
    ∷ (node_only_sends_heartbeats_event, status_100, send_heartbeat_action)
    ∷ (interrupt_event, status_500, exit_action)
    ∷ []

unfoldable pub sending_fake_file_with_more_alpha_actions : List (Row Action)
sending_fake_file_with_more_alpha_actions =
    (file_send_tick_event, status_112, send_file_data_action)
    ∷ (received_heartbeat_event, status_114, send_heartbeat_action)
    ∷ (received_heartbeat_event, status_115, send_heartbeat_action)
    ∷ (received_heartbeat_event, status_145, send_heartbeat_action)
    ∷ (received_file_data_event, status_200, store_file_data_action)
    ∷ (all_data_received_event, status_113, send_heartbeat_action)
    ∷ (new_local_file_event, status_300, add_new_file_to_queue_action)
    ∷ (new_local_file_with_more_event, status_304, add_new_file_to_queue_action)
    ∷ (new_local_file_event, status_320, add_new_file_to_queue_action)
    ∷ (new_local_file_with_more_event, status_324, add_new_file_to_queue_action)
    ∷ (received_heartbeat_event, status_410, send_heartbeat_action)
    ∷ (node_only_sends_heartbeats_event, status_100, send_heartbeat_action)
    ∷ (interrupt_event, status_500, exit_action)
    ∷ []

unfoldable pub sending_fake_file_with_more_beta_actions : List (Row Action)
sending_fake_file_with_more_beta_actions =
    (file_send_tick_event, status_112, send_file_data_action)
    ∷ (received_heartbeat_event, status_114, send_heartbeat_action)
    ∷ (received_heartbeat_event, status_117, send_heartbeat_action)
    ∷ (received_heartbeat_event, status_145, send_heartbeat_action)
    ∷ (received_file_data_event, status_200, store_file_data_action)
    ∷ (all_data_received_event, status_113, send_heartbeat_action)
    ∷ (new_local_file_event, status_300, add_new_file_to_queue_action)
    ∷ (new_local_file_with_more_event, status_304, add_new_file_to_queue_action)
    ∷ (new_local_file_event, status_320, add_new_file_to_queue_action)
    ∷ (new_local_file_with_more_event, status_324, add_new_file_to_queue_action)
    ∷ (received_heartbeat_event, status_410, send_heartbeat_action)
    ∷ (node_only_sends_heartbeats_event, status_100, send_heartbeat_action)
    ∷ (interrupt_event, status_500, exit_action)
    ∷ []

unfoldable pub broadcasting_all_received_actions : List (Row Action)
broadcasting_all_received_actions =
    (file_send_tick_event, status_112, send_fake_file_data_action)
    ∷ (received_heartbeat_event, status_110, send_heartbeat_action)
    ∷ (received_heartbeat_event, status_111, send_heartbeat_action)
    ∷ (received_heartbeat_event, status_140, send_heartbeat_action)
    ∷ (received_heartbeat_event, status_155, send_heartbeat_action)
    ∷ (new_local_file_event, status_300, add_new_file_to_queue_action)
    ∷ (new_local_file_with_more_event, status_304, add_new_file_to_queue_action)
    ∷ (new_local_file_event, status_320, add_new_file_to_queue_action)
    ∷ (new_local_file_with_more_event, status_324, add_new_file_to_queue_action)
    ∷ (node_only_sends_heartbeats_event, status_100, send_heartbeat_action)
    ∷ (interrupt_event, status_500, exit_action)
    ∷ []

unfoldable pub broadcasting_all_received_with_more_alpha_actions : List (Row Action)
broadcasting_all_received_with_more_alpha_actions =
    (file_send_tick_event, status_112, send_fake_file_data_action)
    ∷ (received_heartbeat_event, status_114, send_heartbeat_action)
    ∷ (received_heartbeat_event, status_115, send_heartbeat_action)
    ∷ (received_heartbeat_event, status_145, send_heartbeat_action)
    ∷ (received_heartbeat_event, status_150, send_heartbeat_action)
    ∷ (received_heartbeat_event, status_116, send_heartbeat_action)
    ∷ (new_local_file_event, status_300, add_new_file_to_queue_action)
    ∷ (new_local_file_with_more_event, status_304, add_new_file_to_queue_action)
    ∷ (new_local_file_event, status_320, add_new_file_to_queue_action)
    ∷ (new_local_file_with_more_event, status_324, add_new_file_to_queue_action)
    ∷ (node_only_sends_heartbeats_event, status_100, send_heartbeat_action)
    ∷ (interrupt_event, status_500, exit_action)
    ∷ []

unfoldable pub broadcasting_all_received_with_more_beta_actions : List (Row Action)
broadcasting_all_received_with_more_beta_actions =
    (file_send_tick_event, status_112, send_fake_file_data_action)
    ∷ (received_heartbeat_event, status_116, send_heartbeat_action)
    ∷ (received_heartbeat_event, status_117, send_heartbeat_action)
    ∷ (received_heartbeat_event, status_147, send_heartbeat_action)
    ∷ (received_heartbeat_event, status_150, send_heartbeat_action)
    ∷ (received_heartbeat_event, status_114, send_heartbeat_action)
    ∷ (new_local_file_event, status_300, add_new_file_to_queue_action)
    ∷ (new_local_file_with_more_event, status_304, add_new_file_to_queue_action)
    ∷ (new_local_file_event, status_320, add_new_file_to_queue_action)
    ∷ (new_local_file_with_more_event, status_324, add_new_file_to_queue_action)
    ∷ (node_only_sends_heartbeats_event, status_100, send_heartbeat_action)
    ∷ (interrupt_event, status_500, exit_action)
    ∷ []

unfoldable pub broadcasting_all_metadata_received_actions : List (Row Action)
broadcasting_all_metadata_received_actions =
    (received_heartbeat_event, status_170, send_heartbeat_action)
    ∷ (received_heartbeat_event, status_171, send_heartbeat_action)
    ∷ (received_heartbeat_event, status_141, send_heartbeat_action)
    ∷ (received_heartbeat_event, status_130, send_heartbeat_action)
    ∷ (received_heartbeat_event, status_134, send_heartbeat_action)
    ∷ (received_heartbeat_event, status_150, send_heartbeat_action)
    ∷ (new_local_file_event, status_300, add_new_file_to_queue_action)
    ∷ (new_local_file_with_more_event, status_304, add_new_file_to_queue_action)
    ∷ (new_local_file_event, status_320, add_new_file_to_queue_action)
    ∷ (new_local_file_with_more_event, status_324, add_new_file_to_queue_action)
    ∷ (node_only_sends_heartbeats_event, status_100, send_heartbeat_action)
    ∷ (interrupt_event, status_500, exit_action)
    ∷ []

unfoldable pub syncing_stop_actions : List (Row Action)
syncing_stop_actions =
    (file_send_tick_event, status_112, send_fake_file_data_action)
    ∷ (received_heartbeat_event, status_150, send_heartbeat_action)
    ∷ (received_heartbeat_event, status_155, send_heartbeat_action)
    ∷ (timing_offset_elapsed_event, status_156, send_heartbeat_action)
    ∷ (interrupt_event, status_500, exit_action)
    ∷ []

unfoldable pub exit_actions : List (Row Action)
exit_actions = (interrupt_event, status_500, exit_action) ∷ []
