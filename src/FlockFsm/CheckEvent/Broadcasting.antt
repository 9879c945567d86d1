-- ===== src/FlockFsm/CheckEvent/Broadcasting.antt =====
-- The arms of check_event at the states of a receiver during and after the transfer, the stop and the exit.
use flocksy.Prelude.{List, [], ◌∷◌, Bool, true}
use flocksy.FlockFsm.Types.{
  file_send_tick_event, received_heartbeat_event, received_file_data_event, all_data_received_event,
  new_local_file_event, new_local_file_with_more_event, node_only_sends_heartbeats_event,
  interrupt_event, timing_offset_elapsed_event,
}
use flocksy.FlockFsm.Statuses.{
  status_112, status_110, status_111, status_140, status_200, status_113, status_300, status_304,
  status_320, status_324, status_410, status_100, status_500, status_114, status_115, status_145,
  status_117, status_155, status_150, status_116, status_147, status_170, status_171, status_141,
  status_130, status_134, status_156,
}
use flocksy.FlockFsm.Ladder.{Row}

unfoldable pub sending_fake_file_checks : List (Row Bool)
sending_fake_file_checks =
    (file_send_tick_event, status_112, true)
    ∷ (received_heartbeat_event, status_110, true)
    ∷ (received_heartbeat_event, status_111, true)
    ∷ (received_heartbeat_event, status_140, true)
    ∷ (received_file_data_event, status_200, true)
    ∷ (all_data_received_event, status_113, true)
    ∷ (new_local_file_event, status_300, true)
    ∷ (new_local_file_with_more_event, status_304, true)
    ∷ (new_local_file_event, status_320, true)
    ∷ (new_local_file_with_more_event, status_324, true)
    ∷ (received_heartbeat_event, status_410, true)
    ∷ (node_only_sends_heartbeats_event, status_100, true)
    ∷ (interrupt_event, status_500, true)
    ∷ []

unfoldable pub sending_fake_file_with_more_alpha_checks : List (Row Bool)
sending_fake_file_with_more_alpha_checks =
    (file_send_tick_event, status_112, true)
    ∷ (received_heartbeat_event, status_114, true)
    ∷ (received_heartbeat_event, status_115, true)
    ∷ (received_heartbeat_event, status_145, true)
    ∷ (received_file_data_event, status_200, true)
    ∷ (all_data_received_event, status_113, true)
    ∷ (new_local_file_event, status_300, true)
    ∷ (new_local_file_with_more_event, status_304, true)
    ∷ (new_local_file_event, status_320, true)
    ∷ (new_local_file_with_more_event, status_324, true)
    ∷ (received_heartbeat_event, status_410, true)
    ∷ (node_only_sends_heartbeats_event, status_100, true)
    ∷ (interrupt_event, status_500, true)
    ∷ []

unfoldable pub sending_fake_file_with_more_beta_checks : List (Row Bool)
sending_fake_file_with_more_beta_checks =
    (file_send_tick_event, status_112, true)
    ∷ (received_heartbeat_event, status_114, true)
    ∷ (received_heartbeat_event, status_117, true)
    ∷ (received_heartbeat_event, status_145, true)
    ∷ (received_file_data_event, status_200, true)
    ∷ (all_data_received_event, status_113, true)
    ∷ (new_local_file_event, status_300, true)
    ∷ (new_local_file_with_more_event, status_304, true)
    ∷ (new_local_file_event, status_320, true)
    ∷ (new_local_file_with_more_event, status_324, true)
    ∷ (received_heartbeat_event, status_410, true)
    ∷ (node_only_sends_heartbeats_event, status_100, true)
    ∷ (interrupt_event, status_500, true)
    ∷ []

unfoldable pub broadcasting_all_received_checks : List (Row Bool)
broadcasting_all_received_checks =
    (file_send_tick_event, status_112, true)
    ∷ (received_heartbeat_event, status_110, true)
    ∷ (received_heartbeat_event, status_111, true)
    ∷ (received_heartbeat_event, status_140, true)
    ∷ (received_heartbeat_event, status_155, true)
    ∷ (new_local_file_event, status_300, true)
    ∷ (new_local_file_with_more_event, status_304, true)
    ∷ (new_local_file_event, status_320, true)
    ∷ (new_local_file_with_more_event, status_324, true)
    ∷ (node_only_sends_heartbeats_event, status_100, true)
    ∷ (interrupt_event, status_500, true)
    ∷ []

unfoldable pub broadcasting_all_received_with_more_alpha_checks : List (Row Bool)
broadcasting_all_received_with_more_alpha_checks =
    (file_send_tick_event, status_112, true)
    ∷ (received_heartbeat_event, status_114, true)
    ∷ (received_heartbeat_event, status_115, true)
    ∷ (received_heartbeat_event, status_145, true)
    ∷ (received_heartbeat_event, status_150, true)
    ∷ (received_heartbeat_event, status_116, true)
    ∷ (new_local_file_event, status_300, true)
    ∷ (new_local_file_with_more_event, status_304, true)
    ∷ (new_local_file_event, status_320, true)
    ∷ (new_local_file_with_more_event, status_324, true)
    ∷ (node_only_sends_heartbeats_event, status_100, true)
    ∷ (interrupt_event, status_500, true)
    ∷ []

unfoldable pub broadcasting_all_received_with_more_beta_checks : List (Row Bool)
broadcasting_all_received_with_more_beta_checks =
    (file_send_tick_event, status_112, true)
    ∷ (received_heartbeat_event, status_116, true)
    ∷ (received_heartbeat_event, status_117, true)
    ∷ (received_heartbeat_event, status_147, true)
    ∷ (received_heartbeat_event, status_150, true)
    ∷ (received_heartbeat_event, status_114, true)
    ∷ (new_local_file_event, status_300, true)
    ∷ (new_local_file_with_more_event, status_304, true)
    ∷ (new_local_file_event, status_320, true)
    ∷ (new_local_file_with_more_event, status_324, true)
    ∷ (node_only_sends_heartbeats_event, status_100, true)
    ∷ (interrupt_event, status_500, true)
    ∷ []

unfoldable pub broadcasting_all_metadata_received_checks : List (Row Bool)
broadcasting_all_metadata_received_checks =
    (received_heartbeat_event, status_170, true)
    ∷ (received_heartbeat_event, status_171, true)
    ∷ (received_heartbeat_event, status_141, true)
    ∷ (received_heartbeat_event, status_130, true)
    ∷ (received_heartbeat_event, status_134, true)
    ∷ (received_heartbeat_event, status_150, true)
    ∷ (new_local_file_event, status_300, true)
    ∷ (new_local_file_with_more_event, status_304, true)
    ∷ (new_local_file_event, status_320, true)
    ∷ (new_local_file_with_more_event, status_324, true)
    ∷ (node_only_sends_heartbeats_event, status_100, true)
    ∷ (interrupt_event, status_500, true)
    ∷ []

unfoldable pub syncing_stop_checks : List (Row Bool)
syncing_stop_checks =
    (file_send_tick_event, status_112, true)
    ∷ (received_heartbeat_event, status_150, true)
    ∷ (received_heartbeat_event, status_155, true)
    ∷ (timing_offset_elapsed_event, status_156, true)
    ∷ (interrupt_event, status_500, true)
    ∷ []

unfoldable pub exit_checks : List (Row Bool)
exit_checks = (interrupt_event, status_500, true) ∷ []
