-- ===== src/FlockFsm/GetHeartbeatStatus/Sending.antt =====
-- The arms of get_heartbeat_status at the states of a sender.
use flocksy.Prelude.{List, [], ◌∷◌}
use flocksy.FlockFsm.Types.{
  Status, received_heartbeat_event, timing_offset_elapsed_event, new_local_file_event,
  new_local_file_with_more_event, local_file_metadata_change_event,
  local_file_metadata_change_with_more_event, interrupt_event, all_nodes_have_file_event,
  all_nodes_have_all_files_event, all_nodes_have_all_metadata_changes_with_more_event,
  file_send_tick_event, received_fake_file_data_event, node_only_sends_heartbeats_event,
  all_nodes_have_file_with_more_event,
}
use flocksy.FlockFsm.Statuses.{
  status_131, status_132, status_300, status_304, status_320, status_324, status_500, status_135,
  status_171, status_141, status_172, status_175, status_177, status_178, status_112, status_111,
  status_140, status_210, status_142, status_410, status_100, status_115, status_146, status_130,
  status_110, status_134, status_114, status_170, status_150, status_174, status_200, status_155,
  status_116,
}
use flocksy.FlockFsm.Ladder.{Row}

unfoldable pub sending_new_file_metadata_heartbeats : List (Row Status)
sending_new_file_metadata_heartbeats =
    (received_heartbeat_event, status_131, status_130)
    ∷ (timing_offset_elapsed_event, status_132, status_110)
    ∷ (new_local_file_event, status_300, status_130)
    ∷ (new_local_file_with_more_event, status_304, status_130)
    ∷ (local_file_metadata_change_event, status_320, status_130)
    ∷ (local_file_metadata_change_with_more_event, status_324, status_130)
    ∷ (interrupt_event, status_500, status_500)
    ∷ []

unfoldable pub sending_new_file_metadata_with_more_heartbeats : List (Row Status)
sending_new_file_metadata_with_more_heartbeats =
    (received_heartbeat_event, status_135, status_134)
    ∷ (timing_offset_elapsed_event, status_132, status_114)
    ∷ (new_local_file_event, status_300, status_134)
    ∷ (new_local_file_with_more_event, status_304, status_134)
    ∷ (local_file_metadata_change_event, status_320, status_134)
    ∷ (local_file_metadata_change_with_more_event, status_324, status_134)
    ∷ (interrupt_event, status_500, status_500)
    ∷ []

unfoldable pub sending_file_metadata_change_heartbeats : List (Row Status)
sending_file_metadata_change_heartbeats =
    (received_heartbeat_event, status_171, status_170)
    ∷ (received_heartbeat_event, status_141, status_170)
    ∷ (all_nodes_have_file_event, status_172, status_150)
    ∷ (new_local_file_event, status_300, status_170)
    ∷ (new_local_file_with_more_event, status_304, status_170)
    ∷ (local_file_metadata_change_event, status_320, status_170)
    ∷ (local_file_metadata_change_with_more_event, status_324, status_170)
    ∷ (interrupt_event, status_500, status_500)
    ∷ []

unfoldable pub sending_file_metadata_change_with_more_heartbeats : List (Row Status)
sending_file_metadata_change_with_more_heartbeats =
    (received_heartbeat_event, status_175, status_174)
    ∷ (received_heartbeat_event, status_141, status_174)
    ∷ (all_nodes_have_all_files_event, status_172, status_150)
    ∷ (all_nodes_have_all_metadata_changes_with_more_event, status_177, status_130)
    ∷ (all_nodes_have_all_metadata_changes_with_more_event, status_178, status_134)
    ∷ (new_local_file_event, status_300, status_174)
    ∷ (new_local_file_with_more_event, status_304, status_174)
    ∷ (local_file_metadata_change_event, status_320, status_174)
    ∷ (local_file_metadata_change_with_more_event, status_324, status_174)
    ∷ (interrupt_event, status_500, status_500)
    ∷ []

unfoldable pub sending_new_file_heartbeats : List (Row Status)
sending_new_file_heartbeats =
    (file_send_tick_event, status_112, status_200)
    ∷ (received_heartbeat_event, status_111, status_110)
    ∷ (received_heartbeat_event, status_140, status_110)
    ∷ (received_fake_file_data_event, status_210, status_110)
    ∷ (all_nodes_have_file_event, status_142, status_155)
    ∷ (new_local_file_event, status_300, status_110)
    ∷ (new_local_file_with_more_event, status_304, status_110)
    ∷ (local_file_metadata_change_event, status_320, status_110)
    ∷ (local_file_metadata_change_with_more_event, status_324, status_110)
    ∷ (received_heartbeat_event, status_410, status_410)
    ∷ (node_only_sends_heartbeats_event, status_100, status_410)
    ∷ (interrupt_event, status_500, status_500)
    ∷ []

unfoldable pub sending_new_file_with_more_alpha_heartbeats : List (Row Status)
sending_new_file_with_more_alpha_heartbeats =
    (file_send_tick_event, status_112, status_200)
    ∷ (received_heartbeat_event, status_115, status_114)
    ∷ (received_heartbeat_event, status_140, status_114)
    ∷ (received_fake_file_data_event, status_210, status_114)
    ∷ (all_nodes_have_file_event, status_142, status_110)
    ∷ (all_nodes_have_file_with_more_event, status_146, status_116)
    ∷ (new_local_file_event, status_300, status_114)
    ∷ (new_local_file_with_more_event, status_304, status_114)
    ∷ (local_file_metadata_change_event, status_320, status_114)
    ∷ (local_file_metadata_change_with_more_event, status_324, status_114)
    ∷ (received_heartbeat_event, status_410, status_410)
    ∷ (node_only_sends_heartbeats_event, status_100, status_410)
    ∷ (interrupt_event, status_500, status_500)
    ∷ []

unfoldable pub sending_new_file_with_more_beta_heartbeats : List (Row Status)
sending_new_file_with_more_beta_heartbeats =
    (file_send_tick_event, status_112, status_200)
    ∷ (received_heartbeat_event, status_115, status_116)
    ∷ (received_heartbeat_event, status_140, status_116)
    ∷ (received_fake_file_data_event, status_210, status_116)
    ∷ (all_nodes_have_file_event, status_142, status_110)
    ∷ (all_nodes_have_file_with_more_event, status_146, status_114)
    ∷ (new_local_file_event, status_300, status_116)
    ∷ (new_local_file_with_more_event, status_304, status_116)
    ∷ (local_file_metadata_change_event, status_320, status_116)
    ∷ (local_file_metadata_change_with_more_event, status_324, status_116)
    ∷ (received_heartbeat_event, status_410, status_410)
    ∷ (node_only_sends_heartbeats_event, status_100, status_410)
    ∷ (interrupt_event, status_500, status_500)
    ∷ []
