-- ===== src/FlockFsm/GetHeartbeatStatus/Broadcasting.antt =====
-- The arms of get_heartbeat_status at the states of a receiver during and after the transfer, the stop and the exit.
use flocksy.Prelude.{List, [], ◌∷◌}
use flocksy.FlockFsm.Types.{
  Status, file_send_tick_event, received_heartbeat_event, received_file_data_event,
  all_data_received_event, new_local_file_event, new_local_file_with_more_event,
  node_only_sends_heartbeats_event, interrupt_event, timing_offset_elapsed_event,
}
use flocksy.FlockFsm.Statuses.{
  status_112, status_110, status_111, status_140, status_200, status_113, status_300, status_304,
  status_320, status_324, status_410, status_100, status_500, status_114, status_115, status_145,
  status_117, status_155, status_150, status_116, status_147, status_170, status_171, status_141,
  status_130, status_134, status_156, status_210, status_131, status_135,
}
use flocksy.FlockFsm.Ladder.{Row}

unfoldable pub sending_fake_file_heartbeats : List (Row Status)
sending_fake_file_heartbeats =
    (file_send_tick_event, status_112, status_210)
    ∷ (received_heartbeat_event, status_110, status_111)
    ∷ (received_heartbeat_event, status_111, status_111)
    ∷ (received_heartbeat_event, status_140, status_111)
    ∷ (received_file_data_event, status_200, status_111)
    ∷ (all_data_received_event, status_113, status_140)
    ∷ (new_local_file_event, status_300, status_111)
    ∷ (new_local_file_with_more_event, status_304, status_111)
    ∷ (new_local_file_event, status_320, status_111)
    ∷ (new_local_file_with_more_event, status_324, status_111)
    ∷ (received_heartbeat_event, status_410, status_410)
    ∷ (node_only_sends_heartbeats_event, status_100, status_410)
    ∷ (interrupt_event, status_500, status_500)
    ∷ []

unfoldable pub sending_fake_file_with_more_alpha_heartbeats : List (Row Status)
sending_fake_file_with_more_alpha_heartbeats =
    (file_send_tick_event, status_112, status_210)
    ∷ (received_heartbeat_event, status_114, status_115)
    ∷ (received_heartbeat_event, status_115, status_115)
    ∷ (received_heartbeat_event, status_145, status_115)
    ∷ (received_file_data_event, status_200, status_115)
    ∷ (all_data_received_event, status_113, status_145)
    ∷ (new_local_file_event, status_300, status_115)
    ∷ (new_local_file_with_more_event, status_304, status_115)
    ∷ (new_local_file_event, status_320, status_115)
    ∷ (new_local_file_with_more_event, status_324, status_115)
    ∷ (received_heartbeat_event, status_410, status_410)
    ∷ (node_only_sends_heartbeats_event, status_100, status_410)
    ∷ (interrupt_event, status_500, status_500)
    ∷ []

unfoldable pub sending_fake_file_with_more_beta_heartbeats : List (Row Status)
sending_fake_file_with_more_beta_heartbeats =
    (file_send_tick_event, status_112, status_210)
    ∷ (received_heartbeat_event, status_114, status_117)
    ∷ (received_heartbeat_event, status_117, status_117)
    ∷ (received_heartbeat_event, status_145, status_117)
    ∷ (received_file_data_event, status_200, status_117)
    ∷ (all_data_received_event, status_113, status_147)
    ∷ (new_local_file_event, status_300, status_117)
    ∷ (new_local_file_with_more_event, status_304, status_117)
    ∷ (new_local_file_event, status_320, status_117)
    ∷ (new_local_file_with_more_event, status_324, status_117)
    ∷ (received_heartbeat_event, status_410, status_410)
    ∷ (node_only_sends_heartbeats_event, status_100, status_410)
    ∷ (interrupt_event, status_500, status_500)
    ∷ []

unfoldable pub broadcasting_all_received_heartbeats : List (Row Status)
broadcasting_all_received_heartbeats =
    (file_send_tick_event, status_112, status_210)
    ∷ (received_heartbeat_event, status_110, status_140)
    ∷ (received_heartbeat_event, status_111, status_140)
    ∷ (received_heartbeat_event, status_140, status_140)
    ∷ (received_heartbeat_event, status_155, status_155)
    ∷ (new_local_file_event, status_300, status_140)
    ∷ (new_local_file_with_more_event, status_304, status_140)
    ∷ (new_local_file_event, status_320, status_140)
    ∷ (new_local_file_with_more_event, status_324, status_140)
    ∷ (node_only_sends_heartbeats_event, status_100, status_410)
    ∷ (interrupt_event, status_500, status_500)
    ∷ []

unfoldable pub broadcasting_all_received_with_more_alpha_heartbeats : List (Row Status)
broadcasting_all_received_with_more_alpha_heartbeats =
    (file_send_tick_event, status_112, status_210)
    ∷ (received_heartbeat_event, status_114, status_145)
    ∷ (received_heartbeat_event, status_115, status_145)
    ∷ (received_heartbeat_event, status_145, status_145)
    ∷ (received_heartbeat_event, status_150, status_111)
    ∷ (received_heartbeat_event, status_116, status_117)
    ∷ (new_local_file_event, status_300, status_145)
    ∷ (new_local_file_with_more_event, status_304, status_145)
    ∷ (new_local_file_event, status_320, status_145)
    ∷ (new_local_file_with_more_event, status_324, status_145)
    ∷ (node_only_sends_heartbeats_event, status_100, status_410)
    ∷ (interrupt_event, status_500, status_500)
    ∷ []

unfoldable pub broadcasting_all_received_with_more_beta_heartbeats : List (Row Status)
broadcasting_all_received_with_more_beta_heartbeats =
    (file_send_tick_event, status_112, status_210)
    ∷ (received_heartbeat_event, status_116, status_147)
    ∷ (received_heartbeat_event, status_117, status_147)
    ∷ (received_heartbeat_event, status_147, status_147)
    ∷ (received_heartbeat_event, status_150, status_111)
    ∷ (received_heartbeat_event, status_114, status_115)
    ∷ (new_local_file_event, status_300, status_147)
    ∷ (new_local_file_with_more_event, status_304, status_147)
    ∷ (new_local_file_event, status_320, status_147)
    ∷ (new_local_file_with_more_event, status_324, status_147)
    ∷ (node_only_sends_heartbeats_event, status_100, status_410)
    ∷ (interrupt_event, status_500, status_500)
    ∷ []

unfoldable pub broadcasting_all_metadata_received_heartbeats : List (Row Status)
broadcasting_all_metadata_received_heartbeats =
    (received_heartbeat_event, status_170, status_141)
    ∷ (received_heartbeat_event, status_171, status_141)
    ∷ (received_heartbeat_event, status_141, status_141)
    ∷ (received_heartbeat_event, status_130, status_131)
    ∷ (received_heartbeat_event, status_134, status_135)
    ∷ (received_heartbeat_event, status_150, status_150)
    ∷ (new_local_file_event, status_300, status_141)
    ∷ (new_local_file_with_more_event, status_304, status_141)
    ∷ (new_local_file_event, status_320, status_141)
    ∷ (new_local_file_with_more_event, status_324, status_141)
    ∷ (node_only_sends_heartbeats_event, status_100, status_410)
    ∷ (interrupt_event, status_500, status_500)
    ∷ []

unfoldable pub syncing_stop_heartbeats : List (Row Status)
syncing_stop_heartbeats =
    (file_send_tick_event, status_112, status_210)
    ∷ (received_heartbeat_event, status_150, status_155)
    ∷ (received_heartbeat_event, status_155, status_155)
    ∷ (timing_offset_elapsed_event, status_156, status_100)
    ∷ (interrupt_event, status_500, status_500)
    ∷ []

unfoldable pub exit_heartbeats : List (Row Status)
exit_heartbeats = (interrupt_event, status_500, status_500) ∷ []
