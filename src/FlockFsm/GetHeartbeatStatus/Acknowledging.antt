-- ===== src/FlockFsm/GetHeartbeatStatus/Acknowledging.antt =====
-- The arms of get_heartbeat_status at the states of a receiver up to the transfer.
use flocksy.Prelude.{List, [], ◌∷◌}
use flocksy.FlockFsm.Types.{
  Status, received_heartbeat_event, new_local_file_event, new_local_file_with_more_event,
  local_file_metadata_change_event, local_file_metadata_change_with_more_event, interrupt_event,
  timing_offset_elapsed_event, all_metadata_received_event,
}
use flocksy.FlockFsm.Statuses.{
  status_130, status_120, status_121, status_124, status_300, status_304, status_320, status_324,
  status_500, status_134, status_125, status_170, status_160, status_161, status_164, status_174,
  status_165, status_131, status_132, status_135, status_136, status_171, status_175, status_141,
  status_173, status_111, status_115,
}
use flocksy.FlockFsm.Ladder.{Row}

unfoldable pub acknowledging_new_file_heartbeats : List (Row Status)
acknowledging_new_file_heartbeats =
    (received_heartbeat_event, status_130, status_131)
    ∷ (received_heartbeat_event, status_120, status_121)
    ∷ (received_heartbeat_event, status_121, status_121)
    ∷ (received_heartbeat_event, status_124, status_125)
    ∷ (new_local_file_event, status_300, status_121)
    ∷ (new_local_file_with_more_event, status_304, status_121)
    ∷ (local_file_metadata_change_event, status_320, status_121)
    ∷ (local_file_metadata_change_with_more_event, status_324, status_121)
    ∷ (interrupt_event, status_500, status_500)
    ∷ []

unfoldable pub acknowledging_new_file_with_more_heartbeats : List (Row Status)
acknowledging_new_file_with_more_heartbeats =
    (received_heartbeat_event, status_134, status_131)
    ∷ (received_heartbeat_event, status_124, status_125)
    ∷ (received_heartbeat_event, status_125, status_125)
    ∷ (new_local_file_event, status_300, status_125)
    ∷ (new_local_file_with_more_event, status_304, status_125)
    ∷ (local_file_metadata_change_event, status_320, status_125)
    ∷ (local_file_metadata_change_with_more_event, status_324, status_125)
    ∷ (interrupt_event, status_500, status_500)
    ∷ []

unfoldable pub acknowledging_file_metadata_change_heartbeats : List (Row Status)
acknowledging_file_metadata_change_heartbeats =
    (received_heartbeat_event, status_170, status_171)
    ∷ (received_heartbeat_event, status_160, status_161)
    ∷ (received_heartbeat_event, status_161, status_161)
    ∷ (received_heartbeat_event, status_164, status_165)
    ∷ (new_local_file_event, status_300, status_161)
    ∷ (new_local_file_with_more_event, status_304, status_161)
    ∷ (new_local_file_event, status_320, status_161)
    ∷ (new_local_file_with_more_event, status_324, status_161)
    ∷ (interrupt_event, status_500, status_500)
    ∷ []

unfoldable pub acknowledging_file_metadata_change_with_more_heartbeats : List (Row Status)
acknowledging_file_metadata_change_with_more_heartbeats =
    (received_heartbeat_event, status_174, status_175)
    ∷ (received_heartbeat_event, status_164, status_165)
    ∷ (received_heartbeat_event, status_165, status_165)
    ∷ (new_local_file_event, status_300, status_165)
    ∷ (new_local_file_with_more_event, status_304, status_165)
    ∷ (new_local_file_event, status_320, status_165)
    ∷ (new_local_file_with_more_event, status_324, status_165)
    ∷ (interrupt_event, status_500, status_500)
    ∷ []

unfoldable pub promoting_new_file_metadata_heartbeats : List (Row Status)
promoting_new_file_metadata_heartbeats =
    (received_heartbeat_event, status_130, status_131)
    ∷ (received_heartbeat_event, status_131, status_131)
    ∷ (received_heartbeat_event, status_134, status_135)
    ∷ (timing_offset_elapsed_event, status_132, status_111)
    ∷ (new_local_file_event, status_300, status_131)
    ∷ (new_local_file_with_more_event, status_304, status_131)
    ∷ (new_local_file_event, status_320, status_131)
    ∷ (new_local_file_with_more_event, status_324, status_131)
    ∷ (interrupt_event, status_500, status_500)
    ∷ []

unfoldable pub promoting_new_file_metadata_with_more_heartbeats : List (Row Status)
promoting_new_file_metadata_with_more_heartbeats =
    (received_heartbeat_event, status_134, status_135)
    ∷ (received_heartbeat_event, status_135, status_135)
    ∷ (timing_offset_elapsed_event, status_136, status_115)
    ∷ (new_local_file_event, status_300, status_135)
    ∷ (new_local_file_with_more_event, status_304, status_135)
    ∷ (new_local_file_event, status_320, status_135)
    ∷ (new_local_file_with_more_event, status_324, status_135)
    ∷ (interrupt_event, status_500, status_500)
    ∷ []

unfoldable pub receiving_file_metadata_change_heartbeats : List (Row Status)
receiving_file_metadata_change_heartbeats =
    (received_heartbeat_event, status_170, status_171)
    ∷ (received_heartbeat_event, status_171, status_171)
    ∷ (received_heartbeat_event, status_175, status_171)
    ∷ (received_heartbeat_event, status_141, status_171)
    ∷ (all_metadata_received_event, status_173, status_141)
    ∷ (new_local_file_event, status_300, status_171)
    ∷ (new_local_file_with_more_event, status_304, status_171)
    ∷ (new_local_file_event, status_320, status_171)
    ∷ (new_local_file_with_more_event, status_324, status_171)
    ∷ (interrupt_event, status_500, status_500)
    ∷ []

unfoldable pub receiving_file_metadata_change_with_more_heartbeats : List (Row Status)
receiving_file_metadata_change_with_more_heartbeats =
    (received_heartbeat_event, status_174, status_175)
    ∷ (received_heartbeat_event, status_175, status_175)
    ∷ (received_heartbeat_event, status_141, status_175)
    ∷ (all_metadata_received_event, status_173, status_141)
    ∷ (new_local_file_event, status_300, status_175)
    ∷ (new_local_file_with_more_event, status_304, status_175)
    ∷ (new_local_file_event, status_320, status_175)
    ∷ (new_local_file_with_more_event, status_324, status_175)
    ∷ (interrupt_event, status_500, status_500)
    ∷ []
