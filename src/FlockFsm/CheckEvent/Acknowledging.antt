-- ===== src/FlockFsm/CheckEvent/Acknowledging.antt =====
-- The arms of check_event at the states of a receiver up to the transfer.
use flocksy.Prelude.{List, [], ◌∷◌, Bool, true}
use flocksy.FlockFsm.Types.{
  received_heartbeat_event, new_local_file_event, new_local_file_with_more_event,
  local_file_metadata_change_event, local_file_metadata_change_with_more_event, interrupt_event,
  timing_offset_elapsed_event, all_metadata_received_event,
}
use flocksy.FlockFsm.Statuses.{
  status_130, status_120, status_121, status_124, status_300, status_304, status_320, status_324,
  status_500, status_134, status_125, status_170, status_160, status_161, status_164, status_174,
  status_165, status_131, status_132, status_135, status_136, status_171, status_175, status_141,
  status_173,
}
use flocksy.FlockFsm.Ladder.{Row}

unfoldable pub acknowledging_new_file_checks : List (Row Bool)
acknowledging_new_file_checks =
    (received_heartbeat_event, status_130, true)
    ∷ (received_heartbeat_event, status_120, true)
    ∷ (received_heartbeat_event, status_121, true)
    ∷ (received_heartbeat_event, status_124, true)
    ∷ (new_local_file_event, status_300, true)
    ∷ (new_local_file_with_more_event, status_304, true)
    ∷ (local_file_metadata_change_event, status_320, true)
    ∷ (local_file_metadata_change_with_more_event, status_324, true)
    ∷ (interrupt_event, status_500, true)
    ∷ []

unfoldable pub acknowledging_new_file_with_more_checks : List (Row Bool)
acknowledging_new_file_with_more_checks =
    (received_heartbeat_event, status_134, true)
    ∷ (received_heartbeat_event, status_124, true)
    ∷ (received_heartbeat_event, status_125, true)
    ∷ (new_local_file_event, status_300, true)
    ∷ (new_local_file_with_more_event, status_304, true)
    ∷ (local_file_metadata_change_event, status_320, true)
    ∷ (local_file_metadata_change_with_more_event, status_324, true)
    ∷ (interrupt_event, status_500, true)
    ∷ []

unfoldable pub acknowledging_file_metadata_change_checks : List (Row Bool)
acknowledging_file_metadata_change_checks =
    (received_heartbeat_event, status_170, true)
    ∷ (received_heartbeat_event, status_160, true)
    ∷ (received_heartbeat_event, status_161, true)
    ∷ (received_heartbeat_event, status_164, true)
    ∷ (new_local_file_event, status_300, true)
    ∷ (new_local_file_with_more_event, status_304, true)
    ∷ (new_local_file_event, status_320, true)
    ∷ (new_local_file_with_more_event, status_324, true)
    ∷ (interrupt_event, status_500, true)
    ∷ []

unfoldable pub acknowledging_file_metadata_change_with_more_checks : List (Row Bool)
acknowledging_file_metadata_change_with_more_checks =
    (received_heartbeat_event, status_174, true)
    ∷ (received_heartbeat_event, status_164, true)
    ∷ (received_heartbeat_event, status_165, true)
    ∷ (new_local_file_event, status_300, true)
    ∷ (new_local_file_with_more_event, status_304, true)
    ∷ (new_local_file_event, status_320, true)
    ∷ (new_local_file_with_more_event, status_324, true)
    ∷ (interrupt_event, status_500, true)
    ∷ []

unfoldable pub promoting_new_file_metadata_checks : List (Row Bool)
promoting_new_file_metadata_checks =
    (received_heartbeat_event, status_130, true)
    ∷ (received_heartbeat_event, status_131, true)
    ∷ (received_heartbeat_event, status_134, true)
    ∷ (timing_offset_elapsed_event, status_132, true)
    ∷ (new_local_file_event, status_300, true)
    ∷ (new_local_file_with_more_event, status_304, true)
    ∷ (new_local_file_event, status_320, true)
    ∷ (new_local_file_with_more_event, status_324, true)
    ∷ (interrupt_event, status_500, true)
    ∷ []

unfoldable pub promoting_new_file_metadata_with_more_checks : List (Row Bool)
promoting_new_file_metadata_with_more_checks =
    (received_heartbeat_event, status_134, true)
    ∷ (received_heartbeat_event, status_135, true)
    ∷ (timing_offset_elapsed_event, status_136, true)
    ∷ (new_local_file_event, status_300, true)
    ∷ (new_local_file_with_more_event, status_304, true)
    ∷ (new_local_file_event, status_320, true)
    ∷ (new_local_file_with_more_event, status_324, true)
    ∷ (interrupt_event, status_500, true)
    ∷ []

unfoldable pub receiving_file_metadata_change_checks : List (Row Bool)
receiving_file_metadata_change_checks =
    (received_heartbeat_event, status_170, true)
    ∷ (received_heartbeat_event, status_171, true)
    ∷ (received_heartbeat_event, status_175, true)
    ∷ (received_heartbeat_event, status_141, true)
    ∷ (all_metadata_received_event, status_173, true)
    ∷ (new_local_file_event, status_300, true)
    ∷ (new_local_file_with_more_event, status_304, true)
    ∷ (new_local_file_event, status_320, true)
    ∷ (new_local_file_with_more_event, status_324, true)
    ∷ (interrupt_event, status_500, true)
    ∷ []

unfoldable pub receiving_file_metadata_change_with_more_checks : List (Row Bool)
receiving_file_metadata_change_with_more_checks =
    (received_heartbeat_event, status_174, true)
    ∷ (received_heartbeat_event, status_175, true)
    ∷ (received_heartbeat_event, status_141, true)
    ∷ (all_metadata_received_event, status_173, true)
    ∷ (new_local_file_event, status_300, true)
    ∷ (new_local_file_with_more_event, status_304, true)
    ∷ (new_local_file_event, status_320, true)
    ∷ (new_local_file_with_more_event, status_324, true)
    ∷ (interrupt_event, status_500, true)
    ∷ []
