-- ===== src/FlockFsm/GetAction/Acknowledging.antt =====
-- The arms of get_action at the states of a receiver up to the transfer.
use flocksy.Prelude.{List, [], ◌∷◌}
use flocksy.FlockFsm.Types.{
  Action, received_heartbeat_event, new_local_file_event, new_local_file_with_more_event,
  local_file_metadata_change_event, local_file_metadata_change_with_more_event, interrupt_event,
  timing_offset_elapsed_event, all_metadata_received_event, send_heartbeat_action,
  add_new_file_to_queue_action, exit_action,
}
use flocksy.FlockFsm.Statuses.{
  status_130, status_120, status_121, status_124, status_300, status_304, status_320, status_324,
  status_500, status_134, status_125, status_170, status_160, status_161, status_164, status_174,
  status_165, status_131, status_132, status_135, status_136, status_171, status_175, status_141,
  status_173,
}
use flocksy.FlockFsm.Ladder.{Row}

unfoldable pub acknowledging_new_file_actions : List (Row Action)
acknowledging_new_file_actions =
    (received_heartbeat_event, status_130, send_heartbeat_action)
    ∷ (received_heartbeat_event, status_120, send_heartbeat_action)
    ∷ (received_heartbeat_event, status_121, send_heartbeat_action)
    ∷ (received_heartbeat_event, status_124, send_heartbeat_action)
    ∷ (new_local_file_event, status_300, add_new_file_to_queue_action)
    ∷ (new_local_file_with_more_event, status_304, add_new_file_to_queue_action)
    ∷ (local_file_metadata_change_event, status_320, add_new_file_to_queue_action)
    ∷ (local_file_metadata_change_with_more_event, status_324, add_new_file_to_queue_action)
    ∷ (interrupt_event, status_500, exit_action)
    ∷ []

unfoldable pub acknowledging_new_file_with_more_actions : List (Row Action)
acknowledging_new_file_with_more_actions =
    (received_heartbeat_event, status_134, send_heartbeat_action)
    ∷ (received_heartbeat_event, status_124, send_heartbeat_action)
    ∷ (received_heartbeat_event, status_125, send_heartbeat_action)
    ∷ (new_local_file_event, status_300, add_new_file_to_queue_action)
    ∷ (new_local_file_with_more_event, status_304, add_new_file_to_queue_action)
    ∷ (local_file_metadata_change_event, status_320, add_new_file_to_queue_action)
    ∷ (local_file_metadata_change_with_more_event, status_324, add_new_file_to_queue_action)
    ∷ (interrupt_event, status_500, exit_action)
    ∷ []

unfoldable pub acknowledging_file_metadata_change_actions : List (Row Action)
acknowledging_file_metadata_change_actions =
    (received_heartbeat_event, status_170, send_heartbeat_action)
    ∷ (received_heartbeat_event, status_160, send_heartbeat_action)
    ∷ (received_heartbeat_event, status_161, send_heartbeat_action)
    ∷ (received_heartbeat_event, status_164, send_heartbeat_action)
    ∷ (new_local_file_event, status_300, add_new_file_to_queue_action)
    ∷ (new_local_file_with_more_event, status_304, add_new_file_to_queue_action)
    ∷ (new_local_file_event, status_320, add_new_file_to_queue_action)
    ∷ (new_local_file_with_more_event, status_324, add_new_file_to_queue_action)
    ∷ (interrupt_event, status_500, exit_action)
    ∷ []

unfoldable pub acknowledging_file_metadata_change_with_more_actions : List (Row Action)
acknowledging_file_metadata_change_with_more_actions =
    (received_heartbeat_event, status_174, send_heartbeat_action)
    ∷ (received_heartbeat_event, status_164, send_heartbeat_action)
    ∷ (received_heartbeat_event, status_165, send_heartbeat_action)
    ∷ (new_local_file_event, status_300, add_new_file_to_queue_action)
    ∷ (new_local_file_with_more_event, status_304, add_new_file_to_queue_action)
    ∷ (new_local_file_event, status_320, add_new_file_to_queue_action)
    ∷ (new_local_file_with_more_event, status_324, add_new_file_to_queue_action)
    ∷ (interrupt_event, status_500, exit_action)
    ∷ []

unfoldable pub promoting_new_file_metadata_actions : List (Row Action)
promoting_new_file_metadata_actions =
    (received_heartbeat_event, status_130, send_heartbeat_action)
    ∷ (received_heartbeat_event, status_131, send_heartbeat_action)
    ∷ (received_heartbeat_event, status_134, send_heartbeat_action)
    ∷ (timing_offset_elapsed_event, status_132, send_heartbeat_action)
    ∷ (new_local_file_event, status_300, add_new_file_to_queue_action)
    ∷ (new_local_file_with_more_event, status_304, add_new_file_to_queue_action)
    ∷ (new_local_file_event, status_320, add_new_file_to_queue_action)
    ∷ (new_local_file_with_more_event, status_324, add_new_file_to_queue_action)
    ∷ (interrupt_event, status_500, exit_action)
    ∷ []

unfoldable pub promoting_new_file_metadata_with_more_actions : List (Row Action)
promoting_new_file_metadata_with_more_actions =
    (received_heartbeat_event, status_134, send_heartbeat_action)
    ∷ (received_heartbeat_event, status_135, send_heartbeat_action)
    ∷ (timing_offset_elapsed_event, status_136, send_heartbeat_action)
    ∷ (new_local_file_event, status_300, add_new_file_to_queue_action)
    ∷ (new_local_file_with_more_event, status_304, add_new_file_to_queue_action)
    ∷ (new_local_file_event, status_320, add_new_file_to_queue_action)
    ∷ (new_local_file_with_more_event, status_324, add_new_file_to_queue_action)
    ∷ (interrupt_event, status_500, exit_action)
    ∷ []

unfoldable pub receiving_file_metadata_change_actions : List (Row Action)
receiving_file_metadata_change_actions =
    (received_heartbeat_event, status_170, send_heartbeat_action)
    ∷ (received_heartbeat_event, status_171, send_heartbeat_action)
    ∷ (received_heartbeat_event, status_175, send_heartbeat_action)
    ∷ (received_heartbeat_event, status_141, send_heartbeat_action)
    ∷ (all_metadata_received_event, status_173, send_heartbeat_action)
    ∷ (new_local_file_event, status_300, add_new_file_to_queue_action)
    ∷ (new_local_file_with_more_event, status_304, add_new_file_to_queue_action)
    ∷ (new_local_file_event, status_320, add_new_file_to_queue_action)
    ∷ (new_local_file_with_more_event, status_324, add_new_file_to_queue_action)
    ∷ (interrupt_event, status_500, exit_action)
    ∷ []

unfoldable pub receiving_file_metadata_change_with_more_actions : List (Row Action)
receiving_file_metadata_change_with_more_actions =
    (received_heartbeat_event, status_174, send_heartbeat_action)
    ∷ (received_heartbeat_event, status_175, send_heartbeat_action)
    ∷ (received_heartbeat_event, status_141, send_heartbeat_action)
    ∷ (all_metadata_received_event, status_173, send_heartbeat_action)
    ∷ (new_local_file_event, status_300, add_new_file_to_queue_action)
    ∷ (new_local_file_with_more_event, status_304, add_new_file_to_queue_action)
    ∷ (new_local_file_event, status_320, add_new_file_to_queue_action)
    ∷ (new_local_file_with_more_event, status_324, add_new_file_to_queue_action)
    ∷ (interrupt_event, status_500, exit_action)
    ∷ []
