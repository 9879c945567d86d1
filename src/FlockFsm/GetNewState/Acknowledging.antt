-- ===== src/FlockFsm/GetNewState/Acknowledging.antt =====
-- The arms of get_new_state at the states of a receiver up to the transfer.
use flocksy.Prelude.{List, [], ◌∷◌}
use flocksy.FlockFsm.Types.{
  State, received_heartbeat_event, new_local_file_event, new_local_file_with_more_event,
  local_file_metadata_change_event, local_file_metadata_change_with_more_event, interrupt_event,
  timing_offset_elapsed_event, all_metadata_received_event, promoting_new_file_metadata_state,
  acknowledging_new_file_state, acknowledging_new_file_with_more_state, exit_state,
  promoting_new_file_metadata_with_more_state, receiving_file_metadata_change_state,
  acknowledging_file_metadata_change_state, acknowledging_file_metadata_change_with_more_state,
  receiving_file_metadata_change_with_more_state, sending_fake_file_state,
  sending_fake_file_with_more_alpha_state, broadcasting_all_metadata_received_state,
}
use flocksy.FlockFsm.Statuses.{
  status_130, status_120, status_121, status_124, status_300, status_304, status_320, status_324,
  status_500, status_134, status_125, status_170, status_160, status_161, status_164, status_174,
  status_165, status_131, status_132, status_135, status_136, status_171, status_175, status_141,
  status_173,
}
use flocksy.FlockFsm.Ladder.{Row}

unfoldable pub acknowledging_new_file_new_states : List (Row State)
acknowledging_new_file_new_states =
    (received_heartbeat_event, status_130, promoting_new_file_metadata_state)
    ∷ (received_heartbeat_event, status_120, acknowledging_new_file_state)
    ∷ (received_heartbeat_event, status_121, acknowledging_new_file_state)
    ∷ (received_heartbeat_event, status_124, acknowledging_new_file_with_more_state)
    ∷ (new_local_file_event, status_300, acknowledging_new_file_state)
    ∷ (new_local_file_with_more_event, status_304, acknowledging_new_file_state)
    ∷ (local_file_metadata_change_event, status_320, acknowledging_new_file_state)
    ∷ (local_file_metadata_change_with_more_event, status_324, acknowledging_new_file_state)
    ∷ (interrupt_event, status_500, exit_state)
    ∷ []

unfoldable pub acknowledging_new_file_with_more_new_states : List (Row State)
acknowledging_new_file_with_more_new_states =
    (received_heartbeat_event, status_134, promoting_new_file_metadata_with_more_state)
    ∷ (received_heartbeat_event, status_124, acknowledging_new_file_with_more_state)
    ∷ (received_heartbeat_event, status_125, acknowledging_new_file_with_more_state)
    ∷ (new_local_file_event, status_300, acknowledging_new_file_with_more_state)
    ∷ (new_local_file_with_more_event, status_304, acknowledging_new_file_with_more_state)
    ∷ (local_file_metadata_change_event, status_320, acknowledging_new_file_with_more_state)
    ∷ (
      local_file_metadata_change_with_more_event, status_324,
      acknowledging_new_file_with_more_state,
    )
    ∷ (interrupt_event, status_500, exit_state)
    ∷ []

unfoldable pub acknowledging_file_metadata_change_new_states : List (Row State)
acknowledging_file_metadata_change_new_states =
    (received_heartbeat_event, status_170, receiving_file_metadata_change_state)
    ∷ (received_heartbeat_event, status_160, acknowledging_file_metadata_change_state)
    ∷ (received_heartbeat_event, status_161, acknowledging_file_metadata_change_state)
    ∷ (received_heartbeat_event, status_164, acknowledging_file_metadata_change_with_more_state)
    ∷ (new_local_file_event, status_300, acknowledging_file_metadata_change_state)
    ∷ (new_local_file_with_more_event, status_304, acknowledging_file_metadata_change_state)
    ∷ (new_local_file_event, status_320, acknowledging_file_metadata_change_state)
    ∷ (new_local_file_with_more_event, status_324, acknowledging_file_metadata_change_state)
    ∷ (interrupt_event, status_500, exit_state)
    ∷ []

unfoldable pub acknowledging_file_metadata_change_with_more_new_states : List (Row State)
acknowledging_file_metadata_change_with_more_new_states =
    (received_heartbeat_event, status_174, receiving_file_metadata_change_with_more_state)
    ∷ (received_heartbeat_event, status_164, acknowledging_file_metadata_change_with_more_state)
    ∷ (received_heartbeat_event, status_165, acknowledging_file_metadata_change_with_more_state)
    ∷ (new_local_file_event, status_300, acknowledging_file_metadata_change_with_more_state)
    ∷ (
      new_local_file_with_more_event, status_304,
      acknowledging_file_metadata_change_with_more_state,
    )
    ∷ (new_local_file_event, status_320, acknowledging_file_metadata_change_with_more_state)
    ∷ (
      new_local_file_with_more_event, status_324,
      acknowledging_file_metadata_change_with_more_state,
    )
    ∷ (interrupt_event, status_500, exit_state)
    ∷ []

unfoldable pub promoting_new_file_metadata_new_states : List (Row State)
promoting_new_file_metadata_new_states =
    (received_heartbeat_event, status_130, promoting_new_file_metadata_state)
    ∷ (received_heartbeat_event, status_131, promoting_new_file_metadata_state)
    ∷ (received_heartbeat_event, status_134, promoting_new_file_metadata_with_more_state)
    ∷ (timing_offset_elapsed_event, status_132, sending_fake_file_state)
    ∷ (new_local_file_event, status_300, promoting_new_file_metadata_state)
    ∷ (new_local_file_with_more_event, status_304, promoting_new_file_metadata_state)
    ∷ (new_local_file_event, status_320, promoting_new_file_metadata_state)
    ∷ (new_local_file_with_more_event, status_324, promoting_new_file_metadata_state)
    ∷ (interrupt_event, status_500, exit_state)
    ∷ []

unfoldable pub promoting_new_file_metadata_with_more_new_states : List (Row State)
promoting_new_file_metadata_with_more_new_states =
    (received_heartbeat_event, status_134, promoting_new_file_metadata_with_more_state)
    ∷ (received_heartbeat_event, status_135, promoting_new_file_metadata_with_more_state)
    ∷ (timing_offset_elapsed_event, status_136, sending_fake_file_with_more_alpha_state)
    ∷ (new_local_file_event, status_300, promoting_new_file_metadata_with_more_state)
    ∷ (new_local_file_with_more_event, status_304, promoting_new_file_metadata_with_more_state)
    ∷ (new_local_file_event, status_320, promoting_new_file_metadata_with_more_state)
    ∷ (new_local_file_with_more_event, status_324, promoting_new_file_metadata_with_more_state)
    ∷ (interrupt_event, status_500, exit_state)
    ∷ []

unfoldable pub receiving_file_metadata_change_new_states : List (Row State)
receiving_file_metadata_change_new_states =
    (received_heartbeat_event, status_170, receiving_file_metadata_change_state)
    ∷ (received_heartbeat_event, status_171, receiving_file_metadata_change_state)
    ∷ (received_heartbeat_event, status_175, receiving_file_metadata_change_with_more_state)
    ∷ (received_heartbeat_event, status_141, receiving_file_metadata_change_state)
    ∷ (all_metadata_received_event, status_173, broadcasting_all_metadata_received_state)
    ∷ (new_local_file_event, status_300, receiving_file_metadata_change_state)
    ∷ (new_local_file_with_more_event, status_304, receiving_file_metadata_change_state)
    ∷ (new_local_file_event, status_320, receiving_file_metadata_change_state)
    ∷ (new_local_file_with_more_event, status_324, receiving_file_metadata_change_state)
    ∷ (interrupt_event, status_500, exit_state)
    ∷ []

unfoldable pub receiving_file_metadata_change_with_more_new_states : List (Row State)
receiving_file_metadata_change_with_more_new_states =
    (received_heartbeat_event, status_174, receiving_file_metadata_change_with_more_state)
    ∷ (received_heartbeat_event, status_175, receiving_file_metadata_change_with_more_state)
    ∷ (received_heartbeat_event, status_141, receiving_file_metadata_change_with_more_state)
    ∷ (all_metadata_received_event, status_173, broadcasting_all_metadata_received_state)
    ∷ (new_local_file_event, status_300, receiving_file_metadata_change_with_more_state)
    ∷ (new_local_file_with_more_event, status_304, receiving_file_metadata_change_with_more_state)
    ∷ (new_local_file_event, status_320, receiving_file_metadata_change_with_more_state)
    ∷ (new_local_file_with_more_event, status_324, receiving_file_metadata_change_with_more_state)
    ∷ (interrupt_event, status_500, exit_state)
    ∷ []
