-- ===== src/FlockFsm/GetNewState/Announcing.antt =====
-- The arms of get_new_state at ready and the announcing states.
use flocksy.Prelude.{List, [], ◌∷◌}
use flocksy.FlockFsm.Types.{
  State, new_local_file_event, new_local_file_with_more_event, local_file_metadata_change_event,
  local_file_metadata_change_with_more_event, received_heartbeat_event, interrupt_event,
  all_nodes_replied_event, new_local_file_reported_twice_event, announcing_new_file_state,
  announcing_new_file_with_more_state, announcing_file_metadata_change_state,
  announcing_file_metadata_change_with_more_state, ready_state, acknowledging_new_file_state,
  acknowledging_new_file_with_more_state, acknowledging_file_metadata_change_state,
  acknowledging_file_metadata_change_with_more_state, exit_state, sending_new_file_metadata_state,
  sending_new_file_metadata_with_more_state, sending_file_metadata_change_state,
  sending_file_metadata_change_with_more_state,
}
use flocksy.FlockFsm.Statuses.{
  status_300, status_304, status_320, status_324, status_100, status_120, status_124, status_160,
  status_164, status_150, status_500, status_121, status_122, status_301, status_125, status_126,
  status_161, status_162, status_165, status_166,
}
use flocksy.FlockFsm.Ladder.{Row}

unfoldable pub ready_new_states : List (Row State)
ready_new_states =
    (new_local_file_event, status_300, announcing_new_file_state)
    ∷ (new_local_file_with_more_event, status_304, announcing_new_file_with_more_state)
    ∷ (local_file_metadata_change_event, status_320, announcing_file_metadata_change_state)
    ∷ (
      local_file_metadata_change_with_more_event, status_324,
      announcing_file_metadata_change_with_more_state,
    )
    ∷ (received_heartbeat_event, status_100, ready_state)
    ∷ (received_heartbeat_event, status_120, acknowledging_new_file_state)
    ∷ (received_heartbeat_event, status_124, acknowledging_new_file_with_more_state)
    ∷ (received_heartbeat_event, status_160, acknowledging_file_metadata_change_state)
    ∷ (received_heartbeat_event, status_164, acknowledging_file_metadata_change_with_more_state)
    ∷ (received_heartbeat_event, status_150, ready_state)
    ∷ (interrupt_event, status_500, exit_state)
    ∷ []

unfoldable pub announcing_new_file_new_states : List (Row State)
announcing_new_file_new_states =
    (received_heartbeat_event, status_121, announcing_new_file_state)
    ∷ (all_nodes_replied_event, status_122, sending_new_file_metadata_state)
    ∷ (new_local_file_event, status_300, announcing_new_file_with_more_state)
    ∷ (new_local_file_reported_twice_event, status_301, announcing_new_file_state)
    ∷ (new_local_file_with_more_event, status_304, announcing_new_file_with_more_state)
    ∷ (
      local_file_metadata_change_event, status_320, announcing_file_metadata_change_with_more_state,
    )
    ∷ (
      local_file_metadata_change_with_more_event, status_324,
      announcing_file_metadata_change_with_more_state,
    )
    ∷ (interrupt_event, status_500, exit_state)
    ∷ []

unfoldable pub announcing_new_file_with_more_new_states : List (Row State)
announcing_new_file_with_more_new_states =
    (received_heartbeat_event, status_125, announcing_new_file_with_more_state)
    ∷ (all_nodes_replied_event, status_126, sending_new_file_metadata_with_more_state)
    ∷ (new_local_file_event, status_300, announcing_new_file_with_more_state)
    ∷ (new_local_file_with_more_event, status_304, announcing_new_file_with_more_state)
    ∷ (
      local_file_metadata_change_event, status_320, announcing_file_metadata_change_with_more_state,
    )
    ∷ (
      local_file_metadata_change_with_more_event, status_324,
      announcing_file_metadata_change_with_more_state,
    )
    ∷ (interrupt_event, status_500, exit_state)
    ∷ []

unfoldable pub announcing_file_metadata_change_new_states : List (Row State)
announcing_file_metadata_change_new_states =
    (received_heartbeat_event, status_161, announcing_file_metadata_change_state)
    ∷ (all_nodes_replied_event, status_162, sending_file_metadata_change_state)
    ∷ (new_local_file_event, status_300, announcing_file_metadata_change_with_more_state)
    ∷ (new_local_file_with_more_event, status_304, announcing_file_metadata_change_with_more_state)
    ∷ (
      local_file_metadata_change_event, status_320, announcing_file_metadata_change_with_more_state,
    )
    ∷ (
      local_file_metadata_change_with_more_event, status_324,
      announcing_file_metadata_change_with_more_state,
    )
    ∷ (interrupt_event, status_500, exit_state)
    ∷ []

unfoldable pub announcing_file_metadata_change_with_more_new_states : List (Row State)
announcing_file_metadata_change_with_more_new_states =
    (received_heartbeat_event, status_165, announcing_file_metadata_change_with_more_state)
    ∷ (all_nodes_replied_event, status_166, sending_file_metadata_change_with_more_state)
    ∷ (new_local_file_event, status_300, announcing_file_metadata_change_with_more_state)
    ∷ (new_local_file_with_more_event, status_304, announcing_file_metadata_change_with_more_state)
    ∷ (
      local_file_metadata_change_event, status_320, announcing_file_metadata_change_with_more_state,
    )
    ∷ (
      local_file_metadata_change_with_more_event, status_324,
      announcing_file_metadata_change_with_more_state,
    )
    ∷ (interrupt_event, status_500, exit_state)
    ∷ []
