-- ===== src/FlockFsm/GetAction/Announcing.antt =====
-- The arms of get_action at ready and the announcing states.
use flocksy.Prelude.{List, [], ◌∷◌}
use flocksy.FlockFsm.Types.{
  Action, new_local_file_event, new_local_file_with_more_event, local_file_metadata_change_event,
  local_file_metadata_change_with_more_event, received_heartbeat_event, interrupt_event,
  all_nodes_replied_event, new_local_file_reported_twice_event, send_heartbeat_action, exit_action,
}
use flocksy.FlockFsm.Statuses.{
  status_300, status_304, status_320, status_324, status_100, status_120, status_124, status_160,
  status_164, status_150, status_500, status_121, status_122, status_301, status_125, status_126,
  status_161, status_162, status_165, status_166,
}
use flocksy.FlockFsm.Ladder.{Row}

unfoldable pub ready_actions : List (Row Action)
ready_actions =
    (new_local_file_event, status_300, send_heartbeat_action)
    ∷ (new_local_file_with_more_event, status_304, send_heartbeat_action)
    ∷ (local_file_metadata_change_event, status_320, send_heartbeat_action)
    ∷ (local_file_metadata_change_with_more_event, status_324, send_heartbeat_action)
    ∷ (received_heartbeat_event, status_100, send_heartbeat_action)
    ∷ (received_heartbeat_event, status_120, send_heartbeat_action)
    ∷ (received_heartbeat_event, status_124, send_heartbeat_action)
    ∷ (received_heartbeat_event, status_160, send_heartbeat_action)
    ∷ (received_heartbeat_event, status_164, send_heartbeat_action)
    ∷ (received_heartbeat_event, status_150, send_heartbeat_action)
    ∷ (interrupt_event, status_500, exit_action)
    ∷ []

unfoldable pub announcing_new_file_actions : List (Row Action)
announcing_new_file_actions =
    (received_heartbeat_event, status_121, send_heartbeat_action)
    ∷ (all_nodes_replied_event, status_122, send_heartbeat_action)
    ∷ (new_local_file_event, status_300, send_heartbeat_action)
    ∷ (new_local_file_reported_twice_event, status_301, send_heartbeat_action)
    ∷ (new_local_file_with_more_event, status_304, send_heartbeat_action)
    ∷ (local_file_metadata_change_event, status_320, send_heartbeat_action)
    ∷ (local_file_metadata_change_with_more_event, status_324, send_heartbeat_action)
    ∷ (interrupt_event, status_500, exit_action)
    ∷ []

unfoldable pub announcing_new_file_with_more_actions : List (Row Action)
announcing_new_file_with_more_actions =
    (received_heartbeat_event, status_125, send_heartbeat_action)
    ∷ (all_nodes_replied_event, status_126, send_heartbeat_action)
    ∷ (new_local_file_event, status_300, send_heartbeat_action)
    ∷ (new_local_file_with_more_event, status_304, send_heartbeat_action)
    ∷ (local_file_metadata_change_event, status_320, send_heartbeat_action)
    ∷ (local_file_metadata_change_with_more_event, status_324, send_heartbeat_action)
    ∷ (interrupt_event, status_500, exit_action)
    ∷ []

unfoldable pub announcing_file_metadata_change_actions : List (Row Action)
announcing_file_metadata_change_actions =
    (received_heartbeat_event, status_161, send_heartbeat_action)
    ∷ (all_nodes_replied_event, status_162, send_heartbeat_action)
    ∷ (new_local_file_event, status_300, send_heartbeat_action)
    ∷ (new_local_file_with_more_event, status_304, send_heartbeat_action)
    ∷ (local_file_metadata_change_event, status_320, send_heartbeat_action)
    ∷ (local_file_metadata_change_with_more_event, status_324, send_heartbeat_action)
    ∷ (interrupt_event, status_500, exit_action)
    ∷ []

unfoldable pub announcing_file_metadata_change_with_more_actions : List (Row Action)
announcing_file_metadata_change_with_more_actions =
    (received_heartbeat_event, status_165, send_heartbeat_action)
    ∷ (all_nodes_replied_event, status_166, send_heartbeat_action)
    ∷ (new_local_file_event, status_300, send_heartbeat_action)
    ∷ (new_local_file_with_more_event, status_304, send_heartbeat_action)
    ∷ (local_file_metadata_change_event, status_320, send_heartbeat_action)
    ∷ (local_file_metadata_change_with_more_event, status_324, send_heartbeat_action)
    ∷ (interrupt_event, status_500, exit_action)
    ∷ []
