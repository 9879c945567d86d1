-- ===== src/FlockFsm/CheckEvent/Announcing.antt =====
-- The arms of check_event at ready and the announcing states.
use flocksy.Prelude.{List, [], ◌∷◌, Bool, true}
use flocksy.FlockFsm.Types.{
  new_local_file_event, new_local_file_with_more_event, local_file_metadata_change_event,
  local_file_metadata_change_with_more_event, received_heartbeat_event, interrupt_event,
  all_nodes_replied_event, new_local_file_reported_twice_event,
}
use flocksy.FlockFsm.Statuses.{
  status_300, status_304, status_320, status_324, status_100, status_120, status_124, status_160,
  status_164, status_150, status_500, status_121, status_122, status_301, status_125, status_126,
  status_161, status_162, status_165, status_166,
}
use flocksy.FlockFsm.Ladder.{Row}

unfoldable pub ready_checks : List (Row Bool)
ready_checks =
    (new_local_file_event, status_300, true)
    ∷ (new_local_file_with_more_event, status_304, true)
    ∷ (local_file_metadata_change_event, status_320, true)
    ∷ (local_file_metadata_change_with_more_event, status_324, true)
    ∷ (received_heartbeat_event, status_100, true)
    ∷ (received_heartbeat_event, status_120, true)
    ∷ (received_heartbeat_event, status_124, true)
    ∷ (received_heartbeat_event, status_160, true)
    ∷ (received_heartbeat_event, status_164, true)
    ∷ (received_heartbeat_event, status_150, true)
    ∷ (interrupt_event, status_500, true)
    ∷ []

unfoldable pub announcing_new_file_checks : List (Row Bool)
announcing_new_file_checks =
    (received_heartbeat_event, status_121, true)
    ∷ (all_nodes_replied_event, status_122, true)
    ∷ (new_local_file_event, status_300, true)
    ∷ (new_local_file_reported_twice_event, status_301, true)
    ∷ (new_local_file_with_more_event, status_304, true)
    ∷ (local_file_metadata_change_event, status_320, true)
    ∷ (local_file_metadata_change_with_more_event, status_324, true)
    ∷ (interrupt_event, status_500, true)
    ∷ []

unfoldable pub announcing_new_file_with_more_checks : List (Row Bool)
announcing_new_file_with_more_checks =
    (received_heartbeat_event, status_125, true)
    ∷ (all_nodes_replied_event, status_126, true)
    ∷ (new_local_file_event, status_300, true)
    ∷ (new_local_file_with_more_event, status_304, true)
    ∷ (local_file_metadata_change_event, status_320, true)
    ∷ (local_file_metadata_change_with_more_event, status_324, true)
    ∷ (interrupt_event, status_500, true)
    ∷ []

unfoldable pub announcing_file_metadata_change_checks : List (Row Bool)
announcing_file_metadata_change_checks =
    (received_heartbeat_event, status_161, true)
    ∷ (all_nodes_replied_event, status_162, true)
    ∷ (new_local_file_event, status_300, true)
    ∷ (new_local_file_with_more_event, status_304, true)
    ∷ (local_file_metadata_change_event, status_320, true)
    ∷ (local_file_metadata_change_with_more_event, status_324, true)
    ∷ (interrupt_event, status_500, true)
    ∷ []

unfoldable pub announcing_file_metadata_change_with_more_checks : List (Row Bool)
announcing_file_metadata_change_with_more_checks =
    (received_heartbeat_event, status_165, true)
    ∷ (all_nodes_replied_event, status_166, true)
    ∷ (new_local_file_event, status_300, true)
    ∷ (new_local_file_with_more_event, status_304, true)
    ∷ (local_file_metadata_change_event, status_320, true)
    ∷ (local_file_metadata_change_with_more_event, status_324, true)
    ∷ (interrupt_event, status_500, true)
    ∷ []
