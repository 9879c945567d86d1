-- ===== src/FlockFsm/GetHeartbeatStatus/Announcing.antt =====
-- The arms of get_heartbeat_status at ready and the announcing states.
use flocksy.Prelude.{List, [], ◌∷◌}
use flocksy.FlockFsm.Types.{
  Status, new_local_file_event, new_local_file_with_more_event, local_file_metadata_change_event,
  local_file_metadata_change_with_more_event, received_heartbeat_event, interrupt_event,
  all_nodes_replied_event, new_local_file_reported_twice_event,
}
use flocksy.FlockFsm.Statuses.{
  status_300, status_304, status_320, status_324, status_100, status_120, status_124, status_160,
  status_164, status_150, status_500, status_121, status_122, status_301, status_125, status_126,
  status_161, status_162, status_165, status_166, status_130, status_134, status_170, status_174,
}
use flocksy.FlockFsm.Ladder.{Row}

unfoldable pub ready_heartbeats : List (Row Status)
ready_heartbeats =
    (new_local_file_event, status_300, status_120)
    ∷ (new_local_file_with_more_event, status_304, status_124)
    ∷ (local_file_metadata_change_event, status_320, status_160)
    ∷ (local_file_metadata_change_with_more_event, status_324, status_164)
    ∷ (received_heartbeat_event, status_100, status_100)
    ∷ (received_heartbeat_event, status_120, status_121)
    ∷ (received_heartbeat_event, status_124, status_125)
    ∷ (received_heartbeat_event, status_160, status_161)
    ∷ (received_heartbeat_event, status_164, status_165)
    ∷ (received_heartbeat_event, status_150, status_100)
    ∷ (interrupt_event, status_500, status_500)
    ∷ []

unfoldable pub announcing_new_file_heartbeats : List (Row Status)
announcing_new_file_heartbeats =
    (received_heartbeat_event, status_121, status_120)
    ∷ (all_nodes_replied_event, status_122, status_130)
    ∷ (new_local_file_event, status_300, status_124)
    ∷ (new_local_file_reported_twice_event, status_301, status_120)
    ∷ (new_local_file_with_more_event, status_304, status_124)
    ∷ (local_file_metadata_change_event, status_320, status_164)
    ∷ (local_file_metadata_change_with_more_event, status_324, status_164)
    ∷ (interrupt_event, status_500, status_500)
    ∷ []

unfoldable pub announcing_new_file_with_more_heartbeats : List (Row Status)
announcing_new_file_with_more_heartbeats =
    (received_heartbeat_event, status_125, status_124)
    ∷ (all_nodes_replied_event, status_126, status_134)
    ∷ (new_local_file_event, status_300, status_124)
    ∷ (new_local_file_with_more_event, status_304, status_124)
    ∷ (local_file_metadata_change_event, status_320, status_164)
    ∷ (local_file_metadata_change_with_more_event, status_324, status_164)
    ∷ (interrupt_event, status_500, status_500)
    ∷ []

unfoldable pub announcing_file_metadata_change_heartbeats : List (Row Status)
announcing_file_metadata_change_heartbeats =
    (received_heartbeat_event, status_161, status_160)
    ∷ (all_nodes_replied_event, status_162, status_170)
    ∷ (new_local_file_event, status_300, status_164)
    ∷ (new_local_file_with_more_event, status_304, status_164)
    ∷ (local_file_metadata_change_event, status_320, status_164)
    ∷ (local_file_metadata_change_with_more_event, status_324, status_164)
    ∷ (interrupt_event, status_500, status_500)
    ∷ []

unfoldable pub announcing_file_metadata_change_with_more_heartbeats : List (Row Status)
announcing_file_metadata_change_with_more_heartbeats =
    (received_heartbeat_event, status_165, status_164)
    ∷ (all_nodes_replied_event, status_166, status_174)
    ∷ (new_local_file_event, status_300, status_164)
    ∷ (new_local_file_with_more_event, status_304, status_164)
    ∷ (local_file_metadata_change_event, status_320, status_164)
    ∷ (local_file_metadata_change_with_more_event, status_324, status_164)
    ∷ (interrupt_event, status_500, status_500)
    ∷ []
