-- ===== src/FlockFsm/Codes.antt =====
-- get_event_by_status_code, the event that a status code stands for: the arms of the if-chain in
-- their order, read by `look_up`, and NULL_event for every other number.
use flocksy.Prelude.{List, [], ◌∷◌, if◌then◌else◌, ◌==◌}
use flocksy.FlockFsm.Types.{
  Status, Event, all_data_received_event, all_metadata_received_event,
  all_nodes_have_all_metadata_changes_with_more_event, all_nodes_have_file_event,
  all_nodes_have_file_with_more_event, all_nodes_replied_event, file_send_tick_event,
  interrupt_event, local_file_metadata_change_event, local_file_metadata_change_with_more_event,
  new_local_file_event, new_local_file_reported_twice_event, new_local_file_with_more_event,
  received_fake_file_data_event, received_file_data_event, received_heartbeat_event,
  timing_offset_elapsed_event, null_event,
}
use flocksy.FlockFsm.Statuses.{
  status_100, status_110, status_111, status_112, status_113, status_114, status_115, status_116,
  status_117, status_120, status_121, status_122, status_124, status_125, status_126, status_130,
  status_131, status_132, status_134, status_135, status_136, status_140, status_141, status_142,
  status_145, status_146, status_147, status_150, status_155, status_156, status_160, status_161,
  status_162, status_164, status_165, status_166, status_170, status_171, status_172, status_173,
  status_174, status_175, status_177, status_178, status_200, status_210, status_300, status_301,
  status_304, status_320, status_324, status_410, status_500,
}

-- `if ( status == k ) return e; else if …`.
unfoldable pub look_up : List (Status × Event) → Status → Event
look_up [] status = null_event
look_up ((k, e) ∷ arms) status = if status == k then e else look_up arms status

unfoldable pub code_arms : List (Status × Event)
code_arms =
    (status_100, received_heartbeat_event)
    ∷ (status_110, received_heartbeat_event)
    ∷ (status_111, received_heartbeat_event)
    ∷ (status_112, file_send_tick_event)
    ∷ (status_113, all_data_received_event)
    ∷ (status_114, received_heartbeat_event)
    ∷ (status_115, received_heartbeat_event)
    ∷ (status_116, received_heartbeat_event)
    ∷ (status_117, received_heartbeat_event)
    ∷ (status_120, received_heartbeat_event)
    ∷ (status_121, received_heartbeat_event)
    ∷ (status_122, all_nodes_replied_event)
    ∷ (status_124, received_heartbeat_event)
    ∷ (status_125, received_heartbeat_event)
    ∷ (status_126, all_nodes_replied_event)
    ∷ (status_130, received_heartbeat_event)
    ∷ (status_131, received_heartbeat_event)
    ∷ (status_132, timing_offset_elapsed_event)
    ∷ (status_134, received_heartbeat_event)
    ∷ (status_135, received_heartbeat_event)
    ∷ (status_136, timing_offset_elapsed_event)
    ∷ (status_140, received_heartbeat_event)
    ∷ (status_141, received_heartbeat_event)
    ∷ (status_142, all_nodes_have_file_event)
    ∷ (status_145, received_heartbeat_event)
    ∷ (status_146, all_nodes_have_file_with_more_event)
    ∷ (status_147, received_heartbeat_event)
    ∷ (status_150, received_heartbeat_event)
    ∷ (status_155, received_heartbeat_event)
    ∷ (status_156, timing_offset_elapsed_event)
    ∷ (status_160, received_heartbeat_event)
    ∷ (status_161, received_heartbeat_event)
    ∷ (status_162, all_nodes_replied_event)
    ∷ (status_164, received_heartbeat_event)
    ∷ (status_165, received_heartbeat_event)
    ∷ (status_166, all_nodes_replied_event)
    ∷ (status_170, received_heartbeat_event)
    ∷ (status_171, received_heartbeat_event)
    ∷ (status_172, all_nodes_have_file_event)
    ∷ (status_173, all_metadata_received_event)
    ∷ (status_174, received_heartbeat_event)
    ∷ (status_175, received_heartbeat_event)
    ∷ (status_177, all_nodes_have_all_metadata_changes_with_more_event)
    ∷ (status_178, all_nodes_have_all_metadata_changes_with_more_event)
    ∷ (status_200, received_file_data_event)
    ∷ (status_210, received_fake_file_data_event)
    ∷ (status_300, new_local_file_event)
    ∷ (status_301, new_local_file_reported_twice_event)
    ∷ (status_304, new_local_file_with_more_event)
    ∷ (status_320, local_file_metadata_change_event)
    ∷ (status_324, local_file_metadata_change_with_more_event)
    ∷ (status_410, received_heartbeat_event)
    ∷ (status_500, interrupt_event)
    ∷ []

unfoldable pub get_event_by_status_code : Status → Event
unfolding look_up code_arms
get_event_by_status_code status = look_up code_arms status
