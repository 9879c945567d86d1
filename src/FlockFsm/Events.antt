-- ===== src/FlockFsm/Events.antt =====
-- Events and their numbers: `event_eq` decides equality.
use flocksy.Prelude.{ℕ, zero, suc, ◌≡◌, refl, ap, sym, ◌∙◌, ◌↔◌, true, ==_iff}
use flocksy.FlockFsm.Types.{
  Event, event_code, event_eq, null_event, new_local_file_event, new_local_file_with_more_event,
  local_file_metadata_change_event, local_file_metadata_change_with_more_event,
  received_heartbeat_event, all_nodes_replied_event, new_local_file_reported_twice_event,
  timing_offset_elapsed_event, all_nodes_have_file_event, all_nodes_have_all_files_event,
  all_nodes_have_all_metadata_changes_with_more_event, file_send_tick_event,
  received_fake_file_data_event, node_only_sends_heartbeats_event,
  all_nodes_have_file_with_more_event, all_metadata_received_event, received_file_data_event,
  all_data_received_event, interrupt_event,
}

event_of : ℕ → Event
event_of zero = null_event
event_of (suc zero) = new_local_file_event
event_of (suc (suc zero)) = new_local_file_with_more_event
event_of (suc (suc (suc zero))) = local_file_metadata_change_event
event_of (suc (suc (suc (suc zero)))) = local_file_metadata_change_with_more_event
event_of (suc (suc (suc (suc (suc zero))))) = received_heartbeat_event
event_of (suc (suc (suc (suc (suc (suc zero)))))) = all_nodes_replied_event
event_of (suc (suc (suc (suc (suc (suc (suc zero))))))) = new_local_file_reported_twice_event
event_of (suc (suc (suc (suc (suc (suc (suc (suc zero)))))))) = timing_offset_elapsed_event
event_of (suc (suc (suc (suc (suc (suc (suc (suc (suc zero))))))))) = all_nodes_have_file_event
event_of (suc (suc (suc (suc (suc (suc (suc (suc (suc (suc zero)))))))))) =
    all_nodes_have_all_files_event
event_of (suc (suc (suc (suc (suc (suc (suc (suc (suc (suc (suc zero))))))))))) =
    all_nodes_have_all_metadata_changes_with_more_event
event_of (suc (suc (suc (suc (suc (suc (suc (suc (suc (suc (suc (suc zero)))))))))))) =
    file_send_tick_event
event_of (suc (suc (suc (suc (suc (suc (suc (suc (suc (suc (suc (suc (suc zero))))))))))))) =
    received_fake_file_data_event
event_of (suc (suc (suc (suc (suc (suc (suc (suc (suc (suc (suc (suc (suc (suc zero)))))))))))))) =
    node_only_sends_heartbeats_event
event_of
      (suc
        (suc (suc (suc (suc (suc (suc (suc (suc (suc (suc (suc (suc (suc (suc zero))))))))))))))) =
    all_nodes_have_file_with_more_event
event_of
      (suc (
        suc (
          suc
            (suc (suc (suc (suc (suc (suc (suc (suc (suc (suc (suc (suc (suc zero)))))))))))))))) =
    all_metadata_received_event
event_of
      (suc (
        suc (
          suc (
            suc (
              suc
                (suc (suc (suc (suc (suc (suc (suc (suc (suc (suc (suc (suc zero))))))))))))))))) =
    received_file_data_event
event_of
      (suc (
        suc (
          suc (
            suc (
              suc (
                suc (
                  suc
                    (suc (suc (suc (suc (suc (suc (suc (suc (suc (suc (suc zero)))))))))))))))))) =
    all_data_received_event
event_of
      (suc (
        suc (
          suc (
            suc (
              suc (
                suc (
                  suc (
                    suc (
                      suc
                        (suc (suc (suc (suc (suc (suc (suc (suc (suc (suc zero))))))))))))))))))) =
    interrupt_event
event_of _ = null_event

event_of-event_code : (e : Event) → event_of (event_code e) ≡ e
unfolding event_of
event_of-event_code null_event = refl
event_of-event_code _ = refl

pub event_eq_iff : (a b : Event) → (event_eq a b ≡ true) ↔ (a ≡ b)
event_eq_iff a b = (
  λ h.
      sym (event_of-event_code a)
      ∙ ap event_of ((==_iff (event_code a) (event_code b)).0 h)
      ∙ event_of-event_code b,
  λ h. (==_iff (event_code a) (event_code b)).1 (ap event_code h),
)
