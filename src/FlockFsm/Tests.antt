-- ===== src/FlockFsm/Tests.antt =====
-- The theorems about the state machine at concrete states and status codes.
use flocksy.Prelude.{◌≡◌, ◌≢◌, ◌↔◌, ◌⊎◌, refl, true, false, List, [], ◌∷◌, ◌++◌}
use flocksy.FlockFsm.Types.{
  Status, null_state, ready_state, exit_state, announcing_new_file_state,
  announcing_new_file_with_more_state, received_heartbeat_event, new_local_file_event,
  sending_new_file_state, receiving_file_metadata_change_state,
  promoting_new_file_metadata_with_more_state, null_action, acknowledging_new_file_state,
}
use flocksy.FlockFsm.Statuses.{
  null_status, status_100, status_110, status_120, status_121, status_122, status_130, status_132,
  status_134, status_300, status_320, status_304, status_324, status_500,
}
use flocksy.FlockFsm.Codes.{get_event_by_status_code}
use flocksy.FlockFsm.CheckEvent.{check_event}
use flocksy.FlockFsm.GetAction.{get_action}
use flocksy.FlockFsm.GetHeartbeatStatus.{get_heartbeat_status}
use flocksy.FlockFsm.GetNewState.{get_new_state}
use flocksy.FlockFsm.Agreement.{check_event_iff}
use flocksy.FlockFsm.Coherence.{dead_arm, check_event-coherent}
use flocksy.FlockFsm.Step.{accepts, step, run, role, announcer, offerer, sender}
use flocksy.FlockFsm.Roles.{accepts_local_change, ◌⟶◌, role-step}
use flocksy.FlockFsm.Paths.{run-connected}
use flocksy.FlockFsm.Runs.{
  run-interrupt, run-quiet, run-promoting_with_more, run-announcing_with_more,
}

-- A sender's way to the transfer of one file.
sender_run : run ready_state (status_300 ∷ status_122 ∷ status_132 ∷ []) ≡ sending_new_file_state
unfolding run step get_event_by_status_code check_event get_new_state
sender_run = refl

unknown_code : accepts ready_state 999 ≡ false
unfolding accepts get_event_by_status_code check_event
unknown_code = refl

check_event_iff_example :
    ((check_event ready_state received_heartbeat_event status_120 ≡ true)
      ↔ (get_action ready_state received_heartbeat_event status_120 ≢ null_action))
    × ((check_event ready_state received_heartbeat_event status_120 ≡ true)
        ↔ (get_heartbeat_status ready_state received_heartbeat_event status_120 ≢ null_status))
    × ((check_event ready_state received_heartbeat_event status_120 ≡ true)
        ↔ (get_new_state ready_state received_heartbeat_event status_120 ≢ null_state))
check_event_iff_example = check_event_iff ready_state received_heartbeat_event status_120

check_event-coherent_example :
    ((get_event_by_status_code status_320 ≡ new_local_file_event)
      × (dead_arm new_local_file_event status_320 ≡ false))
    ⊎ ((get_event_by_status_code status_320 ≢ new_local_file_event)
        × (dead_arm new_local_file_event status_320 ≡ true))
unfolding check_event
check_event-coherent_example =
    check_event-coherent receiving_file_metadata_change_state new_local_file_event status_320 refl

accepts_local_change_example :
    (accepts receiving_file_metadata_change_state status_300 ≡ true)
    × (accepts receiving_file_metadata_change_state status_304 ≡ true)
    × (accepts receiving_file_metadata_change_state status_320 ≡ false)
    × (accepts receiving_file_metadata_change_state status_324 ≡ false)
accepts_local_change_example = accepts_local_change receiving_file_metadata_change_state

role-step_example : role ready_state ⟶ role (step ready_state status_120)
role-step_example = role-step ready_state status_120

run-connected_example :
    (sts : List Status) × (run acknowledging_new_file_state sts ≡ announcing_new_file_state)
run-connected_example =
    run-connected acknowledging_new_file_state announcing_new_file_state (λ e. cc) (λ e. cc)
      (λ e. cc)

run-interrupt_example :
    run ready_state ((status_300 ∷ status_122 ∷ []) ++ status_500 ∷ status_100 ∷ []) ≡ exit_state
run-interrupt_example =
    run-interrupt ready_state (status_300 ∷ status_122 ∷ []) (status_100 ∷ []) (λ e. cc)

run-quiet_example :
    (role (run ready_state (status_120 ∷ status_130 ∷ [])) ≢ announcer)
    × (role (run ready_state (status_120 ∷ status_130 ∷ [])) ≢ offerer)
    × (role (run ready_state (status_120 ∷ status_130 ∷ [])) ≢ sender)
run-quiet_example = run-quiet (status_120 ∷ status_130 ∷ []) (refl, (refl, tt))

run-promoting_with_more_example :
    run promoting_new_file_metadata_with_more_state (status_134 ∷ status_132 ∷ status_110 ∷ [])
    ≡ promoting_new_file_metadata_with_more_state
run-promoting_with_more_example =
    run-promoting_with_more (status_134 ∷ status_132 ∷ status_110 ∷ []) (refl, (refl, (refl, tt)))

run-announcing_with_more_example :
    run announcing_new_file_with_more_state (status_121 ∷ status_122 ∷ [])
    ≡ announcing_new_file_with_more_state
run-announcing_with_more_example =
    run-announcing_with_more (status_121 ∷ status_122 ∷ []) (refl, (refl, tt))
