-- ===== src/FlockFsm/Agreement.antt =====
-- The four tables of flock_fsm.h answer at the same states, events and statuses.
use flocksy.Prelude.{zero, suc, ◌≡◌, ◌≢◌, refl, ◌↔◌, Bool, true, false, not, ◌==◌, arith}
use flocksy.FlockFsm.Types.{State, Event, Status, Action, null_state, null_action}
use flocksy.FlockFsm.Statuses.{null_status}
use flocksy.FlockFsm.Ladder.Laws.{map_rows, ladder-map_rows}
use flocksy.FlockFsm.CheckEvent.{check_event, check_arms}
use flocksy.FlockFsm.GetAction.{get_action, action_arms}
use flocksy.FlockFsm.GetHeartbeatStatus.{get_heartbeat_status, heartbeat_arms}
use flocksy.FlockFsm.GetNewState.{get_new_state, new_state_arms}

abbrev is_action : Action → Bool
is_action null_action = false
is_action _ = true

abbrev is_state : State → Bool
is_state null_state = false
is_state _ = true

abbrev is_status : Status → Bool
is_status s = not (s == 0)

-- The arms of each table, with the answer reduced to whether it is one.
action_arms-check_arms : (s : State) → map_rows is_action (action_arms s) ≡ check_arms s
unfolding action_arms check_arms
action_arms-check_arms null_state = refl
action_arms-check_arms _ = refl

heartbeat_arms-check_arms : (s : State) → map_rows is_status (heartbeat_arms s) ≡ check_arms s
unfolding heartbeat_arms check_arms
heartbeat_arms-check_arms null_state = refl
heartbeat_arms-check_arms _ = refl

new_state_arms-check_arms : (s : State) → map_rows is_state (new_state_arms s) ≡ check_arms s
unfolding new_state_arms check_arms
new_state_arms-check_arms null_state = refl
new_state_arms-check_arms _ = refl

check_event-get_action :
    (s : State) (e : Event) (st : Status) → check_event s e st ≡ is_action (get_action s e st)
unfolding check_event get_action
check_event-get_action s e st =
    rw (← action_arms-check_arms s) (ladder-map_rows is_action (action_arms s) null_action e st)

check_event-get_heartbeat_status :
    (s : State) (e : Event) (st : Status)
    → check_event s e st ≡ is_status (get_heartbeat_status s e st)
unfolding check_event get_heartbeat_status
check_event-get_heartbeat_status s e st =
    rw (← heartbeat_arms-check_arms s)
      (ladder-map_rows is_status (heartbeat_arms s) null_status e st)

check_event-get_new_state :
    (s : State) (e : Event) (st : Status) → check_event s e st ≡ is_state (get_new_state s e st)
unfolding check_event get_new_state
check_event-get_new_state s e st =
    rw (← new_state_arms-check_arms s) (ladder-map_rows is_state (new_state_arms s) null_state e st)

is_action_iff : (a : Action) → (is_action a ≡ true) ↔ (a ≢ null_action)
is_action_iff null_action = ((λ h. cc), (λ h. absurd (h refl)))
is_action_iff _ = ((λ h p. cc), (λ h. refl))

pub is_state_iff : (s : State) → (is_state s ≡ true) ↔ (s ≢ null_state)
is_state_iff null_state = ((λ h. cc), (λ h. absurd (h refl)))
is_state_iff _ = ((λ h p. cc), (λ h. refl))

is_status_iff : (st : Status) → (is_status st ≡ true) ↔ (st ≢ null_status)
is_status_iff zero = ((λ h. cc), (λ h. absurd (h refl)))
is_status_iff (suc n) = ((λ h p. cc), (λ h. ground arith))

-- At every state, event and status, check_event accepts exactly when get_action names an action
-- other than NULL_action, exactly when get_heartbeat_status names a status other than NULL_status,
-- and exactly when get_new_state names a state other than NULL_state.
pub check_event_iff :
    (s : State) (e : Event) (st : Status)
    → ((check_event s e st ≡ true) ↔ (get_action s e st ≢ null_action))
      × ((check_event s e st ≡ true) ↔ (get_heartbeat_status s e st ≢ null_status))
      × ((check_event s e st ≡ true) ↔ (get_new_state s e st ≢ null_state))
check_event_iff s e st = (
  rw (check_event-get_action s e st) (is_action_iff _),
  rw (check_event-get_heartbeat_status s e st) (is_status_iff _),
  rw (check_event-get_new_state s e st) (is_state_iff _),
)
