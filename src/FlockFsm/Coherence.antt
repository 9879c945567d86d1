-- ===== src/FlockFsm/Coherence.antt =====
-- Which arms of check_event can fire: processEvent takes the event from the status by
-- get_event_by_status_code, so an arm whose event is another one is dead.
use flocksy.Prelude.{
  ◌≡◌, ◌≢◌, refl, ◌⊎◌, inl, inr, true, false, ◌&&◌, ◌||◌, not, if◌then◌else◌, ◌==◌, arith, Bool,
  Bool-cases,
}
use flocksy.FlockFsm.Types.{
  State, Event, Status, event_eq, all_nodes_have_all_files_event, node_only_sends_heartbeats_event,
  new_local_file_event, new_local_file_with_more_event, null_state,
}
use flocksy.FlockFsm.Statuses.{status_172, status_100, status_320, status_324}
use flocksy.FlockFsm.Events.{event_eq_iff}
use flocksy.FlockFsm.Ladder.Laws.{all_rows, ladder-all_rows}
use flocksy.FlockFsm.Codes.{get_event_by_status_code}
use flocksy.FlockFsm.CheckEvent.{check_event, check_arms}

-- The four pairs of an event and a status that stand in arms although the status means another event.
abbrev pub dead_arm : Event → Status → Bool
dead_arm e st =
    (event_eq e all_nodes_have_all_files_event && st == status_172)
    || (event_eq e node_only_sends_heartbeats_event && st == status_100)
    || (event_eq e new_local_file_event && st == status_320)
    || (event_eq e new_local_file_with_more_event && st == status_324)

fits : Event → Status → Bool → Bool
fits e st b =
    if event_eq (get_event_by_status_code st) e then not (dead_arm e st) else dead_arm e st

check_arms-fits : (s : State) → all_rows fits (check_arms s) ≡ true
unfolding check_arms fits get_event_by_status_code
check_arms-fits null_state = refl
check_arms-fits _ = refl

fits_cases :
    (s : State) (e : Event) (st : Status) → check_event s e st ≡ true → fits e st true ≡ true
unfolding check_event
fits_cases s e st h = elim (ladder-all_rows fits (check_arms s) false e st (check_arms-fits s)) [
  | inl miss ↦ cc
  | inr hit ↦ rw h at hit
]

not_eq : (e f : Event) → event_eq e f ≡ false → e ≢ f
not_eq e f h p = cc ((event_eq_iff e f).1 p)

not-true : (b : Bool) → not b ≡ true → b ≡ false
not-true b h = ground arith

-- check_event accepts an event with a status only if the status code means that event, or the pair
-- is one of the four dead ones: all_nodes_have_all_files with 172, node_only_sends_heartbeats with
-- 100, new_local_file with 320 and new_local_file_with_more with 324. And no status code means the
-- event of a dead pair that stands with it, so processEvent never takes such an arm.
pub check_event-coherent :
    (s : State) (e : Event) (st : Status)
    → check_event s e st ≡ true
    → ((get_event_by_status_code st ≡ e) × (dead_arm e st ≡ false))
      ⊎ ((get_event_by_status_code st ≢ e) × (dead_arm e st ≡ true))
unfolding fits
check_event-coherent s e st h = elim (Bool-cases (event_eq (get_event_by_status_code st) e)) [
  | inl same ↦
      inl ((event_eq_iff _ e).0 same, not-true (dead_arm e st) (rw same at (fits_cases s e st h)))
  | inr other ↦ inr (not_eq _ e other, rw other at (fits_cases s e st h))
]
