-- ===== src/FlockFsm/Roles.antt =====
-- The parts that a node plays one after the other, and which local changes it hears in each.
use flocksy.Prelude.{◌≡◌, refl, inl, inr, true, false, Bool}
use flocksy.FlockFsm.Types.{
  State, Event, Status, null_state, acknowledging_new_file_state,
  acknowledging_new_file_with_more_state,
}
use flocksy.FlockFsm.Statuses.{status_300, status_304, status_320, status_324}
use flocksy.FlockFsm.Codes.{get_event_by_status_code}
use flocksy.FlockFsm.CheckEvent.{check_event}
use flocksy.FlockFsm.GetNewState.{new_state_arms}
use flocksy.FlockFsm.Step.Rule.{step_cases}
use flocksy.FlockFsm.Ladder.Laws.{all_rows}
use flocksy.FlockFsm.Step.{
  step, accepts, Role, outside, idle, announcer, offerer, sender, acknowledger, promoter, receiver,
  broadcaster, metadata_receiver, metadata_broadcaster, stopping, gone, role,
}

-- The parts in which a change of a file's data is heard, and those for a change of its metadata.
abbrev hears_data : Role → Bool
hears_data outside = false
hears_data stopping = false
hears_data gone = false
hears_data _ = true

abbrev hears_metadata_as : Role → Bool
hears_metadata_as idle = true
hears_metadata_as announcer = true
hears_metadata_as offerer = true
hears_metadata_as sender = true
hears_metadata_as _ = false

abbrev hears_metadata : State → Bool
hears_metadata acknowledging_new_file_state = true
hears_metadata acknowledging_new_file_with_more_state = true
hears_metadata s = hears_metadata_as (role s)

-- A local change of a file's data (300, 304) is accepted in every state but NULL, syncing_stop and
-- exit. A local change of metadata (320, 324) is accepted only while the node is ready, announces,
-- sends or acknowledges a new file: in the thirteen other states of a receiver it is refused.
pub accepts_local_change :
    (s : State)
    → (accepts s status_300 ≡ hears_data (role s))
      × (accepts s status_304 ≡ hears_data (role s))
      × (accepts s status_320 ≡ hears_metadata s)
      × (accepts s status_324 ≡ hears_metadata s)
unfolding accepts get_event_by_status_code check_event
accepts_local_change null_state = (refl, refl, refl, refl)
accepts_local_change _ = (refl, refl, refl, refl)

infix 40 ◌⟶◌
pub data ◌⟶◌ : Role → Role → Type 0 where
  stay : {r : Role} → r ⟶ r
  announce : idle ⟶ announcer
  offer : announcer ⟶ offerer
  send : offerer ⟶ sender
  finish_offering : offerer ⟶ idle
  finish_sending : sender ⟶ stopping
  give_up_sending : sender ⟶ idle
  acknowledge : idle ⟶ acknowledger
  promote : acknowledger ⟶ promoter
  receive : promoter ⟶ receiver
  complete : receiver ⟶ broadcaster
  receive_next : broadcaster ⟶ receiver
  finish_receiving : broadcaster ⟶ stopping
  give_up_receiving : receiver ⟶ idle
  give_up_broadcasting : broadcaster ⟶ idle
  take_metadata : acknowledger ⟶ metadata_receiver
  confirm_metadata : metadata_receiver ⟶ metadata_broadcaster
  promote_after_metadata : metadata_broadcaster ⟶ promoter
  finish_metadata : metadata_broadcaster ⟶ idle
  rest : stopping ⟶ idle
  interrupt : {r : Role} → r ⟶ gone

follows : Role → Role → Bool
follows r gone = true
follows idle idle = true
follows announcer announcer = true
follows offerer offerer = true
follows sender sender = true
follows acknowledger acknowledger = true
follows promoter promoter = true
follows receiver receiver = true
follows broadcaster broadcaster = true
follows metadata_receiver metadata_receiver = true
follows metadata_broadcaster metadata_broadcaster = true
follows stopping stopping = true
follows idle announcer = true
follows announcer offerer = true
follows offerer sender = true
follows offerer idle = true
follows sender stopping = true
follows sender idle = true
follows idle acknowledger = true
follows acknowledger promoter = true
follows promoter receiver = true
follows receiver broadcaster = true
follows broadcaster receiver = true
follows broadcaster stopping = true
follows receiver idle = true
follows broadcaster idle = true
follows acknowledger metadata_receiver = true
follows metadata_receiver metadata_broadcaster = true
follows metadata_broadcaster promoter = true
follows metadata_broadcaster idle = true
follows stopping idle = true
follows _ _ = false

follows-⟶ : (r q : Role) → follows r q ≡ true → r ⟶ q
unfolding follows
follows-⟶ r gone h = interrupt
follows-⟶ idle idle h = stay
follows-⟶ announcer announcer h = stay
follows-⟶ offerer offerer h = stay
follows-⟶ sender sender h = stay
follows-⟶ acknowledger acknowledger h = stay
follows-⟶ promoter promoter h = stay
follows-⟶ receiver receiver h = stay
follows-⟶ broadcaster broadcaster h = stay
follows-⟶ metadata_receiver metadata_receiver h = stay
follows-⟶ metadata_broadcaster metadata_broadcaster h = stay
follows-⟶ stopping stopping h = stay
follows-⟶ idle announcer h = announce
follows-⟶ announcer offerer h = offer
follows-⟶ offerer sender h = send
follows-⟶ offerer idle h = finish_offering
follows-⟶ sender stopping h = finish_sending
follows-⟶ sender idle h = give_up_sending
follows-⟶ idle acknowledger h = acknowledge
follows-⟶ acknowledger promoter h = promote
follows-⟶ promoter receiver h = receive
follows-⟶ receiver broadcaster h = complete
follows-⟶ broadcaster receiver h = receive_next
follows-⟶ broadcaster stopping h = finish_receiving
follows-⟶ receiver idle h = give_up_receiving
follows-⟶ broadcaster idle h = give_up_broadcasting
follows-⟶ acknowledger metadata_receiver h = take_metadata
follows-⟶ metadata_receiver metadata_broadcaster h = confirm_metadata
follows-⟶ metadata_broadcaster promoter h = promote_after_metadata
follows-⟶ metadata_broadcaster idle h = finish_metadata
follows-⟶ stopping idle h = rest
follows-⟶ _ _ h = cc

fits : State → Event → Status → State → Bool
fits s e st t = follows (role s) (role t)

new_state_arms-fits : (s : State) → all_rows (fits s) (new_state_arms s) ≡ true
unfolding fits new_state_arms follows
new_state_arms-fits null_state = refl
new_state_arms-fits _ = refl

-- Every status code leaves the part as it is or moves it along one edge of the diagram ⟶; any part may be interrupted,
-- which ends it. Otherwise: from idle a node comes to announce or to acknowledge. From announcing it comes to offer
-- metadata, from that to send the file or to idle, and from sending to the stop or, given up, to idle. From
-- acknowledging it comes to promote a file's metadata or to take changed metadata; from promoting to receive; from
-- receiving to tell that all is received or, given up, to idle; from telling that to receive the next file, to the stop
-- or to idle. From taking changed metadata it comes to confirm it, and from that to idle or to promote. From
-- the stop it comes to idle.
pub role-step : (s : State) (st : Status) → role s ⟶ role (step s st)
unfolding fits
role-step s st = elim (step_cases (fits s) s st (new_state_arms-fits s)) [
  | inl same ↦ rw same stay
  | inr moved ↦ follows-⟶ _ _ moved
]
