-- ===== src/Boxoffice/Protocol.antt =====
-- processEvent of src/boxoffice.cpp follows the protocol's diagram.
use flocksy.Prelude.{
  ℕ, ◌≡◌, ◌⊎◌, refl, subst, Bool, true, false, inl, inr, Result, ok, fault, Bool-cases,
  if◌then◌else◌,
}
use flocksy.Stream.{Stream}
use flocksy.File.Disk.{FileSystem}
use flocksy.FlockFsm.Types.{
  State, Status, state_eq, event_eq, received_heartbeat_event, received_file_data_event,
}
use flocksy.FlockFsm.Codes.{get_event_by_status_code}
use flocksy.FlockFsm.CheckEvent.{check_event}
use flocksy.FlockFsm.GetAction.{get_action}
use flocksy.FlockFsm.GetNewState.{get_new_state}
use flocksy.FlockFsm.Step.{accepts, step, role}
use flocksy.FlockFsm.Roles.{◌⟶◌, stay, role-step}
use flocksy.Boxoffice.Office.{
  Office, Readings, Handling, Flow, going, returned, failed, and_then, call,
}
use flocksy.Boxoffice.Sending.{perform_action}
use flocksy.Boxoffice.LocalChanges.{is_local, on_local_change}
use flocksy.Boxoffice.Heartbeats.{on_heartbeat}
use flocksy.Boxoffice.FileData.{on_file_data}
use flocksy.Boxoffice.Events.{is_scheduled, on_scheduled, when, continue, handle, process_event}
use flocksy.Boxoffice.Yields.{Keeps, Accepted}
use flocksy.Boxoffice.Blocks.{on_heartbeat-Keeps}
use flocksy.Boxoffice.FileBlocks.{on_scheduled-Keeps, on_local_change-Keeps, on_file_data-Keeps}

-- How processEvent ends, from the state s: it is left, or it returns 0 in the state of a step of the
-- machine that s accepts. A failing call ends the thread.
unfoldable pub Follows : {D : Type 0} → State → Flow D → Type 0
Follows s (going h) = ⊥
Follows s (returned n o) =
    (o.state ≡ s)
    ⊎ ((n ≡ 0) × (status : Status) × (accepts s status ≡ true) × (o.state ≡ step s status))
Follows s (failed x) = Unit {0}

Follows-then :
    {D : Type 0} (s : State) (m : Flow D) (k : Handling D → Flow D)
    → Keeps s m
    → ((h : Handling D) → Accepted s h → Follows s (k h))
    → Follows s (and_then m k)
unfolding Keeps Follows
Follows-then s (going h) f p k = k h p
Follows-then s (returned n o) f p k = inl p
Follows-then s (failed x) f p k = tt

Follows-call :
    {A D : Type 0} (s : State) (m : Result A) (k : A → Flow D)
    → ((a : A) → Follows s (k a))
    → Follows s (call m k)
unfolding Follows
Follows-call s (ok a) f k = k a
Follows-call s (fault x) f k = tt

Follows-if :
    {D : Type 0} (s : State) (b : Bool) (m k : Flow D)
    → Follows s m
    → Follows s k
    → Follows s (if b then m else k)
Follows-if s true m k p q = p
Follows-if s false m k p q = q

continue-Follows :
    {D : Type 0} (readings : Readings) (s : State) (h : Handling D)
    → Accepted s h
    → Follows s (continue readings h)
unfolding continue Follows accepts step
continue-Follows readings s h a =
    let o = h.office in
    let new_state = get_new_state o.state h.event h.status in
    Follows-if s (state_eq o.state new_state) _ _ (inl a.0) (
      Follows-call s
        (perform_action readings h.event (get_action o.state h.event h.status) h.status new_state o)
        _ (λ _. inr (refl, h.status, a.2, rw a.2 (rw (a.0, a.1) refl))))

module _ (fs : FileSystem) (readings : Readings) (s : State) where
  open fs use {Disk}

  when-Keeps :
      (b : Bool) (k : Handling Disk → Flow Disk) (h : Handling Disk)
      → Accepted s h
      → Keeps s (k h)
      → Keeps s (when fs readings b k h)
  unfolding Keeps
  when-Keeps true k h a p = p
  when-Keeps false k h a p = a

  -- A block that tests b, and what comes behind it.
  block-Follows :
      (b : Bool) (k rest : Handling Disk → Flow Disk) (h : Handling Disk)
      → Accepted s h
      → Keeps s (k h)
      → ((h' : Handling Disk) → Accepted s h' → Follows s (rest h'))
      → Follows s (and_then (when fs readings b k h) rest)
  block-Follows b k rest h a p next =
      Follows-then s (when fs readings b k h) rest (when-Keeps b k h a p) next

  handle-Follows : (h : Handling Disk) → Accepted s h → Follows s (handle fs readings h)
  unfolding handle
  handle-Follows h a =
      block-Follows (event_eq h.event received_heartbeat_event) (on_heartbeat fs readings) _ h a
        (on_heartbeat-Keeps fs readings s h a)
        (λ h₁ a₁.
          block-Follows (is_scheduled h₁) (on_scheduled readings) _ h₁ a₁
            (on_scheduled-Keeps readings s h₁ a₁)
            (λ h₂ a₂.
              block-Follows (is_local h₂.event) (on_local_change fs) _ h₂ a₂
                (on_local_change-Keeps fs s h₂ a₂)
                (λ h₃ a₃.
                  block-Follows (event_eq h₃.event received_file_data_event) (on_file_data fs) _ h₃
                    a₃ (on_file_data-Keeps fs s h₃ a₃)
                    (λ h₄ a₄. continue-Follows readings s h₄ a₄))))

unchanged : {D : Type 0} (o : Office D) → Follows o.state (returned 0 o)
unfolding Follows
unchanged o = inl refl

-- However an event is handled, and whatever the blocks of processEvent change on the way (the status
-- code and the event included), processEvent does not change the state but by a step of the state
-- machine: it leaves the state as it was, or it returns 0 in the state to which a status code leads
-- that the machine accepts in the state from before. Only a failing call, which ends the thread, is
-- left out.
pub process_event-Follows :
    (fs : FileSystem) (readings : Readings) (status : Status) (stream : Stream) (o : Office fs.Disk)
    → Follows o.state (process_event fs readings status stream o)
unfolding process_event
process_event-Follows fs readings status stream o =
    let event = get_event_by_status_code status in
    elim (Bool-cases (check_event o.state event status)) [
      | inl yes' ↦ rw yes' (
          handle-Follows fs readings o.state
            (record { office = o; status = status; event = event; stream = stream })
            (refl, refl, yes'))
      | inr no' ↦ rw no' (unchanged o)
    ]

returned-role :
    {D : Type 0} (s : State) (n : ℕ) (o : Office D)
    → Follows s (returned n o)
    → role s ⟶ role o.state
unfolding Follows
returned-role s n o (inl same) = rw same stay
returned-role s n o (inr (zero', status, accepted, moved)) = rw moved (role-step s status)

-- When processEvent returns, the node plays the part that it played before, or the part at the end of
-- an edge of the protocol's diagram ⟶.
pub process_event-role :
    (fs : FileSystem) (readings : Readings) (status : Status) (stream : Stream) (o : Office fs.Disk)
    (n : ℕ) (o' : Office fs.Disk)
    → process_event fs readings status stream o ≡ returned n o'
    → role o.state ⟶ role o'.state
process_event-role fs readings status stream o n o' e =
    returned-role o.state n o'
      (subst (Follows o.state) e (process_event-Follows fs readings status stream o))
