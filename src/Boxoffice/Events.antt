-- ===== src/Boxoffice/Events.antt =====
-- processEvent of src/boxoffice.cpp, and the loop of runRouter.
use flocksy.Prelude.{
  ℕ, ◌+◌, ◌-◌, ◌%◌, ◌^◌, Bool, ◌&&◌, ◌||◌, ◌∷◌, ◌++◌, Result, ok, ◌>>=◌, if◌then◌else◌, ◌==◌, ltb,
}
use flocksy.Constants.{f_generic_hash_len}
use flocksy.Bytes.{be64}
use flocksy.Stream.{Stream, read, seek_beg}
use flocksy.Threads.Publisher.{substr}
use flocksy.File.Disk.{FileSystem}
use flocksy.File.Codec.{encode}
use flocksy.FlockFsm.Types.{
  state_eq, event_eq, Status, received_heartbeat_event, received_file_data_event,
  all_nodes_replied_event, all_nodes_have_all_metadata_changes_with_more_event,
}
use flocksy.FlockFsm.Statuses.{status_122, status_177}
use flocksy.FlockFsm.Codes.{get_event_by_status_code}
use flocksy.FlockFsm.CheckEvent.{check_event}
use flocksy.FlockFsm.GetAction.{get_action}
use flocksy.FlockFsm.GetNewState.{get_new_state}
use flocksy.Boxoffice.Nodes.{node_at, update_node}
use flocksy.Boxoffice.Office.{
  Office, Readings, Handling, Flow, going, returned, call, and_then, base_dir, the_box,
  to_dispatcher,
}
use flocksy.Boxoffice.Sending.{signal, front, perform_action}
use flocksy.Boxoffice.Heartbeats.{on_heartbeat}
use flocksy.Boxoffice.LocalChanges.{is_local, on_local_change}
use flocksy.Boxoffice.FileData.{on_file_data}

abbrev pub f_minimum_send_offset : ℕ
f_minimum_send_offset = 3000

-- The events after which the dispatcher is to fire at an offset.
abbrev pub is_scheduled : {D : Type 0} → Handling D → Bool
is_scheduled h =
    (event_eq h.event all_nodes_replied_event && h.status == status_122)
    || (event_eq h.event all_nodes_have_all_metadata_changes_with_more_event
        && h.status == status_177)

-- `timestamp + random_offset - offset` in uint64_t, where the offset is an int16_t.
abbrev pub timing_offset : Readings → ℕ → ℕ
timing_offset readings offset =
    let sum = readings.send_time + (readings.send_random + f_minimum_send_offset) in
    let signed = if ltb offset (2 ^ 15) then offset else 2 ^ 64 - (2 ^ 16 - offset) in
    (sum + (2 ^ 64 - signed)) % 2 ^ 64

-- ALL_NODES_REPLIED: the offset, the box and the first file of the queue go to the dispatcher.
unfoldable pub schedule :
    {D : Type 0} → Readings → Status → Office D → Stream → Result (Office D × Stream)
unfolding base_dir encode substr seek_beg signal
schedule readings status o s = do
  (hash, s') ← read f_generic_hash_len (seek_beg 5 s)
  let offset = timing_offset readings (node_at hash o.subscribers).offset
  box_hash ← the_box o.current_box
  dir ← base_dir box_hash o.boxes
  (file, files) ← front o.file_list_data
  text ← encode file
  described ← substr 32 text
  let message = be64 offset ++ (box_hash ++ (dir ++ (b' ' ∷ described)))
  ok (
    record o {
      subscribers = update_node hash (λ node. node) o.subscribers;
      current_timing_offset = offset;
      sent = to_dispatcher (signal status message) ∷ o.sent;
    },
    s',
  )

unfoldable pub on_scheduled : {D : Type 0} → Readings → Handling D → Flow D
unfolding schedule
on_scheduled readings h =
    call (schedule readings h.status h.office h.stream)
      (λ (o, s). going (record h { office = o; stream = s }))

-- FSM CONTINUE: the action of a change of state, and the new state.
unfoldable pub continue : {D : Type 0} → Readings → Handling D → Flow D
unfolding perform_action
continue readings h =
    let o = h.office in
    let new_state = get_new_state o.state h.event h.status in
    let act : Flow _ =
      call
        (perform_action readings h.event (get_action o.state h.event h.status) h.status new_state o)
        (λ o'. returned 0 (record o' { state = new_state })) in
    if state_eq o.state new_state then returned 0 o else act

module _ (fs : FileSystem) (readings : Readings) where
  open fs use {Disk}

  abbrev pub when : Bool → (Handling Disk → Flow Disk) → Handling Disk → Flow Disk
  when b k h = if b then k h else going h

  -- The blocks of processEvent, one behind the other; each tests the event that the last one left.
  unfoldable pub handle : Handling Disk → Flow Disk
  unfolding on_heartbeat on_scheduled on_local_change on_file_data continue
  handle h =
      and_then (when (event_eq h.event received_heartbeat_event) (on_heartbeat fs readings) h)
        (λ h₁. and_then (when (is_scheduled h₁) (on_scheduled readings) h₁) (λ h₂.
          and_then (when (is_local h₂.event) (on_local_change fs) h₂) (λ h₃.
            and_then (when (event_eq h₃.event received_file_data_event) (on_file_data fs) h₃)
              (continue readings))))

  unfoldable pub process_event : Status → Stream → Office Disk → Flow Disk
  unfolding handle
  process_event status s o =
      let event = get_event_by_status_code status in
      if check_event o.state event status
      then handle (record { office = o; status = status; event = event; stream = s })
      else returned 0 o
