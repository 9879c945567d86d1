-- ===== src/Boxoffice/Heartbeats.antt =====
-- The branch of processEvent for a heartbeat: updateTimestamp, and the switch on the status.
use flocksy.Prelude.{true, false, ◌∷◌, Result, ok, ◌>>=◌, if◌then◌else◌, ◌||◌, ◌==◌}
use flocksy.Stream.{Stream, read, seek_cur}
use flocksy.File.Disk.{FileSystem}
use flocksy.FlockFsm.Types.{state_eq, ready_state}
use flocksy.FlockFsm.Statuses.{
  status_100, status_120, status_121, status_124, status_130, status_132, status_140, status_141,
  status_150, status_155, status_160, status_161, status_165, status_170, status_174,
}
use flocksy.FlockFsm.GetAction.{get_action}
use flocksy.Boxoffice.Nodes.{clear_replied}
use flocksy.Boxoffice.Clock.{update_timestamp}
use flocksy.Boxoffice.Office.{
  Office, Readings, Handling, Flow, going, call, and_then, change_status, to_dispatcher,
}
use flocksy.Boxoffice.Sending.{signal, perform_action}
use flocksy.Boxoffice.Replies.{on_121, on_140, on_141, on_161, on_165}
use flocksy.Boxoffice.Metadata.{on_130, on_170, on_174}

module _ {D : Type 0} (readings : Readings) where
  -- 150 in the ready state: the heartbeat goes back to 100.
  unfoldable pub on_150 : Handling D → Flow D
  unfolding change_status perform_action
  on_150 h =
      let act : Handling D → Flow D = λ h'.
        call
          (perform_action readings h'.event (get_action h'.office.state h'.event h'.status)
            h'.status h'.office.state h'.office)
          (λ o. going (record h' { office = o })) in
      if state_eq h.office.state ready_state
      then and_then (change_status status_100 h) act
      else going h

  unfoldable pub pass_on_stop : Office D → Stream → Result (Office D × Stream)
  unfolding signal seek_cur
  pass_on_stop o s = do
    (offset, s') ← read 8 (seek_cur 1 s)
    ok (
      record o {
        sent = to_dispatcher (signal status_155 offset) ∷ o.sent;
        stop_sync_timeout_received = true;
      },
      s',
    )

  -- 155: the dispatcher is told the time of the stop, once.
  unfoldable pub on_155 : Handling D → Flow D
  unfolding pass_on_stop
  on_155 h =
      if h.office.stop_sync_timeout_received
      then going h
      else call (pass_on_stop h.office h.stream)
          (λ (o, s). going (record h { office = o; stream = s }))

module _ (fs : FileSystem) (readings : Readings) where
  open fs use {Disk}

  unfoldable pub switch : Handling Disk → Flow Disk
  unfolding on_121 on_140 on_141 on_161 on_165 on_130 on_170 on_174 on_150 on_155
  switch h =
      let o = h.office in
      let status = h.status in
      if status == status_100
      then going (record h { office = record o { stop_sync_timeout_received = false } })
      else if status == status_121
      then on_121 h
      else if status == status_161
      then on_161 h
      else if status == status_165
      then on_165 h
      else if status == status_140
      then on_140 h
      else if status == status_141
      then on_141 h
      else if status == status_120 || status == status_124
      then going (record h { office = record o { notified_dispatch = false } })
      else if status == status_132
      then going (record h { office = record o { subscribers = clear_replied o.subscribers } })
      else if status == status_130
      then on_130 fs h
      else if status == status_160
      then going (record h { office = record o { file_metadata_written = false } })
      else if status == status_170
      then on_170 fs h
      else if status == status_174
      then on_174 fs h
      else if status == status_150
      then on_150 readings h
      else if status == status_155
      then on_155 readings h
      else going h

  unfoldable pub on_heartbeat : Handling Disk → Flow Disk
  unfolding switch
  on_heartbeat h =
      call (update_timestamp readings.arrival_time h.office.subscribers h.stream)
        (λ (node_hash, subscribers, s). switch (record h {
          office = record h.office { current_node_hash = node_hash; subscribers = subscribers };
          stream = s;
        }))
