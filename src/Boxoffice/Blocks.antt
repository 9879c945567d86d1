-- ===== src/Boxoffice/Blocks.antt =====
-- The block of processEvent for heartbeats leaves the state, and a status code that the state accepts.
use flocksy.Prelude.{◌≡◌, refl, ◌∙◌, ◌||◌, ◌&&◌, ◌==◌, not, false}
use flocksy.Stream.{read, seek_cur}
use flocksy.File.Disk.{FileSystem}
use flocksy.FlockFsm.Types.{
  State, Status, state_eq, ready_state, promoting_new_file_metadata_state,
  receiving_file_metadata_change_state, receiving_file_metadata_change_with_more_state,
}
use flocksy.FlockFsm.Statuses.{
  status_100, status_120, status_121, status_122, status_142, status_162, status_166, status_124,
  status_130, status_132, status_140, status_141, status_150, status_155, status_160, status_161,
  status_165, status_170, status_173, status_174,
}
use flocksy.FlockFsm.GetAction.{get_action}
use flocksy.Boxoffice.Nodes.{all_replied, mark_replied, clear_replied}
use flocksy.Boxoffice.Clock.{update_timestamp}
use flocksy.Boxoffice.Office.{Office, Readings, Handling, change_status}
use flocksy.Boxoffice.Sending.{perform_action}
use flocksy.Boxoffice.Replies.{collect, remaining, on_121, on_140, on_141, on_161, on_165}
use flocksy.Boxoffice.Metadata.{promote, receive_last, receive_next, on_130, on_170, on_174}
use flocksy.Boxoffice.Heartbeats.{on_150, pass_on_stop, on_155, switch, on_heartbeat}
use flocksy.Boxoffice.Yields.{
  Keeps, Accepted, Yields, Yields-any, Keeps-then, Keeps-call, Keeps-any, Keeps-if,
  Keeps-change_status,
}
use flocksy.Boxoffice.Kept.{
  InState, Left, perform_action-state, promote-state, receive_last-state, receive_next-state,
}

collect-Keeps :
    {D : Type 0} (s : State) (reset : Office D → Office D) (next : Office D → Status)
    (h : Handling D)
    → ((o : Office D) → (reset o).state ≡ o.state)
    → Accepted s h
    → Keeps s (collect reset next h)
unfolding collect Keeps
collect-Keeps s reset next h kept a =
    let marked = mark_replied h.office.current_node_hash h.office.subscribers in
    let done = record h {
      office = reset (record h.office { subscribers = clear_replied marked });
    } in
    Keeps-if s (all_replied marked) _ _ (Keeps-change_status s _ done (kept _ ∙ a.0)) a

module _ {D : Type 0} (readings : Readings) (s : State) (h : Handling D) (a : Accepted s h) where
  on_150-Keeps : Keeps s (on_150 readings h)
  unfolding on_150 Keeps
  on_150-Keeps =
      Keeps-if s (state_eq h.office.state ready_state) _ _
        (Keeps-then s (change_status status_100 h) _ (Keeps-change_status s status_100 h a.0)
          (λ h' a'.
            Keeps-call s (InState s)
              (perform_action readings h'.event (get_action h'.office.state h'.event h'.status)
                h'.status h'.office.state h'.office)
              _
              (perform_action-state readings s h'.office a'.0 h'.event
                (get_action h'.office.state h'.event h'.status) h'.status h'.office.state)
              (λ _ kept. (kept, a'.1, a'.2))))
        a

  on_155-Keeps : Keeps s (on_155 readings h)
  unfolding on_155 Keeps pass_on_stop Yields
  on_155-Keeps = Keeps-if s h.office.stop_sync_timeout_received _ _ a (
      Keeps-call s (Left s) (pass_on_stop readings h.office h.stream) _
        (Yields-any (Left s) (read 8 (seek_cur 1 h.stream)) _ (λ _. a.0))
        (λ _ kept. (kept, a.1, a.2)))

module _ (fs : FileSystem) (readings : Readings) (s : State) where
  open fs use {Disk}

  module _ (h : Handling Disk) (a : Accepted s h) where
    on_130-Keeps : Keeps s (on_130 fs h)
    unfolding on_130 Keeps
    on_130-Keeps =
        Keeps-if s
          (state_eq h.office.state promoting_new_file_metadata_state
            && not h.office.notified_dispatch)
          _ _
          (Keeps-call s (Left s) (promote fs h.office h.stream) _
            (promote-state fs s h.office h.stream a.0) (λ _ kept. (kept, a.1, a.2)))
          a

    on_170-Keeps : Keeps s (on_170 fs h)
    unfolding on_170 Keeps
    on_170-Keeps =
        Keeps-if s (state_eq h.office.state receiving_file_metadata_change_state) _ _
          (Keeps-call s (Left s) (receive_last fs h.office h.stream) _
            (receive_last-state fs s h.office h.stream a.0)
            (λ (o, stream) kept.
              Keeps-change_status s status_173 (record h { office = o; stream = stream }) kept))
          a

    on_174-Keeps : Keeps s (on_174 fs h)
    unfolding on_174 Keeps
    on_174-Keeps =
        Keeps-if s (state_eq h.office.state receiving_file_metadata_change_with_more_state) _ _
          (Keeps-call s (Left s) (receive_next fs h.office h.stream) _
            (receive_next-state fs s h.office h.stream a.0)
            (λ (o, stream) kept.
              Keeps-change_status s status_173 (record h { office = o; stream = stream }) kept))
          a

    switch-Keeps : Keeps s (switch fs readings h)
    unfolding switch Keeps on_121 on_161 on_165 on_140 on_141
    switch-Keeps = Keeps-if s (h.status == status_100) _ _ a (
        Keeps-if s (h.status == status_121) _ _
          (collect-Keeps s (λ o. record o { file_metadata_written = false }) (λ _. status_122) h
            (λ _. refl) a)
          (Keeps-if s (h.status == status_161) _ _
            (collect-Keeps s (λ o. o) (λ _. status_162) h (λ _. refl) a)
            (Keeps-if s (h.status == status_165) _ _
              (collect-Keeps s (λ o. o) (λ _. status_166) h (λ _. refl) a)
              (Keeps-if s (h.status == status_140) _ _
                (collect-Keeps s (λ o. o) (λ _. status_142) h (λ _. refl) a)
                (Keeps-if s (h.status == status_141) _ _
                  (collect-Keeps s (λ o. o) remaining h (λ _. refl) a)
                  (Keeps-if s (h.status == status_120 || h.status == status_124) _ _ a (
                    Keeps-if s (h.status == status_132) _ _ a (
                      Keeps-if s (h.status == status_130) _ _ on_130-Keeps (
                        Keeps-if s (h.status == status_160) _ _ a (
                          Keeps-if s (h.status == status_170) _ _ on_170-Keeps (
                            Keeps-if s (h.status == status_174) _ _ on_174-Keeps (
                              Keeps-if s (h.status == status_150) _ _ (on_150-Keeps readings s h a)
                                (Keeps-if s (h.status == status_155) _ _
                                  (on_155-Keeps readings s h a) a)))))))))))))

  pub on_heartbeat-Keeps : (h : Handling Disk) → Accepted s h → Keeps s (on_heartbeat fs readings h)
  unfolding on_heartbeat Keeps
  on_heartbeat-Keeps h a =
      Keeps-any s (update_timestamp readings.arrival_time h.office.subscribers h.stream) _
        (λ (node_hash, subscribers, stream).
          switch-Keeps
            (record h {
              office = record h.office { current_node_hash = node_hash; subscribers = subscribers };
              stream = stream;
            })
            a)
