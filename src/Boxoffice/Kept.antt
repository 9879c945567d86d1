-- ===== src/Boxoffice/Kept.antt =====
-- What performAction and the metadata cases of processEvent leave of the state.
use flocksy.Prelude.{ℕ, ◌≡◌, ◌||◌, ◌&&◌, not, List, if◌then◌else◌}
use flocksy.Stream.{Stream, read}
use flocksy.Threads.Publisher.{substr}
use flocksy.File.{File, store_metadata, resize, create}
use flocksy.File.Disk.{FileSystem}
use flocksy.File.Codec.{encode}
use flocksy.FlockFsm.Types.{
  State, Event, Action, Status, state_eq, sending_new_file_metadata_state,
  sending_new_file_metadata_with_more_state, sending_file_metadata_change_state,
  sending_file_metadata_change_with_more_state, syncing_stop_state, null_action,
  send_heartbeat_action, add_new_file_to_queue_action, send_file_data_action, ignore_action,
  store_file_data_action, send_fake_file_data_action, exit_action,
}
use flocksy.Boxoffice.Office.{Office, Readings}
use flocksy.Boxoffice.Sending.{
  front, prepare_file, prepare_metadata, prepare_stop, prepare_heartbeat_message, update_heartbeat,
  perform_action,
}
use flocksy.Boxoffice.Metadata.{
  receive_file, keep_file, write_promoted, write_received, promote, receive_last, receive_next,
}
use flocksy.Boxoffice.Yields.{Yields, Yields-any, Yields-bind, Yields-if}

-- The office has the state s.
abbrev pub InState : {D : Type 0} → State → Office D → Type 0
InState s o = o.state ≡ s

abbrev Prepared : {D : Type 0} → State → List ℕ × Office D → Type 0
Prepared s r = r.1.state ≡ s

module _ {D : Type 0} (readings : Readings) (s : State) (o : Office D) (same : InState s o) where
  prepare_file-state : Yields (Prepared s) (prepare_file readings o)
  unfolding prepare_file Yields
  prepare_file-state = Yields-any (Prepared s) (front o.file_list_data) _ (λ r.
      Yields-any (Prepared s) (encode r.0) _
        (λ text. Yields-any (Prepared s) (substr 32 text) _ (λ _. same)))

  prepare_metadata-state : Yields (Prepared s) (prepare_metadata readings o)
  unfolding prepare_metadata Yields
  prepare_metadata-state = Yields-any (Prepared s) (front o.file_list_metadata) _ (λ r.
      Yields-any (Prepared s) (encode r.0) _
        (λ text. Yields-any (Prepared s) (substr 32 text) _ (λ _. same)))

  prepare_heartbeat_message-state :
      (new_state : State) → Yields (Prepared s) (prepare_heartbeat_message readings new_state o)
  unfolding prepare_heartbeat_message Yields prepare_stop
  prepare_heartbeat_message-state new_state =
      Yields-if (Prepared s)
        (state_eq new_state sending_new_file_metadata_state
          || state_eq new_state sending_new_file_metadata_with_more_state)
        _ _ prepare_file-state
        (Yields-if (Prepared s)
          (state_eq new_state sending_file_metadata_change_state
            || state_eq new_state sending_file_metadata_change_with_more_state)
          _ _ prepare_metadata-state
          (Yields-if (Prepared s)
            (state_eq new_state syncing_stop_state && not o.stop_sync_timeout_received) _ _ same
            same))

  update_heartbeat-state :
      (new_status : Status) (new_state : State)
      → Yields (InState s) (update_heartbeat readings new_status new_state o)
  unfolding update_heartbeat Yields
  update_heartbeat-state new_status new_state =
      Yields-bind (Prepared s) (InState s) (prepare_heartbeat_message readings new_state o) _
        (prepare_heartbeat_message-state new_state) (λ _ kept. kept)

  pub perform_action-state :
      (event : Event) (action : Action) (received : Status) (new_state : State)
      → Yields (InState s) (perform_action readings event action received new_state o)
  unfolding perform_action Yields
  perform_action-state event send_heartbeat_action received new_state =
      update_heartbeat-state _ new_state
  perform_action-state event null_action received new_state = same
  perform_action-state event add_new_file_to_queue_action received new_state = same
  perform_action-state event send_file_data_action received new_state = same
  perform_action-state event ignore_action received new_state = same
  perform_action-state event store_file_data_action received new_state = same
  perform_action-state event send_fake_file_data_action received new_state = same
  perform_action-state event exit_action received new_state = same

abbrev pub Left : {D : Type 0} → State → Office D × Stream → Type 0
Left s r = r.0.state ≡ s

module _ (fs : FileSystem) (s : State) where
  open fs use {Disk, exists}

  write_promoted-state :
      (file : File) (o : Office Disk) → InState s o → Yields (InState s) (write_promoted fs file o)
  unfolding write_promoted Yields
  write_promoted-state file o same = Yields-if (InState s) o.file_metadata_written _ _ same (
      Yields-any (InState s) (store_metadata fs file o.disk) _
        (λ disk. Yields-any (InState s) (resize fs file disk) _ (λ _. same)))

  write_received-state :
      (file : File) (o : Office Disk) → InState s o → Yields (InState s) (write_received fs file o)
  unfolding write_received Yields
  write_received-state file o same =
      Yields-if (InState s) (file.deleted_file || o.file_metadata_written) _ _ same (
        Yields-any (InState s)
          (if exists file.bpath o.disk then resize fs file o.disk else create fs file o.disk) _
          (λ disk. Yields-any (InState s) (store_metadata fs file disk) _ (λ _. same)))

  pub promote-state :
      (o : Office Disk) (stream : Stream) → InState s o → Yields (Left s) (promote fs o stream)
  unfolding promote Yields
  promote-state o stream same =
      Yields-any (Left s) (receive_file fs o stream) _ (λ (hash, file, s₁, disk).
        Yields-bind (InState s) (Left s) (write_promoted fs file (record o { disk = disk })) _
          (write_promoted-state file (record o { disk = disk }) same)
          (λ o' kept.
            Yields-any (Left s) (keep_file fs file) _
              (λ _. Yields-any (Left s) (read 8 s₁) _ (λ _. kept))))

  pub receive_last-state :
      (o : Office Disk) (stream : Stream) → InState s o → Yields (Left s) (receive_last fs o stream)
  unfolding receive_last Yields
  receive_last-state o stream same =
      Yields-any (Left s) (receive_file fs o stream) _ (λ (hash, file, s₁, disk).
        Yields-bind (InState s) (Left s) (write_received fs file (record o { disk = disk })) _
          (write_received-state file (record o { disk = disk }) same) (λ _ kept. kept))

  pub receive_next-state :
      (o : Office Disk) (stream : Stream) → InState s o → Yields (Left s) (receive_next fs o stream)
  unfolding receive_next Yields
  receive_next-state o stream same =
      Yields-any (Left s) (receive_file fs o stream) _ (λ (hash, file, s₁, disk).
        Yields-bind (InState s) (Left s) (write_received fs file (record o { disk = disk })) _
          (write_received-state file (record o { disk = disk }) same)
          (λ o' kept. Yields-any (Left s) (keep_file fs file) _ (λ _. kept)))
