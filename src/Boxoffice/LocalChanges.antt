-- ===== src/Boxoffice/LocalChanges.antt =====
-- The branch of processEvent for a local change, which Box reports.
use flocksy.Prelude.{
  ℕ, suc, ◌&&◌, not, ◌/◌, ◌%◌, Bool, false, ◌||◌, List, [], ◌∷◌, ◌++◌, some, Result, ◌>>=◌,
  if◌then◌else◌, ◌==◌, ltb, length,
}
use flocksy.Constants.{f_generic_hash_len}
use flocksy.Stream.{read_int, read, read_word}
use flocksy.File.{File, existing_file, deleted_file_at}
use flocksy.File.Disk.{FileSystem}
use flocksy.FlockFsm.Types.{
  state_eq, Event, event_eq, announcing_new_file_state, new_local_file_event,
  new_local_file_with_more_event, local_file_metadata_change_event,
  local_file_metadata_change_with_more_event,
}
use flocksy.FlockFsm.Statuses.{status_301}
use flocksy.FlockFsm.Codes.{get_event_by_status_code}
use flocksy.Boxoffice.Nodes.{clear_replied}
use flocksy.Boxoffice.Office.{Office, Handling, Flow, going, returned, call, base_dir}

-- The bit IN_DELETE of an inotify mask.
abbrev pub is_delete : ℕ → Bool
is_delete mask = mask / 512 % 2 == 1

abbrev pub is_new_file : Event → Bool
is_new_file event =
    event_eq event new_local_file_event || event_eq event new_local_file_with_more_event

abbrev pub is_local : Event → Bool
is_local event =
    is_new_file event
    || event_eq event local_file_metadata_change_event
    || event_eq event local_file_metadata_change_with_more_event

-- `std::find` on pointers to files.
unfoldable pub holds_address : ℕ → List (ℕ × File) → Bool
holds_address address [] = false
holds_address address ((a, file) ∷ files) = a == address || holds_address address files

-- The rest of the branch, for the new File: `push_back`, unless the node announces one file already
-- and does not find this pointer in the queue.
unfoldable pub queue_file : {D : Type 0} → File → Handling D → Handling D
unfolding holds_address
queue_file file h =
    let o = h.office in
    let entry = (o.next_address, file) ∷ [] in
    let list = if is_new_file h.event then o.file_list_data else o.file_list_metadata in
    let cleared = record o {
      next_address = suc o.next_address;
      subscribers = clear_replied o.subscribers;
    } in
    let pushed =
      if is_new_file h.event
      then record cleared { file_list_data = list ++ entry }
      else record cleared { file_list_metadata = list ++ entry } in
    if state_eq o.state announcing_new_file_state && not (holds_address o.next_address list)
    then record h {
      office = cleared;
      status = status_301;
      event = get_event_by_status_code status_301;
    }
    else record h { office = pushed }

module _ (fs : FileSystem) where
  open fs use {Disk}

  -- The new File of a change.
  unfoldable pub changed_file : ℕ → List ℕ → List ℕ → Office Disk → Result File
  unfolding base_dir existing_file deleted_file_at
  changed_file mask hash path o = do
    dir ← base_dir hash o.boxes
    (if is_delete mask
        then deleted_file_at fs dir hash path
        else existing_file fs dir hash path o.disk)

  unfoldable pub on_local_change : Handling Disk → Flow Disk
  unfolding changed_file queue_file
  on_local_change h =
      let (mask, s) = read_int 0 h.stream in
      call (read f_generic_hash_len s) (λ (hash, s').
        let (path, s'') = read_word [] s' in
        let o = record h.office { current_box = some hash } in
        if ltb 128 (length path)
        then returned 1 o
        else call (changed_file mask hash path o)
            (λ file. going (queue_file file (record h { office = o; stream = s'' }))))
