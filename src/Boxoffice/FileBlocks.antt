-- ===== src/Boxoffice/FileBlocks.antt =====
-- The blocks of processEvent behind the one for heartbeats leave the state, and a status code that the
-- state accepts.
use flocksy.Prelude.{
  ◌≡◌, refl, ◌&&◌, not, Bool, true, false, [], if◌then◌else◌, Bool-cases, inl, inr, ltb, length,
  some,
}
use flocksy.Constants.{f_generic_hash_len}
use flocksy.Stream.{Stream, read, read_int, read_word, seek_beg, seek_cur}
use flocksy.Threads.Publisher.{substr}
use flocksy.Bytes.{be64toh}
use flocksy.File.{File, empty_file, store_file_data}
use flocksy.File.Disk.{FileSystem}
use flocksy.File.Codec.{encode, decode}
use flocksy.FlockFsm.Types.{State, Status, state_eq, announcing_new_file_state}
use flocksy.FlockFsm.Statuses.{status_113, status_301}
use flocksy.FlockFsm.Codes.{get_event_by_status_code}
use flocksy.FlockFsm.CheckEvent.{check_event}
use flocksy.Boxoffice.Office.{Office, Readings, Handling, base_dir, the_box}
use flocksy.Boxoffice.Sending.{front}
use flocksy.Boxoffice.LocalChanges.{
  is_new_file, holds_address, queue_file, changed_file, on_local_change,
}
use flocksy.Boxoffice.Events.{schedule, on_scheduled}
use flocksy.Boxoffice.FileData.{store_chunk, on_file_data}
use flocksy.Boxoffice.Yields.{
  Keeps, Accepted, Yields, Yields-any, Keeps-call, Keeps-any, Keeps-if, Keeps-change_status,
}
use flocksy.Boxoffice.Kept.{InState, Left}

module _ (fs : FileSystem) (s : State) where
  open fs use {Disk}

  chunk_kept :
      (o : Office Disk) (stream : Stream)
      → InState s o
      → Yields (λ r. InState s r.2) (store_chunk fs o stream)
  unfolding store_chunk Yields
  chunk_kept o stream same =
      let P : Bool × Stream × Office Disk → Type 0 = λ r. InState s r.2 in
      Yields-any P (the_box o.current_box) _ (λ box_hash.
        Yields-any P (base_dir box_hash o.boxes) _ (λ dir.
          Yields-any P (decode fs (empty_file dir box_hash) o.current_file o.disk) _
            (λ (file, current, disk).
              Yields-any P (read 8 (seek_cur f_generic_hash_len stream)) _ (λ (offset, s₁).
                Yields-any P (read 8 s₁) _ (λ (data_size, s₂).
                  Yields-any P (read 1 s₂) _ (λ (more, s₃).
                    Yields-any P (read (be64toh data_size) s₃) _ (λ (contents, s₄).
                      Yields-any P
                        (store_file_data fs file contents (be64toh data_size) (be64toh offset) disk)
                        _ (λ _. same))))))))

  pub on_file_data-Keeps : (h : Handling Disk) → Accepted s h → Keeps s (on_file_data fs h)
  unfolding on_file_data Keeps
  on_file_data-Keeps h a =
      Keeps-call s (λ r. InState s r.2) (store_chunk fs h.office h.stream) _
        (chunk_kept h.office h.stream a.0)
        (λ (more, stream, o) kept.
          Keeps-if s more _ _ (kept, a.1, a.2)
            (Keeps-change_status s status_113 (record h { office = o; stream = stream }) kept))

-- The status 301 that a second file gets is accepted where it is given.
second_file-accepted :
    (s : State)
    → state_eq s announcing_new_file_state ≡ true
    → check_event s (get_event_by_status_code status_301) status_301 ≡ true
unfolding get_event_by_status_code check_event
second_file-accepted announcing_new_file_state h = refl
second_file-accepted _ h = cc

and_left : (b c : Bool) → b && c ≡ true → b ≡ true
and_left true c h = refl
and_left false c h = h

queue_file-Accepted :
    {D : Type 0} (s : State) (file : File) (h : Handling D)
    → Accepted s h
    → Accepted s (queue_file file h)
unfolding queue_file
queue_file-Accepted s file h a =
    let o = h.office in
    let list = if is_new_file h.event then o.file_list_data else o.file_list_metadata in
    elim (Bool-cases
      (state_eq o.state announcing_new_file_state && not (holds_address o.next_address list))) [
        | inl dropped ↦
            rw dropped (a.0, refl, second_file-accepted s (rw (← a.0) (and_left _ _ dropped)))
        | inr queued ↦
            rw queued
              (elim (Bool-cases (is_new_file h.event)) [ inl new ↦ rw new a | inr old ↦ rw old a ])
      ]

pub on_local_change-Keeps :
    (fs : FileSystem) (s : State) (h : Handling fs.Disk)
    → Accepted s h
    → Keeps s (on_local_change fs h)
unfolding on_local_change Keeps
on_local_change-Keeps fs s h a =
    let (mask, stream) = read_int 0 h.stream in
    Keeps-any s (read f_generic_hash_len stream) _ (λ (hash, s').
      let (path, s'') = read_word [] s' in
      let o = record h.office { current_box = some hash } in
      Keeps-if s (ltb 128 (length path)) _ _ a.0 (
        Keeps-any s (changed_file fs mask hash path o) _
          (λ file. queue_file-Accepted s file (record h { office = o; stream = s'' }) a)))

schedule-state :
    {D : Type 0} (readings : Readings) (s : State) (status : Status) (o : Office D)
    (stream : Stream)
    → InState s o
    → Yields (Left s) (schedule readings status o stream)
unfolding schedule Yields
schedule-state {D = D} readings s status o stream same =
    let P : Office D × Stream → Type 0 = Left s in
    Yields-any P (read f_generic_hash_len (seek_beg 5 stream)) _ (λ (hash, s').
      Yields-any P (the_box o.current_box) _ (λ box_hash.
        Yields-any P (base_dir box_hash o.boxes) _ (λ dir.
          Yields-any P (front o.file_list_data) _ (λ (file, files).
            Yields-any P (encode file) _ (λ text. Yields-any P (substr 32 text) _ (λ _. same))))))

pub on_scheduled-Keeps :
    {D : Type 0} (readings : Readings) (s : State) (h : Handling D)
    → Accepted s h
    → Keeps s (on_scheduled readings h)
unfolding on_scheduled Keeps
on_scheduled-Keeps readings s h a =
    Keeps-call s (Left s) (schedule readings h.status h.office h.stream) _
      (schedule-state readings s h.status h.office h.stream a.0) (λ _ kept. (kept, a.1, a.2))
