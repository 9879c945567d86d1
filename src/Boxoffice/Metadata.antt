-- ===== src/Boxoffice/Metadata.antt =====
-- The cases of processEvent in which a receiver reads a file's metadata: 130, 170 and 174.
use flocksy.Prelude.{
  ℕ, true, false, ◌&&◌, ◌||◌, not, List, ◌∷◌, some, Result, ok, ◌>>=◌, if◌then◌else◌,
}
use flocksy.Constants.{f_generic_hash_len}
use flocksy.Stream.{Stream, open_stream, read, seek_cur}
use flocksy.Threads.Publisher.{substr}
use flocksy.File.{File, empty_file, store_metadata, resize, create}
use flocksy.File.Disk.{FileSystem}
use flocksy.File.Codec.{encode, decode}
use flocksy.FlockFsm.Types.{
  state_eq, promoting_new_file_metadata_state, receiving_file_metadata_change_state,
  receiving_file_metadata_change_with_more_state,
}
use flocksy.FlockFsm.Statuses.{status_130, status_173}
use flocksy.Boxoffice.Office.{
  Office, Handling, Flow, going, call, change_status, base_dir, to_dispatcher,
}
use flocksy.Boxoffice.Sending.{signal}

module _ (fs : FileSystem) where
  open fs use {Disk, exists}

  -- The hash of the box, and the file: what is left of the stream, and the disk behind operator>>.
  unfoldable pub receive_file : Office Disk → Stream → Result (List ℕ × File × Stream × Disk)
  unfolding base_dir decode seek_cur
  receive_file o s = do
    (hash, s₁) ← read f_generic_hash_len (seek_cur 1 s)
    dir ← base_dir hash o.boxes
    (file, s₂, disk) ← decode fs (empty_file dir hash) s₁ o.disk
    ok (hash, file, s₂, disk)

  -- `current_file_ << cf.str().substr(32)`, into an emptied stream.
  unfoldable pub keep_file : File → Result Stream
  unfolding encode substr
  keep_file file = do text ← encode file; kept ← substr 32 text; ok (open_stream kept)

  -- The metadata of 130 go to the disk, once.
  unfoldable pub write_promoted : File → Office Disk → Result (Office Disk)
  unfolding store_metadata resize
  write_promoted file o = if o.file_metadata_written then ok o else do
    disk ← store_metadata fs file o.disk
    disk' ← resize fs file disk
    ok (record o { disk = disk'; file_metadata_written = true })

  -- 130: the dispatcher is told the sender's offset, and the file is kept for its data.
  unfoldable pub promote : Office Disk → Stream → Result (Office Disk × Stream)
  unfolding receive_file keep_file write_promoted signal
  promote o s = do
    (hash, file, s₁, disk) ← receive_file o s
    o' ← write_promoted file (record o { disk = disk })
    kept ← keep_file file
    (offset, s₂) ← read 8 s₁
    ok (
      record o' {
        current_box = some hash;
        current_file = kept;
        notified_dispatch = true;
        sent = to_dispatcher (signal status_130 offset) ∷ o'.sent;
      },
      s₂,
    )

  unfoldable pub on_130 : Handling Disk → Flow Disk
  unfolding promote
  on_130 h =
      if state_eq h.office.state promoting_new_file_metadata_state && not h.office.notified_dispatch
      then call (promote h.office h.stream) (λ (o, s). going (record h { office = o; stream = s }))
      else going h

  -- The metadata of 170 and 174 go to the disk, once, if the file is not deleted.
  unfoldable pub write_received : File → Office Disk → Result (Office Disk)
  unfolding store_metadata resize create
  write_received file o = if file.deleted_file || o.file_metadata_written then ok o else do
    disk ← (if exists file.bpath o.disk then resize fs file o.disk else create fs file o.disk)
    disk' ← store_metadata fs file disk
    ok (record o { disk = disk'; file_metadata_written = true })

  unfoldable pub receive_last : Office Disk → Stream → Result (Office Disk × Stream)
  unfolding receive_file write_received
  receive_last o s = do
    (hash, file, s₁, disk) ← receive_file o s
    o' ← write_received file (record o { disk = disk })
    ok (record o' { file_metadata_written = false }, s₁)

  unfoldable pub on_170 : Handling Disk → Flow Disk
  unfolding receive_last change_status
  on_170 h =
      if state_eq h.office.state receiving_file_metadata_change_state
      then call (receive_last h.office h.stream)
          (λ (o, s). change_status status_173 (record h { office = o; stream = s }))
      else going h

  unfoldable pub receive_next : Office Disk → Stream → Result (Office Disk × Stream)
  unfolding receive_file write_received keep_file
  receive_next o s = do
    (hash, file, s₁, disk) ← receive_file o s
    o' ← write_received file (record o { disk = disk })
    kept ← keep_file file
    ok (record o' { current_box = some hash; current_file = kept; notified_dispatch = false }, s₁)

  unfoldable pub on_174 : Handling Disk → Flow Disk
  unfolding receive_next change_status
  on_174 h =
      if state_eq h.office.state receiving_file_metadata_change_with_more_state
      then call (receive_next h.office h.stream)
          (λ (o, s). change_status status_173 (record h { office = o; stream = s }))
      else going h
