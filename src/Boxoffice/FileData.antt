-- ===== src/Boxoffice/FileData.antt =====
-- The branch of processEvent for a chunk of a file.
use flocksy.Prelude.{Bool, not, Result, ok, ◌>>=◌, if◌then◌else◌, ◌==◌}
use flocksy.Constants.{f_generic_hash_len}
use flocksy.Bytes.{from_be, be64toh}
use flocksy.Stream.{Stream, read, seek_cur}
use flocksy.File.{empty_file, store_file_data}
use flocksy.File.Disk.{FileSystem}
use flocksy.File.Codec.{decode}
use flocksy.FlockFsm.Statuses.{status_113}
use flocksy.Boxoffice.Office.{Office, Handling, Flow, going, call, change_status, base_dir, the_box}

module _ (fs : FileSystem) where
  open fs use {Disk}

  -- The chunk is written to the file that `current_file_` describes; the Boolean is `more`.
  unfoldable pub store_chunk : Office Disk → Stream → Result (Bool × Stream × Office Disk)
  unfolding base_dir decode store_file_data seek_cur
  store_chunk o s = do
    box_hash ← the_box o.current_box
    dir ← base_dir box_hash o.boxes
    (file, current, disk) ← decode fs (empty_file dir box_hash) o.current_file o.disk
    (offset, s₁) ← read 8 (seek_cur f_generic_hash_len s)
    (data_size, s₂) ← read 8 s₁
    (more, s₃) ← read 1 s₂
    (contents, s₄) ← read (be64toh data_size) s₃
    disk' ← store_file_data fs file contents (be64toh data_size) (be64toh offset) disk
    ok (not (from_be 0 more == 0), s₄, record o { current_file = current; disk = disk' })

  unfoldable pub on_file_data : Handling Disk → Flow Disk
  unfolding store_chunk change_status
  on_file_data h = call (store_chunk h.office h.stream) (λ (more, s, o).
      let h' = record h { office = o; stream = s } in
      if more then going h' else change_status status_113 h')
