-- ===== src/Boxoffice/Replies.antt =====
-- The cases of processEvent that wait until all nodes have replied.
use flocksy.Prelude.{false, if◌then◌else◌, ltb, length}
use flocksy.FlockFsm.Types.{Status}
use flocksy.FlockFsm.Statuses.{
  status_122, status_142, status_162, status_166, status_172, status_174, status_177, status_178,
}
use flocksy.Boxoffice.Nodes.{mark_replied, all_replied, clear_replied}
use flocksy.Boxoffice.Office.{Office, Handling, Flow, going, change_status}

module _ {D : Type 0} where
  -- The sender is marked; if it was the last, all marks are cleared and the status changes to `next`.
  unfoldable pub collect : (Office D → Office D) → (Office D → Status) → Handling D → Flow D
  unfolding change_status
  collect reset next h =
      let o = h.office in
      let marked = mark_replied o.current_node_hash o.subscribers in
      let done = reset (record o { subscribers = clear_replied marked }) in
      if all_replied marked
      then change_status (next done) (record h { office = done })
      else going (record h { office = record o { subscribers = marked } })

  unfoldable pub on_121 : Handling D → Flow D
  unfolding collect
  on_121 = collect (λ o. record o { file_metadata_written = false }) (λ _. status_122)

  unfoldable pub on_161 : Handling D → Flow D
  unfolding collect
  on_161 = collect (λ o. o) (λ _. status_162)

  unfoldable pub on_165 : Handling D → Flow D
  unfolding collect
  on_165 = collect (λ o. o) (λ _. status_166)

  unfoldable pub on_140 : Handling D → Flow D
  unfolding collect
  on_140 = collect (λ o. o) (λ _. status_142)

  -- What is left to be sent after the metadata of one file.
  unfoldable pub remaining : Office D → Status
  remaining o =
      if ltb 0 (length o.file_list_metadata)
      then status_174
      else if ltb 1 (length o.file_list_data)
      then status_178
      else if ltb 0 (length o.file_list_data)
      then status_177
      else status_172

  unfoldable pub on_141 : Handling D → Flow D
  unfolding collect remaining
  on_141 = collect (λ o. o) remaining
