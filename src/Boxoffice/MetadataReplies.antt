-- ===== src/Boxoffice/MetadataReplies.antt =====
-- The last reply to a metadata change, in the case of status 141.
use flocksy.Prelude.{
  ◌+◌, ◌≡◌, ◌⊎◌, ◌<◌, refl, inl, inr, Bool, true, false, Bool-cases, ltb, length, arith,
}
use flocksy.FlockFsm.Types.{
  State, Status, sending_file_metadata_change_state, sending_file_metadata_change_with_more_state,
}
use flocksy.FlockFsm.Statuses.{status_172, status_174, status_177, status_178}
use flocksy.FlockFsm.Codes.{get_event_by_status_code}
use flocksy.FlockFsm.CheckEvent.{check_event}
use flocksy.Boxoffice.Nodes.{mark_replied, clear_replied, all_replied}
use flocksy.Boxoffice.Office.{Office, Handling, returned, change_status}
use flocksy.Boxoffice.Replies.{collect, remaining, on_141}

-- Does the state s accept the status code?
abbrev accepted : State → Status → Bool
accepted s status = check_event s (get_event_by_status_code status) status

-- All nodes have replied, the sender of this reply included.
abbrev pub IsLastReply : {D : Type 0} → Handling D → Type 0
IsLastReply h = all_replied (mark_replied h.office.current_node_hash h.office.subscribers) ≡ true

-- The office after the last reply.
abbrev pub replied : {D : Type 0} → Handling D → Office D
replied h = record h.office {
  subscribers = clear_replied (mark_replied h.office.current_node_hash h.office.subscribers);
}

module _ {D : Type 0} (h : Handling D) (last : IsLastReply h) where
  refused :
      (status : Status)
      → remaining h.office ≡ status
      → accepted h.office.state status ≡ false
      → on_141 h ≡ returned 1 (replied h)
  unfolding on_141 collect change_status remaining
  refused status e no' = rw last (rw e (rw no' refl))

  -- After the last reply to one metadata change, the router stops if another file is in a queue by
  -- then: the next status is one that the state does not accept, and processEvent returns 1.
  pub one_change-stops :
      h.office.state ≡ sending_file_metadata_change_state
      → 0 < length h.office.file_list_metadata + length h.office.file_list_data
      → on_141 h ≡ returned 1 (replied h)
  unfolding remaining check_event get_event_by_status_code
  one_change-stops here more =
      let metadata = h.office.file_list_metadata in
      let files = h.office.file_list_data in
      elim (Bool-cases (ltb 0 (length metadata))) [
        | inl m ↦ refused status_174 (rw m refl) (rw here refl)
        | inr no_m ↦ elim (Bool-cases (ltb 1 (length files))) [
          | inl d ↦ refused status_178 (rw no_m (rw d refl)) (rw here refl)
          | inr no_d ↦
              let one : ltb 0 (length files) ≡ true = ground arith in
              refused status_177 (rw no_m (rw no_d (rw one refl))) (rw here refl)
        ]
      ]

  -- After the last reply to one of several changes, the router stops if there is another metadata
  -- change in the queue, and if there is nothing in the queues: it goes on only if all that is left is
  -- new files.
  pub several_changes-stop :
      h.office.state ≡ sending_file_metadata_change_with_more_state
      → (0 < length h.office.file_list_metadata) ⊎ (length h.office.file_list_data ≡ 0)
      → on_141 h ≡ returned 1 (replied h)
  unfolding remaining check_event get_event_by_status_code
  several_changes-stop here (inl more) =
      let m : ltb 0 (length h.office.file_list_metadata) ≡ true = ground arith in
      refused status_174 (rw m refl) (rw here refl)
  several_changes-stop here (inr none_left) =
      elim (Bool-cases (ltb 0 (length h.office.file_list_metadata))) [
        | inl m ↦ refused status_174 (rw m refl) (rw here refl)
        | inr no_m ↦ refused status_172 (rw no_m (rw none_left refl)) (rw here refl)
      ]
