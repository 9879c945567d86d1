-- ===== src/Boxoffice/SecondFile.antt =====
-- What becomes of the file of a local change.
use flocksy.Prelude.{
  ℕ, suc, ◌≡◌, ◌<◌, refl, true, false, ◌==◌, List, [], ◌∷◌, arith, if◌then◌else◌, All,
}
use flocksy.File.{File}
use flocksy.FlockFsm.Types.{state_eq, announcing_new_file_state}
use flocksy.FlockFsm.Statuses.{status_301}
use flocksy.FlockFsm.Codes.{get_event_by_status_code}
use flocksy.Boxoffice.Nodes.{clear_replied}
use flocksy.Boxoffice.Office.{Handling}
use flocksy.Boxoffice.LocalChanges.{holds_address, is_new_file, queue_file}

-- No address of the list has been given out twice: all are older than the next one.
abbrev pub Older : ℕ → List (ℕ × File) → Type 0
Older next = All (λ (entry : ℕ × File). entry.0 < next)

holds_address-Older :
    (next : ℕ) (files : List (ℕ × File)) → Older next files → holds_address next files ≡ false
unfolding holds_address
holds_address-Older next [] h = refl
holds_address-Older next ((a, file) ∷ files) (h, hs) =
    let differs : (a == next) ≡ false = ground arith in
    rw differs (holds_address-Older next files hs)

-- The queue that a change belongs to.
abbrev pub queue : {D : Type 0} → Handling D → List (ℕ × File)
queue h = if is_new_file h.event then h.office.file_list_data else h.office.file_list_metadata

-- While a node announces one new file, a further local change is lost: since std::find compares the
-- pointer of the File that was just made with those in the queue, which are older, it is never found,
-- so the file is not pushed, both queues stay as they are, and the status becomes 301 as if the file
-- had been reported twice. All nodes count as not replied again.
pub second_file-lost :
    {D : Type 0} (file : File) (h : Handling D)
    → h.office.state ≡ announcing_new_file_state
    → Older h.office.next_address (queue h)
    → queue_file file h ≡ record h {
      office = record h.office {
        next_address = suc h.office.next_address;
        subscribers = clear_replied h.office.subscribers;
      };
      status = status_301;
      event = get_event_by_status_code status_301;
    }
unfolding queue_file
second_file-lost file h here older =
    let found = holds_address-Older h.office.next_address (queue h) older in
    let announcing : state_eq h.office.state announcing_new_file_state ≡ true = rw here refl in
    rw announcing (rw found refl)
