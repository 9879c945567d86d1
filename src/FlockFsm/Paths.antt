-- ===== src/FlockFsm/Paths.antt =====
-- The state machine is one connected whole: status codes lead from every running state to every other.
use flocksy.Prelude.{◌≡◌, ◌≢◌, refl, ◌∙◌, ap, List, [], ◌∷◌, ◌++◌}
use flocksy.FlockFsm.Types.{
  State, Status, null_state, exit_state, ready_state, announcing_new_file_state,
  announcing_new_file_with_more_state, announcing_file_metadata_change_state,
  announcing_file_metadata_change_with_more_state, sending_new_file_metadata_state,
  sending_new_file_metadata_with_more_state, sending_file_metadata_change_state,
  sending_file_metadata_change_with_more_state, sending_new_file_state,
  sending_new_file_with_more_alpha_state, sending_new_file_with_more_beta_state,
  acknowledging_new_file_state, acknowledging_new_file_with_more_state,
  acknowledging_file_metadata_change_state, acknowledging_file_metadata_change_with_more_state,
  promoting_new_file_metadata_state, promoting_new_file_metadata_with_more_state,
  receiving_file_metadata_change_state, receiving_file_metadata_change_with_more_state,
  sending_fake_file_state, sending_fake_file_with_more_alpha_state,
  sending_fake_file_with_more_beta_state, broadcasting_all_received_state,
  broadcasting_all_received_with_more_alpha_state, broadcasting_all_received_with_more_beta_state,
  broadcasting_all_metadata_received_state, syncing_stop_state,
}
use flocksy.FlockFsm.Statuses.{
  status_113, status_116, status_120, status_122, status_124, status_126, status_130, status_132,
  status_134, status_136, status_142, status_146, status_150, status_155, status_156, status_160,
  status_162, status_164, status_166, status_170, status_172, status_173, status_174, status_177,
  status_300, status_304, status_320, status_324, status_410, status_500,
}
use flocksy.FlockFsm.Codes.{get_event_by_status_code}
use flocksy.FlockFsm.CheckEvent.{check_event}
use flocksy.FlockFsm.GetNewState.{get_new_state}
use flocksy.FlockFsm.Step.{step, run}

-- Status codes that lead from ready to a state, and from a state back to ready.
abbrev way_to : State → List Status
way_to null_state = []
way_to ready_state = []
way_to announcing_new_file_state = status_300 ∷ []
way_to announcing_new_file_with_more_state = status_304 ∷ []
way_to announcing_file_metadata_change_state = status_320 ∷ []
way_to announcing_file_metadata_change_with_more_state = status_324 ∷ []
way_to sending_new_file_metadata_state = status_300 ∷ status_122 ∷ []
way_to sending_new_file_metadata_with_more_state = status_304 ∷ status_126 ∷ []
way_to sending_file_metadata_change_state = status_320 ∷ status_162 ∷ []
way_to sending_file_metadata_change_with_more_state = status_324 ∷ status_166 ∷ []
way_to sending_new_file_state = status_300 ∷ status_122 ∷ status_132 ∷ []
way_to sending_new_file_with_more_alpha_state = status_304 ∷ status_126 ∷ status_132 ∷ []
way_to sending_new_file_with_more_beta_state =
    status_304 ∷ status_126 ∷ status_132 ∷ status_146 ∷ []
way_to acknowledging_new_file_state = status_120 ∷ []
way_to acknowledging_new_file_with_more_state = status_124 ∷ []
way_to acknowledging_file_metadata_change_state = status_160 ∷ []
way_to acknowledging_file_metadata_change_with_more_state = status_164 ∷ []
way_to promoting_new_file_metadata_state = status_120 ∷ status_130 ∷ []
way_to promoting_new_file_metadata_with_more_state = status_124 ∷ status_134 ∷ []
way_to receiving_file_metadata_change_state = status_160 ∷ status_170 ∷ []
way_to receiving_file_metadata_change_with_more_state = status_164 ∷ status_174 ∷ []
way_to sending_fake_file_state = status_120 ∷ status_130 ∷ status_132 ∷ []
way_to sending_fake_file_with_more_alpha_state = status_124 ∷ status_134 ∷ status_136 ∷ []
way_to sending_fake_file_with_more_beta_state =
    status_124 ∷ status_134 ∷ status_136 ∷ status_113 ∷ status_116 ∷ []
way_to broadcasting_all_received_state = status_120 ∷ status_130 ∷ status_132 ∷ status_113 ∷ []
way_to broadcasting_all_received_with_more_alpha_state =
    status_124 ∷ status_134 ∷ status_136 ∷ status_113 ∷ []
way_to broadcasting_all_received_with_more_beta_state =
    status_124 ∷ status_134 ∷ status_136 ∷ status_113 ∷ status_116 ∷ status_113 ∷ []
way_to broadcasting_all_metadata_received_state = status_160 ∷ status_170 ∷ status_173 ∷ []
way_to syncing_stop_state = status_300 ∷ status_122 ∷ status_132 ∷ status_142 ∷ []
way_to exit_state = status_500 ∷ []

abbrev way_home : State → List Status
way_home null_state = []
way_home exit_state = []
way_home ready_state = []
way_home announcing_new_file_state = status_122 ∷ status_132 ∷ status_410 ∷ []
way_home announcing_new_file_with_more_state = status_126 ∷ status_132 ∷ status_410 ∷ []
way_home announcing_file_metadata_change_state = status_162 ∷ status_172 ∷ []
way_home announcing_file_metadata_change_with_more_state =
    status_166 ∷ status_177 ∷ status_132 ∷ status_410 ∷ []
way_home sending_new_file_metadata_state = status_132 ∷ status_410 ∷ []
way_home sending_new_file_metadata_with_more_state = status_132 ∷ status_410 ∷ []
way_home sending_file_metadata_change_state = status_172 ∷ []
way_home sending_file_metadata_change_with_more_state = status_177 ∷ status_132 ∷ status_410 ∷ []
way_home sending_new_file_state = status_410 ∷ []
way_home sending_new_file_with_more_alpha_state = status_410 ∷ []
way_home sending_new_file_with_more_beta_state = status_410 ∷ []
way_home acknowledging_new_file_state = status_130 ∷ status_132 ∷ status_410 ∷ []
way_home acknowledging_new_file_with_more_state = status_134 ∷ status_136 ∷ status_410 ∷ []
way_home acknowledging_file_metadata_change_state = status_170 ∷ status_173 ∷ status_150 ∷ []
way_home acknowledging_file_metadata_change_with_more_state =
    status_174 ∷ status_173 ∷ status_150 ∷ []
way_home promoting_new_file_metadata_state = status_132 ∷ status_410 ∷ []
way_home promoting_new_file_metadata_with_more_state = status_136 ∷ status_410 ∷ []
way_home receiving_file_metadata_change_state = status_173 ∷ status_150 ∷ []
way_home receiving_file_metadata_change_with_more_state = status_173 ∷ status_150 ∷ []
way_home sending_fake_file_state = status_410 ∷ []
way_home sending_fake_file_with_more_alpha_state = status_410 ∷ []
way_home sending_fake_file_with_more_beta_state = status_410 ∷ []
way_home broadcasting_all_received_state = status_155 ∷ status_156 ∷ []
way_home broadcasting_all_received_with_more_alpha_state = status_150 ∷ status_410 ∷ []
way_home broadcasting_all_received_with_more_beta_state = status_150 ∷ status_410 ∷ []
way_home broadcasting_all_metadata_received_state = status_150 ∷ []
way_home syncing_stop_state = status_156 ∷ []

run-way_to : (s : State) → s ≢ null_state → run ready_state (way_to s) ≡ s
unfolding run step get_event_by_status_code check_event get_new_state
run-way_to null_state h = absurd (h refl)
run-way_to _ h = refl

run-way_home : (s : State) → s ≢ null_state → s ≢ exit_state → run s (way_home s) ≡ ready_state
unfolding run step get_event_by_status_code check_event get_new_state
run-way_home null_state h k = absurd (h refl)
run-way_home exit_state h k = absurd (k refl)
run-way_home _ h k = refl

run-append : (s : State) (xs ys : List Status) → run s (xs ++ ys) ≡ run (run s xs) ys
unfolding run
run-append s [] ys = refl
run-append s (x ∷ xs) ys = run-append (step s x) xs ys

-- From every state but NULL and exit, some list of status codes leads the machine to every state
-- but NULL: no running state is a dead end, and no state is unreachable.
pub run-connected :
    (s t : State)
    → s ≢ null_state
    → s ≢ exit_state
    → t ≢ null_state
    → (sts : List Status) × (run s sts ≡ t)
run-connected s t hs ks ht = (
  way_home s ++ way_to t,
  run-append s (way_home s) (way_to t)
      ∙ ap (λ u. run u (way_to t)) (run-way_home s hs ks)
      ∙ run-way_to t ht,
)
