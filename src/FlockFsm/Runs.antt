-- ===== src/FlockFsm/Runs.antt =====
-- What holds after every run of the state machine: the interrupt, nodes without a local change, and
-- two states that wait for status codes which flocksy does not send.
use flocksy.Prelude.{
  ◌≡◌, ◌≢◌, refl, ap, ◌∙◌, inl, inr, true, false, not, Bool, List, [], ◌∷◌, ◌++◌, All, ◌==◌, ◌||◌,
}
use flocksy.FlockFsm.Types.{
  State, Event, Status, null_state, ready_state, exit_state,
  promoting_new_file_metadata_with_more_state, announcing_new_file_with_more_state,
}
use flocksy.FlockFsm.Statuses.{
  status_126, status_136, status_300, status_304, status_320, status_324, status_500,
}
use flocksy.FlockFsm.Ladder.Laws.{all_rows}
use flocksy.FlockFsm.Codes.{get_event_by_status_code}
use flocksy.FlockFsm.CheckEvent.{check_event}
use flocksy.FlockFsm.GetNewState.{get_new_state, new_state_arms}
use flocksy.FlockFsm.Step.{step, run, Role, role, announcer, offerer, sender}
use flocksy.FlockFsm.Step.Rule.{step_cases, run_invariant}

-- A test of states by one state.
module _ (u : State) (is_u : State → Bool) (read : (t : State) → is_u t ≡ true → t ≡ u) where
  -- If every arm at `u` leads to `u` or has a status code that `leaves`, other codes keep `u`.
  step_stays :
      (leaves : Status → Bool)
      → all_rows (λ e st t. leaves st || is_u t) (new_state_arms u) ≡ true
      → (st : Status) → leaves st ≡ false
      → step u st ≡ u
  step_stays leaves rows st h = elim (step_cases (λ e st t. leaves st || is_u t) u st rows) [
    | inl same ↦ same
    | inr moved ↦ read (step u st) (rw h at moved)
  ]

  run_stays :
      (leaves : Status → Bool)
      → all_rows (λ e st t. leaves st || is_u t) (new_state_arms u) ≡ true
      → (sts : List Status) → All (λ st. leaves st ≡ false) sts
      → run u sts ≡ u
  unfolding run
  run_stays leaves rows [] h = refl
  run_stays leaves rows (st ∷ sts) (h, hs) =
      rw (step_stays leaves rows st h) (run_stays leaves rows sts hs)

-- The interrupt.

abbrev is_exit : State → Bool
is_exit exit_state = true
is_exit _ = false

exit_of : (t : State) → is_exit t ≡ true → t ≡ exit_state
exit_of exit_state h = refl
exit_of _ h = cc

run-exit : (sts : List Status) → run exit_state sts ≡ exit_state
unfolding new_state_arms
run-exit sts = run_stays exit_state is_exit exit_of (λ st. false) refl sts (always sts)
  where
    always : (sts : List Status) → All (λ st. ◌≡◌ {A = Bool} false false) sts
    always [] = tt
    always (st ∷ sts) = (refl, always sts)

step-interrupt : (s : State) → s ≢ null_state → step s status_500 ≡ exit_state
unfolding step get_event_by_status_code check_event get_new_state
step-interrupt null_state h = absurd (h refl)
step-interrupt _ h = refl

abbrev is_null : State → Bool
is_null null_state = true
is_null _ = false

new_state_arms-ne-null :
    (s : State) → all_rows (λ e st t. not (is_null t)) (new_state_arms s) ≡ true
unfolding new_state_arms
new_state_arms-ne-null null_state = refl
new_state_arms-ne-null _ = refl

step-ne-null : (s : State) (st : Status) → s ≢ null_state → step s st ≢ null_state
step-ne-null s st h = elim (step_cases _ s st (new_state_arms-ne-null s)) [
  | inl same ↦ rw same h
  | inr moved ↦ λ p. cc (ap is_null p)
]

-- From every state but NULL, a run that contains the interrupt (500) ends in exit, whatever status
-- codes come before the interrupt and after it.
pub run-interrupt :
    (s : State) (before after : List Status)
    → s ≢ null_state
    → run s (before ++ status_500 ∷ after) ≡ exit_state
unfolding run
run-interrupt s [] after h = ap (λ u. run u after) (step-interrupt s h) ∙ run-exit after
run-interrupt s (st ∷ before) after h = run-interrupt (step s st) before after (step-ne-null s st h)

-- Nodes that hear of no local change.

abbrev pub is_local : Status → Bool
is_local st = st == status_300 || st == status_304 || st == status_320 || st == status_324

abbrev is_passive : Role → Bool
is_passive announcer = false
is_passive offerer = false
is_passive sender = false
is_passive _ = true

passive_fits : State → Event → Status → State → Bool
passive_fits s e st t = not (is_passive (role s)) || is_local st || is_passive (role t)

new_state_arms-passive : (s : State) → all_rows (passive_fits s) (new_state_arms s) ≡ true
unfolding new_state_arms passive_fits
new_state_arms-passive null_state = refl
new_state_arms-passive _ = refl

step-passive :
    (s : State) (st : Status)
    → is_local st ≡ false
    → is_passive (role s) ≡ true
    → is_passive (role (step s st)) ≡ true
unfolding passive_fits
step-passive s st quiet h = elim (step_cases (passive_fits s) s st (new_state_arms-passive s)) [
  | inl same ↦ rw same h
  | inr moved ↦ rw (h, quiet) at moved
]

-- A node that starts ready and hears of no local change (300, 304, 320, 324) never announces,
-- offers or sends a file, whatever the other nodes send.
pub run-quiet :
    (sts : List Status)
    → All (λ st. is_local st ≡ false) sts
    → (role (run ready_state sts) ≢ announcer)
      × (role (run ready_state sts) ≢ offerer)
      × (role (run ready_state sts) ≢ sender)
run-quiet sts quiet = (
  λ p. cc (passive, ap is_passive p),
  λ p. cc (passive, ap is_passive p),
  λ p. cc (passive, ap is_passive p),
)
  where
    passive : is_passive (role (run ready_state sts)) ≡ true
    passive =
        run_invariant (λ s. is_passive (role s) ≡ true) (λ st. is_local st ≡ false)
          (λ s st q h. step-passive s st q h) ready_state sts quiet refl

-- Two states that wait.

abbrev is_promoting : State → Bool
is_promoting promoting_new_file_metadata_with_more_state = true
is_promoting _ = false

promoting_of : (t : State) → is_promoting t ≡ true → t ≡ promoting_new_file_metadata_with_more_state
promoting_of promoting_new_file_metadata_with_more_state h = refl
promoting_of _ h = cc

-- The receiver of several files, once it promotes their metadata, stays in that state for good
-- unless it hears 136 or the interrupt. In particular 132, the code for an elapsed offset that the
-- dispatcher sends, does not move it.
pub run-promoting_with_more :
    (sts : List Status)
    → All (λ st. (st == status_136 || st == status_500) ≡ false) sts
    → run promoting_new_file_metadata_with_more_state sts
      ≡ promoting_new_file_metadata_with_more_state
unfolding new_state_arms
run-promoting_with_more =
    run_stays promoting_new_file_metadata_with_more_state is_promoting promoting_of
      (λ st. st == status_136 || st == status_500) refl

abbrev is_announcing : State → Bool
is_announcing announcing_new_file_with_more_state = true
is_announcing _ = false

announcing_of : (t : State) → is_announcing t ≡ true → t ≡ announcing_new_file_with_more_state
announcing_of announcing_new_file_with_more_state h = refl
announcing_of _ h = cc

-- A node that announces several new files stays in that state unless it hears 126, a local change
-- of metadata (320, 324) or the interrupt.
pub run-announcing_with_more :
    (sts : List Status)
    → All
        (λ st.
          (st == status_126 || st == status_320 || st == status_324 || st == status_500) ≡ false)
        sts
    → run announcing_new_file_with_more_state sts ≡ announcing_new_file_with_more_state
unfolding new_state_arms
run-announcing_with_more =
    run_stays announcing_new_file_with_more_state is_announcing announcing_of
      (λ st. st == status_126 || st == status_320 || st == status_324 || st == status_500) refl
