-- ===== src/FlockFsm/Step/Rule.antt =====
-- The rule by which facts about steps are proved: what every arm of get_new_state satisfies holds of
-- a step that changes the state.
use flocksy.Prelude.{◌≡◌, refl, ◌⊎◌, inl, inr, true, Bool, Bool-cases, List, [], ◌∷◌, All}
use flocksy.FlockFsm.Types.{State, Event, Status, null_state}
use flocksy.FlockFsm.Ladder.Laws.{all_rows, ladder-all_rows}
use flocksy.FlockFsm.Codes.{get_event_by_status_code}
use flocksy.FlockFsm.CheckEvent.{check_event}
use flocksy.FlockFsm.GetNewState.{get_new_state, new_state_arms}
use flocksy.FlockFsm.Agreement.{check_event_iff}
use flocksy.FlockFsm.Step.{accepts, step, run}

get_new_state-all :
    (p : Event → Status → State → Bool) (s : State) (e : Event) (st : Status)
    → all_rows p (new_state_arms s) ≡ true
    → check_event s e st ≡ true
    → p e st (get_new_state s e st) ≡ true
unfolding get_new_state
get_new_state-all p s e st h c = elim (ladder-all_rows p (new_state_arms s) null_state e st h) [
  | inl miss ↦ absurd ((check_event_iff s e st).2.0 c miss)
  | inr hit ↦ hit
]

-- A step leaves the state, or goes by an arm; so by a test of all arms it leaves the state or passes.
pub step_cases :
    (p : Event → Status → State → Bool) (s : State) (st : Status)
    → all_rows p (new_state_arms s) ≡ true
    → (step s st ≡ s) ⊎ (p (get_event_by_status_code st) st (step s st) ≡ true)
unfolding step
step_cases p s st h = elim (Bool-cases (accepts s st)) [
  | inl yes' ↦ rw yes' (inr (get_new_state-all p s _ st h yes'))
  | inr no' ↦ rw no' (inl refl)
]

-- An invariant of all steps holds after every run.
pub run_invariant {ℓ} :
    (P : State → Type ℓ) (Q : Status → Type ℓ)
    → ((s : State) (st : Status) → Q st → P s → P (step s st))
    → (s : State) (sts : List Status) → All Q sts
    → P s
    → P (run s sts)
unfolding run
run_invariant P Q keep s [] q h = h
run_invariant P Q keep s (st ∷ sts) (q, qs) h =
    run_invariant P Q keep (step s st) sts qs (keep s st q h)
