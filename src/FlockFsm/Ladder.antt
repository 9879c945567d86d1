-- ===== src/FlockFsm/Ladder.antt =====
-- An if-chain over the event and the status, as the generated functions write it: a list of arms,
-- tried in their order, and the value of the last else.
pub mod Laws
use flocksy.Prelude.{List, [], ◌∷◌, ◌&&◌, if◌then◌else◌, ◌==◌}
use flocksy.FlockFsm.Types.{Event, Status, event_eq}

abbrev pub Row {ℓ} : Type ℓ → Type ℓ
Row A = Event × Status × A

-- `if ( event == e && status == s ) return a; else if …; else return fallback;`
unfoldable pub ladder {ℓ} : {A : Type ℓ} → List (Row A) → A → Event → Status → A
ladder [] fallback event status = fallback
ladder ((e, s, a) ∷ arms) fallback event status =
    if event_eq event e && status == s then a else ladder arms fallback event status
