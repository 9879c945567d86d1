-- ===== src/FlockFsm/Ladder/Laws.antt =====
-- What holds of every if-chain: it commutes with a function of the result, and what every arm
-- satisfies holds of the answer, unless that is the value of the last else.
use flocksy.Prelude.{
  ◌≡◌, refl, ◌⊎◌, inl, inr, Bool, true, ◌&&◌, List, [], ◌∷◌, ◌==◌, ==_iff, Bool-cases, &&-true,
}
use flocksy.FlockFsm.Types.{Event, Status, event_eq}
use flocksy.FlockFsm.Events.{event_eq_iff}
use flocksy.FlockFsm.Ladder.{Row, ladder}

module _ {ℓ κ} {A : Type ℓ} {B : Type κ} (f : A → B) where
  abbrev pub map_rows : List (Row A) → List (Row B)
  map_rows [] = []
  map_rows ((e, s, a) ∷ arms) = (e, s, f a) ∷ map_rows arms

  pub ladder-map_rows :
      (arms : List (Row A)) (fallback : A) (event : Event) (status : Status)
      → ladder (map_rows arms) (f fallback) event status ≡ f (ladder arms fallback event status)
  unfolding ladder
  ladder-map_rows [] fallback event status = refl
  ladder-map_rows ((e, s, a) ∷ arms) fallback event status =
      elim (Bool-cases (event_eq event e && status == s)) [
        | inl hit ↦ rw hit refl
        | inr miss ↦ rw miss (ladder-map_rows arms fallback event status)
      ]

module _ {ℓ} {A : Type ℓ} (p : Event → Status → A → Bool) where
  abbrev pub all_rows : List (Row A) → Bool
  all_rows [] = true
  all_rows ((e, s, a) ∷ arms) = p e s a && all_rows arms

  pub ladder-all_rows :
      (arms : List (Row A)) (fallback : A) (event : Event) (status : Status)
      → all_rows arms ≡ true
      → (ladder arms fallback event status ≡ fallback)
        ⊎ (p event status (ladder arms fallback event status) ≡ true)
  unfolding ladder
  ladder-all_rows [] fallback event status h = inl refl
  ladder-all_rows ((e, s, a) ∷ arms) fallback event status h =
      elim (Bool-cases (event_eq event e && status == s)) [
        | inl hit ↦
            let (he, hs) = &&-true (event_eq event e) (status == s) hit in
            rw hit (
              inr (
                rw ((event_eq_iff event e).0 he, (==_iff status s).0 hs)
                  (&&-true (p e s a) (all_rows arms) h).0))
        | inr miss ↦
            rw miss
              (ladder-all_rows arms fallback event status (&&-true (p e s a) (all_rows arms) h).1)
      ]
