-- ===== src/Boxoffice/Yields.antt =====
-- What a call or a part of processEvent yields when it does not fail.
use flocksy.Prelude.{
  ◌≡◌, refl, Bool, true, false, Result, ok, fault, ◌>>=◌, Bool-cases, inl, inr, if◌then◌else◌,
}
use flocksy.FlockFsm.Types.{State, Status}
use flocksy.FlockFsm.Codes.{get_event_by_status_code}
use flocksy.FlockFsm.CheckEvent.{check_event}
use flocksy.Boxoffice.Office.{
  Handling, Flow, going, returned, failed, and_then, call, change_status,
}

unfoldable pub Yields : {A : Type 0} → (A → Type 0) → Result A → Type 0
Yields P (ok a) = P a
Yields P (fault x) = Unit {0}

pub Yields-any :
    {A B : Type 0} (Q : B → Type 0) (m : Result A) (f : A → Result B)
    → ((a : A) → Yields Q (f a))
    → Yields Q (m >>= f)
unfolding Yields
Yields-any Q (ok a) f k = k a
Yields-any Q (fault x) f k = tt

pub Yields-bind :
    {A B : Type 0} (P : A → Type 0) (Q : B → Type 0) (m : Result A) (f : A → Result B)
    → Yields P m
    → ((a : A) → P a → Yields Q (f a))
    → Yields Q (m >>= f)
unfolding Yields
Yields-bind P Q (ok a) f p k = k a p
Yields-bind P Q (fault x) f p k = tt

pub Yields-if :
    {A : Type 0} (P : A → Type 0) (b : Bool) (m k : Result A)
    → Yields P m
    → Yields P k
    → Yields P (if b then m else k)
unfolding Yields
Yields-if P true m k p q = p
Yields-if P false m k p q = q

-- The event is that of the status code, the state accepts it, and it is the state from before.
abbrev pub Accepted : {D : Type 0} → State → Handling D → Type 0
Accepted s h =
    (h.office.state ≡ s)
    × (h.event ≡ get_event_by_status_code h.status)
    × (check_event s (get_event_by_status_code h.status) h.status ≡ true)

unfoldable pub Keeps : {D : Type 0} → State → Flow D → Type 0
Keeps s (going h) = Accepted s h
Keeps s (returned n o) = o.state ≡ s
Keeps s (failed x) = Unit {0}

pub Keeps-then :
    {D : Type 0} (s : State) (m : Flow D) (k : Handling D → Flow D)
    → Keeps s m
    → ((h : Handling D) → Accepted s h → Keeps s (k h))
    → Keeps s (and_then m k)
unfolding Keeps
Keeps-then s (going h) f p k = k h p
Keeps-then s (returned n o) f p k = p
Keeps-then s (failed x) f p k = tt

pub Keeps-call :
    {A D : Type 0} (s : State) (P : A → Type 0) (m : Result A) (k : A → Flow D)
    → Yields P m
    → ((a : A) → P a → Keeps s (k a))
    → Keeps s (call m k)
unfolding Yields Keeps
Keeps-call s P (ok a) f p k = k a p
Keeps-call s P (fault x) f p k = tt

pub Keeps-if :
    {D : Type 0} (s : State) (b : Bool) (m k : Flow D)
    → Keeps s m
    → Keeps s k
    → Keeps s (if b then m else k)
unfolding Keeps
Keeps-if s true m k p q = p
Keeps-if s false m k p q = q

pub Keeps-change_status :
    {D : Type 0} (s : State) (status : Status) (h : Handling D)
    → h.office.state ≡ s
    → Keeps s (change_status status h)
unfolding change_status Keeps
Keeps-change_status s status h e =
    elim (Bool-cases (check_event h.office.state (get_event_by_status_code status) status)) [
      | inl yes' ↦ rw yes' (e, refl, rw (← e) yes')
      | inr no' ↦ rw no' e
    ]

pub Keeps-any :
    {A D : Type 0} (s : State) (m : Result A) (k : A → Flow D)
    → ((a : A) → Keeps s (k a))
    → Keeps s (call m k)
unfolding Keeps
Keeps-any s (ok a) f k = k a
Keeps-any s (fault x) f k = tt
