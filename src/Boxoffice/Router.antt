-- ===== src/Boxoffice/Router.antt =====
-- The loop of Boxoffice::runRouter.
use flocksy.Prelude.{ℕ, zero, suc, ◌≡◌, List, [], ◌∷◌, Fault, undefined, ◌&&◌, ◌==◌, if◌then◌else◌}
use flocksy.Constants.{f_sigtype_life, f_siglife_interrupt}
use flocksy.File.Disk.{FileSystem}
use flocksy.FlockFsm.Step.{role}
use flocksy.FlockFsm.Roles.{◌⟶◌}
use flocksy.Boxoffice.Clock.{read_signal}
use flocksy.Boxoffice.Office.{Office, Readings, Flow, going, returned, failed}
use flocksy.Boxoffice.Events.{process_event}

-- The loop waits for a message, has returned a number, or has failed.
pub data Routing (Disk : Type 0) : Type 0 where
  waiting : Office Disk → Routing Disk
  ended : ℕ → Office Disk → Routing Disk
  crashed : Fault → Routing Disk

-- `if (ret_val != 0) return ret_val;`. processEvent always returns.
abbrev pub proceed : {D : Type 0} → (Office D → Routing D) → Flow D → Routing D
proceed next (going h) = crashed undefined
proceed next (returned zero o) = next o
proceed next (returned (suc n) o) = ended (suc n) o
proceed next (failed x) = crashed x

module _ (fs : FileSystem) where
  open fs use {Disk}

  -- The messages in the order of their arrival, each with what the clock and the random numbers give
  -- while it is handled; the first argument holds `msg_type` and `msg_signal`.
  unfoldable pub run_router : ℕ × ℕ → List (Readings × List ℕ) → Office Disk → Routing Disk
  unfolding process_event
  run_router before [] o = waiting o
  run_router before ((readings, text) ∷ messages) o =
      let (msg_type, msg_signal, s) = read_signal before text in
      let next : Office Disk → Routing Disk = λ o'. run_router (msg_type, msg_signal) messages o' in
      if msg_type == f_sigtype_life && msg_signal == f_siglife_interrupt
      then ended 0 o
      else proceed next (process_event fs readings msg_signal s o)

-- What one more message makes of a run of the router: a loop that waits goes on to where the node plays the part at the
-- end of one edge, unless a call fails; one that has ended or failed stays as it is.
unfoldable pub Continues : {D : Type 0} → Routing D → Routing D → Type 0
Continues (waiting o) (waiting o') = role o.state ⟶ role o'.state
Continues (waiting o) (ended n o') = role o.state ⟶ role o'.state
Continues (waiting o) (crashed x) = Unit {0}
Continues (ended n o) end = end ≡ ended n o
Continues (crashed x) end = end ≡ crashed x
