-- ===== src/Dispatcher/Stop.antt =====
-- Dispatcher::synchronizingStop and Dispatcher::sendFakeData.
pub mod Window
pub mod Order
use flocksy.Prelude.{
  ℕ, zero, suc, ◌+◌, ◌-◌, ◌%◌, ◌^◌, Bool, true, false, ◌&&◌, List, [], ◌∷◌, ◌++◌, Option, none,
  some, Result, ok, ◌>>=◌, if◌then◌else◌, leb, ◌==◌,
}
use flocksy.Constants.{f_sigtype_life, f_sigtype_pub, f_sigtype_fsm, f_siglife_interrupt}
use flocksy.Bytes.{be64toh}
use flocksy.Stream.{Stream, open_stream, read_new_int, seek_cur, read}
use flocksy.Stream.Decimal.{print}
use flocksy.Threads.Publisher.{pad}
use flocksy.FlockFsm.Statuses.{status_155, status_156}
use flocksy.File.{f_maximum_file_package_size}

-- The members: timing_offset_ holds 64 bits.
pub record Dispatcher : Type 0 where
  pub current_status : ℕ
  pub timing_offset : ℕ
  pub waiting_for_stop : Bool

-- What s_recv_noblock gives in a round: a text, or nothing in time, and then what the clock shows.
pub data Poll : Type 0 where
  received : List ℕ → Poll
  quiet : ℕ → Poll

-- A difference in uint64_t.
abbrev pub minus64 : ℕ → ℕ → ℕ
minus64 a b = (a % 2 ^ 64 + 2 ^ 64 - b % 2 ^ 64) % 2 ^ 64

unfoldable pub fake_data : Dispatcher → List ℕ
fake_data d =
    pad (f_maximum_file_package_size + 22) (print f_sigtype_pub ++ (b' ' ∷ print d.current_status))

-- A message: `none` for the interrupt. `msg_signal` is looked at for two types only.
unfoldable pub stop_message : Dispatcher → List ℕ → Result (Option Dispatcher)
stop_message d text = do
  (msg_type, s₁) ← read_new_int (open_stream text)
  let interrupt = do
    (msg_signal, s₂) ← read_new_int s₁
    ok (if msg_signal == f_siglife_interrupt then none else some d)
  let order = do
    (msg_signal, s₂) ← read_new_int s₁
    let stop = do
      (timing_offset, s₃) ← read 8 (seek_cur 1 s₂)
      ok (some (record d { timing_offset = be64toh timing_offset; waiting_for_stop = true }))
    if msg_signal == status_155 then stop else ok (some d)
  if msg_type == f_sigtype_life
      then interrupt
      else if msg_type == f_sigtype_fsm
      then order
      else ok (some d)

-- Whether a quiet round ends the loop.
unfoldable pub stops : Dispatcher → ℕ → Bool
stops d now = d.waiting_for_stop && leb (minus64 now d.timing_offset) 1000000

-- The loop is still on, or has returned 0 for the interrupt or 1; with the messages for the other nodes, the last one first,
-- and the one for the boxoffice.
pub data Stopping : Type 0 where
  running : Dispatcher → List (List ℕ) → Stopping
  interrupted : List (List ℕ) → Stopping
  stopped : Dispatcher → List (List ℕ) → List ℕ → Stopping

unfoldable pub synchronizing_stop : Dispatcher → List (List ℕ) → List Poll → Result Stopping
synchronizing_stop d sent [] = ok (running d sent)
synchronizing_stop d sent (quiet now ∷ polls) =
    let further = synchronizing_stop d (fake_data d ∷ sent) polls in
    if stops d now
    then ok (stopped d sent (print f_sigtype_fsm ++ (b' ' ∷ print status_156)))
    else further
synchronizing_stop d sent (received text ∷ polls) =
    let further : Dispatcher → Result Stopping =
      λ d'. synchronizing_stop d' (fake_data d' ∷ sent) polls in
    stop_message d text >>= λ result. elim result [
      | none ↦ ok (interrupted sent)
      | some d' ↦ further d'
    ]
