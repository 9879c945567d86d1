-- ===== src/Threads/Heartbeater.antt =====
-- src/heartbeater.cpp: the loop of Heartbeater::run. `msg_type` and `msg_signal` are the locals that
-- live over the rounds.
use flocksy.Prelude.{ℕ, List, ◌∷◌, ◌++◌, Option, none, some, if◌then◌else◌, ◌&&◌, ◌==◌}
use flocksy.Constants.{f_sigtype_life, f_sigtype_pub, f_sigtype_fsm, f_siglife_interrupt}
use flocksy.Bytes.{be64}
use flocksy.FlockFsm.Types.{Status}
use flocksy.Stream.{Stream, open_stream, read_int, get_line}
use flocksy.Stream.Decimal.{print, print_int}
use flocksy.Threads.Rounds.{Round, stop, next}

pub record Heartbeater : Type 0 where
  pub current_status : Status
  pub current_message : List ℕ
  pub msg_type : ℕ
  pub msg_signal : ℕ

-- The heartbeat of a status, at a time, with a message behind it.
unfoldable pub heartbeat : Status → ℕ → List ℕ → List ℕ
heartbeat status timestamp message =
    print f_sigtype_pub ++ (b' ' ∷ (print_int status ++ (b' ' ∷ (be64 timestamp ++ message))))

send : Heartbeater → ℕ → Round Heartbeater
unfolding heartbeat
send h timestamp = next h (heartbeat h.current_status timestamp h.current_message)

take_order : Heartbeater → Stream → Heartbeater
take_order h s =
    if h.msg_type == f_sigtype_fsm
    then record h {
      current_status = h.msg_signal;
      current_message = (get_line h.current_message s).0;
    }
    else h

-- One round, with what the poll gave and the time after the sleep.
unfoldable pub heartbeater_round : Heartbeater → Option (List ℕ) → ℕ → Round Heartbeater
unfolding send take_order
heartbeater_round h none timestamp = send h timestamp
heartbeater_round h (some text) timestamp =
    let (msg_type, s) = read_int h.msg_type (open_stream text) in
    let (msg_signal, s') = read_int h.msg_signal s in
    if msg_type == f_sigtype_life && msg_signal == f_siglife_interrupt
    then stop
    else send (take_order (record h { msg_type = msg_type; msg_signal = msg_signal }) s') timestamp
