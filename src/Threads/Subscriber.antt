-- ===== src/Threads/Subscriber.antt =====
-- src/subscriber.cpp: the loop of Subscriber::run, after the socket is connected.
use flocksy.Prelude.{ℕ, List, ◌∷◌, ◌++◌, Result, ok, ◌>>=◌, if◌then◌else◌, ◌==◌}
use flocksy.Constants.{f_sigtype_life, f_sigtype_sub, f_siglife_interrupt}
use flocksy.Stream.{open_stream, read_int}
use flocksy.Stream.Decimal.{print, print_int}
use flocksy.Threads.Publisher.{substr}
use flocksy.Threads.Rounds.{Round, stop, next}

pub record Subscriber : Type 0 where
  pub uid : List ℕ
  pub msg_type : ℕ
  pub msg_signal : ℕ

forward : Subscriber → List ℕ → Result (Round Subscriber)
unfolding substr
forward s text = do
  infomessage ← substr 3 text
  ok (next s (print f_sigtype_sub ++ (b' ' ∷ (print_int s.msg_signal ++ (s.uid ++ infomessage)))))

unfoldable pub subscriber_round : Subscriber → List ℕ → Result (Round Subscriber)
unfolding forward
subscriber_round sub text =
    let (msg_type, s) = read_int sub.msg_type (open_stream text) in
    let (msg_signal, s') = read_int sub.msg_signal s in
    if msg_type == f_sigtype_life
    then if msg_signal == f_siglife_interrupt
      then ok stop
      else forward (record sub { msg_type = msg_type; msg_signal = msg_signal }) text
    else forward (record sub { msg_type = msg_type; msg_signal = msg_type }) text
