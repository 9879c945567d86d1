-- ===== src/Threads/Publisher.antt =====
-- src/publisher.cpp: the loop of Publisher::run, after the sockets are set up.
use flocksy.Prelude.{
  ℕ, ◌-◌, List, ◌++◌, Result, ok, fault, ◌>>=◌, out_of_range, if◌then◌else◌, ◌&&◌, ◌==◌, ltb,
  length, drop, replicate,
}
use flocksy.Constants.{f_sigtype_life, f_siglife_interrupt, f_minimum_hb_width}
use flocksy.Stream.{open_stream, read_int}
use flocksy.Stream.Decimal.{print_int}
use flocksy.Threads.Rounds.{Round, stop, next}

pub record Publisher : Type 0 where
  pub msg_type : ℕ
  pub msg_signal : ℕ

-- `text.substr(n)`, which throws std::out_of_range behind the end.
unfoldable pub substr : ℕ → List ℕ → Result (List ℕ)
substr n text = if ltb (length text) n then fault out_of_range else ok (drop n text)

-- `if ( width - p > 0 ) message << std::setw(width - p) << std::setfill(' ') << " "`.
unfoldable pub pad : ℕ → List ℕ → List ℕ
pad width text = text ++ replicate (width - length text) b' '

unfoldable pub publisher_round : Publisher → List ℕ → Result (Round Publisher)
unfolding substr pad
publisher_round p text =
    let (msg_type, s) = read_int p.msg_type (open_stream text) in
    let (msg_signal, s') = read_int p.msg_signal s in
    if msg_type == f_sigtype_life && msg_signal == f_siglife_interrupt then ok stop else do
      infomessage ← substr 5 text
      ok (
          next (record { msg_type = msg_type; msg_signal = msg_signal })
            (pad f_minimum_hb_width (print_int msg_signal ++ infomessage)))
