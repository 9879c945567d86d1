-- ===== src/Journey/Relay.antt =====
-- What the publisher and the subscriber make of a heartbeat.
use flocksy.Prelude.{
  ℕ, ◌-◌, ◌^◌, ◌≤◌, ◌<◌, ◌≡◌, refl, ◌∙◌, false, List, [], ◌∷◌, ◌++◌, append_assoc, Result, ok,
  ◌>>=◌, arith, length, replicate, ◌==◌,
}
use flocksy.Constants.{f_minimum_hb_width}
use flocksy.Bytes.{be64}
use flocksy.FlockFsm.Types.{Status}
use flocksy.Stream.{open_stream, read_int}
use flocksy.Stream.Decimal.{print, print_fuel, print-three, print_int-print, NoDigit}
use flocksy.Stream.Laws.{reading, read_int-print, read_int-space}
use flocksy.Threads.Rounds.{Round, stop, next}
use flocksy.Threads.Heartbeater.{heartbeat}
use flocksy.Threads.Publisher.{Publisher, publisher_round, substr}
use flocksy.Threads.Subscriber.{Subscriber, subscriber_round}

-- A status code as flocksy uses them: three digits.
abbrev pub IsCode : Status → Type 0
IsCode status = (100 ≤ status) × (status < 1000)

-- The blanks that the publisher adds behind a heartbeat.
abbrev pub padding : ℕ → List ℕ → List ℕ
padding status body = replicate (f_minimum_hb_width - length (print status ++ body)) b' '

print-1 : print 1 ≡ b'1' ∷ []
unfolding print print_fuel
print-1 = refl

print-2 : print 2 ≡ b'2' ∷ []
unfolding print print_fuel
print-2 = refl

substr-five : (a b c d e : ℕ) (ys : List ℕ) → substr 5 (a ∷ b ∷ c ∷ d ∷ e ∷ ys) ≡ ok ys
unfolding substr
substr-five a b c d e ys = ground arith

substr-three : (a b c : ℕ) (ys : List ℕ) → substr 3 (a ∷ b ∷ c ∷ ys) ≡ ok ys
unfolding substr
substr-three a b c ys = ground arith

-- A stream that begins with two numbers and a blank between them.
module _ (x y a b : ℕ) (rest : List ℕ) (ha : a < 2 ^ 31) (hb : b < 2 ^ 31)
    (end : NoDigit rest) where
  abbrev two_numbers : List ℕ
  two_numbers = print a ++ (b' ' ∷ (print b ++ rest))

  pub first_number :
      read_int x (open_stream two_numbers) ≡ (a, reading two_numbers (b' ' ∷ (print b ++ rest)))
  first_number = read_int-print two_numbers x a (b' ' ∷ (print b ++ rest)) (omega arith) refl

  pub second_number :
      read_int y (reading two_numbers (b' ' ∷ (print b ++ rest))) ≡ (b, reading two_numbers rest)
  second_number =
      read_int-space two_numbers y (print b ++ rest)
      ∙ read_int-print two_numbers y b rest (omega arith) end

-- The publisher's message for a heartbeat.
pub publisher_round-heartbeat :
    (p : Publisher) (status timestamp : ℕ) (message : List ℕ)
    → IsCode status
    → let body = b' ' ∷ (be64 timestamp ++ message) in
      publisher_round p (heartbeat status timestamp message)
      ≡ ok (
          next
            (record { msg_type = 1; msg_signal = status })
            ((print status ++ body) ++ padding status body))
unfolding publisher_round heartbeat
publisher_round-heartbeat p status timestamp message (lo, hi) =
    let body = b' ' ∷ (be64 timestamp ++ message) in
    rw (print_int-print status (omega arith)) (
      rw (first_number p.msg_type p.msg_signal 1 status body (omega arith) (omega arith) refl) (
        rw (second_number p.msg_type p.msg_signal 1 status body (omega arith) (omega arith) refl) (
          rw (print-1, print_int-print status (omega arith), print-three status lo hi)
            (rw (substr-five _ _ _ _ _ body)))))

-- The subscriber's message for what the publisher sent.
subscriber_round-heartbeat :
    (sub : Subscriber) (status : ℕ) (behind : List ℕ)
    → IsCode status
    → subscriber_round sub (print status ++ (b' ' ∷ behind))
      ≡ ok (
          next
            (record sub { msg_type = status; msg_signal = status })
            (print 2 ++ (b' ' ∷ (print status ++ (sub.uid ++ (b' ' ∷ behind))))))
unfolding subscriber_round
subscriber_round-heartbeat sub status behind (lo, hi) =
    let text = print status ++ (b' ' ∷ behind) in
    let other : (status == 0) ≡ false = ground arith in
    rw (read_int-print text sub.msg_type status (b' ' ∷ behind) (omega arith) refl) (
      rw other (
        rw (print_int-print status (omega arith), print-three status lo hi)
          (rw (substr-three _ _ _ (b' ' ∷ behind)))))

abbrev message_of : {S : Type 0} → Round S → List ℕ
message_of stop = []
message_of (next s m) = m

-- What reaches the boxoffice of the other node when a publisher is handed a text.
pub relay : Publisher → Subscriber → List ℕ → Result (List ℕ)
relay p sub text = do
  r ← publisher_round p text
  r' ← subscriber_round sub (message_of r)
  ok (message_of r')

-- The text that arrives for a heartbeat.
abbrev pub arrival : List ℕ → ℕ → List ℕ → List ℕ
arrival uid status behind = print 2 ++ (b' ' ∷ (print status ++ (uid ++ (b' ' ∷ behind))))

pub relay-heartbeat :
    (p : Publisher) (sub : Subscriber) (status timestamp : ℕ) (message : List ℕ)
    → IsCode status
    → let body = be64 timestamp ++ message in
      relay p sub (heartbeat status timestamp message)
      ≡ ok (arrival sub.uid status (body ++ padding status (b' ' ∷ body)))
unfolding relay
relay-heartbeat p sub status timestamp message h =
    let body = be64 timestamp ++ message in
    rw (publisher_round-heartbeat p status timestamp message h) (
      rw append_assoc
        (rw (subscriber_round-heartbeat sub status (body ++ padding status (b' ' ∷ body)) h)))
