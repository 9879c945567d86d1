-- ===== src/Journey/Orders.antt =====
-- What the heartbeater keeps of an order of its boxoffice, and what the publisher makes of two
-- messages that are ready at once.
use flocksy.Prelude.{
  ℕ, ◌<◌, ◌≡◌, refl, ap, ◌∙◌, false, List, [], ◌∷◌, ◌++◌, append_assoc, none, some, ok, arith, All,
  ◌==◌,
}
use flocksy.Bytes.{be64}
use flocksy.FlockFsm.Types.{Status}
use flocksy.Stream.{get_line, span_line}
use flocksy.Stream.Decimal.{print}
use flocksy.Threads.Rounds.{Round, next}
use flocksy.Threads.Receive.{s_recv₄}
use flocksy.Threads.Heartbeater.{Heartbeater, heartbeat, heartbeater_round}
use flocksy.Threads.Publisher.{Publisher, publisher_round}
use flocksy.Journey.Relay.{IsCode, padding, publisher_round-heartbeat, first_number, second_number}

-- An order of Boxoffice::updateHeartbeat: `F_SIGTYPE_FSM << " " << status << " "`, and a message.
abbrev pub order : Status → List ℕ → List ℕ
order status message = print 4 ++ (b' ' ∷ (print status ++ (b' ' ∷ message)))

abbrev NoNewline : List ℕ → Type 0
NoNewline = All (λ c. (c == 10) ≡ false)

span_line-newline : (xs ys : List ℕ) → NoNewline xs → span_line (xs ++ (10 ∷ ys)) ≡ (xs, ys)
unfolding span_line
span_line-newline [] ys h = refl
span_line-newline (x ∷ xs) ys (h, hs) =
    rw h (ap (λ (r : List ℕ × List ℕ). (x ∷ r.0, r.1)) (span_line-newline xs ys hs))

span_line-end : (xs : List ℕ) → NoNewline xs → span_line xs ≡ (xs, [])
unfolding span_line
span_line-end [] h = refl
span_line-end (x ∷ xs) (h, hs) =
    rw h (ap (λ (r : List ℕ × List ℕ). (x ∷ r.0, r.1)) (span_line-end xs hs))

heartbeater_round-order :
    (h : Heartbeater) (status timestamp : ℕ) (message : List ℕ)
    → status < 1000
    → let line = (span_line (b' ' ∷ message)).0 in
      heartbeater_round h (some (order status message)) timestamp
      ≡ next
          (record {
            current_status = status;
            current_message = line;
            msg_type = 4;
            msg_signal = status;
          })
          (heartbeat status timestamp line)
unfolding heartbeater_round get_line heartbeat
heartbeater_round-order h status timestamp message hi =
    let text = b' ' ∷ message in
    rw (first_number h.msg_type h.msg_signal 4 status text (omega arith) (omega arith) refl)
      (rw (second_number h.msg_type h.msg_signal 4 status text (omega arith) (omega arith) refl))

-- The heartbeater after an order, and the heartbeat that it sends.
abbrev pub ordered : Status → ℕ → List ℕ → Round Heartbeater
ordered status timestamp message =
    next
      (record {
        current_status = status;
        current_message = b' ' ∷ message;
        msg_type = 4;
        msg_signal = status;
      })
      (heartbeat status timestamp (b' ' ∷ message))

-- An order with a message that has no newline (byte 10) makes the heartbeater send and keep the
-- status code and the message, behind a blank. Of a message with a newline only what stands before
-- the first one is kept and sent, whatever follows.
pub order_up_to_newline :
    (h : Heartbeater) (status timestamp : ℕ) (front back : List ℕ)
    → status < 1000
    → NoNewline front
    → (heartbeater_round h (some (order status front)) timestamp ≡ ordered status timestamp front)
      × (heartbeater_round h (some (order status (front ++ (10 ∷ back)))) timestamp
          ≡ ordered status timestamp front)
order_up_to_newline h status timestamp front back hi clean = (
  heartbeater_round-order h status timestamp front hi
      ∙ ap (λ (line : List ℕ × List ℕ). kept line.0) (span_line-end (b' ' ∷ front) (refl, clean)),
  heartbeater_round-order h status timestamp (front ++ (10 ∷ back)) hi
      ∙ ap (λ (line : List ℕ × List ℕ). kept line.0)
          (span_line-newline (b' ' ∷ front) back (refl, clean)),
)
  where
    kept : List ℕ → Round Heartbeater
    kept line =
        next
          (record {
            current_status = status;
            current_message = line;
            msg_type = 4;
            msg_signal = status;
          })
          (heartbeat status timestamp line)

heartbeat-append :
    (status timestamp : ℕ) (message text : List ℕ)
    → heartbeat status timestamp message ++ text ≡ heartbeat status timestamp (message ++ text)
unfolding heartbeat
heartbeat-append status timestamp message text = simp append_assoc

-- When a heartbeat and a message of the dispatcher are ready in the same poll, the publisher sends
-- one message instead of two: that of a heartbeat with the dispatcher's text behind its message.
pub publisher_merges :
    (p : Publisher) (status timestamp : ℕ) (message text : List ℕ)
    → IsCode status
    → let body = b' ' ∷ (be64 timestamp ++ (message ++ text)) in
      publisher_round p (
        s_recv₄ none none
          (some (record { head = heartbeat status timestamp message; more = [] }))
          (some (record { head = text; more = [] })))
      ≡ ok (
          next
            (record { msg_type = 1; msg_signal = status })
            ((print status ++ body) ++ padding status body))
unfolding s_recv₄
publisher_merges p status timestamp message text h =
    ap (publisher_round p) (heartbeat-append status timestamp message text)
    ∙ publisher_round-heartbeat p status timestamp (message ++ text) h
