-- ===== src/Journey/Tests.antt =====
-- The theorems about the way of a heartbeat at concrete messages.
use flocksy.Prelude.{ℕ, ◌≤◌, ◌≡◌, refl, List, [], ◌∷◌, ◌++◌, none, some, ok, arith, replicate}
use flocksy.Bytes.{be64}
use flocksy.Threads.Rounds.{next}
use flocksy.Threads.Receive.{s_recv₄}
use flocksy.Threads.Heartbeater.{Heartbeater, heartbeat, heartbeater_round}
use flocksy.Threads.Publisher.{Publisher, publisher_round}
use flocksy.Threads.Subscriber.{Subscriber}
use flocksy.Stream.Decimal.{print}
use flocksy.Stream.Laws.{reading}
use flocksy.Boxoffice.Nodes.{update_node}
use flocksy.Boxoffice.Clock.{read_signal, update_timestamp, stamp}
use flocksy.Journey.Relay.{padding, arrival, relay}
use flocksy.Journey.Delivery.{heartbeat_delivered}
use flocksy.Journey.Misread.{digit_hash_misread}
use flocksy.Journey.Orders.{order, ordered, order_up_to_newline, publisher_merges}

abbrev publisher : Publisher
publisher = record { msg_type = 0; msg_signal = 0 }

abbrev heartbeater : Heartbeater
heartbeater = record { current_status = 100; current_message = []; msg_type = 0; msg_signal = 0 }

-- A hash whose bytes are all 200, and one that begins with '7'.
abbrev letters : List ℕ
letters = replicate 64 200

abbrev digits : List ℕ
digits = b'7' ∷ replicate 63 200

abbrev subscriber : List ℕ → Subscriber
subscriber uid = record { uid = uid; msg_type = 0; msg_signal = 0 }

heartbeat_delivered_example :
    let behind = (1 ∷ 2 ∷ []) ++ padding 121 (b' ' ∷ (be64 70000 ++ (1 ∷ 2 ∷ []))) in
    let text = arrival letters 121 (be64 70000 ++ behind) in
    let s = reading text (letters ++ (b' ' ∷ (be64 70000 ++ behind))) in
    (relay publisher (subscriber letters) (heartbeat 121 70000 (1 ∷ 2 ∷ [])) ≡ ok text)
    × (read_signal (0, 0) text ≡ (2, 121, s))
    × (update_timestamp 70005 [] s
        ≡ ok (letters, update_node letters (stamp 70000 70005) [], reading text behind))
heartbeat_delivered_example =
    heartbeat_delivered publisher (subscriber letters) 121 70000 (1 ∷ 2 ∷ []) (0, 0) 70005 []
      (omega arith, omega arith) (omega arith) refl refl

digit_hash_misread_example :
    (text : List ℕ) × (relay publisher (subscriber digits) (heartbeat 121 70000 []) ≡ ok text)
    × (1000 ≤ (read_signal (0, 0) text).1)
digit_hash_misread_example =
    digit_hash_misread publisher (subscriber digits) 121 70000 [] (0, 0) 7 (replicate 63 200)
      (omega arith, omega arith) (omega arith) refl

order_up_to_newline_example :
    (heartbeater_round heartbeater (some (order 130 (1 ∷ []))) 70000 ≡ ordered 130 70000 (1 ∷ []))
    × (heartbeater_round heartbeater (some (order 130 ((1 ∷ []) ++ (10 ∷ 2 ∷ [])))) 70000
        ≡ ordered 130 70000 (1 ∷ []))
order_up_to_newline_example =
    order_up_to_newline heartbeater 130 70000 (1 ∷ []) (2 ∷ []) (omega arith) (refl, tt)

publisher_merges_example :
    let body = b' ' ∷ (be64 70000 ++ ((3 ∷ []) ++ (4 ∷ []))) in
    publisher_round publisher (
      s_recv₄ none none
        (some (record { head = heartbeat 121 70000 (3 ∷ []); more = [] }))
        (some (record { head = 4 ∷ []; more = [] })))
    ≡ ok
        (next (record { msg_type = 1; msg_signal = 121 }) ((print 121 ++ body) ++ padding 121 body))
publisher_merges_example =
    publisher_merges publisher 121 70000 (3 ∷ []) (4 ∷ []) (omega arith, omega arith)
