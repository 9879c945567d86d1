-- ===== src/Journey/Delivery.antt =====
-- A heartbeat arrives at the boxoffice of the other node: src/boxoffice.cpp reads what was sent.
use flocksy.Prelude.{ℕ, ◌^◌, ◌<◌, ◌≡◌, ap, ◌∙◌, List, ◌∷◌, ◌++◌, append_assoc, ok, arith, length}
use flocksy.Bytes.{be64, length-be64, be64toh-be64}
use flocksy.Stream.Decimal.{NoDigit, NoDigit-append}
use flocksy.Stream.Laws.{reading, read-append, seek_cur-cons}
use flocksy.Threads.Heartbeater.{heartbeat}
use flocksy.Threads.Publisher.{Publisher}
use flocksy.Threads.Subscriber.{Subscriber}
use flocksy.Boxoffice.Nodes.{NodeMap, update_node}
use flocksy.Boxoffice.Clock.{read_signal, update_timestamp, stamp}
use flocksy.Journey.Relay.{
  IsCode, padding, arrival, relay, relay-heartbeat, first_number, second_number,
}

read_signal-arrival :
    (before : ℕ × ℕ) (uid : List ℕ) (status : ℕ) (behind : List ℕ)
    → status < 1000
    → 0 < length uid
    → NoDigit uid
    → read_signal before (arrival uid status behind)
      ≡ (2, status, reading (arrival uid status behind) (uid ++ (b' ' ∷ behind)))
unfolding read_signal
read_signal-arrival (x, y) uid status behind hi pos no_digit =
    let rest = uid ++ (b' ' ∷ behind) in
    let end : NoDigit rest = NoDigit-append uid (b' ' ∷ behind) pos no_digit in
    rw (first_number x y 2 status rest (omega arith) (omega arith) end)
      (rw (second_number x y 2 status rest (omega arith) (omega arith) end))

update_timestamp-arrival :
    (buffer uid : List ℕ) (now timestamp : ℕ) (nodes : NodeMap) (behind : List ℕ)
    → length uid ≡ 64
    → timestamp < 2 ^ 64
    → update_timestamp now nodes (reading buffer (uid ++ (b' ' ∷ (be64 timestamp ++ behind))))
      ≡ ok (uid, update_node uid (stamp timestamp now) nodes, reading buffer behind)
unfolding update_timestamp
update_timestamp-arrival buffer uid now timestamp nodes behind len small =
    rw (read-append buffer uid (b' ' ∷ (be64 timestamp ++ behind)) 64 len) (
      rw (seek_cur-cons buffer b' ' (be64 timestamp ++ behind)) (
        rw (read-append buffer (be64 timestamp) behind 8 (length-be64 timestamp))
          (rw (be64toh-be64 timestamp small))))

-- A heartbeat with a three-digit status code, a 64-bit time and a message arrives: whatever the
-- publisher and the subscriber handled before, if the sender's hash has 64 bytes and does not begin
-- with an ASCII digit, the boxoffice of the other node reads the signal type 2 (F_SIGTYPE_SUB) and
-- exactly that status code; updateTimestamp then reads that hash and that time and stamps the
-- sender's entry with them, and the message, with the publisher's blanks behind it, is what is left.
pub heartbeat_delivered :
    (p : Publisher) (sub : Subscriber) (status timestamp : ℕ) (message : List ℕ) (before : ℕ × ℕ)
    (now : ℕ) (nodes : NodeMap)
    → IsCode status
    → timestamp < 2 ^ 64
    → length sub.uid ≡ 64
    → NoDigit sub.uid
    → let behind = message ++ padding status (b' ' ∷ (be64 timestamp ++ message)) in
      let text = arrival sub.uid status (be64 timestamp ++ behind) in
      let s = reading text (sub.uid ++ (b' ' ∷ (be64 timestamp ++ behind))) in
      (relay p sub (heartbeat status timestamp message) ≡ ok text)
      × (read_signal before text ≡ (2, status, s))
      × (update_timestamp now nodes s
          ≡ ok (sub.uid, update_node sub.uid (stamp timestamp now) nodes, reading text behind))
heartbeat_delivered p sub status timestamp message before now nodes h small len no_digit =
    let pad' = padding status (b' ' ∷ (be64 timestamp ++ message)) in
    let behind = be64 timestamp ++ (message ++ pad') in
    (
      relay-heartbeat p sub status timestamp message h
          ∙ ap (λ t. ok (arrival sub.uid status t)) (append_assoc (be64 timestamp) message pad'),
      read_signal-arrival before sub.uid status behind h.1 (omega arith) no_digit,
      update_timestamp-arrival (arrival sub.uid status behind) sub.uid now timestamp nodes
          (message ++ pad') len small,
    )
