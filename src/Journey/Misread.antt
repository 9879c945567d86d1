-- ===== src/Journey/Misread.antt =====
-- A sender whose hash begins with a digit.
use flocksy.Prelude.{ℕ, ◌+◌, ◌*◌, ◌≤◌, ◌<◌, ◌≡◌, refl, List, ◌∷◌, ◌++◌, ok, arith}
use flocksy.Bytes.{be64}
use flocksy.Stream.{read_int, int_max}
use native.Mathlib.Nat.{le_trans}
use flocksy.Stream.Decimal.{print, read_digits, read_digits-print_digit, read_digits-le, print-head}
use flocksy.Stream.Laws.{reading, read_int-print, read_int-ge, read_int-space}
use flocksy.Threads.Heartbeater.{heartbeat}
use flocksy.Threads.Publisher.{Publisher}
use flocksy.Threads.Subscriber.{Subscriber}
use flocksy.Boxoffice.Clock.{read_signal}
use flocksy.Journey.Relay.{IsCode, padding, arrival, relay, relay-heartbeat}

long_number :
    (buffer : List ℕ) (y n d k : ℕ) (rest : List ℕ)
    → d < 10
    → k ≤ n * 10 + d
    → k ≤ int_max
    → k ≤ (read_int y (reading buffer (print n ++ ((b'0' + d) ∷ rest)))).0
long_number buffer y n d k rest hd le small =
    let (a, ds, ha, e) = print-head n in
    let value : k ≤ (read_digits 0 (print n ++ ((b'0' + d) ∷ rest))).0 =
      rw (read_digits-print_digit n d rest hd) (le_trans le (read_digits-le (n * 10 + d) rest)) in
    rw e (
      read_int-ge buffer y (b'0' + a) (ds ++ ((b'0' + d) ∷ rest)) k (ground arith) (rw e at value)
        small)

read_signal-long :
    (before : ℕ × ℕ) (status d : ℕ) (rest : List ℕ)
    → 100 ≤ status
    → d < 10
    → 1000 ≤ (read_signal before (print 2 ++ (b' ' ∷ (print status ++ ((b'0' + d) ∷ rest))))).1
unfolding read_signal
read_signal-long (x, y) status d rest lo hd =
    let tail' = print status ++ ((b'0' + d) ∷ rest) in
    let text = print 2 ++ (b' ' ∷ tail') in
    rw (read_int-print text x 2 (b' ' ∷ tail') (omega arith) refl) (
      rw (read_int-space text y tail')
        (long_number text y status d 1000 rest hd (omega arith) (omega arith)))

-- If the sender's hash begins with an ASCII digit, the boxoffice reads another status code than the
-- one that was sent, whatever the heartbeat: the digit is taken for a further digit of the number, so
-- what is read is at least 1000.
pub digit_hash_misread :
    (p : Publisher) (sub : Subscriber) (status timestamp : ℕ) (message : List ℕ) (before : ℕ × ℕ)
    (d : ℕ) (uid : List ℕ)
    → IsCode status
    → d < 10
    → sub.uid ≡ (b'0' + d) ∷ uid
    → (text : List ℕ) × (relay p sub (heartbeat status timestamp message) ≡ ok text)
      × (1000 ≤ (read_signal before text).1)
digit_hash_misread p sub status timestamp message before d uid h hd e =
    let body = be64 timestamp ++ message in
    let behind = body ++ padding status (b' ' ∷ body) in
    (
      arrival sub.uid status behind,
      relay-heartbeat p sub status timestamp message h,
      rw e (read_signal-long before status d (uid ++ (b' ' ∷ behind)) h.0 hd),
    )
