-- ===== src/Dispatcher/Stop/Order.antt =====
-- The order to stop, as the boxoffice sends it, and the end of the wait.
use flocksy.Prelude.{
  ℕ, zero, suc, subst, ◌+◌, ◌^◌, ◌≤◌, ◌<◌, ◌≡◌, refl, ap, ◌∙◌, true, false, Bool-cases, inl, inr,
  List, [], ◌∷◌, ◌++◌, append-nil, map, some, ok, length, replicate, All, arith,
}
use flocksy.Constants.{f_sigtype_fsm}
use flocksy.Bytes.{be64, be64toh-be64, length-be64}
use flocksy.FlockFsm.Statuses.{status_155, status_156}
use flocksy.Stream.{read}
use flocksy.Stream.Decimal.{print}
use flocksy.Stream.Laws.{
  reading, read-append, seek_cur-cons, read_new_int-print, read_new_int-first,
}
use flocksy.Boxoffice.Sending.{signal}
use flocksy.Dispatcher.Stop.{
  Dispatcher, Poll, received, quiet, fake_data, stop_message, stops, stopped, synchronizing_stop,
}
use flocksy.Dispatcher.Stop.Window.{stops_iff}

abbrev pub ordered : Dispatcher → ℕ → Dispatcher
ordered d offset = record d { timing_offset = offset; waiting_for_stop = true }

stop_message-signal :
    (d : Dispatcher) (offset : ℕ)
    → offset < 2 ^ 64
    → stop_message d (signal status_155 (be64 offset)) ≡ ok (some (ordered d offset))
unfolding stop_message signal
stop_message-signal d offset small =
    let rest = b' ' ∷ be64 offset in
    let text = print f_sigtype_fsm ++ (b' ' ∷ (print status_155 ++ rest)) in
    rw (read_new_int-first 4 (b' ' ∷ (print status_155 ++ rest)) (omega arith) refl) (
      rw (read_new_int-print text 155 rest (omega arith) refl) (
        rw (seek_cur-cons text b' ' (be64 offset)) (
          rw (read-all text (be64 offset) (length-be64 offset))
            (rw (be64toh-be64 offset small) refl))))
  where
    read-all :
        (buffer xs : List ℕ)
        → length xs ≡ 8
        → read 8 (reading buffer xs) ≡ ok (xs, reading buffer [])
    read-all buffer xs e =
        subst (λ ys. read 8 (reading buffer ys) ≡ ok (xs, reading buffer [])) (append-nil xs)
          (read-append buffer xs [] 8 e)

-- Before the time of the stop.
abbrev pub IsEarly : ℕ → ℕ → Type 0
IsEarly offset now = (now < offset) × (offset ≤ now + 2 ^ 63)

early-goes_on :
    (d : Dispatcher) (now : ℕ)
    → d.timing_offset < 2 ^ 64
    → IsEarly d.timing_offset now
    → stops d now ≡ false
early-goes_on d now small (lt, near) = elim (Bool-cases (stops d now)) [
  | inl e ↦ let h = (stops_iff d now (omega arith) small near).0 e in absurd (omega (arith, h.1))
  | inr e ↦ e
]

replicate-push {ℓ} :
    {A : Type ℓ} (n : ℕ) (x : A) (xs : List A)
    → replicate n x ++ (x ∷ xs) ≡ x ∷ (replicate n x ++ xs)
replicate-push zero x xs = refl
replicate-push (suc n) x xs = ap (◌∷◌ x) (replicate-push n x xs)

wait-stopped :
    (d : Dispatcher) (sent : List (List ℕ)) (early : List ℕ) (now : ℕ) (polls : List Poll)
    → d.waiting_for_stop ≡ true
    → d.timing_offset < 2 ^ 64
    → All (IsEarly d.timing_offset) early
    → d.timing_offset ≤ now
    → now ≤ d.timing_offset + 1000000
    → now < 2 ^ 64
    → synchronizing_stop d sent (map quiet early ++ (quiet now ∷ polls))
      ≡ ok (
          stopped d
            (replicate (length early) (fake_data d) ++ sent)
            (print f_sigtype_fsm ++ (b' ' ∷ print status_156)))
unfolding synchronizing_stop
wait-stopped d sent [] now polls w small h le ge hn =
    let ends = (stops_iff d now hn small (omega arith)).1 (w, le, ge) in rw ends refl
wait-stopped d sent (t ∷ early) now polls w small (h, hs) le ge hn =
    rw (early-goes_on d t small h) (
      wait-stopped d (fake_data d ∷ sent) early now polls w small hs le ge hn
      ∙ ap (λ xs. ok (stopped d xs (print f_sigtype_fsm ++ (b' ' ∷ print status_156))))
          (replicate-push (length early) (fake_data d) sent))

-- When the boxoffice orders the stop for a time of 64 bits, and after quiet rounds before that time (at most 2 ^ 63
-- before it) there is a quiet round within 1000000 milliseconds after it, the dispatcher stops in that
-- round: until then it sends one message of fake data for the order and one for each quiet round, and then it reports
-- 156 to the boxoffice.
pub synchronizing_stop-signal :
    (d : Dispatcher) (sent : List (List ℕ)) (offset : ℕ) (early : List ℕ) (now : ℕ)
    (polls : List Poll)
    → offset < 2 ^ 64
    → All (IsEarly offset) early
    → offset ≤ now
    → now ≤ offset + 1000000
    → now < 2 ^ 64
    → synchronizing_stop d sent
        (received (signal status_155 (be64 offset)) ∷ (map quiet early ++ (quiet now ∷ polls)))
      ≡ ok (
          stopped
            (ordered d offset)
            (replicate (suc (length early)) (fake_data d) ++ sent)
            (print f_sigtype_fsm ++ (b' ' ∷ print status_156)))
unfolding synchronizing_stop fake_data
synchronizing_stop-signal d sent offset early now polls small h le ge hn =
    rw (stop_message-signal d offset small) (
      wait-stopped (ordered d offset) (fake_data d ∷ sent) early now polls refl small h le ge hn
      ∙ ap
          (λ xs.
            ok (stopped (ordered d offset) xs (print f_sigtype_fsm ++ (b' ' ∷ print status_156))))
          (replicate-push (length early) (fake_data d) sent))
