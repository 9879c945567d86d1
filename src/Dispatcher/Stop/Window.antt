-- ===== src/Dispatcher/Stop/Window.antt =====
-- When the dispatcher stops.
use flocksy.Prelude.{
  ℕ, ◌+◌, ◌-◌, ◌^◌, ◌≤◌, ◌<◌, ◌≡◌, ◌↔◌, true, &&-true, leb→le, le_or_lt, inl, inr, leb, arith,
}
use flocksy.Dispatcher.Stop.{Dispatcher, minus64, stops}

minus64-later :
    (offset now : ℕ)
    → offset < 2 ^ 64
    → now < 2 ^ 64
    → offset ≤ now
    → minus64 now offset ≡ now - offset
minus64-later offset now ho hn le = omega arith

minus64-earlier :
    (offset now : ℕ)
    → offset < 2 ^ 64
    → now < 2 ^ 64
    → now < offset
    → minus64 now offset ≡ now + 2 ^ 64 - offset
minus64-earlier offset now ho hn lt = omega arith

-- The difference is small exactly in the window.
in_window :
    (offset now : ℕ)
    → now < 2 ^ 64
    → offset < 2 ^ 64
    → offset ≤ now + 2 ^ 63
    → (minus64 now offset ≤ 1000000) ↔ ((offset ≤ now) × (now ≤ offset + 1000000))
in_window offset now hn ho near = elim (le_or_lt offset now) [
  | inl later ↦
      let e = minus64-later offset now ho hn later in
      (λ small. (later, omega (arith, e)), λ h. omega (arith, e, h.1))
  | inr earlier ↦
      let e = minus64-earlier offset now ho hn earlier in
      (λ small. absurd (omega (arith, e)), λ h. absurd (omega (arith, h.0)))
]

-- For a time of 64 bits of which the stop is at most 2 ^ 63 in the future, a quiet round ends the loop exactly when
-- the stop has been ordered and its time has come, but no more than 1000000 milliseconds ago.
pub stops_iff :
    (d : Dispatcher) (now : ℕ)
    → now < 2 ^ 64
    → d.timing_offset < 2 ^ 64
    → d.timing_offset ≤ now + 2 ^ 63
    → (stops d now ≡ true)
      ↔ ((d.waiting_for_stop ≡ true) × (d.timing_offset ≤ now) × (now ≤ d.timing_offset + 1000000))
unfolding stops
stops_iff d now hn ho near =
    let window = in_window d.timing_offset now hn ho near in
    let small = minus64 now d.timing_offset in
    (
      λ e.
          let parts = &&-true d.waiting_for_stop (leb small 1000000) e in
          let times = window.0 (leb→le small 1000000 parts.1) in (parts.0, times.0, times.1),
      λ h. rw h.0 (ground (arith, window.1 (h.1, h.2))),
    )
