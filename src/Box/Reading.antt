-- ===== src/Box/Reading.antt =====
-- How run reads the text of an inotify event.
use flocksy.Prelude.{
  ℕ, suc, ◌^◌, ◌<◌, ◌≡◌, refl, ap, ◌∙◌, true, false, List, [], ◌∷◌, ◌++◌, append_assoc, Option,
  some, Result, ok, ◌>>=◌, ◌==◌, length, All, arith,
}
use flocksy.Stream.{is_space, skip_spaces, span_word, read_word}
use flocksy.Stream.Decimal.{print, print_int-print}
use flocksy.Stream.Laws.{read_new_int-print, reading}
use flocksy.Constants.{f_sigtype_inotify}
use flocksy.Box.Inotify.{InotifyEvent, event_text}
use flocksy.Box.Watch.{Box, get_path_of_directory, c_str, send_event, box_round}
use flocksy.Journey.Relay.{first_number, second_number}

-- A byte of a name that a word can hold.
abbrev pub IsNameByte : ℕ → Type 0
IsNameByte c = (0 < c) × (is_space c ≡ false)

-- A text at which a word ends.
abbrev pub EndsWord : List ℕ → Type 0
EndsWord [] = Unit {0}
EndsWord (c ∷ cs) = is_space c ≡ true

span_word-name :
    (w rest : List ℕ) → All IsNameByte w → EndsWord rest → span_word (w ++ rest) ≡ (w, rest)
unfolding span_word
span_word-name [] [] h e = refl
span_word-name [] (c ∷ cs) h e = rw e refl
span_word-name (c ∷ cs) rest ((pos, visible), h) e =
    rw visible (rw (span_word-name cs rest h e) refl)

pub read_word-name :
    (buffer w rest : List ℕ)
    → 0 < length w
    → All IsNameByte w
    → EndsWord rest
    → read_word [] (reading buffer (b' ' ∷ (w ++ rest))) ≡ (w, reading buffer rest)
unfolding read_word skip_spaces
read_word-name buffer [] rest pos h e = absurd (omega arith)
read_word-name buffer (c ∷ cs) rest pos h e = rw h.0.1 (
    rw (span_word-name (c ∷ cs) rest h e) (
      ap (λ b. (c ∷ cs, record { buffer = buffer; rest = rest; failed = b }))
        (nonzero (length cs))))
  where
    nonzero : (n : ℕ) → (suc n == 0) ≡ false
    nonzero n = ground arith

pub c_str-name : (w : List ℕ) → All IsNameByte w → c_str w ≡ w
unfolding c_str
c_str-name [] h = refl
c_str-name (c ∷ cs) ((pos, visible), h) =
    let nonzero : (c == 0) ≡ false = ground arith in rw nonzero (ap (◌∷◌ c) (c_str-name cs h))

-- An event that the text form keeps: int values, and a name without blanks.
abbrev pub IsPlain : InotifyEvent → Type 0
IsPlain e = (e.mask < 2 ^ 31) × (e.wd < 2 ^ 31) × (0 < length e.name) × All IsNameByte e.name

event_text-append :
    (e : InotifyEvent) (rest : List ℕ)
    → e.wd < 2 ^ 31
    → event_text e ++ rest ≡ print e.mask ++ (b' ' ∷ (print e.wd ++ (b' ' ∷ (e.name ++ rest))))
event_text-append e rest small = rw (print_int-print e.wd small) (
    append_assoc (print e.mask) (b' ' ∷ (print e.wd ++ (b' ' ∷ e.name))) rest
    ∙ ap (λ xs. print e.mask ++ (b' ' ∷ xs)) (append_assoc (print e.wd) (b' ' ∷ e.name) rest))

-- What run does with an event.
abbrev pub handled : Box → InotifyEvent → Result (Option (ℕ × ℕ × List (List ℕ)))
handled b e = get_path_of_directory b e.wd >>= λ dir_path.
    send_event b e.mask dir_path e.name >>= λ sent. ok (some (f_sigtype_inotify, e.mask, sent))

pub box_round-handled :
    (b : Box) (before : ℕ × ℕ) (e : InotifyEvent) (rest : List ℕ)
    → IsPlain e
    → EndsWord rest
    → box_round b before (print f_sigtype_inotify ++ (b' ' ∷ (event_text e ++ rest))) ≡ handled b e
unfolding box_round
box_round-handled b (x, y) e rest (mask, wd, pos, plain) ends =
    let after = b' ' ∷ (print e.wd ++ (b' ' ∷ (e.name ++ rest))) in
    let text = print f_sigtype_inotify ++ (b' ' ∷ (print e.mask ++ after)) in
    rw (event_text-append e rest wd) (
      rw (first_number x y 3 e.mask after (omega arith) (omega arith) refl) (
        rw (second_number x y 3 e.mask after (omega arith) (omega arith) refl) (
          rw (read_new_int-print text e.wd (b' ' ∷ (e.name ++ rest)) wd refl)
            (rw (read_word-name text e.name rest pos plain ends) refl))))
