-- ===== src/Box/Delivery.antt =====
-- An inotify event on its way to the boxoffice.
use flocksy.Prelude.{
  ℕ, ◌^◌, ◌<◌, ◌≡◌, refl, sym, ◌∙◌, subst, false, List, [], ◌∷◌, ◌++◌, append-nil, none, some, ok,
  length, All, arith,
}
use flocksy.Stream.{Stream, read, read_int, read_word}
use flocksy.Stream.Decimal.{NoDigit, NoDigit-append, print, print_int-print}
use flocksy.Stream.Laws.{reading, read-append, read_int-print, read_int-space}
use flocksy.Constants.{f_sigtype_inotify}
use flocksy.Boxoffice.Clock.{read_signal}
use flocksy.Box.Inotify.{InotifyEvent, event_text, events_text, s_recv_in}
use flocksy.Box.Watch.{
  Box, get_path_of_directory, in_delete_self, status_of_mask, box_message, send_event, box_round,
}
use flocksy.Journey.Relay.{first_number, second_number}
use flocksy.Box.Reading.{
  IsNameByte, EndsWord, read_word-name, c_str-name, IsPlain, handled, box_round-handled,
}

-- What stands behind the first event of a read.
further : List InotifyEvent → List ℕ
further [] = []
further (f ∷ es) = 10 ∷ events_text (f ∷ es)

events_text-first :
    (e : InotifyEvent) (es : List InotifyEvent) → events_text (e ∷ es) ≡ event_text e ++ further es
unfolding events_text further
events_text-first e [] = sym (append-nil (event_text e))
events_text-first e (f ∷ es) = refl

further-EndsWord : (es : List InotifyEvent) → EndsWord (further es)
unfolding further
further-EndsWord [] = tt
further-EndsWord (f ∷ es) = refl

-- However many events one read from inotify brings, if the first has int values and a name without blanks and
-- no message is there, run handles this event only: it sends what it would send for it alone, and the other
-- events are lost.
pub box_round-first_event :
    (b : Box) (before : ℕ × ℕ) (e : InotifyEvent) (es : List InotifyEvent)
    → IsPlain e
    → box_round b before (s_recv_in (some (e ∷ es)) none none) ≡ handled b e
unfolding s_recv_in
box_round-first_event b before e es plain =
    rw (append-nil (print f_sigtype_inotify ++ (b' ' ∷ events_text (e ∷ es)))) (
      rw (events_text-first e es)
        (box_round-handled b before e (further es) plain (further-EndsWord es)))

-- An event in a watched directory.
abbrev pub IsReported : Box → InotifyEvent → List ℕ → ℕ → Type 0
IsReported b e dir status =
    (get_path_of_directory b e.wd ≡ ok dir)
    × (in_delete_self e.mask ≡ false)
    × (status_of_mask e.mask ≡ ok status)
    × (status < 2 ^ 31)
    × All IsNameByte dir
    × (length b.box_hash ≡ 64)
    × NoDigit b.box_hash

-- What the boxoffice reads at the head of its loop and for a local change: numbers, the hash of the box, and the path of
-- the file below the box.
abbrev pub Understood : Box → InotifyEvent → List ℕ → ℕ → ℕ × ℕ → List ℕ → Type 0
Understood b e dir status before text =
    (s₁ : Stream) × (s₂ : Stream) × (s₃ : Stream) × (s₄ : Stream) × (read_signal before text
      ≡ (f_sigtype_inotify, status, s₁))
    × (read_int 0 s₁ ≡ (e.mask, s₂))
    × (read 64 s₂ ≡ ok (b.box_hash, s₃))
    × (read_word [] s₃ ≡ (dir ++ (b'/' ∷ e.name), s₄))

All-path :
    (dir name : List ℕ)
    → All IsNameByte dir
    → All IsNameByte name
    → All IsNameByte (dir ++ (b'/' ∷ name))
All-path [] name h k = ((omega arith, refl), k)
All-path (c ∷ cs) name (h, hs) k = (h, All-path cs name hs k)

length-path : (dir name : List ℕ) → 0 < length (dir ++ (b'/' ∷ name))
length-path [] name = omega arith
length-path (c ∷ cs) name = omega arith

box_message-Understood :
    (b : Box) (e : InotifyEvent) (dir : List ℕ) (status : ℕ) (before : ℕ × ℕ)
    → IsPlain e
    → IsReported b e dir status
    → Understood b e dir status before (box_message b status e.mask dir e.name)
unfolding box_message read_signal
box_message-Understood b e dir status (x, y) (mask, wd, pos, plain)
      (path, self, code, small, dirs, len, digit) =
    let file = dir ++ (b'/' ∷ e.name) in
    let tail' = b.box_hash ++ (b' ' ∷ file) in
    let after = b' ' ∷ (print e.mask ++ tail') in
    let text = print f_sigtype_inotify ++ (b' ' ∷ (print status ++ after)) in
    (
      reading text after,
      reading text tail',
      reading text (b' ' ∷ file),
      reading text [],
      rw (print_int-print e.mask mask, c_str-name e.name plain)
          (rw (first_number x y 3 status after (omega arith) small refl)
            (rw (second_number x y 3 status after (omega arith) small refl) refl)),
      read_int-space text 0 (print e.mask ++ tail')
          ∙ read_int-print text 0 e.mask tail' (omega arith)
              (NoDigit-append b.box_hash (b' ' ∷ file) (omega arith) digit),
      read-append text b.box_hash (b' ' ∷ file) 64 len,
      subst (λ xs. read_word [] (reading text (b' ' ∷ xs)) ≡ (file, reading text []))
          (append-nil file)
          (read_word-name text file [] (length-path dir e.name) (All-path dir e.name dirs plain)
            tt),
    )

-- An event with int values and a name without blanks, in a watched directory whose path below the box has no blanks either,
-- whose mask has a status code (it is not the deletion of the directory), reaches the boxoffice: run
-- sends one message, and if the hash of the box has 64 bytes and does not begin with an ASCII digit,
-- the boxoffice reads from it the signal type 3 (F_SIGTYPE_INOTIFY), that status code, the mask, the hash of the
-- box, and the path of the file below the box.
pub event_delivered :
    (b : Box) (before before' : ℕ × ℕ) (e : InotifyEvent) (dir : List ℕ) (status : ℕ)
    → IsPlain e
    → IsReported b e dir status
    → (message : List ℕ) × (box_round b before (s_recv_in (some (e ∷ [])) none none)
        ≡ ok (some (f_sigtype_inotify, e.mask, message ∷ [])))
      × Understood b e dir status before' message
unfolding send_event
event_delivered b before before' e dir status plain h = (
  box_message b status e.mask dir e.name,
  box_round-first_event b before e [] plain ∙ rw h.0 (rw h.1 (rw h.2 refl)),
  box_message-Understood b e dir status before' plain h,
)
