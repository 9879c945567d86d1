-- ===== src/Box/Inotify.antt =====
-- s_recv_in of src/constants.cpp: what inotify reports, as text.
use flocksy.Prelude.{ℕ, List, [], ◌∷◌, ◌++◌, Option, none, some}
use flocksy.Stream.Decimal.{print, print_int}
use flocksy.Constants.{f_sigtype_inotify}
use flocksy.Threads.Receive.{Message, first_part}

-- A struct inotify_event, with the text up to the zero byte of its name.
pub record InotifyEvent : Type 0 where
  pub mask : ℕ
  pub wd : ℕ
  pub name : List ℕ

abbrev pub event_text : InotifyEvent → List ℕ
event_text e = print e.mask ++ (b' ' ∷ (print_int e.wd ++ (b' ' ∷ e.name)))

-- The loop over the buffer.
unfoldable pub events_text : List InotifyEvent → List ℕ
events_text [] = []
events_text (e ∷ []) = event_text e
events_text (e ∷ f ∷ es) = event_text e ++ (10 ∷ events_text (f ∷ es))

abbrev inotify_text : Option (List InotifyEvent) → List ℕ
inotify_text none = []
inotify_text (some es) = print f_sigtype_inotify ++ (b' ' ∷ events_text es)

-- The events of one read from inotify, if it is ready (none of them if the read fails), the message of the broadcast,
-- if it is ready, and, if the other socket is ready, the message that comes next from the broadcast: that is where
-- the source receives it from.
unfoldable pub s_recv_in : Option (List InotifyEvent) → Option Message → Option Message → List ℕ
unfolding events_text first_part
s_recv_in events broadcast next_broadcast =
    inotify_text events ++ (first_part broadcast ++ first_part next_broadcast)
