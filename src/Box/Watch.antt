-- ===== src/Box/Watch.antt =====
-- The loop of Box::run, and the paths of the watched directories.
use flocksy.Prelude.{
  ℕ, ◌/◌, ◌%◌, ◌^◌, Bool, ◌&&◌, ◌||◌, List, [], ◌∷◌, ◌++◌, Option, none, some, Result, ok, fault,
  undefined, out_of_range, ◌>>=◌, if◌then◌else◌, ◌==◌, leb, length, drop,
}
use flocksy.Constants.{f_sigtype_life, f_siglife_interrupt, f_sigtype_inotify}
use flocksy.Stream.{open_stream, read_int, read_new_int, read_word}
use flocksy.Stream.Decimal.{print, print_int}

-- The members that run uses; a directory stands for its path.
pub record Box : Type 0 where
  pub path : List ℕ
  pub watch_descriptors : List (ℕ × List ℕ)
  pub box_hash : List ℕ

-- `watch_descriptors_.at(wd)`.
unfoldable pub at : ℕ → List (ℕ × List ℕ) → Result (List ℕ)
at wd [] = fault out_of_range
at wd ((key, dir) ∷ more) = let rest = at wd more in if key == wd then ok dir else rest

-- getPathOfDirectory: the path behind that of the box.
unfoldable pub get_path_of_directory : Box → ℕ → Result (List ℕ)
unfolding at
get_path_of_directory b wd = do
  path_string ← at wd b.watch_descriptors
  let base = length b.path
  if leb base (length path_string) then ok (drop base path_string) else fault out_of_range

-- The bits of sys/inotify.h. IN_MOVE is both IN_MOVED_FROM and IN_MOVED_TO.
abbrev pub has_bit : ℕ → ℕ → Bool
has_bit mask k = mask / 2 ^ k % 2 == 1

abbrev pub in_modify : ℕ → Bool
in_modify mask = has_bit mask 1

abbrev pub in_attrib : ℕ → Bool
in_attrib mask = has_bit mask 2

abbrev pub in_move : ℕ → Bool
in_move mask = has_bit mask 6 && has_bit mask 7

abbrev pub in_create : ℕ → Bool
in_create mask = has_bit mask 8

abbrev pub in_delete : ℕ → Bool
in_delete mask = has_bit mask 9

abbrev pub in_delete_self : ℕ → Bool
in_delete_self mask = has_bit mask 10

abbrev pub in_move_self : ℕ → Bool
in_move_self mask = has_bit mask 11

-- `status`, which is not set before the tests.
unfoldable pub status_of_mask : ℕ → Result ℕ
status_of_mask mask =
    if in_modify mask || (in_move mask || in_move_self mask)
    then ok 300
    else if in_create mask || (in_attrib mask || in_delete mask)
    then ok 320
    else fault undefined

-- `name.c_str()`.
unfoldable pub c_str : List ℕ → List ℕ
c_str [] = []
c_str (c ∷ cs) = let rest = c_str cs in if c == 0 then [] else c ∷ rest

unfoldable pub box_message : Box → ℕ → ℕ → List ℕ → List ℕ → List ℕ
box_message b status mask dir_path name =
    print f_sigtype_inotify
    ++ (b' '
        ∷ (print status
            ++ (b' '
                ∷ (print_int mask ++ (b.box_hash ++ (b' ' ∷ (dir_path ++ (b'/' ∷ c_str name))))))))

-- What is sent for a mask.
unfoldable pub send_event : Box → ℕ → List ℕ → List ℕ → Result (List (List ℕ))
send_event b mask dir_path name =
    if in_delete_self mask
    then ok []
    else status_of_mask mask >>= λ status. ok (box_message b status mask dir_path name ∷ [])

-- A round of run, for the text that s_recv_in gives: `none` for the break, and otherwise the numbers that were read and
-- the messages that go to the boxoffice.
unfoldable pub box_round : Box → ℕ × ℕ → List ℕ → Result (Option (ℕ × ℕ × List (List ℕ)))
box_round b (before_type, before_signal) text =
    let (msg_type, s₁) = read_int before_type (open_stream text) in
    let (msg_signal, s₂) = read_int before_signal s₁ in
    let event = do
      (wd, s₃) ← read_new_int s₂
      let name = (read_word [] s₃).0
      dir_path ← get_path_of_directory b wd
      sent ← send_event b msg_signal dir_path name
      ok (some (msg_type, msg_signal, sent))
    in if msg_type == f_sigtype_life && msg_signal == f_siglife_interrupt then ok none else event

-- run, for the texts in the order of their arrival: what is sent.
unfoldable pub box_run : Box → ℕ × ℕ → List (List ℕ) → Result (List (List ℕ))
box_run b before [] = ok []
box_run b before (text ∷ texts) =
    let further = λ (signal : ℕ × ℕ). box_run b signal texts in
    box_round b before text >>= λ round. elim round [
      | none ↦ ok []
      | some r ↦ further (r.0, r.1) >>= λ sent. ok (r.2 ++ sent)
    ]
