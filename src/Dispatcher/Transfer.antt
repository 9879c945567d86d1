-- ===== src/Dispatcher/Transfer.antt =====
-- `while (*more)` of Dispatcher::run.
use flocksy.Prelude.{
  ℕ, zero, suc, ◌+◌, Bool, true, false, List, [], ◌∷◌, ◌++◌, Option, none, some, Result, ok, fault,
  ◌>>=◌, undefined, if◌then◌else◌, ltb, length, take,
}
use flocksy.Constants.{f_sigtype_pub}
use flocksy.Bytes.{be64}
use flocksy.Stream.Decimal.{print}
use flocksy.Threads.Publisher.{pad}
use flocksy.FlockFsm.Statuses.{status_200}
use flocksy.File.{File, read_file_data, f_maximum_file_package_size}
use flocksy.File.Disk.{FileSystem}

-- The locals of the loop. `sent` has the last message first.
pub record Transfer : Type 0 where
  pub message : List ℕ
  pub data_size : ℕ
  pub offset : ℕ
  pub more : Bool
  pub sent : List (List ℕ)

-- The locals before the loop: the status is written into the first message only.
abbrev pub start : Transfer
start = record {
  message = print f_sigtype_pub ++ (b' ' ∷ print status_200);
  data_size = 0;
  offset = 0;
  more = true;
  sent = [];
}

-- The bool `more` as a byte.
abbrev pub flag : Bool → List ℕ
flag true = 1 ∷ []
flag false = 0 ∷ []

module _ (fs : FileSystem) (file : File) (disk : fs.Disk) where
  -- One round. `contents` is new in every round, so only the bytes of this round are set in it, and
  -- a write of more than these reads memory that is not.
  unfoldable pub chunk : Transfer → Result Transfer
  unfolding read_file_data pad
  chunk t =
      let (contents, more) =
        read_file_data fs file f_maximum_file_package_size t.offset t.more disk in
      let data_size = t.data_size + length contents in
      let head = t.message ++ (be64 t.offset ++ (be64 data_size ++ flag more)) in
      if ltb (length contents) data_size
      then fault undefined
      else ok (record {
        message = [];
        data_size = data_size;
        offset = t.offset + f_maximum_file_package_size;
        more = more;
        sent = pad (f_maximum_file_package_size + 22) (head ++ take data_size contents) ∷ t.sent;
      })

  -- The loop, for so many rounds; `none` when there is more to send after them.
  unfoldable pub transfer : ℕ → Transfer → Result (Option Transfer)
  unfolding chunk
  transfer zero t = if t.more then ok none else ok (some t)
  transfer (suc rounds) t =
      let rest = chunk t >>= λ t'. transfer rounds t' in if t.more then rest else ok (some t)
