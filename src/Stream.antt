-- ===== src/Stream.antt =====
-- std::stringstream as flocksy uses it: a text of bytes, what is left to read, and failbit. A value that
-- is read into an int is held as its 32-bit pattern.
pub mod Decimal
pub mod Laws
use flocksy.Prelude.{
  ℕ, zero, suc, ◌+◌, ◌-◌, ◌*◌, ◌^◌, ◌%◌, Bool, true, false, ◌&&◌, not, ◌||◌, List, [], ◌∷◌, ◌++◌,
  Result, ok, fault, undefined, if◌then◌else◌, ◌==◌, ltb, leb, length, take, drop,
}
use Decimal.{is_digit, read_digits}

pub record Stream : Type 0 where
  pub buffer : List ℕ
  pub rest : List ℕ
  pub failed : Bool

-- A stream that a text has been written to.
abbrev pub open_stream : List ℕ → Stream
open_stream text = record { buffer = text; rest = text; failed = false }

-- std::isspace of the classic locale.
abbrev pub is_space : ℕ → Bool
is_space c = c == 32 || (leb 9 c && leb c 13)

unfoldable pub skip_spaces : List ℕ → List ℕ
skip_spaces [] = []
skip_spaces (c ∷ cs) = if is_space c then skip_spaces cs else c ∷ cs

unfoldable pub span_word : List ℕ → List ℕ × List ℕ
span_word [] = ([], [])
span_word (c ∷ cs) =
    let (word, rest) = span_word cs in if is_space c then ([], c ∷ cs) else (c ∷ word, rest)

unfoldable pub span_line : List ℕ → List ℕ × List ℕ
span_line [] = ([], [])
span_line (c ∷ cs) =
    let (line, rest) = span_line cs in if c == 10 then ([], cs) else (c ∷ line, rest)

-- `stream.read(p, n)`: `undefined` if fewer than n bytes are there, since p is not set before.
unfoldable pub read : ℕ → Stream → Result (List ℕ × Stream)
read n s =
    if s.failed || ltb (length s.rest) n
    then fault undefined
    else ok (take n s.rest, record s { rest = drop n s.rest })

-- `stream.seekg(n, std::ios_base::cur)`, which does nothing on a failed stream. A position behind the
-- end fails.
unfoldable pub seek_cur : ℕ → Stream → Stream
seek_cur n s =
    if s.failed
    then s
    else if ltb (length s.rest) n
    then record s { failed = true }
    else record s { rest = drop n s.rest }

-- `stream.seekg(-n, std::ios_base::cur)`.
unfoldable pub seek_back : ℕ → Stream → Stream
seek_back n s =
    if s.failed
    then s
    else if ltb (length s.buffer - length s.rest) n
    then record s { failed = true }
    else record s { rest = drop (length s.buffer - length s.rest - n) s.buffer }

-- `stream.seekg(n, std::ios_base::beg)`.
unfoldable pub seek_beg : ℕ → Stream → Stream
seek_beg n s =
    if s.failed
    then s
    else if ltb (length s.buffer) n
    then record s { failed = true }
    else record s { rest = drop n s.buffer }

abbrev pub int_max : ℕ
int_max = 2147483647

-- The digits after an optional sign. No digit gives 0, too large a number the bound of int; both fail.
signed : Bool → List ℕ → List ℕ → ℕ × Stream
signed minus buffer [] = (0, record { buffer = buffer; rest = []; failed = true })
signed minus buffer (c ∷ cs) =
    let (value, rest) = read_digits 0 (c ∷ cs) in
    let accepted : Stream = record { buffer = buffer; rest = rest; failed = false } in
    let refused : Stream = record { buffer = buffer; rest = rest; failed = true } in
    if not (is_digit c)
    then (0, record { buffer = buffer; rest = c ∷ cs; failed = true })
    else if minus && ltb (int_max + 1) value
    then (int_max + 1, refused)
    else if minus
    then ((2 ^ 32 - value) % 2 ^ 32, accepted)
    else if ltb int_max value
    then (int_max, refused)
    else (value, accepted)

-- At the end of the text the value is left, as the extraction does not begin.
from_sign : ℕ → List ℕ → List ℕ → ℕ × Stream
unfolding signed
from_sign before buffer [] = (before, record { buffer = buffer; rest = []; failed = true })
from_sign before buffer (c ∷ cs) =
    if c == b'-'
    then signed true buffer cs
    else if c == b'+'
    then signed false buffer cs
    else signed false buffer (c ∷ cs)

-- `stream >> i` for an int i, given the value that i holds before: a failed stream leaves it.
unfoldable pub read_int : ℕ → Stream → ℕ × Stream
unfolding skip_spaces from_sign
read_int before s = if s.failed then (before, s) else from_sign before s.buffer (skip_spaces s.rest)

-- `stream >> i` for an int i that is not set: it stays so if there is nothing to read.
unfoldable pub read_new_int : Stream → Result (ℕ × Stream)
read_new_int s =
    if s.failed || length (skip_spaces s.rest) == 0 then fault undefined else ok (read_int 0 s)

-- `stream >> w` for a std::string w.
unfoldable pub read_word : List ℕ → Stream → List ℕ × Stream
unfolding skip_spaces span_word
read_word before s =
    if s.failed
    then (before, s)
    else let (word, rest) = span_word (skip_spaces s.rest) in
      (word, record s { rest = rest; failed = length word == 0 })

-- `std::getline(stream, line)`.
unfoldable pub get_line : List ℕ → Stream → List ℕ × Stream
unfolding span_line
get_line before s =
    if s.failed
    then (before, s)
    else let (line, rest) = span_line s.rest in
      (line, record s { rest = rest; failed = length s.rest == 0 })
