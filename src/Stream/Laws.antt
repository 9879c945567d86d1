-- ===== src/Stream/Laws.antt =====
-- Reading back what was written to a stream.
use flocksy.Prelude.{
  ℕ, suc, ap, ◌^◌, ◌<◌, ◌∙◌, ◌+◌, ◌≤◌, ◌≡◌, refl, true, false, List, ◌∷◌, ◌++◌, ok, arith, length,
  take-append, drop-append, length-append, ltb, ◌==◌,
}
use flocksy.Stream.Decimal.{is_digit, read_digits, print, NoDigit, read_digits-print, print-head}
use flocksy.Stream.{Stream, is_space, skip_spaces, read_new_int, read, seek_cur, read_int, int_max}

-- A stream that has not failed, with the given text left.
abbrev pub reading : List ℕ → List ℕ → Stream
reading buffer rest = record { buffer = buffer; rest = rest; failed = false }

module _ (buffer : List ℕ) (before : ℕ) where
  pub read_int-digits :
      (c : ℕ) (cs : List ℕ) (value : ℕ) (rest : List ℕ)
      → is_digit c ≡ true
      → read_digits 0 (c ∷ cs) ≡ (value, rest)
      → value ≤ int_max
      → read_int before (reading buffer (c ∷ cs)) ≡ (value, reading buffer rest)
  unfolding read_int
  read_int-digits c cs value rest digit e le =
      let no_space : is_space c ≡ false = ground arith in
      let no_minus : (c == b'-') ≡ false = ground arith in
      let no_plus : (c == b'+') ≡ false = ground arith in
      let small : ltb int_max value ≡ false = ground arith in
      rw no_space (rw (no_minus, no_plus, digit) (rw e (rw small refl)))

  -- Too large a number gives the bound of int, so a bound from below stays true.
  pub read_int-ge :
      (c : ℕ) (cs : List ℕ) (k : ℕ)
      → is_digit c ≡ true
      → k ≤ (read_digits 0 (c ∷ cs)).0
      → k ≤ int_max
      → k ≤ (read_int before (reading buffer (c ∷ cs))).0
  unfolding read_int
  read_int-ge c cs k digit le small =
      let no_space : is_space c ≡ false = ground arith in
      let no_minus : (c == b'-') ≡ false = ground arith in
      let no_plus : (c == b'+') ≡ false = ground arith in
      rw no_space (rw (no_minus, no_plus, digit) (ground arith))

  pub read_int-print :
      (n : ℕ) (rest : List ℕ)
      → n ≤ int_max
      → NoDigit rest
      → read_int before (reading buffer (print n ++ rest)) ≡ (n, reading buffer rest)
  read_int-print n rest le no_digit =
      let (d, ds, lt, e) = print-head n in
      rw e (
        read_int-digits (b'0' + d) (ds ++ rest) n rest (ground arith)
          (rw e at (read_digits-print n rest no_digit)) le)

  -- Blanks in front of a number are skipped.
  pub read_int-space :
      (cs : List ℕ)
      → read_int before (reading buffer (32 ∷ cs)) ≡ read_int before (reading buffer cs)
  unfolding read_int
  read_int-space cs = refl

-- Reading as many bytes as were written gives them back.
pub read-append :
    (buffer xs ys : List ℕ) (n : ℕ)
    → length xs ≡ n
    → read n (reading buffer (xs ++ ys)) ≡ ok (xs, reading buffer ys)
unfolding read
read-append buffer xs ys n e =
    let enough : ltb (length (xs ++ ys)) n ≡ false = ground (arith, length-append xs ys) in
    rw (enough, ← e, take-append xs ys, drop-append xs ys) refl

pub seek_cur-cons :
    (buffer : List ℕ) (c : ℕ) (cs : List ℕ)
    → seek_cur 1 (reading buffer (c ∷ cs)) ≡ reading buffer cs
unfolding seek_cur
seek_cur-cons buffer c cs = ground arith

print-visible : (n : ℕ) (rest : List ℕ) → (length (skip_spaces (print n ++ rest)) == 0) ≡ false
unfolding skip_spaces
print-visible n rest =
    let (d, ds, lt, e) = print-head n in
    let no_space : is_space (b'0' + d) ≡ false = ground arith in
    rw e (rw no_space (nonzero (length (ds ++ rest))))
  where
    nonzero : (n : ℕ) → (suc n == 0) ≡ false
    nonzero n = ground arith

pub read_new_int-print :
    (buffer : List ℕ) (n : ℕ) (rest : List ℕ)
    → n < 2 ^ 31
    → NoDigit rest
    → read_new_int (reading buffer (b' ' ∷ (print n ++ rest))) ≡ ok (n, reading buffer rest)
unfolding read_new_int skip_spaces
read_new_int-print buffer n rest small end = rw (print-visible n rest) (
    ap ok (
      read_int-space buffer 0 (print n ++ rest) ∙ read_int-print buffer 0 n rest (omega arith) end))

pub read_new_int-first :
    (n : ℕ) (rest : List ℕ)
    → n < 2 ^ 31
    → NoDigit rest
    → let text = print n ++ rest in read_new_int (reading text text) ≡ ok (n, reading text rest)
unfolding read_new_int
read_new_int-first n rest small end =
    rw (print-visible n rest) (ap ok (read_int-print (print n ++ rest) 0 n rest (omega arith) end))
