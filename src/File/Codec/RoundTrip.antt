-- ===== src/File/Codec/RoundTrip.antt =====
-- What operator>> reads of what operator<< wrote.
use flocksy.Prelude.{
  ℕ, ◌+◌, ◌-◌, ◌/◌, ◌%◌, ◌^◌, ◌<◌, ◌≡◌, none, refl, subst, ap, ◌∙◌, true, false, List, [], ◌∷◌,
  ◌++◌, some, ok, ◌==◌, ltb, length, drop, arith, append_assoc, length-append, Bool-cases, inl, inr,
  Option, fault, out_of_range, suc,
}
use flocksy.Bytes.{to_be, from_be-to_be, length-to_be, bytes_eq}
use flocksy.Stream.{Stream, read_word, seek_back, is_space, span_word}
use flocksy.Stream.Laws.{reading, read-append}
use flocksy.File.{File, regular_file, f_maximum_path_length, construct_path, check_arguments}
use flocksy.File.Disk.{FileSystem}
use flocksy.File.Codec.{in_delete, encode_metadata, encode, decode, decode_metadata, decode_path}

-- A word is a prefix of the text, and the rest stands behind it.
span_word-append : (xs : List ℕ) → (span_word xs).0 ++ (span_word xs).1 ≡ xs
unfolding span_word
span_word-append [] = refl
span_word-append (x ∷ xs) = elim (Bool-cases (is_space x)) [
  | inl h ↦ rw h refl
  | inr h ↦ rw h (ap (◌∷◌ x) (span_word-append xs))
]

drop-suffix : (xs ys : List ℕ) (n : ℕ) → length xs ≡ n → drop n (xs ++ ys) ≡ ys
drop-suffix [] ys n h = rw (← h) refl
drop-suffix (x ∷ xs) ys n h = rw (← h) (drop-suffix xs ys (length xs) refl)

read_word-cons :
    (buffer : List ℕ) (c : ℕ) (cs : List ℕ)
    → is_space c ≡ false
    → read_word [] (reading buffer (c ∷ cs))
      ≡ (c ∷ (span_word cs).0, reading buffer (span_word cs).1)
unfolding read_word span_word
read_word-cons buffer c cs h = rw h (rw h (rw (suc-eq-zero (length (span_word cs).0)) refl))
  where
    suc-eq-zero : (n : ℕ) → (suc n == 0) ≡ false
    suc-eq-zero n = ground arith

seek_back-append :
    (front middle rest : List ℕ)
    → seek_back (length middle) (reading (front ++ (middle ++ rest)) rest)
      ≡ reading (front ++ (middle ++ rest)) (middle ++ rest)
unfolding seek_back
seek_back-append front middle rest =
    let total : length (front ++ (middle ++ rest)) ≡ length front + (length middle + length rest) =
      omega (arith, length-append front (middle ++ rest), length-append middle rest) in
    let inside : ltb (length (front ++ (middle ++ rest)) - length rest) (length middle) ≡ false =
      ground arith in
    rw inside (
      ap (reading (front ++ (middle ++ rest))) (drop-suffix front (middle ++ rest) _ (omega arith)))

-- Reading a word that begins at once and seeking back over it leaves the stream where it was.
pub seek_back-read_word :
    (front : List ℕ) (c : ℕ) (cs : List ℕ)
    → is_space c ≡ false
    → let s = reading (front ++ (c ∷ cs)) (c ∷ cs) in
      seek_back (length (read_word [] s).0) (read_word [] s).1 ≡ s
seek_back-read_word front c cs h =
    let w = (span_word cs).0 in
    let r = (span_word cs).1 in
    rw (read_word-cons (front ++ (c ∷ cs)) c cs h) (
      subst
        (λ t.
          seek_back (length (c ∷ w)) (reading (front ++ (c ∷ t)) r)
          ≡ reading (front ++ (c ∷ t)) (c ∷ t))
        (span_word-append cs) (seek_back-append front (c ∷ w) r))

-- A word that begins at once, and not with an I, is not the mark of a deleted file, and can be taken
-- back.
visible_word :
    (front xs : List ℕ) (c : ℕ) (cs : List ℕ)
    → xs ≡ c ∷ cs
    → is_space c ≡ false
    → (c == b'I') ≡ false
    → let s = reading (front ++ xs) xs in
      (seek_back (length (read_word [] s).0) (read_word [] s).1 ≡ s)
      × (bytes_eq (read_word [] s).0 in_delete ≡ false)
unfolding bytes_eq
visible_word front xs c cs e visible no_i = rw e (
  seek_back-read_word front c cs visible,
  rw (read_word-cons (front ++ (c ∷ cs)) c cs visible) (rw no_i refl),
)

-- The ranges of the fields on the wire, for a regular file whose permissions fit in twelve bits.
pub record FitsWire (f : File) : Type 0 where
  pub path_length : length f.path ≡ f_maximum_path_length
  pub mode_small : f.mode < 4096
  pub mode_visible : is_space (f.mode / 256) ≡ false
  pub regular : f.type ≡ regular_file
  pub mtime_small : f.mtime < 2 ^ 32
  pub size_small : f.size < 2 ^ 64

-- The receiver's file after it has read what `f` wrote.
abbrev pub received : File → File → File
received r f = record r {
  bpath = construct_path r.box_path f.path;
  path = f.path;
  mode = f.mode;
  type = f.type;
  mtime = f.mtime;
  size = f.size;
}

elim_some :
    {A B : Type 0} (o : Option A) (a : A) (n v : B)
    → o ≡ some a
    → elim o [ none ↦ n | some _ ↦ v ] ≡ v
elim_some none a n v e = absurd cc
elim_some (some x) a n v e = refl

abbrev fields : File → List ℕ → List ℕ
fields f rest = to_be 2 f.mode ++ (to_be 1 f.type ++ (to_be 4 f.mtime ++ (to_be 8 f.size ++ rest)))

module _ (fs : FileSystem) (r f : File) (disk disk' : fs.Disk) (fits : FitsWire f) where
  is_regular : (f.type == regular_file) ≡ true
  is_regular = ground arith

  decode_metadata-fields :
      (buffer rest : List ℕ)
      → check_arguments fs f.path (construct_path r.box_path f.path) f.type true disk ≡ ok disk'
      → decode_metadata fs (record r { path = f.path }) (reading buffer (fields f rest)) disk
        ≡ ok (received r f, reading buffer rest, disk')
  unfolding decode_metadata
  decode_metadata-fields buffer rest allowed =
      rw
        (read-append buffer (to_be 2 f.mode)
          (to_be 1 f.type ++ (to_be 4 f.mtime ++ (to_be 8 f.size ++ rest))) 2
          (length-to_be 2 f.mode))
        (rw
          (read-append buffer (to_be 1 f.type) (to_be 4 f.mtime ++ (to_be 8 f.size ++ rest)) 1
            (length-to_be 1 f.type))
          (rw
            (read-append buffer (to_be 4 f.mtime) (to_be 8 f.size ++ rest) 4
              (length-to_be 4 f.mtime))
            (rw
              (
                from_be-to_be 2 f.mode (omega arith),
                from_be-to_be 1 f.type (omega arith),
                from_be-to_be 4 f.mtime (omega arith),
              )
              (rw allowed (
                rw is_regular (
                  rw (read-append buffer (to_be 8 f.size) rest 8 (length-to_be 8 f.size))
                    (rw (from_be-to_be 8 f.size (omega arith)))))))))

  metadata_fields : (rest : List ℕ) → encode_metadata f ++ rest ≡ fields f rest
  unfolding encode_metadata
  metadata_fields rest = rw is_regular (simp append_assoc)

  first_byte :
      (rest : List ℕ)
      → fields f rest
        ≡ (f.mode / 256)
          ∷ ((f.mode % 256) ∷ (to_be 1 f.type ++ (to_be 4 f.mtime ++ (to_be 8 f.size ++ rest))))
  unfolding to_be
  first_byte rest = let e : f.mode / 256 % 256 ≡ f.mode / 256 = omega arith in rw e refl

  decode_path-metadata :
      (front rest : List ℕ)
      → check_arguments fs f.path (construct_path r.box_path f.path) f.type true disk ≡ ok disk'
      → let text = (front ++ f.path) ++ fields f rest in
        decode_path fs r (reading text (f.path ++ fields f rest)) disk
        ≡ ok (received r f, reading text rest, disk')
  unfolding decode_path
  decode_path-metadata front rest allowed =
      let text = (front ++ f.path) ++ fields f rest in
      let no_i : (f.mode / 256 == b'I') ≡ false = ground arith in
      let (back, kept) =
        visible_word (front ++ f.path) (fields f rest) _ _ (first_byte rest) fits.mode_visible
          no_i in
      rw (read-append text f.path (fields f rest) 128 fits.path_length)
        (rw (kept, back) (decode_metadata-fields text rest allowed))

  decode-bound :
      (hash : List ℕ)
      → r.box_hash ≡ some hash
      → (length r.box_path == 0) ≡ false
      → (s : Stream) → decode fs r s disk ≡ decode_path fs r s disk
  unfolding decode
  decode-bound hash bound nonempty s =
      elim_some r.box_hash hash (fault out_of_range) _ bound ∙ rw nonempty refl

  -- A regular file that is not deleted, has a hash, and fits the wire (a path of 128 bytes,
  -- permissions of twelve bits whose first byte does not count as a blank, a time of 32 and a size of
  -- 64 bits) is read back as it was written: operator<< writes the hash and then a text from which
  -- operator>>, on a File with a hash and a base directory, reads path, permissions, type, time and
  -- size of the sender, if checkArguments accepts them. The text may stand anywhere in a stream, the
  -- stream goes on right behind it, and the disk is the one that checkArguments leaves.
  pub decode-encode :
      (front rest hash hash' : List ℕ)
      → f.box_hash ≡ some hash
      → f.deleted_file ≡ false
      → r.box_hash ≡ some hash'
      → 0 < length r.box_path
      → check_arguments fs f.path (construct_path r.box_path f.path) f.type true disk ≡ ok disk'
      → (written : List ℕ) × (encode f ≡ ok (hash ++ written))
        × (decode fs r (reading (front ++ (written ++ rest)) (written ++ rest)) disk
            ≡ ok (received r f, reading (front ++ (written ++ rest)) rest, disk'))
  unfolding encode
  decode-encode front rest hash hash' own live bound named allowed =
      let nonempty : (length r.box_path == 0) ≡ false = ground arith in
      let tail' : (f.path ++ encode_metadata f) ++ rest ≡ f.path ++ fields f rest =
        append_assoc f.path (encode_metadata f) rest
        ∙ ap (λ t. f.path ++ t) (metadata_fields rest) in
      (
        f.path ++ encode_metadata f,
        rw own (rw live refl),
        decode-bound hash' bound nonempty _
            ∙ (rw tail' (
                rw (← append_assoc front f.path (fields f rest))
                  (decode_path-metadata front rest allowed))),
      )
