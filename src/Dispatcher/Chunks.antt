-- ===== src/Dispatcher/Chunks.antt =====
-- What becomes of small, large and deleted files.
use flocksy.Prelude.{
  ℕ, zero, suc, ◌+◌, ◌≡◌, ◌≤◌, ◌<◌, refl, Bool, true, false, List, [], ◌∷◌, ◌++◌, none, some, ok,
  fault, undefined, ltb, leb, length, take, arith,
}
use flocksy.Bytes.{be64}
use flocksy.Threads.Publisher.{pad}
use flocksy.File.{File, read_file_data, f_maximum_file_package_size}
use flocksy.File.Disk.{FileSystem}
use flocksy.Dispatcher.Transfer.{Transfer, start, flag, chunk, transfer}

take-all : (xs : List ℕ) → take (length xs) xs ≡ xs
take-all [] = refl
take-all (x ∷ xs) = rw (take-all xs) refl

module _ (fs : FileSystem) (file : File) (disk : fs.Disk) where
  -- What the next round sends, of contents that begin the file.
  abbrev next : Transfer → List ℕ → Bool → Transfer
  next t contents more = record {
    message = [];
    data_size = length contents;
    offset = t.offset + f_maximum_file_package_size;
    more = more;
    sent =
        pad (f_maximum_file_package_size + 22)
          ((t.message ++ (be64 t.offset ++ (be64 (length contents) ++ flag more))) ++ contents)
        ∷ t.sent;
  }

  chunk-first :
      (t : Transfer) (contents : List ℕ) (more : Bool)
      → read_file_data fs file f_maximum_file_package_size t.offset t.more disk ≡ (contents, more)
      → t.data_size ≡ 0
      → chunk fs file disk t ≡ ok (next t contents more)
  unfolding chunk
  chunk-first t contents more read first =
      let zero_add : 0 + length contents ≡ length contents = omega arith in
      let inside : ltb (length contents) (length contents) ≡ false = ground arith in
      rw read (rw first (rw zero_add (rw inside (rw (take-all contents) refl))))

  chunk-later : (t : Transfer) → 0 < t.data_size → chunk fs file disk t ≡ fault undefined
  unfolding chunk
  chunk-later t positive =
      let contents = (read_file_data fs file f_maximum_file_package_size t.offset t.more disk).0 in
      let outside : ltb (length contents) (t.data_size + length contents) ≡ true = ground arith in
      rw outside refl

  read-small :
      (offset : ℕ) (more : Bool)
      → file.deleted_file ≡ false
      → file.size ≤ f_maximum_file_package_size
      → length (fs.read_at file.bpath offset file.size disk) ≡ file.size
      → read_file_data fs file f_maximum_file_package_size offset more disk
        ≡ (fs.read_at file.bpath offset file.size disk, false)
  unfolding read_file_data
  read-small offset more kept small whole =
      let fits : leb file.size f_maximum_file_package_size ≡ true = ground arith in
      let last : ltb (offset + file.size) file.size ≡ false = ground arith in
      rw kept (rw fits (rw whole (rw last refl)))

  read-large :
      (more : Bool)
      → file.deleted_file ≡ false
      → f_maximum_file_package_size < file.size
      → length (fs.read_at file.bpath 0 f_maximum_file_package_size disk)
        ≡ f_maximum_file_package_size
      → read_file_data fs file f_maximum_file_package_size 0 more disk
        ≡ (fs.read_at file.bpath 0 f_maximum_file_package_size disk, true)
  unfolding read_file_data
  read-large more kept large whole =
      let over : leb file.size f_maximum_file_package_size ≡ false = ground arith in
      let left : ltb f_maximum_file_package_size file.size ≡ true = ground arith in
      rw kept (rw over (rw whole (rw left refl)))

  read-deleted :
      (offset : ℕ)
      → file.deleted_file ≡ true
      → read_file_data fs file f_maximum_file_package_size offset true disk ≡ ([], true)
  unfolding read_file_data
  read-deleted offset gone = rw gone refl

  stopped :
      (rounds : ℕ) (t : Transfer) → t.more ≡ false → transfer fs file disk rounds t ≡ ok (some t)
  unfolding transfer
  stopped zero t done = rw done refl
  stopped (suc rounds) t done = rw done refl

  endless :
      (rounds : ℕ) (t : Transfer)
      → file.deleted_file ≡ true
      → t.more ≡ true
      → t.data_size ≡ 0
      → transfer fs file disk rounds t ≡ ok none
  unfolding transfer
  endless zero t gone more first = rw more refl
  endless (suc rounds) t gone more first =
      let read : read_file_data fs file f_maximum_file_package_size t.offset t.more disk
          ≡ ([], true) =
        rw more (read-deleted t.offset gone) in
      rw (chunk-first t [] true read first)
        (rw more (endless rounds (next t [] true) gone refl refl))

  -- A file of at most 4096 bytes, all of which can be read, is sent in one message: the head with the
  -- status code 200, the offset 0, the size, the mark that nothing follows, and the bytes, filled up
  -- with blanks. One round is enough.
  pub small_file-sent :
      (rounds : ℕ)
      → file.deleted_file ≡ false
      → file.size ≤ f_maximum_file_package_size
      → length (fs.read_at file.bpath 0 file.size disk) ≡ file.size
      → transfer fs file disk (suc rounds) start
        ≡ ok (
            some (record {
              message = [];
              data_size = file.size;
              offset = f_maximum_file_package_size;
              more = false;
              sent =
                  pad (f_maximum_file_package_size + 22) (
                    (start.message ++ (be64 0 ++ (be64 file.size ++ flag false)))
                    ++ fs.read_at file.bpath 0 file.size disk)
                  ∷ [];
            }))
  unfolding transfer
  small_file-sent rounds kept small whole =
      rw (chunk-first start _ false (read-small 0 true kept small whole) refl)
        (rw whole (stopped rounds _ refl))

  -- A file of more than 4096 bytes is never sent: in the second round data_size, which adds up, is
  -- larger than what the round has read, and memory that is not set is sent.
  pub large_file-undefined :
      (rounds : ℕ)
      → file.deleted_file ≡ false
      → f_maximum_file_package_size < file.size
      → length (fs.read_at file.bpath 0 f_maximum_file_package_size disk)
        ≡ f_maximum_file_package_size
      → transfer fs file disk (suc (suc rounds)) start ≡ fault undefined
  unfolding transfer
  large_file-undefined rounds kept large whole =
      let contents = fs.read_at file.bpath 0 f_maximum_file_package_size disk in
      rw (chunk-first start contents true (read-large true kept large whole) refl)
        (rw (chunk-later (next start contents true) (rw whole (omega arith))) refl)

  -- The loop never ends for a deleted file: after any number of rounds there is more to send.
  pub deleted_file-endless :
      (rounds : ℕ) → file.deleted_file ≡ true → transfer fs file disk rounds start ≡ ok none
  deleted_file-endless rounds gone = endless rounds start gone refl refl
