-- ===== src/File/Codec.antt =====
-- operator<< and operator>> of src/file.cpp, and what is read back.
pub mod RoundTrip
use flocksy.Prelude.{
  ℕ, ◌+◌, ◌-◌, ◌%◌, ◌^◌, Bool, true, false, ◌||◌, List, [], ◌∷◌, ◌++◌, Option, none, some, Result,
  ok, fault, ◌>>=◌, undefined, out_of_range, if◌then◌else◌, ◌==◌, length, drop,
}
use flocksy.Bytes.{to_be, from_be, bytes_eq}
use flocksy.Stream.{Stream, read, read_word, seek_back}
use flocksy.File.{File, regular_file, f_maximum_path_length, construct_path, check_arguments}
use flocksy.File.Disk.{FileSystem}

-- "IN_DELETE"; the '\0' behind it ends the literal that is written.
abbrev pub in_delete : List ℕ
in_delete = b'I' ∷ b'N' ∷ b'_' ∷ b'D' ∷ b'E' ∷ b'L' ∷ b'E' ∷ b'T' ∷ b'E' ∷ []

-- The metadata behind the path.
unfoldable pub encode_metadata : File → List ℕ
encode_metadata f =
    to_be 2 f.mode
    ++ (to_be 1 f.type
        ++ (to_be 4 f.mtime ++ to_be 8 (if f.type == regular_file then f.size else 0)))

-- operator<<, which reads through the pointer to the hash.
unfoldable pub encode : File → Result (List ℕ)
unfolding encode_metadata
encode f = elim f.box_hash [
  | none ↦ fault undefined
  | some hash ↦ ok (hash ++ (f.path ++ (if f.deleted_file then in_delete else encode_metadata f)))
]

module _ (fs : FileSystem) where
  open fs use {Disk, exists, remove}

  -- The branch of a deleted file: what is there is removed.
  decode_deleted : File → Stream → Disk → Result (File × Stream × Disk)
  decode_deleted f s disk = do
    let f' : File = record f { deleted_file = true; bpath = construct_path f.box_path f.path }
    disk' ← (if exists f'.bpath disk then remove f'.bpath disk else ok disk)
    ok (f', s, disk')

  -- The size is read of a regular file only.
  decode_size : File → Stream → Result (File × Stream)
  decode_size f s =
      let sized = read 8 s >>= λ (size, s'). ok (record f { size = from_be 0 size }, s') in
      if f.type == regular_file then sized else ok (f, s)

  decode_metadata : File → Stream → Disk → Result (File × Stream × Disk)
  unfolding decode_size
  decode_metadata f s disk = do
    (mode, s₁) ← read 2 s
    (type, s₂) ← read 1 s₁
    (mtime, s₃) ← read 4 s₂
    let f' : File = record f {
      bpath = construct_path f.box_path f.path;
      mode = from_be 0 mode;
      type = from_be 0 type;
      mtime = from_be 0 mtime;
    }
    disk' ← check_arguments fs f'.path f'.bpath f'.type true disk
    (f'', s₄) ← decode_size f' s₃
    ok (f'', s₄, disk')

  decode_path : File → Stream → Disk → Result (File × Stream × Disk)
  decode_path f s disk = do
    (path, s₁) ← read f_maximum_path_length s
    let f' : File = record f { path = path }
    let (word, s₂) = read_word [] s₁
    (if bytes_eq word in_delete
        then decode_deleted f' s₂ disk
        else decode_metadata f' (seek_back (length word) s₂) disk)

  -- operator>>.
  unfoldable pub decode : File → Stream → Disk → Result (File × Stream × Disk)
  unfolding decode_path decode_deleted decode_metadata
  decode f s disk = elim f.box_hash [
    | none ↦ fault out_of_range
    | some hash ↦ if length f.box_path == 0 then fault out_of_range else decode_path f s disk
  ]
