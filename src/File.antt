-- ===== src/File.antt =====
-- src/file.cpp: a file of a box, its metadata on the disk and its form on the wire. The stream to the
-- file is opened when it is needed and is not part of the record.
pub mod Disk
pub mod Codec
pub mod Tests
use flocksy.Prelude.{
  ℕ, ◌+◌, ◌-◌, ◌%◌, ◌^◌, Bool, true, false, ◌&&◌, ◌||◌, not, List, [], ◌∷◌, ◌++◌, Option, none,
  some, Result, ok, fault, ◌>>=◌, undefined, range_error, filesystem_error, if◌then◌else◌, ◌==◌,
  ltb, leb, length, replicate, take,
}
use Disk.{FileSystem}

abbrev pub f_maximum_path_length : ℕ
f_maximum_path_length = 128

abbrev pub f_maximum_file_package_size : ℕ
f_maximum_file_package_size = 4096

-- boost::filesystem::file_type.
abbrev pub regular_file : ℕ
regular_file = 2

abbrev pub directory_file : ℕ
directory_file = 3

-- `path` is the array of 128 bytes; `box_hash` is the pointer, which may be null.
pub record File : Type 0 where
  pub box_path : List ℕ
  pub box_hash : Option (List ℕ)
  pub bpath : List ℕ
  pub path : List ℕ
  pub mode : ℕ
  pub mtime : ℕ
  pub type : ℕ
  pub size : ℕ
  pub deleted_file : Bool

unfoldable pub ends_with_slash : List ℕ → Bool
ends_with_slash [] = false
ends_with_slash (c ∷ []) = c == b'/'
ends_with_slash (c ∷ d ∷ cs) = ends_with_slash (d ∷ cs)

abbrev starts_with_slash : List ℕ → Bool
starts_with_slash [] = false
starts_with_slash (c ∷ cs) = c == b'/'

unfoldable pub pop_back : List ℕ → List ℕ
pop_back [] = []
pop_back (c ∷ []) = []
pop_back (c ∷ d ∷ cs) = c ∷ pop_back (d ∷ cs)

unfoldable pub construct_path : List ℕ → List ℕ → List ℕ
unfolding ends_with_slash pop_back
construct_path box_path path =
    if not (ends_with_slash box_path) && not (starts_with_slash path)
    then box_path ++ b'/' ∷ path
    else if ends_with_slash box_path && starts_with_slash path
    then pop_back box_path ++ path
    else box_path ++ path

-- File(box_path, box_hash).
abbrev pub empty_file : List ℕ → List ℕ → File
empty_file box_path box_hash = record {
  box_path = box_path;
  box_hash = some box_hash;
  bpath = [];
  path = replicate f_maximum_path_length 0;
  mode = 0;
  mtime = 0;
  type = 0;
  size = 0;
  deleted_file = false;
}

-- `std::copy(path.begin(), path.end(), path_.begin())`, which writes behind a path_ that is too short.
unfoldable pub copy_path : List ℕ → Result (List ℕ)
copy_path path =
    if ltb f_maximum_path_length (length path)
    then fault undefined
    else ok (path ++ replicate (f_maximum_path_length - length path) 0)

module _ (fs : FileSystem) where
  open fs use {
    Disk, exists, file_type, permissions, last_write_time, file_size, parent_path, create_file,
    create_directory, set_permissions, set_last_write_time, resize_file, read_at, write_at,
  }

  create_missing : List ℕ → List ℕ → ℕ → Disk → Result Disk
  unfolding ends_with_slash
  create_missing path bpath type disk =
      let parent =
        if ends_with_slash path then parent_path (parent_path bpath) else parent_path bpath in
      if not (exists parent disk)
      then fault filesystem_error
      else if type == regular_file
      then ok (create_file bpath disk)
      else if type == directory_file
      then create_directory bpath disk
      else fault filesystem_error

  unfoldable pub check_arguments : List ℕ → List ℕ → ℕ → Bool → Disk → Result Disk
  unfolding create_missing
  check_arguments path bpath type create disk =
      if ltb f_maximum_path_length (length path)
      then fault range_error
      else if exists bpath disk
      then ok disk
      else if create
      then create_missing path bpath type disk
      else fault filesystem_error

  -- File(box_path, box_hash, path): a file that is there.
  unfoldable pub existing_file : List ℕ → List ℕ → List ℕ → Disk → Result File
  existing_file box_path box_hash path disk =
      let bpath = construct_path box_path path in
      if not (exists bpath disk) then fault filesystem_error else do
        d ← check_arguments path bpath (file_type bpath disk) false disk
        path' ← copy_path path
        ok (record {
          box_path = box_path;
          box_hash = some box_hash;
          bpath = bpath;
          path = path';
          mode = permissions bpath disk;
          mtime = last_write_time bpath disk % 2 ^ 32;
          type = file_type bpath disk;
          size = if file_type bpath disk == regular_file then file_size bpath disk else 0;
          deleted_file = false;
        })

  -- File(box_path, box_hash, path, create, deleted_file).
  unfoldable pub deleted_file_at : List ℕ → List ℕ → List ℕ → Result File
  deleted_file_at box_path box_hash path = do
    path' ← copy_path path
    ok (record (empty_file box_path box_hash) { path = path'; deleted_file = true })

  unfoldable pub store_metadata : File → Disk → Result Disk
  store_metadata f disk = do
    d ← set_permissions f.bpath f.mode disk
    set_last_write_time f.bpath f.mtime d

  unfoldable pub resize : File → Disk → Result Disk
  resize f disk = if f.type == regular_file then resize_file f.bpath f.size disk else ok disk

  -- File::create opens a regular file for reading and writing, which does not make one.
  unfoldable pub create : File → Disk → Result Disk
  create f disk =
      if f.type == regular_file
      then ok disk
      else if f.type == directory_file
      then create_directory f.bpath disk
      else fault range_error

  -- File::readFileData: the bytes, and `*more`, which a deleted file leaves as it was.
  unfoldable pub read_file_data : File → ℕ → ℕ → Bool → Disk → List ℕ × Bool
  read_file_data f size offset more disk =
      let count =
        if leb f.size f_maximum_file_package_size && leb f.size size
        then f.size
        else if ltb size f_maximum_file_package_size
        then size
        else f_maximum_file_package_size in
      let bytes = read_at f.bpath offset count disk in
      if f.deleted_file then ([], more) else (bytes, ltb (offset + length bytes) f.size)

  -- File::storeFileData.
  unfoldable pub store_file_data : File → List ℕ → ℕ → ℕ → Disk → Result Disk
  store_file_data f bytes size offset disk =
      let count =
        if leb f.size f_maximum_file_package_size && leb f.size size
        then f.size
        else if ltb size f_maximum_file_package_size
        then size
        else f_maximum_file_package_size in
      if f.deleted_file
      then ok disk
      else if ltb (length bytes) count
      then fault undefined
      else set_last_write_time f.bpath f.mtime (write_at f.bpath offset (take count bytes) disk)
