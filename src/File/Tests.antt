-- ===== src/File/Tests.antt =====
-- The round trip of a file at a concrete file, on a disk that holds every path.
use flocksy.Prelude.{
  ℕ, suc, ◌≡◌, refl, true, false, List, [], ◌∷◌, ◌++◌, some, ok, arith, replicate,
}
use flocksy.Stream.Laws.{reading}
use flocksy.File.{File, construct_path, check_arguments, empty_file}
use flocksy.File.Disk.{FileSystem}
use flocksy.File.Codec.{encode, decode}
use flocksy.File.Codec.RoundTrip.{FitsWire, received, decode-encode}

-- A disk that knows how many operations changed it.
abbrev pub counting : FileSystem
counting = record {
  Disk = ℕ;
  exists = λ _ _. true;
  file_type = λ _ _. 2;
  permissions = λ _ _. 420;
  last_write_time = λ _ _. 0;
  file_size = λ _ _. 0;
  parent_path = λ path. path;
  create_file = λ _ n. suc n;
  create_directory = λ _ n. ok (suc n);
  remove = λ _ n. ok (suc n);
  set_permissions = λ _ _ n. ok (suc n);
  set_last_write_time = λ _ _ n. ok (suc n);
  resize_file = λ _ _ n. ok (suc n);
  read_at = λ _ _ _ _. [];
  write_at = λ _ _ _ n. suc n;
}

-- A file whose permissions are 0644 and whose path fills its array.
abbrev pub sample : File
sample = record {
  box_path = b'b' ∷ [];
  box_hash = some (1 ∷ 2 ∷ []);
  bpath = [];
  path = replicate 128 b'p';
  mode = 420;
  mtime = 1500000000;
  type = 2;
  size = 5000;
  deleted_file = false;
}

abbrev receiver : File
receiver = empty_file (b'c' ∷ []) (1 ∷ 2 ∷ [])

sample-FitsWire : FitsWire sample
sample-FitsWire = record {
  path_length = refl;
  mode_small = omega arith;
  mode_visible = refl;
  regular = refl;
  mtime_small = omega arith;
  size_small = omega arith;
}

check_sample :
    check_arguments counting sample.path
      (construct_path receiver.box_path sample.path)
      sample.type
      true
      0
    ≡ ok 0
unfolding check_arguments
check_sample = refl

decode-encode_example :
    (written : List ℕ) × (encode sample ≡ ok ((1 ∷ 2 ∷ []) ++ written))
    × (decode counting receiver
          (reading ((9 ∷ []) ++ (written ++ (8 ∷ []))) (written ++ (8 ∷ [])))
          0
        ≡ ok (received receiver sample, reading ((9 ∷ []) ++ (written ++ (8 ∷ []))) (8 ∷ []), 0))
decode-encode_example =
    decode-encode counting receiver sample 0 0 sample-FitsWire (9 ∷ []) (8 ∷ []) (1 ∷ 2 ∷ [])
      (1 ∷ 2 ∷ []) refl refl refl (omega arith) check_sample
