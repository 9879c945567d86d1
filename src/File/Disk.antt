-- ===== src/File/Disk.antt =====
-- What src/file.cpp asks of Boost.Filesystem and of std::fstream: a disk, and operations on paths.
-- Each is a parameter of the model; an operation that throws gives a fault.
use flocksy.Prelude.{ℕ, Bool, List, Result}

pub record FileSystem : Type 1 where
  pub Disk : Type 0
  pub exists : List ℕ → Disk → Bool
  pub file_type : List ℕ → Disk → ℕ
  pub permissions : List ℕ → Disk → ℕ
  pub last_write_time : List ℕ → Disk → ℕ
  pub file_size : List ℕ → Disk → ℕ
  pub parent_path : List ℕ → List ℕ
  pub create_file : List ℕ → Disk → Disk
  pub create_directory : List ℕ → Disk → Result Disk
  pub remove : List ℕ → Disk → Result Disk
  pub set_permissions : List ℕ → ℕ → Disk → Result Disk
  pub set_last_write_time : List ℕ → ℕ → Disk → Result Disk
  pub resize_file : List ℕ → ℕ → Disk → Result Disk
  pub read_at : List ℕ → ℕ → ℕ → Disk → List ℕ
  pub write_at : List ℕ → ℕ → List ℕ → Disk → Disk
