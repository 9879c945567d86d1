-- ===== src/Dispatcher/Tests.antt =====
-- The theorems about chunks at files on a disk that is full of sevens.
use flocksy.Prelude.{
  ℕ, ◌+◌, ◌≤◌, ◌↔◌, ◌≡◌, refl, ap, true, false, [], ◌∷◌, ◌++◌, none, some, ok, fault, undefined,
  arith, replicate, length, zero, suc,
}
use flocksy.Bytes.{be64}
use flocksy.Threads.Publisher.{pad}
use flocksy.File.{File, f_maximum_file_package_size}
use flocksy.File.Disk.{FileSystem}
use flocksy.File.Tests.{counting, sample}
use flocksy.Dispatcher.Transfer.{start, flag, transfer}
use flocksy.Dispatcher.Stop.{
  Dispatcher, received, quiet, fake_data, stops, stopped, synchronizing_stop,
}
use flocksy.Dispatcher.Stop.Order.{ordered, synchronizing_stop-signal}
use flocksy.Boxoffice.Sending.{signal}
use flocksy.FlockFsm.Statuses.{status_155, status_156}
use flocksy.Constants.{f_sigtype_fsm}
use flocksy.Stream.Decimal.{print}
use flocksy.Dispatcher.Stop.Window.{stops_iff}
use flocksy.Dispatcher.Chunks.{small_file-sent, large_file-undefined, deleted_file-endless}

abbrev sevens : FileSystem
sevens = record counting { read_at = λ _ _ n _. replicate n 7 }

length-replicate : (n : ℕ) → length {A = ℕ} (replicate n 7) ≡ n
length-replicate zero = refl
length-replicate (suc n) = ap suc (length-replicate n)

abbrev small : File
small = record sample { size = 3 }

abbrev deleted : File
deleted = record sample { deleted_file = true }

small_file-sent_example :
    transfer sevens small 0 4 start
    ≡ ok (
        some (record {
          message = [];
          data_size = 3;
          offset = f_maximum_file_package_size;
          more = false;
          sent =
              pad
                (f_maximum_file_package_size + 22)
                ((start.message ++ (be64 0 ++ (be64 3 ++ flag false))) ++ (7 ∷ 7 ∷ 7 ∷ []))
              ∷ [];
        }))
small_file-sent_example = small_file-sent sevens small 0 3 refl (omega arith) refl

large_file-undefined_example : transfer sevens sample 0 5 start ≡ fault undefined
large_file-undefined_example =
    large_file-undefined sevens sample 0 3 refl (omega arith)
      (length-replicate f_maximum_file_package_size)

deleted_file-endless_example : transfer sevens deleted 0 100 start ≡ ok none
deleted_file-endless_example = deleted_file-endless sevens deleted 0 100 refl

abbrev waiting : Dispatcher
waiting = record { current_status = 210; timing_offset = 5000; waiting_for_stop = true }

stops_iff_example :
    (stops waiting 5100 ≡ true) ↔ ((true ≡ true) × (5000 ≤ 5100) × (5100 ≤ 5000 + 1000000))
stops_iff_example = stops_iff waiting 5100 (omega arith) (omega arith) (omega arith)

synchronizing_stop-signal_example :
    synchronizing_stop waiting []
      (received (signal status_155 (be64 5000)) ∷ quiet 4000 ∷ quiet 5100 ∷ [])
    ≡ ok (
        stopped
          (ordered waiting 5000)
          (fake_data waiting ∷ fake_data waiting ∷ [])
          (print f_sigtype_fsm ++ (b' ' ∷ print status_156)))
synchronizing_stop-signal_example =
    synchronizing_stop-signal waiting [] 5000 (4000 ∷ []) 5100 [] (omega arith)
      ((omega arith, omega arith), tt) (omega arith) (omega arith) (omega arith)
