-- ===== src/StreamInitializer/Faults.antt =====
-- Where a panic of `initialize` comes from, and what Rust's types say of the storage's answers.
use transaction_log.Common.{List, Option, Outcome, dropped, err, ok, panicked, some, stuck, ℕ, ◌≡◌}
use transaction_log.Record.RecordId.{IsRecordId}
use transaction_log.Record.StreamId.{StreamId}
use transaction_log.Location.LogFileNumber.{IsLogFileNumber}
use transaction_log.Location.LogFileId.{LogFileId}
use transaction_log.Location.Endpoints.{RecordEndLocation}
use transaction_log.PairValidator.Validator as Pair
use transaction_log.Storage.Provider.{StreamCheckpoint, Provider}

-- A call that panics, or that the fuel was not enough for.
abbrev pub Faults : {E A : Type 0} → Outcome E A → Type 0
Faults (ok a) = ⊥
Faults (err e) = ⊥
Faults dropped = ⊥
Faults panicked = Unit {0}
Faults stuck = Unit {0}

module _ {W H : Type 0} (crc32c : List ℕ → ℕ) (provider : Provider W H) (reserve : ℕ → ℕ → ℕ → ℕ)
    (fuel : ℕ) where
  -- The validation of some pair does.
  abbrev pub PairFault : Type 0
  PairFault =
      (f : LogFileId) × (t : Option RecordEndLocation) × (w : W) × Faults
        (Pair.validate crc32c provider reserve fuel f t w).0

  -- The validation of some pair does, or some call of the storage.
  pub data Fault : Type 0 where
    in_pair : PairFault → Fault
    in_read : (s : StreamId) (w : W) → Faults (provider.read_checkpoint s w).0 → Fault
    in_maximum : (s : StreamId) (w : W) → Faults (provider.maximum_log_file s w).0 → Fault
    in_remove :
        (first last : LogFileId) (w : W)
        → Faults (provider.remove_log_and_index first last w).0
        → Fault
    in_write : (c : StreamCheckpoint) (w : W) → Faults (provider.write_checkpoint c w).0 → Fault
    in_create : (f : LogFileId) (w : W) → Faults (provider.create_log_and_index f w).0 → Fault

-- The numbers in what the storage answers are those of their Rust types: the sequence number of a
-- checkpoint is a `u64`, and a file number is a `LogFileNumber`.
pub record IsTyped {W H : Type 0} (provider : Provider W H) : Type 0 where
  pub checkpoint :
      (s : StreamId) (w : W) (c : StreamCheckpoint)
      → (provider.read_checkpoint s w).0 ≡ ok (some c)
      → IsRecordId c.end.record_id
  pub maximum :
      (s : StreamId) (w : W) (m : LogFileId)
      → (provider.maximum_log_file s w).0 ≡ ok (some m)
      → IsLogFileNumber m.file_number
