-- ===== src/Storage/Provider.antt =====
-- The calls of `StorageProvider` that recovery makes, with storage_error.rs and stream_checkpoint.rs.
use transaction_log.Common.{Exec, Option, ℕ}
use transaction_log.Io.Error.{IoError}
use transaction_log.Io.File.{ValidationFile}
use transaction_log.Record.StreamId.{StreamId}
use transaction_log.Location.LogFileId.{LogFileId}
use transaction_log.Location.Endpoints.{RecordEndLocation}
use transaction_log.Storage.Paths.{FilePath}

-- The cause of a failure in JSON is left out.
pub data StorageError : Type 0 where
  io : FilePath → IoError → StorageError
  json : FilePath → StorageError
  too_large : FilePath → (max_bytes : ℕ) → StorageError

pub record StreamCheckpoint : Type 0 where
  pub end : RecordEndLocation

-- The disk is a state `W`, and an open file a handle `H`, whose calls act on the disk.
pub record Provider (W H : Type 0) : Type 0 where
  pub root : FilePath
  pub file : H → ValidationFile W
  pub open_log_for_validation : LogFileId → Exec W StorageError H
  pub open_index_for_repair : LogFileId → Exec W StorageError H
  pub read_checkpoint : StreamId → Exec W StorageError (Option StreamCheckpoint)
  pub write_checkpoint : StreamCheckpoint → Exec W StorageError (Unit {0})
  pub maximum_log_file : StreamId → Exec W StorageError (Option LogFileId)
  pub create_log_and_index : LogFileId → Exec W StorageError (H × H)
  pub remove_log_and_index : LogFileId → LogFileId → Exec W StorageError (Unit {0})
