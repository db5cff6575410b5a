-- ===== src/PairValidator/Validator.antt =====
-- indexed_log_validator.rs, indexed_log_validation_error.rs and validated_file_pair.rs.
use transaction_log.Common.{
  Exec, List, Option, if◌then◌else◌, none, pure, some, wrap_err, ℕ, ◌*◌, ◌==◌, ◌>>=◌, ◌>>◌,
}
use transaction_log.IndexWriter.Writer.{index_entry_len}
use transaction_log.Location.LogFileNumber.{records_per_file}
use transaction_log.Location.LogFileId.{LogFileId}
use transaction_log.Location.Endpoints.{RecordEndLocation, position_of, count_of}
use transaction_log.LogValidator.Scan as LogScan
use transaction_log.LogValidator.Scan.{LogFileValidationError}
use transaction_log.LogValidator.Validator as Log
use transaction_log.LogValidator.Validator.{ValidatedLogFile}
use transaction_log.IndexValidator.Validator as Index
use transaction_log.IndexValidator.Validator.{IndexFileValidationError}
use transaction_log.Storage.Provider.{StorageError, Provider}

pub data IndexedLogValidationError : Type 0 where
  storage : StorageError → IndexedLogValidationError
  log : LogFileValidationError → IndexedLogValidationError
  index : IndexFileValidationError → IndexedLogValidationError

pub data ValidatedFilePair (H : Type 0) : Type 0 where
  complete : RecordEndLocation → ValidatedFilePair H
  partial : Option RecordEndLocation → (log index : H) → ValidatedFilePair H

module _ {W H : Type 0} (crc32c : List ℕ → ℕ) (provider : Provider W H) (reserve : ℕ → ℕ → ℕ → ℕ)
    (fuel : ℕ) where
  -- Both files are put at their ends.
  unfoldable pub position :
      Option RecordEndLocation → H → H → Exec W IndexedLogValidationError (ValidatedFilePair H)
  position end l i = do
    wrap_err (λ e. log (LogScan.io e)) ((provider.file l).seek (position_of end))
    wrap_err (λ e. index (Index.io e)) ((provider.file i).seek (count_of end * index_entry_len))
    pure (partial end l i)

  -- The `match` on the end of the records.
  unfoldable pub outcome :
      Option RecordEndLocation → H → H → Exec W IndexedLogValidationError (ValidatedFilePair H)
  unfolding position
  outcome none l i = position none l i
  outcome (some end) l i =
      if count_of (some end) == records_per_file
      then pure (complete end)
      else position (some end) l i

  -- The files are open.
  unfoldable pub validate_files :
      LogFileId
      → Option RecordEndLocation
      → H
      → H
      → Exec W IndexedLogValidationError (ValidatedFilePair H)
  unfolding Log.validate Index.validate outcome
  validate_files file_id last_trusted l i = do
    validated ←
        wrap_err log (Log.validate crc32c (provider.file l) reserve fuel file_id last_trusted)
    wrap_err index (Index.validate (provider.file i) fuel last_trusted validated.suffix_ends)
    outcome validated.validated_end l i

  unfoldable pub validate :
      LogFileId → Option RecordEndLocation → Exec W IndexedLogValidationError (ValidatedFilePair H)
  unfolding validate_files
  validate file_id last_trusted = do
    l ← wrap_err storage (provider.open_log_for_validation file_id)
    i ← wrap_err storage (provider.open_index_for_repair file_id)
    validate_files file_id last_trusted l i
