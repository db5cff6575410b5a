-- ===== src/LogValidator/Validator.antt =====
-- `validate` of log_file_validator.rs, with validated_log_file.rs.
use transaction_log.Common.{
  Exec, List, Option, Outcome, err, if◌then◌else◌, leb, lift, ltb, none, not, ok, pure, some,
  wrap_err, ℕ, ◌&&◌, ◌*◌, ◌>>=◌, ◌>>◌, ◌||◌,
}
use transaction_log.Io.File.{ValidationFile}
use transaction_log.Record.RecordLength
use transaction_log.Location.LogFilePosition.{LogFilePosition}
use transaction_log.Location.LogFileId
use transaction_log.Location.LogFileId.{LogFileId, record_count_through}
use transaction_log.Location.Endpoints.{RecordEndLocation, end_file, position_of, count_of}
use transaction_log.LogValidator.Scan.{
  LogTailError, another_file, outside_extent, LogFileValidationError, invalid_start, io,
  LogScanResult, scan_records,
}

-- The file itself is the state that `validate` leaves.
pub record ValidatedLogFile : Type 0 where
  pub validated_end : Option RecordEndLocation
  pub suffix_ends : List LogFilePosition
  pub removed_tail : Option LogTailError

-- The tests on the trusted endpoint, given the length of the file. The products fit a `u64`.
unfoldable pub check_extent :
    Option RecordEndLocation → LogFilePosition → Outcome LogFileValidationError (Unit {0})
check_extent last_trusted file_end =
    let start_position = position_of last_trusted in
    let trusted_count = count_of last_trusted in
    if ltb file_end start_position
      || not (
          leb (trusted_count * RecordLength.minimum) start_position
          && leb start_position (trusted_count * RecordLength.maximum))
    then err (invalid_start outside_extent)
    else ok tt

unfoldable pub check_file :
    LogFileId → Option RecordEndLocation → Outcome LogFileValidationError (Unit {0})
check_file file_id none = ok tt
check_file file_id (some end) =
    if not (LogFileId.eq (end_file end) file_id) then err (invalid_start another_file) else ok tt

module _ {F : Type 0} (crc32c : List ℕ → ℕ) (file_calls : ValidationFile F)
    (reserve : ℕ → ℕ → ℕ → ℕ) (fuel : ℕ) where
  unfoldable pub cut_tail : LogScanResult → Exec F LogFileValidationError (Unit {0})
  cut_tail result = elim result.tail_error [
    | some e ↦ wrap_err io (file_calls.set_len (position_of result.validated_end))
    | none ↦ pure tt
  ]

  -- The repair and the synchronization behind the scan.
  unfoldable pub repair : LogScanResult → Exec F LogFileValidationError ValidatedLogFile
  unfolding cut_tail
  repair result = do
    cut_tail result
    wrap_err io file_calls.output.sync_data
    pure (record {
      validated_end = result.validated_end;
      suffix_ends = result.suffix_ends;
      removed_tail = result.tail_error;
    })

  unfoldable pub validate :
      LogFileId → Option RecordEndLocation → Exec F LogFileValidationError ValidatedLogFile
  unfolding check_file check_extent repair
  validate file_id last_trusted = do
    lift (check_file file_id last_trusted)
    file_end ← wrap_err io file_calls.file_length
    lift (check_extent last_trusted file_end)
    wrap_err io (file_calls.seek (position_of last_trusted))
    result ← scan_records crc32c file_calls.source reserve fuel file_id last_trusted file_end
    repair result
