-- ===== src/IndexValidator/Validator.antt =====
-- index_file_validator.rs and index_file_validation_error.rs.
use transaction_log.Common.{
  Exec, List, Option, Outcome, [], err, from_le_bytes, if◌then◌else◌, length, lift, ltb, map_err,
  none, ok, pure, some, wrap_err, ℕ, ◌*◌, ◌+◌, ◌-◌, ◌==◌, ◌>>=◌, ◌>>◌, ◌∷◌,
}
use transaction_log.Io.Error.{IoError}
use transaction_log.Io.File.{ValidationFile}
use transaction_log.IndexWriter.Writer
use transaction_log.IndexWriter.Writer.{
  IndexWriteError, IndexWriter, index_entry_len, with_file, into_inner, flush_buffer, flush,
}
use transaction_log.Location.LogFileNumber.{records_per_file}
use transaction_log.Location.LogFilePosition.{LogFilePosition}
use transaction_log.Location.LogFileId.{record_count_through}
use transaction_log.Location.Endpoints.{RecordEndLocation, count_of}

pub data IndexFileValidationError : Type 0 where
  io : IoError → IndexFileValidationError
  trusted_index_mismatch :
      (entry_index expected : ℕ) (actual : Option LogFilePosition) → IndexFileValidationError
  too_many_entries : (count maximum : ℕ) → IndexFileValidationError
  write : IndexWriteError → IndexFileValidationError

-- The comparison of an entry that was read with the trusted position.
unfoldable pub check_entry :
    ℕ → LogFilePosition → Option LogFilePosition → Outcome IndexFileValidationError (Unit {0})
check_entry entry_index expected none = err (trusted_index_mismatch entry_index expected none)
check_entry entry_index expected (some actual) =
    if actual == expected
    then ok tt
    else err (trusted_index_mismatch entry_index expected (some actual))

-- `for &end in suffix_ends`
unfoldable pub write_ends :
    {F : Type 0} → List LogFilePosition → Exec (IndexWriter F) IndexWriteError (Unit {0})
unfolding Writer.write
write_ends [] w = (ok tt, w)
write_ends (end ∷ ends) w = (Writer.write end >> write_ends ends) w

module _ {F : Type 0} (file_calls : ValidationFile F) (fuel : ℕ) where
  -- The read at an offset that the file reaches beyond.
  unfoldable pub read_entry : ℕ → ℕ → Exec F IndexFileValidationError (Option LogFilePosition)
  read_entry entry_start file_length =
      if ltb file_length (entry_start + index_entry_len) then pure none else (do
        wrap_err io (file_calls.seek entry_start)
        bytes ← wrap_err io (file_calls.read_exact index_entry_len)
        pure (some (from_le_bytes bytes)))

  unfoldable pub read_index_at : ℕ → Exec F IndexFileValidationError (Option LogFilePosition)
  unfolding read_entry
  read_index_at entry_index = do
    file_length ← wrap_err io file_calls.file_length
    read_entry (entry_index * index_entry_len) file_length

  -- The test of the trusted entry, where there is one.
  unfoldable pub check_trusted :
      Option RecordEndLocation → Exec F IndexFileValidationError (Unit {0})
  unfolding read_index_at check_entry
  check_trusted none = pure tt
  check_trusted (some end) =
      let entry_index = record_count_through end.record_id - 1 in
      read_index_at entry_index >>= λ actual. lift (check_entry entry_index end.position actual)

  -- The block with the index writer, which borrows the file.
  unfoldable pub write_suffix : List LogFilePosition → Exec F IndexFileValidationError (Unit {0})
  unfolding write_ends flush_buffer flush
  write_suffix ends file =
      let (r, w) =
        (write_ends ends >> (flush_buffer file_calls.output fuel >> flush file_calls.output))
          (with_file file) in
      (map_err write r, into_inner w)

  -- The entries behind the trusted ones are replaced and synchronized.
  unfoldable pub replace_suffix :
      ℕ → List LogFilePosition → Exec F IndexFileValidationError (Unit {0})
  unfolding write_suffix
  replace_suffix suffix_start ends = do
    wrap_err io (file_calls.set_len suffix_start)
    wrap_err io (file_calls.seek suffix_start)
    write_suffix ends
    wrap_err io file_calls.output.sync_data

  -- The count fits a `u64`, since a slice is shorter.
  unfoldable pub validate :
      Option RecordEndLocation → List LogFilePosition → Exec F IndexFileValidationError (Unit {0})
  unfolding check_trusted replace_suffix
  validate last_trusted suffix_ends =
      let trusted_entry_count = count_of last_trusted in
      let entry_count = trusted_entry_count + length suffix_ends in
      if ltb records_per_file entry_count
      then lift (err (too_many_entries entry_count records_per_file))
      else (do
        check_trusted last_trusted
        replace_suffix (trusted_entry_count * index_entry_len) suffix_ends)
