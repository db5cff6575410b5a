-- ===== src/IndexValidator/Keeping.antt =====
-- What every call of the file keeps, the validation of an index keeps.
use transaction_log.Common.{
  Exec, List, Option, [], continue-keeps, if-either, length, ltb, map_err, none, some, true, ℕ, ◌*◌,
  ◌+◌, ◌-◌,
}
use transaction_log.Io.File.{ValidationFile, KeptBy}
use transaction_log.IndexWriter.Writer.{IndexWriter, index_entry_len, flush_buffer, flush}
use transaction_log.Location.LogFileNumber.{records_per_file}
use transaction_log.Location.LogFilePosition.{LogFilePosition}
use transaction_log.Location.Endpoints.{RecordEndLocation, count_of}
use transaction_log.IndexValidator.Validator.{
  IndexFileValidationError, io, read_entry, read_index_at, check_trusted, write_suffix,
  replace_suffix, validate,
}
use transaction_log.IndexValidator.Entries.{encode_ends}
use transaction_log.IndexValidator.Replacing.{write_ends-buffer, flush-keeps, flush_buffer-keeps}

module _ {F : Type 0} {calls : ValidationFile F} (Q : F → Type 0) (kept : KeptBy calls Q)
    (fuel : ℕ) where
  read_entry-keeps : (start n : ℕ) (x : F) → Q x → Q (read_entry calls fuel start n x).1
  unfolding read_entry
  read_entry-keeps start n x q =
      if-either (λ (k : Exec F IndexFileValidationError (Option LogFilePosition)). Q (k x).1)
        (ltb n (start + index_entry_len)) q
        (continue-keeps Q (map_err io (calls.seek start x).0) _ (calls.seek start x).1
          (kept.seek start x q)
          (λ u y p.
            continue-keeps Q (map_err io (calls.read_exact index_entry_len y).0) _
              (calls.read_exact index_entry_len y).1 (kept.read_exact index_entry_len y p)
              (λ bytes z l. l)))

  read_index_at-keeps : (i : ℕ) (x : F) → Q x → Q (read_index_at calls fuel i x).1
  unfolding read_index_at
  read_index_at-keeps i x q =
      continue-keeps Q (map_err io (calls.file_length x).0) _ (calls.file_length x).1
        (kept.file_length x q) (read_entry-keeps (i * index_entry_len))

  check_trusted-keeps :
      (t : Option RecordEndLocation) (x : F) → Q x → Q (check_trusted calls fuel t x).1
  unfolding check_trusted
  check_trusted-keeps none x q = q
  check_trusted-keeps (some end) x q =
      let y = read_index_at calls fuel (count_of (some end) - 1) x in
      continue-keeps Q y.0 _ y.1 (read_index_at-keeps (count_of (some end) - 1) x q) (λ a z l. l)

  write_suffix-keeps :
      (ends : List LogFilePosition) (x : F) → Q x → Q (write_suffix calls fuel ends x).1
  unfolding write_suffix
  write_suffix-keeps ends x q =
      let w : IndexWriter F = record { file = x; buffer = encode_ends ends; usable = true } in
      let y = flush_buffer calls.output fuel w in
      rw (write_ends-buffer ends x []) (
        continue-keeps (λ v. Q v.file) y.0 (λ u. flush calls.output) y.1
          (flush_buffer-keeps calls.output Q kept.write fuel x (encode_ends ends) q)
          (λ u v p. flush-keeps calls.output Q kept.flush v.file v.buffer v.usable p))

  replace_suffix-keeps :
      (start : ℕ) (ends : List LogFilePosition) (x : F)
      → Q x
      → Q (replace_suffix calls fuel start ends x).1
  unfolding replace_suffix
  replace_suffix-keeps start ends x q =
      continue-keeps Q (map_err io (calls.set_len start x).0) _ (calls.set_len start x).1
        (kept.set_len start x q)
        (λ u x1 q1.
          continue-keeps Q (map_err io (calls.seek start x1).0) _ (calls.seek start x1).1
            (kept.seek start x1 q1)
            (λ u x2 q2.
              let y = write_suffix calls fuel ends x2 in
              continue-keeps Q y.0 _ y.1 (write_suffix-keeps ends x2 q2)
                (λ u x3 q3. kept.sync_data x3 q3)))

  pub validate-keeps :
      (t : Option RecordEndLocation) (ends : List LogFilePosition) (x : F)
      → Q x
      → Q (validate calls fuel t ends x).1
  unfolding validate
  validate-keeps t ends x q =
      let y = check_trusted calls fuel t x in
      if-either (λ (k : Exec F IndexFileValidationError (Unit {0})). Q (k x).1)
        (ltb records_per_file (count_of t + length ends)) q
        (continue-keeps Q y.0 _ y.1 (check_trusted-keeps t x q)
          (λ u. replace_suffix-keeps (count_of t * index_entry_len) ends))
