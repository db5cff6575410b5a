-- ===== src/LogValidator/Ending.antt =====
-- The scan and the whole validation of a log, by the end that they answer with.
use transaction_log.Common.{
  Answered, List, Option, Outcome, bool-either, continue-Answered, continue-Answered-by, if-either,
  inl, inr, map_err, none, some, subst, suc, sym, zero, ℕ, ◌==◌,
}
use transaction_log.Io.File.{ValidationFile}
use transaction_log.RecordReader.Reader
use transaction_log.RecordReader.Reader.{
  RecordReadError, RecordReader, reader_failed, try_read_next, wait_to_read,
}
use transaction_log.Location.LogFileNumber.{records_per_file, IsLogFileNumber}
use transaction_log.Location.LogFileId
use transaction_log.Location.LogFileId.{LogFileId}
use transaction_log.Location.Endpoints.{RecordEndLocation, position_of, count_of, end_file}
use transaction_log.LogValidator.Scan.{
  Accepted, LogFileValidationError, LogScanResult, accept_batch, after_batch, scan_round, scan_loop,
  scan_records, io,
}
use transaction_log.LogValidator.Trusting.{check_file-cases, trusted-IsPlace}
use transaction_log.LogValidator.Validating.{IsTrusted}
use transaction_log.LogValidator.Validator.{
  ValidatedLogFile, check_file, check_extent, cut_tail, repair, validate,
}
use transaction_log.LogValidator.Placing.{
  Placed, InFile, Counted, ScanEnds, at_cap-Answered, accept_batch-Answered, after_batch-Answered,
  after_wait-Answered,
}

module _ (f : LogFileId) where
  check_file-Answered :
      (t : Option RecordEndLocation)
      → IsLogFileNumber f.file_number
      → IsTrusted t
      → Answered (λ u. Placed f (count_of t) t) (check_file f t)
  check_file-Answered t valid trusted = elim (check_file-cases f t) [
    | inl (good, place) ↦
        subst (Answered (λ u. Placed f (count_of t) t)) (sym good)
          (position_of t, trusted-IsPlace f t valid trusted place, place)
    | inr other ↦ subst (Answered (λ u. Placed f (count_of t) t)) (sym other.0) tt
  ]

  module _ {F : Type 0} (crc32c : List ℕ → ℕ) (calls : ValidationFile F) (reserve : ℕ → ℕ → ℕ → ℕ)
      (fuel : ℕ) where
    scan_loop-Answered :
        (rounds file_end : ℕ) (s : Accepted) (r : RecordReader F)
        → Counted f s
        → Answered (ScanEnds f) (scan_loop crc32c calls.source reserve rounds fuel f file_end s r).0
    unfolding scan_loop scan_round
    scan_loop-Answered zero file_end s r h = tt
    scan_loop-Answered (suc rounds) file_end s r h =
        let loop = scan_loop crc32c calls.source reserve rounds fuel f file_end in
        let x = wait_to_read crc32c calls.source reserve fuel r in
        let b = accept_batch (suc records_per_file) f s x.1 in
        bool-either
          (λ (y : Outcome LogFileValidationError LogScanResult × RecordReader F).
            Answered (ScanEnds f) y.0)
          (s.count == records_per_file) (at_cap-Answered f file_end s h)
          (after_wait-Answered f
            (λ z.
              after_batch loop (accept_batch (suc records_per_file) f s z).0
                (accept_batch (suc records_per_file) f s z).1)
            s x.0 x.1
            (after_batch-Answered f loop b.0 b.1 (λ s'. scan_loop-Answered rounds file_end s' b.1)
              (accept_batch-Answered f (suc records_per_file) s x.1 h))
            h)

    scan_records-Answered :
        (t : Option RecordEndLocation) (file_end : ℕ) (x : F)
        → Placed f (count_of t) t
        → Answered (ScanEnds f) (scan_records crc32c calls.source reserve fuel f t file_end x).0
    unfolding scan_records Reader.new
    scan_records-Answered none file_end x h =
        scan_loop-Answered (suc records_per_file) file_end _ (Reader.new x) h
    scan_records-Answered (some end) file_end x h =
        if-either
          (λ (y : Outcome LogFileValidationError LogScanResult × F). Answered (ScanEnds f) y.0)
          (LogFileId.eq (end_file end) f)
          (scan_loop-Answered (suc records_per_file) file_end _ (Reader.new x) h) tt

    repair-Answered :
        (v : LogScanResult) (x : F)
        → InFile f v.validated_end
        → Answered (λ y. InFile f y.validated_end) (repair crc32c calls reserve fuel v x).0
    unfolding repair
    repair-Answered v x h =
        continue-Answered (λ y. InFile f y.validated_end) (cut_tail crc32c calls reserve fuel v x).0
          _ (cut_tail crc32c calls reserve fuel v x).1
          (λ u y.
            continue-Answered (λ y. InFile f y.validated_end)
              (map_err io (calls.output.sync_data y).0) _ (calls.output.sync_data y).1 (λ u z. h))

    -- The validation of a file on a trusted endpoint that could be stored: where it succeeds, the
    -- endpoint that it answers with is one of the file.
    pub validate-Answered :
        (t : Option RecordEndLocation) (x : F)
        → IsLogFileNumber f.file_number
        → IsTrusted t
        → Answered (λ v. InFile f v.validated_end) (validate crc32c calls reserve fuel f t x).0
    unfolding validate
    validate-Answered t x valid trusted =
        let Q : ValidatedLogFile → Type 0 = λ v. InFile f v.validated_end in
        continue-Answered-by (λ u. Placed f (count_of t) t) Q (check_file f t) _ x
          (check_file-Answered t valid trusted)
          (λ u x1 place.
            continue-Answered Q (map_err io (calls.file_length x1).0) _ (calls.file_length x1).1
              (λ n x2. continue-Answered Q (check_extent t n) _ x2 (λ u x3.
                continue-Answered Q (map_err io (calls.seek (position_of t) x3).0) _
                  (calls.seek (position_of t) x3).1
                  (λ u x4.
                    let y = scan_records crc32c calls.source reserve fuel f t n x4 in
                    continue-Answered-by (ScanEnds f) Q y.0 _ y.1
                      (scan_records-Answered t n x4 place) (λ v z h. repair-Answered v z h)))))
