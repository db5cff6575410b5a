-- ===== src/LogValidator/Keeping.antt =====
-- What every call of the file keeps, the validation of a log keeps.
use transaction_log.Common.{
  Bool, Exec, List, Option, Outcome, bool-either, continue-keeps, dropped, err, false, if-either,
  ltb, map_err, none, not, ok, option-either, panicked, some, stuck, subst, suc, sym, true, zero, ℕ,
  ◌==◌,
}
use transaction_log.Io.File.{ValidationFile, KeptBy}
use transaction_log.Record.RecordId
use transaction_log.Record.View
use transaction_log.Record.View.{Record}
use transaction_log.RecordReader.Reader
use transaction_log.RecordReader.Reader.{
  RecordReader, RecordReadError, reader_failed, try_read_next, wait_to_read,
}
use transaction_log.RecordReader.Keeping.{try_read_next-source, wait_to_read-Keeps}
use transaction_log.Location.LogFileNumber.{records_per_file}
use transaction_log.Location.LogFilePosition.{LogFilePosition}
use transaction_log.Location.LogFileId.{LogFileId}
use transaction_log.Location.Endpoints.{RecordEndLocation, to_end, position_of}
use transaction_log.LogValidator.Scan.{
  Accepted, Batch, go_on, break_scan, Call, LogFileValidationError, LogScanResult, io, next_start,
  at_cap, accept, after_take, accept_batch, after_batch, after_wait, scan_round, scan_loop,
  scan_records,
}
use transaction_log.LogValidator.Validator.{check_file, check_extent, cut_tail, repair, validate}

module _ {F : Type 0} (Q : F → Type 0) where
  -- A call on a reader keeps what holds of its source.
  abbrev Holds : {A : Type 0} → Outcome LogFileValidationError A × RecordReader F → Type 0
  Holds x = Q x.1.source

  accept-Holds :
      (loop : Accepted → Call F Batch) (file_id : LogFileId) (s : Accepted) (rec : Record)
      (r : RecordReader F)
      → ((s' : Accepted) (x : RecordReader F) → Q x.source → Holds (loop s' x))
      → Q r.source
      → Holds (accept loop file_id s rec r)
  unfolding accept
  accept-Holds loop file_id s rec r ih q =
      option-either (Holds {A = Batch}) (next_start file_id s.validated_end) q (λ start.
        if-either (Holds {A = Batch}) (not (RecordId.eq (View.id rec) start.record_id)) q
          (option-either (Holds {A = Batch}) (to_end start (View.length rec)) q (λ end. ih _ r q)))

  after_take-Holds :
      (on_record : Record → Call F Batch) (s : Accepted)
      (r : Outcome RecordReadError (Option Record)) (x : RecordReader F)
      → ((rec : Record) (y : RecordReader F) → Q y.source → Holds (on_record rec y))
      → Q x.source
      → Holds (after_take on_record s r x)
  unfolding after_take
  after_take-Holds on_record s (ok none) x ih q = q
  after_take-Holds on_record s (ok (some rec)) x ih q = ih rec x q
  after_take-Holds on_record s (err e) x ih q = q
  after_take-Holds on_record s dropped x ih q = q
  after_take-Holds on_record s panicked x ih q = q
  after_take-Holds on_record s stuck x ih q = q

  accept_batch-Holds :
      (fuel : ℕ) (file_id : LogFileId) (s : Accepted) (r : RecordReader F)
      → Q r.source
      → Holds (accept_batch fuel file_id s r)
  unfolding accept_batch
  accept_batch-Holds zero file_id s r q = q
  accept_batch-Holds (suc fuel) file_id s r q =
      bool-either (Holds {A = Batch}) (ltb s.count records_per_file)
        (after_take-Holds (accept (accept_batch fuel file_id) file_id s) s (try_read_next r).0
          (try_read_next r).1
          (λ rec y p.
            accept-Holds (accept_batch fuel file_id) file_id s rec y
              (accept_batch-Holds fuel file_id) p)
          (subst Q (sym (try_read_next-source r)) q))
        q

  at_cap-Holds :
      (file_end : LogFilePosition) (s : Accepted) (r : RecordReader F)
      → Q r.source
      → Holds {A = LogScanResult} (at_cap file_end s, r)
  at_cap-Holds file_end s r q = q

  after_batch-Holds :
      (loop : Accepted → Call F LogScanResult) (b : Outcome LogFileValidationError Batch)
      (r : RecordReader F)
      → ((s : Accepted) (x : RecordReader F) → Q x.source → Holds (loop s x))
      → Q r.source
      → Holds (after_batch loop b r)
  unfolding after_batch
  after_batch-Holds loop (ok (go_on s)) r ih q = ih s r q
  after_batch-Holds loop (ok (break_scan x)) r ih q = q
  after_batch-Holds loop (err e) r ih q = q
  after_batch-Holds loop dropped r ih q = q
  after_batch-Holds loop panicked r ih q = q
  after_batch-Holds loop stuck r ih q = q

  after_wait-Holds :
      (batch : Call F LogScanResult) (s : Accepted) (ready : Outcome RecordReadError Bool)
      (r : RecordReader F)
      → ((x : RecordReader F) → Q x.source → Holds (batch x))
      → Q r.source
      → Holds (after_wait batch s ready r)
  unfolding after_wait
  after_wait-Holds batch s (ok true) r ih q = ih r q
  after_wait-Holds batch s (ok false) r ih q = q
  after_wait-Holds batch s (err (Reader.io e)) r ih q = q
  after_wait-Holds batch s (err reader_failed) r ih q = q
  after_wait-Holds batch s (err e) r ih q = q
  after_wait-Holds batch s dropped r ih q = q
  after_wait-Holds batch s panicked r ih q = q
  after_wait-Holds batch s stuck r ih q = q

module _ {F : Type 0} (crc32c : List ℕ → ℕ) {calls : ValidationFile F} (Q : F → Type 0)
    (kept : KeptBy calls Q) (reserve : ℕ → ℕ → ℕ → ℕ) (fuel : ℕ) (f : LogFileId) where
  scan_round-Holds :
      (file_end : ℕ) (loop : Accepted → Call F LogScanResult) (s : Accepted) (r : RecordReader F)
      → ((s' : Accepted) (x : RecordReader F) → Q x.source → Holds Q (loop s' x))
      → Q r.source
      → Holds Q (scan_round crc32c calls.source reserve fuel f file_end loop s r)
  unfolding scan_round
  scan_round-Holds file_end loop s r ih q =
      let x = wait_to_read crc32c calls.source reserve fuel r in
      bool-either (Holds Q {A = LogScanResult}) (s.count == records_per_file) q (
        after_wait-Holds Q
          (λ y.
            after_batch loop (accept_batch (suc records_per_file) f s y).0
              (accept_batch (suc records_per_file) f s y).1)
          s x.0 x.1
          (λ y p.
            let b = accept_batch (suc records_per_file) f s y in
            after_batch-Holds Q loop b.0 b.1 ih
              (accept_batch-Holds Q (suc records_per_file) f s y p))
          (wait_to_read-Keeps crc32c calls.source reserve Q kept.read_buf fuel r q))

  scan_loop-Holds :
      (rounds file_end : ℕ) (s : Accepted) (r : RecordReader F)
      → Q r.source
      → Holds Q (scan_loop crc32c calls.source reserve rounds fuel f file_end s r)
  unfolding scan_loop
  scan_loop-Holds zero file_end s r q = q
  scan_loop-Holds (suc rounds) file_end s r q =
      scan_round-Holds file_end (scan_loop crc32c calls.source reserve rounds fuel f file_end) s r
        (scan_loop-Holds rounds file_end) q

  scan_records-keeps :
      (t : Option RecordEndLocation) (file_end : ℕ) (x : F)
      → Q x
      → Q (scan_records crc32c calls.source reserve fuel f t file_end x).1
  unfolding scan_records Reader.new
  scan_records-keeps t file_end x q =
      if-either (λ (y : Outcome LogFileValidationError LogScanResult × F). Q y.1) _
        (scan_loop-Holds (suc records_per_file) file_end _ (Reader.new x) q) q

  cut_tail-keeps : (v : LogScanResult) (x : F) → Q x → Q (cut_tail crc32c calls reserve fuel v x).1
  unfolding cut_tail
  cut_tail-keeps v x q =
      option-either (λ (k : Exec F LogFileValidationError (Unit {0})). Q (k x).1) v.tail_error q
        (λ e. kept.set_len _ x q)

  repair-keeps : (v : LogScanResult) (x : F) → Q x → Q (repair crc32c calls reserve fuel v x).1
  unfolding repair
  repair-keeps v x q =
      continue-keeps Q (cut_tail crc32c calls reserve fuel v x).0 _
        (cut_tail crc32c calls reserve fuel v x).1 (cut_tail-keeps v x q)
        (λ u y p.
          continue-keeps Q (map_err io (calls.output.sync_data y).0) _ (calls.output.sync_data y).1
            (kept.sync_data y p) (λ u z l. l))

  pub validate-keeps :
      (t : Option RecordEndLocation) (x : F) → Q x → Q (validate crc32c calls reserve fuel f t x).1
  unfolding validate
  validate-keeps t x q = continue-keeps Q (check_file f t) _ x q (λ u x1 q1.
      continue-keeps Q (map_err io (calls.file_length x1).0) _ (calls.file_length x1).1
        (kept.file_length x1 q1)
        (λ n x2 q2. continue-keeps Q (check_extent t n) _ x2 q2 (λ u x3 q3.
          continue-keeps Q (map_err io (calls.seek (position_of t) x3).0) _
            (calls.seek (position_of t) x3).1 (kept.seek (position_of t) x3 q3)
            (λ u x4 q4.
              let y = scan_records crc32c calls.source reserve fuel f t n x4 in
              continue-keeps Q y.0 _ y.1 (scan_records-keeps t n x4 q4) repair-keeps))))
