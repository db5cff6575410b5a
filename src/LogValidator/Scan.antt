-- ===== src/LogValidator/Scan.antt =====
-- `scan_records` of log_file_validator.rs, with log_tail_error.rs and log_file_validation_error.rs.
use transaction_log.Common.{
  Bool, Exec, List, Option, Outcome, [], dropped, err, false, if◌then◌else◌, ltb, none, not, ok,
  panicked, some, stuck, suc, true, zero, ℕ, ◌++◌, ◌+◌, ◌==◌, ◌∷◌,
}
use transaction_log.Io.Error.{IoError}
use transaction_log.Io.Source.{Source}
use transaction_log.Record.RecordId
use transaction_log.Record.RecordId.{RecordId}
use transaction_log.Record.View
use transaction_log.Record.View.{Record}
use transaction_log.RecordReader.Reader
use transaction_log.RecordReader.Reader.{
  RecordReadError, reader_failed, RecordReader, wait_to_read, try_read_next,
}
use transaction_log.Location.LogFileNumber.{records_per_file}
use transaction_log.Location.LogFilePosition.{LogFilePosition, start_of_file}
use transaction_log.Location.LogFileId
use transaction_log.Location.LogFileId.{LogFileId, first_record_id, record_count_through}
use transaction_log.Location.Endpoints.{RecordStartLocation, RecordEndLocation, end_file, to_end}

pub data LogTailError : Type 0 where
  record_error : RecordReadError → LogTailError
  unexpected_record_id : RecordId → RecordId → LogTailError
  extra_data : LogTailError

-- The messages of `InvalidStart`.
pub data InvalidStart : Type 0 where
  another_file outside_extent : InvalidStart

pub data LogFileValidationError : Type 0 where
  invalid_start : InvalidStart → LogFileValidationError
  io : IoError → LogFileValidationError
  read : RecordReadError → LogFileValidationError

pub record LogScanResult : Type 0 where
  pub validated_end : Option RecordEndLocation
  pub suffix_ends : List LogFilePosition
  pub tail_error : Option LogTailError

-- The variables of the loop.
pub record Accepted : Type 0 where
  pub count : ℕ
  pub validated_end : Option RecordEndLocation
  pub suffix_ends : List LogFilePosition

abbrev pub found : Accepted → Option LogTailError → LogScanResult
found s tail = record {
  validated_end = s.validated_end;
  suffix_ends = s.suffix_ends;
  tail_error = tail;
}

-- How the inner loop ends: by another round of the outer one, or by `break 'scan`.
pub data Batch : Type 0 where
  go_on : Accepted → Batch
  break_scan : LogScanResult → Batch

-- Where the next record has to begin. `none` is the panic of the next id.
unfoldable pub next_start : LogFileId → Option RecordEndLocation → Option RecordStartLocation
unfolding first_record_id RecordId.next
next_start file_id none =
    some (record { record_id = first_record_id file_id; position = start_of_file })
next_start file_id (some end) = elim (RecordId.next end.record_id) [
  | none ↦ none
  | some next_id ↦ some (record { record_id = next_id; position = end.position })
]

-- The end of the loop at the record cap. A missing last record is the failed `expect`.
unfoldable pub at_cap : LogFilePosition → Accepted → Outcome LogFileValidationError LogScanResult
at_cap file_end s = elim s.validated_end [
  | none ↦ panicked
  | some end ↦ ok (found s (if ltb end.position file_end then some extra_data else none))
]

abbrev pub Call : Type 0 → Type 0 → Type 0
Call F A = Exec (RecordReader F) LogFileValidationError A

module _ {F : Type 0} where
  -- A record from the batch, given the loop for those after it.
  unfoldable pub accept : (Accepted → Call F Batch) → LogFileId → Accepted → Record → Call F Batch
  unfolding next_start RecordId.eq View.id View.length to_end
  accept loop file_id s r reader = elim (next_start file_id s.validated_end) [
    | none ↦ (panicked, reader)
    | some start ↦
        if not (RecordId.eq (View.id r) start.record_id)
        then (
          ok (break_scan (found s (some (unexpected_record_id start.record_id (View.id r))))),
          reader,
        )
        else elim (to_end start (View.length r)) [
          | none ↦ (panicked, reader)
          | some end ↦
              loop
                (record {
                  count = s.count + 1;
                  validated_end = some end;
                  suffix_ends = s.suffix_ends ++ (end.position ∷ []);
                })
                reader
        ]
  ]

  -- The answer of `try_read_next`, with the loop that takes the record.
  unfoldable pub after_take :
      (Record → Call F Batch) → Accepted → Outcome RecordReadError (Option Record) → Call F Batch
  after_take on_record s (ok none) reader = (ok (go_on s), reader)
  after_take on_record s (ok (some r)) reader = on_record r reader
  after_take on_record s (err e) reader = (err (read e), reader)
  after_take on_record s dropped reader = (dropped, reader)
  after_take on_record s panicked reader = (panicked, reader)
  after_take on_record s stuck reader = (stuck, reader)

  -- `while count < RECORDS_PER_FILE`
  unfoldable pub accept_batch : ℕ → LogFileId → Accepted → Call F Batch
  unfolding accept after_take try_read_next
  accept_batch zero file_id s reader = (stuck, reader)
  accept_batch (suc fuel) file_id s reader = elim (ltb s.count records_per_file) [
    | false ↦ (ok (go_on s), reader)
    | true ↦
        let (r, reader') = try_read_next reader in
        after_take (accept (accept_batch fuel file_id) file_id s) s r reader'
  ]

  unfoldable pub after_batch :
      (Accepted → Call F LogScanResult)
      → Outcome LogFileValidationError Batch
      → Call F LogScanResult
  after_batch loop (ok (go_on s)) reader = loop s reader
  after_batch loop (ok (break_scan result)) reader = (ok result, reader)
  after_batch loop (err e) reader = (err e, reader)
  after_batch loop dropped reader = (dropped, reader)
  after_batch loop panicked reader = (panicked, reader)
  after_batch loop stuck reader = (stuck, reader)

  -- The `match` on the answer of `wait_to_read`, with the rounds for a batch.
  unfoldable pub after_wait :
      Call F LogScanResult → Accepted → Outcome RecordReadError Bool → Call F LogScanResult
  after_wait batch s (ok false) reader = (ok (found s none), reader)
  after_wait batch s (ok true) reader = batch reader
  after_wait batch s (err (Reader.io e)) reader = (err (read (Reader.io e)), reader)
  after_wait batch s (err reader_failed) reader = (err (read reader_failed), reader)
  after_wait batch s (err e) reader = (ok (found s (some (record_error e))), reader)
  after_wait batch s dropped reader = (dropped, reader)
  after_wait batch s panicked reader = (panicked, reader)
  after_wait batch s stuck reader = (stuck, reader)

module _ {F : Type 0} (crc32c : List ℕ → ℕ) (source : Source F) (reserve : ℕ → ℕ → ℕ → ℕ) where
  -- A round of `'scan: loop`, given the loop for the next ones.
  unfoldable pub scan_round :
      ℕ
      → LogFileId
      → LogFilePosition
      → (Accepted → Call F LogScanResult)
      → Accepted
      → Call F LogScanResult
  unfolding after_wait after_batch at_cap
  scan_round fuel file_id file_end loop s reader = elim (s.count == records_per_file) [
    | true ↦ (at_cap file_end s, reader)
    | false ↦
        let (ready, reader') = wait_to_read crc32c source reserve fuel reader in
        after_wait
          (λ x.
            let (b, x') = accept_batch (suc records_per_file) file_id s x in after_batch loop b x')
          s ready reader'
  ]

  -- Each round of `'scan: loop` but the last accepts a record; `fuel` is for the waiting in a round.
  unfoldable pub scan_loop : ℕ → ℕ → LogFileId → LogFilePosition → Accepted → Call F LogScanResult
  unfolding scan_round
  scan_loop zero fuel file_id file_end s reader = (stuck, reader)
  scan_loop (suc rounds) fuel file_id file_end s reader =
      scan_round fuel file_id file_end (scan_loop rounds fuel file_id file_end) s reader

  -- `panicked` is the failed `assert_eq!`.
  unfoldable pub scan_records :
      ℕ
      → LogFileId
      → Option RecordEndLocation
      → LogFilePosition
      → Exec F LogFileValidationError LogScanResult
  scan_records fuel file_id last_trusted file_end file =
      let start : Accepted = record {
        count = elim last_trusted [ some end ↦ record_count_through end.record_id | none ↦ 0 ];
        validated_end = last_trusted;
        suffix_ends = [];
      } in
      let same : Bool = elim last_trusted [
        | some end ↦ LogFileId.eq (end_file end) file_id
        | none ↦ true
      ] in
      let (r, reader) =
        scan_loop (suc records_per_file) fuel file_id file_end start (Reader.new file) in
      if same then (r, reader.source) else (panicked, file)
