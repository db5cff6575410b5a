-- ===== src/IndexedLog/Writer.antt =====
-- indexed_log_writer.rs, indexed_log_write_error.rs and append_outcome.rs:
-- records are appended to the log and their ends to the index.
use transaction_log.Common.{
  Bool, Exec, Option, Outcome, continue, err, false, if◌then◌else◌, map_err, none, not, ok,
  panicked, some, true, ℕ, ◌&&◌, ◌+◌, ◌==◌, ◌>>◌,
}
use transaction_log.Io.Output.{Output}
use transaction_log.Record.RecordId
use transaction_log.Record.RecordId.{RecordId}
use transaction_log.Record.View
use transaction_log.Record.View.{Record}
use transaction_log.RecordWriter.Writer as Records
use transaction_log.RecordWriter.Writer.{RecordWriter, RecordOutputError}
use transaction_log.IndexWriter.Writer as Index
use transaction_log.IndexWriter.Writer.{IndexWriter, IndexWriteError}
use transaction_log.IndexedLog.State
use transaction_log.IndexedLog.State.{IndexedLogWriterState, opened}
use transaction_log.Location.LogFileNumber.{records_per_file}
use transaction_log.Location.LogFilePosition.{start_of_file}
use transaction_log.Location.LogFileId.{LogFileId, first_record_id, record_count_through}
use transaction_log.Location.Endpoints.{
  RecordStartLocation, RecordEndLocation, to_end, next_record_start,
}

pub data IndexedLogWriteError : Type 0 where
  unexpected_record_id : RecordId → RecordId → IndexedLogWriteError
  full : IndexedLogWriteError
  not_full : ℕ → IndexedLogWriteError
  not_synchronized : IndexedLogWriteError
  finalized : IndexedLogWriteError
  unusable : IndexedLogWriteError
  log : RecordOutputError → IndexedLogWriteError
  index : IndexWriteError → IndexedLogWriteError

pub record AppendOutcome : Type 0 where
  pub end : RecordEndLocation
  pub file_full : Bool

pub record IndexedLogWriter (L I : Type 0) : Type 0 where
  pub file_id : LogFileId
  pub expected_record_id : RecordId
  pub record_count : ℕ
  pub buffered_end : Option RecordEndLocation
  pub flushed_end : Option RecordEndLocation
  pub synced_end : Option RecordEndLocation
  pub log : RecordWriter L
  pub index : IndexWriter I
  pub state : IndexedLogWriterState

unfoldable pub new : {L I : Type 0} → LogFileId → L → I → IndexedLogWriter L I
unfolding Records.with_mode
new file_id l i = record {
  file_id = file_id;
  expected_record_id = first_record_id file_id;
  record_count = 0;
  buffered_end = none;
  flushed_end = none;
  synced_end = none;
  log = Records.with_mode l;
  index = Index.with_file i;
  state = opened;
}

-- `From<InitializedStream>`, on the fields of the `InitializedStream`. `none` is the panic of the next id.
unfoldable pub from_initialized :
    {L I : Type 0} → LogFileId → L → I → Option RecordEndLocation → Option (IndexedLogWriter L I)
unfolding new
from_initialized file_id l i none = some (new file_id l i)
from_initialized file_id l i (some end) = elim (RecordId.next end.record_id) [
  | none ↦ none
  | some next_id ↦ some (record (new file_id l i) {
    expected_record_id = next_id;
    record_count = record_count_through end.record_id;
    buffered_end = some end;
    flushed_end = some end;
    synced_end = some end;
  })
]

-- The derived `PartialEq` of `Option<RecordEndLocation>`.
unfoldable pub end_eq : Option RecordEndLocation → Option RecordEndLocation → Bool
unfolding RecordId.eq
end_eq none none = true
end_eq (some a) (some b) = RecordId.eq a.record_id b.record_id && a.position == b.position
end_eq none (some b) = false
end_eq (some a) none = false

module _ {L I : Type 0} where
  abbrev pub is_full : IndexedLogWriter L I → Bool
  is_full w = w.record_count == records_per_file

  unfoldable pub check_open : IndexedLogWriter L I → Outcome IndexedLogWriteError (Unit {0})
  check_open w = elim w.state [
    | opened ↦ ok tt
    | State.unusable ↦ err unusable
    | State.finalized ↦ err finalized
  ]

  -- The start of the next record. `none` is a panic.
  unfoldable pub next_start : IndexedLogWriter L I → Option RecordStartLocation
  next_start w = elim w.buffered_end [
    | some end ↦ next_record_start end
    | none ↦ some (record { record_id = first_record_id w.file_id; position = start_of_file })
  ]

  -- The paired append, once both next values are known.
  unfoldable pub append :
      Record
      → RecordEndLocation
      → RecordId
      → Exec (IndexedLogWriter L I) IndexedLogWriteError AppendOutcome
  append r end next_id w =
      let (logged, log') = Records.write_record r w.log in
      let (indexed, index') = Index.write end.position w.index in
      let armed = record w { state = State.unusable; log = log' } in
      let done = record armed {
        index = index';
        record_count = w.record_count + 1;
        buffered_end = some end;
        expected_record_id = next_id;
        state = opened;
      } in
      continue (map_err log logged)
        (λ _ x.
          continue (map_err index indexed)
            (λ _ y. (ok (record { end = end; file_full = is_full done }), done))
            (record x { index = index' }))
        armed

  unfoldable pub write_record :
      Record → Exec (IndexedLogWriter L I) IndexedLogWriteError AppendOutcome
  write_record r w =
      continue (check_open w)
        (λ _ w.
          if is_full w
          then (err full, w)
          else if not (RecordId.eq (View.id r) w.expected_record_id)
          then (err (unexpected_record_id w.expected_record_id (View.id r)), w)
          else elim (next_start w) [
            | none ↦ (panicked, w)
            | some start ↦ elim (to_end start (View.length r)) [
              | none ↦ (panicked, w)
              | some end ↦ elim (RecordId.next w.expected_record_id) [
                | none ↦ (panicked, w)
                | some next_id ↦ append r end next_id w
              ]
            ]
          ])
        w

  -- The failed assertion "a full indexed log has a last record" is `panicked`.
  unfoldable pub finalize : Exec (IndexedLogWriter L I) IndexedLogWriteError RecordEndLocation
  finalize w =
      continue (check_open w)
        (λ _ w.
          if not (is_full w)
          then (err (not_full w.record_count), w)
          else if not (end_eq w.synced_end w.buffered_end)
          then (err not_synchronized, w)
          else elim w.buffered_end [
            | none ↦ (panicked, w)
            | some end ↦ (ok end, record w { state = State.finalized })
          ])
        w

  abbrev pub into_inner : IndexedLogWriter L I → L × I
  into_inner w = (w.log.destination, w.index.file)

  -- A call of one of the two writers.
  abbrev pub on_log :
      Exec (RecordWriter L) RecordOutputError (Unit {0})
      → Exec (IndexedLogWriter L I) IndexedLogWriteError (Unit {0})
  on_log call w = let (r, log') = call w.log in (map_err log r, record w { log = log' })

  abbrev pub on_index :
      Exec (IndexWriter I) IndexWriteError (Unit {0})
      → Exec (IndexedLogWriter L I) IndexedLogWriteError (Unit {0})
  on_index call w = let (r, index') = call w.index in (map_err index r, record w { index = index' })

module _ {L I : Type 0} (log_file : Output L) (index_file : Output I) where
  -- `flush` of an open writer with something buffered.
  unfoldable pub flush_pair : ℕ → Exec (IndexedLogWriter L I) IndexedLogWriteError (Unit {0})
  flush_pair fuel w =
      (on_log (Records.flush_buffer log_file fuel)
          >> on_log (Records.flush log_file)
          >> on_index (Index.flush_buffer index_file fuel)
          >> on_index (Index.flush index_file)
          >> (λ w. (ok tt, record w { flushed_end = w.buffered_end; state = opened })))
        (record w { state = State.unusable })

  unfoldable pub flush : ℕ → Exec (IndexedLogWriter L I) IndexedLogWriteError (Unit {0})
  flush fuel w =
      continue (check_open w)
        (λ _ w. if end_eq w.buffered_end w.flushed_end then (ok tt, w) else flush_pair fuel w) w

  unfoldable pub sync_pair : Exec (IndexedLogWriter L I) IndexedLogWriteError (Unit {0})
  sync_pair w =
      (on_log (Records.sync_data log_file)
          >> on_index (Index.sync_data index_file)
          >> (λ w. (ok tt, record w { synced_end = w.flushed_end; state = opened })))
        (record w { state = State.unusable })

  unfoldable pub sync_data : ℕ → Exec (IndexedLogWriter L I) IndexedLogWriteError (Unit {0})
  sync_data fuel = flush fuel >> sync_pair
