-- ===== src/Location/RecordRange.antt =====
-- record_range_location.rs, record_range_location_error.rs and log_file_range.rs: a run of records,
-- cut at the boundaries of the files that hold them.
use transaction_log.Common.{
  List, Outcome, dropped, err, if◌then◌else◌, leb, ltb, map, not, ok, panicked, stuck, suc, ◌-◌,
  ◌==◌,
}
use transaction_log.Record.StreamId.{StreamId}
use transaction_log.Record.RecordId.{SequenceNumber}
use transaction_log.Location.LogFilePosition.{LogFilePosition}
use transaction_log.Location.LogFileId
use transaction_log.Location.LogFileId.{LogFileId, LogFileIdRangeError, successors}
use transaction_log.Location.Endpoints.{
  RecordStartLocation, RecordEndLocation, start_file, end_file,
}

pub data LogFileRange : Type 0 where
  file_range : LogFilePosition → LogFilePosition → LogFileRange
  file_postfix : LogFilePosition → LogFileRange
  entire_file : LogFileRange
  file_prefix : LogFilePosition → LogFileRange

pub record RecordRangeLocation : Type 0 where
  pub start : RecordStartLocation
  pub end : RecordEndLocation

pub data RecordRangeLocationError : Type 0 where
  different_streams : StreamId → StreamId → RecordRangeLocationError
  reversed_records : SequenceNumber → SequenceNumber → RecordRangeLocationError
  invalid_byte_span : LogFileId → LogFilePosition → LogFilePosition → RecordRangeLocationError

unfoldable pub new :
    RecordStartLocation → RecordEndLocation → Outcome RecordRangeLocationError RecordRangeLocation
unfolding start_file end_file
new start end =
    let a = start.record_id in
    let b = end.record_id in
    let end_file_start =
      if LogFileId.eq (start_file start) (end_file end) then start.position else 0 in
    if not (a.stream_id == b.stream_id)
    then err (different_streams a.stream_id b.stream_id)
    else if ltb b.sequence_number a.sequence_number
    then err (reversed_records a.sequence_number b.sequence_number)
    else if leb end.position end_file_start
    then err (invalid_byte_span (end_file end) end_file_start end.position)
    else ok (record { start = start; end = end })

-- The part of one file that the range takes up.
unfoldable pub part : RecordRangeLocation → LogFileId → LogFileId → LogFileId → LogFileRange
part r first last file =
    if LogFileId.eq first last
    then file_range r.start.position r.end.position
    else if LogFileId.eq file first
    then file_postfix r.start.position
    else if LogFileId.eq file last
    then file_prefix r.end.position
    else entire_file

unfoldable pub with_parts :
    RecordRangeLocation
    → LogFileId
    → LogFileId
    → Outcome LogFileIdRangeError (List LogFileId)
    → Outcome LogFileIdRangeError (List (LogFileId × LogFileRange))
with_parts r first last (ok files) = ok (map (λ file. (file, part r first last file)) files)
with_parts r first last (err e) = err e
with_parts r first last dropped = dropped
with_parts r first last panicked = panicked
with_parts r first last stuck = stuck

-- The `successors` of the first file up to the last one, each with its part.
unfoldable pub iter :
    RecordRangeLocation → Outcome LogFileIdRangeError (List (LogFileId × LogFileRange))
iter r =
    let first = start_file r.start in
    let last = end_file r.end in
    with_parts r first last (successors (suc (last.file_number - first.file_number)) first last)
