-- ===== src/Location/LogFileId.antt =====
-- log_file_id.rs, log_file_id_range_error.rs and log_file_record_index_error.rs: one file of one
-- stream, the records assigned to it, and runs of files.
use transaction_log.Common.{
  Bool, List, Option, Outcome, [], err, false, if◌then◌else◌, ltb, none, not, ok, panicked, some,
  stuck, suc, true, zero, ℕ, ◌%◌, ◌&&◌, ◌*◌, ◌+◌, ◌-◌, ◌==◌, ◌^◌, ◌∷◌,
}
use transaction_log.Record.StreamId.{StreamId}
use transaction_log.Record.RecordId.{RecordId, u64_max}
use transaction_log.Location.LogFileNumber
use transaction_log.Location.LogFileNumber.{LogFileNumber, records_per_file}

pub record LogFileId : Type 0 where
  pub stream_id : StreamId
  pub file_number : LogFileNumber

pub data LogFileIdRangeError : Type 0 where
  different_streams : LogFileId → LogFileId → LogFileIdRangeError
  reversed_files : LogFileId → LogFileId → LogFileIdRangeError

pub record LogFileRecordIndexError : Type 0 where
  pub file_id : LogFileId
  pub index : ℕ
  pub maximum_index : ℕ

-- The derived `PartialEq`.
unfoldable pub eq : LogFileId → LogFileId → Bool
eq a b = a.stream_id == b.stream_id && a.file_number == b.file_number

unfoldable pub first : StreamId → LogFileId
first stream = record { stream_id = stream; file_number = LogFileNumber.minimum }

unfoldable pub from_record_id : RecordId → LogFileId
unfolding LogFileNumber.from_sequence_number
from_record_id id = record {
  stream_id = id.stream_id;
  file_number = LogFileNumber.from_sequence_number id.sequence_number;
}

unfoldable pub record_count_through : RecordId → ℕ
record_count_through id = id.sequence_number % records_per_file + 1

-- The product is a `u64`.
unfoldable pub first_record_id : LogFileId → RecordId
first_record_id f = record {
  stream_id = f.stream_id;
  sequence_number = f.file_number * records_per_file % 2 ^ 64;
}

-- `saturating_add`: the last file of a stream is cut off at the largest sequence number.
unfoldable pub last_record_id : LogFileId → RecordId
last_record_id f =
    let start = f.file_number * records_per_file % 2 ^ 64 in
    let last = start + (records_per_file - 1) in
    record { stream_id = f.stream_id; sequence_number = if ltb u64_max last then u64_max else last }

-- `panicked` is "record sequence number exhausted".
unfoldable pub record_id_at : LogFileId → ℕ → Outcome LogFileRecordIndexError RecordId
unfolding first_record_id
record_id_at f index =
    let maximum_index = records_per_file - 1 in
    let sequence = (first_record_id f).sequence_number + index in
    if ltb maximum_index index
    then err (record { file_id = f; index = index; maximum_index = maximum_index })
    else if ltb u64_max sequence
    then panicked
    else ok (record { stream_id = f.stream_id; sequence_number = sequence })

unfoldable pub next : LogFileId → Option LogFileId
unfolding LogFileNumber.next
next f = elim (LogFileNumber.next f.file_number) [
  | some n ↦ some (record f { file_number = n })
  | none ↦ none
]

-- The items of `successors(Some(file), …)` up to the file `last`, in at most `fuel` items.
unfoldable pub successors : ℕ → LogFileId → LogFileId → Outcome LogFileIdRangeError (List LogFileId)
unfolding eq next
successors zero file last = stuck
successors (suc fuel) file last = elim (eq file last) [
  | true ↦ ok (file ∷ [])
  | false ↦ elim (next file) [
    | none ↦ panicked
    | some file' ↦ elim (successors fuel file' last) [ ok files ↦ ok (file ∷ files) | r ↦ r ]
  ]
]

-- The files from one to another of the same stream, both included.
unfoldable pub iter_to : LogFileId → LogFileId → Outcome LogFileIdRangeError (List LogFileId)
unfolding successors
iter_to file last =
    if not (file.stream_id == last.stream_id)
    then err (different_streams file last)
    else if ltb last.file_number file.file_number
    then err (reversed_files file last)
    else successors (suc (last.file_number - file.file_number)) file last
