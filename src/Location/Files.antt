-- ===== src/Location/Files.antt =====
-- The records of a file, and runs of files.
use transaction_log.Common.{
  List, [], arith, err, false, if◌then◌else◌, ltb, not, ok, some, suc, true, zero, ℕ, ◌+◌, ◌-◌, ◌<◌,
  ◌==◌, ◌↔◌, ◌∷◌, ◌≡◌, ◌≤◌,
}
use transaction_log.Record.StreamId.{StreamId}
use transaction_log.Record.RecordId.{RecordId, IsRecordId}
use transaction_log.Location.LogFileNumber
use transaction_log.Location.LogFileNumber.{records_per_file, IsLogFileNumber}
use transaction_log.Location.LogFileId
use transaction_log.Location.LogFileId.{
  LogFileId, from_record_id, first_record_id, last_record_id, record_count_through, record_id_at,
  successors, iter_to,
}

-- A valid record belongs to a valid file exactly if it is of the file's stream and lies between the
-- file's first and last record, both included.
pub from_record_id_iff :
    (f : LogFileId) (id : RecordId)
    → IsLogFileNumber f.file_number
    → IsRecordId id
    → (from_record_id id ≡ f) ↔ (
        (id.stream_id ≡ f.stream_id)
        × ((first_record_id f).sequence_number ≤ id.sequence_number)
        × (id.sequence_number ≤ (last_record_id f).sequence_number))
unfolding from_record_id first_record_id last_record_id
from_record_id_iff f id hf hid = ground arith

-- The count of a valid record in its file is between 1 and 100,000, and `record_id_at` at that count
-- less one gives the record back.
pub record_id_at_count :
    (id : RecordId)
    → IsRecordId id
    → (1 ≤ record_count_through id)
      × (record_count_through id ≤ records_per_file)
      × (record_id_at (from_record_id id) (record_count_through id - 1) ≡ ok id)
unfolding record_count_through record_id_at from_record_id
record_id_at_count id h = (omega arith, omega arith, ground arith)

-- The files of a stream from a number on.
unfoldable pub run : StreamId → ℕ → ℕ → List LogFileId
run stream n zero = []
run stream n (suc k) = record { stream_id = stream; file_number = n } ∷ run stream (n + 1) k

eq_self : (a : LogFileId) → LogFileId.eq a a ≡ true
unfolding LogFileId.eq
eq_self a = ground arith

eq-lt : (a b : LogFileId) → a.file_number < b.file_number → LogFileId.eq a b ≡ false
unfolding LogFileId.eq
eq-lt a b h = ground arith

next-some :
    (f : LogFileId)
    → f.file_number < LogFileNumber.maximum
    → LogFileId.next f ≡ some (record f { file_number = f.file_number + 1 })
unfolding LogFileId.next
next-some f h = ground arith

pub successors-run :
    (k n : ℕ) (stream : StreamId) (last : LogFileId)
    → last.stream_id ≡ stream
    → last.file_number ≡ n + k
    → IsLogFileNumber last.file_number
    → successors (suc k) (record { stream_id = stream; file_number = n }) last
      ≡ ok (run stream n (suc k))
unfolding successors run LogFileId.eq LogFileId.next LogFileNumber.next
successors-run zero n stream last s e h = ground arith
successors-run (suc k) n stream last s e h =
    ground (arith, successors-run k (n + 1) stream last s (omega arith) h)

-- To a valid file of the same stream that is not before it, `iter_to` neither panics nor fails, and
-- lists each file between them once, in ascending order, both ends included; to a file of another
-- stream, or to an earlier one, it is the error that says which.
pub iter_to-run :
    (file last : LogFileId)
    → IsLogFileNumber last.file_number
    → iter_to file last ≡ (
        if not (file.stream_id == last.stream_id)
        then err (LogFileId.different_streams file last)
        else if ltb last.file_number file.file_number
        then err (LogFileId.reversed_files file last)
        else ok (run file.stream_id file.file_number (suc (last.file_number - file.file_number))))
unfolding iter_to
iter_to-run file last h = ground (
  arith,
  successors-run (last.file_number - file.file_number) file.file_number file.stream_id last,
)
