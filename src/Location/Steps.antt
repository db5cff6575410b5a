-- ===== src/Location/Steps.antt =====
-- From a record to the one after it.
use transaction_log.Common.{arith, if◌then◌else◌, leb, ltb, none, some, ◌&&◌, ◌+◌, ◌≡◌}
use transaction_log.Record.RecordId
use transaction_log.Record.RecordId.{RecordId, IsRecordId, u64_max}
use transaction_log.Record.RecordLength.{RecordLength}
use transaction_log.Location.LogFileNumber
use transaction_log.Location.LogFileNumber.{records_per_file}
use transaction_log.Location.LogFilePosition.{advance}
use transaction_log.Location.LogFileId
use transaction_log.Location.LogFileId.{from_record_id, record_count_through}
use transaction_log.Location.Endpoints.{
  RecordStartLocation, end_file, to_end, next_record_start, to_next,
}

-- Stepping over a record with a valid id, of `n` bytes, leads to the record with the next sequence number. That one
-- begins where the first one ends, unless the first is the 100,000th record of its file: then it
-- begins the next file, at 0. The step panics exactly if the end does not fit a `u64` or there is no next
-- sequence number.
pub to_next_lem :
    (l : RecordStartLocation) (n : RecordLength)
    → IsRecordId l.record_id
    → to_next l n ≡ (
        if leb (l.position + n) u64_max && ltb l.record_id.sequence_number u64_max
        then some (record {
          record_id = record {
            stream_id = l.record_id.stream_id;
            sequence_number = l.record_id.sequence_number + 1;
          };
          position =
              if ltb (record_count_through l.record_id) records_per_file then l.position + n else 0;
        })
        else none)
unfolding to_next to_end advance next_record_start end_file RecordId.next record_count_through
    from_record_id LogFileId.eq LogFileNumber.from_sequence_number
to_next_lem l n h = ground arith
