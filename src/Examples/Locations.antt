-- ===== src/Examples/Locations.antt =====
-- Files, records and ranges at concrete numbers.
use transaction_log.Common.{
  arith, err, if◌then◌else◌, leb, ltb, none, not, ok, refl, some, suc, ◌&&◌, ◌+◌, ◌-◌, ◌<◌, ◌==◌,
  ◌↔◌, ◌≡◌, ◌≤◌,
}
use transaction_log.Record.RecordId.{RecordId, IsRecordId, u64_max}
use transaction_log.Location.LogFileNumber
use transaction_log.Location.LogFileNumber.{records_per_file}
use transaction_log.Location.LogFileId
use transaction_log.Location.LogFileId.{
  LogFileId, from_record_id, first_record_id, last_record_id, record_count_through, record_id_at,
  iter_to,
}
use transaction_log.Location.Endpoints.{RecordStartLocation, to_next, start_file, end_file}
use transaction_log.Location.RecordRange.{RecordRangeLocation, iter}
use transaction_log.Location.Files.{run, from_record_id_iff, record_id_at_count, iter_to-run}
use transaction_log.Location.Steps.{to_next_lem}
use transaction_log.Location.Ranges.{parts, iter-parts}

-- The last record of the first file of stream 42, and a record of the third.
abbrev last_of_first : RecordId
last_of_first = record { stream_id = 42; sequence_number = 99_999 }

abbrev in_third : RecordId
in_third = record { stream_id = 42; sequence_number = 250_000 }

last_of_first-IsRecordId : IsRecordId last_of_first
last_of_first-IsRecordId = record { stream = omega arith; sequence = omega arith }

in_third-IsRecordId : IsRecordId in_third
in_third-IsRecordId = record { stream = omega arith; sequence = omega arith }

abbrev second_file : LogFileId
second_file = record { stream_id = 42; file_number = 1 }

abbrev fourth_file : LogFileId
fourth_file = record { stream_id = 42; file_number = 3 }

from_record_id_iff_example : (from_record_id in_third ≡ second_file) ↔ (
    (42 ≡ second_file.stream_id)
    × ((first_record_id second_file).sequence_number ≤ 250_000)
    × (250_000 ≤ (last_record_id second_file).sequence_number))
from_record_id_iff_example =
    from_record_id_iff second_file in_third (omega arith) in_third-IsRecordId

record_id_at_count_example :
    (1 ≤ record_count_through last_of_first)
    × (record_count_through last_of_first ≤ records_per_file)
    × (record_id_at (from_record_id last_of_first) (record_count_through last_of_first - 1)
        ≡ ok last_of_first)
record_id_at_count_example = record_id_at_count last_of_first last_of_first-IsRecordId

iter_to-run_example : iter_to second_file fourth_file ≡ (
    if not (second_file.stream_id == fourth_file.stream_id)
    then err (LogFileId.different_streams second_file fourth_file)
    else if ltb fourth_file.file_number second_file.file_number
    then err (LogFileId.reversed_files second_file fourth_file)
    else ok (run 42 1 (suc (fourth_file.file_number - second_file.file_number))))
iter_to-run_example = iter_to-run second_file fourth_file (omega arith)

abbrev boundary : RecordStartLocation
boundary = record { record_id = last_of_first; position = 700 }

to_next_example : to_next boundary 20 ≡ (
    if leb (700 + 20) u64_max && ltb 99_999 u64_max
    then some (record {
      record_id = record { stream_id = 42; sequence_number = 99_999 + 1 };
      position = if ltb (record_count_through last_of_first) records_per_file then 700 + 20 else 0;
    })
    else none)
to_next_example = to_next_lem boundary 20 last_of_first-IsRecordId

-- From the last record of the first file to a record of the third.
abbrev three_files : RecordRangeLocation
three_files = record { start = boundary; end = record { record_id = in_third; position = 90 } }

past_zero :
    (if LogFileId.eq (start_file three_files.start) (end_file three_files.end) then 700 else 0) < 90
unfolding LogFileId.eq start_file end_file from_record_id LogFileNumber.from_sequence_number
past_zero = omega arith

iter-parts_example :
    iter three_files
    ≡ ok (
        parts three_files 42
          (start_file three_files.start).file_number
          ((end_file three_files.end).file_number - (start_file three_files.start).file_number))
iter-parts_example = iter-parts three_files (refl, omega arith, past_zero) in_third-IsRecordId
