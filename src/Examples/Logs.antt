-- ===== src/Examples/Logs.antt =====
-- An indexed log at concrete inputs.
use transaction_log.Common.{
  Leaves, [], arith, err, false, if◌then◌else◌, length, none, not, ok, refl, some, to_le_bytes,
  true, ◌+◌, ◌-◌, ◌==◌, ◌∷◌, ◌≡◌, ◌≤◌,
}
use transaction_log.Record.View.{Record}
use transaction_log.Record.Frame.{encode, content, header_bytes}
use transaction_log.Location.LogFileId.{LogFileId}
use transaction_log.RecordWriter.Writer as Records
use transaction_log.Location.LogFileNumber.{records_per_file}
use transaction_log.IndexedLog.State
use transaction_log.IndexedLog.State.{opened}
use transaction_log.IndexedLog.Writer
use transaction_log.IndexedLog.Writer.{
  from_initialized, IndexedLogWriter, IndexedLogWriteError, write_record, flush, finalize, not_full,
  not_synchronized,
}
use transaction_log.IndexedLog.Invariant.{bytes_of, end_at, IsIndexed, id_at, size_of, entries}
use transaction_log.IndexedLog.Stages.{Broken}
use transaction_log.IndexedLog.Appending.{answer, Appends, write_record-Appends}
use transaction_log.IndexedLog.Flushing.{Flushed, flush-Leaves}
use transaction_log.IndexedLog.Opening.{IsRecovered, from_initialized-IsIndexed}
use transaction_log.IndexedLog.Finalizing.{finalize_lem}
use transaction_log.Examples.Devices.{Tracked, Sink, sink, sink-IsOutput, checksum}

abbrev second_of_42 : LogFileId
second_of_42 = record { stream_id = 42; file_number = 1 }

-- The first record of that file, and a log that holds it in its buffers.
abbrev opening : Record
opening = record { bytes = encode checksum (id_at second_of_42 0) (9 ∷ []) }

abbrev empty_sink : Sink
empty_sink = record { taken = []; stall = 1 }

abbrev with_one : IndexedLogWriter Sink Sink
with_one = record {
  file_id = second_of_42;
  expected_record_id = id_at second_of_42 1;
  record_count = 1;
  buffered_end =
      some (record { record_id = id_at second_of_42 0; position = length opening.bytes });
  flushed_end = none;
  synced_end = none;
  log = Records.open_writer empty_sink opening.bytes;
  index = record {
    file = empty_sink;
    buffer = to_le_bytes 8 (length opening.bytes);
    usable = true;
  };
  state = opened;
}

with_one-IsIndexed : IsIndexed (λ d. d.taken) (λ d. d.taken) [] [] (opening ∷ []) with_one
unfolding encode content header_bytes
with_one-IsIndexed = record {
  is_open = refl;
  file = omega arith;
  count = refl;
  within = omega arith;
  addressable = omega arith;
  small = omega arith;
  expected = refl;
  buffered = refl;
  flushed = refl;
  synced = refl;
  order = ([], refl);
  log_usable = refl;
  index_usable = refl;
  log_file = refl;
  log_buffer = refl;
  index_file = refl;
  index_buffer = refl;
}

-- The second record.
abbrev following : Record
following = record { bytes = encode checksum (id_at second_of_42 1) [] }

following-small : length following.bytes ≤ 65535
unfolding encode content header_bytes
following-small = omega arith

write_record-Appends_example :
    ((write_record following with_one).0
      ≡ answer with_one 1 (size_of [] + size_of (opening ∷ [])) following)
    × Appends
        (λ d. d.taken)
        (λ d. d.taken)
        []
        []
        (opening ∷ [])
        following
        with_one
        (write_record following with_one).1
        (write_record following with_one).0
write_record-Appends_example =
    write_record-Appends with_one with_one-IsIndexed following following-small

log_fuel : length (bytes_of (opening ∷ [])) + 1 ≤ 30
unfolding encode content header_bytes
log_fuel = omega arith

flush-Leaves_example :
    let result = flush sink sink 30 with_one in
    Leaves
      (Flushed (λ d. d.taken) (λ d. d.taken) [] [] (opening ∷ []) with_one)
      (Broken (λ d. d.taken) (λ d. d.taken) [] (opening ∷ []) with_one)
      result.0
      result.1
flush-Leaves_example =
    flush-Leaves sink-IsOutput sink-IsOutput 30 with_one with_one-IsIndexed log_fuel (omega arith)

abbrev empty_memory : Tracked
empty_memory = record { held = []; flushed = []; synced = []; broken = false }

-- The same log over files that remember what is synchronized.
abbrev in_memory : IndexedLogWriter Tracked Tracked
in_memory = record {
  file_id = second_of_42;
  expected_record_id = id_at second_of_42 1;
  record_count = 1;
  buffered_end =
      some (record { record_id = id_at second_of_42 0; position = length opening.bytes });
  flushed_end = none;
  synced_end = none;
  log = Records.open_writer empty_memory opening.bytes;
  index = record {
    file = empty_memory;
    buffer = to_le_bytes 8 (length opening.bytes);
    usable = true;
  };
  state = opened;
}

finalize_example : finalize with_one ≡ (
    if not (1 == records_per_file)
    then (err (not_full 1), with_one)
    else if not (0 == 1)
    then (err not_synchronized, with_one)
    else (
      ok (record {
        record_id = id_at second_of_42 (records_per_file - 1);
        position = size_of [] + size_of (opening ∷ []);
      }),
      record with_one { state = State.finalized },
    ))
finalize_example = finalize_lem with_one with_one-IsIndexed

-- Files that hold the first record and its end.
abbrev log_of_one : Sink
log_of_one = record { taken = bytes_of (opening ∷ []); stall = 0 }

abbrev index_of_one : Sink
index_of_one = record { taken = entries 0 (opening ∷ []); stall = 0 }

opening-small : length opening.bytes ≤ 65535
unfolding encode content header_bytes
opening-small = omega arith

one-IsRecovered :
    IsRecovered (λ d. d.taken) (λ d. d.taken) second_of_42 log_of_one index_of_one (opening ∷ [])
one-IsRecovered = record {
  file = omega arith;
  within = omega arith;
  addressable = omega arith;
  small = (opening-small, tt);
  log_file = refl;
  index_file = refl;
}

from_initialized-IsIndexed_example :
    (w : IndexedLogWriter Sink Sink) × (from_initialized second_of_42 log_of_one index_of_one
        (end_at second_of_42 1 (size_of (opening ∷ [])))
      ≡ some w)
    × IsIndexed (λ d. d.taken) (λ d. d.taken) (opening ∷ []) (opening ∷ []) [] w
from_initialized-IsIndexed_example =
    from_initialized-IsIndexed second_of_42 log_of_one index_of_one (opening ∷ []) one-IsRecovered

abbrev closed : IndexedLogWriter Sink Sink
closed = record with_one { state = State.finalized }
