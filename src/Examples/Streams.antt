-- ===== src/Examples/Streams.antt =====
-- The recovery of a stream at concrete inputs: its first file is torn, and two more files follow it.
use transaction_log.Common.{Bool, Option, Outcome, false, none, ok, refl, some, true, ℕ, ◌≡◌}
use transaction_log.Io.WriteLoop
use transaction_log.Record.Frame
use transaction_log.Record.Frame.{encode}
use transaction_log.Record.Protocol.Read
use transaction_log.RecordReader.Reader
use transaction_log.Location.LogFileId
use transaction_log.Location.LogFileId.{LogFileId}
use transaction_log.LogValidator.Scan
use transaction_log.PairValidator.Validator as Pair
use transaction_log.Storage.Provider.{StorageError, Provider}
use transaction_log.StreamInitializer.Initializer.{initialize, validate_files, validate_each}
use transaction_log.Examples.Devices.{checksum, room_for}
use transaction_log.Examples.Files.{disk}
use transaction_log.Examples.Pairs.{
  Disks, pair_provider, first_file, torn_pair, whole_pair, whole_end,
}

abbrev third_file : LogFileId
third_file = record { stream_id = 42; file_number = 2 }

-- Nothing is stored of the stream, and its third file is its last.
abbrev three_files : Provider Disks Bool
three_files = record pair_provider { maximum_log_file = λ s d. (ok (some third_file), d) }

last_number : Option LogFileId → ℕ
last_number none = 0
last_number (some m) = m.file_number

answer_of : Outcome StorageError (Option LogFileId) → Option LogFileId
answer_of (ok o) = o
answer_of _ = none

-- The torn record is cut off, and the file goes on.
torn_stream_is_repaired : initialize checksum three_files room_for 1_000_000 42 torn_pair ≡ (
  ok (record { file_id = first_file; log = true; index = false; end = some whole_end }),
  whole_pair,
)
unfolding initialize validate_each Pair.validate Pair.validate_files encode Frame.content
    Frame.header_bytes disk Scan.scan_records Scan.scan_loop Scan.accept_batch Reader.wait_to_read
    Reader.new Reader.prepare_batch Reader.scan Reader.frame_length Read.length Read.stream_id
    Read.crc Read.compute_crc WriteLoop.write_loop LogFileId.record_count_through
torn_stream_is_repaired = refl
