-- ===== src/Examples/Recovery.antt =====
-- The recovery of a stream's files at concrete inputs.
use transaction_log.Common.{[], arith, none, refl, ◌++◌, ◌∷◌, ◌≡◌}
use transaction_log.Record.Frame
use transaction_log.Record.Frame.{encode}
use transaction_log.Record.Protocol.Read
use transaction_log.RecordReader.Reader
use transaction_log.LogValidator.Scan
use transaction_log.Location.LogFileId.{LogFileId}
use transaction_log.LogValidator.Validator.{validate}
use transaction_log.LogValidator.Validating.{Validates}
use transaction_log.LogValidator.Opening.{validate-Validates}
use transaction_log.IndexValidator.Validator as Index
use transaction_log.IndexValidator.Validating.{IndexValidates, validate-IndexValidates}
use transaction_log.Io.WriteLoop
use transaction_log.Examples.Devices.{checksum, room_for, room_for-le}
use transaction_log.Examples.Files.{Disk, disk, disk_parts, disk-IsFile}

abbrev first_file : LogFileId
first_file = record { stream_id = 42; file_number = 0 }

-- A record, and behind it the first bytes of another.
abbrev torn_log : Disk
torn_log = record {
  front = [];
  rest = encode checksum (record { stream_id = 42; sequence_number = 0 }) (1 ∷ []) ++ (18 ∷ 0 ∷ []);
}

validate-Validates_example :
    let x = validate checksum disk room_for 1000 first_file none torn_log in
    Validates checksum disk_parts first_file none torn_log x.1 x.0
unfolding encode Frame.content Frame.header_bytes
validate-Validates_example =
    validate-Validates checksum disk-IsFile room_for room_for-le 1000 first_file none torn_log
      (omega arith) tt (omega arith) (omega arith)

torn_log_is_cut :
    (validate checksum disk room_for 1000 first_file none torn_log).1.front
    ≡ encode checksum (record { stream_id = 42; sequence_number = 0 }) (1 ∷ [])
unfolding validate encode Frame.content Frame.header_bytes disk Scan.scan_records Scan.scan_loop
    Scan.accept_batch Reader.wait_to_read Reader.new Reader.prepare_batch Reader.scan
    Reader.frame_length Read.length Read.stream_id Read.crc Read.compute_crc
torn_log_is_cut = refl

-- An index file that holds the bytes of another entry.
abbrev stale_index : Disk
stale_index = record { front = []; rest = 9 ∷ 9 ∷ 9 ∷ [] }

validate-IndexValidates_example :
    let x = Index.validate disk 8 none (17 ∷ []) stale_index in
    IndexValidates disk_parts none (17 ∷ []) stale_index x.1 x.0
validate-IndexValidates_example =
    validate-IndexValidates disk-IsFile 8 none (17 ∷ []) stale_index (omega arith)

stale_index_is_replaced :
    (Index.validate disk 8 none (17 ∷ []) stale_index).1.front ≡ 17 ∷ 0 ∷ 0 ∷ 0 ∷ 0 ∷ 0 ∷ 0 ∷ 0 ∷ []
unfolding Index.validate disk WriteLoop.write_loop
stale_index_is_replaced = refl
