-- ===== src/Examples/Pairs.antt =====
-- The recovery of a log and its index at concrete inputs.
use transaction_log.Common.{
  Bool, Exec, List, Option, [], arith, err, false, length, none, ok, refl, some, true, ℕ, ◌++◌, ◌∷◌,
  ◌≡◌, ◌≢◌,
}
use transaction_log.Io.Error.{IoError, other}
use transaction_log.Io.File.{ValidationFile, Parts, content, IsFile, KeptBy}
use transaction_log.Record.Frame
use transaction_log.Record.Frame.{encode}
use transaction_log.Location.LogFileId.{LogFileId}
use transaction_log.PairValidator.Validator.{partial, validate_files}
use transaction_log.PairValidator.Agreement.{IsFiles, Place, PairValidates}
use transaction_log.PairValidator.Validating.{validate_files-PairValidates}
use transaction_log.PairValidator.Resuming.{validate_files-IsIndexed}
use transaction_log.IndexedLog.Writer.{IndexedLogWriter, from_initialized}
use transaction_log.IndexedLog.Invariant.{bytes_of, IsIndexed}
use transaction_log.Record.View.{Record}
use transaction_log.Location.Endpoints.{RecordEndLocation}
use transaction_log.LogValidator.Scan
use transaction_log.LogValidator.Findings.{Ordered, Tail}
use transaction_log.RecordReader.Reader
use transaction_log.Record.Protocol.Read
use transaction_log.Io.WriteLoop
use transaction_log.Location.LogFileId
use transaction_log.Storage.Provider.{StorageError, Provider}
use transaction_log.Examples.Devices.{checksum, room_for, room_for-le}
use transaction_log.Examples.Files.{Disk, disk, disk-IsFile}

pub record Disks : Type 0 where
  pub log : Disk
  pub index : Disk

abbrev on_log : {A : Type 0} → Exec Disk IoError A → Exec Disks IoError A
on_log call d = ((call d.log).0, record d { log = (call d.log).1 })

abbrev on_index : {A : Type 0} → Exec Disk IoError A → Exec Disks IoError A
on_index call d = ((call d.index).0, record d { index = (call d.index).1 })

-- The log is `true` and the index `false`.
abbrev open_file : Bool → ValidationFile Disks
open_file true = record {
  source = record { read_buf = λ n. on_log (disk.source.read_buf n) };
  output = record {
    write = λ bytes. on_log (disk.output.write bytes);
    flush = on_log disk.output.flush;
    sync_data = on_log disk.output.sync_data;
  };
  seek = λ n. on_log (disk.seek n);
  file_length = on_log disk.file_length;
  set_len = λ n. on_log (disk.set_len n);
  read_exact = λ n. on_log (disk.read_exact n);
}
open_file false = record {
  source = record { read_buf = λ n. on_index (disk.source.read_buf n) };
  output = record {
    write = λ bytes. on_index (disk.output.write bytes);
    flush = on_index disk.output.flush;
    sync_data = on_index disk.output.sync_data;
  };
  seek = λ n. on_index (disk.seek n);
  file_length = on_index disk.file_length;
  set_len = λ n. on_index (disk.set_len n);
  read_exact = λ n. on_index (disk.read_exact n);
}

abbrev parts_of : Bool → Parts Disks
parts_of true = record { front = λ d. d.log.front; rest = λ d. d.log.rest; stalls = λ d. 0 }
parts_of false = record { front = λ d. d.index.front; rest = λ d. d.index.rest; stalls = λ d. 0 }

abbrev pub pair_provider : Provider Disks Bool
pair_provider = record {
  root = [];
  file = open_file;
  open_log_for_validation = λ f d. (ok true, d);
  open_index_for_repair = λ f d. (ok false, d);
  read_checkpoint = λ s d. (ok none, d);
  write_checkpoint = λ c d. (ok tt, d);
  maximum_log_file = λ s d. (ok none, d);
  create_log_and_index = λ f d. (err (StorageError.io [] other), d);
  remove_log_and_index = λ first last d. (ok tt, d);
}

open_file-IsFile : (h : Bool) → IsFile (open_file h) (parts_of h)
open_file-IsFile true = record {
  reads = record { took = λ n d. disk-IsFile.reads.took n d.log };
  reads_keep = λ n d. disk-IsFile.reads_keep n d.log;
  writes = record {
    wrote = λ bytes d. disk-IsFile.writes.wrote bytes d.log;
    flushed = λ d. disk-IsFile.writes.flushed d.log;
    synced = λ d. disk-IsFile.writes.synced d.log;
  };
  writes_end = λ bytes d. disk-IsFile.writes_end bytes d.log;
  flush_keeps = λ d. disk-IsFile.flush_keeps d.log;
  sync_keeps = λ d. disk-IsFile.sync_keeps d.log;
  sought = λ n d. disk-IsFile.sought n d.log;
  measured = λ d. disk-IsFile.measured d.log;
  resized = λ n d. disk-IsFile.resized n d.log;
  filled = λ n d. disk-IsFile.filled n d.log;
}
open_file-IsFile false = record {
  reads = record { took = λ n d. disk-IsFile.reads.took n d.index };
  reads_keep = λ n d. disk-IsFile.reads_keep n d.index;
  writes = record {
    wrote = λ bytes d. disk-IsFile.writes.wrote bytes d.index;
    flushed = λ d. disk-IsFile.writes.flushed d.index;
    synced = λ d. disk-IsFile.writes.synced d.index;
  };
  writes_end = λ bytes d. disk-IsFile.writes_end bytes d.index;
  flush_keeps = λ d. disk-IsFile.flush_keeps d.index;
  sync_keeps = λ d. disk-IsFile.sync_keeps d.index;
  sought = λ n d. disk-IsFile.sought n d.index;
  measured = λ d. disk-IsFile.measured d.index;
  resized = λ n d. disk-IsFile.resized n d.index;
  filled = λ n d. disk-IsFile.filled n d.index;
}

open_file-apart :
    (a b : Bool) (front rest : List ℕ) (n : ℕ)
    → a ≢ b
    → KeptBy (open_file a) (Place (parts_of b) front rest n)
open_file-apart true true front rest n h = absurd (h refl)
open_file-apart false false front rest n h = absurd (h refl)
open_file-apart true false front rest n h = record {
  read_buf = λ m d q. q;
  write = λ bytes d q. q;
  flush = λ d q. q;
  sync_data = λ d q. q;
  seek = λ m d q. q;
  file_length = λ d q. q;
  set_len = λ m d q. q;
  read_exact = λ m d q. q;
}
open_file-apart false true front rest n h = record {
  read_buf = λ m d q. q;
  write = λ bytes d q. q;
  flush = λ d q. q;
  sync_data = λ d q. q;
  seek = λ m d q. q;
  file_length = λ d q. q;
  set_len = λ m d q. q;
  read_exact = λ m d q. q;
}

pub pair-IsFiles : IsFiles pair_provider parts_of
pair-IsFiles = record { files = open_file-IsFile; apart = open_file-apart }

abbrev pub first_file : LogFileId
first_file = record { stream_id = 42; file_number = 0 }

-- A log with a record and a torn one behind it, and an index without entries.
abbrev pub torn_pair : Disks
torn_pair = record {
  log = record {
    front = [];
    rest =
        encode checksum (record { stream_id = 42; sequence_number = 0 }) (1 ∷ []) ++ (18 ∷ 0 ∷ []);
  };
  index = record { front = []; rest = [] };
}

validate_files-PairValidates_example :
    let x =
      validate_files checksum pair_provider room_for 1_000_000 first_file none true false
        torn_pair in
    PairValidates checksum parts_of first_file none true false torn_pair x.1 x.0
unfolding encode Frame.content Frame.header_bytes
validate_files-PairValidates_example =
    validate_files-PairValidates checksum pair-IsFiles room_for room_for-le 1_000_000 first_file
      none true false torn_pair (λ e. cc) (omega arith) tt (omega arith) (omega arith) (omega arith)

abbrev pub whole_pair : Disks
whole_pair = record {
  log = record {
    front = encode checksum (record { stream_id = 42; sequence_number = 0 }) (1 ∷ []);
    rest = [];
  };
  index = record { front = 17 ∷ 0 ∷ 0 ∷ 0 ∷ 0 ∷ 0 ∷ 0 ∷ 0 ∷ []; rest = [] };
}

abbrev pub whole_end : RecordEndLocation
whole_end = record { record_id = record { stream_id = 42; sequence_number = 0 }; position = 17 }

torn_pair_is_repaired :
    validate_files checksum pair_provider room_for 1_000_000 first_file none true false torn_pair
    ≡ (ok (partial (some whole_end) true false), whole_pair)
unfolding validate_files encode Frame.content Frame.header_bytes disk Scan.scan_records
    Scan.scan_loop Scan.accept_batch Reader.wait_to_read Reader.new Reader.prepare_batch Reader.scan
    Reader.frame_length Read.length Read.stream_id Read.crc Read.compute_crc WriteLoop.write_loop
    LogFileId.record_count_through
torn_pair_is_repaired = refl

validate_files-IsIndexed_example :
    (done : List Record) × (rest : List ℕ) × (tail : Option Scan.LogTailError)
    × (w : IndexedLogWriter Disks Disks) × (content (parts_of true) torn_pair
        ≡ bytes_of done ++ rest)
    × Ordered checksum first_file 0 done
    × Tail checksum first_file (length done) rest tail
    × (from_initialized first_file whole_pair whole_pair (some whole_end) ≡ some w)
    × IsIndexed (parts_of true).front (parts_of false).front done done [] w
unfolding encode Frame.content Frame.header_bytes
validate_files-IsIndexed_example =
    validate_files-IsIndexed checksum pair-IsFiles room_for room_for-le 1_000_000 first_file true
      false torn_pair whole_pair (some whole_end) true false (λ e. cc) (omega arith) (omega arith)
      (omega arith) (omega arith) (omega arith) torn_pair_is_repaired
