-- ===== src/Lib.antt =====
-- A verification library for the transaction log: the records and their binary form, the writer and the
-- reader of records, the files that the records of a stream are divided among, and the pair of a log
-- file and its index.
--
-- The parts and their files:
--
-- - Record (services/transaction-log-exports/src/record). `Record.Protocol` has the constants of the
--   wire layout, `Protocol.Read` and `Protocol.Write` its getters and stores, `Record.View` the
--   methods of `Record`; `StreamId`, `RecordId` and `RecordLength` the checked numbers. `Record.Frame`
--   describes a complete encoding independently of the stores. A byte is a number and a buffer is a
--   list; the checksum (the crate `crc32c`) is a parameter, of which only its range is used.
-- - Io: the destinations and sources of bytes, which are other crates' code. `Io.Output` and `Io.Source`
--   are their calls, with their documented behaviour as laws; a dropped future is the outcome
--   `dropped`. `Io.WriteLoop` is the loop with which both writers empty their buffer.
-- - RecordWriter (services/transaction-log-exports/src/record_writer). `Builder` is `RecordBuilder` with
--   its `io::Write`, `Body` the closure that `write` is given, as the tree of its writes, `Writer` the
--   operations of `RecordWriter`. A closure that panics ends the tree with a panic.
-- - RecordReader (services/transaction-log-exports/src/record_reader). `Reader` has `wait_to_read`,
--   `prepare_batch` and `try_read_next`. `Inspect` describes what is in front of some bytes, independently
--   of how they arrive.
-- - Location (services/transaction-log/src/streams/location): file numbers, positions, file ids and the
--   locations of records and ranges. A checked operation that panics is `none` or `panicked`. Lazy
--   iterators are the lists of all their items.
-- - IndexWriter and IndexedLog (services/transaction-log/src/streams/index_writer and
--   indexed_log_writer). `IndexedLog.Writer` composes the models of the two writers; `Invariant` says which
--   records are in the files and which are still in the buffers, and what the three ends then are.
-- - LogValidator (services/transaction-log/src/streams/validation/log_file_validator). `Scan` is
--   `scan_records` over the model of the reader, `Validator` is `validate`, which cuts the file. `Findings`
--   describes the records of a file and its tail without a reader. The file is a parameter with the laws
--   of `Io.File`.
-- - IndexValidator (services/transaction-log/src/streams/validation/index_file_validator). `Validator`
--   checks the trusted entry and replaces the others, over the model of the index writer.
-- - Storage (services/transaction-log/src/storage): `Paths` has the names of files, `Provider` the calls of
--   `StorageProvider` that recovery makes, as an interface, on a disk that open files are handles of.
-- - PairValidator (services/transaction-log/src/streams/validation/indexed_log_validator). `Validator`
--   composes the two validators on one disk.
-- - StreamInitializer (services/transaction-log/src/streams/stream_initializer). `Initializer` has the stages
--   of `initialize`, over any storage; `Faults` says where a panic comes from, `Walking` what the loop over the
--   files has found out and what the plan is that it ends with. `PairValidator.Placing` has the answers for pairs.
-- - ObjectPool (lib/object-pool): `Pool` has the operations, on the vector of available objects, and `Window`
--   the calls between two reclaims.
-- - Examples: the theorems at concrete inputs, with small destinations and sources.
--
-- Loops run on fuel, and running out of it is the outcome `stuck`. Each round of a loop takes a byte, or
-- uses up an interruption, or is the last one, so as much fuel as there are bytes and
-- interruptions to come is enough.
--
-- Not modelled: serialization to JSON, the display of errors, and the unsafe code that fills
-- uninitialized memory, whose effect is the list of the bytes it leaves;
-- the calls of the storage, which are parameters of the recovery, the messages between services and their configuration.
pub mod Common
pub mod Record
pub mod Io
pub mod RecordWriter
pub mod RecordReader
pub mod Location
pub mod IndexWriter
pub mod IndexedLog
pub mod ObjectPool
pub mod Storage
pub mod LogValidator
pub mod IndexValidator
pub mod PairValidator
pub mod StreamInitializer
pub mod Examples
