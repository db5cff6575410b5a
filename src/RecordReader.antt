-- ===== src/RecordReader.antt =====
-- services/transaction-log-exports/src/record_reader: records out of a stream of bytes.
pub mod Reader
pub mod Inspect
pub mod Scan
pub mod Batch
pub mod Preparing
pub mod Rounds
pub mod Waiting
pub mod Keeping
pub mod Failing
