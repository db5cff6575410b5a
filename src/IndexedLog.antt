-- ===== src/IndexedLog.antt =====
-- services/transaction-log/src/streams/indexed_log_writer: a log file and its index, written together.
pub mod State
pub mod Writer
pub mod Invariant
pub mod Opening
pub mod Appending
pub mod Stages
pub mod Calls
pub mod Flushing
pub mod Durable
pub mod Synchronizing
pub mod Finalizing
