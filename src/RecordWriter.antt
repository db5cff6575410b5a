-- ===== src/RecordWriter.antt =====
-- services/transaction-log-exports/src/record_writer: building one record in place, the two modes
-- of the writer, and its output.
pub mod Builder
pub mod Body
pub mod Writer
pub mod Building
pub mod Serialize
pub mod Flushing
pub mod Refusing
