-- ===== src/Location.antt =====
-- services/transaction-log/src/streams/location: which log file holds a record, and where in it.
pub mod LogFileNumber
pub mod LogFilePosition
pub mod LogFileId
pub mod Endpoints
pub mod RecordRange
pub mod Files
pub mod Steps
pub mod Ranges
