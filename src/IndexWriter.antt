-- ===== src/IndexWriter.antt =====
-- services/transaction-log/src/streams/index_writer: the end positions of a log's records.
pub mod Writer
pub mod Output
