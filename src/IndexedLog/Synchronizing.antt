-- ===== src/IndexedLog/Synchronizing.antt =====
-- `sync_data` and `finalize` of an indexed log.
use transaction_log.Io.Output.{Output}
use transaction_log.Record.View.{Record}
use transaction_log.RecordWriter.Writer as Records
use transaction_log.IndexWriter.Writer as Index
use transaction_log.IndexedLog.State
