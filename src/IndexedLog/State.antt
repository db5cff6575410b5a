-- ===== src/IndexedLog/State.antt =====
-- indexed_log_writer_state.rs: what an indexed log still allows.
pub data IndexedLogWriterState : Type 0 where
  opened unusable finalized : IndexedLogWriterState
