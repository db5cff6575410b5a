-- ===== src/IndexedLog/Durable.antt =====
-- What a successful `sync_data` of an indexed log has made durable.
use transaction_log.Common.{
  Leaves, List, OnOk, Outcome, [], arith, dropped, err, ok, panicked, stuck, then-OnOk, ℕ, ◌∙◌, ◌≡◌,
}
use transaction_log.Io.Output.{Output, Completes}
use transaction_log.Record.View.{Record}
use transaction_log.RecordWriter.Writer as Records
use transaction_log.IndexWriter.Writer as Index
use transaction_log.IndexedLog.Writer.{IndexedLogWriter, flush, sync_pair, sync_data}
use transaction_log.IndexedLog.Invariant.{bytes_of, entries, IsIndexed}

module _ {L I : Type 0} (log_bytes log_durable : L → List ℕ)
    (index_bytes index_durable : I → List ℕ) where
  -- Every byte that the two files have taken is durable.
  abbrev pub IsDurable : IndexedLogWriter L I → Type 0
  IsDurable w =
      (log_durable w.log.destination ≡ log_bytes w.log.destination)
      × (index_durable w.index.file ≡ index_bytes w.index.file)

  -- The records `done` are written, flushed and synchronized: by the writer's own account, and in
  -- what is durable in the two files.
  abbrev pub IsSynced : List Record → IndexedLogWriter L I → Type 0
  IsSynced done w =
      IsIndexed log_bytes index_bytes done done [] w
      × (log_durable w.log.destination ≡ bytes_of done)
      × (index_durable w.index.file ≡ entries 0 done)

  module _ (Bad : IndexedLogWriter L I → Type 0) (done : List Record) where
    -- What is durable, in terms of the records.
    pub Leaves-IsSynced :
        {E A : Type 0} (r : Outcome E A) (w : IndexedLogWriter L I)
        → Leaves (λ x. IsIndexed log_bytes index_bytes done done [] x × IsDurable x) Bad r w
        → Leaves (IsSynced done) Bad r w
    Leaves-IsSynced (ok a) w (h, (l, i)) = (h, l ∙ h.log_file, i ∙ h.index_file)
    Leaves-IsSynced (err e) w b = b
    Leaves-IsSynced dropped w b = b
    Leaves-IsSynced panicked w b = b
    Leaves-IsSynced stuck w b = b

module _ {L I : Type 0} {log_file : Output L} {index_file : Output I}
    {log_bytes log_reached log_durable : L → List ℕ}
    {index_bytes index_reached index_durable : I → List ℕ}
    (log_completes : Completes log_file log_bytes log_reached log_durable)
    (index_completes : Completes index_file index_bytes index_reached index_durable) where
  sync_pair-IsDurable :
      (w : IndexedLogWriter L I)
      → let result = sync_pair log_file index_file w in
        OnOk (IsDurable log_bytes log_durable index_bytes index_durable result.1) result.0
  unfolding sync_pair Records.sync_data Index.sync_data
  sync_pair-IsDurable w =
      let l = log_completes.on_sync w.log.destination in
      let i = index_completes.on_sync w.index.file in ground (arith, l, i)

  pub sync_data-IsDurable :
      (fuel : ℕ) (w : IndexedLogWriter L I)
      → let result = sync_data log_file index_file fuel w in
        OnOk (IsDurable log_bytes log_durable index_bytes index_durable result.1) result.0
  unfolding sync_data
  sync_data-IsDurable fuel w =
      then-OnOk (IsDurable log_bytes log_durable index_bytes index_durable)
        (flush log_file index_file fuel) (sync_pair log_file index_file) w sync_pair-IsDurable
