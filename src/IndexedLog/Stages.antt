-- ===== src/IndexedLog/Stages.antt =====
-- The calls of `flush` and `sync_data`, one after the other.
use transaction_log.Common.{
  Leaves, List, Outcome, ap, append-nil, arith, dropped, err, inl, inr, length, map_err, ok,
  panicked, stuck, sym, take, take-all, true, ℕ, ◌++◌, ◌∙◌, ◌≡◌, ◌≤◌, ◌⊎◌,
}
use transaction_log.Record.View.{Record}
use transaction_log.RecordWriter.Writer as Records
use transaction_log.RecordWriter.Writer.{RecordWriter, RecordOutputError}
use transaction_log.RecordWriter.Flushing.{OutputDone}
use transaction_log.IndexWriter.Writer as Index
use transaction_log.IndexWriter.Writer.{IndexWriter, IndexWriteError}
use transaction_log.IndexWriter.Output.{IndexDone}
use transaction_log.IndexedLog.State
use transaction_log.IndexedLog.Writer.{IndexedLogWriter, log, index}
use transaction_log.IndexedLog.Invariant.{bytes_of, size_of, entries}

-- A pair of files that a failed or dropped call has left. Of the waiting records, each file has a
-- front of its bytes; the index has none at all unless the log has every one.
pub record Broken {L I : Type 0} (log_bytes : L → List ℕ) (index_bytes : I → List ℕ)
    (done waiting : List Record) (before after : IndexedLogWriter L I) : Type 0 where
  pub is_unusable : after.state ≡ State.unusable
  pub synced : after.synced_end ≡ before.synced_end
  pub log_prefix :
      (k : ℕ) × (log_bytes after.log.destination ≡ bytes_of done ++ take k (bytes_of waiting))
  pub index_prefix :
      (k : ℕ) × (index_bytes after.index.file
        ≡ entries 0 done ++ take k (entries (size_of done) waiting))
  pub log_first :
      (index_bytes after.index.file ≡ entries 0 done)
      ⊎ (log_bytes after.log.destination ≡ bytes_of done ++ bytes_of waiting)

-- The pair between two calls: what is in the buffers, and what is in the files.
pub record Stage {L I : Type 0} (log_bytes : L → List ℕ) (index_bytes : I → List ℕ)
    (log_stalls : L → ℕ) (index_stalls : I → ℕ) (log_left log_out index_left index_out : List ℕ)
    (before after : IndexedLogWriter L I) : Type 0 where
  pub armed : after.state ≡ State.unusable
  pub same_id : after.file_id ≡ before.file_id
  pub same_expected : after.expected_record_id ≡ before.expected_record_id
  pub same_count : after.record_count ≡ before.record_count
  pub same_buffered : after.buffered_end ≡ before.buffered_end
  pub same_flushed : after.flushed_end ≡ before.flushed_end
  pub same_synced : after.synced_end ≡ before.synced_end
  pub log_usable : after.log.usable ≡ true
  pub index_usable : after.index.usable ≡ true
  pub log_buffer : after.log.buffer ≡ log_left
  pub log_file : log_bytes after.log.destination ≡ log_out
  pub index_buffer : after.index.buffer ≡ index_left
  pub index_file : index_bytes after.index.file ≡ index_out
  pub log_budget : log_stalls after.log.destination ≤ log_stalls before.log.destination
  pub index_budget : index_stalls after.index.file ≤ index_stalls before.index.file

module _ {L I : Type 0} (log_bytes : L → List ℕ) (index_bytes : I → List ℕ) (log_stalls : L → ℕ)
    (index_stalls : I → ℕ) (done waiting : List Record) (before : IndexedLogWriter L I) where
  abbrev pub At : List ℕ → List ℕ → List ℕ → List ℕ → IndexedLogWriter L I → Type 0
  At a b c d x = Stage log_bytes index_bytes log_stalls index_stalls a b c d before x

  abbrev pub Fails : IndexedLogWriter L I → Type 0
  Fails x = Broken log_bytes index_bytes done waiting before x

  -- The front of the waiting bytes that the log may have.
  abbrev pub LogFront : List ℕ → Type 0
  LogFront bytes = (k : ℕ) × (bytes ≡ bytes_of done ++ take k (bytes_of waiting))

  abbrev pub IndexFront : List ℕ → Type 0
  IndexFront bytes = (k : ℕ) × (bytes ≡ entries 0 done ++ take k (entries (size_of done) waiting))

  -- A call of the log's writer, before the index has anything new.
  pub on_log-Leaves :
      (x : IndexedLogWriter L I) (log_left log_out index_left sent left : List ℕ)
      (r : Outcome RecordOutputError (Unit {0})) (l : RecordWriter L)
      → At log_left log_out index_left (entries 0 done) x
      → ((k : ℕ) → LogFront (log_out ++ take k sent))
      → OutputDone log_bytes log_stalls sent left x.log l r
      → Leaves
          (At left (log_out ++ sent) index_left (entries 0 done))
          Fails
          (map_err log r)
          (record x { log = l })
  on_log-Leaves x a b c sent left (ok u) l s front (h, e, f, g) = record {
    armed = s.armed;
    same_id = s.same_id;
    same_expected = s.same_expected;
    same_count = s.same_count;
    same_buffered = s.same_buffered;
    same_flushed = s.same_flushed;
    same_synced = s.same_synced;
    log_usable = h;
    index_usable = s.index_usable;
    log_buffer = e;
    log_file = f ∙ ap (λ y. y ++ sent) s.log_file;
    index_buffer = s.index_buffer;
    index_file = s.index_file;
    log_budget = omega (arith, s.log_budget);
    index_budget = s.index_budget;
  }
  on_log-Leaves x a b c sent left (err (Records.io e)) l s front (h, g, (k, f)) = record {
    is_unusable = s.armed;
    synced = s.same_synced;
    log_prefix = ((front k).0, f ∙ ap (λ y. y ++ take k sent) s.log_file ∙ (front k).1);
    index_prefix = (0, s.index_file ∙ sym (append-nil (entries 0 done)));
    log_first = inl s.index_file;
  }
  on_log-Leaves x a b c sent left (err Records.unusable) l s front h = absurd h
  on_log-Leaves x a b c sent left dropped l s front (h, g, (k, f)) = record {
    is_unusable = s.armed;
    synced = s.same_synced;
    log_prefix = ((front k).0, f ∙ ap (λ y. y ++ take k sent) s.log_file ∙ (front k).1);
    index_prefix = (0, s.index_file ∙ sym (append-nil (entries 0 done)));
    log_first = inl s.index_file;
  }
  on_log-Leaves x a b c sent left panicked l s front h = h
  on_log-Leaves x a b c sent left stuck l s front h = h

  -- A call of the index's writer, once the log has all bytes.
  pub on_index-Leaves :
      (x : IndexedLogWriter L I) (log_left index_left index_out sent left : List ℕ)
      (r : Outcome IndexWriteError (Unit {0})) (i : IndexWriter I)
      → At log_left (bytes_of done ++ bytes_of waiting) index_left index_out x
      → ((k : ℕ) → IndexFront (index_out ++ take k sent))
      → IndexDone index_bytes index_stalls sent left x.index i r
      → Leaves
          (At log_left (bytes_of done ++ bytes_of waiting) left (index_out ++ sent))
          Fails
          (map_err index r)
          (record x { index = i })
  on_index-Leaves x a c d sent left (ok u) i s front (h, e, f, g) = record {
    armed = s.armed;
    same_id = s.same_id;
    same_expected = s.same_expected;
    same_count = s.same_count;
    same_buffered = s.same_buffered;
    same_flushed = s.same_flushed;
    same_synced = s.same_synced;
    log_usable = s.log_usable;
    index_usable = h;
    log_buffer = s.log_buffer;
    log_file = s.log_file;
    index_buffer = e;
    index_file = f ∙ ap (λ y. y ++ sent) s.index_file;
    log_budget = s.log_budget;
    index_budget = omega (arith, s.index_budget);
  }
  on_index-Leaves x a c d sent left (err (Index.io e)) i s front (h, g, (k, f)) = record {
    is_unusable = s.armed;
    synced = s.same_synced;
    log_prefix = (
      length (bytes_of waiting),
      s.log_file
          ∙ ap (λ y. bytes_of done ++ y)
              (sym (take-all (length (bytes_of waiting)) (bytes_of waiting) (omega arith))),
    );
    index_prefix = ((front k).0, f ∙ ap (λ y. y ++ take k sent) s.index_file ∙ (front k).1);
    log_first = inr s.log_file;
  }
  on_index-Leaves x a c d sent left (err Index.unusable) i s front h = absurd h
  on_index-Leaves x a c d sent left dropped i s front (h, g, (k, f)) = record {
    is_unusable = s.armed;
    synced = s.same_synced;
    log_prefix = (
      length (bytes_of waiting),
      s.log_file
          ∙ ap (λ y. bytes_of done ++ y)
              (sym (take-all (length (bytes_of waiting)) (bytes_of waiting) (omega arith))),
    );
    index_prefix = ((front k).0, f ∙ ap (λ y. y ++ take k sent) s.index_file ∙ (front k).1);
    log_first = inr s.log_file;
  }
  on_index-Leaves x a c d sent left panicked i s front h = h
  on_index-Leaves x a c d sent left stuck i s front h = h
