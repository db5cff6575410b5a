-- ===== src/IndexedLog/Calls.antt =====
-- The calls of the two writers in `flush` and `sync_data`.
use transaction_log.Common.{
  Leaves, List, Outcome, [], ap, append-nil, arith, length, refl, subst, suc, sym, take, take-all,
  zero, ℕ, ◌++◌, ◌+◌, ◌∙◌, ◌≡◌, ◌≤◌,
}
use transaction_log.Io.Output.{Output, IsOutput}
use transaction_log.Record.View.{Record}
use transaction_log.RecordWriter.Writer as Records
use transaction_log.RecordWriter.Flushing.{OutputDone, usable-flush_buffer}
use transaction_log.IndexWriter.Writer as Index
use transaction_log.IndexWriter.Output.{IndexDone, index-flush_buffer}
use transaction_log.IndexedLog.Writer.{IndexedLogWriter, on_log, on_index}
use transaction_log.IndexedLog.Invariant.{bytes_of, size_of, entries}
use transaction_log.IndexedLog.Stages.{
  LogFront, IndexFront, At, Fails, on_log-Leaves, on_index-Leaves,
}

-- No part of nothing.
pub none_sent : (out : List ℕ) (k : ℕ) → out ++ take k [] ≡ out
none_sent out zero = append-nil out
none_sent out (suc k) = append-nil out

module _ {L I : Type 0} {log_file : Output L} {index_file : Output I} {log_bytes : L → List ℕ}
    {index_bytes : I → List ℕ} {log_stalls : L → ℕ} {index_stalls : I → ℕ}
    (log_laws : IsOutput log_file log_bytes log_stalls)
    (index_laws : IsOutput index_file index_bytes index_stalls) (done waiting : List Record)
    (w x : IndexedLogWriter L I) where
  abbrev pub P : List ℕ → List ℕ → List ℕ → List ℕ → IndexedLogWriter L I → Type 0
  P = At log_bytes index_bytes log_stalls index_stalls done waiting w

  abbrev pub F : IndexedLogWriter L I → Type 0
  F = Fails log_bytes index_bytes log_stalls index_stalls done waiting w

  pub log-flush_buffer :
      (fuel : ℕ) (index_left : List ℕ)
      → P (bytes_of waiting) (bytes_of done) index_left (entries 0 done) x
      → length (bytes_of waiting) + log_stalls w.log.destination ≤ fuel
      → let result = on_log (Records.flush_buffer log_file fuel) x in
        Leaves
          (P [] (bytes_of done ++ bytes_of waiting) index_left (entries 0 done))
          F
          result.0
          result.1
  log-flush_buffer fuel c s m =
      let call = Records.flush_buffer log_file fuel x.log in
      on_log-Leaves log_bytes index_bytes log_stalls index_stalls done waiting w x _ _ c
        (bytes_of waiting) [] call.0 call.1 s (λ k. (k, refl))
        (subst (λ y. OutputDone log_bytes log_stalls y [] x.log call.1 call.0) s.log_buffer
          (usable-flush_buffer log_laws x.log s.log_usable fuel
            (omega (arith, s.log_budget, ap length s.log_buffer))))

  -- All bytes of the log are out.
  all_out :
      (k : ℕ)
      → LogFront log_bytes index_bytes log_stalls index_stalls done waiting w
          ((bytes_of done ++ bytes_of waiting) ++ take k [])
  all_out k = (
    length (bytes_of waiting),
    none_sent (bytes_of done ++ bytes_of waiting) k
        ∙ ap (λ y. bytes_of done ++ y)
            (sym (take-all (length (bytes_of waiting)) (bytes_of waiting) (omega arith))),
  )

  -- A call of the log's writer that hands over nothing.
  pub log-flush :
      (call : Records.RecordWriter L
        → Outcome Records.RecordOutputError (Unit {0}) × Records.RecordWriter L)
      (index_left : List ℕ)
      → OutputDone log_bytes log_stalls [] x.log.buffer x.log (call x.log).1 (call x.log).0
      → P [] (bytes_of done ++ bytes_of waiting) index_left (entries 0 done) x
      → let result = on_log call x in
        Leaves
          (P [] (bytes_of done ++ bytes_of waiting) index_left (entries 0 done))
          F
          result.0
          result.1
  log-flush call c d s =
      let all = bytes_of done ++ bytes_of waiting in
      subst
        (λ y.
          Leaves (P [] y c (entries 0 done)) F (on_log {I = I} call x).0 (on_log {I = I} call x).1)
        (append-nil all)
        (on_log-Leaves log_bytes index_bytes log_stalls index_stalls done waiting w x _ _ c [] []
          (call x.log).0 (call x.log).1 s all_out
          (subst (λ y. OutputDone log_bytes log_stalls [] y x.log (call x.log).1 (call x.log).0)
            s.log_buffer d))

  pub index-flush_buffer_call :
      (fuel : ℕ)
      → P [] (bytes_of done ++ bytes_of waiting) (entries (size_of done) waiting) (entries 0 done) x
      → length (entries (size_of done) waiting) + index_stalls w.index.file ≤ fuel
      → let result = on_index (Index.flush_buffer index_file fuel) x in
        Leaves
          (P []
            (bytes_of done ++ bytes_of waiting)
            []
            (entries 0 done ++ entries (size_of done) waiting))
          F
          result.0
          result.1
  index-flush_buffer_call fuel s m =
      let call = Index.flush_buffer index_file fuel x.index in
      on_index-Leaves log_bytes index_bytes log_stalls index_stalls done waiting w x [] _ _
        (entries (size_of done) waiting) [] call.0 call.1 s (λ k. (k, refl))
        (subst (λ y. IndexDone index_bytes index_stalls y [] x.index call.1 call.0) s.index_buffer
          (index-flush_buffer index_laws x.index s.index_usable fuel
            (omega (arith, s.index_budget, ap length s.index_buffer))))

  index_out :
      (k : ℕ)
      → IndexFront log_bytes index_bytes log_stalls index_stalls done waiting w
          ((entries 0 done ++ entries (size_of done) waiting) ++ take k [])
  index_out k = (
    length (entries (size_of done) waiting),
    none_sent (entries 0 done ++ entries (size_of done) waiting) k
        ∙ ap (λ y. entries 0 done ++ y)
            (sym (
              take-all (length (entries (size_of done) waiting)) (entries (size_of done) waiting)
                (omega arith))),
  )

  -- A call of the index's writer that hands over nothing.
  pub index-flush_call :
      (call : Index.IndexWriter I → Outcome Index.IndexWriteError (Unit {0}) × Index.IndexWriter I)
      → IndexDone index_bytes index_stalls [] x.index.buffer x.index
          (call x.index).1
          (call x.index).0
      → P []
          (bytes_of done ++ bytes_of waiting)
          []
          (entries 0 done ++ entries (size_of done) waiting)
          x
      → let result = on_index call x in
        Leaves
          (P []
            (bytes_of done ++ bytes_of waiting)
            []
            (entries 0 done ++ entries (size_of done) waiting))
          F
          result.0
          result.1
  index-flush_call call d s =
      let all = entries 0 done ++ entries (size_of done) waiting in
      subst
        (λ y.
          Leaves (P [] (bytes_of done ++ bytes_of waiting) [] y) F (on_index {L = L} call x).0
            (on_index {L = L} call x).1)
        (append-nil all)
        (on_index-Leaves log_bytes index_bytes log_stalls index_stalls done waiting w x [] _ _ [] []
          (call x.index).0 (call x.index).1 s index_out
          (subst
            (λ y. IndexDone index_bytes index_stalls [] y x.index (call x.index).1 (call x.index).0)
            s.index_buffer d))
