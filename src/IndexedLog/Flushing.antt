-- ===== src/IndexedLog/Flushing.antt =====
-- `flush` and `sync_data` of an indexed log: the log goes before its index.
use transaction_log.Common.{
  Bool-cases, Exec, Leaves, List, Outcome, [], ap, append-nil, append_assoc, ap₂, arith, false, inl,
  inr, length, length-append, length-nil, ok, refl, subst, suc, sym, then-Leaves, true, zero, ℕ,
  ◌++◌, ◌+◌, ◌>>◌, ◌∙◌, ◌≡◌, ◌≤◌,
}
use transaction_log.Io.Output.{Output, IsOutput}
use transaction_log.Record.View.{Record}
use transaction_log.Record.RecordId
use transaction_log.RecordWriter.Writer as Records
use transaction_log.RecordWriter.Flushing.{usable-flush}
use transaction_log.IndexWriter.Writer as Index
use transaction_log.IndexWriter.Output.{index-flush}
use transaction_log.Location.LogFileId.{LogFileId}
use transaction_log.IndexedLog.State
use transaction_log.IndexedLog.State.{opened}
use transaction_log.IndexedLog.Writer
use transaction_log.IndexedLog.Writer.{
  IndexedLogWriter, IndexedLogWriteError, end_eq, on_log, on_index, flush_pair, flush, sync_pair,
  sync_data,
}
use transaction_log.IndexedLog.Invariant.{
  bytes_of, size_of, entries, id_at, end_at, IsIndexed, bytes_of-append, size_of-append,
  entries-append,
}
use transaction_log.IndexedLog.Calls.{
  log-flush_buffer, log-flush, index-flush_buffer_call, index-flush_call,
}
use transaction_log.IndexedLog.Stages.{Broken, At}

-- The waiting records are in both files too; what is synchronized is as before.
abbrev pub Flushed :
    {L I : Type 0} (log_bytes : L → List ℕ) (index_bytes : I → List ℕ)
    (durable done waiting : List Record) (before after : IndexedLogWriter L I)
    → Type 0
Flushed log_bytes index_bytes durable done waiting before after =
    IsIndexed log_bytes index_bytes durable (done ++ waiting) [] after
    × (after.synced_end ≡ before.synced_end)

pub end_eq-end_at :
    (f : LogFileId) (n m p q : ℕ) → end_eq (end_at f n p) (end_at f m q) ≡ true → n ≡ m
unfolding end_eq RecordId.eq
end_eq-end_at f zero zero p q h = refl
end_eq-end_at f zero (suc m) p q h = ground arith
end_eq-end_at f (suc n) zero p q h = ground arith
end_eq-end_at f (suc n) (suc m) p q h = ground arith

module _ {L I : Type 0} (log_file : Output L) (index_file : Output I) where
  flush-nothing :
      (fuel : ℕ) (w : IndexedLogWriter L I)
      → w.state ≡ opened
      → end_eq w.buffered_end w.flushed_end ≡ true
      → flush log_file index_file fuel w ≡ (ok tt, w)
  unfolding flush Writer.check_open
  flush-nothing fuel w o e = ground arith

  flush-pair :
      (fuel : ℕ) (w : IndexedLogWriter L I)
      → w.state ≡ opened
      → end_eq w.buffered_end w.flushed_end ≡ false
      → flush log_file index_file fuel w ≡ flush_pair log_file index_file fuel w
  unfolding flush Writer.check_open
  flush-pair fuel w o e = ground arith

module _ {L I : Type 0} {log_file : Output L} {index_file : Output I} {log_bytes : L → List ℕ}
    {index_bytes : I → List ℕ} {log_stalls : L → ℕ} {index_stalls : I → ℕ}
    (log_laws : IsOutput log_file log_bytes log_stalls)
    (index_laws : IsOutput index_file index_bytes index_stalls)
    {durable done waiting : List Record} where
  -- The pair when a call has begun.
  pub armed_stage :
      (w : IndexedLogWriter L I)
      → IsIndexed log_bytes index_bytes durable done waiting w
      → At log_bytes index_bytes log_stalls index_stalls done waiting w
          (bytes_of waiting)
          (bytes_of done)
          (entries (size_of done) waiting)
          (entries 0 done)
          (record w { state = State.unusable })
  armed_stage w h = record {
    armed = refl;
    same_id = refl;
    same_expected = refl;
    same_count = refl;
    same_buffered = refl;
    same_flushed = refl;
    same_synced = refl;
    log_usable = h.log_usable;
    index_usable = h.index_usable;
    log_buffer = h.log_buffer;
    log_file = h.log_file;
    index_buffer = h.index_buffer;
    index_file = h.index_file;
    log_budget = omega arith;
    index_budget = omega arith;
  }

  -- The files with the waiting records in them.
  flushed_pair :
      (w x : IndexedLogWriter L I)
      → IsIndexed log_bytes index_bytes durable done waiting w
      → At log_bytes index_bytes log_stalls index_stalls done waiting w []
          (bytes_of done ++ bytes_of waiting)
          []
          (entries 0 done ++ entries (size_of done) waiting)
          x
      → IsIndexed log_bytes index_bytes durable
          (done ++ waiting)
          []
          (record x { flushed_end = x.buffered_end; state = opened })
  flushed_pair w x h s =
      let n : length (done ++ waiting) ≡ length done + length waiting =
        length-append done waiting in
      let z : size_of (done ++ waiting) ≡ size_of done + size_of waiting =
        size_of-append done waiting in
      let e : x.file_id.file_number ≡ w.file_id.file_number = ap (λ f. f.file_number) s.same_id in
      let ends : x.buffered_end
          ≡ end_at x.file_id (length (done ++ waiting)) (size_of (done ++ waiting)) =
        s.same_buffered ∙ h.buffered ∙ (λ i. end_at (sym s.same_id i) (sym n i) (sym z i)) in
      record {
        is_open = refl;
        file = omega (arith, h.file);
        count = omega (arith, s.same_count, h.count);
        within = omega (arith, h.within);
        addressable = omega (arith, h.addressable);
        small = omega (arith, h.small);
        expected = s.same_expected ∙ h.expected ∙ (λ i. id_at (sym s.same_id i) (
            let k : length done + length waiting ≡ length (done ++ waiting) + 0 = omega arith in
            k i));
        buffered = ends ∙ (λ i.
            end_at x.file_id
              (let k : length (done ++ waiting) ≡ length (done ++ waiting) + 0 = omega arith in k i)
              (let k : size_of (done ++ waiting) ≡ size_of (done ++ waiting) + 0 = omega arith in
                k i));
        flushed = ends;
        synced =
            s.same_synced
            ∙ h.synced
            ∙ ap (λ f. end_at f (length durable) (size_of durable)) (sym s.same_id);
        order = (
          h.order.0 ++ waiting,
          ap (λ y. y ++ waiting) h.order.1 ∙ append_assoc durable h.order.0 waiting,
        );
        log_usable = s.log_usable;
        index_usable = s.index_usable;
        log_file = s.log_file ∙ sym (bytes_of-append done waiting);
        log_buffer = s.log_buffer;
        index_file =
            s.index_file
            ∙ ap (λ y. entries 0 done ++ entries y waiting)
                (let k : size_of done ≡ 0 + size_of done = omega arith in k)
            ∙ sym (entries-append 0 done waiting);
        index_buffer = s.index_buffer;
      }

  flush_pair-Leaves :
      (fuel : ℕ) (w : IndexedLogWriter L I)
      → IsIndexed log_bytes index_bytes durable done waiting w
      → length (bytes_of waiting) + log_stalls w.log.destination ≤ fuel
      → length (entries (size_of done) waiting) + index_stalls w.index.file ≤ fuel
      → let result = flush_pair log_file index_file fuel w in
        Leaves
          (Flushed log_bytes index_bytes durable done waiting w)
          (Broken log_bytes index_bytes done waiting w)
          result.0
          result.1
  unfolding flush_pair
  flush_pair-Leaves fuel w h ml mi =
      let P : List ℕ → List ℕ → List ℕ → List ℕ → IndexedLogWriter L I → Type 0 =
        At log_bytes index_bytes log_stalls index_stalls done waiting w in
      let F : IndexedLogWriter L I → Type 0 = Broken log_bytes index_bytes done waiting w in
      let I' = Flushed log_bytes index_bytes durable done waiting w in
      let all = bytes_of done ++ bytes_of waiting in
      let c = entries (size_of done) waiting in
      let d = entries 0 done in
      let m₁ : Exec (IndexedLogWriter L I) IndexedLogWriteError (Unit {0}) =
        on_log (Records.flush_buffer log_file fuel) in
      let m₂ : Exec (IndexedLogWriter L I) IndexedLogWriteError (Unit {0}) =
        on_log (Records.flush log_file) in
      let m₃ : Exec (IndexedLogWriter L I) IndexedLogWriteError (Unit {0}) =
        on_index (Index.flush_buffer index_file fuel) in
      let m₄ : Exec (IndexedLogWriter L I) IndexedLogWriteError (Unit {0}) =
        on_index (Index.flush index_file) in
      let armed = record w { state = State.unusable } in
      let start : P (bytes_of waiting) (bytes_of done) c d armed = armed_stage w h in
      then-Leaves (P [] all [] (d ++ c)) I' F (m₁ >> m₂ >> m₃ >> m₄) _ armed
        (then-Leaves (P [] all [] (d ++ c)) (P [] all [] (d ++ c)) F (m₁ >> m₂ >> m₃) m₄ armed
          (then-Leaves (P [] all c d) (P [] all [] (d ++ c)) F (m₁ >> m₂) m₃ armed
            (then-Leaves (P [] all c d) (P [] all c d) F m₁ m₂ armed
              (log-flush_buffer log_laws index_laws done waiting w armed fuel c start ml)
              (λ x s.
                log-flush log_laws index_laws done waiting w x (Records.flush log_file) c
                  (usable-flush log_laws x.log s.log_usable).0 s))
            (λ x s. index-flush_buffer_call log_laws index_laws done waiting w x fuel s mi))
          (λ x s.
            index-flush_call log_laws index_laws done waiting w x (Index.flush index_file)
              (index-flush index_laws x.index s.index_usable).0 s))
        (λ x s. (flushed_pair w x h s, s.same_synced))

  nothing_waits :
      (w : IndexedLogWriter L I)
      → IsIndexed log_bytes index_bytes durable done waiting w
      → length waiting ≡ 0
      → IsIndexed log_bytes index_bytes durable (done ++ waiting) [] w
  nothing_waits w h n =
      let e : waiting ≡ [] = length-nil waiting n in
      let k : done ≡ done ++ waiting = sym (append-nil done) ∙ ap (λ y. done ++ y) (sym e) in
      subst (λ y. IsIndexed log_bytes index_bytes durable y [] w) k
        (subst (λ y. IsIndexed log_bytes index_bytes durable done y w) e h)

  -- `flush` of an open log, with fuel for each buffered byte and interruption of either file, ends
  -- without a panic. On success every accepted record is in the log and its entry in the index, and what
  -- is synchronized is unchanged. A failed or dropped call leaves an unusable writer; of the waiting
  -- records, each file then has a front of its bytes, and the index has none of them unless the log has
  -- every byte.
  pub flush-Leaves :
      (fuel : ℕ) (w : IndexedLogWriter L I)
      → IsIndexed log_bytes index_bytes durable done waiting w
      → length (bytes_of waiting) + log_stalls w.log.destination ≤ fuel
      → length (entries (size_of done) waiting) + index_stalls w.index.file ≤ fuel
      → let result = flush log_file index_file fuel w in
        Leaves
          (Flushed log_bytes index_bytes durable done waiting w)
          (Broken log_bytes index_bytes done waiting w)
          result.0
          result.1
  flush-Leaves fuel w h ml mi =
      let Result = λ (x : Outcome IndexedLogWriteError (Unit {0}) × IndexedLogWriter L I).
        Leaves (Flushed log_bytes index_bytes durable done waiting w)
          (Broken log_bytes index_bytes done waiting w) x.0 x.1 in
      elim (Bool-cases (end_eq w.buffered_end w.flushed_end)) [
        | inl e ↦
            let n : length done + length waiting ≡ length done =
              end_eq-end_at w.file_id _ _ (size_of done + size_of waiting) (size_of done)
                (sym (ap₂ end_eq h.buffered h.flushed) ∙ e) in
            subst Result (sym (flush-nothing log_file index_file fuel w h.is_open e))
              (nothing_waits w h (omega arith), refl)
        | inr e ↦
            subst Result (sym (flush-pair log_file index_file fuel w h.is_open e))
              (flush_pair-Leaves fuel w h ml mi)
      ]
