-- ===== src/IndexedLog/Appending.antt =====
-- `write_record`: which record the log takes next, and what that does to it.
use transaction_log.Common.{
  ==→ne, Bool, List, Outcome, [], ap, append-nil, ap₂, arith, err, false, if◌then◌else◌, length,
  length-append, not, ok, panicked, refl, some, subst, suc, sym, to_le_bytes, true, zero, ℕ, ◌*◌,
  ◌++◌, ◌+◌, ◌<◌, ◌==◌, ◌∙◌, ◌∷◌, ◌≡◌, ◌≤◌,
}
use transaction_log.Record.Protocol.{max_record_len}
use transaction_log.Record.RecordId
use transaction_log.Record.RecordId.{RecordId, u64_max}
use transaction_log.Record.View
use transaction_log.Record.View.{Record}
use transaction_log.RecordWriter.Writer as Records
use transaction_log.IndexWriter.Writer as Index
use transaction_log.IndexWriter.Writer.{index_entry_len}
use transaction_log.Location.LogFileNumber
use transaction_log.Location.LogFileNumber.{records_per_file, IsLogFileNumber}
use transaction_log.Location.LogFilePosition.{advance}
use transaction_log.Location.LogFileId
use transaction_log.Location.LogFileId.{LogFileId}
use transaction_log.Location.Endpoints
use transaction_log.Location.Endpoints.{RecordEndLocation}
use transaction_log.IndexedLog.State.{opened}
use transaction_log.IndexedLog.Writer
use transaction_log.IndexedLog.Writer.{
  IndexedLogWriter, IndexedLogWriteError, AppendOutcome, full, unexpected_record_id, write_record,
  append, next_start,
}
use transaction_log.IndexedLog.Invariant.{
  size_of, bytes_of, id_at, end_at, IsIndexed, size_of-append, bytes_of-append, entries-append,
}

module _ {L I : Type 0} (w : IndexedLogWriter L I) where
  next_start-end_at :
      (n p : ℕ)
      → n < records_per_file
      → IsLogFileNumber w.file_id.file_number
      → w.file_id.file_number * records_per_file + n ≤ u64_max
      → p ≤ max_record_len * n
      → w.buffered_end ≡ end_at w.file_id n p
      → next_start w ≡ some (record { record_id = id_at w.file_id n; position = p })
  unfolding next_start LogFileId.first_record_id Endpoints.next_record_start RecordId.next
      LogFileId.from_record_id LogFileId.eq LogFileNumber.from_sequence_number Endpoints.end_file
  next_start-end_at zero p lt f a s e = ground arith
  next_start-end_at (suc n) p lt f a s e = ground arith

  -- What the log holds after an append.
  abbrev appended : Record → RecordEndLocation → RecordId → IndexedLogWriter L I
  appended r end next_id = record w {
    log = record w.log { buffer = w.log.buffer ++ r.bytes };
    index = record w.index { buffer = w.index.buffer ++ to_le_bytes index_entry_len end.position };
    record_count = w.record_count + 1;
    buffered_end = some end;
    expected_record_id = next_id;
    state = opened;
  }

  append-appended :
      (r : Record) (end : RecordEndLocation) (next_id : RecordId)
      → w.log.usable ≡ true
      → w.index.usable ≡ true
      → append r end next_id w ≡ (
        ok (record { end = end; file_full = w.record_count + 1 == records_per_file }),
        appended r end next_id,
      )
  unfolding append Records.write_record Index.write
  append-appended r end next_id l i = ground arith

  -- The answer to a record, for a log of `n` records of `p` bytes.
  abbrev pub answer : ℕ → ℕ → Record → Outcome IndexedLogWriteError AppendOutcome
  answer n p r =
      let next_id = id_at w.file_id n in
      if n == records_per_file
      then err full
      else if not (RecordId.eq (View.id r) next_id)
      then err (unexpected_record_id next_id (View.id r))
      else if next_id.sequence_number == u64_max
      then panicked
      else ok (record {
        end = record { record_id = next_id; position = p + length r.bytes };
        file_full = n + 1 == records_per_file;
      })

  -- The successor of the record's id, its end and the log after it.
  abbrev after_record : ℕ → ℕ → Record → IndexedLogWriter L I
  after_record n p r =
      appended r (record { record_id = id_at w.file_id n; position = p + length r.bytes })
        (id_at w.file_id (n + 1))

  write_record-answer :
      (n p : ℕ) (r : Record)
      → w.state ≡ opened
      → w.record_count ≡ n
      → n ≤ records_per_file
      → IsLogFileNumber w.file_id.file_number
      → w.file_id.file_number * records_per_file + n ≤ u64_max
      → p ≤ max_record_len * n
      → w.buffered_end ≡ end_at w.file_id n p
      → w.expected_record_id ≡ id_at w.file_id n
      → length r.bytes ≤ max_record_len
      → w.log.usable ≡ true
      → w.index.usable ≡ true
      → write_record r w
        ≡ (answer n p r, elim (answer n p r) [ ok a ↦ after_record n p r | other ↦ w ])
  unfolding write_record Writer.check_open Endpoints.to_end advance RecordId.next View.length
  write_record-answer n p r o c within f a s e x small l i = ground (
    arith,
    next_start-end_at n p,
    append-appended r (record { record_id = id_at w.file_id n; position = p + length r.bytes })
        (id_at w.file_id (n + 1)),
  )

-- What `write_record` leaves: with a success, one more waiting record; else the log as it was.
abbrev pub Appends :
    {L I : Type 0} (log_bytes : L → List ℕ) (index_bytes : I → List ℕ)
    (durable done waiting : List Record) (r : Record) (before after : IndexedLogWriter L I)
    → Outcome IndexedLogWriteError AppendOutcome
    → Type 0
Appends log_bytes index_bytes durable done waiting r before after (ok a) =
    IsIndexed log_bytes index_bytes durable done (waiting ++ (r ∷ [])) after
Appends log_bytes index_bytes durable done waiting r before after other = after ≡ before

module _ {L I : Type 0} {log_bytes : L → List ℕ} {index_bytes : I → List ℕ}
    {durable done waiting : List Record} (w : IndexedLogWriter L I)
    (h : IsIndexed log_bytes index_bytes durable done waiting w) where
  after_record-IsIndexed :
      (r : Record)
      → length r.bytes ≤ max_record_len
      → length done + length waiting < records_per_file
      → w.file_id.file_number * records_per_file + (length done + length waiting) < u64_max
      → IsIndexed log_bytes index_bytes durable done
          (waiting ++ (r ∷ []))
          (after_record w (length done + length waiting) (size_of done + size_of waiting) r)
  after_record-IsIndexed r small lt a =
      let n : length (waiting ++ (r ∷ [])) ≡ length waiting + 1 = length-append waiting (r ∷ []) in
      let s : size_of (waiting ++ (r ∷ [])) ≡ size_of waiting + length r.bytes =
        omega (arith, size_of-append waiting (r ∷ [])) in
      record {
        is_open = refl;
        file = h.file;
        count = omega (arith, h.count);
        within = omega arith;
        addressable = omega arith;
        small = omega (arith, h.small);
        expected = ap (id_at w.file_id) (omega arith);
        buffered =
            ap₂ (end_at w.file_id)
              (let e : suc (length done + length waiting)
                    ≡ length done + length (waiting ++ (r ∷ [])) =
                  omega arith in
                e)
              (let e : size_of done + size_of waiting + length r.bytes
                    ≡ size_of done + size_of (waiting ++ (r ∷ [])) =
                  omega arith in
                e);
        flushed = h.flushed;
        synced = h.synced;
        order = h.order;
        log_usable = h.log_usable;
        index_usable = h.index_usable;
        log_file = h.log_file;
        log_buffer =
            ap (λ x. x ++ r.bytes) h.log_buffer
            ∙ ap (λ x. bytes_of waiting ++ x) (sym (append-nil r.bytes))
            ∙ sym (bytes_of-append waiting (r ∷ []));
        index_file = h.index_file;
        index_buffer =
            ap
              (λ x.
                x ++ to_le_bytes index_entry_len (size_of done + size_of waiting + length r.bytes))
              h.index_buffer
            ∙ sym (entries-append (size_of done) waiting (r ∷ []));
      }

  -- The branches of an answer.
  branches :
      (b₁ b₂ b₃ : Bool) (e₁ e₂ : IndexedLogWriteError) (a : AppendOutcome) (r : Record)
      (after : IndexedLogWriter L I)
      → (b₁ ≡ false
          → b₃ ≡ false
          → IsIndexed log_bytes index_bytes durable done (waiting ++ (r ∷ [])) after)
      → let x = (if b₁ then err e₁ else if b₂ then err e₂ else if b₃ then panicked else ok a) in
        Appends log_bytes index_bytes durable done waiting r w
          (elim x [ ok y ↦ after | other ↦ w ])
          x
  branches true b₂ b₃ e₁ e₂ a r after k = refl
  branches false true b₃ e₁ e₂ a r after k = refl
  branches false false true e₁ e₂ a r after k = refl
  branches false false false e₁ e₂ a r after k = k refl refl

  -- `write_record` on an open log answers by its number of records, the id it expects and the record's id
  -- alone: `full` at 100,000 records, else the unexpected id, else a panic at the last sequence number
  -- there is, and else the record's end and whether the file is full now. On success the record is the last
  -- of those that wait, in the log's buffer and in the index's; on any other answer the log is unchanged.
  pub write_record-Appends :
      (r : Record)
      → length r.bytes ≤ max_record_len
      → ((write_record r w).0
          ≡ answer w (length done + length waiting) (size_of done + size_of waiting) r)
        × Appends log_bytes index_bytes durable done waiting r w
            (write_record r w).1
            (write_record r w).0
  write_record-Appends r small =
      let n = length done + length waiting in
      let p = size_of done + size_of waiting in
      let next_id = id_at w.file_id n in
      subst
        (λ x.
          (x.0 ≡ answer w n p r) × Appends log_bytes index_bytes durable done waiting r w x.1 x.0)
        (sym (
          write_record-answer w n p r h.is_open h.count h.within h.file h.addressable h.small
            h.buffered h.expected small h.log_usable h.index_usable))
        (
          refl,
          branches (n == records_per_file) (not (RecordId.eq (View.id r) next_id))
              (next_id.sequence_number == u64_max) full (unexpected_record_id next_id (View.id r))
              (record {
                end = record { record_id = next_id; position = p + length r.bytes };
                file_full = n + 1 == records_per_file;
              })
              r (after_record w n p r)
              (λ e₁ e₃.
                after_record-IsIndexed r small
                  (omega (arith, h.within, ==→ne n records_per_file e₁))
                  (omega (arith, h.addressable, ==→ne next_id.sequence_number u64_max e₃))),
        )
