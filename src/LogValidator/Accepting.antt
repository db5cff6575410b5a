-- ===== src/LogValidator/Accepting.antt =====
-- One record of a batch.
use transaction_log.Common.{
  [], arith, false, length, ltb, none, ok, panicked, some, suc, true, zero, ℕ, ◌*◌, ◌++◌, ◌+◌, ◌<◌,
  ◌∷◌, ◌≡◌, ◌≤◌,
}
use transaction_log.Record.RecordId
use transaction_log.Record.RecordId.{RecordId, u64_max}
use transaction_log.Record.View
use transaction_log.Record.View.{Record}
use transaction_log.RecordReader.Reader.{RecordReader, try_read_next}
use transaction_log.Location.LogFileNumber.{records_per_file}
use transaction_log.Location.LogFilePosition.{LogFilePosition, advance}
use transaction_log.Location.LogFileId
use transaction_log.Location.LogFileId.{LogFileId}
use transaction_log.Location.Endpoints.{to_end}
use transaction_log.IndexedLog.Invariant.{id_at, end_at}
use transaction_log.LogValidator.Scan.{
  go_on, after_take, accept_batch, Accepted, Batch, break_scan, Call, found, unexpected_record_id,
  next_start, accept,
}
use transaction_log.LogValidator.Findings.{IsPlace}

-- The next record starts where the last one ends, if it has a sequence number.
pub next_start-some :
    (f : LogFileId) (n p : ℕ)
    → IsPlace f n p
    → f.file_number * records_per_file + n ≤ u64_max
    → next_start f (end_at f n p) ≡ some (record { record_id = id_at f n; position = p })
unfolding next_start LogFileId.first_record_id RecordId.next
next_start-some f zero p h le = ground (arith, h.start, h.file)
next_start-some f (suc n) p h le = ground arith

pub next_start-none :
    (f : LogFileId) (n p : ℕ)
    → IsPlace f n p
    → u64_max < f.file_number * records_per_file + n
    → next_start f (end_at f n p) ≡ none
unfolding next_start RecordId.next
next_start-none f zero p h lt = absurd (omega (arith, h.file))
next_start-none f (suc n) p h lt = ground arith

module _ {F : Type 0} (loop : Accepted → Call F Batch) (f : LogFileId) (s : Accepted) (r : Record)
    (reader : RecordReader F) where
  pub accept-none :
      next_start f s.validated_end ≡ none → accept loop f s r reader ≡ (panicked, reader)
  unfolding accept
  accept-none e = ground arith

  pub accept-other :
      (id : RecordId) (p : LogFilePosition)
      → next_start f s.validated_end ≡ some (record { record_id = id; position = p })
      → RecordId.eq (View.id r) id ≡ false
      → accept loop f s r reader
        ≡ (ok (break_scan (found s (some (unexpected_record_id id (View.id r))))), reader)
  unfolding accept
  accept-other id p e n = ground arith

  pub accept-same :
      (id : RecordId) (p : LogFilePosition)
      → next_start f s.validated_end ≡ some (record { record_id = id; position = p })
      → RecordId.eq (View.id r) id ≡ true
      → p + length r.bytes ≤ u64_max
      → accept loop f s r reader
        ≡ loop
            (record {
              count = s.count + 1;
              validated_end = some (record { record_id = id; position = p + length r.bytes });
              suffix_ends = s.suffix_ends ++ ((p + length r.bytes) ∷ []);
            })
            reader
  unfolding accept to_end advance View.length
  accept-same id p e n le = ground arith

  -- The end of the record does not fit a `u64`.
  pub accept-over :
      (id : RecordId) (p : LogFilePosition)
      → next_start f s.validated_end ≡ some (record { record_id = id; position = p })
      → RecordId.eq (View.id r) id ≡ true
      → u64_max < p + length r.bytes
      → accept loop f s r reader ≡ (panicked, reader)
  unfolding accept to_end advance View.length
  accept-over id p e n lt = ground arith

module _ {F : Type 0} (fuel : ℕ) (f : LogFileId) (s : Accepted) (r : RecordReader F) where
  pub accept_batch-full :
      ltb s.count records_per_file ≡ false → accept_batch (suc fuel) f s r ≡ (ok (go_on s), r)
  unfolding accept_batch
  accept_batch-full e = ground arith

  pub accept_batch-some :
      ltb s.count records_per_file ≡ true
      → accept_batch (suc fuel) f s r
        ≡ after_take (accept (accept_batch fuel f) f s) s (try_read_next r).0 (try_read_next r).1
  unfolding accept_batch
  accept_batch-some e = ground arith
