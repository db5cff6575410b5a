-- ===== src/IndexedLog/Opening.antt =====
-- How an indexed log begins, and what it refuses once it is not open.
use transaction_log.Common.{
  All, List, [], ap, append-nil, ap₂, arith, length, refl, some, suc, sym, true, zero, ℕ, ◌*◌, ◌+◌,
  ◌∷◌, ◌≡◌, ◌≤◌, ◌⊎◌,
}
use transaction_log.Io.Output.{Output}
use transaction_log.Record.Protocol.{max_record_len}
use transaction_log.Record.RecordId
use transaction_log.Record.RecordId.{u64_max}
use transaction_log.Record.View.{Record}
use transaction_log.RecordWriter.Writer as Records
use transaction_log.Location.LogFileNumber.{records_per_file, IsLogFileNumber}
use transaction_log.Location.LogFileId
use transaction_log.Location.LogFileId.{LogFileId}
use transaction_log.IndexedLog.State
use transaction_log.IndexedLog.State.{opened, IndexedLogWriterState}
use transaction_log.IndexedLog.Writer
use transaction_log.IndexedLog.Writer.{IndexedLogWriter, IndexedLogWriteError, from_initialized}
use transaction_log.IndexedLog.Invariant.{bytes_of, size_of, entries, id_at, end_at, IsIndexed}

-- What the log and the index of a file have to hold: the records `done`, few enough to be
-- numbered, each of at most 65,535 bytes.
pub record IsRecovered {L I : Type 0} (log_bytes : L → List ℕ) (index_bytes : I → List ℕ)
    (f : LogFileId) (l : L) (i : I) (done : List Record) : Type 0 where
  pub file : IsLogFileNumber f.file_number
  pub within : length done ≤ records_per_file
  pub addressable : f.file_number * records_per_file + length done ≤ u64_max
  pub small : All (λ r. length r.bytes ≤ max_record_len) done
  pub log_file : log_bytes l ≡ bytes_of done
  pub index_file : index_bytes i ≡ entries 0 done

size_of-small :
    (done : List Record)
    → All (λ r. length r.bytes ≤ max_record_len) done
    → size_of done ≤ max_record_len * length done
size_of-small [] h = omega arith
size_of-small (r ∷ rs) h = omega (arith, h.0, size_of-small rs h.1)

module _ {L I : Type 0} (f : LogFileId) (l : L) (i : I) where
  -- The writer of a file with `n` records of `p` bytes.
  abbrev started : ℕ → ℕ → IndexedLogWriter L I
  started n p = record {
    file_id = f;
    expected_record_id = id_at f n;
    record_count = n;
    buffered_end = end_at f n p;
    flushed_end = end_at f n p;
    synced_end = end_at f n p;
    log = Records.open_writer l [];
    index = record { file = i; buffer = []; usable = true };
    state = opened;
  }

  from_initialized-started :
      (n p : ℕ)
      → IsLogFileNumber f.file_number
      → n ≤ records_per_file
      → f.file_number * records_per_file + n ≤ u64_max
      → from_initialized f l i (end_at f n p) ≡ some (started n p)
  unfolding from_initialized Writer.new Records.with_mode RecordId.next LogFileId.first_record_id
      LogFileId.record_count_through
  from_initialized-started zero p h w a = ground arith
  from_initialized-started (suc n) p h w a = ground arith

module _ {L I : Type 0} {log_bytes : L → List ℕ} {index_bytes : I → List ℕ} where
  -- A writer on files that hold the records `done`, of at most 65,535 bytes each and few enough to be
  -- numbered, or none, begins without a panic: open, with them as its synchronized records, and with
  -- nothing in its buffers.
  pub from_initialized-IsIndexed :
      (f : LogFileId) (l : L) (i : I) (done : List Record)
      → IsRecovered log_bytes index_bytes f l i done
      → (w : IndexedLogWriter L I) × (from_initialized f l i (end_at f (length done) (size_of done))
          ≡ some w)
        × IsIndexed log_bytes index_bytes done done [] w
  from_initialized-IsIndexed f l i done h =
      let n : length done ≡ length done + 0 = omega arith in
      let p : size_of done ≡ size_of done + 0 = omega arith in
      (
        started f l i (length done) (size_of done),
        from_initialized-started f l i (length done) (size_of done) h.file h.within h.addressable,
        record {
          is_open = refl;
          file = h.file;
          count = n;
          within = omega (arith, h.within);
          addressable = omega (arith, h.addressable);
          small = omega (arith, size_of-small done h.small);
          expected = ap (id_at f) n;
          buffered = ap₂ (end_at f) n p;
          flushed = refl;
          synced = refl;
          order = ([], sym (append-nil done));
          log_usable = refl;
          index_usable = refl;
          log_file = h.log_file;
          log_buffer = refl;
          index_file = h.index_file;
          index_buffer = refl;
        },
      )

-- A state that is not open, and the error that says which it is.
abbrev pub IsClosed : IndexedLogWriterState → IndexedLogWriteError → Type 0
IsClosed s e =
    ((s ≡ State.unusable) × (e ≡ Writer.unusable))
    ⊎ ((s ≡ State.finalized) × (e ≡ Writer.finalized))
