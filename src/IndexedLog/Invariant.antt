-- ===== src/IndexedLog/Invariant.antt =====
-- What an open indexed log holds: its records, in the files and in the buffers, and their ends.
use transaction_log.Common.{
  List, Option, [], ap, append_assoc, arith, length, length-append, none, refl, some, suc, sym,
  to_le_bytes, true, zero, ℕ, ◌*◌, ◌++◌, ◌+◌, ◌∙◌, ◌∷◌, ◌≡◌, ◌≤◌,
}
use transaction_log.Record.Protocol.{max_record_len}
use transaction_log.Record.RecordId.{RecordId, u64_max}
use transaction_log.Record.View.{Record}
use transaction_log.IndexWriter.Writer.{index_entry_len}
use transaction_log.Location.LogFileNumber.{records_per_file, IsLogFileNumber}
use transaction_log.Location.LogFileId.{LogFileId}
use transaction_log.Location.Endpoints.{RecordEndLocation}
use transaction_log.IndexedLog.State.{opened}
use transaction_log.IndexedLog.Writer.{IndexedLogWriter}

abbrev pub size_of : List Record → ℕ
size_of [] = 0
size_of (r ∷ rs) = length r.bytes + size_of rs

-- The records one after another, as the log has them.
abbrev pub bytes_of : List Record → List ℕ
bytes_of [] = []
bytes_of (r ∷ rs) = r.bytes ++ bytes_of rs

-- The index entries of records behind the position `p`.
abbrev pub entries : ℕ → List Record → List ℕ
entries p [] = []
entries p (r ∷ rs) =
    to_le_bytes index_entry_len (p + length r.bytes) ++ entries (p + length r.bytes) rs

-- The id of the record number `n` of a file, and the end of the first `n`, which reach to `p`.
abbrev pub id_at : LogFileId → ℕ → RecordId
id_at f n = record {
  stream_id = f.stream_id;
  sequence_number = f.file_number * records_per_file + n;
}

abbrev pub end_at : LogFileId → ℕ → ℕ → Option RecordEndLocation
end_at f zero p = none
end_at f (suc n) p = some (record { record_id = id_at f n; position = p })

-- The records `done` are in both files, the first of them, `durable`, synchronized, and the records
-- `waiting` are in both buffers.
pub record IsIndexed {L I : Type 0} (log_bytes : L → List ℕ) (index_bytes : I → List ℕ)
    (durable done waiting : List Record) (w : IndexedLogWriter L I) : Type 0 where
  pub is_open : w.state ≡ opened
  pub file : IsLogFileNumber w.file_id.file_number
  pub count : w.record_count ≡ length done + length waiting
  pub within : length done + length waiting ≤ records_per_file
  pub addressable :
      w.file_id.file_number * records_per_file + (length done + length waiting) ≤ u64_max
  pub small : size_of done + size_of waiting ≤ max_record_len * (length done + length waiting)
  pub expected : w.expected_record_id ≡ id_at w.file_id (length done + length waiting)
  pub buffered :
      w.buffered_end
      ≡ end_at w.file_id (length done + length waiting) (size_of done + size_of waiting)
  pub flushed : w.flushed_end ≡ end_at w.file_id (length done) (size_of done)
  pub synced : w.synced_end ≡ end_at w.file_id (length durable) (size_of durable)
  pub order : (rest : List Record) × (done ≡ durable ++ rest)
  pub log_usable : w.log.usable ≡ true
  pub index_usable : w.index.usable ≡ true
  pub log_file : log_bytes w.log.destination ≡ bytes_of done
  pub log_buffer : w.log.buffer ≡ bytes_of waiting
  pub index_file : index_bytes w.index.file ≡ entries 0 done
  pub index_buffer : w.index.buffer ≡ entries (size_of done) waiting

pub size_of-append : (rs ss : List Record) → size_of (rs ++ ss) ≡ size_of rs + size_of ss
size_of-append [] ss = omega arith
size_of-append (r ∷ rs) ss = omega (arith, size_of-append rs ss)

pub bytes_of-append : (rs ss : List Record) → bytes_of (rs ++ ss) ≡ bytes_of rs ++ bytes_of ss
bytes_of-append [] ss = refl
bytes_of-append (r ∷ rs) ss =
    ap (λ x. r.bytes ++ x) (bytes_of-append rs ss)
    ∙ sym (append_assoc r.bytes (bytes_of rs) (bytes_of ss))

pub entries-append :
    (p : ℕ) (rs ss : List Record)
    → entries p (rs ++ ss) ≡ entries p rs ++ entries (p + size_of rs) ss
entries-append p [] ss = ap (λ q. entries q ss) (omega arith)
entries-append p (r ∷ rs) ss =
    let q = p + length r.bytes in
    let here = to_le_bytes index_entry_len q in
    let e : q + size_of rs ≡ p + (length r.bytes + size_of rs) = omega arith in
    ap (λ x. here ++ x) (entries-append q rs ss ∙ ap (λ x. entries q rs ++ entries x ss) e)
    ∙ sym (append_assoc here (entries q rs) (entries (p + (length r.bytes + size_of rs)) ss))

pub length-bytes_of : (rs : List Record) → length (bytes_of rs) ≡ size_of rs
length-bytes_of [] = refl
length-bytes_of (r ∷ rs) = omega (arith, length-append r.bytes (bytes_of rs), length-bytes_of rs)
