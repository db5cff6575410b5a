-- ===== src/LogValidator/Findings.antt =====
-- What the bytes of a log file behind its trusted records are, described without a reader.
use transaction_log.Common.{
  List, Option, Outcome, [], ap, append-nil, append_assoc, ap₂, arith, dropped, err, length, none,
  ok, panicked, refl, some, stuck, subst, suc, sym, ℕ, ◌*◌, ◌++◌, ◌+◌, ◌<◌, ◌∙◌, ◌∷◌, ◌≡◌, ◌≢◌, ◌≤◌,
  ◌⊎◌,
}
use transaction_log.Io.Error.{IoError}
use transaction_log.Record.RecordId.{u64_max}
use transaction_log.Record.Frame.{IsFrame}
use transaction_log.Record.View
use transaction_log.Record.View.{Record}
use transaction_log.RecordReader.Reader.{RecordReadError}
use transaction_log.RecordReader.Inspect.{classify}
use transaction_log.Location.LogFileNumber.{records_per_file, IsLogFileNumber}
use transaction_log.Location.LogFilePosition.{LogFilePosition}
use transaction_log.Location.LogFileId.{LogFileId}
use transaction_log.IndexedLog.Invariant.{size_of, bytes_of, id_at, end_at}
use transaction_log.LogValidator.Scan.{
  Accepted, found, LogTailError, record_error, unexpected_record_id, extra_data,
  LogFileValidationError, read, LogScanResult,
}
use transaction_log.RecordReader.Reader

-- The ends of records behind the position `p`.
abbrev pub ends_of : ℕ → List Record → List LogFilePosition
ends_of p [] = []
ends_of p (r ∷ rs) = (p + length r.bytes) ∷ ends_of (p + length r.bytes) rs

module _ (crc32c : List ℕ → ℕ) (f : LogFileId) where
  -- Valid records with the ids of a file from its record number `n` on.
  abbrev pub Ordered : ℕ → List Record → Type 0
  Ordered n [] = Unit {0}
  Ordered n (r ∷ rs) = (View.id r ≡ id_at f n) × IsFrame crc32c r.bytes × Ordered (n + 1) rs

  -- Why the record number `n` is not in front of some bytes.
  abbrev pub Tail : ℕ → List ℕ → Option LogTailError → Type 0
  Tail n rest none = rest ≡ []
  Tail n rest (some extra_data) = (n ≡ records_per_file) × (rest ≢ [])
  Tail n rest (some (record_error e)) = (n < records_per_file) × (classify crc32c rest ≡ err e)
  Tail n rest (some (unexpected_record_id expected actual)) =
      (n < records_per_file)
      × (expected ≡ id_at f n)
      × (actual ≢ expected)
      × (r : Record) × (more : List ℕ) × (rest ≡ r.bytes ++ more)
      × IsFrame crc32c r.bytes
      × (View.id r ≡ actual)

  -- Some bytes behind `n` records that end at `p`: records that follow in order, and then nothing or
  -- the reason given. `acc` are the ends found before.
  pub record Finds (n p : ℕ) (acc : List LogFilePosition) (bytes : List ℕ) (x : LogScanResult)
      : Type 0 where
    pub records : List Record
    pub rest : List ℕ
    pub cut : bytes ≡ bytes_of records ++ rest
    pub ordered : Ordered n records
    pub within : n + length records ≤ records_per_file
    pub end : x.validated_end ≡ end_at f (n + length records) (p + size_of records)
    pub ends : x.suffix_ends ≡ acc ++ ends_of p records
    pub tail : Tail (n + length records) rest x.tail_error

  -- Records in order up to the last sequence number that there is, and one more behind them.
  pub record Exhausts (n : ℕ) (bytes : List ℕ) : Type 0 where
    pub records : List Record
    pub next : Record
    pub more : List ℕ
    pub cut : bytes ≡ bytes_of records ++ (next.bytes ++ more)
    pub ordered : Ordered n records
    pub valid : IsFrame crc32c next.bytes
    pub last : f.file_number * records_per_file + (n + length records) ≡ u64_max + 1

  -- What a scan may answer.
  abbrev pub Reports :
      ℕ → ℕ → List LogFilePosition → List ℕ → Outcome LogFileValidationError LogScanResult → Type 0
  Reports n p acc bytes (ok x) = Finds n p acc bytes x
  Reports n p acc bytes (err e) = (x : IoError) × (e ≡ read (Reader.io x))
  Reports n p acc bytes dropped = Unit {0}
  Reports n p acc bytes panicked = Exhausts n bytes
  Reports n p acc bytes stuck = ⊥

  -- A scan that stops where it is.
  pub Finds-found :
      (n p : ℕ) (acc : List LogFilePosition) (bytes : List ℕ) (s : Accepted)
      (t : Option LogTailError)
      → s.validated_end ≡ end_at f n p
      → s.suffix_ends ≡ acc
      → n ≤ records_per_file
      → Tail n bytes t
      → Finds n p acc bytes (found s t)
  Finds-found n p acc bytes s t end ends within tail =
      let k : n ≡ n + 0 = omega arith in
      let q : p ≡ p + 0 = omega arith in
      record {
        records = [];
        rest = bytes;
        cut = refl;
        ordered = tt;
        within = omega arith;
        end = end ∙ ap₂ (end_at f) k q;
        ends = ends ∙ sym (append-nil acc);
        tail = subst (λ y. Tail y bytes t) k tail;
      }

  Finds-accept :
      (n p : ℕ) (acc : List LogFilePosition) (r : Record) (bytes : List ℕ) (x : LogScanResult)
      → View.id r ≡ id_at f n
      → IsFrame crc32c r.bytes
      → Finds (n + 1) (p + length r.bytes) (acc ++ ((p + length r.bytes) ∷ [])) bytes x
      → Finds n p acc (r.bytes ++ bytes) x
  Finds-accept n p acc r bytes x i v h =
      let k : n + 1 + length h.records ≡ n + suc (length h.records) = omega arith in
      let q : p + length r.bytes + size_of h.records ≡ p + (length r.bytes + size_of h.records) =
        omega arith in
      record {
        records = r ∷ h.records;
        rest = h.rest;
        cut = ap (λ y. r.bytes ++ y) h.cut ∙ sym (append_assoc r.bytes (bytes_of h.records) h.rest);
        ordered = (i, v, h.ordered);
        within = omega (arith, h.within);
        end = h.end ∙ ap₂ (end_at f) k q;
        ends =
            h.ends
            ∙ append_assoc acc ((p + length r.bytes) ∷ []) (ends_of (p + length r.bytes) h.records);
        tail = subst (λ y. Tail y h.rest x.tail_error) k h.tail;
      }

  Exhausts-accept :
      (n : ℕ) (r : Record) (bytes : List ℕ)
      → View.id r ≡ id_at f n
      → IsFrame crc32c r.bytes
      → Exhausts (n + 1) bytes
      → Exhausts n (r.bytes ++ bytes)
  Exhausts-accept n r bytes i v h = record {
    records = r ∷ h.records;
    next = h.next;
    more = h.more;
    cut =
        ap (λ y. r.bytes ++ y) h.cut
        ∙ sym (append_assoc r.bytes (bytes_of h.records) (h.next.bytes ++ h.more));
    ordered = (i, v, h.ordered);
    valid = h.valid;
    last = omega (arith, h.last);
  }

  -- A report on the bytes behind one more record.
  pub Reports-accept :
      (n p : ℕ) (acc : List LogFilePosition) (r : Record) (bytes : List ℕ)
      (x : Outcome LogFileValidationError LogScanResult)
      → View.id r ≡ id_at f n
      → IsFrame crc32c r.bytes
      → Reports (n + 1) (p + length r.bytes) (acc ++ ((p + length r.bytes) ∷ [])) bytes x
      → Reports n p acc (r.bytes ++ bytes) x
  Reports-accept n p acc r bytes (ok x) i v h = Finds-accept n p acc r bytes x i v h
  Reports-accept n p acc r bytes (err e) i v h = h
  Reports-accept n p acc r bytes dropped i v h = h
  Reports-accept n p acc r bytes panicked i v h = Exhausts-accept n r bytes i v h
  Reports-accept n p acc r bytes stuck i v h = h

-- What a position may be behind `n` records of a file, the next of which has a sequence number,
-- or is the one behind the last that there is.
pub record IsPlace (f : LogFileId) (n p : ℕ) : Type 0 where
  pub file : IsLogFileNumber f.file_number
  pub within : n ≤ records_per_file
  pub addressable : f.file_number * records_per_file + n ≤ u64_max + 1
  pub start : (1 ≤ n) ⊎ (p ≡ 0)
