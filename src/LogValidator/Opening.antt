-- ===== src/LogValidator/Opening.antt =====
-- `validate` from its checks on.
use transaction_log.Common.{
  Bool-cases, List, Option, Outcome, [], after_call, ap, ap₂, arith, continue, drop, dropped, err,
  inl, inr, length, length-drop, lift, none, ok, panicked, refl, some, stuck, subst, suc, sym, take,
  take-append-drop, wrap_err, ℕ, ◌++◌, ◌+◌, ◌<◌, ◌>>=◌, ◌>>◌, ◌∙◌, ◌∷◌, ◌≡◌, ◌≤◌,
}
use transaction_log.Io.Error.{IoError, interrupted}
use transaction_log.Io.File.{Sought, Measured, ValidationFile, Parts, content, IsFile}
use transaction_log.Io.Source.{Took, Source}
use transaction_log.Record.RecordId.{u64_max}
use transaction_log.RecordReader.Reader
use transaction_log.RecordReader.Reader.{RecordReader, reader_failed}
use transaction_log.RecordReader.Batch.{IsReading}
use transaction_log.Location.LogFileNumber.{records_per_file, IsLogFileNumber}
use transaction_log.Location.LogFileId
use transaction_log.Location.LogFileId.{LogFileId}
use transaction_log.Location.Endpoints.{RecordEndLocation, end_file, position_of, count_of}
use transaction_log.IndexedLog.Invariant.{end_at}
use transaction_log.LogValidator.Scan.{
  Accepted, LogFileValidationError, LogScanResult, io, scan_loop, scan_records,
}
use transaction_log.LogValidator.Findings.{Reports}
use transaction_log.LogValidator.Scanning.{Good}
use transaction_log.LogValidator.Looping.{scan_loop-Good}
use transaction_log.LogValidator.Validator.{
  ValidatedLogFile, check_file, check_extent, repair, validate,
}
use transaction_log.LogValidator.Validating.{IsTrusted, InExtent, Validates, repair-Post}
use transaction_log.LogValidator.Trusting.{check_file-cases, check_extent-cases, trusted-IsPlace}

abbrev begun : Option RecordEndLocation → Accepted
begun t = record { count = count_of t; validated_end = t; suffix_ends = [] }

read-stalls :
    {S : Type 0} (pending : S → List ℕ) (stalls : S → ℕ) (room : ℕ) (before after : S)
    (r : Outcome IoError (List ℕ))
    → Took pending stalls room before after r
    → stalls after ≤ stalls before
read-stalls pending stalls room before after (ok []) (a, b, c) = c
read-stalls pending stalls room before after (ok (b ∷ bs)) (d, e, c) = c
read-stalls pending stalls room before after (err interrupted) (a, c) = omega arith
read-stalls pending stalls room before after (err e) (a, c) = c
read-stalls pending stalls room before after dropped (a, c) = c
read-stalls pending stalls room before after panicked h = absurd h
read-stalls pending stalls room before after stuck h = absurd h

new-IsReading : {F : Type 0} (crc32c : List ℕ → ℕ) (x : F) → IsReading crc32c (Reader.new x)
unfolding Reader.new
new-IsReading crc32c x = record {
  frames = [];
  valid = tt;
  left = refl;
  place = inl (refl, refl);
  caches = tt;
}

abbrev loop :
    {F : Type 0} (crc32c : List ℕ → ℕ) (source : Source F) (reserve : ℕ → ℕ → ℕ → ℕ) (fuel : ℕ)
    (f : LogFileId) (t : Option RecordEndLocation) (n : ℕ)
    → F
    → Outcome LogFileValidationError LogScanResult × RecordReader F
loop crc32c source reserve fuel f t n y =
    scan_loop crc32c source reserve (suc records_per_file) fuel f n (begun t) (Reader.new y)

scan_records-loop :
    {F : Type 0} (crc32c : List ℕ → ℕ) (source : Source F) (reserve : ℕ → ℕ → ℕ → ℕ) (fuel : ℕ)
    (f : LogFileId) (t : Option RecordEndLocation) (n : ℕ) (y : F)
    → check_file f t ≡ ok tt
    → scan_records crc32c source reserve fuel f t n y ≡ (
      (loop crc32c source reserve fuel f t n y).0,
      (loop crc32c source reserve fuel f t n y).1.source,
    )
unfolding scan_records check_file
scan_records-loop crc32c source reserve fuel f none n y h = refl
scan_records-loop crc32c source reserve fuel f (some end) n y h =
    elim (Bool-cases (LogFileId.eq (end_file end) f)) [
      | inl same ↦ rw same refl
      | inr other ↦ absurd (ground arith)
    ]

module _ {F : Type 0} (crc32c : List ℕ → ℕ) {calls : ValidationFile F} {parts : Parts F}
    (laws : IsFile calls parts) (reserve : ℕ → ℕ → ℕ → ℕ)
    (reserves : (capacity len additional : ℕ) → len + additional ≤ reserve capacity len additional)
    (fuel : ℕ) (f : LogFileId) (t : Option RecordEndLocation) (before : F) where
  abbrev Post : F → Outcome LogFileValidationError ValidatedLogFile → Type 0
  Post = Validates crc32c parts f t before

  -- The scan has reported, and the file is repaired.
  scanned-Post :
      (r : Outcome LogFileValidationError LogScanResult) (y : F)
      → InExtent t (length (content parts before))
      → content parts y ≡ content parts before
      → Reports crc32c f
          (count_of t)
          (position_of t)
          []
          (drop (position_of t) (content parts before))
          r
      → let x = continue r (repair crc32c calls reserve fuel) y in Post x.1 x.0
  scanned-Post (ok x) y extent same h =
      repair-Post crc32c laws reserve reserves fuel f t before x.suffix_ends x.validated_end
        x.tail_error y extent same h
  scanned-Post (err e) y extent same (x, i) = subst (λ z. Post y (err z)) (sym i) (same, x, refl)
  scanned-Post dropped y extent same h = ap (take (position_of t)) same
  scanned-Post panicked y extent same h = h
  scanned-Post stuck y extent same h = h

  -- What the reads of the scan keep.
  abbrev Q : F → Type 0
  Q y = (content parts y ≡ content parts before) × (parts.stalls y ≤ parts.stalls before)

  reads : (room : ℕ) (y : F) → Q y → Q (calls.source.read_buf room y).1
  reads room y q = (
    laws.reads_keep room y ∙ q.0,
    omega (arith, q.1, read-stalls parts.rest parts.stalls room y _ _ (laws.reads.took room y)),
  )

  -- The file is at the trusted end: the scan and the repair.
  sought_then :
      (n : ℕ) (y : F)
      → IsLogFileNumber f.file_number
      → IsTrusted t
      → length (content parts before) ≤ u64_max
      → length (content parts before) + parts.stalls before < fuel
      → check_file f t ≡ ok tt
      → t ≡ end_at f (count_of t) (position_of t)
      → InExtent t n
      → n ≡ length (content parts before)
      → content parts y ≡ content parts before
      → parts.rest y ≡ drop (position_of t) (content parts before)
      → parts.stalls y ≤ parts.stalls before
      → let x =
          (scan_records crc32c calls.source reserve fuel f t n >>= repair crc32c calls reserve fuel)
            y in
        Post x.1 x.0
  unfolding Reader.new
  sought_then n y file trusted small enough checked place extent measured same rest stalls =
      let l = loop crc32c calls.source reserve fuel f t n y in
      let g : Good crc32c parts.rest f Q n (count_of t) (position_of t) []
          (drop (position_of t) (content parts before)) l =
        scan_loop-Good crc32c laws.reads reserve reserves f Q reads n fuel
          (λ x q. omega (arith, q.1)) (suc records_per_file) 0 (omega arith) (count_of t)
          (position_of t) [] (drop (position_of t) (content parts before)) (begun t) (Reader.new y)
          (omega arith)
          (record {
            place = trusted-IsPlace f t file trusted place;
            size = omega (arith, extent.0, length-drop (position_of t) (content parts before));
            fits = omega arith;
            count = refl;
            end = place;
            ends = refl;
            reading = new-IsReading crc32c y;
            left = rest;
            going = refl;
            kept = (same, stalls);
          }) in
      rw (scan_records-loop crc32c calls.source reserve fuel f t n y checked)
        (scanned-Post l.0 l.1.source (subst (InExtent t) measured extent) g.1.0 g.0)

  measured_then :
      (n : ℕ) (y : F)
      → IsLogFileNumber f.file_number
      → IsTrusted t
      → length (content parts before) ≤ u64_max
      → length (content parts before) + parts.stalls before < fuel
      → check_file f t ≡ ok tt
      → t ≡ end_at f (count_of t) (position_of t)
      → n ≡ length (content parts before)
      → content parts y ≡ content parts before
      → parts.stalls y ≤ parts.stalls before
      → let x =
          (lift (check_extent t n)
              >> (wrap_err io (calls.seek (position_of t))
                  >> (scan_records crc32c calls.source reserve fuel f t n
                      >>= repair crc32c calls reserve fuel)))
            y in
        Post x.1 x.0
  measured_then n y file trusted small enough checked place measured same stalls =
      elim (check_extent-cases t n) [
        | inr (e, bad) ↦ rw e (same, subst (λ x. InExtent t x → ⊥) measured bad)
        | inl (e, extent) ↦
            let le : position_of t ≤ length (content parts y) =
              omega (arith, extent.0, ap length same) in
            rw e (
              after_call io (Sought parts (position_of t) y (calls.seek (position_of t) y).1) Post
                (calls.seek (position_of t) y).0 (calls.seek (position_of t) y).1
                (λ u.
                  scan_records crc32c calls.source reserve fuel f t n
                  >>= repair crc32c calls reserve fuel)
                (laws.sought (position_of t) y le) (λ e l. ap (take (position_of t)) (l ∙ same))
                (λ l. ap (take (position_of t)) (l ∙ same)) (λ l. l) (λ l. l)
                (λ u l.
                  sought_then n (calls.seek (position_of t) y).1 file trusted small enough checked
                    place extent measured
                    (ap₂ (λ a b. a ++ b) l.0 l.1
                      ∙ take-append-drop (position_of t) (content parts y)
                      ∙ same)
                    (l.1 ∙ ap (drop (position_of t)) same) (omega (arith, l.2))))
      ]

  -- On a file that keeps the documented laws and whose length fits a u64, with a valid file id and
  -- a trusted end of a valid record, and with fuel for each byte and each interruption, `validate`
  -- ends. On success it has found, behind the trusted ones, the longest run of valid records with
  -- the file's next ids, has cut the file behind them, and reports their ends and what stood
  -- there, if anything; the trusted end was possible for the file's length. A trusted end of
  -- another file or outside the possible extent, and a failed read, leave the content as it is.
  -- Any other failure and a dropped call keep the bytes of the trusted records. It panics only
  -- where the last sequence number there is has been found and a valid record follows it.
  pub validate-Validates :
      IsLogFileNumber f.file_number
      → IsTrusted t
      → length (content parts before) ≤ u64_max
      → length (content parts before) + parts.stalls before < fuel
      → let x = validate crc32c calls reserve fuel f t before in Post x.1 x.0
  unfolding validate
  validate-Validates file trusted small enough = elim (check_file-cases f t) [
    | inr (e, end, at, other) ↦ rw e (refl, end, at, other)
    | inl (checked, place) ↦ rw checked (
        after_call io (Measured parts before (calls.file_length before).1) Post
          (calls.file_length before).0 (calls.file_length before).1
          (λ n.
            lift (check_extent t n)
            >> (wrap_err io (calls.seek (position_of t))
                >> (scan_records crc32c calls.source reserve fuel f t n
                    >>= repair crc32c calls reserve fuel)))
          (laws.measured before) (λ e l. ap (take (position_of t)) l)
          (λ l. ap (take (position_of t)) l) (λ l. l) (λ l. l)
          (λ n l.
            measured_then n (calls.file_length before).1 file trusted small enough checked place l.0
              (ap₂ (λ a b. a ++ b) l.1 l.2) l.3))
  ]
