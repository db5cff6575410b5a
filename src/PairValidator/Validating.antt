-- ===== src/PairValidator/Validating.antt =====
-- What the validation of a pair answers, and what it leaves in the two files.
use transaction_log.Common.{
  ==→eq, ==→ne, Bool-cases, List, Option, Outcome, after_call, ap, ap₂, arith, continue, drop-all,
  dropped, err, inl, inr, length, length-take, map_err, none, ok, panicked, pure, refl, some, stuck,
  subst, sym, take, take-append, take-append-drop, take-take, wrap_err, ℕ, ◌*◌, ◌++◌, ◌+◌, ◌<◌,
  ◌==◌, ◌>>◌, ◌∙◌, ◌≡◌, ◌≢◌, ◌≤◌,
}
use transaction_log.Io.File.{Sought, Parts, content}
use transaction_log.IndexWriter.Writer
use transaction_log.IndexWriter.Writer.{index_entry_len}
use transaction_log.Record.RecordId.{u64_max}
use transaction_log.Location.LogFileNumber.{records_per_file, IsLogFileNumber}
use transaction_log.Location.LogFileId.{LogFileId}
use transaction_log.Location.Endpoints.{RecordEndLocation, position_of, count_of}
use transaction_log.IndexedLog.Invariant.{size_of}
use transaction_log.LogValidator.Scan as LogScan
use transaction_log.LogValidator.Scan.{
  LogFileValidationError, invalid_start, another_file, outside_extent,
}
use transaction_log.LogValidator.Validator as Log
use transaction_log.LogValidator.Validator.{ValidatedLogFile}
use transaction_log.LogValidator.Validating.{IsTrusted, Recovers, Validates}
use transaction_log.LogValidator.Opening.{validate-Validates}
use transaction_log.LogValidator.Keeping as LogKeeping
use transaction_log.IndexValidator.Validator as Index
use transaction_log.IndexValidator.Validator.{
  IndexFileValidationError, trusted_index_mismatch, too_many_entries,
}
use transaction_log.IndexValidator.Entries.{Agrees, encode_ends, trusted-le}
use transaction_log.IndexValidator.Validating.{IndexValidates, validate-IndexValidates}
use transaction_log.IndexValidator.Keeping as IndexKeeping
use transaction_log.PairValidator.Validator.{
  IndexedLogValidationError, log, index, ValidatedFilePair, partial, position, outcome,
  validate_files,
}
use transaction_log.PairValidator.Ends.{found_count, found_within, found_size, index_size}
use transaction_log.Storage.Provider.{Provider}
use transaction_log.PairValidator.Agreement.{Place, IsFiles, Agreed, Trusted, PairValidates}

module _ {W H : Type 0} (crc32c : List ℕ → ℕ) {provider : Provider W H} {parts : H → Parts W}
    (laws : IsFiles provider parts) (reserve : ℕ → ℕ → ℕ → ℕ)
    (reserves : (capacity len additional : ℕ) → len + additional ≤ reserve capacity len additional)
    (fuel : ℕ) (f : LogFileId) (t : Option RecordEndLocation) (l i : H) (before : W)
    (other : l ≢ i) where
  abbrev Post : W → Outcome IndexedLogValidationError (ValidatedFilePair H) → Type 0
  Post = PairValidates crc32c parts f t l i before

  Agreed-moved :
      (y z : W) (end : Option RecordEndLocation)
      → Agreed crc32c (parts l) (parts i) f t before y end
      → content (parts l) z ≡ content (parts l) y
      → content (parts i) z ≡ content (parts i) y
      → Agreed crc32c (parts l) (parts i) f t before z end
  Agreed-moved y z end h a b = record {
    found = h.found;
    records = record {
      extent = h.records.extent;
      finds = h.records.finds;
      file = a ∙ h.records.file;
    };
    end_found = h.end_found;
    trusted = h.trusted;
    entries = b ∙ h.entries;
  }

  Agreed-Trusted :
      (y z : W) (end : Option RecordEndLocation)
      → Agreed crc32c (parts l) (parts i) f t before y end
      → content (parts l) z ≡ content (parts l) y
      → content (parts i) z ≡ content (parts i) y
      → Trusted crc32c parts f t l i before z
  Agreed-Trusted y z end h a b =
      let p = position_of t in
      let s = count_of t * index_entry_len in
      (
        ap (take p) (a ∙ h.records.file)
            ∙ take-take p (p + size_of h.records.finds.records) (content (parts l) before)
                (omega arith),
        ap (take s) (b ∙ h.entries)
            ∙ take-append s (take s (content (parts i) before)) (encode_ends h.found.suffix_ends) (
                omega (
                  arith,
                  length-take s (content (parts i) before),
                  trusted-le t (content (parts i) before) h.trusted,
                )),
      )

  -- A call of one file leaves the other where it is.
  here :
      (h : H) (y : W)
      → Place (parts h) ((parts h).front y) ((parts h).rest y) ((parts h).stalls y) y
  here h y = (refl, refl, omega arith)

  joined :
      (p : Parts W) (y z : W)
      → Place p (p.front y) (p.rest y) (p.stalls y) z
      → content p z ≡ content p y
  joined p y z (a, b, c) = ap₂ (λ x v. x ++ v) a b

  position-Post :
      (end : Option RecordEndLocation) (y : W)
      → Agreed crc32c (parts l) (parts i) f t before y end
      → count_of end < records_per_file
      → let x = position crc32c provider reserve fuel end l i y in Post x.1 x.0
  unfolding position
  position-Post end y h few =
      let p = position_of end in
      let n = count_of end * index_entry_len in
      let y1 = ((provider.file l).seek p y).1 in
      let y2 = ((provider.file i).seek n y1).1 in
      let k =
        (laws.apart l i ((parts i).front y) ((parts i).rest y) ((parts i).stalls y) other).seek p y
          (here i y) in
      let k' =
        (laws.apart i l ((parts l).front y1) ((parts l).rest y1) ((parts l).stalls y1)
            (λ e. other (sym e))).seek
          n y1 (here l y1) in
      let entry_count : count_of end ≡ count_of t + length h.found.suffix_ends =
        ap count_of h.end_found ∙ found_count h.records in
      let sizes =
        index_size t (content (parts i) before) (content (parts i) y) h.found.suffix_ends
          (count_of end) h.trusted h.entries entry_count in
      let size : length (content (parts l) y) ≡ p =
        found_size h.records ∙ ap position_of (sym h.end_found) in
      after_call (λ e. log (LogScan.io e)) (Sought (parts l) p y y1) Post
        ((provider.file l).seek p y).0 y1
        (λ u.
          wrap_err (λ e. index (Index.io e)) ((provider.file i).seek n) >> pure (partial end l i))
        ((laws.files l).sought p y (omega (arith, size)))
        (λ e a. Agreed-Trusted y y1 end h a (joined (parts i) y y1 k))
        (λ a. Agreed-Trusted y y1 end h a (joined (parts i) y y1 k)) (λ a. a) (λ a. a)
        (λ u a.
          let same = ap₂ (λ x v. x ++ v) a.0 a.1 ∙ take-append-drop p (content (parts l) y) in
          let same' = joined (parts i) y y1 k in
          after_call (λ e. index (Index.io e)) (Sought (parts i) n y1 y2) Post
            ((provider.file i).seek n y1).0 y2 (λ u. pure (partial end l i))
            ((laws.files i).sought n y1 (omega (arith, sizes, ap length same')))
            (λ e b. Agreed-Trusted y y2 end h (joined (parts l) y1 y2 k' ∙ same) (b ∙ same'))
            (λ b. Agreed-Trusted y y2 end h (joined (parts l) y1 y2 k' ∙ same) (b ∙ same')) (λ b. b)
            (λ b. b)
            (λ u b.
              let same'' =
                ap₂ (λ x v. x ++ v) b.0 b.1 ∙ take-append-drop n (content (parts i) y1) in
              (
                Agreed-moved y y2 end h (joined (parts l) y1 y2 k' ∙ same) (same'' ∙ same'),
                few,
                refl,
                refl,
                k'.1 ∙ a.1 ∙ drop-all p (content (parts l) y) (omega (arith, size)),
                b.1 ∙ drop-all n (content (parts i) y1) (omega (arith, sizes, ap length same')),
              )))

  outcome-Post :
      (end : Option RecordEndLocation) (y : W)
      → Agreed crc32c (parts l) (parts i) f t before y end
      → let x = outcome crc32c provider reserve fuel end l i y in Post x.1 x.0
  unfolding outcome
  outcome-Post none y h = position-Post none y h (omega arith)
  outcome-Post (some end) y h = elim (Bool-cases (count_of (some end) == records_per_file)) [
    | inl full ↦ rw full (h, ==→eq (count_of (some end)) records_per_file full)
    | inr more ↦ rw more (
        position-Post (some end) y h (
          omega (
            arith,
            ==→ne (count_of (some end)) records_per_file more,
            found_within h.records,
            ap count_of h.end_found,
          )))
  ]

  log_kept :
      (y z : W) (found : ValidatedLogFile)
      → Recovers crc32c (parts l) f t before y found
      → content (parts l) z ≡ content (parts l) y
      → take (position_of t) (content (parts l) z) ≡ take (position_of t) (content (parts l) before)
  log_kept y z found records kept =
      ap (take (position_of t)) (kept ∙ records.file)
      ∙ take-take (position_of t) (position_of t + size_of records.finds.records)
          (content (parts l) before) (omega arith)

  -- The index has been validated behind the log.
  index_then :
      (found : ValidatedLogFile) (r : Outcome IndexFileValidationError (Unit {0})) (y z : W)
      → Recovers crc32c (parts l) f t before y found
      → content (parts i) y ≡ content (parts i) before
      → content (parts l) z ≡ content (parts l) y
      → IndexValidates (parts i) t found.suffix_ends y z r
      → let x =
          continue
            (map_err index r)
            (λ u. outcome crc32c provider reserve fuel found.validated_end l i)
            z in
        Post x.1 x.0
  index_then found (ok u) y z records same kept (agrees, few, entries) =
      outcome-Post found.validated_end z (record {
        found = found;
        records = record {
          extent = records.extent;
          finds = records.finds;
          file = kept ∙ records.file;
        };
        end_found = refl;
        trusted = subst (Agrees t) same agrees;
        entries =
            entries
            ∙ ap (λ c. take (count_of t * index_entry_len) c ++ encode_ends found.suffix_ends) same;
      })
  index_then found (err (trusted_index_mismatch n e a)) y z records same kept (q, m) =
      (log_kept y z found records kept, ap (take (count_of t * index_entry_len)) (q ∙ same))
  index_then found (err (too_many_entries n m)) y z records same kept (q, a, b, c) =
      (log_kept y z found records kept, ap (take (count_of t * index_entry_len)) (q ∙ same))
  index_then found (err (Index.io e)) y z records same kept q =
      (log_kept y z found records kept, q ∙ ap (take (count_of t * index_entry_len)) same)
  index_then found (err (Index.write (Writer.io e))) y z records same kept q =
      (log_kept y z found records kept, q ∙ ap (take (count_of t * index_entry_len)) same)
  index_then found (err (Index.write Writer.unusable)) y z records same kept q = absurd q
  index_then found dropped y z records same kept q =
      (log_kept y z found records kept, q ∙ ap (take (count_of t * index_entry_len)) same)
  index_then found panicked y z records same kept q = absurd q
  index_then found stuck y z records same kept q = q

  -- The log has been validated.
  log_then :
      (r : Outcome LogFileValidationError ValidatedLogFile) (y : W)
      → records_per_file * index_entry_len + (parts i).stalls before ≤ fuel
      → Place (parts i) ((parts i).front before) ((parts i).rest before) ((parts i).stalls before) y
      → Validates crc32c (parts l) f t before y r
      → let x =
          continue
            (map_err log r)
            (λ v.
              wrap_err index (Index.validate (provider.file i) fuel t v.suffix_ends)
              >> outcome crc32c provider reserve fuel v.validated_end l i)
            y in
        Post x.1 x.0
  log_then (ok v) y enough place h =
      let x = Index.validate (provider.file i) fuel t v.suffix_ends y in
      let kept =
        IndexKeeping.validate-keeps
          (Place (parts l) ((parts l).front y) ((parts l).rest y) ((parts l).stalls y))
          (laws.apart i l ((parts l).front y) ((parts l).rest y) ((parts l).stalls y)
            (λ e. other (sym e)))
          fuel t v.suffix_ends y (here l y) in
      index_then v x.0 y x.1 h (joined (parts i) before y place) (joined (parts l) y x.1 kept) (
        validate-IndexValidates (laws.files i) fuel t v.suffix_ends y
          (omega (arith, place.2, found_count h, found_within h)))
  log_then (err (invalid_start another_file)) y enough place h = (
    ap (take (position_of t)) h.0,
    ap (take (count_of t * index_entry_len)) (joined (parts i) before y place),
  )
  log_then (err (invalid_start outside_extent)) y enough place h = (
    ap (take (position_of t)) h.0,
    ap (take (count_of t * index_entry_len)) (joined (parts i) before y place),
  )
  log_then (err (LogScan.io e)) y enough place h =
      (h, ap (take (count_of t * index_entry_len)) (joined (parts i) before y place))
  log_then (err (LogScan.read e)) y enough place h = (
    ap (take (position_of t)) h.0,
    ap (take (count_of t * index_entry_len)) (joined (parts i) before y place),
  )
  log_then dropped y enough place h =
      (h, ap (take (count_of t * index_entry_len)) (joined (parts i) before y place))
  log_then panicked y enough place h = h
  log_then stuck y enough place h = h

  -- On an open log and an open index that are two files with the documented laws, neither touched
  -- by the calls of the other, the log's length fitting a u64, with a valid file id, a trusted end
  -- of a valid record, and fuel for each byte, each of 100,000 entries and each interruption, the
  -- validation of the pair ends. On success the valid records that follow the trusted ones are in
  -- the log, their ends are the entries behind the trusted ones in the index, and nothing else is
  -- behind them; the answer is `complete` exactly with 100,000 records, and else both cursors are
  -- at the ends. A failed or dropped call keeps the trusted records and entries. It panics only
  -- where a valid record follows the last sequence number there is.
  pub validate_files-PairValidates :
      IsLogFileNumber f.file_number
      → IsTrusted t
      → length (content (parts l) before) ≤ u64_max
      → length (content (parts l) before) + (parts l).stalls before < fuel
      → records_per_file * index_entry_len + (parts i).stalls before ≤ fuel
      → let x = validate_files crc32c provider reserve fuel f t l i before in Post x.1 x.0
  unfolding validate_files
  validate_files-PairValidates file trusted small enough enough' =
      let x = Log.validate crc32c (provider.file l) reserve fuel f t before in
      log_then x.0 x.1 enough'
        (LogKeeping.validate-keeps crc32c
          (Place (parts i) ((parts i).front before) ((parts i).rest before)
            ((parts i).stalls before))
          (laws.apart l i ((parts i).front before) ((parts i).rest before) ((parts i).stalls before)
            other)
          reserve fuel f t before (here i before))
        (validate-Validates crc32c (laws.files l) reserve reserves fuel f t before file trusted
          small enough)
