-- ===== src/LogValidator/Placing.antt =====
-- The end that the validation of a log answers with, whatever the file's calls do: an end of the file.
use transaction_log.Common.{
  Answered, Bool, Bool-cases, Option, Outcome, ap, arith, dropped, err, false, inl, inr, length,
  ltb, ltb→le, ltb→lt, none, ok, option-either, panicked, some, stuck, subst, suc, sym, true, zero,
  ℕ, ◌*◌, ◌+◌, ◌<◌, ◌∙◌, ◌≡◌,
}
use transaction_log.Record.RecordId
use transaction_log.Record.RecordId.{u64_max}
use transaction_log.Record.View
use transaction_log.Record.View.{Record}
use transaction_log.RecordReader.Reader
use transaction_log.RecordReader.Reader.{
  RecordReadError, RecordReader, reader_failed, try_read_next, wait_to_read,
}
use transaction_log.Location.LogFileNumber.{records_per_file}
use transaction_log.Location.LogFileId.{LogFileId}
use transaction_log.Location.Endpoints.{RecordEndLocation}
use transaction_log.IndexedLog.Invariant.{id_at, end_at}
use transaction_log.LogValidator.Scan.{
  Accepted, Batch, Call, go_on, break_scan, LogFileValidationError, LogScanResult, next_start,
  accept, after_take, accept_batch, after_batch, after_wait, at_cap,
}
use transaction_log.LogValidator.Findings.{IsPlace}
use transaction_log.LogValidator.Accepting.{
  accept_batch-full, accept_batch-some, next_start-some, next_start-none, accept-none, accept-other,
  accept-same, accept-over,
}

module _ (f : LogFileId) where
  -- The end of the first `n` records of the file.
  abbrev pub Placed : ℕ → Option RecordEndLocation → Type 0
  Placed n end = (p : ℕ) × IsPlace f n p × (end ≡ end_at f n p)

  -- The end of some first records of the file.
  abbrev pub InFile : Option RecordEndLocation → Type 0
  InFile end = (n : ℕ) × Placed n end

  abbrev pub Counted : Accepted → Type 0
  Counted s = Placed s.count s.validated_end

  abbrev pub BatchEnds : Batch → Type 0
  BatchEnds (go_on s) = Counted s
  BatchEnds (break_scan x) = InFile x.validated_end

  abbrev pub ScanEnds : LogScanResult → Type 0
  ScanEnds x = InFile x.validated_end

  pub at_cap-Answered :
      (file_end : ℕ) (s : Accepted) → Counted s → Answered ScanEnds (at_cap file_end s)
  unfolding at_cap
  at_cap-Answered file_end s h =
      option-either (Answered ScanEnds) s.validated_end tt (λ end. (s.count, h))

  module _ {F : Type 0} where
    accept-Answered :
        (loop : Accepted → Call F Batch) (s : Accepted) (rec : Record) (r : RecordReader F)
        → ((s' : Accepted) → Counted s' → Answered BatchEnds (loop s' r).0)
        → Counted s
        → s.count < records_per_file
        → Answered BatchEnds (accept loop f s rec r).0
    accept-Answered loop s rec r ih (p, place, e) lt =
        let Result : Outcome LogFileValidationError Batch × RecordReader F → Type 0 =
          λ x. Answered BatchEnds x.0 in
        let n = s.count in
        let id = id_at f n in
        elim (Bool-cases (ltb u64_max (f.file_number * records_per_file + n))) [
          | inl over ↦
              subst Result
                (sym (
                  accept-none loop f s rec r
                    (ap (next_start f) e ∙ next_start-none f n p place (ltb→lt _ _ over))))
                tt
          | inr le ↦
              let start = ap (next_start f) e ∙ next_start-some f n p place (ltb→le _ _ le) in
              elim (Bool-cases (RecordId.eq (View.id rec) id)) [
                | inr ne ↦
                    subst Result (sym (accept-other loop f s rec r id p start ne))
                      (n, (p, place, e))
                | inl same ↦ elim (Bool-cases (ltb u64_max (p + length rec.bytes))) [
                  | inl over ↦
                      subst Result
                        (sym (accept-over loop f s rec r id p start same (ltb→lt _ _ over))) tt
                  | inr small ↦
                      subst Result
                        (sym (accept-same loop f s rec r id p start same (ltb→le _ _ small)))
                        (ih _ (
                          p + length rec.bytes,
                          record {
                            file = place.file;
                            within = omega arith;
                            addressable = omega (arith, ltb→le _ _ le);
                            start = inl (omega arith);
                          },
                          ap (λ y. end_at f y (p + length rec.bytes))
                              (let z : suc n ≡ n + 1 = omega arith in z),
                        ))
                ]
              ]
        ]

    after_take-Answered :
        (on_record : Record → Call F Batch) (s : Accepted)
        (r : Outcome RecordReadError (Option Record)) (x : RecordReader F)
        → ((rec : Record) → Answered BatchEnds (on_record rec x).0)
        → Counted s
        → Answered BatchEnds (after_take on_record s r x).0
    unfolding after_take
    after_take-Answered on_record s (ok none) x ih h = h
    after_take-Answered on_record s (ok (some rec)) x ih h = ih rec
    after_take-Answered on_record s (err e) x ih h = tt
    after_take-Answered on_record s dropped x ih h = tt
    after_take-Answered on_record s panicked x ih h = tt
    after_take-Answered on_record s stuck x ih h = tt

    pub accept_batch-Answered :
        (fuel : ℕ) (s : Accepted) (r : RecordReader F)
        → Counted s
        → Answered BatchEnds (accept_batch fuel f s r).0
    unfolding accept_batch
    accept_batch-Answered zero s r h = tt
    accept_batch-Answered (suc fuel) s r h = elim (Bool-cases (ltb s.count records_per_file)) [
      | inr full ↦
          subst
            (λ (x : Outcome LogFileValidationError Batch × RecordReader F). Answered BatchEnds x.0)
            (sym (accept_batch-full fuel f s r full)) h
      | inl more ↦
          subst
            (λ (x : Outcome LogFileValidationError Batch × RecordReader F). Answered BatchEnds x.0)
            (sym (accept_batch-some fuel f s r more))
            (let y = try_read_next r in
              after_take-Answered (accept (accept_batch fuel f) f s) s y.0 y.1
                (λ rec.
                  accept-Answered (accept_batch fuel f) s rec y.1
                    (λ s'. accept_batch-Answered fuel s' y.1) h (ltb→lt _ _ more))
                h)
    ]

    pub after_batch-Answered :
        (loop : Accepted → Call F LogScanResult) (b : Outcome LogFileValidationError Batch)
        (r : RecordReader F)
        → ((s : Accepted) → Counted s → Answered ScanEnds (loop s r).0)
        → Answered BatchEnds b
        → Answered ScanEnds (after_batch loop b r).0
    unfolding after_batch
    after_batch-Answered loop (ok (go_on s)) r ih h = ih s h
    after_batch-Answered loop (ok (break_scan x)) r ih h = h
    after_batch-Answered loop (err e) r ih h = tt
    after_batch-Answered loop dropped r ih h = tt
    after_batch-Answered loop panicked r ih h = tt
    after_batch-Answered loop stuck r ih h = tt

    pub after_wait-Answered :
        (batch : Call F LogScanResult) (s : Accepted) (ready : Outcome RecordReadError Bool)
        (r : RecordReader F)
        → Answered ScanEnds (batch r).0
        → Counted s
        → Answered ScanEnds (after_wait batch s ready r).0
    unfolding after_wait
    after_wait-Answered batch s (ok true) r ih h = ih
    after_wait-Answered batch s (ok false) r ih h = (s.count, h)
    after_wait-Answered batch s (err (Reader.io e)) r ih h = tt
    after_wait-Answered batch s (err reader_failed) r ih h = tt
    after_wait-Answered batch s (err e) r ih h = (s.count, h)
    after_wait-Answered batch s dropped r ih h = tt
    after_wait-Answered batch s panicked r ih h = tt
    after_wait-Answered batch s stuck r ih h = tt
