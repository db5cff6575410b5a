-- ===== src/PairValidator/Placing.antt =====
-- The end that the validation of a pair answers with, whatever the calls of the storage do.
use transaction_log.Common.{
  ==→eq, ==→ne, Answered, Bool-cases, List, Option, Outcome, ap, arith, continue-Answered,
  continue-Answered-by, inl, inr, map_err, map_err-Answered, none, ok, some, subst, suc, sym, zero,
  ℕ, ◌*◌, ◌<◌, ◌==◌, ◌∙◌, ◌≡◌, ◌≢◌,
}
use transaction_log.Location.LogFileNumber
use transaction_log.Location.LogFileNumber.{records_per_file, IsLogFileNumber}
use transaction_log.Location.LogFileId
use transaction_log.Location.LogFileId.{LogFileId}
use transaction_log.Location.Endpoints.{RecordEndLocation, position_of, count_of, end_file}
use transaction_log.IndexWriter.Writer.{index_entry_len}
use transaction_log.IndexedLog.Invariant.{id_at, end_at}
use transaction_log.LogValidator.Scan as LogScan
use transaction_log.LogValidator.Findings.{IsPlace}
use transaction_log.LogValidator.Validating.{IsTrusted}
use transaction_log.LogValidator.Validator as Log
use transaction_log.LogValidator.Validator.{ValidatedLogFile}
use transaction_log.LogValidator.Placing.{InFile}
use transaction_log.LogValidator.Ending.{validate-Answered}
use transaction_log.IndexValidator.Validator as Index
use transaction_log.PairValidator.Validator.{
  IndexedLogValidationError, ValidatedFilePair, complete, partial, storage, log, index, position,
  outcome, validate_files, validate,
}
use transaction_log.PairValidator.Ends.{count_of-end_at}
use transaction_log.Storage.Provider.{Provider}

-- A complete file ends in itself, and is not the last there can be. A partial one is empty or ends in
-- itself.
abbrev pub PairEnds : {H : Type 0} → LogFileId → ValidatedFilePair H → Type 0
PairEnds f (complete end) = (end_file end ≡ f) × (f.file_number < LogFileNumber.maximum)
PairEnds f (partial none l i) = Unit {0}
PairEnds f (partial (some end) l i) = end_file end ≡ f

file_of-id_at :
    (f : LogFileId) (k : ℕ) → k < records_per_file → LogFileId.from_record_id (id_at f k) ≡ f
unfolding LogFileId.from_record_id
file_of-id_at f k h = ground arith

-- The file of an end, or another.
abbrev file_or : LogFileId → Option RecordEndLocation → LogFileId
file_or f none = f
file_or f (some end) = end_file end

in_file :
    (f : LogFileId) (end : RecordEndLocation) (n p : ℕ)
    → IsPlace f n p
    → some end ≡ end_at f n p
    → end_file end ≡ f
unfolding end_file
in_file f end zero p place e = cc
in_file f end (suc n) p place e = ap (file_or f) e ∙ file_of-id_at f n (omega (arith, place.within))

full_file :
    (f : LogFileId) (end : RecordEndLocation) (n p : ℕ)
    → IsPlace f n p
    → some end ≡ end_at f n p
    → count_of (some end) ≡ records_per_file
    → f.file_number < LogFileNumber.maximum
full_file f end n p place e full =
    let all : n ≡ records_per_file =
      sym (count_of-end_at f n p place.within) ∙ ap count_of (sym e) ∙ full in
    omega (arith, place.addressable)

module _ {W H : Type 0} (crc32c : List ℕ → ℕ) (provider : Provider W H) (reserve : ℕ → ℕ → ℕ → ℕ)
    (fuel : ℕ) (f : LogFileId) where
  position-PairEnds :
      (end : Option RecordEndLocation) (l i : H) (w : W)
      → PairEnds f (partial end l i)
      → Answered (PairEnds f) (position crc32c provider reserve fuel end l i w).0
  unfolding position
  position-PairEnds end l i w h =
      continue-Answered (PairEnds f)
        (map_err (λ e. log (LogScan.io e)) ((provider.file l).seek (position_of end) w).0) _
        ((provider.file l).seek (position_of end) w).1
        (λ u x.
          continue-Answered (PairEnds f)
            (map_err (λ e. index (Index.io e))
              ((provider.file i).seek (count_of end * index_entry_len) x).0)
            _ ((provider.file i).seek (count_of end * index_entry_len) x).1 (λ u y. h))

  outcome-full :
      (end : RecordEndLocation) (l i : H) (w : W)
      → count_of (some end) ≡ records_per_file
      → outcome crc32c provider reserve fuel (some end) l i w ≡ (ok (complete end), w)
  unfolding outcome
  outcome-full end l i w e = ground (arith, e)

  outcome-room :
      (end : RecordEndLocation) (l i : H) (w : W)
      → count_of (some end) ≢ records_per_file
      → outcome crc32c provider reserve fuel (some end) l i w
        ≡ position crc32c provider reserve fuel (some end) l i w
  unfolding outcome
  outcome-room end l i w e = ground (arith, e)

  outcome-PairEnds :
      (end : Option RecordEndLocation) (l i : H) (w : W)
      → InFile f end
      → Answered (PairEnds f) (outcome crc32c provider reserve fuel end l i w).0
  unfolding outcome
  outcome-PairEnds none l i w h = position-PairEnds none l i w tt
  outcome-PairEnds (some end) l i w (n, (p, place, e)) =
      let Result : Outcome IndexedLogValidationError (ValidatedFilePair H) × W → Type 0 =
        λ x. Answered (PairEnds f) x.0 in
      let own = in_file f end n p place e in
      elim (Bool-cases (count_of (some end) == records_per_file)) [
        | inl full ↦
            let count = ==→eq (count_of (some end)) records_per_file full in
            subst Result (sym (outcome-full end l i w count))
              (own, full_file f end n p place e count)
        | inr room ↦
            subst Result
              (sym (outcome-room end l i w (==→ne (count_of (some end)) records_per_file room)))
              (position-PairEnds (some end) l i w own)
      ]

  -- The validation of a pair on a trusted endpoint that could be stored.
  pub validate-PairEnds :
      (t : Option RecordEndLocation) (w : W)
      → IsLogFileNumber f.file_number
      → IsTrusted t
      → Answered (PairEnds f) (validate crc32c provider reserve fuel f t w).0
  unfolding validate validate_files
  validate-PairEnds t w valid trusted =
      let P : ValidatedFilePair H → Type 0 = PairEnds f in
      let l = provider.open_log_for_validation f w in
      continue-Answered P (map_err storage l.0) _ l.1 (λ lh x.
        let i = provider.open_index_for_repair f x in
        continue-Answered P (map_err storage i.0) _ i.1 (λ ih y.
          let v = Log.validate crc32c (provider.file lh) reserve fuel f t y in
          continue-Answered-by (λ (v : ValidatedLogFile). InFile f v.validated_end) P
            (map_err log v.0) _ v.1
            (map_err-Answered (λ (v : ValidatedLogFile). InFile f v.validated_end) log v.0
              (validate-Answered f crc32c (provider.file lh) reserve fuel t y valid trusted))
            (λ v z h.
              let j = Index.validate (provider.file ih) fuel t v.suffix_ends z in
              continue-Answered P (map_err index j.0) _ j.1
                (λ u q. outcome-PairEnds v.validated_end lh ih q h))))
