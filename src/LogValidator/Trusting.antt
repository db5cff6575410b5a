-- ===== src/LogValidator/Trusting.antt =====
-- What a log file is checked for before it is scanned.
use transaction_log.Common.{
  Bool-cases, Option, ap, arith, err, false, inl, inr, none, ok, refl, some, suc, sym, true, zero,
  ℕ, ◌%◌, ◌+◌, ◌∙◌, ◌≡◌, ◌≢◌, ◌⊎◌,
}
use transaction_log.Location.LogFileNumber.{records_per_file, IsLogFileNumber}
use transaction_log.Location.LogFileId
use transaction_log.Location.LogFileId.{LogFileId}
use transaction_log.Location.Endpoints.{RecordEndLocation, end_file, position_of, count_of}
use transaction_log.IndexedLog.Invariant.{id_at, end_at}
use transaction_log.LogValidator.Scan.{invalid_start, another_file, outside_extent}
use transaction_log.LogValidator.Findings.{IsPlace}
use transaction_log.LogValidator.Validator.{check_file, check_extent}
use transaction_log.LogValidator.Validating.{IsTrusted, InExtent}

pub end_at-suc :
    (f : LogFileId) (n k p : ℕ)
    → n ≡ k + 1
    → end_at f n p ≡ some (record { record_id = id_at f k; position = p })
end_at-suc f zero k p e = absurd (omega arith)
end_at-suc f (suc n) k p e =
    ap (λ x. some (record { record_id = id_at f x; position = p })) (omega arith)

same_file :
    (f : LogFileId) (end : RecordEndLocation)
    → LogFileId.eq (end_file end) f ≡ true
    → some end ≡ end_at f (count_of (some end)) end.position
unfolding LogFileId.eq end_file LogFileId.from_record_id LogFileId.record_count_through
same_file f end e =
    let i : id_at f (end.record_id.sequence_number % records_per_file) ≡ end.record_id =
      ground arith in
    sym (
      end_at-suc f _ (end.record_id.sequence_number % records_per_file) end.position refl
      ∙ ap (λ x. some (record { record_id = x; position = end.position })) i)

other_file :
    (f : LogFileId) (end : RecordEndLocation)
    → LogFileId.eq (end_file end) f ≡ false
    → end_file end ≢ f
unfolding LogFileId.eq
other_file f end e = ground arith

-- The endpoint is one of the file, or the call fails.
pub check_file-cases :
    (f : LogFileId) (t : Option RecordEndLocation)
    → ((check_file f t ≡ ok tt) × (t ≡ end_at f (count_of t) (position_of t)))
      ⊎ ((check_file f t ≡ err (invalid_start another_file))
          × (end : RecordEndLocation) × (t ≡ some end)
          × (end_file end ≢ f))
unfolding check_file
check_file-cases f none = inl (refl, refl)
check_file-cases f (some end) = elim (Bool-cases (LogFileId.eq (end_file end) f)) [
  | inl same ↦ inl (ground arith, same_file f end same)
  | inr other ↦ inr (ground arith, end, refl, other_file f end other)
]

pub check_extent-cases :
    (t : Option RecordEndLocation) (n : ℕ)
    → ((check_extent t n ≡ ok tt) × InExtent t n)
      ⊎ ((check_extent t n ≡ err (invalid_start outside_extent)) × (InExtent t n → ⊥))
unfolding check_extent
check_extent-cases t n = ground arith

pub trusted-IsPlace :
    (f : LogFileId) (t : Option RecordEndLocation)
    → IsLogFileNumber f.file_number
    → IsTrusted t
    → t ≡ end_at f (count_of t) (position_of t)
    → IsPlace f (count_of t) (position_of t)
unfolding LogFileId.record_count_through
trusted-IsPlace f none file h e = record {
  file = file;
  within = omega arith;
  addressable = omega arith;
  start = inr refl;
}
trusted-IsPlace f (some end) file h e = record {
  file = file;
  within = omega arith;
  addressable =
      let i : some end
          ≡ some (record {
            record_id = id_at f (end.record_id.sequence_number % records_per_file);
            position = end.position;
          }) =
        e ∙ end_at-suc f _ (end.record_id.sequence_number % records_per_file) end.position refl in
      ground arith;
  start = inl (omega arith);
}
