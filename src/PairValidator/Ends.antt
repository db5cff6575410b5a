-- ===== src/PairValidator/Ends.antt =====
-- The counts and sizes of what was found, by which both files are positioned.
use transaction_log.Common.{
  List, Option, [], ap, arith, length, length-append, length-take, refl, suc, sym, take, zero, ℕ,
  ◌*◌, ◌++◌, ◌+◌, ◌∙◌, ◌∷◌, ◌≡◌, ◌≤◌,
}
use transaction_log.IndexWriter.Writer.{index_entry_len}
use transaction_log.Record.View.{Record}
use transaction_log.Location.LogFileNumber.{records_per_file}
use transaction_log.Location.LogFileId
use transaction_log.Location.LogFileId.{LogFileId}
use transaction_log.Location.Endpoints.{RecordEndLocation, position_of, count_of}
use transaction_log.IndexedLog.Invariant.{size_of, end_at}
use transaction_log.LogValidator.Findings.{ends_of}
use transaction_log.LogValidator.Validator.{ValidatedLogFile}
use transaction_log.LogValidator.Validating.{Recovers, found_position, found_all}
use transaction_log.Io.File.{Parts, content}
use transaction_log.IndexValidator.Entries.{Agrees, encode_ends, length-encode_ends, trusted-le}

length-ends_of : (p : ℕ) (records : List Record) → length (ends_of p records) ≡ length records
length-ends_of p [] = refl
length-ends_of p (r ∷ rs) = ap suc (length-ends_of (p + length r.bytes) rs)

-- The count of the last of the first `n` records of a file.
pub count_of-end_at : (f : LogFileId) (n p : ℕ) → n ≤ records_per_file → count_of (end_at f n p) ≡ n
unfolding LogFileId.record_count_through
count_of-end_at f zero p h = refl
count_of-end_at f (suc n) p h = omega arith

module _ {F : Type 0} {crc32c : List ℕ → ℕ} {parts : Parts F} {f : LogFileId}
    {t : Option RecordEndLocation} {before after : F} {v : ValidatedLogFile}
    (h : Recovers crc32c parts f t before after v) where
  -- The suffix has an entry for each record that was found.
  pub found_ends : length v.suffix_ends ≡ length h.finds.records
  found_ends = ap length h.finds.ends ∙ length-ends_of (position_of t) h.finds.records

  pub found_count : count_of v.validated_end ≡ count_of t + length v.suffix_ends
  found_count =
      ap count_of h.finds.end
      ∙ count_of-end_at f (count_of t + length h.finds.records) _ h.finds.within
      ∙ ap (λ k. count_of t + k) (sym found_ends)

  pub found_within : count_of v.validated_end ≤ records_per_file
  found_within = omega (arith, found_count, found_ends, h.finds.within)

  -- The log ends where its last record does.
  pub found_size : length (content parts after) ≡ position_of v.validated_end
  found_size = omega (
    arith,
    ap length h.file,
    length-take (position_of t + size_of h.finds.records) (content parts before),
    found_position f t v.validated_end h.finds.records h.finds.end,
    found_all (position_of t) (content parts before) h.finds.rest h.finds.records h.extent.0
        h.finds.cut,
  )

-- The index ends behind the entry of the last record.
pub index_size :
    (t : Option RecordEndLocation) (bytes left : List ℕ) (ends : List ℕ) (n : ℕ)
    → Agrees t bytes
    → left ≡ take (count_of t * index_entry_len) bytes ++ encode_ends ends
    → n ≡ count_of t + length ends
    → length left ≡ n * index_entry_len
index_size t bytes left ends n agrees e h = omega (
  arith,
  h,
  ap length e,
  length-append (take (count_of t * index_entry_len) bytes) (encode_ends ends),
  length-take (count_of t * index_entry_len) bytes,
  length-encode_ends ends,
  trusted-le t bytes agrees,
)
