-- ===== src/Location/Ranges.antt =====
-- A run of records cut at the boundaries of the files that hold them.
use transaction_log.Common.{
  List, [], ap, arith, if◌then◌else◌, map, ok, suc, sym, zero, ℕ, ◌+◌, ◌-◌, ◌<◌, ◌↔◌, ◌∙◌, ◌∷◌, ◌≡◌,
  ◌≤◌,
}
use transaction_log.Record.StreamId.{StreamId}
use transaction_log.Record.RecordId.{IsRecordId}
use transaction_log.Location.LogFileNumber
use transaction_log.Location.LogFileNumber.{IsLogFileNumber}
use transaction_log.Location.LogFilePosition.{LogFilePosition}
use transaction_log.Location.LogFileId
use transaction_log.Location.LogFileId.{LogFileId, successors}
use transaction_log.Location.Endpoints
use transaction_log.Location.Endpoints.{start_file, end_file}
use transaction_log.Location.RecordRange
use transaction_log.Location.RecordRange.{
  with_parts, LogFileRange, RecordRangeLocation, file_range, file_postfix, file_prefix, entire_file,
  part, iter,
}
use transaction_log.Location.Files.{run, successors-run}

-- The `k` files from `n` on, all of each, and then the front of one more up to `p`.
unfoldable pub whole_then : StreamId → ℕ → ℕ → LogFilePosition → List (LogFileId × LogFileRange)
whole_then stream n zero p = (record { stream_id = stream; file_number = n }, file_prefix p) ∷ []
whole_then stream n (suc k) p =
    (record { stream_id = stream; file_number = n }, entire_file) ∷ whole_then stream (n + 1) k p

-- The parts of a range of `k` files more than one, from file `n` on.
unfoldable pub parts : RecordRangeLocation → StreamId → ℕ → ℕ → List (LogFileId × LogFileRange)
parts r stream n zero =
    (record { stream_id = stream; file_number = n }, file_range r.start.position r.end.position)
    ∷ []
parts r stream n (suc k) =
    (record { stream_id = stream; file_number = n }, file_postfix r.start.position)
    ∷ whole_then stream (n + 1) k r.end.position

at : StreamId → ℕ → LogFileId
at stream n = record { stream_id = stream; file_number = n }

part-whole_then :
    (r : RecordRangeLocation) (stream : StreamId) (a k n : ℕ) (last : LogFileId)
    → a < n
    → last.stream_id ≡ stream
    → last.file_number ≡ n + k
    → map (λ file. (file, part r (at stream a) last file)) (run stream n (suc k))
      ≡ whole_then stream n k r.end.position
unfolding at part run whole_then LogFileId.eq
part-whole_then r stream a zero n last h s e = ground arith
part-whole_then r stream a (suc k) n last h s e =
    ground (arith, part-whole_then r stream a k (n + 1) last (omega arith) s (omega arith))

map-files :
    (r : RecordRangeLocation) (stream : StreamId) (a k : ℕ) (last : LogFileId)
    → last.stream_id ≡ stream
    → last.file_number ≡ a + k
    → map (λ file. (file, part r (at stream a) last file)) (run stream a (suc k))
      ≡ parts r stream a k
unfolding at part run parts LogFileId.eq
map-files r stream a zero last s e = ground arith
map-files r stream a (suc k) last s e =
    ground (arith, part-whole_then r stream a k (a + 1) last (omega arith) s (omega arith))

-- What `new` has established of a range.
abbrev pub IsRange : RecordRangeLocation → Type 0
IsRange r =
    (r.start.record_id.stream_id ≡ r.end.record_id.stream_id)
    × (r.start.record_id.sequence_number ≤ r.end.record_id.sequence_number)
    × ((if LogFileId.eq (start_file r.start) (end_file r.end) then r.start.position else 0)
        < r.end.position)

-- `new` makes a range of its two ends exactly if they are of one stream, the records are not
-- reversed, and the end is past the start in a common file, or else past 0 in its own.
pub new-IsRange :
    (start : Endpoints.RecordStartLocation) (end : Endpoints.RecordEndLocation)
    → let r : RecordRangeLocation = record { start = start; end = end } in
      RecordRange.new start end ≡ ok r ↔ IsRange r
unfolding RecordRange.new
new-IsRange start end = ground arith

-- A range that `new` has made is cut without panic. In one file it is one span; over several files it is the
-- first file from the start position on, every file between them whole, in ascending order, and the last
-- file up to the end position.
pub iter-parts :
    (r : RecordRangeLocation)
    → IsRange r
    → IsRecordId r.end.record_id
    → iter r
      ≡ ok (
          parts r r.start.record_id.stream_id
            (start_file r.start).file_number
            ((end_file r.end).file_number - (start_file r.start).file_number))
unfolding iter with_parts at start_file end_file LogFileId.from_record_id
    LogFileNumber.from_sequence_number
iter-parts r (s, le, _) v =
    let first = start_file r.start in
    let last = end_file r.end in
    let k = last.file_number - first.file_number in
    let e : last.file_number ≡ first.file_number + k = omega arith in
    let m : last.file_number ≤ LogFileNumber.maximum = omega arith in
    ap (λ files. RecordRange.with_parts r first last files)
      (successors-run k first.file_number first.stream_id last (sym s) e m)
    ∙ ap ok (map-files r first.stream_id first.file_number k last (sym s) e)
