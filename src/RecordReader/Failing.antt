-- ===== src/RecordReader/Failing.antt =====
-- What stands in front of an input is never the error of a reader that has failed before.
use transaction_log.Common.{
  List, Option, Outcome, [], arith, dropped, err, none, ok, panicked, some, stuck, ℕ, ◌∷◌, ◌≢◌,
}
use transaction_log.Record.StreamId
use transaction_log.RecordReader.Reader.{RecordReadError, reader_failed, frame_length}
use transaction_log.RecordReader.Inspect.{
  declared, checked, after_declared, cut_short, inspect, at_end, classify,
}

declared-ne-reader_failed : (bytes : List ℕ) → declared bytes ≢ err reader_failed
unfolding frame_length StreamId.new
declared-ne-reader_failed bytes h = ground arith

checked-ne-reader_failed :
    (crc32c : List ℕ → ℕ) (n : ℕ) (bytes : List ℕ) → checked crc32c n bytes ≢ err reader_failed
unfolding checked
checked-ne-reader_failed crc32c n bytes h = ground arith

after_declared-ne-reader_failed :
    (crc32c : List ℕ → ℕ) (bytes : List ℕ) (r : Outcome RecordReadError (Option ℕ))
    → r ≢ err reader_failed
    → after_declared crc32c bytes r ≢ err reader_failed
after_declared-ne-reader_failed crc32c bytes (ok (some n)) k h =
    checked-ne-reader_failed crc32c n bytes h
after_declared-ne-reader_failed crc32c bytes (ok none) k h = cc
after_declared-ne-reader_failed crc32c bytes (err e) k h = k h
after_declared-ne-reader_failed crc32c bytes dropped k h = cc
after_declared-ne-reader_failed crc32c bytes panicked k h = cc
after_declared-ne-reader_failed crc32c bytes stuck k h = cc

cut_short-ne-reader_failed :
    (bytes : List ℕ) (d : Outcome RecordReadError (Option ℕ)) → cut_short bytes d ≢ reader_failed
unfolding cut_short
cut_short-ne-reader_failed bytes (ok (some n)) h = cc
cut_short-ne-reader_failed bytes (ok none) h = cc
cut_short-ne-reader_failed bytes d h = cc

at_end-ne-reader_failed :
    (bytes : List ℕ) (r : Outcome RecordReadError (Option ℕ))
    → r ≢ err reader_failed
    → at_end bytes r ≢ err reader_failed
at_end-ne-reader_failed bytes (ok none) k h = cut_short-ne-reader_failed bytes (declared bytes) (cc)
at_end-ne-reader_failed bytes (ok (some n)) k h = cc
at_end-ne-reader_failed bytes (err e) k h = k h
at_end-ne-reader_failed bytes dropped k h = cc
at_end-ne-reader_failed bytes panicked k h = cc
at_end-ne-reader_failed bytes stuck k h = cc

pub classify-ne-reader_failed :
    (crc32c : List ℕ → ℕ) (bytes : List ℕ) → classify crc32c bytes ≢ err reader_failed
unfolding classify inspect
classify-ne-reader_failed crc32c [] h = cc
classify-ne-reader_failed crc32c (b ∷ bs) h =
    at_end-ne-reader_failed (b ∷ bs) (inspect crc32c (b ∷ bs))
      (after_declared-ne-reader_failed crc32c (b ∷ bs) (declared (b ∷ bs))
        (declared-ne-reader_failed (b ∷ bs)))
      h
