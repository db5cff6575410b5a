-- ===== src/Examples/Reading.antt =====
-- The record reader at concrete inputs.
use transaction_log.Common.{
  List, [], ap, append-nil, arith, inl, inr, length, none, refl, sym, ℕ, ◌∷◌,
}
use transaction_log.Record.Frame.{encode, content, IsFrame}
use transaction_log.Record.Codec.{encode-IsFrame}
use transaction_log.RecordReader.Reader.{RecordReader, active, wait_to_read, try_read_next}
use transaction_log.RecordReader.Batch.{IsReading, HandsOut, try_read_next-HandsOut}
use transaction_log.RecordReader.Rounds.{Awaits}
use transaction_log.RecordReader.Waiting.{wait_to_read-Awaits}
use transaction_log.Examples.Devices.{
  Feed, feed, feed-IsSource, checksum, checksum-lt, sample_id, room_for, room_for-le,
}

abbrev one_record : List ℕ
one_record = encode checksum sample_id (1 ∷ [])

-- A reader on a source of one record, and one with that record in its batch.
abbrev fresh : RecordReader Feed
fresh = record {
  source = record { data_left = 3 ∷ 0 ∷ []; stall = 1 };
  buffer = [];
  capacity = 65536;
  pending_length = none;
  batch = [];
  batch_offset = 0;
  state = active;
}

fresh-IsReading : IsReading checksum fresh
fresh-IsReading = record {
  frames = [];
  valid = tt;
  left = refl;
  place = inl (refl, refl);
  caches = tt;
}

wait_to_read-Awaits_example :
    Awaits checksum feed
      (λ f. f.data_left)
      fresh
      (wait_to_read checksum feed room_for 4 fresh).1
      (wait_to_read checksum feed room_for 4 fresh).0
wait_to_read-Awaits_example =
    wait_to_read-Awaits checksum feed-IsSource room_for room_for-le 4 fresh fresh-IsReading refl
      (omega arith)

-- A reader with a whole record of one byte in its batch.
abbrev loaded : RecordReader Feed
loaded = record fresh { batch = one_record }

one_record-IsFrame : IsFrame checksum one_record
one_record-IsFrame =
    encode-IsFrame checksum sample_id (1 ∷ []) (omega arith) (omega arith)
      (checksum-lt (content sample_id (1 ∷ [])))

loaded-IsReading : IsReading checksum loaded
loaded-IsReading = record {
  frames = one_record ∷ [];
  valid = (one_record-IsFrame, tt);
  left = sym (append-nil one_record);
  place = inr (omega (arith, one_record-IsFrame.least));
  caches = tt;
}

try_read_next-HandsOut_example : HandsOut checksum (λ f. f.data_left) loaded (try_read_next loaded)
try_read_next-HandsOut_example =
    try_read_next-HandsOut checksum (λ f. f.data_left) loaded loaded-IsReading (λ e. cc)
      (λ e. absurd (omega (arith, one_record-IsFrame.least, ap length e)))
