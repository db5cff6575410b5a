-- ===== src/RecordReader/Reader.antt =====
-- record_reader.rs and record_read_error.rs. Bytes are buffered until whole frames are there; the
-- validated frames become a batch, from which records are taken one by one.
use transaction_log.Common.{
  Bool, Exec, List, Option, Outcome, [], continue, drop, dropped, err, false, if◌then◌else◌, length,
  ltb, none, ok, panicked, pure, some, stuck, suc, take, true, zero, ℕ, ◌*◌, ◌++◌, ◌+◌, ◌-◌, ◌==◌,
  ◌∷◌,
}
use transaction_log.Io.Error.{IoError, interrupted}
use transaction_log.Io.Source.{Source}
use transaction_log.Record.Protocol.{header_len, min_record_len}
use transaction_log.Record.Protocol.Read
use transaction_log.Record.StreamId
use transaction_log.Record.StreamId.{StreamIdError}
use transaction_log.Record.View.{Record}

pub data RecordReadError : Type 0 where
  truncated_header : ℕ → RecordReadError
  invalid_length : ℕ → RecordReadError
  invalid_stream_id : StreamIdError → RecordReadError
  truncated_record : ℕ → ℕ → RecordReadError
  crc_mismatch : ℕ → ℕ → RecordReadError
  io : IoError → RecordReadError
  reader_failed : RecordReadError

pub data ReaderState : Type 0 where
  active finished failed : ReaderState

-- `buffer` and `capacity` are those of the `BytesMut`.
pub record RecordReader (S : Type 0) : Type 0 where
  pub source : S
  pub buffer : List ℕ
  pub capacity : ℕ
  pub pending_length : Option ℕ
  pub batch : List ℕ
  pub batch_offset : ℕ
  pub state : ReaderState

abbrev pub initial_buffer_capacity : ℕ
initial_buffer_capacity = 64 * 1024

unfoldable pub new : {S : Type 0} → S → RecordReader S
new source = record {
  source = source;
  buffer = [];
  capacity = initial_buffer_capacity;
  pending_length = none;
  batch = [];
  batch_offset = 0;
  state = active;
}

-- `try_read_next` on a reader that has not failed and a batch that is not empty. A slice beyond the
-- batch would panic.
unfoldable pub take_record : {S : Type 0} → Exec (RecordReader S) RecordReadError (Option Record)
take_record r =
    let start = r.batch_offset in
    let record_len = Read.length (Read.header_unchecked (drop start r.batch)) in
    let stop = start + record_len in
    if stop == length r.batch
    then (
      ok (some (record { bytes = drop start r.batch })),
      record r { batch = []; batch_offset = 0 },
    )
    else if ltb (length r.batch) stop
    then (panicked, r)
    else (
      ok (some (record { bytes = take record_len (drop start r.batch) })),
      record r { batch_offset = stop },
    )

unfoldable pub try_read_next : {S : Type 0} → Exec (RecordReader S) RecordReadError (Option Record)
unfolding take_record
try_read_next r = elim r.state [
  | failed ↦ (err reader_failed, r)
  | _ ↦ elim r.batch [ [] ↦ (ok none, r) | b ∷ bs ↦ take_record r ]
]

-- The length of the next frame: the one that is pending, or the one that a complete header declares.
-- `ok none` asks for more bytes.
unfoldable pub frame_length : Option ℕ → List ℕ → Outcome RecordReadError (Option ℕ)
unfolding StreamId.new
frame_length (some n) remaining = ok (some n)
frame_length none remaining =
    let header = take header_len remaining in
    let declared = Read.length header in
    if ltb (length remaining) header_len
    then ok none
    else if ltb declared min_record_len
    then err (invalid_length declared)
    else elim (StreamId.new (Read.stream_id header)) [
      | err e ↦ err (invalid_stream_id e)
      | _ ↦ ok (some declared)
    ]

-- The state in which the loop of `prepare_batch` ends.
pub record Scan : Type 0 where
  pub validated_len : ℕ
  pub pending_length : Option ℕ
  pub validation : Outcome RecordReadError (Unit {0})

module _ (crc32c : List ℕ → ℕ) where
  -- One round, given the loop for the next: a known length, and the check of its frame.
  unfoldable pub check_frame : (ℕ → Option ℕ → Scan) → List ℕ → ℕ → ℕ → Scan
  check_frame loop remaining validated_len n =
      let frame = take n remaining in
      let stored = Read.crc frame in
      let computed = Read.compute_crc crc32c frame in
      let more = loop (validated_len + n) none in
      if ltb (length remaining) n
      then record { validated_len = validated_len; pending_length = some n; validation = ok tt }
      else if stored == computed
      then more
      else record {
        validated_len = validated_len;
        pending_length = some n;
        validation = err (crc_mismatch stored computed);
      }

  unfoldable pub round :
      (ℕ → Option ℕ → Scan) → List ℕ → ℕ → Option ℕ → Outcome RecordReadError (Option ℕ) → Scan
  unfolding check_frame
  round loop remaining validated_len pending (ok (some n)) =
      check_frame loop remaining validated_len n
  round loop remaining validated_len pending (ok none) = record {
    validated_len = validated_len;
    pending_length = pending;
    validation = ok tt;
  }
  round loop remaining validated_len pending (err e) = record {
    validated_len = validated_len;
    pending_length = pending;
    validation = err e;
  }
  round loop remaining validated_len pending dropped = record {
    validated_len = validated_len;
    pending_length = pending;
    validation = dropped;
  }
  round loop remaining validated_len pending panicked = record {
    validated_len = validated_len;
    pending_length = pending;
    validation = panicked;
  }
  round loop remaining validated_len pending stuck = record {
    validated_len = validated_len;
    pending_length = pending;
    validation = stuck;
  }

  -- The loop of `prepare_batch`. Each round that goes on validates sixteen bytes at least.
  unfoldable pub scan : ℕ → List ℕ → ℕ → Option ℕ → Scan
  unfolding round
  scan zero buffer validated_len pending = record {
    validated_len = validated_len;
    pending_length = pending;
    validation = stuck;
  }
  scan (suc fuel) buffer validated_len pending =
      let remaining = drop validated_len buffer in
      round (scan fuel buffer) remaining validated_len pending (frame_length pending remaining)

  unfoldable pub prepare_batch : {S : Type 0} → Exec (RecordReader S) RecordReadError Bool
  prepare_batch r =
      let s = scan (suc (length r.buffer)) r.buffer 0 r.pending_length in
      if s.validated_len == 0
      then continue s.validation (λ _. pure false) (record r { pending_length = s.pending_length })
      else (
        ok true,
        record r {
          pending_length = s.pending_length;
          batch = take s.validated_len r.buffer;
          buffer = drop s.validated_len r.buffer;
          capacity = r.capacity - s.validated_len;
          batch_offset = 0;
        },
      )

-- The error at the end of the input inside a record.
unfoldable pub truncated : Option ℕ → ℕ → RecordReadError
truncated (some expected) actual = truncated_record expected actual
truncated none actual = truncated_header actual

module _ {S : Type 0} where
  -- The arms of the `match` on one read, given the loop for the next round.
  unfoldable pub after_read :
      Exec (RecordReader S) RecordReadError Bool
      → Outcome IoError (List ℕ)
      → Exec (RecordReader S) RecordReadError Bool
  unfolding truncated
  after_read loop (ok []) r = elim r.buffer [
    | [] ↦ (ok false, record r { state = finished })
    | b ∷ bs ↦ (err (truncated r.pending_length (length r.buffer)), record r { state = failed })
  ]
  after_read loop (ok (b ∷ bs)) r = loop (record r { buffer = r.buffer ++ (b ∷ bs) })
  after_read loop (err interrupted) r = loop r
  after_read loop (err e) r = (err (io e), record r { state = failed })
  after_read loop dropped r = (dropped, r)
  after_read loop panicked r = (panicked, r)
  after_read loop stuck r = (stuck, r)

module _ {S : Type 0} (s : Source S) (reserve : ℕ → ℕ → ℕ → ℕ) where
  -- `reserve capacity len additional` is the capacity after `BytesMut::reserve(additional)`. The
  -- subtraction of the buffered length is checked, so it would panic below zero.
  unfoldable pub receive :
      Exec (RecordReader S) RecordReadError Bool → Exec (RecordReader S) RecordReadError Bool
  unfolding after_read
  receive loop r =
      let required : ℕ = elim r.pending_length [ some n ↦ n | none ↦ header_len ] in
      let capacity = reserve r.capacity (length r.buffer) (required - length r.buffer) in
      let (received, source) = s.read_buf (capacity - length r.buffer) r.source in
      if ltb required (length r.buffer)
      then (panicked, r)
      else after_read loop received (record r { capacity = capacity; source = source })

module _ {S : Type 0} (crc32c : List ℕ → ℕ) (s : Source S) (reserve : ℕ → ℕ → ℕ → ℕ) where
  unfoldable pub after_prepare :
      Exec (RecordReader S) RecordReadError Bool
      → Outcome RecordReadError Bool
      → Exec (RecordReader S) RecordReadError Bool
  unfolding receive
  after_prepare loop (ok true) r = (ok true, r)
  after_prepare loop (ok false) r = receive s reserve loop r
  after_prepare loop (err e) r = (err e, record r { state = failed })
  after_prepare loop dropped r = (dropped, r)
  after_prepare loop panicked r = (panicked, r)
  after_prepare loop stuck r = (stuck, r)

  -- The loop of `wait_to_read`; each round but the last reads once.
  unfoldable pub fill : ℕ → Exec (RecordReader S) RecordReadError Bool
  unfolding after_prepare
  fill zero r = (stuck, r)
  fill (suc fuel) r =
      let (prepared, r') = prepare_batch crc32c r in after_prepare (fill fuel) prepared r'

  unfoldable pub wait_to_read : ℕ → Exec (RecordReader S) RecordReadError Bool
  unfolding fill
  wait_to_read fuel r = elim r.state [
    | finished ↦ (ok false, r)
    | failed ↦ (err reader_failed, r)
    | active ↦ elim r.batch [ [] ↦ fill fuel r | b ∷ bs ↦ (ok true, r) ]
  ]
