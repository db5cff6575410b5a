-- ===== src/RecordWriter/Builder.antt =====
-- record_builder.rs and record_build_error.rs: a record under construction in the spare capacity of
-- the writer's buffer.
use transaction_log.Common.{
  Bool, Exec, List, Option, Outcome, continue, err, false, if◌then◌else◌, length, ltb, map_err,
  none, ok, pure, some, take, true, ℕ, ◌%◌, ◌++◌, ◌+◌, ◌-◌, ◌^◌,
}
use transaction_log.Io.Error.{IoError, invalid_input}
use transaction_log.Record.Protocol.{header_len, min_record_len, max_payload_len}
use transaction_log.Record.Protocol.Write
use transaction_log.Record.Protocol.Write.{store}
use transaction_log.Record.RecordId.{RecordId}

pub data RecordBuildError : Type 0 where
  payload_too_large : RecordBuildError

-- `io::Error::from(RecordBuildError)`
abbrev pub to_io : RecordBuildError → IoError
to_io payload_too_large = invalid_input

-- `buffer` holds the initialized bytes, so `start` is its length; `memory` is the reserved capacity
-- behind them, from `record_start` on, with whatever it held before.
pub record RecordBuilder : Type 0 where
  pub buffer : List ℕ
  pub memory : List ℕ
  pub payload_len : ℕ
  pub error : Option RecordBuildError
  pub finished : Bool

-- `reserved` gives the memory that `BytesMut::reserve(MAX_RECORD_LEN)` makes available behind a
-- buffer.
unfoldable pub new : (List ℕ → List ℕ) → List ℕ → RecordBuilder
new reserved buffer = record {
  buffer = buffer;
  memory = reserved buffer;
  payload_len = 0;
  error = none;
  finished = false;
}

unfoldable pub check_error : RecordBuilder → Outcome RecordBuildError (Unit {0})
check_error b = elim b.error [ some e ↦ err e | none ↦ ok tt ]

-- `io::Write::write`
unfoldable pub write : List ℕ → Exec RecordBuilder IoError ℕ
unfolding check_error store
write bytes b = elim b.error [
  | some e ↦ (err (to_io e), b)
  | none ↦
      if ltb (max_payload_len - b.payload_len) (length bytes)
      then (err (to_io payload_too_large), record b { error = some payload_too_large })
      else (
        ok (length bytes),
        record b {
          memory = store (header_len + b.payload_len) bytes b.memory;
          payload_len = b.payload_len + length bytes;
        },
      )
]

-- `io::Write::write_all`
unfoldable pub write_all : List ℕ → Exec RecordBuilder IoError (Unit {0})
unfolding write
write_all bytes b = let (r, b') = write bytes b in continue r (λ _. pure tt) b'

-- `io::Write::flush`
unfoldable pub flush : Exec RecordBuilder IoError (Unit {0})
unfolding check_error
flush b = (map_err to_io (check_error b), b)

-- `Drop`: an unfinished record is cut off the buffer.
unfoldable pub drop_builder : RecordBuilder → List ℕ
drop_builder b = if b.finished then b.buffer else take (length b.buffer) b.buffer

-- `finish`, and the drop at its end: the result and the buffer that the writer has again.
-- `length as u16` keeps the low sixteen bits, and `set_len` takes the record into the buffer.
unfoldable pub finish :
    (List ℕ → ℕ) → RecordId → RecordBuilder → Outcome RecordBuildError (Unit {0}) × List ℕ
unfolding check_error drop_builder
finish crc32c id b = elim b.error [
  | some e ↦ (err e, drop_builder b)
  | none ↦
      let record_len = b.payload_len + min_record_len in
      let memory₁ = Write.header (record_len % 2 ^ 16) id b.memory in
      let memory₂ = Write.crc crc32c record_len memory₁ in
      let b' = record b {
        memory = memory₂;
        buffer = b.buffer ++ take record_len memory₂;
        finished = true;
      } in
      (ok tt, drop_builder b')
]
